-- ===== src/Pluginhost/Supervisor.antt =====
-- core/pluginhost/supervisor.go: the restart policy. A method that takes the mutex is one step on
-- the crash table; clock readings are arguments. Counts and durations that are computed are 64-bit
-- patterns with their wrap-around.
use moduless.Base.{
  ℕ, zero, suc, ◌+◌, ◌*◌, ◌-◌, ◌%◌, Bool, true, false, ◌&&◌, Option, none, some, List, [], ◌∷◌,
  if◌then◌else◌, ltb, leb, negate, ℤ, default_unless_pos, Bytes, Dict, lookup, insert, erase,
}
pub mod Policy
mod Tests

-- A configuration as it is given; the poll interval only paces the watch.
pub record RawSupervisorConfig : Type 0 where
  pub raw_initial_backoff : ℤ
  pub raw_max_backoff : ℤ
  pub raw_crash_threshold : ℤ
  pub raw_crash_window : ℤ

pub record SupervisorConfig : Type 0 where
  pub initial_backoff : ℕ
  pub max_backoff : ℕ
  pub crash_threshold : ℕ
  pub crash_window : ℕ

pub record CrashRecord : Type 0 where
  pub count : ℕ
  pub first_at : ℕ

pub record Supervisor : Type 0 where
  pub cfg : SupervisorConfig
  pub crashes : Dict CrashRecord
  pub quarantined : Dict ℕ

-- `NewSupervisor`; a second, a minute and five minutes, in nanoseconds.
unfoldable pub new_supervisor : RawSupervisorConfig → Supervisor
new_supervisor raw = record {
  cfg = record {
    initial_backoff = default_unless_pos 1_000_000_000 raw.raw_initial_backoff;
    max_backoff = default_unless_pos 60_000_000_000 raw.raw_max_backoff;
    crash_threshold = default_unless_pos 5 raw.raw_crash_threshold;
    crash_window = default_unless_pos 300_000_000_000 raw.raw_crash_window;
  };
  crashes = [];
  quarantined = [];
}

abbrev pub wrap : ℕ → ℕ
wrap n = n % 18446744073709551616

-- `x >= limit` between `int64` patterns, for a limit that is not negative.
abbrev pub at_least : ℕ → ℕ → Bool
at_least x limit = ltb x 9223372036854775808 && leb limit x

abbrev pub first_crash : ℕ → CrashRecord
first_crash now = record { count = 1; first_at = now }

abbrev pub next_crash : CrashRecord → CrashRecord
next_crash rec = record rec { count = wrap (rec.count + 1) }

-- `tooManyCrashes`; `now.Sub(rec.firstAt)` may be negative.
unfoldable pub too_many_crashes : ℕ → Bytes → Supervisor → Bool × Supervisor
unfolding lookup insert
too_many_crashes now key s = elim (lookup key s.crashes) [
  | none ↦ (false, record s { crashes = insert key (first_crash now) s.crashes })
  | some rec ↦
      if ltb (rec.first_at + s.cfg.crash_window) now
      then (false, record s { crashes = insert key (first_crash now) s.crashes })
      else (
        at_least (next_crash rec).count s.cfg.crash_threshold,
        record s { crashes = insert key (next_crash rec) s.crashes },
      )
]

-- The loop of `backoffFor`, with the rounds left.
unfoldable pub backoff_from : ℕ → ℕ → ℕ → ℕ
backoff_from max zero backoff = backoff
backoff_from max (suc k) backoff =
    let doubled = wrap (backoff * 2) in
    let rest = backoff_from max k doubled in if at_least doubled max then max else rest

-- The rounds of `for range n - 1`; none if `n - 1` is not positive.
abbrev pub rounds : ℕ → ℕ
rounds n = if ltb n 9223372036854775808 then n - 1 else 0

-- `backoffFor`.
unfoldable pub backoff_for : Bytes → Supervisor → ℕ
unfolding lookup backoff_from
backoff_for key s = elim (lookup key s.crashes) [
  | none ↦ backoff_from s.cfg.max_backoff (rounds 1) s.cfg.initial_backoff
  | some rec ↦ backoff_from s.cfg.max_backoff (rounds rec.count) s.cfg.initial_backoff
]

-- `ClearCrashes`.
unfoldable pub clear_crashes : Bytes → Supervisor → Supervisor
unfolding erase
clear_crashes key s = record s {
  crashes = erase key s.crashes;
  quarantined = erase key s.quarantined;
}

-- `QuarantinedSince`.
unfoldable pub quarantined_since : Bytes → Supervisor → Option ℕ
unfolding lookup
quarantined_since key s = lookup key s.quarantined

-- What `relaunch` answers: `ErrPluginDisabled`, another error, or an instance.
pub data Relaunch : Type 0 where
  disabled errored started : Relaunch

-- One pass of `recover`: its clock readings, whether the wait for the backoff was ended by `stop` or
-- the context, whether the registry still has the plugin, and what `relaunch` answered.
pub record Attempt : Type 0 where
  pub crashed_at : ℕ
  pub given_up_at : ℕ
  pub is_interrupted : Bool
  pub is_registered : Bool
  pub relaunched : Relaunch

-- How a call of `recover` can stand: it gave the plugin up, removing, marking and killing its
-- instances; it returned without a restart; it installed a new instance; or it is still trying when
-- the passes end.
pub data Recovery : Type 0 where
  gave_up interrupted unregistered abandoned restarted retrying : Recovery

-- `recover`, a pass for each of its calls of itself; with the backoffs that it waited for.
unfoldable pub recover : Bytes → List Attempt → Supervisor → Recovery × List ℕ × Supervisor
unfolding too_many_crashes backoff_for
recover key [] s = (retrying, [], s)
recover key (a ∷ as_) s =
    let (too_many, s') = too_many_crashes a.crashed_at key s in
    let (end, waits, s'') = recover key as_ s' in
    let waited = backoff_for key s' ∷ [] in
    if too_many
    then (gave_up, [], record s' { quarantined = insert key a.given_up_at s'.quarantined })
    else if a.is_interrupted
    then (interrupted, waited, s')
    else if negate a.is_registered
    then (unregistered, waited, s')
    else elim a.relaunched [
      | disabled ↦ (abandoned, waited, s')
      | errored ↦ (end, backoff_for key s' ∷ waits, s'')
      | started ↦ (restarted, waited, s')
    ]
