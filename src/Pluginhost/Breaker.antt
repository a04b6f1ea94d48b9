-- ===== src/Pluginhost/Breaker.antt =====
-- core/pluginhost/breaker.go. Each method is one step: its atomic loads and stores are taken
-- together. The `int32` counters are 32-bit patterns, with their wrap-around; a clock reading is
-- `UnixNano` of a date that an `int64` holds, and 0 in `open_until` means closed.
use moduless.Base.{
  ℕ, zero, suc, ◌+◌, ◌%◌, ◌^◌, Bool, true, false, ◌&&◌, List, [], ◌∷◌, if◌then◌else◌, ◌==◌, ltb,
  leb, negate, ℤ, default_unless_pos,
}
pub mod Invariant
pub mod Trips
pub mod Probes
mod Tests

-- A configuration as it is given.
pub record RawConfig : Type 0 where
  pub raw_threshold : ℤ
  pub raw_duration : ℤ
  pub raw_successes : ℤ

pub record BreakerConfig : Type 0 where
  pub failure_threshold : ℕ
  pub open_duration : ℕ
  pub half_open_needed : ℕ

pub record Breaker : Type 0 where
  pub cfg : BreakerConfig
  pub consecutive_failures : ℕ
  pub open_until : ℕ
  pub half_open_successes : ℕ
  pub probing : Bool

-- 5 * time.Second, in nanoseconds.
abbrev pub five_seconds : ℕ
five_seconds = 5_000_000_000

-- `NewBreaker`.
unfoldable pub new_breaker : RawConfig → Breaker
new_breaker raw = record {
  cfg = record {
    failure_threshold = default_unless_pos 5 raw.raw_threshold;
    open_duration = default_unless_pos five_seconds raw.raw_duration;
    half_open_needed = default_unless_pos 2 raw.raw_successes;
  };
  consecutive_failures = 0;
  open_until = 0;
  half_open_successes = 0;
  probing = false;
}

-- `Allow` at a clock reading: the answer and the breaker after it.
unfoldable pub allow : ℕ → Breaker → Bool × Breaker
allow now b =
    if b.open_until == 0
    then (true, b)
    else if ltb now b.open_until
    then (false, b)
    else (negate b.probing, record b { probing = true })

-- `Open`.
unfoldable pub is_open : ℕ → Breaker → Bool
is_open now b = negate (b.open_until == 0) && ltb now b.open_until

-- `x.Add(1)` on an `atomic.Int32`.
abbrev pub add_one : ℕ → ℕ
add_one n = (n + 1) % 4294967296

-- `x >= limit` between `int32` patterns, for a limit that is not negative.
abbrev pub reaches : ℕ → ℕ → Bool
reaches x limit = ltb x 2147483648 && leb limit x

-- `RecordSuccess`.
unfoldable pub record_success : Breaker → Breaker
record_success b =
    let fresh = record b { consecutive_failures = 0 } in
    let more = add_one b.half_open_successes in
    if b.open_until == 0
    then fresh
    else if reaches more b.cfg.half_open_needed
    then record fresh { open_until = 0; half_open_successes = 0; probing = false }
    else record fresh { half_open_successes = more; probing = false }

-- `RecordFailure` at a clock reading.
unfoldable pub record_failure : ℕ → Breaker → Breaker
record_failure now b =
    let fresh = record b { half_open_successes = 0 } in
    let more = add_one b.consecutive_failures in
    if negate (b.open_until == 0)
    then record fresh { open_until = now + b.cfg.open_duration; probing = false }
    else if reaches more b.cfg.failure_threshold
    then record fresh { open_until = now + b.cfg.open_duration; consecutive_failures = 0 }
    else record fresh { consecutive_failures = more }

-- `Reset`.
unfoldable pub reset : Breaker → Breaker
reset b = record b {
  consecutive_failures = 0;
  open_until = 0;
  half_open_successes = 0;
  probing = false;
}

-- A call of a method, with the clock reading that it takes.
pub data Call : Type 0 where
  allowed : ℕ → Call
  succeeded : Call
  failed : ℕ → Call
  was_reset : Call

unfoldable pub step : Call → Breaker → Breaker
unfolding allow record_success record_failure reset
step (allowed now) b = (allow now b).1
step succeeded b = record_success b
step (failed now) b = record_failure now b
step was_reset b = reset b

-- Calls by any goroutines, in the order in which they take effect.
unfoldable pub run : List Call → Breaker → Breaker
unfolding step
run [] b = b
run (c ∷ cs) b = run cs (step c b)
