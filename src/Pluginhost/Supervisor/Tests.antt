-- ===== src/Pluginhost/Supervisor/Tests.antt =====
-- Runs of the restart policy.
use moduless.Base.{ℕ, ◌≡◌, ◌≢◌, refl, true, false, [], ◌∷◌, bytes, arith, leb, Bytes, lookup}
use moduless.Pluginhost.Supervisor.{
  Supervisor, Attempt, errored, retrying, gave_up, too_many_crashes, recover,
}
use moduless.Pluginhost.Supervisor.Policy.{crash_all, IsFresh, crashes_quarantine, recover_ends}

abbrev plugin : Bytes
plugin = bytes "p"

abbrev calm : Supervisor
calm = record {
  cfg = record { initial_backoff = 3; max_backoff = 20; crash_threshold = 3; crash_window = 100 };
  crashes = [];
  quarantined = [];
}

calm-IsFresh : (t : ℕ) → IsFresh t plugin calm
unfolding lookup
calm-IsFresh t rec e = absurd (cc)

-- A pass at a clock reading whose restart failed.
abbrev failing : ℕ → Attempt
failing t = record {
  crashed_at = t;
  given_up_at = t;
  is_interrupted = false;
  is_registered = true;
  relaunched = errored;
}

third_pass_gives_up : recover plugin (failing 5 ∷ failing 10 ∷ failing 20 ∷ []) calm ≡ (
  gave_up,
  3 ∷ 6 ∷ [],
  record calm {
    crashes = (plugin, record { count = 3; first_at = 5 }) ∷ [];
    quarantined = (plugin, 20) ∷ [];
  },
)
unfolding recover
third_pass_gives_up = refl

-- With a threshold of one the first crash is not enough.
one_crash_restarts :
    (too_many_crashes 5 plugin (record calm { cfg = record calm.cfg { crash_threshold = 1 } })).0
    ≡ false
unfolding too_many_crashes
one_crash_restarts = refl

crashes_quarantine_example :
    (too_many_crashes 30 plugin (crash_all plugin (5 ∷ 10 ∷ []) calm)).0 ≡ leb 3 3
crashes_quarantine_example =
    crashes_quarantine plugin 5 30 (10 ∷ []) calm (calm-IsFresh 5) (omega arith, tt) (omega arith)
      (omega arith)

recover_ends_example : (recover plugin (failing 5 ∷ failing 10 ∷ failing 20 ∷ []) calm).0 ≢ retrying
recover_ends_example =
    recover_ends plugin (failing 5) (failing 10 ∷ failing 20 ∷ []) calm (calm-IsFresh 5)
      (omega arith, (omega arith, tt)) (omega arith) (omega arith) (omega arith)
