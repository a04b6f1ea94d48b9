-- ===== src/Pluginhost/Breaker/Trips.antt =====
-- When a breaker (core/pluginhost/breaker.go) opens, and what it admits while it is open.
use moduless.Base.{ℕ, ◌+◌, ◌<◌, ◌≡◌, refl, List, [], ◌∷◌, map, arith, length}
use moduless.Pluginhost.Breaker.{Breaker, failed, step, run}
use moduless.Pluginhost.Breaker.Invariant.{IsValid, step-IsValid}

-- A failure of a closed breaker that is not the last one allowed.
failed_below :
    (b : Breaker) (t : ℕ)
    → IsValid b
    → b.open_until ≡ 0
    → b.consecutive_failures + 1 < b.cfg.failure_threshold
    → step (failed t) b
      ≡ record b { half_open_successes = 0; consecutive_failures = b.consecutive_failures + 1 }
unfolding step
failed_below b t v c h = ground arith

-- A closed breaker stays closed while its failures in a row are fewer than the threshold, and
-- counts them.
pub run-failed_below :
    (ts : List ℕ) (b : Breaker)
    → IsValid b
    → b.open_until ≡ 0
    → b.consecutive_failures + length ts < b.cfg.failure_threshold
    → let b' = run (map failed ts) b in
      (b'.open_until ≡ 0)
      × (b'.consecutive_failures ≡ b.consecutive_failures + length ts)
      × (b'.cfg ≡ b.cfg)
      × IsValid b'
unfolding run
run-failed_below [] b v c h = (c, omega arith, refl, v)
run-failed_below (t ∷ ts) b v c h = ground (
  arith,
  failed_below b t v c,
  run-failed_below ts (step (failed t) b) (step-IsValid (failed t) b v),
)

-- A closed breaker opens, for its open duration, at the failure with which the failures in a row
-- reach the threshold.
pub run-failed_opens :
    (ts : List ℕ) (now : ℕ) (b : Breaker)
    → IsValid b
    → b.open_until ≡ 0
    → b.consecutive_failures + length ts + 1 ≡ b.cfg.failure_threshold
    → (step (failed now) (run (map failed ts) b)).open_until ≡ now + b.cfg.open_duration
unfolding step
run-failed_opens ts now b v c h = ground (arith, run-failed_below ts b v c)
