-- ===== src/Pluginhost/Breaker/Probes.antt =====
-- What an open breaker (core/pluginhost/breaker.go) admits, and how it closes.
use moduless.Base.{
  ℕ, zero, suc, ◌+◌, ◌≤◌, ◌<◌, ◌≡◌, ◌≢◌, refl, Bool, true, false, List, [], ◌∷◌, map, arith,
}
use moduless.Pluginhost.Breaker.{
  Breaker, allow, record_failure, record_success, Call, succeeded, step, run,
}
use moduless.Pluginhost.Breaker.Invariant.{IsValid, step-IsValid}

-- The answers of calls of `Allow` with no result recorded between them.
pub answers : List ℕ → Breaker → List Bool
answers [] b = []
answers (t ∷ ts) b = let (a, b') = allow t b in a ∷ answers ts b'

answers_probing :
    (ts : List ℕ) (b : Breaker)
    → b.open_until ≢ 0
    → b.probing ≡ true
    → answers ts b ≡ map (λ _. false) ts
unfolding answers allow
answers_probing [] b o p = refl
answers_probing (t ∷ ts) b o p =
    ground (arith, answers_probing ts b, answers_probing ts (record b { probing = true }))

-- Once the open time has passed, the first of any calls of `Allow` is admitted as a probe, and
-- every other one is refused until a result is recorded.
pub answers_one_probe :
    (t : ℕ) (ts : List ℕ) (b : Breaker)
    → b.open_until ≢ 0
    → b.probing ≡ false
    → b.open_until ≤ t
    → answers (t ∷ ts) b ≡ true ∷ map (λ _. false) ts
unfolding answers allow
answers_one_probe t ts b o p h = ground (arith, answers_probing ts (record b { probing = true }))

-- After a failure at `now` an open breaker refuses every call for the open duration, and does not
-- change by refusing it.
pub allow-record_failure :
    (now t : ℕ) (b : Breaker)
    → IsValid b
    → b.open_until ≢ 0
    → t < now + b.cfg.open_duration
    → allow t (record_failure now b) ≡ (false, record_failure now b)
unfolding allow record_failure
allow-record_failure now t b v o h = ground arith

-- `k` successes in a row.
abbrev successes : ℕ → List Call
successes zero = []
successes (suc k) = succeeded ∷ successes k

-- An open breaker closes at the success with which those recorded in a row reach the configured
-- number, and is open, until the same time, before it. No clock reading and no admitted probe is
-- among the hypotheses.
pub run-successes :
    (k : ℕ) (b : Breaker)
    → IsValid b
    → b.open_until ≢ 0
    → b.half_open_successes + k + 1 ≡ b.cfg.half_open_needed
    → ((run (successes k) b).open_until ≡ b.open_until)
      × ((record_success (run (successes k) b)).open_until ≡ 0)
unfolding run step record_success
run-successes zero b v o h = ground arith
run-successes (suc k) b v o h =
    ground (arith, run-successes k (record_success b) (step-IsValid succeeded b v))
