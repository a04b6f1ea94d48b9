-- ===== src/Pluginhost/Breaker/Tests.antt =====
-- Runs of the circuit breaker.
use moduless.Base.{◌≡◌, refl, false, [], ◌∷◌, pos, negsuc, arith, map}
use moduless.Pluginhost.Breaker.{Breaker, RawConfig, new_breaker, run, step, failed}
use moduless.Pluginhost.Breaker.Invariant.{IsValid, new_breaker-IsValid}
use moduless.Pluginhost.Breaker.Trips.{run-failed_opens}

abbrev defaults : RawConfig
defaults = record { raw_threshold = pos 5; raw_duration = pos 5_000_000_000; raw_successes = pos 2 }

new_breaker-IsValid_example :
    IsValid (
      new_breaker
        (record { raw_threshold = negsuc 3; raw_duration = pos 0; raw_successes = pos 2 }))
new_breaker-IsValid_example = new_breaker-IsValid _ (omega arith) (omega arith)

abbrev fresh : Breaker
fresh = record {
  cfg = record { failure_threshold = 3; open_duration = 10; half_open_needed = 2 };
  consecutive_failures = 0;
  open_until = 0;
  half_open_successes = 0;
  probing = false;
}

fresh-IsValid : IsValid fresh
fresh-IsValid = ground arith

abbrev tripped : Breaker
tripped = record fresh { open_until = 110 }

tripped-IsValid : IsValid tripped
tripped-IsValid = ground arith

trips_at_third : (run (failed 1 ∷ failed 2 ∷ failed 100 ∷ []) fresh).open_until ≡ 110
unfolding run
trips_at_third = refl

run-failed_opens_example :
    (step (failed 100) (run (map failed (1 ∷ 2 ∷ [])) fresh)).open_until ≡ 110
run-failed_opens_example = run-failed_opens (1 ∷ 2 ∷ []) 100 fresh fresh-IsValid refl refl
