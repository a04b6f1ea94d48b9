-- ===== src/Pluginhost/Breaker/Invariant.antt =====
-- What holds of a breaker (core/pluginhost/breaker.go) after any calls.
use moduless.Base.{
  ℕ, zero, suc, ◌<◌, ◌≡◌, false, List, [], ◌∷◌, arith, default_unless_pos, ℤ, pos, negsuc,
}
use moduless.Pluginhost.Breaker.{
  RawConfig, Breaker, new_breaker, Call, allowed, succeeded, failed, was_reset, step, run,
}

-- The counters stay below their limits, so they never wrap, and a closed breaker has neither a
-- probe nor probe successes.
pub record IsValid (b : Breaker) : Type 0 where
  pub threshold_pos : 0 < b.cfg.failure_threshold
  pub threshold_int32 : b.cfg.failure_threshold < 2147483648
  pub duration_pos : 0 < b.cfg.open_duration
  pub needed_pos : 0 < b.cfg.half_open_needed
  pub needed_int32 : b.cfg.half_open_needed < 2147483648
  pub failures_below : b.consecutive_failures < b.cfg.failure_threshold
  pub successes_below : b.half_open_successes < b.cfg.half_open_needed
  pub closed_idle : b.open_until ≡ 0 → b.probing ≡ false
  pub closed_fresh : b.open_until ≡ 0 → b.half_open_successes ≡ 0

-- A value of Go's `int32`.
abbrev pub IsInt32 : ℤ → Type 0
IsInt32 (pos n) = n < 2147483648
IsInt32 (negsuc n) = n < 2147483648

default-below :
    (d : ℕ) (x : ℤ)
    → 0 < d
    → d < 2147483648
    → IsInt32 x
    → (0 < default_unless_pos d x) × (default_unless_pos d x < 2147483648)
default-below d (pos zero) p q h = (p, q)
default-below d (pos (suc n)) p q h = (omega arith, h)
default-below d (negsuc n) p q h = (p, q)

default_pos : (d : ℕ) (x : ℤ) → 0 < d → 0 < default_unless_pos d x
default_pos d (pos zero) p = p
default_pos d (pos (suc n)) p = omega arith
default_pos d (negsuc n) p = p

-- Whatever `int32` values a configuration gives, the new breaker is valid.
pub new_breaker-IsValid :
    (raw : RawConfig)
    → IsInt32 raw.raw_threshold
    → IsInt32 raw.raw_successes
    → IsValid (new_breaker raw)
unfolding new_breaker
new_breaker-IsValid raw t s = ground (
  arith,
  default-below 5 raw.raw_threshold,
  default-below 2 raw.raw_successes,
  default_pos 5_000_000_000 raw.raw_duration,
)

pub step-IsValid : (c : Call) (b : Breaker) → IsValid b → IsValid (step c b)
unfolding step
step-IsValid (allowed now) b v = ground arith
step-IsValid succeeded b v = ground arith
step-IsValid (failed now) b v = ground arith
step-IsValid was_reset b v = ground arith

-- Any sequence of calls keeps a breaker valid: no counter reaches its limit without being reset,
-- so none of them wraps around.
pub run-IsValid : (cs : List Call) (b : Breaker) → IsValid b → IsValid (run cs b)
unfolding run
run-IsValid [] b v = v
run-IsValid (c ∷ cs) b v = run-IsValid cs (step c b) (step-IsValid c b v)
