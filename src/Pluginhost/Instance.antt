-- ===== src/Pluginhost/Instance.antt =====
-- core/pluginhost/instance.go: the state of one plugin process as the core sees it. Each operation
-- here is one atomic load, store or swap, or one of them with the local test behind it; `Race` puts
-- them together. The `int64` counter is a 64-bit pattern with its wrap-around.
use moduless.Base.{
  ℕ, ◌+◌, ◌%◌, Bool, true, false, ◌&&◌, if◌then◌else◌, ltb, ℤ, pos, default_unless_pos, Bytes,
}
use moduless.Pluginhost.Breaker.{Breaker, RawConfig, new_breaker, five_seconds}
pub mod Race
pub mod Counts
pub mod Drained
mod Tests

pub data State : Type 0 where
  starting ready draining stopped failed quarantined : State

pub record Instance : Type 0 where
  pub key : Bytes
  pub instance_id : Bytes
  pub version : Bytes
  pub weight : ℕ
  pub breaker : Breaker
  pub state : State
  pub inflight : ℕ

-- `DefaultBreakerConfig`.
abbrev default_breaker_config : RawConfig
default_breaker_config = record {
  raw_threshold = pos 5;
  raw_duration = pos five_seconds;
  raw_successes = pos 2;
}

-- `NewInstance`, without the client, the process and the start time.
unfoldable pub new_instance : Bytes → Bytes → Bytes → ℤ → Instance
unfolding new_breaker
new_instance key instance_id version weight = record {
  key = key;
  instance_id = instance_id;
  version = version;
  weight = default_unless_pos 1 weight;
  breaker = new_breaker default_breaker_config;
  state = starting;
  inflight = 0;
}

-- `setState`, and so `MarkReady`, `MarkFailed` and `MarkQuarantined`.
unfoldable pub set_state : State → Instance → Instance
set_state st i = record i { state = st }

-- `i.State() != StateReady`, the other way round.
abbrev pub is_ready : State → Bool
is_ready ready = true
is_ready _ = false

-- `Servable`.
unfoldable pub servable : Instance → Bool
servable i = elim i.state [
  | ready ↦ true
  | draining ↦ true
  | starting ↦ false
  | stopped ↦ false
  | failed ↦ false
  | quarantined ↦ false
]

abbrev pub two_to_64 : ℕ
two_to_64 = 18446744073709551616

-- `i.inflight.Add(1)` and `i.inflight.Add(-1)`.
unfoldable pub add_inflight : Instance → Instance
add_inflight i = record i { inflight = (i.inflight + 1) % two_to_64 }

unfoldable pub sub_inflight : Instance → Instance
sub_inflight i = record i { inflight = (i.inflight + 18446744073709551615) % two_to_64 }

-- `i.inflight.Load() > 0`.
unfoldable pub is_busy : Instance → Bool
is_busy i = ltb 0 i.inflight && ltb i.inflight 9223372036854775808

-- The swap of `terminate`'s loop; a lost swap is retried, so it takes effect once.
unfoldable pub mark_stopped : Instance → Instance
mark_stopped i = elim i.state [
  | quarantined ↦ i
  | starting ↦ record i { state = stopped }
  | ready ↦ record i { state = stopped }
  | draining ↦ record i { state = stopped }
  | stopped ↦ record i { state = stopped }
  | failed ↦ record i { state = stopped }
]
