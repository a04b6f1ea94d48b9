-- ===== src/Pluginhost/Instance/Counts.antt =====
-- The counter of requests in flight (core/pluginhost/instance.go).
use moduless.Base.{ℕ, zero, suc, ◌+◌, ◌≤◌, ◌<◌, ◌≡◌, refl, List, [], ◌∷◌, arith, length}
use moduless.Pluginhost.Instance.{Instance}
use moduless.Pluginhost.Instance.Race.{
  Request, waiting, checked, counted, backing_out, running, ending, ended, refused, Drain, System,
  Action, request, drain_on, give_up, fail, quarantine, stop, idle, looking, blocked, killing,
  stopping, drained, advance, advance_at, drain_step, step, run, start, fresh_requests,
}

-- A request between its increment and its decrement.
abbrev pub holds : Request → ℕ
holds counted = 1
holds backing_out = 1
holds running = 1
holds ending = 1
holds waiting = 0
holds checked = 0
holds ended = 0
holds refused = 0

abbrev pub holders : List Request → ℕ
holders [] = 0
holders (r ∷ rs) = holds r + holders rs

pub holders-le : (rs : List Request) → holders rs ≤ length rs
holders-le [] = omega arith
holders-le (waiting ∷ rs) = omega (arith, holders-le rs)
holders-le (checked ∷ rs) = omega (arith, holders-le rs)
holders-le (counted ∷ rs) = omega (arith, holders-le rs)
holders-le (backing_out ∷ rs) = omega (arith, holders-le rs)
holders-le (running ∷ rs) = omega (arith, holders-le rs)
holders-le (ending ∷ rs) = omega (arith, holders-le rs)
holders-le (ended ∷ rs) = omega (arith, holders-le rs)
holders-le (refused ∷ rs) = omega (arith, holders-le rs)

-- One request's operation moves the counter as it moves the request; `k` counts the others.
advance-holds :
    (r : Request) (i : Instance) (k : ℕ)
    → i.inflight ≡ holds r + k
    → k < 9223372036854775807
    → let (r', i') = advance r i in i'.inflight ≡ holds r' + k
unfolding advance
advance-holds waiting i k h b = ground arith
advance-holds checked i k h b = ground arith
advance-holds counted i k h b = ground arith
advance-holds backing_out i k h b = ground arith
advance-holds running i k h b = ground arith
advance-holds ending i k h b = ground arith
advance-holds ended i k h b = ground arith
advance-holds refused i k h b = ground arith

advance_at-holders :
    (n : ℕ) (rs : List Request) (i : Instance) (k : ℕ)
    → i.inflight ≡ holders rs + k
    → length rs + k < 9223372036854775808
    → let (rs', i') = advance_at n rs i in
      (i'.inflight ≡ holders rs' + k) × (length rs' ≡ length rs)
unfolding advance_at
advance_at-holders n [] i k h b = (h, refl)
advance_at-holders zero (r ∷ rs) i k h b =
    ground (arith, advance-holds r i (holders rs + k), holders-le rs)
advance_at-holders (suc n) (r ∷ rs) i k h b =
    ground (arith, advance_at-holders n rs i (holds r + k), holders-le (r ∷ []))

-- The counter is the number of holders, and cannot overflow.
pub record IsCounted (s : System) : Type 0 where
  pub exact : s.inst.inflight ≡ holders s.requests
  pub few : length s.requests < 9223372036854775808

drain_step-IsCounted : (d : Drain) (s : System) → IsCounted s → IsCounted (drain_step d s)
unfolding drain_step
drain_step-IsCounted idle s c = ground arith
drain_step-IsCounted looking s c = ground arith
drain_step-IsCounted blocked s c = ground arith
drain_step-IsCounted (killing clean) s c = ground arith
drain_step-IsCounted (stopping clean) s c = ground arith
drain_step-IsCounted (drained clean) s c = ground arith

pub step-IsCounted : (a : Action) (s : System) → IsCounted s → IsCounted (step a s)
unfolding step
step-IsCounted (request n) s c = ground (arith, advance_at-holders n s.requests s.inst 0)
step-IsCounted drain_on s c = drain_step-IsCounted s.drain s c
step-IsCounted give_up s c = ground arith
step-IsCounted fail s c = ground arith
step-IsCounted quarantine s c = ground arith
step-IsCounted stop s c = ground arith

run-IsCounted : (as_ : List Action) (s : System) → IsCounted s → IsCounted (run as_ s)
unfolding run
run-IsCounted [] s c = c
run-IsCounted (a ∷ as_) s c = run-IsCounted as_ (step a s) (step-IsCounted a s c)

holders-fresh_requests :
    (n : ℕ) → (holders (fresh_requests n) ≡ 0) × (length (fresh_requests n) ≡ n)
holders-fresh_requests zero = (refl, refl)
holders-fresh_requests (suc n) = ground (arith, holders-fresh_requests n)

pub start-IsCounted : (i : Instance) (n : ℕ) → n < 9223372036854775808 → IsCounted (start i n)
start-IsCounted i n b = ground (arith, holders-fresh_requests n)

-- In every interleaving of fewer than 2^63 requests with a drain and with marks of the instance,
-- `InFlight` is the number of requests between their increment and their decrement: none is counted
-- twice or forgotten.
pub run-inflight :
    (i : Instance) (n : ℕ) (as_ : List Action)
    → n < 9223372036854775808
    → (run as_ (start i n)).inst.inflight ≡ holders (run as_ (start i n)).requests
run-inflight i n as_ b = (run-IsCounted as_ (start i n) (start-IsCounted i n b)).exact
