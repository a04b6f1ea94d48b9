-- ===== src/Pluginhost/Instance/Drained.antt =====
-- What `Drain` of core/pluginhost/instance.go promises to the requests that it finds.
use moduless.Base.{
  ℕ, zero, suc, ◌<◌, ◌≡◌, refl, Bool, true, false, List, [], ◌∷◌, arith, All, ap, sym, ◌∙◌, inl,
  inr, Bool-cases,
}
use moduless.Pluginhost.Instance.{Instance, is_ready, is_busy, mark_stopped}
use moduless.Pluginhost.Instance.Race.{
  Request, waiting, checked, counted, backing_out, running, ending, ended, refused, Drain, System,
  Action, request, drain_on, give_up, fail, quarantine, stop, idle, looking, blocked, killing,
  stopping, drained, advance, advance_at, drain_step, give_up_step, step, run, start,
}
use moduless.Pluginhost.Instance.Counts.{
  holders, holders-le, IsCounted, step-IsCounted, start-IsCounted,
}

-- The request was admitted and is not over.
abbrev pub is_served : Request → Bool
is_served running = true
is_served ending = true
is_served _ = false

-- No request is being served.
abbrev pub IsQuiet : List Request → Type 0
IsQuiet rs = All (λ r. is_served r ≡ false) rs

-- The drain has begun.
abbrev pub is_begun : Drain → Bool
is_begun idle = false
is_begun _ = true

-- The loop of `Drain` ended because no request was in flight.
abbrev pub is_clean : Drain → Bool
is_clean (killing clean) = clean
is_clean (stopping clean) = clean
is_clean (drained clean) = clean
is_clean _ = false

holders_0-IsQuiet : (rs : List Request) → holders rs ≡ 0 → IsQuiet rs
holders_0-IsQuiet [] h = tt
holders_0-IsQuiet (waiting ∷ rs) h = (refl, holders_0-IsQuiet rs (omega arith))
holders_0-IsQuiet (checked ∷ rs) h = (refl, holders_0-IsQuiet rs (omega arith))
holders_0-IsQuiet (ended ∷ rs) h = (refl, holders_0-IsQuiet rs (omega arith))
holders_0-IsQuiet (refused ∷ rs) h = (refl, holders_0-IsQuiet rs (omega arith))
holders_0-IsQuiet (counted ∷ rs) h = absurd (omega arith)
holders_0-IsQuiet (backing_out ∷ rs) h = absurd (omega arith)
holders_0-IsQuiet (running ∷ rs) h = absurd (omega arith)
holders_0-IsQuiet (ending ∷ rs) h = absurd (omega arith)

-- An operation of a request never touches the state.
advance-state : (r : Request) (i : Instance) → (advance r i).1.state ≡ i.state
unfolding advance
advance-state r i = ground arith

advance_at-state :
    (n : ℕ) (rs : List Request) (i : Instance) → (advance_at n rs i).1.state ≡ i.state
unfolding advance_at
advance_at-state n [] i = refl
advance_at-state zero (r ∷ rs) i = advance-state r i
advance_at-state (suc n) (r ∷ rs) i = advance_at-state n rs i

-- On an instance that is not ready nothing new is served.
advance-not_served :
    (r : Request) (i : Instance)
    → is_ready i.state ≡ false
    → is_served r ≡ false
    → is_served (advance r i).0 ≡ false
unfolding advance
advance-not_served r i h q = ground arith

advance_at-IsQuiet :
    (n : ℕ) (rs : List Request) (i : Instance)
    → is_ready i.state ≡ false
    → IsQuiet rs
    → IsQuiet (advance_at n rs i).0
unfolding advance_at
advance_at-IsQuiet n [] i h q = tt
advance_at-IsQuiet zero (r ∷ rs) i h q = (advance-not_served r i h q.0, q.1)
advance_at-IsQuiet (suc n) (r ∷ rs) i h q = (q.0, advance_at-IsQuiet n rs i h q.1)

is_clean→is_begun : (d : Drain) → is_clean d ≡ true → is_begun d ≡ true
is_clean→is_begun d h = ground arith

-- A begun drain keeps the instance from being ready, and a clean one leaves nothing being served.
record IsSafe (s : System) : Type 0 where
  counts : IsCounted s
  closed : is_begun s.drain ≡ true → is_ready s.inst.state ≡ false
  quiet : is_clean s.drain ≡ true → IsQuiet s.requests

-- The loop's test finds the instance idle only if nothing is served.
is_busy-IsQuiet : (s : System) → IsCounted s → is_busy s.inst ≡ false → IsQuiet s.requests
unfolding is_busy
is_busy-IsQuiet s c h = holders_0-IsQuiet s.requests (ground (arith, holders-le s.requests))

drain_step-closed :
    (d : Drain) (s : System)
    → (is_begun d ≡ true → is_ready s.inst.state ≡ false)
    → is_begun (drain_step d s).drain ≡ true
    → is_ready (drain_step d s).inst.state ≡ false
unfolding drain_step
drain_step-closed d s h k = ground arith

drain_step-IsQuiet :
    (d : Drain) (s : System)
    → s.drain ≡ d
    → IsCounted s
    → (is_clean d ≡ true → IsQuiet s.requests)
    → is_clean (drain_step d s).drain ≡ true
    → IsQuiet (drain_step d s).requests
unfolding drain_step
drain_step-IsQuiet idle s e c q k = absurd (cc)
drain_step-IsQuiet looking s e c q k = elim (Bool-cases (is_busy s.inst)) [
  | inl b ↦ absurd (ground (arith, b))
  | inr b ↦ is_busy-IsQuiet s c b
]
drain_step-IsQuiet blocked s e c q k = absurd (cc)
drain_step-IsQuiet (killing clean) s e c q k = q k
drain_step-IsQuiet (stopping clean) s e c q k = q k
drain_step-IsQuiet (drained clean) s e c q k = q (ap is_clean (sym e) ∙ k)

give_up_step-is_clean : (d : Drain) → is_clean (give_up_step d) ≡ true → is_clean d ≡ true
unfolding give_up_step
give_up_step-is_clean d h = ground arith

give_up_step-is_begun : (d : Drain) → is_begun (give_up_step d) ≡ true → is_begun d ≡ true
unfolding give_up_step
give_up_step-is_begun d h = ground arith

mark_stopped-not_ready : (i : Instance) → is_ready (mark_stopped i).state ≡ false
unfolding mark_stopped
mark_stopped-not_ready i = ground arith

step-IsSafe : (a : Action) (s : System) → IsSafe s → IsSafe (step a s)
unfolding step
step-IsSafe (request n) s v = record {
  counts = step-IsCounted (request n) s v.counts;
  closed = λ b. ap is_ready (advance_at-state n s.requests s.inst) ∙ v.closed b;
  quiet = λ c.
      advance_at-IsQuiet n s.requests s.inst (v.closed (is_clean→is_begun s.drain c)) (v.quiet c);
}
step-IsSafe drain_on s v = record {
  counts = step-IsCounted drain_on s v.counts;
  closed = drain_step-closed s.drain s v.closed;
  quiet = drain_step-IsQuiet s.drain s refl v.counts v.quiet;
}
step-IsSafe give_up s v = record {
  counts = step-IsCounted give_up s v.counts;
  closed = λ b. v.closed (give_up_step-is_begun s.drain b);
  quiet = λ c. v.quiet (give_up_step-is_clean s.drain c);
}
step-IsSafe fail s v = record {
  counts = step-IsCounted fail s v.counts;
  closed = λ b. refl;
  quiet = v.quiet;
}
step-IsSafe quarantine s v = record {
  counts = step-IsCounted quarantine s v.counts;
  closed = λ b. refl;
  quiet = v.quiet;
}
step-IsSafe stop s v = record {
  counts = step-IsCounted stop s v.counts;
  closed = λ b. mark_stopped-not_ready s.inst;
  quiet = v.quiet;
}

run-IsSafe : (as_ : List Action) (s : System) → IsSafe s → IsSafe (run as_ s)
unfolding run
run-IsSafe [] s v = v
run-IsSafe (a ∷ as_) s v = run-IsSafe as_ (step a s) (step-IsSafe a s v)

start-IsSafe : (i : Instance) (n : ℕ) → n < 9223372036854775808 → IsSafe (start i n)
start-IsSafe i n b = record {
  counts = start-IsCounted i n b;
  closed = λ h. absurd (cc);
  quiet = λ h. absurd (cc);
}

-- A drain that found nothing in flight spares every request: in every interleaving of fewer than
-- 2^63 requests with it and with marks of the instance, from the end of its loop on no request is
-- admitted and not over. A request that was between its first test and its increment when the drain
-- began is no exception.
pub drain_spares :
    (i : Instance) (n : ℕ) (as_ : List Action)
    → n < 9223372036854775808
    → is_clean (run as_ (start i n)).drain ≡ true
    → IsQuiet (run as_ (start i n)).requests
drain_spares i n as_ b c = (run-IsSafe as_ (start i n) (start-IsSafe i n b)).quiet c

-- Once a drain has begun, the instance is never ready again.
pub drain_closes :
    (i : Instance) (n : ℕ) (as_ : List Action)
    → n < 9223372036854775808
    → is_begun (run as_ (start i n)).drain ≡ true
    → is_ready (run as_ (start i n)).inst.state ≡ false
drain_closes i n as_ b c = (run-IsSafe as_ (start i n) (start-IsSafe i n b)).closed c
