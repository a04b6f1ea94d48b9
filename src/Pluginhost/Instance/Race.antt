-- ===== src/Pluginhost/Instance/Race.antt =====
-- `BeginRequest` and `Drain` of core/pluginhost/instance.go in any interleaving: goroutines of
-- requests, one goroutine that drains, and others that mark the instance. An action names the
-- goroutine whose next atomic operation takes effect.
use moduless.Base.{ℕ, zero, suc, Bool, true, false, List, [], ◌∷◌, if◌then◌else◌}
use moduless.Pluginhost.Instance.{
  Instance, ready, draining, failed, quarantined, set_state, is_ready, add_inflight, sub_inflight,
  is_busy, mark_stopped,
}

-- Where the goroutine of a request stands: before `BeginRequest`, behind its first test, behind the
-- increment, on the way out after the second test failed, admitted, in the function that
-- `BeginRequest` returned, and behind either end.
pub data Request : Type 0 where
  waiting checked counted backing_out running ending ended refused : Request

-- The next operation of a request. The function that `BeginRequest` returned does nothing from its
-- second call on.
unfoldable pub advance : Request → Instance → Request × Instance
unfolding add_inflight sub_inflight
advance waiting i = (if is_ready i.state then checked else refused, i)
advance checked i = (counted, add_inflight i)
advance counted i = (if is_ready i.state then running else backing_out, i)
advance backing_out i = (refused, sub_inflight i)
advance running i = (ending, i)
advance ending i = (ended, sub_inflight i)
advance ended i = (ended, i)
advance refused i = (refused, i)

-- Where `Drain` stands: before it; at the test of its loop; in the `select`; at the kill; at the
-- swap of the state; returned. The flag says that the loop ended by its test.
pub data Drain : Type 0 where
  idle looking blocked : Drain
  killing stopping drained : Bool → Drain

pub record System : Type 0 where
  pub inst : Instance
  pub requests : List Request
  pub drain : Drain
  pub killed : Bool

pub data Action : Type 0 where
  request : ℕ → Action
  drain_on give_up fail quarantine stop : Action

-- The next operation of the request at a position; past the end there is none.
unfoldable pub advance_at : ℕ → List Request → Instance → List Request × Instance
unfolding advance
advance_at n [] i = ([], i)
advance_at zero (r ∷ rs) i = let (r', i') = advance r i in (r' ∷ rs, i')
advance_at (suc n) (r ∷ rs) i = let (rs', i') = advance_at n rs i in (r ∷ rs', i')

-- The next operation of `Drain`; in the `select` it is a tick before the deadline.
unfoldable pub drain_step : Drain → System → System
unfolding set_state is_busy mark_stopped
drain_step idle s = record s { inst = set_state draining s.inst; drain = looking }
drain_step looking s = record s { drain = if is_busy s.inst then blocked else killing true }
drain_step blocked s = record s { drain = looking }
drain_step (killing clean) s = record s { killed = true; drain = stopping clean }
drain_step (stopping clean) s = record s { inst = mark_stopped s.inst; drain = drained clean }
drain_step (drained clean) s = s

-- The deadline, or the end of the context, in the `select`.
unfoldable pub give_up_step : Drain → Drain
give_up_step blocked = killing false
give_up_step idle = idle
give_up_step looking = looking
give_up_step (killing clean) = killing clean
give_up_step (stopping clean) = stopping clean
give_up_step (drained clean) = drained clean

unfoldable pub step : Action → System → System
unfolding advance_at drain_step give_up_step set_state mark_stopped
step (request n) s =
    let (rs, i) = advance_at n s.requests s.inst in record s { inst = i; requests = rs }
step drain_on s = drain_step s.drain s
step give_up s = record s { drain = give_up_step s.drain }
step fail s = record s { inst = set_state failed s.inst }
step quarantine s = record s { inst = set_state quarantined s.inst }
step stop s = record s { inst = mark_stopped s.inst }

unfoldable pub run : List Action → System → System
unfolding step
run [] s = s
run (a ∷ as_) s = run as_ (step a s)

-- `n` requests that have not begun.
abbrev pub fresh_requests : ℕ → List Request
fresh_requests zero = []
fresh_requests (suc n) = waiting ∷ fresh_requests n

-- An instance right after `MarkReady`, with `n` requests to come.
abbrev pub start : Instance → ℕ → System
start i n = record {
  inst = record i { state = ready; inflight = 0 };
  requests = fresh_requests n;
  drain = idle;
  killed = false;
}
