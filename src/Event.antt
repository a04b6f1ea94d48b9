-- ===== src/Event.antt =====
-- The event bus of core/event/bus.go. A channel is a number, and what it holds, with its
-- capacity, stands in a table of channels; a send that would block finds the channel full.
use moduless.Base.{
  ℕ, ◌+◌, ◌-◌, Bool, true, false, ◌||◌, List, [], ◌∷◌, ◌++◌, if◌then◌else◌, ltb, ◌==◌, length,
  Bytes, Option, none, some, Dict, lookup, insert, erase,
}
pub mod Delivery
pub mod Subscribers
mod Tests

pub record Event : Type 0 where
  pub name : Bytes
  pub content : Bytes

pub record Channel : Type 0 where
  pub cap : ℕ
  pub items : List Event

abbrev pub Channels : Type 0
Channels = ℕ → Channel

-- `has_hook` tells that `onDrop` is set.
pub record EventBus : Type 0 where
  pub subscribers : Dict (List ℕ)
  pub has_hook : Bool

abbrev pub new_event_bus : EventBus
new_event_bus = record { subscribers = []; has_hook = false }

abbrev pub or_nil : Option (List ℕ) → List ℕ
or_nil none = []
or_nil (some chs) = chs

-- `b.subscribers[name]`.
unfoldable pub subscribed : Bytes → EventBus → List ℕ
unfolding lookup
subscribed name b = or_nil (lookup name b.subscribers)

unfoldable pub subscribe : Bytes → ℕ → EventBus → EventBus
unfolding subscribed insert
subscribe name ch b = record b {
  subscribers = insert name (subscribed name b ++ (ch ∷ [])) b.subscribers;
}

-- The loop of `Unsubscribe`, on the list.
unfoldable pub remove_first : ℕ → List ℕ → List ℕ
remove_first ch [] = []
remove_first ch (sub ∷ subs) = if sub == ch then subs else sub ∷ remove_first ch subs

abbrev pub is_nil : List ℕ → Bool
is_nil [] = true
is_nil (ch ∷ chs) = false

unfoldable pub unsubscribe : Bytes → ℕ → EventBus → EventBus
unfolding subscribed remove_first insert erase
unsubscribe name ch b =
    let left = remove_first ch (subscribed name b) in
    record b {
      subscribers =
          if is_nil left then erase name b.subscribers else insert name left b.subscribers;
    }

unfoldable pub has_room : Channel → Bool
has_room c = ltb (length c.items) c.cap

-- `ch <- e`, where it does not block.
unfoldable pub send : ℕ → Event → Channels → Channels
send ch e cs = λ c. if c == ch then record (cs c) { items = (cs c).items ++ (e ∷ []) } else cs c

-- The loop of `Publish`: the names that are reported, and the channels.
unfoldable pub publish_to : Bool → List ℕ → Event → Channels → List Bytes × Channels
unfolding has_room send
publish_to hook [] e cs = ([], cs)
publish_to hook (ch ∷ chs) e cs =
    let room = has_room (cs ch) in
    let rest = publish_to hook chs e (if room then send ch e cs else cs) in
    ((if room || (if hook then false else true) then rest.0 else e.name ∷ rest.0), rest.1)

unfoldable pub publish : Bytes → Bytes → EventBus → Channels → List Bytes × Channels
unfolding subscribed publish_to
publish name content b cs =
    publish_to b.has_hook (subscribed name b) (record { name = name; content = content }) cs

unfoldable pub subscriber_count : Bytes → EventBus → ℕ
unfolding subscribed
subscriber_count name b = length (subscribed name b)

-- `OnDrop`.
abbrev pub on_drop : Bool → EventBus → EventBus
on_drop hook b = record b { has_hook = hook }
