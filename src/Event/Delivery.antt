-- ===== src/Event/Delivery.antt =====
-- Who gets an event: `Publish` of core/event/bus.go.
use moduless.Base.{
  ℕ, zero, suc, ◌+◌, ◌-◌, Bool, true, false, List, [], ◌∷◌, ◌++◌, if◌then◌else◌, ltb, leb, ◌==◌,
  ==_iff, length, length-append, append_assoc, append-nil, Bytes, ◌≡◌, refl, sym, ap, ◌∙◌, arith,
  Bool-cases, inl, inr,
}
use moduless.Event.{
  Event, Channel, Channels, EventBus, subscribed, has_room, send, publish_to, publish,
}

-- How often a channel is subscribed.
unfoldable pub copies : ℕ → List ℕ → ℕ
copies c [] = 0
copies c (ch ∷ chs) = let rest = copies c chs in if c == ch then suc rest else rest

abbrev pub repeat : ℕ → Event → List Event
repeat zero e = []
repeat (suc n) e = e ∷ repeat n e

abbrev pub at_most : ℕ → ℕ → ℕ
at_most n room = if leb n room then n else room

-- What a channel has free.
abbrev pub room_of : Channel → ℕ
room_of c = c.cap - length c.items

-- A channel is offered an event so many times.
abbrev pub offer : Event → Channel → Channel
offer e x = if ltb (length x.items) x.cap then record x { items = x.items ++ (e ∷ []) } else x

abbrev pub offers : ℕ → Event → Channel → Channel
offers zero e x = x
offers (suc n) e x = offers n e (offer e x)

room_same :
    (ch c : ℕ) (cs : Channels)
    → (c == ch) ≡ true
    → ltb (length (cs c).items) (cs c).cap ≡ ltb (length (cs ch).items) (cs ch).cap
room_same ch c cs q = ap (λ z. ltb (length (cs z).items) (cs z).cap) ((==_iff c ch).0 q)

send_same :
    (ch c : ℕ) (e : Event) (cs : Channels)
    → (c == ch) ≡ true
    → ltb (length (cs ch).items) (cs ch).cap ≡ true
    → send ch e cs c ≡ offer e (cs c)
unfolding send
send_same ch c e cs q r = rw q (rw (room_same ch c cs q ∙ r) refl)

send_other : (ch c : ℕ) (e : Event) (cs : Channels) → (c == ch) ≡ false → send ch e cs c ≡ cs c
unfolding send
send_other ch c e cs q = rw q refl

offer_full : (e : Event) (x : Channel) → ltb (length x.items) x.cap ≡ false → offer e x ≡ x
offer_full e x r = rw r refl

publish_to-offers :
    (hook : Bool) (chs : List ℕ) (e : Event) (cs : Channels) (c : ℕ)
    → (publish_to hook chs e cs).1 c ≡ offers (copies c chs) e (cs c)
unfolding publish_to has_room copies
publish_to-offers hook [] e cs c = refl
publish_to-offers hook (ch ∷ chs) e cs c =
    elim (Bool-cases (ltb (length (cs ch).items) (cs ch).cap)) [
      | inl r ↦ elim (Bool-cases (c == ch)) [
        | inl q ↦ rw r (
            rw q (
              publish_to-offers hook chs e (send ch e cs) c
              ∙ ap (offers (copies c chs) e) (send_same ch c e cs q r)))
        | inr q ↦ rw r (
            rw q (
              publish_to-offers hook chs e (send ch e cs) c
              ∙ ap (offers (copies c chs) e) (send_other ch c e cs q)))
      ]
      | inr r ↦ elim (Bool-cases (c == ch)) [
        | inl q ↦ rw r (
            rw q (
              publish_to-offers hook chs e cs c
              ∙ ap (offers (copies c chs) e) (sym (offer_full e (cs c) (room_same ch c cs q ∙ r)))))
        | inr q ↦ rw r (rw q (publish_to-offers hook chs e cs c))
      ]
    ]

offer_room :
    (e : Event) (x : Channel)
    → ltb (length x.items) x.cap ≡ true
    → offer e x ≡ record x { items = x.items ++ (e ∷ []) }
offer_room e x r = rw r refl

pub at_most_none : (r : ℕ) → at_most 0 r ≡ 0
at_most_none r = ground arith

at_most_full : (n len cap : ℕ) → ltb len cap ≡ false → at_most n (cap - len) ≡ 0
at_most_full n len cap h = ground arith

at_most_next :
    (n len next cap : ℕ)
    → ltb len cap ≡ true
    → next ≡ len + 1
    → suc (at_most n (cap - next)) ≡ at_most (suc n) (cap - len)
at_most_next n len next cap h q = ground arith

offers-items :
    (n : ℕ) (e : Event) (x : Channel)
    → ((offers n e x).items ≡ x.items ++ repeat (at_most n (room_of x)) e)
      × ((offers n e x).cap ≡ x.cap)
offers-items zero e x =
    (sym (ap (λ m. x.items ++ repeat m e) (at_most_none (room_of x)) ∙ append-nil x.items), refl)
offers-items (suc n) e x = elim (Bool-cases (ltb (length x.items) x.cap)) [
  | inl r ↦
      let ih = offers-items n e (record x { items = x.items ++ (e ∷ []) }) in
      (
        ap (λ z. (offers n e z).items) (offer_room e x r)
            ∙ ih.0
            ∙ append_assoc x.items (e ∷ []) _
            ∙ ap (λ m. x.items ++ repeat m e)
                (at_most_next n _ _ x.cap r (length-append x.items (e ∷ []))),
        ap (λ z. (offers n e z).cap) (offer_room e x r) ∙ ih.1,
      )
  | inr r ↦
      let ih = offers-items n e x in
      (
        ap (λ z. (offers n e z).items) (offer_full e x r)
            ∙ ih.0
            ∙ ap (λ m. x.items ++ repeat m e)
                (at_most_full n (length x.items) x.cap r
                  ∙ sym (at_most_full (suc n) (length x.items) x.cap r)),
        ap (λ z. (offers n e z).cap) (offer_full e x r) ∙ ih.1,
      )
]

publish_to-quiet : (chs : List ℕ) (e : Event) (cs : Channels) → (publish_to false chs e cs).0 ≡ []
unfolding publish_to has_room
publish_to-quiet [] e cs = refl
publish_to-quiet (ch ∷ chs) e cs = elim (Bool-cases (ltb (length (cs ch).items) (cs ch).cap)) [
  | inl r ↦ rw r (publish_to-quiet chs e (send ch e cs))
  | inr r ↦ rw r (publish_to-quiet chs e cs)
]

-- Without a hook nothing is reported.
publish-quiet :
    (name content : Bytes) (b : EventBus) (cs : Channels)
    → b.has_hook ≡ false
    → (publish name content b cs).0 ≡ []
unfolding publish
publish-quiet name content b cs h =
    rw h (publish_to-quiet (subscribed name b) (record { name = name; content = content }) cs)

-- What a channel holds after `Publish` is what it held, then the event as often as the channel is
-- subscribed to the name and has room for it, and its capacity does not change.
pub publish-delivers :
    (name content : Bytes) (b : EventBus) (cs : Channels) (c : ℕ)
    → (((publish name content b cs).1 c).items
        ≡ (cs c).items
          ++ repeat
              (at_most (copies c (subscribed name b)) (room_of (cs c)))
              (record { name = name; content = content }))
      × (((publish name content b cs).1 c).cap ≡ (cs c).cap)
unfolding publish
publish-delivers name content b cs c =
    let e : Event = record { name = name; content = content } in
    let chs = subscribed name b in
    let o = publish_to-offers b.has_hook chs e cs c in
    let (i, k) = offers-items (copies c chs) e (cs c) in
    (ap (λ z. z.items) o ∙ i, ap (λ z. z.cap) o ∙ k)
