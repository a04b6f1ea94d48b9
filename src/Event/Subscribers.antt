-- ===== src/Event/Subscribers.antt =====
-- Who is subscribed: `Subscribe`, `Unsubscribe` and `SubscriberCount` of core/event/bus.go.
use moduless.Base.{
  ℕ, ◌+◌, ◌-◌, Bool, true, false, List, [], ◌∷◌, ◌++◌, if◌then◌else◌, ◌==◌, length, length-append,
  Bytes, lookup-insert, lookup-erase, ◌=?◌, =?_refl, =?→≡, append-nil, ◌≡◌, refl, sym, ap, ◌∙◌,
  arith, Bool-cases, inl, inr,
}
use moduless.Event.{
  EventBus, or_nil, is_nil, subscribed, subscribe, remove_first, unsubscribe, subscriber_count,
  Channels, publish,
}
use moduless.Event.Delivery.{copies, at_most, publish-delivers, at_most_none, room_of, repeat}

copies-append :
    (c d : ℕ) (chs : List ℕ) → copies d (chs ++ (c ∷ [])) ≡ copies d chs + (if d == c then 1 else 0)
unfolding copies
copies-append c d [] = ground arith
copies-append c d (ch ∷ chs) = ground (arith, copies-append c d chs)

copies-remove_first :
    (c d : ℕ) (chs : List ℕ)
    → copies d (remove_first c chs) ≡ copies d chs - (if d == c then 1 else 0)
unfolding copies remove_first
copies-remove_first c d [] = ground arith
copies-remove_first c d (ch ∷ chs) = ground (arith, copies-remove_first c d chs)

remove_first-append :
    (c : ℕ) (chs : List ℕ) → copies c chs ≡ 0 → remove_first c (chs ++ (c ∷ [])) ≡ chs
unfolding copies remove_first
remove_first-append c [] h = ground arith
remove_first-append c (ch ∷ chs) h = ground (arith, remove_first-append c chs)

subscribed-subscribe :
    (name other : Bytes) (c : ℕ) (b : EventBus)
    → subscribed other (subscribe name c b)
      ≡ (if name =? other then subscribed name b ++ (c ∷ []) else subscribed other b)
unfolding subscribed subscribe
subscribed-subscribe name other c b = elim (Bool-cases (name =? other)) [
  | inl q ↦ ap or_nil (lookup-insert name other _ b.subscribers) ∙ rw q refl
  | inr q ↦ ap or_nil (lookup-insert name other _ b.subscribers) ∙ rw q refl
]

nil_or : (left : List ℕ) → is_nil left ≡ true → left ≡ []
nil_or [] h = refl
nil_or (ch ∷ chs) h = cc

subscribed-unsubscribe :
    (name other : Bytes) (c : ℕ) (b : EventBus)
    → subscribed other (unsubscribe name c b)
      ≡ (if name =? other then remove_first c (subscribed name b) else subscribed other b)
unfolding subscribed unsubscribe
subscribed-unsubscribe name other c b =
    elim (Bool-cases (is_nil (remove_first c (subscribed name b)))) [
      | inl r ↦ elim (Bool-cases (name =? other)) [
        | inl q ↦
            rw r
              (rw q (ap or_nil (lookup-erase name other b.subscribers) ∙ rw q (sym (nil_or _ r))))
        | inr q ↦ rw r (rw q (ap or_nil (lookup-erase name other b.subscribers) ∙ rw q refl))
      ]
      | inr r ↦ elim (Bool-cases (name =? other)) [
        | inl q ↦ rw r (rw q (ap or_nil (lookup-insert name other _ b.subscribers) ∙ rw q refl))
        | inr q ↦ rw r (rw q (ap or_nil (lookup-insert name other _ b.subscribers) ∙ rw q refl))
      ]
    ]

subscribed_self :
    (name : Bytes) (c : ℕ) (b : EventBus)
    → subscribed name (subscribe name c b) ≡ subscribed name b ++ (c ∷ [])
subscribed_self name c b = subscribed-subscribe name name c b ∙ rw (=?_refl name) refl

if_no {ℓ} : {A : Type ℓ} {t : Bool} (x y : A) → t ≡ false → (if t then x else y) ≡ y
if_no x y q = rw q refl

unsubscribe-copies :
    (name other : Bytes) (c d : ℕ) (b : EventBus)
    → copies d (subscribed other (unsubscribe name c b))
      ≡ copies d (subscribed other b) - (if name =? other then if d == c then 1 else 0 else 0)
unsubscribe-copies name other c d b = elim (Bool-cases (name =? other)) [
  | inl q ↦ rw q (
      ap (copies d) (subscribed-unsubscribe name other c b ∙ rw (q, =?→≡ name other q) refl)
      ∙ copies-remove_first c d _)
  | inr q ↦ rw q (ap (copies d) (subscribed-unsubscribe name other c b ∙ if_no _ _ q) ∙ omega arith)
]

undone :
    (name other : Bytes) (c : ℕ) (b : EventBus)
    → copies c (subscribed name b) ≡ 0
    → subscribed other (unsubscribe name c (subscribe name c b)) ≡ subscribed other b
undone name other c b h = elim (Bool-cases (name =? other)) [
  | inl q ↦
      subscribed-unsubscribe name other c _
      ∙ rw q (
          ap (remove_first c) (subscribed_self name c b)
          ∙ remove_first-append c _ h
          ∙ ap (λ z. subscribed z b) (=?→≡ name other q))
  | inr q ↦
      subscribed-unsubscribe name other c _ ∙ rw q (subscribed-subscribe name other c b ∙ rw q refl)
]

-- `Unsubscribe` takes away one subscription of its channel to its name and no other one; after
-- `Subscribe` with a channel that was not subscribed to the name it leaves each name with the
-- subscribers it had, in their order, while `Subscribe` alone makes the name's count one larger.
unsubscribe-subscribe :
    (name other : Bytes) (c d : ℕ) (b : EventBus)
    → (copies d (subscribed other (unsubscribe name c b))
        ≡ copies d (subscribed other b) - (if name =? other then if d == c then 1 else 0 else 0))
      × (copies c (subscribed name b) ≡ 0
          → subscribed other (unsubscribe name c (subscribe name c b)) ≡ subscribed other b)
      × (subscriber_count name (subscribe name c b) ≡ subscriber_count name b + 1)
unfolding subscriber_count
unsubscribe-subscribe name other c d b = (
  unsubscribe-copies name other c d b,
  undone name other c b,
  ap length (subscribed_self name c b) ∙ length-append (subscribed name b) (c ∷ []),
)

once :
    (name : Bytes) (c : ℕ) (b : EventBus)
    → copies c (subscribed name b) ≡ 1
    → copies c (subscribed name (unsubscribe name c b)) ≡ 0
once name c b h = unsubscribe-copies name name c c b ∙ ground (arith, =?_refl name, h)

-- A channel that was subscribed once holds, after `Unsubscribe`, what it held, whatever is
-- published under the name.
publish_unsubscribed :
    (name content : Bytes) (c : ℕ) (b : EventBus) (cs : Channels)
    → copies c (subscribed name b) ≡ 1
    → ((publish name content (unsubscribe name c b) cs).1 c).items ≡ (cs c).items
publish_unsubscribed name content c b cs h =
    (publish-delivers name content (unsubscribe name c b) cs c).0
    ∙ ap (λ m. (cs c).items ++ repeat m (record { name = name; content = content }))
        (ap (λ n. at_most n (room_of (cs c))) (once name c b h) ∙ at_most_none (room_of (cs c)))
    ∙ append-nil (cs c).items
