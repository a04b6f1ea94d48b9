-- ===== src/Event/Tests.antt =====
-- A channel of capacity 2 that is subscribed three times to one name.
use moduless.Base.{Bytes, bytes, [], ◌∷◌, ◌≡◌, refl, true}
use moduless.Event.{
  Event, Channels, EventBus, new_event_bus, subscribe, on_drop, publish, subscribed,
}
use moduless.Event.Delivery.{copies, at_most, repeat, publish-delivers}

abbrev saved : Bytes
saved = bytes "saved"

abbrev empty_channels : Channels
empty_channels = λ c. record { cap = 2; items = [] }

abbrev subscribed_thrice : EventBus
subscribed_thrice = subscribe saved 4 (subscribe saved 4 (subscribe saved 4 new_event_bus))

abbrev the_event : Event
the_event = record { name = saved; content = bytes "x" }

holds_two :
    ((publish saved (bytes "x") subscribed_thrice empty_channels).1 4).items
    ≡ the_event ∷ the_event ∷ []
unfolding publish subscribe
holds_two = refl

reports_one :
    (publish saved (bytes "x") (on_drop true subscribed_thrice) empty_channels).0 ≡ saved ∷ []
unfolding publish subscribe
reports_one = refl

publish-delivers_example :
    (((publish saved (bytes "x") subscribed_thrice empty_channels).1 4).items
      ≡ repeat (at_most (copies 4 (subscribed saved subscribed_thrice)) 2) the_event)
    × (((publish saved (bytes "x") subscribed_thrice empty_channels).1 4).cap ≡ 2)
publish-delivers_example = publish-delivers saved (bytes "x") subscribed_thrice empty_channels 4
