-- ===== src/Event/Tests.antt =====
-- Tests of the comparisons, and the theorems at concrete events.
use pdes.Base.{◌≡◌, ◌↔◌, refl, true}
use pdes.Event.Order.{compare_events_receiver}
use pdes.Event.{Event, event_compare, compare_events, receive_less, send_less}

abbrev first : Event
first = record {
  sender = record { object = 1; manager = 0 };
  receiver = record { object = 2; manager = 0 };
  send_time = 3;
  receive_time = 7;
  event_id = 4;
}

abbrev elsewhere : Event
elsewhere = record first { receiver = record { object = 5; manager = 1 } }

later_id : receive_less first (record first { event_id = 5 }) ≡ true
unfolding receive_less
later_id = refl

earlier_send : send_less (record first { send_time = 2 }) first ≡ true
unfolding send_less
earlier_send = refl

negative_matches : event_compare first elsewhere ≡ true
unfolding event_compare
negative_matches = refl

compare_events_receiver_example : (compare_events first elsewhere ≡ true) ↔ (
    (first.sender ≡ elsewhere.sender)
    × (first.send_time ≡ elsewhere.send_time)
    × (first.receive_time ≡ elsewhere.receive_time))
compare_events_receiver_example = compare_events_receiver first elsewhere
