-- ===== src/Remote/Tests.antt =====
-- Tests of the messages with negative events, and the theorem at eleven of them.
use pdes.Base.{ℕ, ◌≡◌, refl, List, [], ◌∷◌, some, All, take}
use pdes.Event.{Event}
use pdes.Remote.Batches.{IsBatch, all_events, cancel_remote_events-IsBatch}
use pdes.Remote.{NegativeEventMessage, min_send_time, batches, cancel_remote_events}

-- A negative event with its number and send time.
abbrev event : ℕ → ℕ → Event
event id send = record {
  sender = record { object = 1; manager = 0 };
  receiver = record { object = 2; manager = 1 };
  send_time = send;
  receive_time = 9;
  event_id = id;
}

abbrev others : List Event
others =
    event 2 5
    ∷ event 3 4
    ∷ event 4 8
    ∷ event 5 7
    ∷ event 6 7
    ∷ event 7 7
    ∷ event 8 3
    ∷ event 9 6
    ∷ event 10 6
    ∷ event 11 2
    ∷ []

two_messages :
    cancel_remote_events (event 1 6 ∷ others)
    ≡ some (
        record { events = event 1 6 ∷ take 9 others; minimum = 3 }
        ∷ record { events = event 11 2 ∷ []; minimum = 2 }
        ∷ [])
unfolding cancel_remote_events batches min_send_time
two_messages = refl

cancel_remote_events-IsBatch_example :
    (ms : List NegativeEventMessage) × (cancel_remote_events (event 1 6 ∷ others) ≡ some ms)
    × (all_events ms ≡ event 1 6 ∷ others)
    × All IsBatch ms
cancel_remote_events-IsBatch_example = cancel_remote_events-IsBatch (event 1 6) others
