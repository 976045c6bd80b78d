-- ===== src/Serial/Tests.antt =====
-- Bytes of messages, and the theorems at concrete messages.
use pdes.Base.{◌≡◌, refl, [], ◌∷◌, some, arith}
use pdes.Event.{Event}
use pdes.Serial.Extract.{deserialize}
use pdes.Serial.Messages.{
  KernelMessage, Value, negative_event_message, serialize_kernel_message, serialize,
}
use pdes.Serial.Nested.{EventInRange}
use pdes.Serial.RoundTrip.{InRange, HeaderInRange, deserialize-serialize}
use pdes.Serial.{add_unsigned, write_int}

abbrev header : KernelMessage
header = record { sender = 1; receiver = 258; incarnation_number = 0 }

-- Each number has its tag, 2, in front of it.
header_bytes :
    serialize_kernel_message header []
    ≡ 2 ∷ 0 ∷ 0 ∷ 0 ∷ 1 ∷ 0 ∷ 0 ∷ 0 ∷ 2 ∷ 0 ∷ 0 ∷ 0 ∷ 2 ∷ 1 ∷ 0 ∷ 0 ∷ 2 ∷ 0 ∷ 0 ∷ 0 ∷ 0 ∷ 0 ∷ 0 ∷ 0
      ∷ []
unfolding serialize_kernel_message add_unsigned write_int
header_bytes = refl

abbrev cancelled : Event
cancelled = record {
  sender = record { object = 2; manager = 1 };
  receiver = record { object = 5; manager = 258 };
  send_time = 300;
  receive_time = 70000;
  event_id = 9;
}

abbrev message : Value
message = negative_event_message header (cancelled ∷ cancelled ∷ []) (49 ∷ 50 ∷ [])

message-InRange : InRange message
unfolding InRange HeaderInRange
message-InRange =
    ((omega arith, omega arith, omega arith), omega arith, (in_range, (in_range, tt)), omega arith)
  where
    in_range : EventInRange cancelled
    in_range = record {
      send_time = omega arith;
      receive_time = omega arith;
      sender_object = omega arith;
      sender_manager = omega arith;
      receiver_object = omega arith;
      receiver_manager = omega arith;
      event_id = omega arith;
    }

deserialize-serialize_example : deserialize 3 (serialize message) ≡ some message
deserialize-serialize_example = deserialize-serialize message message-InRange
