-- ===== src/Serial/Extract.antt =====
-- The deserialize functions of the same classes, with DeserializerManager.cpp: they read what the
-- serialize functions write. `getInt` gives a negative number from 2 ^ 31 on, which is no time.
use pdes.Base.{
  ℕ, zero, suc, ◌^◌, Bool, true, false, ◌&&◌, Option, none, some, List, [], ◌∷◌, ltb, ◌==◌,
  if◌then◌else◌,
}
use pdes.Event.{Event}
use pdes.Serial.Messages.{
  KernelMessage, Value, int_v_time, negative_event, start_message, initialization_message,
  terminate_token, gvt_update_message, mattern_gvt_message, negative_event_message, int_v_time_type,
  negative_event_type, start_message_type, initialization_message_type, terminate_token_type,
  gvt_update_message_type, mattern_gvt_message_type, negative_event_message_type,
}
use pdes.Serial.{
  Bytes, read_unsigned, read_signed, read_string, read_instance, SerializedInstance, Get, fresh,
  get, get_data_type,
}

abbrev pub next :
    {A B : Type 0} → (A → Get B) → Option (A × SerializedInstance) → Option (B × SerializedInstance)
next k none = none
next k (some (a, s)) = k a s

infixl 5 ◌>>=◌
abbrev pub ◌>>=◌ : {A B : Type 0} → Get A → (A → Get B) → Get B
(g >>= k) s = next k (g s)

abbrev pub pure : {A : Type 0} → A → Get A
pure a s = some (a, s)

abbrev pub fail : {A : Type 0} → Get A
fail s = none

abbrev pub lift : {A : Type 0} → Option A → Get A
lift none s = none
lift (some a) s = some (a, s)

-- `dynamic_cast` to a time or to a negative event, and a read through its result.
abbrev pub as_time : Value → Option ℕ
as_time (int_v_time t) = some t
as_time v = none

abbrev pub as_event : Value → Option Event
as_event (negative_event e) = some e
as_event v = none

unfoldable pub get_each : {A : Type 0} → ℕ → Get A → Get (List A)
get_each zero g = pure []
get_each (suc n) g = do a ← g; others ← get_each n g; pure (a ∷ others)

unfoldable pub get_kernel_message : Get KernelMessage
get_kernel_message = do
  sender ← get read_unsigned
  receiver ← get read_unsigned
  number ← get read_unsigned
  pure (record { sender = sender; receiver = receiver; incarnation_number = number })

unfoldable pub bytes_eq : Bytes → Bytes → Bool
bytes_eq [] [] = true
bytes_eq (x ∷ xs) (y ∷ ys) = x == y && bytes_eq xs ys
bytes_eq xs ys = false

unfoldable pub deserialize_time : Get Value
deserialize_time = do n ← get read_signed; if ltb n (2 ^ 31) then pure (int_v_time n) else fail

unfoldable pub deserialize_start : Get Value
deserialize_start = do m ← get_kernel_message; pure (start_message m)

-- How often a loop runs up to an int.
abbrev pub loop_count : ℕ → ℕ
loop_count n = if ltb n (2 ^ 31) then n else 0

unfoldable pub deserialize_initialization : Get Value
deserialize_initialization = do
  m ← get_kernel_message
  n ← get read_signed
  names ← get_each (loop_count n) (get read_string)
  managers ← get read_unsigned
  pure (initialization_message m names managers)

unfoldable pub deserialize_token : Get Value
deserialize_token = do
  m ← get_kernel_message
  terminator ← get read_unsigned
  state ← get read_signed
  pure (terminate_token m terminator state)

-- With the deserialization of the instances inside.
module _ (nested : Bytes → Option Value) where
  unfoldable pub get_time : Get ℕ
  get_time = do bytes ← get read_instance; v ← lift (nested bytes); lift (as_time v)

  unfoldable pub get_event : Get Event
  get_event = do bytes ← get read_instance; v ← lift (nested bytes); lift (as_event v)

  unfoldable pub deserialize_event : Get Value
  deserialize_event = do
    send_time ← get_time
    receive_time ← get_time
    sender_manager ← get read_unsigned
    sender_object ← get read_unsigned
    receiver_manager ← get read_unsigned
    receiver_object ← get read_unsigned
    event_id ← get read_unsigned
    pure (
        negative_event (record {
          sender = record { object = sender_object; manager = sender_manager };
          receiver = record { object = receiver_object; manager = receiver_manager };
          send_time = send_time;
          receive_time = receive_time;
          event_id = event_id;
        }))

  unfoldable pub deserialize_update : Get Value
  deserialize_update = do m ← get_kernel_message; t ← get_time; pure (gvt_update_message m t)

  unfoldable pub deserialize_mattern : Get Value
  deserialize_mattern = do
    m ← get_kernel_message
    last ← get_time
    minimum ← get_time
    count ← get read_unsigned
    pure (mattern_gvt_message m last minimum count)

  unfoldable pub deserialize_events : Get Value
  deserialize_events = do
    m ← get_kernel_message
    n ← get read_unsigned
    events ← get_each n get_event
    gvt_info ← get read_string
    pure (negative_event_message m events gvt_info)

  -- `findDeserializer`, with the functions that the classes register.
  unfoldable pub find_deserializer : Bytes → Option (Get Value)
  find_deserializer name =
      if bytes_eq name int_v_time_type
      then some deserialize_time
      else if bytes_eq name negative_event_type
      then some deserialize_event
      else if bytes_eq name start_message_type
      then some deserialize_start
      else if bytes_eq name initialization_message_type
      then some deserialize_initialization
      else if bytes_eq name terminate_token_type
      then some deserialize_token
      else if bytes_eq name gvt_update_message_type
      then some deserialize_update
      else if bytes_eq name mattern_gvt_message_type
      then some deserialize_mattern
      else if bytes_eq name negative_event_message_type
      then some deserialize_events
      else none

abbrev pub first_of {ℓ κ} : {A : Type ℓ} {B : Type κ} → Option (A × B) → Option A
first_of none = none
first_of (some (a, b)) = some a

abbrev call : Bytes → Option (Get Value) → Option Value
call bytes none = none
call bytes (some g) = first_of (g (fresh bytes))

abbrev call_found : (Bytes → Option Value) → Bytes → Option Bytes → Option Value
call_found nested bytes none = none
call_found nested bytes (some name) = call bytes (find_deserializer nested name)

-- `SerializedInstance::deserialize`, as deep as there is fuel.
unfoldable pub deserialize : ℕ → Bytes → Option Value
deserialize zero bytes = none
deserialize (suc depth) bytes = call_found (deserialize depth) bytes (get_data_type bytes)
