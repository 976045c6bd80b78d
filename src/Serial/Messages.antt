-- ===== src/Serial/Messages.antt =====
-- What is sent from one simulation manager to another, as bytes: IntVTime.cpp, NegativeEvent.cpp,
-- KernelMessage.cpp, StartMessage.cpp, InitializationMessage.cpp, TerminateToken.cpp,
-- GVTUpdateMessage.cpp, MatternGVTMessage.cpp and NegativeEventMessage.cpp, with Serializable.cpp.
use pdes.Base.{ℕ, List, [], ◌∷◌, ◌++◌, length}
use pdes.Event.{Event}
use pdes.Serial.{Bytes, add_string, add_unsigned, add_int, add_serialized_instance}

-- "IntVTimeDataType".
abbrev pub int_v_time_type : Bytes
int_v_time_type =
    73 ∷ 110 ∷ 116 ∷ 86 ∷ 84 ∷ 105 ∷ 109 ∷ 101 ∷ 68 ∷ 97 ∷ 116 ∷ 97 ∷ 84 ∷ 121 ∷ 112 ∷ 101 ∷ []

-- "NegativeEvent".
abbrev pub negative_event_type : Bytes
negative_event_type = 78 ∷ 101 ∷ 103 ∷ 97 ∷ 116 ∷ 105 ∷ 118 ∷ 101 ∷ 69 ∷ 118 ∷ 101 ∷ 110 ∷ 116 ∷ []

-- "StartMessage".
abbrev pub start_message_type : Bytes
start_message_type = 83 ∷ 116 ∷ 97 ∷ 114 ∷ 116 ∷ 77 ∷ 101 ∷ 115 ∷ 115 ∷ 97 ∷ 103 ∷ 101 ∷ []

-- "InitializationMessage".
abbrev pub initialization_message_type : Bytes
initialization_message_type =
    73 ∷ 110 ∷ 105 ∷ 116 ∷ 105 ∷ 97 ∷ 108 ∷ 105 ∷ 122 ∷ 97 ∷ 116 ∷ 105 ∷ 111 ∷ 110 ∷ 77 ∷ 101 ∷ 115
    ∷ 115 ∷ 97 ∷ 103 ∷ 101 ∷ []

-- "TerminateToken".
abbrev pub terminate_token_type : Bytes
terminate_token_type =
    84 ∷ 101 ∷ 114 ∷ 109 ∷ 105 ∷ 110 ∷ 97 ∷ 116 ∷ 101 ∷ 84 ∷ 111 ∷ 107 ∷ 101 ∷ 110 ∷ []

-- "GVTUpdateMessageType".
abbrev pub gvt_update_message_type : Bytes
gvt_update_message_type =
    71 ∷ 86 ∷ 84 ∷ 85 ∷ 112 ∷ 100 ∷ 97 ∷ 116 ∷ 101 ∷ 77 ∷ 101 ∷ 115 ∷ 115 ∷ 97 ∷ 103 ∷ 101 ∷ 84
    ∷ 121 ∷ 112 ∷ 101 ∷ []

-- "MatternGVTMessage".
abbrev pub mattern_gvt_message_type : Bytes
mattern_gvt_message_type =
    77 ∷ 97 ∷ 116 ∷ 116 ∷ 101 ∷ 114 ∷ 110 ∷ 71 ∷ 86 ∷ 84 ∷ 77 ∷ 101 ∷ 115 ∷ 115 ∷ 97 ∷ 103 ∷ 101
    ∷ []

-- "NegativeEventMessage".
abbrev pub negative_event_message_type : Bytes
negative_event_message_type =
    78 ∷ 101 ∷ 103 ∷ 97 ∷ 116 ∷ 105 ∷ 118 ∷ 101 ∷ 69 ∷ 118 ∷ 101 ∷ 110 ∷ 116 ∷ 77 ∷ 101 ∷ 115 ∷ 115
    ∷ 97 ∷ 103 ∷ 101 ∷ []

-- What every kernel message has.
pub record KernelMessage : Type 0 where
  pub sender : ℕ
  pub receiver : ℕ
  pub incarnation_number : ℕ

-- A time, the event that cancels another one, and the messages.
pub data Value : Type 0 where
  int_v_time : ℕ → Value
  negative_event : Event → Value
  start_message : KernelMessage → Value
  initialization_message : KernelMessage → List Bytes → ℕ → Value
  terminate_token : KernelMessage → ℕ → ℕ → Value
  gvt_update_message : KernelMessage → ℕ → Value
  mattern_gvt_message : KernelMessage → ℕ → ℕ → ℕ → Value
  negative_event_message : KernelMessage → List Event → Bytes → Value

-- `Serializable::serialize` of a time: the name of the type, and an int.
unfoldable pub serialize_time : ℕ → Bytes
serialize_time t = add_string int_v_time_type ++ add_int t

abbrev pub add_time : ℕ → Bytes
add_time t = add_serialized_instance (serialize_time t)

unfoldable pub serialize_event : Event → Bytes
serialize_event e =
    add_string negative_event_type
    ++ (add_time e.send_time
        ++ (add_time e.receive_time
            ++ (add_unsigned e.sender.manager
                ++ (add_unsigned e.sender.object
                    ++ (add_unsigned e.receiver.manager
                        ++ (add_unsigned e.receiver.object ++ add_unsigned e.event_id))))))

abbrev pub add_event : Event → Bytes
add_event e = add_serialized_instance (serialize_event e)

-- `KernelMessage::serialize`, and what the message adds to it.
unfoldable pub serialize_kernel_message : KernelMessage → Bytes → Bytes
serialize_kernel_message m body =
    add_unsigned m.sender
    ++ (add_unsigned m.receiver ++ (add_unsigned m.incarnation_number ++ body))

unfoldable pub add_each {ℓ} : {A : Type ℓ} → (A → Bytes) → List A → Bytes → Bytes
add_each add [] body = body
add_each add (x ∷ xs) body = add x ++ add_each add xs body

-- What the types of messages write.
abbrev pub serialize_start : KernelMessage → Bytes
serialize_start m = serialize_kernel_message m []

abbrev pub serialize_initialization : KernelMessage → List Bytes → ℕ → Bytes
serialize_initialization m names managers =
    serialize_kernel_message m
      (add_int (length names) ++ add_each add_string names (add_unsigned managers))

abbrev pub serialize_token : KernelMessage → ℕ → ℕ → Bytes
serialize_token m terminator state =
    serialize_kernel_message m (add_unsigned terminator ++ add_int state)

abbrev pub serialize_update : KernelMessage → ℕ → Bytes
serialize_update m t = serialize_kernel_message m (add_time t)

abbrev pub serialize_mattern : KernelMessage → ℕ → ℕ → ℕ → Bytes
serialize_mattern m last minimum count =
    serialize_kernel_message m (add_time last ++ (add_time minimum ++ add_unsigned count))

abbrev pub serialize_events : KernelMessage → List Event → Bytes → Bytes
serialize_events m events gvt_info =
    serialize_kernel_message m
      (add_unsigned (length events) ++ add_each add_event events (add_string gvt_info))

-- `Serializable::serialize`.
unfoldable pub serialize : Value → Bytes
serialize (int_v_time t) = serialize_time t
serialize (negative_event e) = serialize_event e
serialize (start_message m) = add_string start_message_type ++ serialize_start m
serialize (initialization_message m names managers) =
    add_string initialization_message_type ++ serialize_initialization m names managers
serialize (terminate_token m terminator state) =
    add_string terminate_token_type ++ serialize_token m terminator state
serialize (gvt_update_message m t) = add_string gvt_update_message_type ++ serialize_update m t
serialize (mattern_gvt_message m last minimum count) =
    add_string mattern_gvt_message_type ++ serialize_mattern m last minimum count
serialize (negative_event_message m events gvt_info) =
    add_string negative_event_message_type ++ serialize_events m events gvt_info
