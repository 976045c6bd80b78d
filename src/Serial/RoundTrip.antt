-- ===== src/Serial/RoundTrip.antt =====
-- The bytes of a message give the message again.
use mathlib.Core.List.{append_assoc, append-nil}
use pdes.Base.{ℕ, ◌^◌, ◌<◌, ◌≡◌, refl, sym, subst, some, List, [], ◌++◌, length, All, arith}
use pdes.Serial.Compose.{
  GetReads, bind-GetReads, end-GetReads, get_each-GetReads, add_each-append, Starts, get-Starts,
  bind-Starts,
}
use pdes.Serial.Extract.{
  ◌>>=◌, get_each, get_kernel_message, get_event, deserialize_start, deserialize_initialization,
  loop_count, deserialize_token, deserialize_update, deserialize_mattern, deserialize_events,
  find_deserializer, bytes_eq, deserialize,
}
use pdes.Serial.Messages.{
  KernelMessage, Value, int_v_time, negative_event, start_message, initialization_message,
  terminate_token, gvt_update_message, mattern_gvt_message, negative_event_message, add_event,
  serialize_kernel_message, add_each, serialize, start_message_type, initialization_message_type,
  terminate_token_type, gvt_update_message_type, mattern_gvt_message_type,
  negative_event_message_type,
}
use pdes.Serial.Nested.{
  IsWord, IsTime, IsShort, EventInRange, unsigned, signed, string, deserialize_lem, time_lem,
  event_lem, get_time-GetReads, get_event-GetReads,
}
use pdes.Serial.{Bytes, add_string, add_unsigned, read_unsigned, read_string, Get, get}

unfoldable pub HeaderInRange : KernelMessage → Type 0
HeaderInRange m = IsWord m.sender × IsWord m.receiver × IsWord m.incarnation_number

-- What the fields of the messages can hold.
unfoldable pub InRange : Value → Type 0
InRange (int_v_time t) = IsTime t
InRange (negative_event e) = EventInRange e
InRange (start_message m) = HeaderInRange m
InRange (initialization_message m names managers) =
    HeaderInRange m × (length names < 2 ^ 31) × All IsShort names × IsWord managers
InRange (terminate_token m terminator state) = HeaderInRange m × IsWord terminator × IsWord state
InRange (gvt_update_message m t) = HeaderInRange m × IsTime t
InRange (mattern_gvt_message m last minimum count) =
    HeaderInRange m × IsTime last × IsTime minimum × IsWord count
InRange (negative_event_message m events gvt_info) =
    HeaderInRange m × IsWord (length events) × All EventInRange events × IsShort gvt_info

header-GetReads :
    (m : KernelMessage)
    → HeaderInRange m
    → GetReads get_kernel_message (serialize_kernel_message m []) m
unfolding get_kernel_message serialize_kernel_message HeaderInRange
header-GetReads m h =
    subst
      (λ xs.
        GetReads get_kernel_message (add_unsigned m.sender ++ (add_unsigned m.receiver ++ xs)) m)
      (sym (append-nil (add_unsigned m.incarnation_number)))
      (bind-GetReads _ _ (unsigned m.sender h.0) (
        bind-GetReads _ _ (unsigned m.receiver h.1)
          (end-GetReads _ _ (unsigned m.incarnation_number h.2))))

header-append :
    (m : KernelMessage) (body : Bytes)
    → serialize_kernel_message m [] ++ body ≡ serialize_kernel_message m body
unfolding serialize_kernel_message
header-append m body = simp append_assoc

-- A message: its header, and what its type reads behind it.
message-GetReads :
    {A : Type 0} (m : KernelMessage) (k : KernelMessage → Get A) (body : Bytes) (a : A)
    → HeaderInRange m
    → GetReads (k m) body a
    → GetReads (get_kernel_message >>= k) (serialize_kernel_message m body) a
message-GetReads m k body a h r =
    subst (λ xs. GetReads (get_kernel_message >>= k) xs a) (header-append m body)
      (bind-GetReads get_kernel_message k (header-GetReads m h) r)

header-Starts : {A : Type 0} (k : KernelMessage → Get A) → Starts (get_kernel_message >>= k)
unfolding get_kernel_message
header-Starts k = bind-Starts _ k (bind-Starts _ _ (get-Starts read_unsigned))

list_then :
    {A B : Type 0} (g : Get A) (add : A → Bytes) (P : A → Type 0) (k : List A → Get B) (xs : List A)
    (body : Bytes) (b : B)
    → ((a : A) → P a → GetReads g (add a) a)
    → All P xs
    → GetReads (k xs) body b
    → GetReads (get_each (length xs) g >>= k) (add_each add xs body) b
list_then g add P k xs body b h all r =
    subst (λ ys. GetReads (get_each (length xs) g >>= k) ys b) (sym (add_each-append add xs body))
      (bind-GetReads _ k (get_each-GetReads g add P h xs all) r)

names_then :
    {A B : Type 0} (n : ℕ) (g : Get A) (k : List A → Get B) {bytes : Bytes} {b : B}
    → n < 2 ^ 31
    → GetReads (get_each n g >>= k) bytes b
    → GetReads (get_each (loop_count n) g >>= k) bytes b
names_then n g k {bytes} {b} h r =
    let same : loop_count n ≡ n = ground arith in
    subst (λ i. GetReads (get_each i g >>= k) bytes b) (sym same) r

-- Whatever the kernel sends of these, times below 2 ^ 31 and numbers, sizes and lengths below what
-- their fields hold, is deserialized from its bytes to what it was.
pub deserialize-serialize : (v : Value) → InRange v → deserialize 3 (serialize v) ≡ some v
unfolding serialize InRange find_deserializer bytes_eq deserialize_start deserialize_initialization
    deserialize_token deserialize_update deserialize_mattern deserialize_events
deserialize-serialize (int_v_time t) h = time_lem 2 t h
deserialize-serialize (negative_event e) h = event_lem 1 e h
deserialize-serialize (start_message m) h =
    deserialize_lem 2 start_message_type _ deserialize_start _ (omega arith) refl (header-Starts _)
      (end-GetReads _ _ (header-GetReads m h))
deserialize-serialize (initialization_message m names managers) h =
    deserialize_lem 2 initialization_message_type _ deserialize_initialization _ (omega arith) refl
      (header-Starts _)
      (message-GetReads m _ _ _ h.0 (
        bind-GetReads _ _ (signed (length names) (omega (arith, h.1))) (
          names_then (length names) _ _ h.1 (
            list_then (get read_string) add_string IsShort _ names (add_unsigned managers) _ string
              h.2 (end-GetReads _ _ (unsigned managers h.3))))))
deserialize-serialize (terminate_token m terminator state) h =
    deserialize_lem 2 terminate_token_type _ deserialize_token _ (omega arith) refl
      (header-Starts _)
      (message-GetReads m _ _ _ h.0
        (bind-GetReads _ _ (unsigned terminator h.1) (end-GetReads _ _ (signed state h.2))))
deserialize-serialize (gvt_update_message m t) h =
    deserialize_lem 2 gvt_update_message_type _ (deserialize_update (deserialize 2)) _ (omega arith)
      refl (header-Starts _)
      (message-GetReads m _ _ _ h.0 (end-GetReads _ _ (get_time-GetReads 1 t h.1)))
deserialize-serialize (mattern_gvt_message m last minimum count) h =
    deserialize_lem 2 mattern_gvt_message_type _ (deserialize_mattern (deserialize 2)) _
      (omega arith) refl (header-Starts _)
      (message-GetReads m _ _ _ h.0 (
        bind-GetReads _ _ (get_time-GetReads 1 last h.1) (
          bind-GetReads _ _ (get_time-GetReads 1 minimum h.2)
            (end-GetReads _ _ (unsigned count h.3)))))
deserialize-serialize (negative_event_message m events gvt_info) h =
    deserialize_lem 2 negative_event_message_type _ (deserialize_events (deserialize 2)) _
      (omega arith) refl (header-Starts _)
      (message-GetReads m _ _ _ h.0 (
        bind-GetReads _ _ (unsigned (length events) h.1) (
          list_then (get_event (deserialize 2)) add_event EventInRange _ events
            (add_string gvt_info) _ (get_event-GetReads 0) h.2
            (end-GetReads _ _ (string gvt_info h.3)))))
