-- ===== src/Serial/Nested.antt =====
-- The bytes of a time and of an event, alone and inside other instances.
use mathlib.Core.List.{append-nil}
use pdes.Base.{
  ℕ, suc, ◌+◌, ◌^◌, ◌<◌, ◌≡◌, refl, ◌∙◌, ap, subst, Option, some, [], ◌++◌, length, arith, ltb,
  true,
}
use pdes.Event.{Event}
use pdes.Serial.Compose.{
  at, GetReads, get-GetReads, bind-GetReads, end-GetReads, Starts, get-Starts, bind-Starts,
}
use pdes.Serial.Extract.{
  ◌>>=◌, lift, as_time, as_event, get_time, get_event, deserialize_time, deserialize_event,
  find_deserializer, bytes_eq, deserialize, first_of,
}
use pdes.Serial.Messages.{
  Value, int_v_time, negative_event, serialize_time, add_time, serialize_event, add_event,
  int_v_time_type, negative_event_type,
}
use pdes.Serial.Reads.{
  Reads, read_unsigned-Reads, read_signed-Reads, read_string-Reads, read_instance-Reads,
}
use pdes.Serial.{
  Bytes, add_bytes, add_string, add_unsigned, add_int, add_serialized_instance, read_unsigned,
  read_signed, read_string, read_instance, write_int, Get, get, get_data_type, second,
}

-- The unsigned ints, and the ints from 0 on, as which IntVTime keeps a time.
abbrev pub IsWord : ℕ → Type 0
IsWord n = n < 2 ^ 32

abbrev pub IsTime : ℕ → Type 0
IsTime t = t < 2 ^ 31

abbrev pub IsShort : Bytes → Type 0
IsShort s = length s + 1 < 2 ^ 32

pub record EventInRange (e : Event) : Type 0 where
  pub send_time : IsTime e.send_time
  pub receive_time : IsTime e.receive_time
  pub sender_object : IsWord e.sender.object
  pub sender_manager : IsWord e.sender.manager
  pub receiver_object : IsWord e.receiver.object
  pub receiver_manager : IsWord e.receiver.manager
  pub event_id : IsWord e.event_id

pub unsigned : (n : ℕ) → IsWord n → GetReads (get read_unsigned) (add_unsigned n) n
unsigned n h = get-GetReads read_unsigned (add_unsigned n) n (read_unsigned-Reads n h)

pub signed : (n : ℕ) → IsWord n → GetReads (get read_signed) (add_int n) n
signed n h = get-GetReads read_signed (add_int n) n (read_signed-Reads n h)

pub string : (s : Bytes) → IsShort s → GetReads (get read_string) (add_string s) s
string s h = get-GetReads read_string (add_string s) s (read_string-Reads s h)

-- A type's name, and the function that is registered for it.
deserialize_behind :
    (depth : ℕ) (name body : Bytes) (g : Get Value)
    → IsShort name
    → find_deserializer (deserialize depth) name ≡ some g
    → Starts g
    → deserialize (suc depth) (add_string name ++ body)
      ≡ first_of (g (at (add_string name ++ body) body))
unfolding deserialize get_data_type Reads
deserialize_behind depth name body g short found s =
    rw
      (
        read_string-Reads name short body,
        found,
        s.starts (add_string name ++ body) body (ap second (read_string-Reads name short body)),
      )
      refl

at_end :
    {A : Type 0} {g : Get A} {bytes : Bytes} {a : A} (contents : Bytes)
    → GetReads g bytes a
    → g (at contents bytes) ≡ some (a, at contents [])
at_end {g = g} {bytes = bytes} {a = a} contents r =
    subst (λ xs. g (at contents xs) ≡ some (a, at contents [])) (append-nil bytes)
      (r.reads contents [])

-- And what that function reads.
pub deserialize_lem :
    (depth : ℕ) (name body : Bytes) (g : Get Value) (v : Value)
    → IsShort name
    → find_deserializer (deserialize depth) name ≡ some g
    → Starts g
    → GetReads g body v
    → deserialize (suc depth) (add_string name ++ body) ≡ some v
deserialize_lem depth name body g v short found s r =
    deserialize_behind depth name body g short found s
    ∙ ap first_of (at_end (add_string name ++ body) r)

time-GetReads : (t : ℕ) → IsTime t → GetReads deserialize_time (add_int t) (int_v_time t)
unfolding deserialize_time
time-GetReads t h = record {
  reads = λ contents rest.
      let small : ltb t (2 ^ 31) ≡ true = ground arith in
      rw ((signed t (omega arith)).reads contents rest, small) refl;
}

time-Starts : Starts deserialize_time
unfolding deserialize_time
time-Starts = bind-Starts _ _ (get-Starts read_signed)

pub time_lem :
    (depth t : ℕ) → IsTime t → deserialize (suc depth) (serialize_time t) ≡ some (int_v_time t)
unfolding serialize_time find_deserializer bytes_eq deserialize_time
time_lem depth t h =
    deserialize_lem depth int_v_time_type (add_int t) deserialize_time (int_v_time t) (omega arith)
      refl time-Starts (time-GetReads t h)

-- An instance inside that is deserialized to the value of which a part is asked for.
nested-GetReads :
    {A : Type 0} (bytes : Bytes) (nested : Bytes → Option Value) (as_part : Value → Option A)
    (v : Value) (a : A)
    → length bytes < 2 ^ 32
    → nested bytes ≡ some v
    → as_part v ≡ some a
    → GetReads
        (get read_instance >>= λ found. lift (nested found) >>= λ w. lift (as_part w))
        (add_serialized_instance bytes)
        a
nested-GetReads bytes nested as_part v a short e f = record {
  reads = λ contents rest.
      let r =
        get-GetReads read_instance (add_serialized_instance bytes) bytes
          (read_instance-Reads bytes short) in
      rw (r.reads contents rest, e, f) refl;
}

length-serialize_time : (t : ℕ) → length (serialize_time t) < 2 ^ 32
unfolding serialize_time add_string add_bytes add_int write_int
length-serialize_time t = omega arith

length-serialize_event : (e : Event) → length (serialize_event e) < 2 ^ 32
unfolding serialize_event serialize_time add_string add_bytes add_int add_unsigned
    add_serialized_instance write_int
length-serialize_event e = omega arith

module _ (depth : ℕ) where
  pub get_time-GetReads :
      (t : ℕ) → IsTime t → GetReads (get_time (deserialize (suc depth))) (add_time t) t
  unfolding get_time
  get_time-GetReads t h =
      nested-GetReads (serialize_time t) (deserialize (suc depth)) as_time (int_v_time t) t
        (length-serialize_time t) (time_lem depth t h) refl

  get_time-Starts : Starts (get_time (deserialize (suc depth)))
  unfolding get_time
  get_time-Starts = bind-Starts _ _ (get-Starts read_instance)

  pub event_lem :
      (e : Event)
      → EventInRange e
      → deserialize (suc (suc depth)) (serialize_event e) ≡ some (negative_event e)
  unfolding serialize_event find_deserializer bytes_eq deserialize_event
  event_lem e h =
      deserialize_lem (suc depth) negative_event_type _
        (deserialize_event (deserialize (suc depth))) (negative_event e) (omega arith) refl
        (bind-Starts _ _ get_time-Starts)
        (bind-GetReads _ _ (get_time-GetReads e.send_time h.send_time) (
          bind-GetReads _ _ (get_time-GetReads e.receive_time h.receive_time) (
            bind-GetReads _ _ (unsigned e.sender.manager h.sender_manager) (
              bind-GetReads _ _ (unsigned e.sender.object h.sender_object) (
                bind-GetReads _ _ (unsigned e.receiver.manager h.receiver_manager) (
                  bind-GetReads _ _ (unsigned e.receiver.object h.receiver_object)
                    (end-GetReads _ _ (unsigned e.event_id h.event_id))))))))

  pub get_event-GetReads :
      (e : Event)
      → EventInRange e
      → GetReads (get_event (deserialize (suc (suc depth)))) (add_event e) e
  unfolding get_event
  get_event-GetReads e h =
      nested-GetReads (serialize_event e) (deserialize (suc (suc depth))) as_event
        (negative_event e) e (length-serialize_event e) (event_lem e h) refl
