-- ===== src/MultiSet.antt =====
-- TimeWarpMultiSet.cpp: the unprocessed events of each object in a multiset, and one multiset with
-- the lowest event of each object. An iterator into an object's multiset is a position, of which
-- the length is `end()`; an insertion or an erasure moves the positions behind it along. A node of
-- `lowestObjEvents` carries the number of the object whose `lowObjPos` points to it, and `none` is
-- its `end()`. The vectors by object number are one function, so a number out of their range,
-- where the source is undefined, is an object with nothing in its queues. Where the source reads
-- through an iterator, the model returns `none` if it points to no event.
pub mod Lowest
pub mod Valid
pub mod Insert
pub mod Cancel
pub mod Take
pub mod Rollback
mod Tests
use pdes.Base.Sorting.{insert as insert_sorted, insert_all, hint_position, StrictOrder}
use pdes.Base.{
  ℕ, ◌+◌, ◌-◌, Bool, true, false, not, ◌&&◌, List, [], ◌∷◌, ◌++◌, Option, none, some, ltb, ◌==◌,
  if◌then◌else◌, update, length, front, rest, keep, extract, head?, last?, get_elem?, erase_at,
  insert_at, find_index, wrap32,
}
use pdes.Event.Order.{receive_order}
use pdes.Event.{Event, event_eq, object_eq, object_less}

-- The entries of the vectors at one object number.
pub record ObjectQueue : Type 0 where
  pub unprocessed : List Event
  pub insert_pos : ℕ
  pub low_pos : Option Event
  pub processed : List Event
  pub removed : List Event

abbrev pub empty_queue : ObjectQueue
empty_queue = record {
  unprocessed = [];
  insert_pos = 0;
  low_pos = none;
  processed = [];
  removed = [];
}

pub record TimeWarpMultiSet : Type 0 where
  pub queues : ℕ → ObjectQueue
  pub lowest : List (ℕ × Event)
  pub committed : ℕ
  pub rolled_back : ℕ
  pub executed : ℕ

abbrev pub init : TimeWarpMultiSet
init = record {
  queues = λ i. empty_queue;
  lowest = [];
  committed = 0;
  rolled_back = 0;
  executed = 0;
}

-- `lowestObjEvents` compares its events.
unfoldable pub insert_node : ℕ → Event → List (ℕ × Event) → List (ℕ × Event)
insert_node i e [] = (i, e) ∷ []
insert_node i e ((j, x) ∷ nodes) =
    if receive_order.less e x then (i, e) ∷ (j, x) ∷ nodes else (j, x) ∷ insert_node i e nodes

unfoldable pub erase_node : ℕ → List (ℕ × Event) → List (ℕ × Event)
erase_node i [] = []
erase_node i ((j, x) ∷ nodes) = if j == i then nodes else (j, x) ∷ erase_node i nodes

-- `if (lowObjPos[i] != lowestObjEvents.end()) lowestObjEvents.erase(lowObjPos[i]);`
abbrev pub erase_low : Option Event → ℕ → List (ℕ × Event) → List (ℕ × Event)
erase_low none i nodes = nodes
erase_low (some e) i nodes = erase_node i nodes

abbrev pub put : TimeWarpMultiSet → ℕ → ObjectQueue → TimeWarpMultiSet
put m i q = record m { queues = update m.queues i q }

-- The old low event of the object is erased if there is one, and the given one becomes the low
-- event if there is one.
unfoldable pub set_low : TimeWarpMultiSet → ℕ → ObjectQueue → Option Event → TimeWarpMultiSet
set_low m i q none = record m {
  queues = update m.queues i (record q { low_pos = none });
  lowest = erase_low q.low_pos i m.lowest;
}
set_low m i q (some e) = record m {
  queues = update m.queues i (record q { low_pos = some e });
  lowest = insert_node i e (erase_low q.low_pos i m.lowest);
}

abbrev starts_with : Event → List Event → Bool
starts_with e [] = false
starts_with e (x ∷ xs) = event_eq e x

unfoldable pub insert : TimeWarpMultiSet → Event → TimeWarpMultiSet
insert m e =
    let i = e.receiver.object in
    let q = m.queues i in
    let pos = hint_position receive_order q.insert_pos e q.unprocessed in
    let q' = record q { unprocessed = insert_at pos e q.unprocessed; insert_pos = pos } in
    if starts_with e q'.unprocessed then set_low m i q' (some e) else put m i q'

-- Where the insertion iterator points once position `k` is erased: it steps away from the erased
-- event, forward at the beginning and backward elsewhere.
unfoldable pub pos_after_erase : ℕ → ℕ → ℕ
pos_after_erase k pos =
    if k == pos then (if pos == 0 then 0 else pos - 1) else if ltb k pos then pos - 1 else pos

unfoldable pub is_negative_of : Event → Event → Bool
unfolding object_eq
is_negative_of n e = object_eq e.sender n.sender && e.event_id == n.event_id

abbrev low_is : Event → Option Event → Bool
low_is e none = false
low_is e (some l) = event_eq e l

unfoldable pub remove_at : TimeWarpMultiSet → ℕ → ℕ → Event → TimeWarpMultiSet
unfolding pos_after_erase
remove_at m i k e =
    let q = m.queues i in
    let q' = record q {
      unprocessed = erase_at k q.unprocessed;
      insert_pos = pos_after_erase k q.insert_pos;
      removed = q.removed ++ e ∷ [];
    } in
    if low_is e q.low_pos then set_low m i q' (head? q'.unprocessed) else put m i q'

unfoldable pub handle_anti_message : TimeWarpMultiSet → ℕ → Event → TimeWarpMultiSet × Bool
handle_anti_message m i n = elim (find_index (is_negative_of n) (m.queues i).unprocessed) [
  | none ↦ (m, false)
  | some (k, e) ↦ (remove_at m i k e, true)
]

-- `getEvent(object)` on a queue that begins with `e`, where the insertion iterator reads `x`.
unfoldable pub take_event : TimeWarpMultiSet → ℕ → Event → List Event → Event → TimeWarpMultiSet
take_event m i e es x =
    let q = m.queues i in
    let q' = record q {
      unprocessed = es;
      insert_pos = if event_eq e x then 0 else q.insert_pos - 1;
      processed = q.processed ++ e ∷ [];
    } in
    set_low (record m { executed = wrap32 (m.executed + 1) }) i q' (head? es)

abbrev get_first :
    TimeWarpMultiSet → ℕ → List Event → Option Event → Option (TimeWarpMultiSet × Option Event)
get_first m i [] x = some (put m i (record (m.queues i) { insert_pos = 0 }), none)
get_first m i (e ∷ es) none = none
get_first m i (e ∷ es) (some x) = some (take_event m i e es x, some e)

unfoldable pub get_event : TimeWarpMultiSet → ℕ → Option (TimeWarpMultiSet × Option Event)
get_event m i =
    let q = m.queues i in get_first m i q.unprocessed (get_elem? q.unprocessed q.insert_pos)

unfoldable pub peek_event : TimeWarpMultiSet → ℕ → Option Event
peek_event m i = head? (m.queues i).unprocessed

abbrev node_event : Option (ℕ × Event) → Option Event
node_event none = none
node_event (some (i, e)) = some e

-- `peekEvent(NULL)`.
unfoldable pub peek_lowest : TimeWarpMultiSet → Option Event
peek_lowest m = node_event (head? m.lowest)

abbrev pub only_before : ℕ → Option Event → Option Event
only_before time none = none
only_before time (some e) = if ltb e.receive_time time then some e else none

unfoldable pub peek_event_before : TimeWarpMultiSet → ℕ → ℕ → Option Event
peek_event_before m i time = only_before time (peek_event m i)

unfoldable pub get_event_before :
    TimeWarpMultiSet → ℕ → ℕ → Option (TimeWarpMultiSet × Option Event)
get_event_before m i time = elim (peek_event_before m i time) [
  | none ↦ some (m, none)
  | some e ↦ get_event m i
]

abbrev pub before : ℕ → Event → Bool
before time e = ltb e.receive_time time

-- The result has the events that are reclaimed.
unfoldable pub fossil_collect : TimeWarpMultiSet → ℕ → ℕ → TimeWarpMultiSet × List Event
fossil_collect m i time =
    let q = m.queues i in
    let q' = record q {
      processed = rest (before time) q.processed;
      removed = keep (λ e. not (before time e)) q.removed;
    } in
    (
      record (put m i q') {
        committed = wrap32 (m.committed + length (front (before time) q.processed));
      },
      front (before time) q.processed ++ keep (before time) q.removed,
    )

-- The collection by an approximate time does not count the committed events.
unfoldable pub fossil_collect_int :
    (ℕ → ℕ) → TimeWarpMultiSet → ℕ → ℕ → TimeWarpMultiSet × List Event
fossil_collect_int approximate m i time =
    let q = m.queues i in
    let old = λ (e : Event). ltb (approximate e.receive_time) time in
    (
      put m i (record q {
        processed = rest old q.processed;
        removed = keep (λ e. not (old e)) q.removed;
      }),
      front old q.processed ++ keep old q.removed,
    )

unfoldable pub same_event : Event → Event → Bool
unfolding object_eq
same_event a b = a.event_id == b.event_id && object_eq a.sender b.sender

unfoldable pub fossil_collect_event : TimeWarpMultiSet → Event → TimeWarpMultiSet
unfolding same_event
fossil_collect_event m e =
    let i = e.receiver.object in
    let q = m.queues i in
    elim (extract (λ x. same_event x e) q.processed) [
      | some (_, others) ↦ put m i (record q { processed = others })
      | none ↦ elim (extract (λ x. same_event x e) q.removed) [
        | some (_, others) ↦ put m i (record q { removed = others })
        | none ↦ m
      ]
    ]

-- The low event is read first; then the beginning of the queue, if the low event is not `end()`.
abbrev mend_low :
    TimeWarpMultiSet → ℕ → ObjectQueue → Option Event → Option Event → Option TimeWarpMultiSet
mend_low m i q none first = some (set_low m i q first)
mend_low m i q (some l) none = none
mend_low m i q (some l) (some x) =
    some (if not (event_eq l x) then set_low m i q (some x) else put m i q)

unfoldable pub rollback : TimeWarpMultiSet → ℕ → ℕ → Option TimeWarpMultiSet
rollback m i time =
    let q = m.queues i in
    let undone = rest (before time) q.processed in
    let q' = record q {
      unprocessed = insert_all receive_order undone q.unprocessed;
      insert_pos = 0;
      processed = front (before time) q.processed;
    } in
    mend_low (record m { rolled_back = wrap32 (m.rolled_back + length undone) }) i q' q.low_pos
      (head? q'.unprocessed)

-- The comparison with the last processed event is written out in the source.
unfoldable pub in_the_past : TimeWarpMultiSet → Event → Bool
unfolding object_less
in_the_past m e = elim (last? (m.queues e.receiver.object).processed) [
  | none ↦ false
  | some p ↦
      if not (e.receive_time == p.receive_time)
      then ltb e.receive_time p.receive_time
      else if not (e.event_id == p.event_id)
      then ltb e.event_id p.event_id
      else object_less e.sender p.sender
]

-- The loops run over the objects of the simulation manager, `count` of them.
unfoldable pub ofc_purge : TimeWarpMultiSet → ℕ → TimeWarpMultiSet
ofc_purge m count = record m {
  queues = λ i. if ltb i count then empty_queue else m.queues i;
  lowest = [];
}
