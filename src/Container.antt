-- ===== src/Container.antt =====
-- DefaultTimeWarpEventContainer.cpp: the events of one simulation object. What a method hands to
-- `SimulationObject::reclaimEvent` is part of its result. The pointers that `fossilCollect` sets to
-- null are gone when it returns, so the lists hold no null.
pub mod Causality
pub mod Rollback
pub mod Cancel
pub mod Fossil
pub mod History
mod Tests
use pdes.Base.Sorting.{sort}
use pdes.Base.{
  ℕ, Bool, true, false, not, ◌&&◌, List, [], ◌∷◌, ◌++◌, Option, none, some, ltb, ◌==◌,
  if◌then◌else◌, front, rest, keep, extract, head?, last?,
}
use pdes.Event.Order.{receive_order}
use pdes.Event.{Event, object_eq, object_less}

pub data SortStatus : Type 0 where
  sorted unsorted : SortStatus

pub record Container : Type 0 where
  pub unprocessed : List Event
  pub processed : List Event
  pub removed : List Event
  pub negative : List Event
  pub sort_status : SortStatus

abbrev pub empty : Container
empty = record {
  unprocessed = [];
  processed = [];
  removed = [];
  negative = [];
  sort_status = sorted;
}

-- The test of the loops that look for an event and its negative.
unfoldable pub same_event : Event → Event → Bool
unfolding object_eq
same_event a b = a.event_id == b.event_id && object_eq a.sender b.sender

abbrev enqueue : Container → Event → Container
enqueue c e = record c { unprocessed = c.unprocessed ++ e ∷ []; sort_status = unsorted }

-- A negative event that came first cancels the event as it arrives. With no negative events the
-- loop finds nothing.
unfoldable pub insert : Container → Event → Container
insert c e = elim (extract (same_event e) c.negative) [
  | none ↦ enqueue c e
  | some (n, others) ↦ record c { removed = c.removed ++ e ∷ []; negative = others }
]

unfoldable pub sort_by_receive_times : Container → Container
sort_by_receive_times c = record c {
  unprocessed = sort receive_order c.unprocessed;
  sort_status = sorted;
}

unfoldable pub handle_anti_message : Container → Event → Container × Bool
handle_anti_message c n = elim (extract (same_event n) c.unprocessed) [
  | none ↦ (record c { negative = c.negative ++ n ∷ [] }, false)
  | some (e, others) ↦ (record c { removed = c.removed ++ e ∷ []; unprocessed = others }, true)
]

abbrev pub before : ℕ → Event → Bool
before time e = ltb e.receive_time time

unfoldable pub rollback : Container → ℕ → Container
rollback c time = record c {
  unprocessed = c.unprocessed ++ rest (before time) c.processed;
  processed = front (before time) c.processed;
  sort_status = unsorted;
}

-- `if (sortStatus == UNSORTED) sortByReceiveTimes();`
unfoldable pub ensure_sorted : Container → Container
ensure_sorted c = elim c.sort_status [ sorted ↦ c | unsorted ↦ sort_by_receive_times c ]

-- The two collections by time differ in the test of a receive time only. The result has the
-- events that are reclaimed, in order.
unfoldable pub collect : (Event → Bool) → Container → Container × List Event
collect old c =
    let d = ensure_sorted c in
    (
      record d { processed = rest old d.processed; removed = keep (λ e. not (old e)) d.removed },
      front old d.processed ++ keep old d.removed,
    )

unfoldable pub fossil_collect : Container → ℕ → Container × List Event
fossil_collect c time = collect (before time) c

-- `getApproximateIntTime` is a virtual method of the time class.
unfoldable pub fossil_collect_int : (ℕ → ℕ) → Container → ℕ → Container × List Event
fossil_collect_int approximate c time = collect (λ e. ltb (approximate e.receive_time) time) c

-- The first match among the processed events is dropped, or else the first among the removed.
unfoldable pub fossil_collect_event : Container → Event → Container
fossil_collect_event c e = elim (extract (same_event e) c.processed) [
  | some (_, others) ↦ record c { processed = others }
  | none ↦ elim (extract (same_event e) c.removed) [
    | some (_, others) ↦ record c { removed = others }
    | none ↦ c
  ]
]

-- Nothing is sorted in an empty container.
unfoldable pub next_event : Container → Container × Option Event
next_event c = elim c.unprocessed [
  | [] ↦ (c, none)
  | _ ∷ _ ↦ (ensure_sorted c, head? (ensure_sorted c).unprocessed)
]

abbrev pop_front : List Event → List Event
pop_front [] = []
pop_front (e ∷ es) = es

abbrev pub take_next : Container × Option Event → Container × Option Event
take_next (c, none) = (c, none)
take_next (c, some e) =
    (record c { unprocessed = pop_front c.unprocessed; processed = c.processed ++ e ∷ [] }, some e)

unfoldable pub get_next_event : Container → Container × Option Event
get_next_event c = take_next (next_event c)

-- The comparison with the last processed event is written out in the source.
unfoldable pub is_in_the_past : Container → Event → Bool
unfolding object_less
is_in_the_past c e = elim (last? c.processed) [
  | none ↦ false
  | some p ↦
      if not (e.receive_time == p.receive_time)
      then ltb e.receive_time p.receive_time
      else if not (e.event_id == p.event_id)
      then ltb e.event_id p.event_id
      else object_less e.sender p.sender
]

-- Everything is reclaimed; the sort status stays.
unfoldable pub ofc_purge : Container → Container × List Event
ofc_purge c = (
  record c { unprocessed = []; processed = []; removed = []; negative = [] },
  c.unprocessed ++ c.processed ++ c.removed ++ c.negative,
)
