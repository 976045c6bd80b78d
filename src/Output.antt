-- ===== src/Output.antt =====
-- OutputEvents.cpp, OutputManagerImplementationBase.cpp and AggressiveOutputManager.cpp: the events
-- that an object has sent, kept until they cannot be taken back. A vector is a list with its oldest entry
-- first. Two pointers are compared as the events that they point to, since no queue holds two event
-- objects with the same fields. `none` stands for a failed assertion.
pub mod Lazy
pub mod Rollback
pub mod Fossil
pub mod Order
pub mod Cancel
pub mod Held
mod Tests
use mathlib.Core.List.{reverse}
use pdes.Base.{
  ℕ, Bool, true, false, not, ◌&&◌, List, [], ◌∷◌, ◌++◌, Option, none, some, ltb, leb, ◌==◌,
  if◌then◌else◌, front, rest, keep, extract,
}
use pdes.Event.{Event, object_eq}

pub record OutputEvents : Type 0 where
  pub sent_local : List Event
  pub sent_remote : List Event
  pub removed_remote : List Event

abbrev pub no_output : OutputEvents
no_output = record { sent_local = []; sent_remote = []; removed_remote = [] }

-- The simulation manager with its optimistic fossil collection, if it uses that: the time of the last
-- collection for an object, and the approximation of a time.
pub record Kernel : Type 0 where
  pub id : ℕ
  pub opt_fossil : Bool
  pub last_collect : ℕ → ℕ
  pub approximate : ℕ → ℕ

-- `contains`: the receiver is an object of this manager.
abbrev pub is_local : Kernel → Event → Bool
is_local k e = e.receiver.manager == k.id

abbrev pub at_or_after : ℕ → Event → Bool
at_or_after time e = leb time e.send_time

-- What a search from the end has found, what it leaves, newest first, and the recovery that it starts.
pub record Search : Type 0 where
  pub found : List Event
  pub left : List Event
  pub recovery : Option (ℕ × ℕ)

abbrev pub with_found : Event → Search → Search
with_found e s = record s { found = e ∷ s.found }

abbrev pub nothing_in : List Event → Search
nothing_in es = record { found = []; left = es; recovery = none }

-- The receiver has been collected at the event's receive time or later.
abbrev pub is_lost : Kernel → Event → Bool
is_lost k e = k.opt_fossil && leb (k.approximate e.receive_time) (k.last_collect e.receiver.object)

-- The loop over the local events, newest first. The oldest one is handled behind the loop, where no
-- recovery is started.
unfoldable pub search_local : Kernel → ℕ → List Event → Search
search_local k time [] = nothing_in []
search_local k time (e ∷ []) =
    if at_or_after time e then with_found e (nothing_in []) else nothing_in (e ∷ [])
search_local k time (e ∷ f ∷ es) =
    let deeper = search_local k time (f ∷ es) in
    if at_or_after time e
    then (if is_lost k e
        then record {
          found = [];
          left = e ∷ f ∷ es;
          recovery = some (e.receiver.object, k.approximate e.send_time);
        }
        else with_found e deeper)
    else nothing_in (e ∷ f ∷ es)

-- `getEventsSentAtOrAfter`.
unfoldable pub get_events_sent_at_or_after : Kernel → OutputEvents → ℕ → List Event × Option (ℕ × ℕ)
get_events_sent_at_or_after k o time =
    let s = search_local k time (reverse o.sent_local) in
    (s.found ++ front (at_or_after time) (reverse o.sent_remote), s.recovery)

-- `getEventsSentAtOrAfterAndRemove`: the events that are found, newest first, the local ones before
-- the remote ones.
unfoldable pub get_events_and_remove :
    Kernel → OutputEvents → ℕ → OutputEvents × List Event × Option (ℕ × ℕ)
get_events_and_remove k o time =
    let s = search_local k time (reverse o.sent_local) in
    let found = front (at_or_after time) (reverse o.sent_remote) in
    (
      record {
        sent_local = reverse s.left;
        sent_remote = reverse (rest (at_or_after time) (reverse o.sent_remote));
        removed_remote = o.removed_remote ++ found;
      },
      s.found ++ found,
      s.recovery,
    )

-- Both collections; they differ in the test of a send time only.
unfoldable pub collect : (Event → Bool) → OutputEvents → OutputEvents
collect old o = record {
  sent_remote = rest old o.sent_remote;
  sent_local = rest old o.sent_local;
  removed_remote = keep (λ e. not (old e)) o.removed_remote;
}

unfoldable pub fossil_collect : OutputEvents → ℕ → OutputEvents
fossil_collect o time = collect (λ e. ltb e.send_time time) o

unfoldable pub fossil_collect_int : (ℕ → ℕ) → OutputEvents → ℕ → OutputEvents
fossil_collect_int approximate o time = collect (λ e. ltb (approximate e.send_time) time) o

-- The comparison of two pointers.
unfoldable pub same_pointer : Event → Event → Bool
unfolding object_eq
same_pointer a b =
    object_eq a.sender b.sender
    && (object_eq a.receiver b.receiver
        && (a.send_time == b.send_time
            && (a.receive_time == b.receive_time && a.event_id == b.event_id)))

abbrev pub without : Option (Event × List Event) → List Event → List Event
without none es = es
without (some (e, others)) es = others

unfoldable pub insert : Kernel → OutputEvents → Event → OutputEvents
insert k o e = if is_local k e then record o { sent_local = o.sent_local ++ e ∷ [] } else record o {
  removed_remote = without (extract (same_pointer e) o.removed_remote) o.removed_remote;
  sent_remote = o.sent_remote ++ e ∷ [];
}

-- The first match of each queue is dropped: among the local events by pointer, among the remote
-- ones by number and sender.
unfoldable pub fossil_collect_event : OutputEvents → Event → OutputEvents
unfolding object_eq
fossil_collect_event o e = record o {
  sent_local = without (extract (same_pointer e) o.sent_local) o.sent_local;
  sent_remote =
      without (extract (λ x. e.event_id == x.event_id && object_eq e.sender x.sender) o.sent_remote)
        o.sent_remote;
}

unfoldable pub remove : OutputEvents → Event → Option OutputEvents
remove o e = elim (extract (same_pointer e) o.sent_local) [
  | some (_, others) ↦ some (record o { sent_local = others })
  | none ↦ elim (extract (same_pointer e) o.sent_remote) [
    | some (_, others) ↦ some (record o { sent_remote = others })
    | none ↦ none
  ]
]

unfoldable pub ofc_purge : OutputEvents → OutputEvents
ofc_purge o = no_output

-- `AggressiveOutputManager::rollback`: what it hands to `cancelEvents`, if that is not empty.
unfoldable pub rollback :
    Kernel → OutputEvents → ℕ → OutputEvents × Option (List Event) × Option (ℕ × ℕ)
rollback k o time =
    let (o', events, recovery) = get_events_and_remove k o time in
    (o', elim events [ [] ↦ none | e ∷ es ↦ some (e ∷ es) ], recovery)
