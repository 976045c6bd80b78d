-- ===== src/Output/Lazy.antt =====
-- LazyOutputManager.cpp: what a rollback takes back is held until it is sent again or until its time
-- has passed, and only then cancelled. `equal` is the application's `eventCompare`, and `sort` the
-- sort of the C++ library by receive times. The list that a function hands out is what it passes to
-- `cancelEvents`; an empty list stands for no call.
use pdes.Base.{
  ℕ, zero, suc, update, ◌+◌, Bool, true, false, ◌&&◌, List, [], ◌∷◌, ◌++◌, Option, none, some, ltb,
  if◌then◌else◌, length, front, rest, extract,
}
use pdes.Event.{Event}
use pdes.Output.{OutputEvents, Kernel, no_output, insert, get_events_and_remove, ofc_purge}

-- The entries of the vectors for one object.
pub record LazyObject : Type 0 where
  pub lazy_queue : List Event
  pub to_cancel : List Event
  pub insert_mode : Bool
  pub hits : ℕ
  pub misses : ℕ
  pub output : OutputEvents

abbrev pub new_object : LazyObject
new_object = record {
  lazy_queue = [];
  to_cancel = [];
  insert_mode = true;
  hits = 0;
  misses = 0;
  output = no_output;
}

abbrev pub earlier_than : ℕ → Event → Bool
earlier_than time e = ltb e.send_time time

abbrev pub no_counts : LazyObject → LazyObject
no_counts o = record o { hits = 0; misses = 0 }

-- The first loop: the front of the queue with earlier send times is to be cancelled.
unfoldable pub give_up : ℕ → LazyObject → LazyObject
give_up time o = record o {
  lazy_queue = rest (earlier_than time) o.lazy_queue;
  to_cancel = o.to_cancel ++ front (earlier_than time) o.lazy_queue;
  misses = o.misses + length (front (earlier_than time) o.lazy_queue);
}

-- The phase ends when the queue is empty.
abbrev pub end_phase : LazyObject → LazyObject
end_phase o = elim o.lazy_queue [ [] ↦ no_counts o | _ ∷ _ ↦ o ]

-- The second loop: the first event that is sent again leaves the queue.
abbrev pub hit : Kernel → LazyObject → Option (Event × List Event) → LazyObject × Bool
hit k o none = (o, false)
hit k o (some (e, others)) = (
  record o {
    lazy_queue = others;
    hits = o.hits + 1;
    output = if o.insert_mode then insert k o.output e else o.output;
  },
  true,
)

abbrev pub ends : LazyObject × Bool → LazyObject × Bool
ends (o, found) = (end_phase o, found)

abbrev pub check_with :
    (Event → Event → Bool) → Kernel → LazyObject → Event → List Event → LazyObject × Bool
check_with equal k o e [] = (no_counts o, false)
check_with equal k o e (x ∷ xs) =
    let p = give_up e.send_time o in ends (hit k p (extract (λ y. equal y e) p.lazy_queue))

unfoldable pub check_lazy_cancel_event :
    (Event → Event → Bool) → Kernel → LazyObject → Event → LazyObject × Bool
check_lazy_cancel_event equal k o e = check_with equal k o e o.lazy_queue

-- The second `handleCancelEvents`.
unfoldable pub handle_cancel_events : LazyObject → LazyObject × List Event
handle_cancel_events o = (record o { to_cancel = [] }, o.to_cancel)

-- The event is reclaimed if its equal went back to the output, and is output itself if not.
abbrev pub settle : Kernel → Event → LazyObject × Bool → LazyObject × Bool × List Event
settle k e (p, found) =
    let q = if found && p.insert_mode then p else record p { output = insert k p.output e } in
    (record q { to_cancel = [] }, found, q.to_cancel)

-- Whether the event was sent before, and what is cancelled.
unfoldable pub lazy_cancel :
    (Event → Event → Bool) → Kernel → LazyObject → Event → LazyObject × Bool × List Event
lazy_cancel equal k o e = settle k e (check_lazy_cancel_event equal k o e)

unfoldable pub empty_lazy_queue : LazyObject → ℕ → LazyObject × List Event
empty_lazy_queue o time = handle_cancel_events (give_up time o)

-- The two loops of `emptyLazyQueues`, over the objects below a number.
unfoldable pub give_up_all : (ℕ → LazyObject) → ℕ → ℕ → ℕ → LazyObject
give_up_all objects zero time = objects
give_up_all objects (suc n) time =
    let before = give_up_all objects n time in update before n (give_up time (before n))

abbrev call : List Event → List (List Event)
call [] = []
call (e ∷ es) = (e ∷ es) ∷ []

-- The first `handleCancelEvents`: the calls of `cancelEvents`, in order.
unfoldable pub handle_all : (ℕ → LazyObject) → ℕ → (ℕ → LazyObject) × List (List Event)
handle_all objects zero = (objects, [])
handle_all objects (suc n) =
    let (before, calls) = handle_all objects n in
    let (o, cancelled) = handle_cancel_events (before n) in
    (update before n o, calls ++ call cancelled)

unfoldable pub empty_lazy_queues : (ℕ → LazyObject) → ℕ → ℕ → (ℕ → LazyObject) × List (List Event)
empty_lazy_queues objects n time = handle_all (give_up_all objects n time) n

-- The receive time of the first event that is held.
abbrev pub lazy_min_time : ℕ → LazyObject → ℕ
lazy_min_time infinity o = elim o.lazy_queue [ [] ↦ infinity | e ∷ _ ↦ e.receive_time ]

-- The least of them over the objects below a number.
unfoldable pub get_lazy_q_min_time : ℕ → (ℕ → LazyObject) → ℕ → ℕ
get_lazy_q_min_time infinity objects zero = infinity
get_lazy_q_min_time infinity objects (suc n) =
    let least = get_lazy_q_min_time infinity objects n in
    let here = lazy_min_time infinity (objects n) in if ltb here least then here else least

unfoldable pub rollback :
    (List Event → List Event) → Kernel → LazyObject → ℕ → LazyObject × Option (ℕ × ℕ)
rollback sort k o time =
    let (output, events, recovery) = get_events_and_remove k o.output time in
    (record o { output = output; lazy_queue = sort (o.lazy_queue ++ events) }, recovery)

unfoldable pub ofc_purge_object : LazyObject → LazyObject
ofc_purge_object o = record {
  lazy_queue = [];
  to_cancel = [];
  insert_mode = true;
  hits = 0;
  misses = 0;
  output = ofc_purge o.output;
}
