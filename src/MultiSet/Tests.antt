-- ===== src/MultiSet/Tests.antt =====
-- Runs of the event set, and the theorems at a concrete set.
use pdes.Base.Sorting.{
  Le, Sorted, insert as insert_sorted, insert_all, hint_position, lower_bound, upper_bound,
}
use pdes.Base.{
  ℕ, Bool, ◌≡◌, ◌++◌, subst, ◌<◌, ◌⊎◌, refl, true, false, List, [], ◌∷◌, Option, none, some, arith,
  All, extract, front, rest, keep, last?, insert_at, find_index, wrap32,
}
use pdes.MultiSet.Cancel.{IsRemoval, handle_anti_message_lem}
use pdes.MultiSet.Insert.{insert-IsValid, IsFresh}
use pdes.MultiSet.Rollback.{IsUnique, RollsBack, rollback-RollsBack}
use pdes.MultiSet.Take.{Takes, get_event_lem, peek_lowest_lem, get_event_before_lem}
use pdes.MultiSet.Valid.{IsValid, init-IsValid, set_low-IsValid}
use pdes.MultiSet.{
  TimeWarpMultiSet, ObjectQueue, empty_queue, init, insert, insert_node, erase_node, set_low,
  handle_anti_message, remove_at, is_negative_of, get_event, take_event, peek_event, peek_lowest,
  peek_event_before, get_event_before, fossil_collect, fossil_collect_int, fossil_collect_event,
  rollback, in_the_past, ofc_purge,
}
use pdes.Event.Order.{receive_order}
use pdes.Event.{Event, receive_less, event_eq}

program : Unit {0}
unfolding insert insert_node erase_node set_low handle_anti_message remove_at is_negative_of
    get_event take_event peek_event peek_lowest peek_event_before get_event_before fossil_collect
    fossil_collect_int fossil_collect_event rollback in_the_past insert_at find_index extract front
    rest keep last? insert_sorted insert_all hint_position lower_bound upper_bound receive_less
    event_eq wrap32 ofc_purge
program = tt

abbrev event : ℕ → ℕ → ℕ → Event
event object time id = record {
  sender = record { object = 9; manager = 0 };
  receiver = record { object = object; manager = 0 };
  send_time = 0;
  receive_time = time;
  event_id = id;
}

-- Object 0 has events at 5 and 8, object 1 one at 3.
abbrev three : TimeWarpMultiSet
three = insert (insert (insert init (event 0 8 1)) (event 0 5 2)) (event 1 3 3)

lowest_of_all : peek_lowest three ≡ some (event 1 3 3)
unfolding program
lowest_of_all = refl

lowest_of_one : peek_event three 0 ≡ some (event 0 5 2)
unfolding program
lowest_of_one = refl

after_cancel : peek_lowest (handle_anti_message three 1 (event 1 0 3)).0 ≡ some (event 0 5 2)
unfolding program
after_cancel = refl

late : Event → Option (TimeWarpMultiSet × Option Event) → Bool
late e none = false
late e (some (m, o)) = in_the_past m e

straggler_seen : late (event 0 4 7) (get_event three 0) ≡ true
unfolding program late
straggler_seen = refl

purged : peek_lowest (ofc_purge three 2) ≡ none
unfolding program
purged = refl

one : TimeWarpMultiSet
one = insert init (event 0 8 1)

one-IsValid : IsValid one
unfolding one
one-IsValid = insert-IsValid init (event 0 8 1) tt init-IsValid

insert-IsValid_example : IsValid (insert init (event 0 8 1))
insert-IsValid_example = insert-IsValid init (event 0 8 1) tt init-IsValid

handle_anti_message_lem_example :
    IsValid (handle_anti_message one 0 (event 0 0 1)).0
    × (((e : Event) × (is_negative_of (event 0 0 1) e ≡ true)
          × IsRemoval (one.queues 0) ((handle_anti_message one 0 (event 0 0 1)).0.queues 0) e
          × ((handle_anti_message one 0 (event 0 0 1)).1 ≡ true))
        ⊎ (All (λ x. is_negative_of (event 0 0 1) x ≡ false) (one.queues 0).unprocessed
            × (handle_anti_message one 0 (event 0 0 1) ≡ (one, false))))
handle_anti_message_lem_example = handle_anti_message_lem one 0 (event 0 0 1) one-IsValid

get_event_lem_example :
    (n : TimeWarpMultiSet) × (o : Option Event) × (get_event one 0 ≡ some (n, o))
    × IsValid n
    × (o ≡ peek_event one 0)
    × (((o ≡ none) × ((one.queues 0).unprocessed ≡ []) × ((n.queues 0).unprocessed ≡ []))
        ⊎ ((e : Event) × (o ≡ some e) × Takes one n 0 e))
get_event_lem_example = get_event_lem one 0 one-IsValid

peek_lowest_lem_example :
    ((peek_lowest one ≡ none) × ((j : ℕ) → (one.queues j).unprocessed ≡ []))
    ⊎ ((e : Event) × (i : ℕ) × (peek_lowest one ≡ some e)
        × (peek_event one i ≡ some e)
        × ((j : ℕ) → All (Le receive_order e) (one.queues j).unprocessed))
peek_lowest_lem_example = peek_lowest_lem one one-IsValid

get_event_before_lem_example :
    (n : TimeWarpMultiSet) × (o : Option Event) × (get_event_before one 0 9 ≡ some (n, o))
    × IsValid n
    × (o ≡ peek_event_before one 0 9)
    × ((o ≡ none) ⊎ ((e : Event) × (o ≡ some e) × (e.receive_time < 9)))
get_event_before_lem_example = get_event_before_lem one 0 9 one-IsValid

-- Object 0 has processed events at 2 and 5, and one at 8 waits.
abbrev entry : ObjectQueue
entry = record empty_queue {
  unprocessed = event 0 8 1 ∷ [];
  processed = event 0 2 4 ∷ event 0 5 2 ∷ [];
}

worked : TimeWarpMultiSet
worked = set_low init 0 entry (some (event 0 8 1))

worked-IsValid : IsValid worked
unfolding worked
worked-IsValid =
    set_low-IsValid init-IsValid 0 entry (record { in_order = (tt, tt); cursor = omega arith })
      (some (event 0 8 1)) refl refl

worked-IsUnique : IsUnique (worked.queues 0)
unfolding worked set_low event_eq
worked-IsUnique l es h =
    let same : (event 0 8 1 ≡ l) × ([] ≡ es) = (ground arith, ground arith) in
    subst (λ x. IsFresh x (es ++ entry.processed)) same.0
      (subst (λ xs. IsFresh (event 0 8 1) (xs ++ entry.processed)) same.1 (refl, (refl, tt)))

worked-Sorted : Sorted receive_order (worked.queues 0).processed
unfolding worked set_low receive_less
worked-Sorted = ((refl, tt), (tt, tt))

rollback-RollsBack_example :
    (n : TimeWarpMultiSet) × (late : List Event) × (rollback worked 0 4 ≡ some n)
    × IsValid n
    × RollsBack worked n 0 4 late
rollback-RollsBack_example =
    rollback-RollsBack worked 0 4 worked-IsValid worked-IsUnique worked-Sorted
