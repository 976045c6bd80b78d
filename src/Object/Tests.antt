-- ===== src/Object/Tests.antt =====
-- Tests of one object that executes, is rolled back and coasts forward, and the theorems at it.
use pdes.Base.{
  ℕ, ◌+◌, ◌*◌, ◌≡◌, refl, List, [], ◌∷◌, Option, some, none, arith, false, rest, front, extract,
  last?,
}
use pdes.Base.Sorting.{insert, sort}
use pdes.Base.Int.{◌+ℤ◌}
use pdes.State.{restore_state, unwind, drop_back, save_state, earlier}
use pdes.Container.{next_event, get_next_event, ensure_sorted, sort_by_receive_times}
use pdes.Container as Container
use pdes.Event.{Event, ObjectId, object_eq, receive_less, object_less}
use pdes.Object.Coasted.{IsRolledBack}
use pdes.Object.Delivery.{insert_event-IsFaithful, cancel_local_events-IsFaithful}
use pdes.Object.Execute.{execute_object-IsFaithful}
use pdes.Object.Faithful.{IsFaithful}
use pdes.Object.Forward.{HasCoasted, coast_forward-HasCoasted}
use pdes.Object.History.{Action, step, executes, arrives, run, run-IsFaithful, initial-IsFaithful}
use pdes.Object.Rollback.{rollback-IsRolledBack}
use pdes.Object.Sorted.{get_event-peek_event}
use pdes.Object.{
  SimulationObject, initial, execute_process, process_loop, peek_event, get_event,
  handle_local_event, coast_loop, within, is_current, handle_events, insert_event, execute_object,
  coast_forward, rollback, cancel_local_events,
}
use pdes.Output as Output
use pdes.Output.{Kernel}

abbrev kernel : Kernel
kernel = record { id = 0; opt_fossil = false; last_collect = λ i. 0; approximate = λ t. t }

abbrev our_id : ObjectId
our_id = record { object = 2; manager = 0 }

abbrev event : ℕ → ℕ → Event
event id time = record {
  sender = record { object = 1; manager = 0 };
  receiver = our_id;
  send_time = 0;
  receive_time = time;
  event_id = id;
}

-- The state lists the numbers of the events, as digits; nothing is sent.
abbrev digits : ℕ → Event → ℕ × List Event
digits s e = (10 * s + e.event_id, [])

abbrev fresh : SimulationObject ℕ
fresh = initial 1 our_id 0

-- The object has an event of time 1 and one of time 3, and has executed the first.
abbrev waiting : SimulationObject ℕ
waiting =
    insert_event digits kernel our_id (insert_event digits kernel our_id fresh (event 1 1))
      (event 3 3)

abbrev busy : SimulationObject ℕ
busy = (execute_object digits kernel our_id waiting).0

waiting-IsFaithful : IsFaithful digits our_id 0 waiting
unfolding object_eq
waiting-IsFaithful =
    let f = initial-IsFaithful digits kernel our_id 1 0 in
    let near = f.near in
    let g =
      insert_event-IsFaithful digits kernel our_id 0 fresh (event 1 1) f (omega (arith, near))
        refl in
    let nearer = g.near in
    insert_event-IsFaithful digits kernel our_id 0
      (insert_event digits kernel our_id fresh (event 1 1)) (event 3 3) g (omega (arith, nearer))
      refl

busy-IsFaithful : IsFaithful digits our_id 0 busy
busy-IsFaithful = execute_object-IsFaithful digits kernel our_id 0 waiting waiting-IsFaithful

-- Both events are executed, an event of time 2 arrives late, and all three count in the order of time.
abbrev history : List Action
history = executes ∷ executes ∷ arrives (event 2 2) ∷ executes ∷ executes ∷ []

abbrev state_of : Option (SimulationObject ℕ) → Option ℕ
state_of none = none
state_of (some o) = some o.state

straggler_in_order : state_of (run digits kernel our_id 0 waiting history) ≡ some 123
unfolding run step execute_object execute_process process_loop peek_event next_event ensure_sorted
    sort_by_receive_times sort insert get_event get_next_event handle_local_event rollback
    restore_state unwind drop_back last? save_state coast_forward coast_loop within is_current
    object_eq receive_less object_less Container.insert Container.rollback extract front rest
    Output.rollback handle_events ◌+ℤ◌ earlier
straggler_in_order = refl

rollback-IsRolledBack_example :
    (p : SimulationObject ℕ) × (rollback digits kernel our_id 0 busy 1
      ≡ some (p, (Output.rollback kernel busy.output 1).1))
    × IsRolledBack digits kernel our_id 0 busy p 1
rollback-IsRolledBack_example =
    rollback-IsRolledBack digits kernel our_id 0 0 busy 1 (omega arith) busy-IsFaithful

run-IsFaithful_example :
    (p : SimulationObject ℕ) × (run digits kernel our_id 0 waiting history ≡ some p)
    × IsFaithful digits our_id 0 p
unfolding object_eq
run-IsFaithful_example =
    run-IsFaithful digits kernel our_id 0 0 waiting history
      (tt, (tt, ((omega arith, refl), (tt, (tt, tt))))) waiting-IsFaithful

cancel_local_events-IsFaithful_example :
    (p : SimulationObject ℕ) × (cancelled : Option (List Event)) × (cancel_local_events digits
        kernel our_id 0 busy
        (event 1 1 ∷ event 3 3 ∷ [])
      ≡ some (p, cancelled))
    × IsFaithful digits our_id 0 p
cancel_local_events-IsFaithful_example =
    cancel_local_events-IsFaithful digits kernel our_id 0 0 busy (event 1 1) (event 3 3 ∷ [])
      (omega arith, (omega arith, tt)) busy-IsFaithful

coast_forward-HasCoasted_example :
    (us : List Event) × HasCoasted digits kernel our_id waiting
      (coast_forward digits kernel our_id 2 waiting)
      2
      us
unfolding Container.insert extract object_eq
coast_forward-HasCoasted_example = coast_forward-HasCoasted digits kernel our_id waiting 2 (record {
  flag = λ h. cc;
  addressed = (refl, (refl, tt));
  ahead = (omega arith, (omega arith, tt));
  not_after = omega arith;
})

get_event-peek_event_example :
    (get_event (some 2) waiting.container).1 ≡ (peek_event (some 2) waiting.container).1
unfolding Container.insert extract object_eq
get_event-peek_event_example = get_event-peek_event (some 2) waiting.container (λ h. cc)
