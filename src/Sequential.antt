-- ===== src/Sequential.antt =====
-- SequentialSimulationManager.cpp, with what SimulationObject.cpp does for an object: the loop of
-- the sequential simulation over an event set. An object's `executeProcess` is the loop that
-- SimulationObject.h documents; what it does with an event is the application's, a parameter: the new
-- state of the application and the events that the object sends, each with the number of the object
-- whose `receiveEvent` is called. `none` and `fault` stand for a failed assertion and for a pointer
-- that leads to nothing.
pub mod Calls
pub mod Process
pub mod Execute
pub mod Loop
pub mod Returns
mod Tests
use pdes.Base.{
  ℕ, zero, suc, ◌+◌, Bool, true, false, not, ◌&&◌, Option, none, some, List, [], ◌∷◌, ltb, ◌==◌,
  if◌then◌else◌, ◌>>=◌, update, wrap32,
}
use pdes.Event.{Event, ObjectId, object_eq}
use pdes.EventSet.{EventSet}

-- `object_times` are the times of the objects by their number, which their ids have too.
pub record Manager (set : EventSet) : Type 0 where
  pub simulation_time : ℕ
  pub event_set : set.Store
  pub number_of_processed_events : ℕ
  pub number_of_objects : ℕ
  pub object_times : ℕ → ℕ

-- The id that `registerSimulationObjects` gives to an object.
abbrev pub object_id : ℕ → ObjectId
object_id i = record { object = i; manager = 0 }

-- How a loop ends.
pub data Outcome {ℓ} (set : EventSet) (A : Type ℓ) : Type ℓ where
  returned : Manager set → A → Outcome set A
  fault : Outcome set A
  out_of_fuel : Outcome set A

module _ (set : EventSet) where
  abbrev pub counted : Manager set → set.Store → Option Event → Manager set
  counted m s none = record m { event_set = s }
  counted m s (some e) = record m {
    event_set = s;
    number_of_processed_events = wrap32 (m.number_of_processed_events + 1);
  }

  -- `getEvent` and `handleEvent` of the manager.
  unfoldable pub manager_get_event : Manager set → Option (Manager set × Option Event)
  manager_get_event m = do (s, a) ← set.get_event m.event_set; some (counted m s a, a)

  unfoldable pub handle_event : Manager set → Event → Option (Manager set)
  handle_event m e = do s ← set.insert m.event_set e; some (record m { event_set = s })

  -- `receiveEvent` of an object.
  unfoldable pub receive_event : Manager set → ℕ → Event → Option (Manager set)
  unfolding object_eq
  receive_event m target e =
      if object_eq e.receiver (object_id target) then handle_event m e else none

  unfoldable pub send_all : Manager set → List (ℕ × Event) → Option (Manager set)
  send_all m [] = some m
  send_all m ((target, e) ∷ sent) = do n ← receive_event m target e; send_all n sent

  -- `haveMoreEvents` of an object at its time.
  abbrev pub is_more : ObjectId → ℕ → Option Event → Bool
  is_more object time none = false
  is_more object time (some e) = e.receive_time == time && object_eq e.receiver object

  unfoldable pub more_events : ℕ → Manager set → Option (Manager set × Bool)
  more_events object m = do
    (s, a) ← set.peek_event m.event_set
    some (record m { event_set = s }, is_more (object_id object) (m.object_times object) a)

  -- The times of the manager and of the receiver, before the receiver's process runs.
  abbrev pub advance : Manager set → Event → Manager set
  advance m e = record m {
    simulation_time = e.receive_time;
    object_times = update m.object_times e.receiver.object e.receive_time;
  }

  unfoldable pub peek_next : Manager set → Option (Manager set × Option Event)
  peek_next m = do (s, a) ← set.peek_event m.event_set; some (record m { event_set = s }, a)

  abbrev pub time_of : ℕ → Option Event → ℕ
  time_of infinity none = infinity
  time_of infinity (some e) = e.receive_time

  -- `getNextEventTime`, with the application's positive infinity.
  unfoldable pub get_next_event_time : ℕ → Manager set → Option (Manager set × ℕ)
  get_next_event_time infinity m = do (n, a) ← peek_next m; some (n, time_of infinity a)

  abbrev pub is_none : Option Event → Bool
  is_none none = true
  is_none (some e) = false

  unfoldable pub simulation_complete : Manager set → Option (Manager set × Bool)
  simulation_complete m = do (n, a) ← peek_next m; some (n, is_none a)

  -- The condition of the loop and the test that leaves it.
  abbrev pub goes_on : ℕ → Manager set → Event → Bool
  goes_on until m e = ltb m.simulation_time until && not (ltb until e.receive_time)

  unfoldable pub clean_up : Manager set → Option (Manager set)
  clean_up m = do s ← set.clean_up m.event_set; some (record m { event_set = s })

  -- After the process, with the next event at its end.
  abbrev pub turn_end {ℓ} : {A : Type ℓ} → Manager set → A → Option (Manager set × Option Event × A)
  turn_end n b = do k ← clean_up n; (next, event) ← peek_next k; some (next, event, b)

  abbrev pub turn_after {ℓ} : {A : Type ℓ} → Outcome set A → Option (Manager set × Option Event × A)
  turn_after (returned n b) = turn_end n b
  turn_after fault = none
  turn_after out_of_fuel = none

  module _ {ℓ} {A : Type ℓ} (handle : A → ℕ → ℕ → Event → A × List (ℕ × Event)) where
    -- What the application does with what `getEvent` has returned, which it reads.
    unfoldable pub handled : ℕ → Manager set → A → Option Event → Option (Manager set × A)
    handled object m a none = none
    handled object m a (some e) =
        let (b, sent) = handle a object (m.object_times object) e in
        do n ← send_all m sent; some (n, b)

    -- The body of the documented loop.
    unfoldable pub process_event : ℕ → Manager set → A → Option (Manager set × A)
    process_event object m a = do (n, e) ← manager_get_event m; handled object n a e

    -- `while (haveMoreEvents()) { doIt(getEvent()) }`, with at most as many turns as there is fuel.
    unfoldable pub execute_process : ℕ → ℕ → Manager set → A → Outcome set A
    execute_process zero object m a = out_of_fuel
    execute_process (suc fuel) object m a = elim (more_events object m) [
      | none ↦ fault
      | some (k, more) ↦ elim more [
        | false ↦ returned k a
        | true ↦ elim (process_event object k a) [
          | none ↦ fault
          | some (n, b) ↦ execute_process fuel object n b
        ]
      ]
    ]

    -- The body of the loop. `getObjectHandle` reads the object at its number without a test.
    unfoldable pub turn : ℕ → Manager set → A → Event → Option (Manager set × Option Event × A)
    turn most m a e =
        if ltb e.receiver.object m.number_of_objects
        then turn_after (execute_process most e.receiver.object (advance m e) a)
        else none

    -- With the next event, and at most as many turns as there is fuel; `most` is the fuel of each
    -- process, without which the turn counts as a fault.
    unfoldable pub simulate_loop : ℕ → ℕ → ℕ → Manager set → A → Option Event → Outcome set A
    simulate_loop most fuel until m a none = returned m a
    simulate_loop most zero until m a (some e) =
        if goes_on until m e then out_of_fuel else returned m a
    simulate_loop most (suc fuel) until m a (some e) = elim (goes_on until m e) [
      | false ↦ returned m a
      | true ↦ elim (turn most m a e) [
        | none ↦ fault
        | some (n, event, b) ↦ simulate_loop most fuel until n b event
      ]
    ]

    abbrev pub simulate_from : ℕ → ℕ → ℕ → A → Option (Manager set × Option Event) → Outcome set A
    simulate_from most fuel until a none = fault
    simulate_from most fuel until a (some (m, event)) = simulate_loop most fuel until m a event

    unfoldable pub simulate : ℕ → ℕ → ℕ → Manager set → A → Outcome set A
    simulate most fuel until m a = simulate_from most fuel until a (peek_next m)
