-- ===== src/Object.antt =====
-- TimeWarpSimulationManager.cpp, SimulationObject.cpp and DefaultTimeWarpEventSet.cpp: one object that
-- executes its events, is rolled back, and coasts forward from the state that is restored. `handle` is
-- what the application does with an event: the new state and the events that it sends. An object
-- processes its events by the loop that SimulationObject.h documents for `executeProcess`. The output
-- manager is the aggressive one, without optimistic fossil collection; `none` stands for `abort` or a
-- failed assertion. What an object sends or cancels is handed out, to be delivered
-- afterwards, where the source cancels before it coasts forward. The count of rollbacks and the file
-- streams are left out.
pub mod Replay
pub mod Loops
pub mod Sorted
pub mod Coast
pub mod Forward
pub mod Faithful
pub mod Back
pub mod Coasted
pub mod Rollback
pub mod Delivery
pub mod Saving
pub mod Execute
pub mod History
mod Tests
use pdes.Base.{
  ℕ, zero, suc, Bool, true, false, ◌&&◌, List, [], ◌∷◌, ◌++◌, Option, none, some, length, ltb, leb,
  ◌==◌, if◌then◌else◌, not,
}
use pdes.Event.{Event, ObjectId, object_eq}
use pdes.Container as Container
use pdes.Container.{Container, next_event, get_next_event, handle_anti_message}
use pdes.State as State
use pdes.State.{StateManager, Outcome, restored, recovers, save_state, restore_state}
use pdes.Output as Output
use pdes.Output.{OutputEvents, Kernel, no_output}

-- `delivered` has all that `handleEvent` has handed out for delivery so far.
pub record SimulationObject (S : Type 0) : Type 0 where
  pub simulation_time : ℕ
  pub state : S
  pub coast_forward_time : Option ℕ
  pub container : Container
  pub states : StateManager S
  pub output : OutputEvents
  pub delivered : List Event

unfoldable pub within : Option ℕ → Event → Bool
within none e = true
within (some time) e = ltb e.receive_time time

abbrev pub found : Option ℕ → Option Event → Option Event
found limit none = none
found limit (some e) = if within limit e then some e else none

-- `peekEvent` of the event set, with a minimum time or without.
unfoldable pub peek_event : Option ℕ → Container → Container × Option Event
peek_event limit c = let (d, e) = next_event c in (d, found limit e)

abbrev pub get_peeked : Container × Option Event → Container × Option Event
get_peeked (c, none) = (c, none)
get_peeked (c, some e) = get_next_event c

-- `getEvent` of the event set; that it returns the event that was peeked is not tested here.
unfoldable pub get_event : Option ℕ → Container → Container × Option Event
get_event none c = get_next_event c
get_event (some time) c = get_peeked (peek_event (some time) c)

-- The test of `haveMoreEvents` on the event that it peeks.
unfoldable pub is_current : ObjectId → ℕ → Event → Bool
unfolding object_eq
is_current id time e = e.receive_time == time && object_eq e.receiver id

abbrev pub has_current : ObjectId → ℕ → Option Event → Bool
has_current id time none = false
has_current id time (some e) = is_current id time e

-- `handleEvent`: what is sent while the object coasts forward is dropped.
abbrev pub handle_event : Kernel → Option ℕ → OutputEvents → Event → OutputEvents × List Event
handle_event k none output e = (Output.insert k output e, e ∷ [])
handle_event k (some time) output e = (output, [])

unfoldable pub handle_events :
    Kernel → Option ℕ → OutputEvents → List Event → OutputEvents × List Event
handle_events k coast output [] = (output, [])
handle_events k coast output (e ∷ es) =
    let (output', sent) = handle_event k coast output e in
    let (output'', more) = handle_events k coast output' es in (output'', sent ++ more)

-- The least receive time of some negative events, and a first one.
unfoldable pub low_time : ℕ → List Event → ℕ
low_time low [] = low
low_time low (n ∷ ns) = low_time (if ltb n.receive_time low then n.receive_time else low) ns

module _ {S : Type 0} (handle : S → Event → S × List Event) (k : Kernel) (id : ObjectId) where
  abbrev pub process :
      SimulationObject S → Container × Option Event → SimulationObject S × List Event
  process o (c, none) = (record o { container = c }, [])
  process o (c, some e) =
      let (output, sent) = handle_events k o.coast_forward_time o.output (handle o.state e).1 in
      (
        record o {
          container = c;
          state = (handle o.state e).0;
          output = output;
          delivered = o.delivered ++ sent;
        },
        sent,
      )

  -- An event is taken, and the loop goes on.
  abbrev pub then_loop :
      (SimulationObject S → SimulationObject S × List Event)
      → SimulationObject S × List Event
      → SimulationObject S × List Event
  then_loop loop (o, sent) = let (p, more) = loop o in (p, sent ++ more)

  abbrev pub turn :
      (SimulationObject S → SimulationObject S × List Event)
      → SimulationObject S
      → Container × Option Event
      → SimulationObject S × List Event
  turn loop o (c, e) =
      if has_current id o.simulation_time e
      then then_loop loop (process o (get_event o.coast_forward_time c))
      else (record o { container = c }, [])

  -- `while (haveMoreEvents()) { ... getEvent() ... }`.
  unfoldable pub process_loop : ℕ → SimulationObject S → SimulationObject S × List Event
  process_loop zero o = (o, [])
  process_loop (suc n) o = turn (process_loop n) o (peek_event o.coast_forward_time o.container)

  -- No more events are processed than there are.
  unfoldable pub execute_process : SimulationObject S → SimulationObject S × List Event
  execute_process o = process_loop (length o.container.unprocessed) o

  abbrev pub execute_at :
      SimulationObject S → Container → Option Event → SimulationObject S × List Event
  execute_at o c none = (record o { container = c }, [])
  execute_at o c (some e) = execute_process (record o {
    container = c;
    simulation_time = e.receive_time;
    states = save_state o.states e.receive_time id.object o.state;
  })

  -- The body of `executeObjects` for this object, if it has an event.
  unfoldable pub execute_object : SimulationObject S → SimulationObject S × List Event
  execute_object o = let (c, e) = peek_event none o.container in execute_at o c e

  -- What is handed out on the way, if anything is, is in `delivered`.
  abbrev pub coast_turn :
      (SimulationObject S → SimulationObject S)
      → SimulationObject S
      → Container × Option Event
      → SimulationObject S
  coast_turn loop o (c, none) = record o { container = c }
  coast_turn loop o (c, some e) =
      loop (execute_process (record o { container = c; simulation_time = e.receive_time })).0

  -- The loop of `coastForward`; `peekEvent` makes its test of the time.
  unfoldable pub coast_loop : ℕ → ℕ → SimulationObject S → SimulationObject S
  coast_loop zero time o = o
  coast_loop (suc n) time o = coast_turn (coast_loop n time) o (peek_event (some time) o.container)

  unfoldable pub coast_forward : ℕ → SimulationObject S → SimulationObject S
  coast_forward time o =
      record (coast_loop (length o.container.unprocessed) time
        (record o { coast_forward_time = some time })) { coast_forward_time = none }

  -- The object goes on from the restored state; the list has the events to be cancelled.
  abbrev pub go_back :
      SimulationObject S
      → ℕ
      → Option (Outcome S)
      → Option (SimulationObject S × Option (List Event))
  go_back o time none = none
  go_back o time (some (recovers starts zero_time)) = none
  go_back o time (some (restored states s restored_time)) =
      let (output, cancelled, _) = Output.rollback k o.output time in
      if leb restored_time time
      then some (
        coast_forward time (record o {
          simulation_time = restored_time;
          state = s;
          states = states;
          container = Container.rollback o.container restored_time;
          output = output;
        }),
        cancelled,
      )
      else none

  unfoldable pub rollback :
      ℕ → SimulationObject S → ℕ → Option (SimulationObject S × Option (List Event))
  rollback gvt o time =
      if ltb time gvt
      then none
      else go_back o time (restore_state false false 0 o.states time id.object)

  abbrev pub insert_event : SimulationObject S → Event → SimulationObject S
  insert_event o e = record o { container = Container.insert o.container e }

  abbrev pub insert_behind :
      Event
      → Option (SimulationObject S × Option (List Event))
      → Option (SimulationObject S × Option (List Event))
  insert_behind e none = none
  insert_behind e (some (o, cancelled)) = some (insert_event o e, cancelled)

  unfoldable pub handle_local_event :
      ℕ → SimulationObject S → Event → Option (SimulationObject S × Option (List Event))
  handle_local_event gvt o e =
      if ltb o.simulation_time e.receive_time
      then some (insert_event o e, none)
      else insert_behind e (rollback gvt o e.receive_time)

  -- Each negative event must be at the object's time or later.
  unfoldable pub cancel_all : SimulationObject S → List Event → Option (SimulationObject S)
  cancel_all o [] = some o
  cancel_all o (n ∷ ns) =
      if leb o.simulation_time n.receive_time
      then cancel_all (record o { container = (handle_anti_message o.container n).0 }) ns
      else none

  abbrev pub cancel_behind :
      List Event
      → Option (SimulationObject S × Option (List Event))
      → Option (SimulationObject S × Option (List Event))
  cancel_behind ns none = none
  cancel_behind ns (some (o, cancelled)) = elim (cancel_all o ns) [
    | none ↦ none
    | some p ↦ some (p, cancelled)
  ]

  unfoldable pub cancel_local_events :
      ℕ → SimulationObject S → List Event → Option (SimulationObject S × Option (List Event))
  cancel_local_events gvt o [] = none
  cancel_local_events gvt o (n ∷ ns) =
      let low = low_time n.receive_time (n ∷ ns) in
      cancel_behind (n ∷ ns)
        (if leb low o.simulation_time then rollback gvt o low else some (o, none))

-- `initialize` saves the first state; what an object sends then is handed out.
abbrev pub initial : {S : Type 0} → ℕ → ObjectId → S → SimulationObject S
initial period id s = record {
  simulation_time = 0;
  state = s;
  coast_forward_time = none;
  container = Container.empty;
  states = save_state (State.init _ period) 0 id.object s;
  output = no_output;
  delivered = [];
}
