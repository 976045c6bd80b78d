-- ===== src/Object/History.antt =====
-- Histories of an object: it executes its events, and events and negative events arrive in any order.
use pdes.Base.{
  ℕ, ◌≤◌, ◌≡◌, refl, List, [], ◌∷◌, Option, some, none, true, All, ap, ◌∙◌, subst, sym, arith,
  front,
}
use pdes.Base.Sorting.{insert}
use pdes.Base.Maps.{update_self}
use pdes.Event.{Event, ObjectId, object_eq}
use pdes.Object.Delivery.{handle_local_event-IsFaithful, cancel_local_events-IsFaithful}
use pdes.Object.Execute.{execute_object-IsFaithful}
use pdes.Object.Faithful.{IsFaithful, IsSaved}
use pdes.Object.Replay.{replay}
use pdes.Object.{SimulationObject, initial, execute_object, handle_local_event, cancel_local_events}
use pdes.Output.{Kernel}
use pdes.State as State
use pdes.State.{save_state}

pub data Action : Type 0 where
  executes : Action
  arrives : Event → Action
  cancels : Event → List Event → Action

-- What comes is for the object, and not before the global virtual time.
abbrev pub IsDue : ℕ → ObjectId → Action → Type 0
IsDue gvt id executes = Unit
IsDue gvt id (arrives e) = (gvt ≤ e.receive_time) × (object_eq e.receiver id ≡ true)
IsDue gvt id (cancels n ns) = All (λ m. gvt ≤ m.receive_time) (n ∷ ns)

module _ {S : Type 0} (handle : S → Event → S × List Event) (k : Kernel) (id : ObjectId) where
  abbrev object_of : Option (SimulationObject S × Option (List Event)) → Option (SimulationObject S)
  object_of none = none
  object_of (some (o, cancelled)) = some o

  unfoldable pub step : ℕ → SimulationObject S → Action → Option (SimulationObject S)
  step gvt o executes = some (execute_object handle k id o).0
  step gvt o (arrives e) = object_of (handle_local_event handle k id gvt o e)
  step gvt o (cancels n ns) = object_of (cancel_local_events handle k id gvt o (n ∷ ns))

  abbrev continue :
      (SimulationObject S → Option (SimulationObject S))
      → Option (SimulationObject S)
      → Option (SimulationObject S)
  continue next none = none
  continue next (some o) = next o

  unfoldable pub run : ℕ → SimulationObject S → List Action → Option (SimulationObject S)
  run gvt o [] = some o
  run gvt o (a ∷ actions) = continue (λ p. run gvt p actions) (step gvt o a)

  module _ (s0 : S) where
    step-IsFaithful :
        (gvt : ℕ) (o : SimulationObject S) (a : Action)
        → IsDue gvt id a
        → IsFaithful handle id s0 o
        → (p : SimulationObject S) × (step gvt o a ≡ some p) × IsFaithful handle id s0 p
    unfolding step
    step-IsFaithful gvt o executes h f =
        ((execute_object handle k id o).0, refl, execute_object-IsFaithful handle k id s0 o f)
    step-IsFaithful gvt o (arrives e) h f =
        let (p, cancelled, done, g) =
          handle_local_event-IsFaithful handle k id s0 gvt o e h.0 h.1 f in
        (p, ap object_of done, g)
    step-IsFaithful gvt o (cancels n ns) h f =
        let (p, cancelled, done, g) =
          cancel_local_events-IsFaithful handle k id s0 gvt o n ns h f in
        (p, ap object_of done, g)

    -- No history of events and negative events for the object that are not before the global virtual time
    -- aborts or fails an assertion, from an object whose state and saved states are faithful. After it the
    -- object is in the state that its first state becomes by its processed events in their order, and so is
    -- each saved state by those before its time. No saved state is collected meanwhile.
    pub run-IsFaithful :
        (gvt : ℕ) (o : SimulationObject S) (actions : List Action)
        → All (IsDue gvt id) actions
        → IsFaithful handle id s0 o
        → (p : SimulationObject S) × (run gvt o actions ≡ some p) × IsFaithful handle id s0 p
    unfolding run
    run-IsFaithful gvt o [] h f = (o, refl, f)
    run-IsFaithful gvt o (a ∷ actions) h f =
        let (q, done, g) = step-IsFaithful gvt o a h.0 f in
        let (p, ends, t) = run-IsFaithful gvt q actions h.1 g in
        (p, ap (continue (λ r. run gvt r actions)) done ∙ ends, t)

  -- An object is faithful when it has been initialized.
  pub initial-IsFaithful : (period : ℕ) (s0 : S) → IsFaithful handle id s0 (initial period id s0)
  unfolding save_state replay insert front
  initial-IsFaithful period s0 = record {
    bound = 0;
    split = record {
      flag = λ _. tt;
      done = tt;
      early = tt;
      late = tt;
      addressed = tt;
      addressed_done = tt;
    };
    near = omega arith;
    replayed = refl;
    states =
        subst (λ q. IsSaved handle id s0 q [] 0)
          (sym (update_self (State.init S period).state_queue id.object _))
          (record {
            first = record { main_time = 0; element = s0 };
            others = [];
            whole = refl;
            from_zero = refl;
            in_order = (tt, tt);
            saved = (refl, tt);
            saved_early = (omega arith, tt);
          });
    not_coasting = refl;
  }
