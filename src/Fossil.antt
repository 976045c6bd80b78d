-- ===== src/Fossil.antt =====
-- `fossilCollect` of TimeWarpSimulationManager.cpp: the states of all objects, then their output and
-- their events before the lowest time of a state that is left. There is no optimistic fossil
-- collection, and the file streams are left out.
pub mod States
pub mod Safe
mod Tests
use pdes.Base.{ℕ, List, [], ◌∷◌, ◌++◌, ltb, if◌then◌else◌, update}
use pdes.Container as Container
use pdes.Container.{Container}
use pdes.Event.{Event}
use pdes.Output as Output
use pdes.Output.{OutputEvents}
use pdes.State as State
use pdes.State.{StateManager}

-- The managers and the event set, by the numbers of the objects.
pub record Kernel (S : Type 0) : Type 0 where
  pub states : StateManager S
  pub outputs : ℕ → OutputEvents
  pub containers : ℕ → Container

-- The loop over the states, with `minTimes`.
unfoldable pub collect_states :
    {S : Type 0} → ℕ → ℕ → List ℕ → StateManager S → StateManager S × List ℕ
collect_states infinity time [] m = (m, [])
collect_states infinity time (i ∷ is) m =
    let (n, t) = State.fossil_collect infinity m i time in
    let (l, ts) = collect_states infinity time is n in (l, t ∷ ts)

-- The loop for `min`, from the first of the times.
unfoldable pub least : ℕ → List ℕ → ℕ
least low [] = low
least low (t ∷ ts) = least (if ltb t low then t else low) ts

unfoldable pub collect_outputs : ℕ → List ℕ → (ℕ → OutputEvents) → ℕ → OutputEvents
collect_outputs time [] outputs = outputs
collect_outputs time (i ∷ is) outputs =
    collect_outputs time is (update outputs i (Output.fossil_collect (outputs i) time))

-- With the events that are reclaimed.
unfoldable pub collect_events : ℕ → List ℕ → (ℕ → Container) → (ℕ → Container) × List Event
collect_events time [] containers = (containers, [])
collect_events time (i ∷ is) containers =
    let (c, gone) = Container.fossil_collect (containers i) time in
    let (others, more) = collect_events time is (update containers i c) in (others, gone ++ more)

abbrev pub collect_before :
    {S : Type 0} → List ℕ → Kernel S → StateManager S × List ℕ → Kernel S × List Event
collect_before objects k (states, []) = (k, [])
collect_before objects k (states, t ∷ ts) =
    let min = least t ts in
    let (containers, gone) = collect_events min objects k.containers in
    (
      record {
        states = states;
        outputs = collect_outputs min objects k.outputs;
        containers = containers;
      },
      gone,
    )

unfoldable pub fossil_collect : {S : Type 0} → ℕ → List ℕ → Kernel S → ℕ → Kernel S × List Event
fossil_collect infinity objects k time =
    collect_before objects k (collect_states infinity time objects k.states)
