-- ===== src/Object/Rollback.antt =====
-- A rollback with its coasting forward brings an object back to the state before the rollback's time.
use pdes.Base.Sorting.{Sorted}
use pdes.Base.{
  ℕ, suc, ◌≤◌, ◌≡◌, refl, ap, subst, ◌∙◌, inl, inr, Bool-cases, leb, ltb, true, false, List, some,
  arith,
}
use pdes.Event.{Event, ObjectId}
use pdes.Object.Back.{gone_back}
use pdes.Object.Coasted.{IsRolledBack, coasted-IsRolledBack, ready}
use pdes.Object.Faithful.{IsFaithful}
use pdes.Object.Forward.{coast_forward-HasCoasted}
use pdes.Object.{SimulationObject, rollback, go_back, coast_forward}
use pdes.Output as Output
use pdes.Output.{Kernel}
use pdes.State.Restore.{restore_state-IsRestored}
use pdes.State.{StateManager, Entry, time_order, restore_state, restored}

module _ {S : Type 0} (handle : S → Event → S × List Event) (k : Kernel) (id : ObjectId)
    (s0 : S) where
  rollback_go :
      (gvt : ℕ) (o : SimulationObject S) (time : ℕ)
      → gvt ≤ time
      → rollback handle k id gvt o time
        ≡ go_back handle k id o time (restore_state false false 0 o.states time id.object)
  unfolding rollback
  rollback_go gvt o time h = let no : ltb time gvt ≡ false = ground (arith, h) in rw no refl

  go_back_restored :
      (o : SimulationObject S) (time : ℕ) (n : StateManager S) (e : Entry S)
      → e.main_time ≤ time
      → go_back handle k id o time (some (restored n e.element e.main_time))
        ≡ some (
          coast_forward handle k id time (gone_back handle k id s0 o time n e),
          (Output.rollback k o.output time).1,
        )
  go_back_restored o time n e h =
      let yes : leb e.main_time time ≡ true = ground (arith, h) in rw yes refl

  -- A rollback to a time that is not before the global virtual time never aborts, for an object that has
  -- all its saved states. Its object is in the state that its first state becomes by the events that still
  -- count as processed, all of them before the time. All other events are to be processed again; none is
  -- lost. The output is what the output's own rollback leaves, and nothing is handed out for delivery
  -- again.
  pub rollback-IsRolledBack :
      (gvt : ℕ) (o : SimulationObject S) (time : ℕ)
      → gvt ≤ time
      → IsFaithful handle id s0 o
      → (p : SimulationObject S) × (rollback handle k id gvt o time
          ≡ some (p, (Output.rollback k o.output time).1))
        × IsRolledBack handle k id s0 o p time
  rollback-IsRolledBack gvt o time h f =
      let starts : f.states.first.main_time ≤ time =
        (let z = f.states.from_zero in omega (arith, z)) in
      let (n, e, found, r) =
        restore_state-IsRestored false false 0 o.states id.object time f.states.first
          f.states.others f.states.whole
          (subst (Sorted (time_order S)) f.states.whole f.states.in_order) starts in
      let start = gone_back handle k id s0 o time n e in
      let (us, g) =
        coast_forward-HasCoasted handle k id start time (ready handle k id s0 o time n e f r) in
      let p = coast_forward handle k id time start in
      let done =
        rollback_go gvt o time h
        ∙ ap (go_back handle k id o time) found
        ∙ go_back_restored o time n e r.in_time in
      let reach = g.later in
      let short = g.in_time in
      elim (Bool-cases (ltb p.simulation_time time)) [
        | inl t ↦ (
          p,
          done,
          coasted-IsRolledBack handle k id s0 o time n e f r us p g (suc p.simulation_time)
              (omega (arith, reach)) (ground (arith, t)) (λ x a b. (omega (arith, a)))
              (omega arith),
        )
        | inr t ↦ (
          p,
          done,
          coasted-IsRolledBack handle k id s0 o time n e f r us p g time
              (omega (arith, reach, short)) (omega arith) (λ x a b. b) (ground (arith, t)),
        )
      ]
