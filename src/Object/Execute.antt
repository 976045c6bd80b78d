-- ===== src/Object/Execute.antt =====
-- The execution of an object's events at a time keeps the invariant.
use pdes.Base.Sorting.{Sorted}
use pdes.Base.{
  ℕ, suc, ◌≤◌, ◌<◌, ◌≡◌, refl, ap, sym, subst, ◌∙◌, inl, inr, Bool-cases, true, List, [], ◌∷◌, ◌++◌,
  none, arith, All, All-map, All-append, All-perm, front, rest, front-All,
}
use mathlib.Core.Bool.{Bool-set}
use mathlib.Core.List.Perm
use mathlib.Core.Path.{subst₂}
use native.Mathlib.Bridge.{le_prop}
use pdes.Container.{Container}
use pdes.Event.Order.{receive_order}
use pdes.Event.{Event, ObjectId, object_eq}
use pdes.Object.Coast.{execute_process-IsAfter}
use pdes.Object.Faithful.{IsFaithful, IsSplit, IsSaved, replayed-append}
use pdes.Object.Loops.{holding, taken, IsAfter}
use pdes.Object.Replay.{
  replay, first-lowest, All-rest, All-front, Sorted-rest, Sorted-front, Sorted-join,
}
use pdes.Object.Saving.{save_state-IsSaved, IsSaved-append}
use pdes.Object.Sorted.{first_look, IsSeen}
use pdes.Object.{SimulationObject, within, is_current, execute_at, execute_object}
use pdes.Output.{Kernel}
use pdes.State.{save_state}

-- After the events at the first time, what is left is later.
rest_later :
    (id : ObjectId) (time : ℕ) (us : List Event)
    → Sorted receive_order us
    → All (λ e. time ≤ e.receive_time) us
    → All (λ e. object_eq e.receiver id ≡ true) us
    → All (λ e. suc time ≤ e.receive_time) (rest (taken id none time) us)
unfolding rest within is_current
rest_later id time [] s h a = tt
rest_later id time (x ∷ us) s h a = elim (Bool-cases (taken id none time x)) [
  | inl t ↦ rw t (rest_later id time us s.1 h.1 a.1)
  | inr t ↦
      let first : suc time ≤ x.receive_time =
        (let here = h.0 in let ours = a.0 in ground (arith, here, ours, t)) in
      rw t (
        All-map (λ e. x.receive_time ≤ e.receive_time) (λ e. suc time ≤ e.receive_time)
          (λ e (l : x.receive_time ≤ e.receive_time). (omega (arith, first, l))) (x ∷ us)
          (first-lowest x us s))
]

taken-now :
    (id : ObjectId) (time : ℕ) (e : Event) → taken id none time e ≡ true → e.receive_time ≡ time
unfolding is_current within
taken-now id time e h = ground (arith, h)

module _ {S : Type 0} (handle : S → Event → S × List Event) (k : Kernel) (id : ObjectId)
    (s0 : S) where
  -- The object as it starts with the events at the time of the first, `y`.
  abbrev starting : SimulationObject S → Event → List Event → SimulationObject S
  starting o y ys = record o {
    container = holding o.container (y ∷ ys) o.container.processed;
    simulation_time = y.receive_time;
    states = save_state o.states y.receive_time id.object o.state;
  }

  executed-IsFaithful :
      (o p : SimulationObject S) (y : Event) (ys : List Event)
      → (f : IsFaithful handle id s0 o) → IsSeen o.container y ys
      → IsAfter handle k id (starting o y ys) p (front (taken id none y.receive_time) (y ∷ ys)) (
          holding o.container
            (rest (taken id none y.receive_time) (y ∷ ys))
            (o.container.processed ++ front (taken id none y.receive_time) (y ∷ ys)))
      → IsFaithful handle id s0 p
  executed-IsFaithful o p y ys f seen a =
      let us = y ∷ ys in
      let now = y.receive_time in
      let tk = taken id none now in
      let ps = o.container.processed in
      let back = Perm.symm seen.same_events in
      let late = All-perm (λ e. f.bound ≤ e.receive_time) (λ e. le_prop) back f.split.late in
      let ours =
        All-perm (λ e. object_eq e.receiver id ≡ true) (λ e. Bool-set _ _) back f.split.addressed in
      let reach : f.bound ≤ now = late.0 in
      let at_now : All (λ e. e.receive_time ≡ now) (front tk us) =
        All-map _ _ (λ e t. taken-now id now e t) (front tk us) (front-All tk us) in
      let from_now : All (λ e. now ≤ e.receive_time) (front tk us) =
        All-map _ _ (λ e (t : e.receive_time ≡ now). (omega (arith, t))) (front tk us) at_now in
      let before_now : All (λ e. e.receive_time < now) ps =
        All-map _ _ (λ e (t : e.receive_time < f.bound). (omega (arith, t, reach))) ps
          f.split.early in
      record {
        bound = suc now;
        split =
            subst (λ c. IsSplit handle id s0 c (suc now)) (sym a.container_after)
              (record {
                flag = λ _. Sorted-rest tk us seen.in_order;
                done =
                    Sorted-join now ps (front tk us) f.split.done (Sorted-front tk us seen.in_order)
                      before_now from_now;
                early =
                    All-append (λ e. e.receive_time < suc now) ps (front tk us)
                      (All-map _ _ (λ e (t : e.receive_time < now). (omega (arith, t))) ps
                        before_now)
                      (All-map _ _ (λ e (t : e.receive_time ≡ now). (omega (arith, t)))
                        (front tk us) at_now);
                late = rest_later id now us seen.in_order (first-lowest y ys seen.in_order) ours;
                addressed = All-rest _ tk us ours;
                addressed_done =
                    All-append _ ps (front tk us) f.split.addressed_done (All-front _ tk us ours);
              });
        near = (let t = a.same_time in omega (arith, t));
        replayed =
            a.state_after
            ∙ replayed-append handle id s0 o.state ps (front tk us) f.replayed
            ∙ ap (λ c. replay handle s0 c.processed) (sym a.container_after);
        states =
            subst₂ (λ m c. IsSaved handle id s0 (m.state_queue id.object) c.processed (suc now))
              (sym a.same_states) (sym a.container_after)
              (IsSaved-append handle id s0 _ ps (front tk us) now (suc now)
                (save_state-IsSaved handle id s0 o.states ps f.bound now o.state f.states reach
                  f.split.early f.replayed)
                from_now (omega arith));
        not_coasting = a.same_coast ∙ f.not_coasting;
      }

  limit_none :
      (o p : SimulationObject S) (y : Event) (us : List Event) (c : Container) (ps : List Event)
      → o.coast_forward_time ≡ none
      → IsAfter handle k id o p (front (taken id o.coast_forward_time y.receive_time) us) (
          holding c
            (rest (taken id o.coast_forward_time y.receive_time) us)
            (ps ++ front (taken id o.coast_forward_time y.receive_time) us))
      → IsAfter handle k id o p (front (taken id none y.receive_time) us) (
          holding c
            (rest (taken id none y.receive_time) us)
            (ps ++ front (taken id none y.receive_time) us))
  limit_none o p y us c ps h a =
      subst
        (λ limit. IsAfter handle k id o p (front (taken id limit y.receive_time) us) (
          holding c (rest (taken id limit y.receive_time) us)
            (ps ++ front (taken id limit y.receive_time) us)))
        h a

  -- An object that executes all its events at a time is in the state that they make, and has saved the one
  -- before them if a saving was due.
  pub execute_object-IsFaithful :
      (o : SimulationObject S)
      → IsFaithful handle id s0 o
      → IsFaithful handle id s0 (execute_object handle k id o).0
  unfolding execute_object within
  execute_object-IsFaithful o f = elim (first_look o.container f.split.flag) [
    | inl (e, peeked) ↦
        subst (λ r. IsFaithful handle id s0 (execute_at handle k id o r.0 r.1).0)
          (sym (peeked none)) f
    | inr (y, ys, seen) ↦
        subst (λ r. IsFaithful handle id s0 (execute_at handle k id o r.0 r.1).0)
          (sym (seen.peeked none))
          (executed-IsFaithful o _ y ys f seen (
            limit_none (starting o y ys) _ y (y ∷ ys) o.container o.container.processed
              f.not_coasting
              (execute_process-IsAfter handle k id (starting o y ys) o.container (y ∷ ys)
                o.container.processed refl)))
  ]
