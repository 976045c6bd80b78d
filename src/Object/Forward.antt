-- ===== src/Object/Forward.antt =====
-- `coastForward` from any container: it processes what is before its time, in order, and sends nothing.
use mathlib.Core.List.{append-nil}
use mathlib.Core.List.Perm
use mathlib.Core.Bool.{Bool-set}
use native.Mathlib.Bridge.{le_prop}
use pdes.Base.Permutations.{length-perm}
use pdes.Base.Sorting.{Sorted}
use pdes.Base.{
  ℕ, ◌≤◌, ◌≡◌, refl, ap, sym, subst, ◌∙◌, inl, inr, true, List, [], ◌∷◌, ◌++◌, Option, some, none,
  arith, Perm, All, All-perm, front, rest, length,
}
use pdes.Container.Causality.{IsValid}
use pdes.Container.{Container, before}
use pdes.Event.Order.{receive_order}
use pdes.Event.{Event, ObjectId, object_eq}
use pdes.Object.Coast.{after_peek, coast_loop-IsCoasted, IsCoasted}
use pdes.Object.Loops.{holding, peek_event-holding}
use pdes.Object.Replay.{replay, Sorted-rest}
use pdes.Object.Sorted.{first_look, IsSeen}
use pdes.Object.{SimulationObject, coast_loop, coast_turn, coast_forward, found}
use pdes.Output.{Kernel}

module _ {S : Type 0} (handle : S → Event → S × List Event) (k : Kernel) (id : ObjectId) where
  -- Object `p` is `o` after it has coasted to a time; `us` are its unprocessed events, in order.
  pub record HasCoasted (o p : SimulationObject S) (time : ℕ) (us : List Event) : Type 0 where
    pub in_order : Sorted receive_order us
    pub same_events : Perm us o.container.unprocessed
    pub same_states : p.states ≡ o.states
    pub same_output : p.output ≡ o.output
    pub same_delivered : p.delivered ≡ o.delivered
    pub state_after : p.state ≡ replay handle o.state (front (before time) us)
    pub processed_after : p.container.processed ≡ o.container.processed ++ front (before time) us
    pub unprocessed_after : p.container.unprocessed ≡ rest (before time) us
    pub same_removed : p.container.removed ≡ o.container.removed
    pub same_negative : p.container.negative ≡ o.container.negative
    pub valid : IsValid p.container
    pub later : o.simulation_time ≤ p.simulation_time
    pub in_time : p.simulation_time ≤ time
    pub passed : All (λ e. e.receive_time ≤ p.simulation_time) (front (before time) us)
    pub coasts_no_more : p.coast_forward_time ≡ none

  -- A turn of the loop looks only at what it peeks.
  coast_turn_peeked :
      (loop : SimulationObject S → SimulationObject S) (o : SimulationObject S) (d : Container)
      (r : Container × Option Event)
      → coast_turn handle k id loop o r ≡ coast_turn handle k id loop (record o { container = d }) r
  coast_turn_peeked loop o d (c, none) = refl
  coast_turn_peeked loop o d (c, some e) = refl

  IsCoasted-HasCoasted :
      (o p : SimulationObject S) (time : ℕ) (us : List Event)
      → Sorted receive_order us
      → Perm us o.container.unprocessed
      → IsCoasted handle k id
          (record o {
            container = holding o.container us o.container.processed;
            coast_forward_time = some time;
          })
          p
          time
          o.container
          us
          o.container.processed
      → HasCoasted o (record p { coast_forward_time = none }) time us
  IsCoasted-HasCoasted o p time us s perm b = record {
    in_order = s;
    same_events = perm;
    same_states = b.same_states;
    same_output = b.same_output;
    same_delivered = b.same_delivered;
    state_after = b.state_after;
    processed_after = ap (λ c. c.processed) b.container_after;
    unprocessed_after = ap (λ c. c.unprocessed) b.container_after;
    same_removed = ap (λ c. c.removed) b.container_after;
    same_negative = ap (λ c. c.negative) b.container_after;
    valid = subst IsValid (sym b.container_after) (λ _. Sorted-rest (before time) us s);
    later = b.later;
    in_time = b.in_time;
    passed = b.passed;
    coasts_no_more = refl;
  }

  coast_forward_empty :
      (o : SimulationObject S) (time : ℕ)
      → IsValid o.container
      → o.container.unprocessed ≡ []
      → o.simulation_time ≤ time
      → HasCoasted o (record o { coast_forward_time = none }) time []
  unfolding front rest replay
  coast_forward_empty o time v e h = record {
    in_order = tt;
    same_events = subst (λ l. Perm [] l) (sym e) (Perm.refl []);
    same_states = refl;
    same_output = refl;
    same_delivered = refl;
    state_after = refl;
    processed_after = sym (append-nil o.container.processed);
    unprocessed_after = e;
    same_removed = refl;
    same_negative = refl;
    valid = v;
    later = omega arith;
    in_time = h;
    passed = tt;
    coasts_no_more = refl;
  }

  -- The loop may start from the sorted container.
  coast_loop_seen :
      (n time : ℕ) (o : SimulationObject S) (y : Event) (ys : List Event)
      → n ≡ length (y ∷ ys)
      → IsSeen o.container y ys
      → coast_loop handle k id n time o
        ≡ coast_loop handle k id n time
            (record o { container = holding o.container (y ∷ ys) o.container.processed })
  coast_loop_seen n time o y ys h seen =
      let start : Container = holding o.container (y ∷ ys) o.container.processed in
      rw h (
        after_peek handle k id (length ys) time o (seen.peeked (some time))
        ∙ coast_turn_peeked (coast_loop handle k id (length ys) time) o start
            (start, found (some time) (some y))
        ∙ sym (
            after_peek handle k id (length ys) time (record o { container = start })
              (peek_event-holding (some time) o.container y ys o.container.processed)))

  -- The hypotheses that the loop needs of what it finds.
  pub record IsReady (o : SimulationObject S) (time : ℕ) : Type 0 where
    pub flag : IsValid o.container
    pub addressed : All (λ e. object_eq e.receiver id ≡ true) o.container.unprocessed
    pub ahead : All (λ e. o.simulation_time ≤ e.receive_time) o.container.unprocessed
    pub not_after : o.simulation_time ≤ time

  coast_full :
      (o : SimulationObject S) (time : ℕ) (y : Event) (ys : List Event)
      → IsReady o time
      → IsSeen o.container y ys
      → HasCoasted o (coast_forward handle k id time o) time (y ∷ ys)
  unfolding coast_forward
  coast_full o time y ys r seen =
      let n = length o.container.unprocessed in
      let coasting : SimulationObject S = record o { coast_forward_time = some time } in
      let start : SimulationObject S = record coasting {
        container = holding o.container (y ∷ ys) o.container.processed;
      } in
      let many : n ≡ length (y ∷ ys) = sym (length-perm seen.same_events) in
      let back = Perm.symm seen.same_events in
      subst (λ p. HasCoasted o (record p { coast_forward_time = none }) time (y ∷ ys))
        (sym (coast_loop_seen n time coasting y ys many seen))
        (IsCoasted-HasCoasted o (coast_loop handle k id n time start) time (y ∷ ys) seen.in_order
          seen.same_events
          (coast_loop-IsCoasted handle k id n start time o.container (y ∷ ys) o.container.processed
            (omega (arith, many)) refl refl seen.in_order
            (All-perm _ (λ e. Bool-set _ _) back r.addressed)
            (All-perm _ (λ e. le_prop) back r.ahead) r.not_after))

  coast_none : (n time : ℕ) (o : SimulationObject S) → n ≡ 0 → coast_loop handle k id n time o ≡ o
  unfolding coast_loop
  coast_none n time o h = rw h refl

  -- With events of the object, none of them before its time, and a truthful sort status, coasting forward ends:
  -- the turns are enough to process, in order, exactly the unprocessed events before the time. The state is the
  -- one that they make, no state is saved, and nothing is put into the output or handed out for delivery.
  pub coast_forward-HasCoasted :
      (o : SimulationObject S) (time : ℕ)
      → IsReady o time
      → (us : List Event) × HasCoasted o (coast_forward handle k id time o) time us
  unfolding coast_forward
  coast_forward-HasCoasted o time r = elim (first_look o.container r.flag) [
    | inl (e, _) ↦
        let coasting : SimulationObject S = record o { coast_forward_time = some time } in
        let still = coast_none (length o.container.unprocessed) time coasting (ap length e) in
        (
          [],
          subst (λ p. HasCoasted o (record p { coast_forward_time = none }) time []) (sym still)
              (coast_forward_empty o time r.flag e r.not_after),
        )
    | inr (y, ys, seen) ↦ (y ∷ ys, coast_full o time y ys r seen)
  ]
