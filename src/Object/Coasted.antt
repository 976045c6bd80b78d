-- ===== src/Object/Coasted.antt =====
-- What the object is after it has coasted forward from what a rollback brought back.
use mathlib.Core.Bool.{Bool-set}
use mathlib.Core.List.Perm
use mathlib.Core.Path.{subst₂}
use mathlib.Core.List.{append_assoc}
use pdes.Base.Permutations.{perm_swap_right}
use native.Mathlib.Bridge.{le_prop}
use pdes.Base.Sorting.{Sorted, Sorted-left}
use pdes.Base.{
  ℕ, suc, ◌≤◌, ◌<◌, ◌≡◌, ap, sym, subst, ◌∙◌, true, List, ◌++◌, arith, All, All-map, All-map2,
  All-left, All-append, All-perm, front, rest, front-append-rest, front-All, Perm,
}
use pdes.Container as Container
use pdes.Container.Rollback.{rest-late}
use pdes.Container.{Container, before}
use pdes.Event.Order.{receive_order}
use pdes.Event.{Event, ObjectId, object_eq}
use pdes.Object.Back.{gone_back, IsCut, cut, gone_back-IsReady, states-IsSaved}
use pdes.Object.Faithful.{IsFaithful, IsSplit, IsSaved, Explains, replayed-append, All-last}
use pdes.Object.Forward.{HasCoasted, IsReady}
use pdes.Object.Replay.{replay, All-front, All-rest, Sorted-front, Sorted-join}
use pdes.Object.{SimulationObject}
use pdes.Output as Output
use pdes.Output.{Kernel}
use pdes.State.Restore.{IsRestored}
use pdes.State.{StateManager, Entry}

-- The kept, repeated and later events are the kept, undone and unprocessed ones.
rearranged :
    (kept again later us undone unprocessed : List Event) {ps xs qs : List Event}
    → ps ≡ kept ++ again
    → xs ≡ later
    → again ++ later ≡ us
    → Perm us (unprocessed ++ undone)
    → qs ≡ kept ++ undone
    → Perm (ps ++ xs) (qs ++ unprocessed)
rearranged kept again later us undone unprocessed p x u perm q =
    rw (p, x, q, append_assoc kept again later, u)
      (Perm.trans (Perm.append_left kept perm)
        (rw (← append_assoc kept unprocessed undone) (perm_swap_right kept unprocessed undone)))

module _ {S : Type 0} (handle : S → Event → S × List Event) (k : Kernel) (id : ObjectId)
    (s0 : S) where
  -- What a rollback to a time promises.
  pub record IsRolledBack (o p : SimulationObject S) (time : ℕ) : Type 0 where
    pub faithful : IsFaithful handle id s0 p
    pub in_time : faithful.bound ≤ time
    pub early : All (λ e. e.receive_time < time) p.container.processed
    pub late : All (λ e. time ≤ e.receive_time) p.container.unprocessed
    pub back : p.simulation_time ≤ time
    pub same_output : p.output ≡ (Output.rollback k o.output time).0
    pub same_delivered : p.delivered ≡ o.delivered
    pub same_events :
        Perm
          (p.container.processed ++ p.container.unprocessed)
          (o.container.processed ++ o.container.unprocessed)

  module _ (o : SimulationObject S) (time : ℕ) (n : StateManager S) (e : Entry S)
      (f : IsFaithful handle id s0 o) (r : IsRestored o.states n id.object time e) where
    abbrev start : SimulationObject S
    start = gone_back handle k id s0 o time n e

    pub of_queue : (P : Entry S → Type 0) → All P (o.states.state_queue id.object) → P e
    of_queue P h =
        All-last P (n.state_queue id.object) e r.last_kept
          (All-left P (n.state_queue id.object) r.erased (subst (All P) (sym r.split) h))

    pub restored_early : e.main_time ≤ f.bound
    restored_early = of_queue (λ x. x.main_time ≤ f.bound) f.states.saved_early

    restored_state : e.element ≡ replay handle s0 start.container.processed
    unfolding Container.rollback
    restored_state = of_queue (Explains handle id s0 o.container.processed) f.states.saved

    pub ready : IsReady handle k id start time
    ready = gone_back-IsReady handle k id s0 o time n e f restored_early r.in_time

    module _ (us : List Event) (p : SimulationObject S) (g : HasCoasted handle k id start p time us)
        (b : ℕ) (reach : e.main_time ≤ b) (short : b ≤ time)
        (passed_early : (x : ℕ) → x ≤ p.simulation_time → x < time → x < b) where
      abbrev again : List Event
      again = front (before time) us

      us_late : All (λ x. e.main_time ≤ x.receive_time) us
      us_late = All-perm _ (λ x. le_prop) (Perm.symm g.same_events) ready.ahead

      us_addressed : All (λ x. object_eq x.receiver id ≡ true) us
      us_addressed = All-perm _ (λ x. Bool-set _ _) (Perm.symm g.same_events) ready.addressed

      again_late : All (λ x. e.main_time ≤ x.receive_time) again
      again_late = All-front _ (before time) us us_late

      again_early : All (λ x. x.receive_time < time) again
      again_early =
          All-map _ _ (λ x (h : before time x ≡ true). (ground (arith, h))) again
            (front-All (before time) us)

      kept_early : All (λ x. x.receive_time < e.main_time) start.container.processed
      kept_early = (cut handle k id s0 o.container e.main_time f.split.done).kept_early

      parts : IsCut handle k id s0 o.container e.main_time
      parts = cut handle k id s0 o.container e.main_time f.split.done

      kept_done : Sorted receive_order start.container.processed
      kept_done =
          Sorted-left receive_order start.container.processed parts.undone
            (subst (Sorted receive_order) parts.parts f.split.done)

      kept_addressed : All (λ x. object_eq x.receiver id ≡ true) start.container.processed
      kept_addressed =
          All-left _ start.container.processed parts.undone
            (subst (All (λ x. object_eq x.receiver id ≡ true)) parts.parts f.split.addressed_done)

      coasted-IsSplit : IsSplit handle id s0 p.container b
      coasted-IsSplit = record {
        flag = g.valid;
        done = subst (Sorted receive_order) (sym g.processed_after) (
            Sorted-join e.main_time start.container.processed again kept_done
              (Sorted-front (before time) us g.in_order) kept_early again_late);
        early = subst (All (λ x. x.receive_time < b)) (sym g.processed_after) (
            All-append _ start.container.processed again
              (All-map _ _ (λ x (h : x.receive_time < e.main_time). (omega (arith, h, reach)))
                start.container.processed kept_early)
              (All-map2 _ _ _ (λ x h t. passed_early x.receive_time h t) again g.passed
                again_early));
        late = subst (All (λ x. b ≤ x.receive_time)) (sym g.unprocessed_after) (
            All-map _ _ (λ x (h : time ≤ x.receive_time). (omega (arith, h, short)))
              (rest (before time) us) (rest-late time us g.in_order));
        addressed =
            subst (All (λ x. object_eq x.receiver id ≡ true)) (sym g.unprocessed_after)
              (All-rest _ (before time) us us_addressed);
        addressed_done = subst (All (λ x. object_eq x.receiver id ≡ true)) (sym g.processed_after) (
            All-append _ start.container.processed again kept_addressed
              (All-front _ (before time) us us_addressed));
      }

      coasted-Perm :
          Perm
            (p.container.processed ++ p.container.unprocessed)
            (o.container.processed ++ o.container.unprocessed)
      coasted-Perm =
          rearranged start.container.processed again (rest (before time) us) us parts.undone
            o.container.unprocessed g.processed_after g.unprocessed_after
            (front-append-rest (before time) us) (subst (Perm us) parts.again g.same_events)
            parts.parts

      coasted-IsFaithful :
          b ≤ suc p.simulation_time → (t : IsFaithful handle id s0 p) × (t.bound ≤ time)
      coasted-IsFaithful near = (
        record {
          bound = b;
          split = coasted-IsSplit;
          near = near;
          replayed =
              g.state_after
              ∙ replayed-append handle id s0 e.element start.container.processed again
                  restored_state
              ∙ ap (replay handle s0) (sym g.processed_after);
          states =
              subst₂ (λ q ps. IsSaved handle id s0 q ps b)
                (sym (ap (λ m. m.state_queue id.object) g.same_states)) (sym g.processed_after)
                (states-IsSaved handle k id s0 o.states n time e start.container.processed
                  parts.undone again f.bound
                  (subst (λ ps. IsSaved handle id s0 (o.states.state_queue id.object) ps f.bound)
                    parts.parts f.states)
                  r parts.undone_late again_late b reach);
          not_coasting = g.coasts_no_more;
        },
        short,
      )

      pub coasted-IsRolledBack : b ≤ suc p.simulation_time → IsRolledBack o p time
      coasted-IsRolledBack near = record {
        faithful = (coasted-IsFaithful near).0;
        in_time = (coasted-IsFaithful near).1;
        early =
            All-map _ _ (λ x (h : x.receive_time < b). (omega (arith, h, short)))
              p.container.processed coasted-IsSplit.early;
        late =
            subst (All (λ x. time ≤ x.receive_time)) (sym g.unprocessed_after)
              (rest-late time us g.in_order);
        back = g.in_time;
        same_output = g.same_output;
        same_delivered = g.same_delivered;
        same_events = coasted-Perm;
      }
