-- ===== src/Object/Faithful.antt =====
-- The invariant of an object: its state is what its processed events make of the first state.
use pdes.Base.Sorting.{Sorted}
use pdes.Base.{
  ℕ, suc, ◌≤◌, ◌<◌, ◌≡◌, ap, sym, subst, ◌∙◌, true, List, [], ◌∷◌, ◌++◌, some, none, arith, All,
  All-map, front, last?,
}
use pdes.Container.Causality.{IsValid}
use pdes.Container.{Container, before}
use pdes.Event.Order.{receive_order}
use pdes.Event.{Event, ObjectId, object_eq}
use pdes.Object.Replay.{replay, replay-append, front-before}
use pdes.Object.{SimulationObject}
use pdes.State.{Entry, time_order}

pub All-last :
    {A : Type 0} (P : A → Type 0) (xs : List A) (x : A) → last? xs ≡ some x → All P xs → P x
unfolding last?
All-last P [] x e h = cc
All-last P (y ∷ []) x e h = subst P (ground (arith, e)) h.0
All-last P (y ∷ z ∷ zs) x e h = All-last P (z ∷ zs) x e h.1

module _ {S : Type 0} (handle : S → Event → S × List Event) (id : ObjectId) (s0 : S) where
  -- The events of a container: those before a time are processed, in order, and the others are not.
  pub record IsSplit (c : Container) (bound : ℕ) : Type 0 where
    pub flag : IsValid c
    pub done : Sorted receive_order c.processed
    pub early : All (λ e. e.receive_time < bound) c.processed
    pub late : All (λ e. bound ≤ e.receive_time) c.unprocessed
    pub addressed : All (λ e. object_eq e.receiver id ≡ true) c.unprocessed
    pub addressed_done : All (λ e. object_eq e.receiver id ≡ true) c.processed

  -- A saved state is the one that the events before its time make.
  abbrev pub Explains : List Event → Entry S → Type 0
  Explains ps x = x.element ≡ replay handle s0 (front (before x.main_time) ps)

  -- The saved states of an object, up to a time. The first one stays, for none is collected.
  pub record IsSaved (queue : List (Entry S)) (ps : List Event) (bound : ℕ) : Type 0 where
    pub first : Entry S
    pub others : List (Entry S)
    pub whole : queue ≡ first ∷ others
    pub from_zero : first.main_time ≡ 0
    pub in_order : Sorted (time_order S) queue
    pub saved : All (Explains ps) queue
    pub saved_early : All (λ x. x.main_time ≤ bound) queue

  pub record IsFaithful (o : SimulationObject S) : Type 0 where
    pub bound : ℕ
    pub split : IsSplit o.container bound
    pub near : bound ≤ suc o.simulation_time
    pub replayed : o.state ≡ replay handle s0 o.container.processed
    pub states : IsSaved (o.states.state_queue id.object) o.container.processed bound
    pub not_coasting : o.coast_forward_time ≡ none

  -- More events that are not before the saved states do not matter to them.
  pub Explains-append :
      (ps qs : List Event) (time : ℕ) (x : Entry S)
      → All (λ e. time ≤ e.receive_time) qs
      → x.main_time ≤ time
      → Explains ps x
      → Explains (ps ++ qs) x
  Explains-append ps qs time x late le h =
      h
      ∙ sym (
          ap (replay handle s0) (
            front-before x.main_time ps qs
              (All-map _ _ (λ e (t : time ≤ e.receive_time). (omega (arith, t, le))) qs late)))

  pub Explains-left :
      (ps qs : List Event) (time : ℕ) (x : Entry S)
      → All (λ e. time ≤ e.receive_time) qs
      → x.main_time ≤ time
      → Explains (ps ++ qs) x
      → Explains ps x
  Explains-left ps qs time x late le h =
      h
      ∙ ap (replay handle s0) (
          front-before x.main_time ps qs
            (All-map _ _ (λ e (t : time ≤ e.receive_time). (omega (arith, t, le))) qs late))

  pub replayed-append :
      (s : S) (ps qs : List Event)
      → s ≡ replay handle s0 ps
      → replay handle s qs ≡ replay handle s0 (ps ++ qs)
  replayed-append s ps qs h = ap (λ t. replay handle t qs) h ∙ sym (replay-append handle s0 ps qs)
