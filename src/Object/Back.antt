-- ===== src/Object/Back.antt =====
-- What a rollback brings back of an object before it coasts forward: a saved state, and the events
-- from its time on.
use pdes.Base.Sorting.{Sorted, Sorted-left}
use pdes.Base.{
  ℕ, ◌≤◌, ◌<◌, ◌≡◌, sym, subst, ◌∙◌, true, List, [], ◌∷◌, ◌++◌, some, arith, All, All-map, All-map2,
  last?, All-left, All-right, All-append,
}
use pdes.Container as Container
use pdes.Container.Rollback.{rollback_split}
use pdes.Container.{Container, before}
use pdes.Event.Order.{receive_order}
use pdes.Event.{Event, ObjectId, object_eq}
use pdes.Object.Faithful.{IsFaithful, IsSaved, Explains, Explains-append, Explains-left}
use pdes.Object.Forward.{IsReady}
use pdes.Object.{SimulationObject}
use pdes.Output as Output
use pdes.Output.{Kernel}
use pdes.State.Restore.{IsRestored}
use pdes.State.{StateManager, Entry, time_order}

first_kept :
    {A : Type 0} (kept erased : List A) (x : A) (xs : List A) (e : A)
    → last? kept ≡ some e
    → kept ++ erased ≡ x ∷ xs
    → (others : List A) × (kept ≡ x ∷ others)
unfolding last?
first_kept [] erased x xs e l h = cc
first_kept (y ∷ ys) erased x xs e l h = (ys, ground (arith, h))

module _ {S : Type 0} (handle : S → Event → S × List Event) (k : Kernel) (id : ObjectId)
    (s0 : S) where
  -- The object with a restored state, before it coasts forward.
  abbrev pub gone_back : SimulationObject S → ℕ → StateManager S → Entry S → SimulationObject S
  gone_back o time n e = record o {
    simulation_time = e.main_time;
    state = e.element;
    states = n;
    container = Container.rollback o.container e.main_time;
    output = (Output.rollback k o.output time).0;
  }

  -- What the rollback of the events takes back and keeps, with the restored time.
  pub record IsCut (c : Container) (time : ℕ) : Type 0 where
    pub undone : List Event
    pub parts : c.processed ≡ (Container.rollback c time).processed ++ undone
    pub again : (Container.rollback c time).unprocessed ≡ c.unprocessed ++ undone
    pub kept_early : All (λ e. e.receive_time < time) (Container.rollback c time).processed
    pub undone_late : All (λ e. time ≤ e.receive_time) undone

  pub cut : (c : Container) (time : ℕ) → Sorted receive_order c.processed → IsCut c time
  cut c time s =
      let (undone, parts, again, early, late, _, _, _) = rollback_split c time s in
      record {
        undone = undone;
        parts = parts;
        again = again;
        kept_early = early;
        undone_late = late;
      }

  pub gone_back-IsReady :
      (o : SimulationObject S) (time : ℕ) (n : StateManager S) (e : Entry S)
      → (f : IsFaithful handle id s0 o) → e.main_time ≤ f.bound
      → e.main_time ≤ time
      → IsReady handle k id (gone_back o time n e) time
  gone_back-IsReady o time n e f h t =
      let q = cut o.container e.main_time f.split.done in
      let (_, _, _, _, _, _, _, valid) = rollback_split o.container e.main_time f.split.done in
      let undone_addressed =
        All-right _ (Container.rollback o.container e.main_time).processed q.undone
          (subst (All (λ x. object_eq x.receiver id ≡ true)) q.parts f.split.addressed_done) in
      record {
        flag = valid;
        addressed =
            subst (All (λ x. object_eq x.receiver id ≡ true)) (sym q.again)
              (All-append _ o.container.unprocessed q.undone f.split.addressed undone_addressed);
        ahead = subst (All (λ x. e.main_time ≤ x.receive_time)) (sym q.again) (
            All-append _ o.container.unprocessed q.undone
              (All-map _ _ (λ x (l : f.bound ≤ x.receive_time). (omega (arith, h, l)))
                o.container.unprocessed f.split.late)
              q.undone_late);
        not_after = t;
      }

  -- The states that stay are explained by the events that count as processed again.
  pub states-IsSaved :
      (m n : StateManager S) (time : ℕ) (e : Entry S) (kept undone again : List Event) (bound : ℕ)
      → IsSaved handle id s0 (m.state_queue id.object) (kept ++ undone) bound
      → IsRestored m n id.object time e
      → All (λ x. e.main_time ≤ x.receive_time) undone
      → All (λ x. e.main_time ≤ x.receive_time) again
      → (b : ℕ) → e.main_time ≤ b
      → IsSaved handle id s0 (n.state_queue id.object) (kept ++ again) b
  states-IsSaved m n time e kept undone again bound s r late late' b h = record {
    first = s.first;
    others =
        (first_kept (n.state_queue id.object) r.erased s.first s.others e r.last_kept
          (r.split ∙ s.whole)).0;
    whole =
        (first_kept (n.state_queue id.object) r.erased s.first s.others e r.last_kept
          (r.split ∙ s.whole)).1;
    from_zero = s.from_zero;
    in_order =
        Sorted-left (time_order S) (n.state_queue id.object) r.erased
          (subst (Sorted (time_order S)) (sym r.split) s.in_order);
    saved =
        All-map2 (Explains handle id s0 (kept ++ undone)) (λ x. x.main_time ≤ e.main_time)
          (Explains handle id s0 (kept ++ again))
          (λ x same t.
            Explains-append handle id s0 kept again e.main_time x late' t
              (Explains-left handle id s0 kept undone e.main_time x late t same))
          (n.state_queue id.object)
          (All-left (Explains handle id s0 (kept ++ undone)) (n.state_queue id.object) r.erased
            (subst (All (Explains handle id s0 (kept ++ undone))) (sym r.split) s.saved))
          r.latest;
    saved_early =
        All-map _ _ (λ x (t : x.main_time ≤ e.main_time). (omega (arith, t, h)))
          (n.state_queue id.object) r.latest;
  }
