-- ===== src/Object/Saving.antt =====
-- The states that an object saves as it executes events.
use pdes.Base.Sorting.{insert, insert-Sorted, insert-All}
use pdes.Base.Maps.{update_self}
use pdes.Base.{
  ℕ, ◌≤◌, ◌<◌, ◌≡◌, refl, ap, sym, subst, ◌∙◌, inl, inr, Bool-cases, false, List, ◌∷◌, ◌++◌, arith,
  All, All-map, All-map2,
}
use pdes.Container.{before}
use pdes.Event.{Event, ObjectId}
use pdes.Object.Faithful.{IsSaved, Explains, Explains-append}
use pdes.Object.Replay.{replay, front-all}
use pdes.State.{StateManager, Entry, time_order, earlier, save_state, is_due}

insert_behind_first :
    {S : Type 0} (x y : Entry S) (ys : List (Entry S))
    → earlier x y ≡ false
    → insert (time_order S) x (y ∷ ys) ≡ y ∷ insert (time_order S) x ys
unfolding insert
insert_behind_first x y ys h = rw h refl

module _ {S : Type 0} (handle : S → Event → S × List Event) (id : ObjectId) (s0 : S) where
  -- A state that is saved at the next event's time is explained by what is processed.
  insert-IsSaved :
      (queue : List (Entry S)) (ps : List Event) (bound time : ℕ) (s : S)
      → IsSaved handle id s0 queue ps bound
      → bound ≤ time
      → All (λ e. e.receive_time < bound) ps
      → s ≡ replay handle s0 ps
      → IsSaved handle id s0
          (insert (time_order S) (record { main_time = time; element = s }) queue)
          ps
          time
  unfolding earlier
  insert-IsSaved queue ps bound time s v h early same =
      let new : Entry S = record { main_time = time; element = s } in
      let all =
        front-all (before time) ps
          (All-map _ _ (λ e (t : e.receive_time < bound). (ground (arith, t, h))) ps early) in
      record {
        first = v.first;
        others = insert (time_order S) new v.others;
        whole =
            ap (insert (time_order S) new) v.whole
            ∙ insert_behind_first new v.first v.others (let z = v.from_zero in ground (arith, z));
        from_zero = v.from_zero;
        in_order = insert-Sorted (time_order S) new queue v.in_order;
        saved =
            insert-All (time_order S) (Explains handle id s0 ps) new queue
              (same ∙ sym (ap (replay handle s0) all)) v.saved;
        saved_early =
            insert-All (time_order S) (λ x. x.main_time ≤ time) new queue (omega arith)
              (All-map _ _ (λ x (t : x.main_time ≤ bound). (omega (arith, t, h))) queue
                v.saved_early);
      }

  IsSaved-later :
      (queue : List (Entry S)) (ps : List Event) (bound time : ℕ)
      → IsSaved handle id s0 queue ps bound
      → bound ≤ time
      → IsSaved handle id s0 queue ps time
  IsSaved-later queue ps bound time v h = record {
    first = v.first;
    others = v.others;
    whole = v.whole;
    from_zero = v.from_zero;
    in_order = v.in_order;
    saved = v.saved;
    saved_early =
        All-map _ _ (λ x (t : x.main_time ≤ bound). (omega (arith, t, h))) queue v.saved_early;
  }

  pub save_state-IsSaved :
      (m : StateManager S) (ps : List Event) (bound time : ℕ) (s : S)
      → IsSaved handle id s0 (m.state_queue id.object) ps bound
      → bound ≤ time
      → All (λ e. e.receive_time < bound) ps
      → s ≡ replay handle s0 ps
      → IsSaved handle id s0 ((save_state m time id.object s).state_queue id.object) ps time
  unfolding save_state
  save_state-IsSaved m ps bound time s v h early same =
      elim (Bool-cases (is_due (m.period_counter id.object))) [
        | inl t ↦ rw t (
            subst (λ q. IsSaved handle id s0 q ps time)
              (sym (update_self m.state_queue id.object _))
              (insert-IsSaved (m.state_queue id.object) ps bound time s v h early same))
        | inr t ↦ rw t (IsSaved-later (m.state_queue id.object) ps bound time v h)
      ]

  -- More processed events that are not before the last state's time.
  pub IsSaved-append :
      (queue : List (Entry S)) (ps qs : List Event) (time b : ℕ)
      → IsSaved handle id s0 queue ps time
      → All (λ e. time ≤ e.receive_time) qs
      → time ≤ b
      → IsSaved handle id s0 queue (ps ++ qs) b
  IsSaved-append queue ps qs time b v late h = record {
    first = v.first;
    others = v.others;
    whole = v.whole;
    from_zero = v.from_zero;
    in_order = v.in_order;
    saved =
        All-map2 (Explains handle id s0 ps) (λ x. x.main_time ≤ time)
          (Explains handle id s0 (ps ++ qs))
          (λ x same t. Explains-append handle id s0 ps qs time x late t same) queue v.saved
          v.saved_early;
    saved_early =
        All-map _ _ (λ x (t : x.main_time ≤ time). (omega (arith, t, h))) queue v.saved_early;
  }
