-- ===== src/State/Restore.antt =====
-- What a rollback finds: the latest state that was saved at its time or before.
use pdes.Base.Maps.{update_self, update_ne}
use pdes.Base.Sorting.{Sorted, Sorted-left}
use pdes.Base.{
  ℕ, ◌≤◌, ◌<◌, ◌≡◌, ◌≢◌, refl, ap, ◌∙◌, sym, Bool, List, [], ◌∷◌, ◌++◌, some, last?, All, update,
}
use pdes.State.Queue.{unwind-split, unwind-last, last-latest}
use pdes.State.{
  StateManager, Entry, time_order, unwind, restore_state, restore_last, no_state, restored,
}

-- What a restoration to a time must do to the queue of object `id`: `e` is the state that it gives
-- back and `n` the manager that it leaves.
pub record IsRestored {S : Type 0} (m n : StateManager S) (id time : ℕ) (e : Entry S) : Type 0 where
  pub in_time : e.main_time ≤ time
  pub erased : List (Entry S)
  pub split : n.state_queue id ++ erased ≡ m.state_queue id
  pub late : All (λ x. time < x.main_time) erased
  pub last_kept : last? (n.state_queue id) ≡ some e
  pub latest : All (λ x. x.main_time ≤ e.main_time) (n.state_queue id)
  pub others : (j : ℕ) → j ≢ id → n.state_queue j ≡ m.state_queue j
  pub same_counters : n.period_counter ≡ m.period_counter

module _ {S : Type 0} (opt_fossil in_recovery : Bool) (zero_time : ℕ) (m : StateManager S)
    (id : ℕ) where
  abbrev left : ℕ → List (Entry S) → StateManager S
  left time queue = record m { state_queue = update m.state_queue id (unwind time queue) }

  restore_nonempty :
      (time : ℕ) (first : Entry S) (others : List (Entry S))
      → m.state_queue id ≡ first ∷ others
      → restore_state opt_fossil in_recovery zero_time m time id
        ≡ restore_last m id (unwind time (first ∷ others)) (last? (unwind time (first ∷ others)))
  unfolding restore_state
  restore_nonempty time first others h = rw (h, restore_state) refl

  -- From a queue in order whose first state is not after the time, a restoration gives back the latest
  -- state that is not after the time, one at the very time included, where the comment in the source
  -- says less than the time. It erases exactly what is after the time at the end of the queue, and
  -- leaves the queues of the other objects.
  pub restore_state-IsRestored :
      (time : ℕ) (first : Entry S) (others : List (Entry S))
      → m.state_queue id ≡ first ∷ others
      → Sorted (time_order S) (first ∷ others)
      → first.main_time ≤ time
      → (n : StateManager S) × (e : Entry S) × (restore_state opt_fossil in_recovery zero_time m
            time id
          ≡ some (restored n e.element e.main_time))
        × IsRestored m n id time e
  restore_state-IsRestored time first others h s le =
      let (back, split, late) = unwind-split time first others in
      let (e, found, in_time) = unwind-last time first others le in
      let here : (left time (first ∷ others)).state_queue id ≡ unwind time (first ∷ others) =
        update_self m.state_queue id (unwind time (first ∷ others)) in
      let kept_order : Sorted (time_order S) (unwind time (first ∷ others)) =
        Sorted-left (time_order S) (unwind time (first ∷ others)) back (rw split s) in
      (
        left time (first ∷ others),
        e,
        restore_nonempty time first others h
            ∙ ap (restore_last m id (unwind time (first ∷ others))) found,
        record {
          in_time = in_time;
          erased = back;
          split = ap (λ l. l ++ back) here ∙ split ∙ sym h;
          late = late;
          last_kept = ap last? here ∙ found;
          latest = rw here (last-latest (unwind time (first ∷ others)) e kept_order found);
          others = λ j ne. update_ne m.state_queue id j (unwind time (first ∷ others)) ne;
          same_counters = refl;
        },
      )

  -- With no saved state, only optimistic fossil collection goes on.
  pub restore_state_empty :
      (time : ℕ)
      → m.state_queue id ≡ []
      → restore_state opt_fossil in_recovery zero_time m time id
        ≡ no_state opt_fossil in_recovery zero_time
  unfolding restore_state
  restore_state_empty time h = rw (h, restore_state) refl
