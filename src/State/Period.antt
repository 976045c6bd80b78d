-- ===== src/State/Period.antt =====
-- How often a state is saved.
use pdes.Base.Int.{eq_of_parts, int_laws, pos, negsuc, ◌+ℤ◌}
use pdes.Base.Maps.{update_self}
use pdes.Base.Sorting.{insert}
use pdes.Base.{ℕ, suc, ◌≡◌, refl, ap, ◌∙◌, true, List, [], ◌∷◌, length}
use pdes.State.{StateManager, Entry, time_order, is_due, save_state}

-- An object asks for its states to be saved at times, one after another.
unfoldable pub save_all : {S : Type 0} → StateManager S → ℕ → List (Entry S) → StateManager S
save_all m id [] = m
save_all m id (e ∷ es) = save_all (save_state m e.main_time id e.element) id es

module _ {S : Type 0} where
  skip :
      (m : StateManager S) (id k time : ℕ) (s : S)
      → m.period_counter id ≡ pos (suc k)
      → (save_state m time id s).period_counter id ≡ pos k
  unfolding save_state
  skip m id k time s h = rw h (
      update_self m.period_counter id (pos (suc k) +ℤ negsuc 0)
      ∙ eq_of_parts (pos (suc k) +ℤ negsuc 0) (pos k) (omega int_laws))

  skip_queue :
      (m : StateManager S) (id k time : ℕ) (s : S)
      → m.period_counter id ≡ pos (suc k)
      → (save_state m time id s).state_queue ≡ m.state_queue
  unfolding save_state
  skip_queue m id k time s h = rw h refl

  skip_all :
      (m : StateManager S) (id : ℕ) (es : List (Entry S))
      → m.period_counter id ≡ pos (length es)
      → ((save_all m id es).state_queue ≡ m.state_queue)
        × ((save_all m id es).period_counter id ≡ pos 0)
  unfolding save_all
  skip_all m id [] h = (refl, h)
  skip_all m id (e ∷ es) h =
      let n = save_state m e.main_time id e.element in
      let (same, done) = skip_all n id es (skip m id (length es) e.main_time e.element h) in
      (same ∙ skip_queue m id (length es) e.main_time e.element h, done)

  saved :
      (m : StateManager S) (id : ℕ) (e : Entry S)
      → is_due (m.period_counter id) ≡ true
      → ((save_state m e.main_time id e.element).state_queue id
          ≡ insert (time_order S) e (m.state_queue id))
        × ((save_state m e.main_time id e.element).period_counter id
            ≡ pos (m.object_state_period id))
  unfolding save_state
  saved m id e due = rw due (
    update_self m.state_queue id (insert (time_order S) e (m.state_queue id)),
    update_self m.period_counter id (pos (m.object_state_period id)),
  )

  -- When a saving is due, of a period's calls and one more only the first saves its state, in
  -- order behind the states of the same time, and a saving is due again after them.
  pub save_all_period :
      (m : StateManager S) (id : ℕ) (e : Entry S) (es : List (Entry S))
      → is_due (m.period_counter id) ≡ true
      → m.object_state_period id ≡ length es
      → ((save_all m id (e ∷ es)).state_queue id ≡ insert (time_order S) e (m.state_queue id))
        × (is_due ((save_all m id (e ∷ es)).period_counter id) ≡ true)
  unfolding save_all
  save_all_period m id e es due period =
      let n = save_state m e.main_time id e.element in
      let (queue, counter) = saved m id e due in
      let (same, done) = skip_all n id es (counter ∙ ap pos period) in
      (ap (λ (f : ℕ → List (Entry S)). f id) same ∙ queue, ap is_due done)
