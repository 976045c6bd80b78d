-- ===== src/State/Valid.antt =====
-- Every operation keeps the queues in order.
use mathlib.Core.Option.{some-injective}
use pdes.Base.Maps.{update-All}
use pdes.Base.Sorting.{Sorted, insert-Sorted, Sorted-left, Sorted-right}
use pdes.Base.{
  ℕ, zero, suc, ◌-◌, ◌≡◌, refl, sym, subst, inl, inr, Bool, true, false, List, [], ◌∷◌, Option,
  none, some, take, drop, take-append-drop, Bool-cases, last?, update, front, rest,
  front-append-rest, ltb, ◌==◌,
}
use pdes.State.Queue.{unwind-split}
use pdes.State.{
  StateManager, Entry, time_order, is_due, unwind, save_state, restore_state, restore_last,
  no_state, Outcome, restored, recovers, lower_bound, collect, fossil_collect, collect_int,
  fossil_collect_int, ofc_purge_object, ofc_purge,
}

-- The calls on a state manager; what a restoration recovers is the kernel's.
pub data Action (S : Type 0) : Type 0 where
  saves : (time id : ℕ) → S → Action S
  restores : (time id : ℕ) → Action S
  collects : (id time : ℕ) → Action S
  collects_int : (id time : ℕ) → Action S
  purges_object : (id : ℕ) → Action S
  purges : (objects : ℕ) → Action S

abbrev after_restore : {S : Type 0} → StateManager S → Option (Outcome S) → Option (StateManager S)
after_restore m none = none
after_restore m (some (restored n s time)) = some n
after_restore m (some (recovers start time)) = some m

-- `none` stands for an abort.
unfoldable pub step :
    {S : Type 0}
    → Bool
    → Bool
    → ℕ
    → ℕ
    → (ℕ → ℕ)
    → StateManager S
    → Action S
    → Option (StateManager S)
step opt_fossil in_recovery zero_time infinity approximate m (saves time id s) =
    some (save_state m time id s)
step opt_fossil in_recovery zero_time infinity approximate m (restores time id) =
    after_restore m (restore_state opt_fossil in_recovery zero_time m time id)
step opt_fossil in_recovery zero_time infinity approximate m (collects id time) =
    some (fossil_collect infinity m id time).0
step opt_fossil in_recovery zero_time infinity approximate m (collects_int id time) =
    some (fossil_collect_int approximate infinity m id time).0
step opt_fossil in_recovery zero_time infinity approximate m (purges_object id) =
    some (ofc_purge_object m id)
step opt_fossil in_recovery zero_time infinity approximate m (purges objects) =
    some (ofc_purge m objects)

abbrev pub IsValid : {S : Type 0} → StateManager S → Type 0
IsValid {S} m = (id : ℕ) → Sorted (time_order S) (m.state_queue id)

module _ {S : Type 0} where
  write :
      (m : StateManager S) (id : ℕ) (queue : List (Entry S))
      → IsValid m
      → Sorted (time_order S) queue
      → (j : ℕ) → Sorted (time_order S) (update m.state_queue id queue j)
  write m id queue v s = update-All (λ j q. Sorted (time_order S) q) m.state_queue id queue v s

  save_state-IsValid :
      (m : StateManager S) (time id : ℕ) (s : S) → IsValid m → IsValid (save_state m time id s)
  unfolding save_state
  save_state-IsValid m time id s v = elim (Bool-cases (is_due (m.period_counter id))) [
    | inl t ↦ rw t (write m id _ v (insert-Sorted (time_order S) _ _ (v id)))
    | inr t ↦ rw t v
  ]

  unwind-Sorted :
      (time : ℕ) (queue : List (Entry S))
      → Sorted (time_order S) queue
      → Sorted (time_order S) (unwind time queue)
  unfolding unwind
  unwind-Sorted time [] s = tt
  unwind-Sorted time (e ∷ es) s =
      let (back, same, late) = unwind-split time e es in
      Sorted-left (time_order S) (unwind time (e ∷ es)) back
        (subst (Sorted (time_order S)) (sym same) s)

  last-IsValid :
      (m n : StateManager S) (id : ℕ) (queue : List (Entry S)) (o : Option (Entry S))
      → IsValid m
      → Sorted (time_order S) queue
      → after_restore m (restore_last m id queue o) ≡ some n
      → IsValid n
  last-IsValid m n id queue none v s h = cc
  last-IsValid m n id queue (some e) v s h =
      subst IsValid (some-injective _ _ h) (write m id queue v s)

  no_state-IsValid :
      (opt_fossil in_recovery : Bool) (zero_time : ℕ) (m n : StateManager S)
      → IsValid m
      → after_restore m (no_state opt_fossil in_recovery zero_time) ≡ some n
      → IsValid n
  no_state-IsValid true in_recovery zero_time m n v h = subst IsValid (some-injective _ _ h) v
  no_state-IsValid false in_recovery zero_time m n v h = cc

  restore_state-IsValid :
      (opt_fossil in_recovery : Bool) (zero_time : ℕ) (m n : StateManager S) (time id : ℕ)
      (queue : List (Entry S))
      → IsValid m
      → m.state_queue id ≡ queue
      → after_restore m (restore_state opt_fossil in_recovery zero_time m time id) ≡ some n
      → IsValid n
  unfolding restore_state
  restore_state-IsValid opt_fossil in_recovery zero_time m n time id [] v e h =
      no_state-IsValid opt_fossil in_recovery zero_time m n v (rw (e, restore_state) at h)
  restore_state-IsValid opt_fossil in_recovery zero_time m n time id (x ∷ xs) v e h =
      last-IsValid m n id (unwind time (x ∷ xs)) (last? (unwind time (x ∷ xs))) v
        (unwind-Sorted time (x ∷ xs) (subst (Sorted (time_order S)) e (v id)))
        (rw (e, restore_state) at h)

  collect-Sorted :
      (infinity time : ℕ) (queue : List (Entry S))
      → Sorted (time_order S) queue
      → Sorted (time_order S) (collect infinity time queue)
  unfolding collect
  collect-Sorted infinity time queue s =
      let k = lower_bound time queue - 1 in
      elim (Bool-cases (time == infinity)) [
        | inl t ↦ rw t tt
        | inr t ↦ rw t (
            Sorted-right (time_order S) (take k queue) (drop k queue)
              (rw (take-append-drop k queue) s))
      ]

  collect_int-Sorted :
      (approximate : ℕ → ℕ) (infinity time : ℕ) (queue : List (Entry S))
      → Sorted (time_order S) queue
      → Sorted (time_order S) (collect_int approximate infinity time queue)
  unfolding collect_int
  collect_int-Sorted approximate infinity time queue s =
      let old = λ (e : Entry S). ltb (approximate e.main_time) time in
      elim (Bool-cases (time == approximate infinity)) [
        | inl t ↦ rw t tt
        | inr t ↦ rw t (
            Sorted-right (time_order S) (front old queue) (rest old queue)
              (rw (front-append-rest old queue) s))
      ]

  purge-IsValid : (m : StateManager S) (n : ℕ) → IsValid m → IsValid (ofc_purge m n)
  unfolding ofc_purge ofc_purge_object
  purge-IsValid m zero v = v
  purge-IsValid m (suc n) v = write (ofc_purge m n) n [] (purge-IsValid m n v) tt

  -- Whatever is called, and does not abort, keeps the queues of all objects in order.
  pub step-IsValid :
      (opt_fossil in_recovery : Bool) (zero_time infinity : ℕ) (approximate : ℕ → ℕ)
      (m n : StateManager S) (a : Action S)
      → IsValid m
      → step opt_fossil in_recovery zero_time infinity approximate m a ≡ some n
      → IsValid n
  unfolding step fossil_collect fossil_collect_int ofc_purge_object
  step-IsValid opt_fossil in_recovery zero_time infinity approximate m n (saves time id s) v h =
      subst IsValid (some-injective _ _ h) (save_state-IsValid m time id s v)
  step-IsValid opt_fossil in_recovery zero_time infinity approximate m n (restores time id) v h =
      restore_state-IsValid opt_fossil in_recovery zero_time m n time id (m.state_queue id) v refl h
  step-IsValid opt_fossil in_recovery zero_time infinity approximate m n (collects id time) v h =
      subst IsValid (some-injective _ _ h)
        (write m id _ v (collect-Sorted infinity time (m.state_queue id) (v id)))
  step-IsValid opt_fossil in_recovery zero_time infinity approximate m n (collects_int id time) v
        h =
      subst IsValid (some-injective _ _ h)
        (write m id _ v (collect_int-Sorted approximate infinity time (m.state_queue id) (v id)))
  step-IsValid opt_fossil in_recovery zero_time infinity approximate m n (purges_object id) v h =
      subst IsValid (some-injective _ _ h) (write m id [] v tt)
  step-IsValid opt_fossil in_recovery zero_time infinity approximate m n (purges objects) v h =
      subst IsValid (some-injective _ _ h) (purge-IsValid m objects v)
