-- ===== src/State/Tests.antt =====
-- Tests of the state queues, and the theorems at concrete managers.
use pdes.Base.Int.{◌+ℤ◌}
use pdes.Base.Sorting.{insert}
use pdes.Base.{ℕ, ◌≡◌, refl, false, [], ◌∷◌, some, arith, last?, rest}
use pdes.State.Fossil.{KeepsOne, answer, restore-fossil_collect, fossil_collect-KeepsOne}
use pdes.State.Period.{save_all}
use pdes.State.Restore.{IsRestored, restore_state-IsRestored}
use pdes.State.Valid.{IsValid, step-IsValid, step, saves}
use pdes.State.{
  StateManager, Entry, init, earlier, drop_back, unwind, restore_state, restored, lower_bound,
  collect, fossil_collect, fossil_collect_int, collect_int, save_state,
}

abbrev at : ℕ → ℕ → Entry ℕ
at time s = record { main_time = time; element = s }

-- Object 0 has states of the times 2, 5, 5 and 9.
abbrev four : StateManager ℕ
four = record (init ℕ 1) { state_queue = λ id. at 2 20 ∷ at 5 50 ∷ at 5 51 ∷ at 9 90 ∷ [] }

four-IsValid : IsValid four
unfolding earlier
four-IsValid id = ((refl, (refl, (refl, tt))), ((refl, (refl, tt)), ((refl, tt), (tt, tt))))

-- The state that a rollback to 7 finds is the second one of time 5.
restores_five : answer (restore_state false false 0 four 7 0) ≡ some (some (51, 5))
unfolding restore_state unwind drop_back last?
restores_five = refl

keeps_one : (fossil_collect 100 four 0 5).1 ≡ 2
unfolding fossil_collect collect lower_bound
keeps_one = refl

-- The collection by an approximate time leaves no state before the time.
keeps_none_int : (fossil_collect_int (λ t. t) 100 four 0 9).1 ≡ 9
unfolding fossil_collect_int collect_int rest
keeps_none_int = refl

saved_twice :
    (save_all (init ℕ 1) 3 (at 4 1 ∷ at 5 2 ∷ at 6 3 ∷ [])).state_queue 3 ≡ at 4 1 ∷ at 6 3 ∷ []
unfolding save_all save_state insert earlier ◌+ℤ◌
saved_twice = refl

restore_state-IsRestored_example :
    (n : StateManager ℕ) × (e : Entry ℕ) × (restore_state false false 0 four 7 0
      ≡ some (restored n e.element e.main_time))
    × IsRestored four n 0 7 e
restore_state-IsRestored_example =
    restore_state-IsRestored false false 0 four 0 7 (at 2 20) (at 5 50 ∷ at 5 51 ∷ at 9 90 ∷ [])
      refl (four-IsValid 0) (omega arith)

restore-fossil_collect_example :
    answer (restore_state false false 0 (fossil_collect 100 four 0 5).0 7 0)
    ≡ answer (restore_state false false 0 four 7 0)
restore-fossil_collect_example =
    restore-fossil_collect false false 0 100 four 0 5 7 (omega arith) (omega arith)

fossil_collect-KeepsOne_example :
    KeepsOne four (fossil_collect 100 four 0 5).0 0 5 (fossil_collect 100 four 0 5).1 100
fossil_collect-KeepsOne_example =
    fossil_collect-KeepsOne 100 four 0 5 (four-IsValid 0) (omega arith)

step-IsValid_example : IsValid (save_state four 7 0 70)
unfolding step
step-IsValid_example =
    step-IsValid false false 0 100 (λ t. t) four (save_state four 7 0 70) (saves 7 0 70)
      four-IsValid refl
