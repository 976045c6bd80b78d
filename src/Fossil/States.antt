-- ===== src/Fossil/States.antt =====
-- What the loop over the states of all objects leaves.
use mathlib.Core.Option.{some-injective}
use pdes.Base.Maps.{update_self}
use pdes.Base.Sorting.{Sorted, Le}
use pdes.Base.{
  ℕ, zero, suc, ◌≤◌, ◌-◌, ◌≡◌, ◌≢◌, refl, ap, ◌∙◌, sym, subst, inl, inr, false, List, [], ◌∷◌,
  Option, none, some, arith, last?, All, All-map, All-left, drop, ltb, ◌==◌, Bool-cases,
  Option-cases,
}
use pdes.Fossil.{collect_states}
use pdes.State as State
use pdes.State.Fossil.{
  answer, answer_of, answer_from, answer-restore, collect_lem, restore-fossil_collect,
}
use pdes.State.Queue.{unwind-split}
use pdes.State.{
  StateManager, Entry, time_order, earlier, unwind, restore_state, lower_bound, collect, lowest,
  no_state,
}

-- A queue of states in order, the first of them saved at the time or before.
pub record IsBased {S : Type 0} (bound : ℕ) (queue : List (Entry S)) : Type 0 where
  pub first : Entry S
  pub others : List (Entry S)
  pub whole : queue ≡ first ∷ others
  pub early : first.main_time ≤ bound
  pub in_order : Sorted (time_order S) (first ∷ others)

-- All states of a queue are saved at the time or later.
abbrev pub Floor : {S : Type 0} → ℕ → List (Entry S) → Type 0
Floor t = All (λ e. t ≤ e.main_time)

All-drop {ℓ κ} : {A : Type ℓ} (P : A → Type κ) (k : ℕ) (xs : List A) → All P xs → All P (drop k xs)
All-drop P zero xs h = h
All-drop P (suc k) [] h = tt
All-drop P (suc k) (x ∷ xs) h = All-drop P k xs h.1

abbrev time_of : {S : Type 0} → Option (Option (S × ℕ)) → ℕ
time_of (some (some (s, r))) = r
time_of other = 0

module _ {S : Type 0} where
  late-IsBased :
      (bound : ℕ) (e : Entry S) (es : List (Entry S))
      → e.main_time ≤ bound
      → Sorted (time_order S) (e ∷ es)
      → IsBased bound (drop (lower_bound bound es) (e ∷ es))
  unfolding lower_bound
  late-IsBased bound e [] h s = record {
    first = e;
    others = [];
    whole = refl;
    early = h;
    in_order = s;
  }
  late-IsBased bound e (f ∷ fs) h s = elim (Bool-cases (ltb f.main_time bound)) [
    | inr t ↦ rw t (record { first = e; others = f ∷ fs; whole = refl; early = h; in_order = s })
    | inl t ↦ rw t (late-IsBased bound f fs (ground arith) s.1)
  ]

  drop-IsBased :
      (bound : ℕ) (e : Entry S) (es : List (Entry S))
      → e.main_time ≤ bound
      → Sorted (time_order S) (e ∷ es)
      → IsBased bound (drop (lower_bound bound (e ∷ es) - 1) (e ∷ es))
  unfolding lower_bound
  drop-IsBased bound e es h s = elim (Bool-cases (ltb e.main_time bound)) [
    | inr t ↦ rw t (record { first = e; others = es; whole = refl; early = h; in_order = s })
    | inl t ↦
        let less : suc (lower_bound bound es) - 1 ≡ lower_bound bound es = omega arith in
        rw (t, less) (late-IsBased bound e es h s)
  ]

  pub collect-IsBased :
      (infinity bound : ℕ) (queue : List (Entry S))
      → bound ≢ infinity
      → IsBased bound queue
      → IsBased bound (collect infinity bound queue)
  collect-IsBased infinity bound queue ne b =
      rw (collect_lem infinity bound queue ne, b.whole)
        (drop-IsBased bound b.first b.others b.early b.in_order)

  collect-Floor :
      (infinity bound t : ℕ) (queue : List (Entry S))
      → bound ≢ infinity
      → Floor t queue
      → Floor t (collect infinity bound queue)
  collect-Floor infinity bound t queue ne h =
      rw (collect_lem infinity bound queue ne) (All-drop _ (lower_bound bound queue - 1) queue h)

  -- What holds of all queues and is kept by a collection holds after one of any object.
  pub step_keeps :
      (P : List (Entry S) → Type 0) (infinity bound : ℕ) (m : StateManager S) (i j : ℕ)
      → ((queue : List (Entry S)) → P queue → P (collect infinity bound queue))
      → P (m.state_queue j)
      → P ((State.fossil_collect infinity m i bound).0.state_queue j)
  unfolding State.fossil_collect
  step_keeps P infinity bound m i j keeps h = elim (Bool-cases (j == i)) [
    | inl t ↦
        let same : j ≡ i = ground arith in
        rw t (keeps (m.state_queue i) (subst (λ x. P (m.state_queue x)) same h))
    | inr t ↦ rw t h
  ]

  collect_states_keeps :
      (P : List (Entry S) → Type 0) (infinity bound : ℕ) (objects : List ℕ) (m : StateManager S)
      (j : ℕ)
      → ((queue : List (Entry S)) → P queue → P (collect infinity bound queue))
      → P (m.state_queue j)
      → P ((collect_states infinity bound objects m).0.state_queue j)
  unfolding collect_states
  collect_states_keeps P infinity bound [] m j keeps h = h
  collect_states_keeps P infinity bound (i ∷ is) m j keeps h =
      collect_states_keeps P infinity bound is (State.fossil_collect infinity m i bound).0 j keeps
        (step_keeps P infinity bound m i j keeps h)

  IsBased-Floor :
      (infinity bound : ℕ) (queue : List (Entry S))
      → IsBased bound queue
      → (lowest infinity queue ≤ bound) × Floor (lowest infinity queue) queue
  unfolding earlier
  IsBased-Floor infinity bound queue b = rw b.whole (
    b.early,
    (
      omega arith,
      All-map (Le (time_order S) b.first) (λ x. b.first.main_time ≤ x.main_time)
          (λ x h. ground arith) b.others b.in_order.0,
    ),
  )

  -- The reported time is that of the first state that is left.
  pub reported :
      (infinity bound : ℕ) (m : StateManager S) (i : ℕ)
      → IsBased bound ((State.fossil_collect infinity m i bound).0.state_queue i)
      → ((State.fossil_collect infinity m i bound).1 ≤ bound)
        × Floor
            (State.fossil_collect infinity m i bound).1
            ((State.fossil_collect infinity m i bound).0.state_queue i)
  unfolding State.fossil_collect
  reported infinity bound m i b =
      let here = update_self m.state_queue i (collect infinity bound (m.state_queue i)) in
      rw here (
        IsBased-Floor infinity bound (collect infinity bound (m.state_queue i))
          (subst (IsBased bound) here b))

  pub collect_states-Floor :
      (infinity bound u : ℕ) (objects : List ℕ) (m : StateManager S)
      → bound ≢ infinity
      → All (λ j. IsBased bound (m.state_queue j)) objects
      → All (λ t. u ≤ t) (collect_states infinity bound objects m).1
      → All (λ j. Floor u ((collect_states infinity bound objects m).0.state_queue j)) objects
  unfolding collect_states
  collect_states-Floor infinity bound u [] m ne b h = tt
  collect_states-Floor infinity bound u (i ∷ is) m ne b h =
      let n = (State.fossil_collect infinity m i bound).0 in
      let keeps = λ (queue : List (Entry S)). collect-IsBased infinity bound queue ne in
      let r =
        reported infinity bound m i (step_keeps (IsBased bound) infinity bound m i i keeps b.0) in
      (
        collect_states_keeps (Floor u) infinity bound is n i
            (λ queue. collect-Floor infinity bound u queue ne)
            (All-map _ _ (λ e k. omega (arith, h.0, k)) _ r.1),
        collect_states-Floor infinity bound u is n ne
            (All-map _ _ (λ j. step_keeps (IsBased bound) infinity bound m i j keeps) is b.1) h.1,
      )

  step_answer :
      (infinity bound time : ℕ) (m : StateManager S) (i j : ℕ)
      → bound ≤ time
      → bound ≢ infinity
      → answer (restore_state false false 0 (State.fossil_collect infinity m i bound).0 time j)
        ≡ answer (restore_state false false 0 m time j)
  unfolding State.fossil_collect
  step_answer infinity bound time m i j h ne = elim (Bool-cases (j == i)) [
    | inl t ↦
        let same : i ≡ j = ground arith in
        subst
          (λ x.
            answer (restore_state false false 0 (State.fossil_collect infinity m i bound).0 time x)
            ≡ answer (restore_state false false 0 m time x))
          same (restore-fossil_collect false false 0 infinity m i bound time h ne)
    | inr t ↦
        answer-restore false false 0 time j (State.fossil_collect infinity m i bound).0
          (m.state_queue j) (rw t refl)
        ∙ sym (answer-restore false false 0 time j m (m.state_queue j) refl)
  ]

  pub same_answers :
      (infinity bound time : ℕ) (objects : List ℕ) (m : StateManager S) (j : ℕ)
      → bound ≤ time
      → bound ≢ infinity
      → answer (restore_state false false 0 (collect_states infinity bound objects m).0 time j)
        ≡ answer (restore_state false false 0 m time j)
  unfolding collect_states
  same_answers infinity bound time [] m j h ne = refl
  same_answers infinity bound time (i ∷ is) m j h ne =
      same_answers infinity bound time is (State.fossil_collect infinity m i bound).0 j h ne
      ∙ step_answer infinity bound time m i j h ne

  All-last :
      (P : Entry S → Type 0) (xs : List (Entry S)) (x : Entry S)
      → All P xs
      → last? xs ≡ some x
      → P x
  unfolding last?
  All-last P [] x h e = cc
  All-last P (y ∷ []) x h e = subst P (some-injective _ _ e) h.0
  All-last P (y ∷ z ∷ xs) x h e = All-last P (z ∷ xs) x h.1 e

  -- A state that is handed out is one of the queue.
  pub answer-Floor :
      (u time : ℕ) (queue : List (Entry S)) (s : S) (r : ℕ)
      → Floor u queue
      → answer_from false false 0 time queue ≡ some (some (s, r))
      → u ≤ r
  answer-Floor u time [] s r h e = absurd cc
  answer-Floor u time (x ∷ xs) s r h e =
      let (back, whole, late) = unwind-split time x xs in
      let kept =
        All-left (λ e. u ≤ e.main_time) (unwind time (x ∷ xs)) back
          (subst (Floor u) (sym whole) h) in
      elim (Option-cases (last? (unwind time (x ∷ xs)))) [
        | inl gone ↦
            let p : answer_of {S = S} none ≡ some (some (s, r)) = sym (ap answer_of gone) ∙ e in
            absurd cc
        | inr (y, found) ↦
            let p : answer_of (some y) ≡ some (some (s, r)) = sym (ap answer_of found) ∙ e in
            omega (
              arith,
              ap time_of p,
              All-last (λ f. u ≤ f.main_time) (unwind time (x ∷ xs)) y kept found,
            )
      ]
