-- ===== src/State/Fossil.antt =====
-- Fossil collection of states: what goes, and that no later rollback misses it.
use pdes.Base.Maps.{update_self, update_ne}
use pdes.Base.Sorting.{Sorted, Le}
use pdes.Base.{
  ℕ, zero, suc, ◌≤◌, ◌<◌, ◌-◌, ◌≡◌, ◌≢◌, refl, ap, ◌∙◌, sym, subst, ◌⊎◌, inl, inr, Bool, false,
  List, [], ◌∷◌, ◌++◌, Option, none, some, arith, last?, All, All-map, drop, take, take-append-drop,
  ltb, ◌==◌, Bool-cases,
}
use pdes.State.Queue.{unwind-drop}
use pdes.State.{
  StateManager, Entry, earlier, time_order, unwind, restore_state, restore_last, no_state, Outcome,
  restored, recovers, lower_bound, collect, fossil_collect, lowest,
}

-- The state and the time that a restoration hands out, without what it leaves in the queues.
abbrev pub answer : {S : Type 0} → Option (Outcome S) → Option (Option (S × ℕ))
answer none = none
answer (some (restored n s time)) = some (some (s, time))
answer (some (recovers start time)) = some none

module _ {S : Type 0} where
  abbrev pub answer_of : Option (Entry S) → Option (Option (S × ℕ))
  answer_of none = none
  answer_of (some e) = some (some (e.element, e.main_time))

  answer-last :
      (m : StateManager S) (id : ℕ) (queue : List (Entry S)) (o : Option (Entry S))
      → answer (restore_last m id queue o) ≡ answer_of o
  answer-last m id queue none = refl
  answer-last m id queue (some e) = refl

  abbrev pub answer_from : Bool → Bool → ℕ → ℕ → List (Entry S) → Option (Option (S × ℕ))
  answer_from opt_fossil in_recovery zero_time time queue = elim queue [
    | [] ↦ answer {S = S} (no_state opt_fossil in_recovery zero_time)
    | e ∷ es ↦ answer_of (last? (unwind time (e ∷ es)))
  ]

  pub answer-restore :
      (opt_fossil in_recovery : Bool) (zero_time time id : ℕ) (m : StateManager S)
      (queue : List (Entry S))
      → m.state_queue id ≡ queue
      → answer (restore_state opt_fossil in_recovery zero_time m time id)
        ≡ answer_from opt_fossil in_recovery zero_time time queue
  unfolding restore_state
  answer-restore opt_fossil in_recovery zero_time time id m [] h = rw (h, restore_state) refl
  answer-restore opt_fossil in_recovery zero_time time id m (e ∷ es) h =
      rw (h, restore_state) (answer-last m id (unwind time (e ∷ es)) (last? (unwind time (e ∷ es))))

  drop_late :
      (bound : ℕ) (e : Entry S) (es : List (Entry S))
      → (f : Entry S) × (fs : List (Entry S)) × (drop (lower_bound bound es) (e ∷ es) ≡ f ∷ fs)
  unfolding lower_bound
  drop_late bound e [] = (e, [], refl)
  drop_late bound e (f ∷ fs) = elim (Bool-cases (ltb f.main_time bound)) [
    | inr t ↦ (e, f ∷ fs, rw t refl)
    | inl t ↦ let (g, gs, same) = drop_late bound f fs in (g, gs, rw t same)
  ]

  -- The collection never empties a queue.
  drop-lower :
      (bound : ℕ) (e : Entry S) (es : List (Entry S))
      → (f : Entry S) × (fs : List (Entry S)) × (drop (lower_bound bound (e ∷ es) - 1) (e ∷ es)
          ≡ f ∷ fs)
  unfolding lower_bound
  drop-lower bound e es = elim (Bool-cases (ltb e.main_time bound)) [
    | inr t ↦ (e, es, rw t refl)
    | inl t ↦
        let less : suc (lower_bound bound es) - 1 ≡ lower_bound bound es = omega arith in
        let (f, fs, same) = drop_late bound e es in (f, fs, rw (t, less) same)
  ]

  answer-collect :
      (opt_fossil in_recovery : Bool) (zero_time infinity bound time : ℕ) (queue : List (Entry S))
      → bound ≤ time
      → (bound == infinity) ≡ false
      → answer_from opt_fossil in_recovery zero_time time (collect infinity bound queue)
        ≡ answer_from opt_fossil in_recovery zero_time time queue
  unfolding collect lower_bound
  answer-collect opt_fossil in_recovery zero_time infinity bound time [] le ne = rw ne refl
  answer-collect opt_fossil in_recovery zero_time infinity bound time (e ∷ es) le ne =
      let (f, fs, same) = drop-lower bound e es in
      let latest = unwind-drop bound time (e ∷ es) le in
      rw (ne, same) (ap answer_of (rw same at latest))

  -- If the time of a collection is not infinity, a restoration to that time or a later one hands out
  -- the same state, at the same time, whether the fossils were collected or not.
  pub restore-fossil_collect :
      (opt_fossil in_recovery : Bool) (zero_time infinity : ℕ) (m : StateManager S)
      (id bound time : ℕ)
      → bound ≤ time
      → bound ≢ infinity
      → answer (
          restore_state opt_fossil in_recovery zero_time
            (fossil_collect infinity m id bound).0
            time
            id)
        ≡ answer (restore_state opt_fossil in_recovery zero_time m time id)
  unfolding fossil_collect
  restore-fossil_collect opt_fossil in_recovery zero_time infinity m id bound time le ne =
      answer-restore opt_fossil in_recovery zero_time time id (fossil_collect infinity m id bound).0
        (collect infinity bound (m.state_queue id))
        (update_self m.state_queue id (collect infinity bound (m.state_queue id)))
      ∙ answer-collect opt_fossil in_recovery zero_time infinity bound time (m.state_queue id) le
          (ground (arith, ne))
      ∙ sym (answer-restore opt_fossil in_recovery zero_time time id m (m.state_queue id) refl)

  take-old :
      (bound k : ℕ) (queue : List (Entry S))
      → k ≤ lower_bound bound queue
      → All (λ e. e.main_time < bound) (take k queue)
  unfolding lower_bound
  take-old bound zero queue h = tt
  take-old bound (suc k) [] h = tt
  take-old bound (suc k) (e ∷ es) h = elim (Bool-cases (ltb e.main_time bound)) [
    | inl t ↦ (ground arith, take-old bound k es (ground arith))
    | inr t ↦ absurd (ground arith)
  ]

  drop-young :
      (bound : ℕ) (queue : List (Entry S))
      → Sorted (time_order S) queue
      → All (λ e. bound ≤ e.main_time) (drop (lower_bound bound queue) queue)
  unfolding lower_bound earlier
  drop-young bound [] s = tt
  drop-young bound (e ∷ es) s = elim (Bool-cases (ltb e.main_time bound)) [
    | inl t ↦ rw t (drop-young bound es s.1)
    | inr t ↦ rw t (
      ground arith,
      All-map (Le (time_order S) e) (λ x. bound ≤ x.main_time) (λ x h. ground arith) es s.0,
    )
  ]

  -- What a collection before a time does to the queue of one object.
  pub record KeepsOne (m n : StateManager S) (id bound answer infinity : ℕ) : Type 0 where
    pub gone : List (Entry S)
    pub split : gone ++ n.state_queue id ≡ m.state_queue id
    pub old : All (λ e. e.main_time < bound) gone
    pub young : All (λ e. bound ≤ e.main_time) (drop 1 (n.state_queue id))
    pub marker :
        All (λ e. bound ≤ e.main_time) (m.state_queue id)
        ⊎ ((e : Entry S) × (es : List (Entry S)) × (n.state_queue id ≡ e ∷ es)
            × (e.main_time < bound))
    pub lowest_left : answer ≡ lowest infinity (n.state_queue id)
    pub others : (j : ℕ) → j ≢ id → n.state_queue j ≡ m.state_queue j

  drop_once : (k : ℕ) (queue : List (Entry S)) → drop 1 (drop k queue) ≡ drop (suc k) queue
  drop_once zero queue = refl
  drop_once (suc k) [] = refl
  drop_once (suc k) (e ∷ es) = drop_once k es

  drop-before :
      (bound k : ℕ) (queue : List (Entry S))
      → All (λ e. bound ≤ e.main_time) (drop k queue)
      → All (λ e. bound ≤ e.main_time) (drop 1 (drop (k - 1) queue))
  drop-before bound zero [] h = tt
  drop-before bound zero (e ∷ es) h = h.1
  drop-before bound (suc k) queue h =
      let less : suc k - 1 ≡ k = omega arith in
      rw less (subst (All (λ e. bound ≤ e.main_time)) (sym (drop_once k queue)) h)

  -- The state in front of the lower bound is before the bound.
  drop-marker :
      (bound j : ℕ) (queue : List (Entry S))
      → lower_bound bound queue ≡ suc j
      → (e : Entry S) × (es : List (Entry S)) × (drop j queue ≡ e ∷ es) × (e.main_time < bound)
  unfolding lower_bound
  drop-marker bound j [] h = absurd (omega (arith, h))
  drop-marker bound zero (e ∷ es) h = elim (Bool-cases (ltb e.main_time bound)) [
    | inl t ↦ (e, es, refl, ground arith)
    | inr t ↦ absurd (ground (arith, h, t))
  ]
  drop-marker bound (suc j) (e ∷ es) h = elim (Bool-cases (ltb e.main_time bound)) [
    | inl t ↦ drop-marker bound j es (ground (arith, h, t))
    | inr t ↦ absurd (ground (arith, h, t))
  ]

  -- A state before the bound is left in front, unless there was none.
  marked :
      (bound k : ℕ) (queue : List (Entry S))
      → lower_bound bound queue ≡ k
      → All (λ e. bound ≤ e.main_time) (drop k queue)
      → All (λ e. bound ≤ e.main_time) queue
        ⊎ ((e : Entry S) × (es : List (Entry S)) × (drop (k - 1) queue ≡ e ∷ es)
            × (e.main_time < bound))
  marked bound zero queue h young = inl young
  marked bound (suc j) queue h young =
      let less : suc j - 1 ≡ j = omega arith in inr (rw less (drop-marker bound j queue h))

  pub collect_lem :
      (infinity bound : ℕ) (queue : List (Entry S))
      → bound ≢ infinity
      → collect infinity bound queue ≡ drop (lower_bound bound queue - 1) queue
  unfolding collect
  collect_lem infinity bound queue ne = elim (Bool-cases (bound == infinity)) [
    | inl t ↦ absurd (ne (ground arith))
    | inr t ↦ rw t refl
  ]

  -- A collection before a finite time takes states from the front of a queue in order, all of them
  -- before the time. If the queue had states before the time, it keeps exactly one of them, in front;
  -- and the lowest time that is left is reported.
  pub fossil_collect-KeepsOne :
      (infinity : ℕ) (m : StateManager S) (id bound : ℕ)
      → Sorted (time_order S) (m.state_queue id)
      → bound ≢ infinity
      → KeepsOne m
          (fossil_collect infinity m id bound).0
          id
          bound
          (fossil_collect infinity m id bound).1
          infinity
  unfolding fossil_collect
  fossil_collect-KeepsOne infinity m id bound s ne =
      let queue = m.state_queue id in
      let k = lower_bound bound queue - 1 in
      let here = update_self m.state_queue id (collect infinity bound queue) in
      let left = here ∙ collect_lem infinity bound queue ne in
      record {
        gone = take k queue;
        split = ap (λ l. take k queue ++ l) left ∙ take-append-drop k queue;
        old = take-old bound k queue (omega arith);
        young =
            subst (λ l. All (λ e. bound ≤ e.main_time) (drop 1 l)) (sym left)
              (drop-before bound (lower_bound bound queue) queue (drop-young bound queue s));
        marker =
            subst
              (λ l.
                All (λ e. bound ≤ e.main_time) queue
                ⊎ ((e : Entry S) × (es : List (Entry S)) × (l ≡ e ∷ es) × (e.main_time < bound)))
              (sym left)
              (marked bound (lower_bound bound queue) queue refl (drop-young bound queue s));
        lowest_left = ap (lowest infinity) (sym here);
        others = λ j n. update_ne m.state_queue id j (collect infinity bound queue) n;
      }
