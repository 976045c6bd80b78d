-- ===== src/State/Queue.antt =====
-- The loops on one queue: what they drop, and where they stop.
use pdes.Base.Sorting.{Sorted}
use pdes.Base.{
  ℕ, suc, ◌≤◌, ◌<◌, ◌≡◌, refl, ap, sym, inl, inr, Bool, true, false, List, [], ◌∷◌, ◌++◌, some,
  arith, ltb, Bool-cases, drop, last?, All, All-map, List-cases, ◌-◌, ◌∙◌,
}
use pdes.State.{Entry, time_order, drop_back, after, unwind, lower_bound, earlier}

module _ {A : Type 0} (p : A → Bool) where
  -- What is dropped passes the test.
  pub drop_back-split :
      (xs : List A) → (back : List A) × (drop_back p xs ++ back ≡ xs) × All (λ x. p x ≡ true) back
  unfolding drop_back
  drop_back-split [] = ([], refl, tt)
  drop_back-split (x ∷ xs) =
      let (back, e, h) = drop_back-split xs in
      elim (List-cases (drop_back p xs)) [
        | inl none_left ↦
            let all : back ≡ xs = ap (λ l. l ++ back) (sym none_left) ∙ e in
            elim (Bool-cases (p x)) [
              | inl t ↦ (x ∷ back, rw (none_left, drop_back, t) (ap (λ l. x ∷ l) all), (t, h))
              | inr t ↦ (back, rw (none_left, drop_back, t) (ap (λ l. x ∷ l) all), h)
            ]
        | inr (y, ys, some_left) ↦ (
          back,
          rw (some_left, drop_back) (ap (λ l. x ∷ l) (ap (λ l. l ++ back) (sym some_left) ∙ e)),
          h,
        )
      ]

  -- An entry that fails the test stays, with all before it.
  pub drop_back-stop :
      (x : A) (xs : List A) → p x ≡ false → drop_back p (x ∷ xs) ≡ x ∷ drop_back p xs
  unfolding drop_back
  drop_back-stop x xs h = elim (List-cases (drop_back p xs)) [
    | inl e ↦ rw (e, drop_back, h)
    | inr (y, ys, e) ↦ rw (e, drop_back)
  ]

  -- The last entry that stays fails the test.
  pub drop_back-last : (xs : List A) (x : A) → last? (drop_back p xs) ≡ some x → p x ≡ false
  unfolding drop_back last?
  drop_back-last [] x h = cc
  drop_back-last (y ∷ ys) x h = elim (List-cases (drop_back p ys)) [
    | inl e ↦ elim (Bool-cases (p y)) [
      | inl t ↦ absurd (ground (arith, e))
      | inr t ↦ ground (arith, e, t)
    ]
    | inr (z, zs, e) ↦ drop_back-last ys x (ground (arith, e))
  ]

last-cons : {A : Type 0} (x y : A) (ys : List A) → last? (x ∷ y ∷ ys) ≡ last? (y ∷ ys)
unfolding last?
last-cons x y ys = refl

last-some : {A : Type 0} (x : A) (xs : List A) → (y : A) × (last? (x ∷ xs) ≡ some y)
unfolding last?
last-some x [] = (x, refl)
last-some x (y ∷ ys) = last-some y ys

drop_more :
    {A : Type 0} (k : ℕ) (x : A) (xs : List A)
    → drop (suc (suc k) - 1) (x ∷ xs) ≡ drop (suc k - 1) xs
drop_more k x xs = let less : suc (suc k) - 1 ≡ suc (suc k - 1) = omega arith in rw less refl

module _ {S : Type 0} where
  unwind-cons :
      (time : ℕ) (e f : Entry S) (es : List (Entry S))
      → f.main_time ≤ time
      → last? (unwind time (e ∷ f ∷ es)) ≡ last? (unwind time (f ∷ es))
  unfolding unwind
  unwind-cons time e f es h =
      rw (drop_back-stop (after time) f es (ground arith))
        (last-cons e f (drop_back (after time) es))

  -- An entry that is not after the time hides all before it from a restoration.
  pub unwind-drop :
      (bound time : ℕ) (queue : List (Entry S))
      → bound ≤ time
      → last? (unwind time (drop (lower_bound bound queue - 1) queue)) ≡ last? (unwind time queue)
  unfolding lower_bound
  unwind-drop bound time [] h = refl
  unwind-drop bound time (e ∷ []) h = elim (Bool-cases (ltb e.main_time bound)) [
    | inl t ↦ rw t refl
    | inr t ↦ rw t refl
  ]
  unwind-drop bound time (e ∷ f ∷ es) h = elim (Bool-cases (ltb e.main_time bound)) [
    | inr t ↦ rw t refl
    | inl t ↦ elim (Bool-cases (ltb f.main_time bound)) [
      | inr u ↦ rw (t, u) refl
      | inl u ↦
          let rest = unwind-drop bound time (f ∷ es) h in
          rw (t, u)
            (ap (λ l. last? (unwind time l)) (drop_more (lower_bound bound es) e (f ∷ es))
              ∙ (rw u at rest)
              ∙ sym (unwind-cons time e f es (ground arith)))
    ]
  ]

  -- What is left of a queue begins with its first entry and ends at the time.
  pub unwind-split :
      (time : ℕ) (e : Entry S) (es : List (Entry S))
      → (back : List (Entry S)) × (unwind time (e ∷ es) ++ back ≡ e ∷ es)
        × All (λ x. time < x.main_time) back
  unfolding unwind
  unwind-split time e es =
      let (back, same, late) = drop_back-split (after time) es in
      (
        back,
        ap (λ l. e ∷ l) same,
        All-map (λ x. after time x ≡ true) (λ x. time < x.main_time) (λ x h. ground arith) back
            late,
      )

  pub unwind-last :
      (time : ℕ) (e : Entry S) (es : List (Entry S))
      → e.main_time ≤ time
      → (x : Entry S) × (last? (unwind time (e ∷ es)) ≡ some x) × (x.main_time ≤ time)
  unfolding unwind
  unwind-last time e es h = elim (List-cases (drop_back (after time) es)) [
    | inl none_left ↦ (e, rw none_left (unfold last? in refl), h)
    | inr (y, ys, some_left) ↦
        let (x, found) = last-some y ys in
        let kept = drop_back-last (after time) es x (rw some_left found) in
        (x, rw some_left (last-cons e y ys ∙ found), ground arith)
  ]

  -- In order, the last entry is a latest one.
  pub last-latest :
      (queue : List (Entry S)) (x : Entry S)
      → Sorted (time_order S) queue
      → last? queue ≡ some x
      → All (λ y. y.main_time ≤ x.main_time) queue
  unfolding last? earlier
  last-latest [] x s h = tt
  last-latest (y ∷ []) x s h = (ground arith, tt)
  last-latest (y ∷ z ∷ zs) x s h =
      let later = last-latest (z ∷ zs) x s.1 h in let next = s.0.0 in (ground arith, later)
