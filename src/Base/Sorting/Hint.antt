-- ===== src/Base/Sorting/Hint.antt =====
-- Insertion with a hint keeps the order, wherever the hint points.
use mathlib.Core.List.{perm_middle}
use mathlib.Core.List.Perm
use pdes.Base.Sorting.{StrictOrder, Le, Sorted, lower_bound, upper_bound, hint_position}
use pdes.Base.{
  ℕ, zero, suc, ◌≤◌, ◌≡◌, refl, inl, inr, false, List, [], ◌∷◌, Perm, arith, All, All-map, length,
  take, drop, insert_at, take-append-drop, Bool-cases,
}

module _ {ℓ} {A : Type ℓ} where
  pub insert_at-perm : (k : ℕ) (x : A) (ys : List A) → Perm (insert_at k x ys) (x ∷ ys)
  unfolding insert_at
  insert_at-perm k x ys =
      Perm.trans (perm_middle (take k ys) (drop k ys)) (rw (take-append-drop k ys) (Perm.refl _))

  pub insert_at-All {κ} :
      (P : A → Type κ) (k : ℕ) (x : A) (ys : List A) → P x → All P ys → All P (insert_at k x ys)
  unfolding insert_at
  insert_at-All P zero x ys h a = (h, a)
  insert_at-All P (suc k) x [] h a = (h, tt)
  insert_at-All P (suc k) x (y ∷ ys) h a = (a.0, insert_at-All P k x ys h a.1)

module _ {ℓ} {A : Type ℓ} (o : StrictOrder A) where
  before-All-lower : (x : A) (ys : List A) → All (Le o x) ys → lower_bound o x ys ≡ 0
  unfolding lower_bound
  before-All-lower x [] a = refl
  before-All-lower x (y ∷ ys) a = rw a.0

  -- Behind an entry that `x` is not after, `x` is not after any.
  Le-rest : (x y : A) (ys : List A) → Sorted o (y ∷ ys) → o.less y x ≡ false → All (Le o x) ys
  Le-rest x y ys s e = All-map (Le o y) (Le o x) (λ z h. o.le_trans x y z e h) ys s.0

  lower-step :
      (x y : A) (ys : List A) (k : ℕ)
      → Sorted o (y ∷ ys)
      → lower_bound o x (y ∷ ys) ≤ suc k
      → lower_bound o x ys ≤ k
  unfolding lower_bound
  lower-step x y ys k s h = elim (Bool-cases (o.less y x)) [
    | inl e ↦ ground arith
    | inr e ↦ rw (before-All-lower x ys (Le-rest x y ys s e)) (omega arith)
  ]

  pub bounds-le : (x : A) (ys : List A) → Sorted o ys → lower_bound o x ys ≤ upper_bound o x ys
  unfolding lower_bound upper_bound
  bounds-le x [] s = omega arith
  bounds-le x (y ∷ ys) s = ground (arith, bounds-le x ys s.1, o.less_asymm x y, o.less_asymm y x)

  pub insert_at-Sorted :
      (k : ℕ) (x : A) (ys : List A)
      → Sorted o ys
      → lower_bound o x ys ≤ k
      → k ≤ upper_bound o x ys
      → Sorted o (insert_at k x ys)
  unfolding insert_at
  insert_at-Sorted zero x [] s lo hi = (tt, tt)
  insert_at-Sorted zero x (y ∷ ys) s lo hi = elim (Bool-cases (o.less y x)) [
    | inl e ↦ absurd (unfold lower_bound in ground arith)
    | inr e ↦ ((e, Le-rest x y ys s e), s)
  ]
  insert_at-Sorted (suc k) x [] s lo hi = (tt, tt)
  insert_at-Sorted (suc k) x (y ∷ ys) s lo hi = elim (Bool-cases (o.less x y)) [
    | inl e ↦ absurd (unfold upper_bound in ground arith)
    | inr e ↦ (
      insert_at-All (Le o y) k x ys e s.0,
      insert_at-Sorted k x ys s.1 (lower-step x y ys k s lo) (unfold upper_bound in ground arith),
    )
  ]

  hint_position-bounds :
      (hint : ℕ) (x : A) (ys : List A)
      → Sorted o ys
      → (lower_bound o x ys ≤ hint_position o hint x ys)
        × (hint_position o hint x ys ≤ upper_bound o x ys)
  unfolding hint_position
  hint_position-bounds hint x ys s =
      let h : lower_bound o x ys ≤ upper_bound o x ys = bounds-le x ys s in
      (ground arith, ground arith)

  upper-le-length : (x : A) (ys : List A) → upper_bound o x ys ≤ length ys
  unfolding upper_bound
  upper-le-length x [] = omega arith
  upper-le-length x (y ∷ ys) = ground (arith, upper-le-length x ys)

  pub hint_position-le :
      (hint : ℕ) (x : A) (ys : List A) → Sorted o ys → hint_position o hint x ys ≤ length ys
  hint_position-le hint x ys s =
      omega (arith, (hint_position-bounds hint x ys s).1, upper-le-length x ys)

  -- The hint never breaks the order.
  pub insert_hint-Sorted :
      (hint : ℕ) (x : A) (ys : List A)
      → Sorted o ys
      → Sorted o (insert_at (hint_position o hint x ys) x ys)
  insert_hint-Sorted hint x ys s =
      let (lo, hi) = hint_position-bounds hint x ys s in
      insert_at-Sorted (hint_position o hint x ys) x ys s lo hi
