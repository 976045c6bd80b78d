-- ===== src/Base/Sorting.antt =====
-- Lists kept in order by a strict weak order, as `std::sort` and `std::multiset` of the C++
-- standard library keep them.
pub mod Hint
use mathlib.Core.List.{perm_middle}
use mathlib.Core.List.Perm
use pdes.Base.{
  ℕ, suc, ◌≡◌, inl, inr, Bool, true, false, not, List, [], ◌∷◌, ◌++◌, Perm, arith, All, All-map,
  All-left, All-right, length, take, drop, front, ltb, if◌then◌else◌, Bool-cases, extract,
  extract-All, extract-cons_cases, subst, some,
}

-- What the standard library asks of a comparison: irreflexive enough to be asymmetric, and with a
-- transitive "not after".
pub record StrictOrder {ℓ} (A : Type ℓ) : Type ℓ where
  pub less : A → A → Bool
  pub less_asymm : (a b : A) → less a b ≡ true → less b a ≡ false
  pub le_trans : (a b c : A) → less b a ≡ false → less c b ≡ false → less c a ≡ false

module _ {ℓ} {A : Type ℓ} (o : StrictOrder A) where
  -- `x` is not after `y`.
  abbrev pub Le : A → A → Type 0
  Le x y = o.less y x ≡ false

  abbrev pub Sorted : List A → Type 0
  Sorted [] = Unit
  Sorted (x ∷ xs) = All (Le x) xs × Sorted xs

  -- Behind all the entries that it is not before: `multiset::insert` with no hint.
  unfoldable pub insert : A → List A → List A
  insert x [] = x ∷ []
  insert x (y ∷ ys) = if o.less x y then x ∷ y ∷ ys else y ∷ insert x ys

  unfoldable pub sort : List A → List A
  sort [] = []
  sort (x ∷ xs) = insert x (sort xs)

  -- `multiset::insert` of a range.
  unfoldable pub insert_all : List A → List A → List A
  insert_all [] ys = ys
  insert_all (x ∷ xs) ys = insert_all xs (insert x ys)

  -- The first position whose entry is not before `x`, and the first whose entry is after it.
  unfoldable pub lower_bound : A → List A → ℕ
  lower_bound x [] = 0
  lower_bound x (y ∷ ys) = if o.less y x then suc (lower_bound x ys) else 0

  unfoldable pub upper_bound : A → List A → ℕ
  upper_bound x [] = 0
  upper_bound x (y ∷ ys) = if o.less x y then 0 else suc (upper_bound x ys)

  -- `multiset::insert` with a hint: as close to the hint as the order allows.
  unfoldable pub hint_position : ℕ → A → List A → ℕ
  hint_position hint x ys =
      if ltb hint (lower_bound x ys)
      then lower_bound x ys
      else if ltb (upper_bound x ys) hint
      then upper_bound x ys
      else hint

module _ {ℓ} {A : Type ℓ} (o : StrictOrder A) where
  pub insert-All {κ} :
      (P : A → Type κ) (x : A) (ys : List A) → P x → All P ys → All P (insert o x ys)
  unfolding insert
  insert-All P x [] h k = (h, tt)
  insert-All P x (y ∷ ys) h k = ground (arith, insert-All P x ys h k.1)

  pub insert-Sorted : (x : A) (ys : List A) → Sorted o ys → Sorted o (insert o x ys)
  unfolding insert
  insert-Sorted x [] s = (tt, tt)
  insert-Sorted x (y ∷ ys) s = elim (Bool-cases (o.less x y)) [
    | inl e ↦ rw e (
      (
        o.less_asymm x y e,
        All-map (Le o y) (Le o x) (λ z h. o.le_trans x y z (o.less_asymm x y e) h) ys s.0,
      ),
      s,
    )
    | inr e ↦ rw e (insert-All (Le o y) x ys e s.0, insert-Sorted x ys s.1)
  ]

  pub insert-perm : (x : A) (ys : List A) → Perm (insert o x ys) (x ∷ ys)
  unfolding insert
  insert-perm x [] = Perm.refl _
  insert-perm x (y ∷ ys) = elim (Bool-cases (o.less x y)) [
    | inl e ↦ rw e (Perm.refl _)
    | inr e ↦ rw e (Perm.trans (Perm.cons y (insert-perm x ys)) (Perm.swap x y ys))
  ]

  pub sort-Sorted : (xs : List A) → Sorted o (sort o xs)
  unfolding sort
  sort-Sorted [] = tt
  sort-Sorted (x ∷ xs) = insert-Sorted x (sort o xs) (sort-Sorted xs)

  pub sort-perm : (xs : List A) → Perm (sort o xs) xs
  unfolding sort
  sort-perm [] = Perm.refl []
  sort-perm (x ∷ xs) = Perm.trans (insert-perm x (sort o xs)) (Perm.cons x (sort-perm xs))

  pub sort-All {κ} : (P : A → Type κ) (xs : List A) → All P xs → All P (sort o xs)
  unfolding sort
  sort-All P [] h = tt
  sort-All P (x ∷ xs) h = insert-All P x (sort o xs) h.0 (sort-All P xs h.1)

  pub insert_all-Sorted : (xs ys : List A) → Sorted o ys → Sorted o (insert_all o xs ys)
  unfolding insert_all
  insert_all-Sorted [] ys s = s
  insert_all-Sorted (x ∷ xs) ys s = insert_all-Sorted xs (insert o x ys) (insert-Sorted x ys s)

  pub insert_all-perm : (xs ys : List A) → Perm (insert_all o xs ys) (xs ++ ys)
  unfolding insert_all
  insert_all-perm [] ys = Perm.refl ys
  insert_all-perm (x ∷ xs) ys =
      Perm.trans (insert_all-perm xs (insert o x ys))
        (Perm.trans (Perm.append_left xs (insert-perm x ys)) (perm_middle xs ys))

  pub insert_all-All {κ} :
      (P : A → Type κ) (xs ys : List A) → All P xs → All P ys → All P (insert_all o xs ys)
  unfolding insert_all
  insert_all-All P [] ys h k = k
  insert_all-All P (x ∷ xs) ys h k =
      insert_all-All P xs (insert o x ys) h.1 (insert-All P x ys h.0 k)

  pub Le_refl : (x : A) → Le o x x
  Le_refl x = elim (Bool-cases (o.less x x)) [ inl e ↦ o.less_asymm x x e | inr e ↦ e ]

  -- Both ends of a list in order are in order.
  pub Sorted-left : (xs ys : List A) → Sorted o (xs ++ ys) → Sorted o xs
  Sorted-left [] ys s = tt
  Sorted-left (x ∷ xs) ys s = (All-left (Le o x) xs ys s.0, Sorted-left xs ys s.1)

  pub Sorted-right : (xs ys : List A) → Sorted o (xs ++ ys) → Sorted o ys
  Sorted-right [] ys s = s
  Sorted-right (x ∷ xs) ys s = Sorted-right xs ys s.1

  -- All that stands before an entry is at or before it.
  pub Sorted-before :
      (xs : List A) (y : A) (ys : List A) → Sorted o (xs ++ y ∷ ys) → All (λ x. Le o x y) xs
  Sorted-before [] y ys s = tt
  Sorted-before (x ∷ xs) y ys s =
      ((All-right (Le o x) xs (y ∷ ys) s.0).0, Sorted-before xs y ys s.1)

  -- To take one entry out keeps the order.
  pub extract-Sorted :
      (p : A → Bool) (xs : List A) {y : A} {ys : List A}
      → extract p xs ≡ some (y, ys)
      → Sorted o xs
      → Sorted o ys
  unfolding extract
  extract-Sorted p [] h s = cc
  extract-Sorted p (x ∷ xs) h s = elim (extract-cons_cases p x xs h) [
    | inl (_, _, same) ↦ subst (Sorted o) same s.1
    | inr (zs, _, found, same) ↦
        rw same ((extract-All p (Le o x) xs found s.0).1, extract-Sorted p xs found s.1)
  ]
