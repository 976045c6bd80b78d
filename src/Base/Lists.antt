-- ===== src/Base/Lists.antt =====
-- Lists over the native numbers, predicates on all their entries, and splitting at a test.
use Prim.Native.Nat.{ℕ, zero, suc, ◌+◌}
use mathlib.Core.Bool.{Bool, true, false, not}
use mathlib.Core.HLevel.{×_prop, Unit-prop}
use mathlib.Core.List.{List, [], ◌∷◌, ◌++◌, Perm, perm_middle, Permᴰ}
use mathlib.Core.List.Perm
use mathlib.Core.Logic.{◌⊎◌, inl, inr, ∥∥₁_elim}
use mathlib.Core.Option.{Option, none, some, some-injective}
use mathlib.Core.Path.{◌≡◌, refl, subst, ap}
use native.Mathlib.Omega.{arith}
use pdes.Base.Tests.{if◌then◌else◌, Bool-cases}

abbrev pub behind {ℓ} : {A : Type ℓ} → A → Option (A × List A) → Option (A × List A)
behind x none = none
behind x (some (y, ys)) = some (y, x ∷ ys)

abbrev pub later {ℓ} : {A : Type ℓ} → Option (ℕ × A) → Option (ℕ × A)
later none = none
later (some (k, x)) = some (suc k, x)

module _ {ℓ} {A : Type ℓ} where
  abbrev pub length : List A → ℕ
  length [] = 0
  length (x ∷ xs) = suc (length xs)

  abbrev pub take : ℕ → List A → List A
  take zero xs = []
  take (suc n) [] = []
  take (suc n) (x ∷ xs) = x ∷ take n xs

  abbrev pub drop : ℕ → List A → List A
  drop zero xs = xs
  drop (suc n) [] = []
  drop (suc n) (x ∷ xs) = drop n xs

  abbrev pub get_elem? : List A → ℕ → Option A
  get_elem? [] i = none
  get_elem? (x ∷ xs) zero = some x
  get_elem? (x ∷ xs) (suc i) = get_elem? xs i

  abbrev pub head? : List A → Option A
  head? [] = none
  head? (x ∷ xs) = some x

  abbrev pub erase_at : ℕ → List A → List A
  erase_at i [] = []
  erase_at zero (x ∷ xs) = xs
  erase_at (suc i) (x ∷ xs) = x ∷ erase_at i xs

  pub take-append-drop : (n : ℕ) (xs : List A) → take n xs ++ drop n xs ≡ xs
  take-append-drop zero xs = refl
  take-append-drop (suc n) [] = refl
  take-append-drop (suc n) (x ∷ xs) = rw (take-append-drop n xs)

  pub length-append : (xs ys : List A) → length (xs ++ ys) ≡ length xs + length ys
  length-append [] ys = omega arith
  length-append (x ∷ xs) ys = omega (arith, length-append xs ys)

  unfoldable pub insert_at : ℕ → A → List A → List A
  insert_at k x ys = take k ys ++ x ∷ drop k ys

  pub length-insert_at : (k : ℕ) (x : A) (xs : List A) → length (insert_at k x xs) ≡ suc (length xs)
  unfolding insert_at
  length-insert_at zero x xs = refl
  length-insert_at (suc k) x [] = refl
  length-insert_at (suc k) x (y ∷ xs) = ap suc (length-insert_at k x xs)

  -- The entries that pass a test, and the longest front of such entries with its rest.
  unfoldable pub keep : (A → Bool) → List A → List A
  keep p [] = []
  keep p (x ∷ xs) = if p x then x ∷ keep p xs else keep p xs

  unfoldable pub front : (A → Bool) → List A → List A
  front p [] = []
  front p (x ∷ xs) = if p x then x ∷ front p xs else []

  unfoldable pub rest : (A → Bool) → List A → List A
  rest p [] = []
  rest p (x ∷ xs) = if p x then rest p xs else x ∷ xs

  pub front-append-rest : (p : A → Bool) (xs : List A) → front p xs ++ rest p xs ≡ xs
  unfolding front rest
  front-append-rest p [] = refl
  front-append-rest p (x ∷ xs) = ground (arith, front-append-rest p xs)

  pub keep-perm : (p : A → Bool) (xs : List A) → Perm (keep p xs ++ keep (λ x. not (p x)) xs) xs
  unfolding keep
  keep-perm p [] = Perm.refl []
  keep-perm p (x ∷ xs) = elim (Bool-cases (p x)) [
    | inl e ↦ rw e (Perm.cons x (keep-perm p xs))
    | inr e ↦ rw e (
        Perm.trans (perm_middle (keep p xs) (keep (λ x. not (p x)) xs))
          (Perm.cons x (keep-perm p xs)))
  ]

  -- The first entry that passes a test, and the list without it.
  unfoldable pub extract : (A → Bool) → List A → Option (A × List A)
  extract p [] = none
  extract p (x ∷ xs) = if p x then some (x, xs) else behind x (extract p xs)

  -- The position of the first entry that passes a test, with the entry.
  unfoldable pub find_index : (A → Bool) → List A → Option (ℕ × A)
  find_index p [] = none
  find_index p (x ∷ xs) = if p x then some (0, x) else later (find_index p xs)

  unfoldable pub last? : List A → Option A
  last? [] = none
  last? (x ∷ []) = some x
  last? (x ∷ y ∷ xs) = last? (y ∷ xs)

  abbrev pub All {κ} : (A → Type κ) → List A → Type κ
  All P [] = Unit
  All P (x ∷ xs) = P x × All P xs

module _ {ℓ κ} {A : Type ℓ} (P : A → Type κ) where
  pub All-erase_at : (k : ℕ) (xs : List A) → All P xs → All P (erase_at k xs)
  All-erase_at k [] h = tt
  All-erase_at zero (x ∷ xs) h = h.1
  All-erase_at (suc k) (x ∷ xs) h = (h.0, All-erase_at k xs h.1)

  pub All-get_elem? : (k : ℕ) (xs : List A) {x : A} → get_elem? xs k ≡ some x → All P xs → P x
  All-get_elem? k [] e h = cc
  All-get_elem? zero (x ∷ xs) e h = subst P (some-injective _ _ e) h.0
  All-get_elem? (suc k) (x ∷ xs) e h = All-get_elem? k xs e h.1

  pub All-append : (xs ys : List A) → All P xs → All P ys → All P (xs ++ ys)
  All-append [] ys h k = k
  All-append (x ∷ xs) ys h k = (h.0, All-append xs ys h.1 k)

  pub All-left : (xs ys : List A) → All P (xs ++ ys) → All P xs
  All-left [] ys h = tt
  All-left (x ∷ xs) ys h = (h.0, All-left xs ys h.1)

  pub All-right : (xs ys : List A) → All P (xs ++ ys) → All P ys
  All-right [] ys h = h
  All-right (x ∷ xs) ys h = All-right xs ys h.1

module _ {ℓ κ} {A : Type ℓ} (P : A → Type κ) where
  All-permᴰ : {xs ys : List A} → Permᴰ xs ys → All P xs → All P ys
  All-permᴰ Permᴰ.nil h = tt
  All-permᴰ (Permᴰ.cons e p) h = (subst P e h.0, All-permᴰ p h.1)
  All-permᴰ (Permᴰ.swap e f) h = (subst P f h.1.0, (subst P e h.0, h.1.1))
  All-permᴰ (Permᴰ.trans p q) h = All-permᴰ q (All-permᴰ p h)

  All-prop : ((x : A) → IsProp (P x)) → (xs : List A) → IsProp (All P xs)
  All-prop prop [] = Unit-prop
  All-prop prop (x ∷ xs) = ×_prop (prop x) (All-prop prop xs)

  -- What holds of all entries holds of them in any order.
  pub All-perm : ((x : A) → IsProp (P x)) → {xs ys : List A} → Perm xs ys → All P xs → All P ys
  All-perm prop {ys = ys} p h = ∥∥₁_elim p (All-prop prop ys) (λ q. All-permᴰ q h)

module _ {ℓ κ μ} {A : Type ℓ} (P : A → Type κ) (Q : A → Type μ) where
  pub All-map : ((x : A) → P x → Q x) → (xs : List A) → All P xs → All Q xs
  All-map f [] h = tt
  All-map f (x ∷ xs) h = (f x h.0, All-map f xs h.1)

behind-some {ℓ} :
    {A : Type ℓ} (x : A) (o : Option (A × List A)) {y : A} {ys : List A}
    → behind x o ≡ some (y, ys)
    → (zs : List A) × (o ≡ some (y, zs)) × (ys ≡ x ∷ zs)
behind-some x none h = cc
behind-some x (some (z, zs)) h = (zs, ground arith, ground arith)

behind-none {ℓ} : {A : Type ℓ} (x : A) (o : Option (A × List A)) → behind x o ≡ none → o ≡ none
behind-none x none h = refl
behind-none x (some o) h = cc

module _ {ℓ} {A : Type ℓ} (p : A → Bool) where
  pub front-All : (xs : List A) → All (λ x. p x ≡ true) (front p xs)
  unfolding front
  front-All [] = tt
  front-All (x ∷ xs) = ground (arith, front-All xs)

  pub keep-All : (xs : List A) → All (λ x. p x ≡ true) (keep p xs)
  unfolding keep
  keep-All [] = tt
  keep-All (x ∷ xs) = ground (arith, keep-All xs)

  pub rest-All {κ} : (P : A → Type κ) (xs : List A) → All P xs → All P (rest p xs)
  unfolding rest
  rest-All P [] h = tt
  rest-All P (x ∷ xs) h = ground (arith, rest-All P xs h.1)

  pub front-All_of_All {κ} : (P : A → Type κ) (xs : List A) → All P xs → All P (front p xs)
  unfolding front
  front-All_of_All P [] h = tt
  front-All_of_All P (x ∷ xs) h = ground (arith, front-All_of_All P xs h.1)

  pub keep-All_of_All {κ} : (P : A → Type κ) (xs : List A) → All P xs → All P (keep p xs)
  unfolding keep
  keep-All_of_All P [] h = tt
  keep-All_of_All P (x ∷ xs) h = ground (arith, keep-All_of_All P xs h.1)

  pub extract-cons_cases :
      (x : A) (xs : List A) {y : A} {ys : List A}
      → extract p (x ∷ xs) ≡ some (y, ys)
      → ((p x ≡ true) × (x ≡ y) × (xs ≡ ys))
        ⊎ ((zs : List A) × (p x ≡ false) × (extract p xs ≡ some (y, zs)) × (ys ≡ x ∷ zs))
  unfolding extract
  extract-cons_cases x xs h = elim (Bool-cases (p x)) [
    | inl e ↦ inl (e, ground arith, ground arith)
    | inr e ↦
        let (zs, found, eq) = behind-some x (extract p xs) (ground arith) in inr (zs, e, found, eq)
  ]

  -- What `extract` takes out passes the test, and all else stays.
  pub extract-some :
      (xs : List A) {y : A} {ys : List A}
      → extract p xs ≡ some (y, ys)
      → (p y ≡ true) × Perm xs (y ∷ ys)
  unfolding extract
  extract-some [] h = cc
  extract-some (x ∷ xs) {y} h = elim (extract-cons_cases x xs h) [
    | inl (e, here, same) ↦ (rw (← here) e, rw (here, same) (Perm.refl _))
    | inr (zs, e, found, same) ↦
        let (t, perm) = extract-some xs found in
        (t, rw same (Perm.trans (Perm.cons x perm) (Perm.swap y x zs)))
  ]

  pub extract-All {κ} :
      (P : A → Type κ) (xs : List A) {y : A} {ys : List A}
      → extract p xs ≡ some (y, ys)
      → All P xs
      → P y × All P ys
  unfolding extract
  extract-All P [] h k = cc
  extract-All P (x ∷ xs) h k = elim (extract-cons_cases x xs h) [
    | inl (e, here, same) ↦ (subst P here k.0, subst (All P) same k.1)
    | inr (zs, e, found, same) ↦
        let (t, others) = extract-All P xs found k.1 in (t, rw same (k.0, others))
  ]

  -- `extract` at a list with one more entry at its end.
  pub extract-snoc :
      (xs : List A) (y : A)
      → extract p xs ≡ none
      → p y ≡ true
      → extract p (xs ++ y ∷ []) ≡ some (y, xs)
  unfolding extract
  extract-snoc [] y h e = rw e
  extract-snoc (x ∷ xs) y h e = elim (Bool-cases (p x)) [
    | inl t ↦ absurd (ground arith)
    | inr t ↦ rw (t, extract-snoc xs y (behind-none x _ (ground arith)) e)
  ]

-- Two facts about all entries, joined.
pub All-map2 {ℓ κ μ ν} :
    {A : Type ℓ} (P : A → Type κ) (Q : A → Type μ) (R : A → Type ν)
    → ((x : A) → P x → Q x → R x)
    → (xs : List A) → All P xs
    → All Q xs
    → All R xs
All-map2 P Q R f [] h k = tt
All-map2 P Q R f (x ∷ xs) h k = (f x h.0 k.0, All-map2 P Q R f xs h.1 k.1)
