-- ===== src/Base/Int.antt =====
-- Signed integers over the native numbers, and sums of them.
use pdes.Base.{
  ℕ, zero, suc, ◌+◌, ◌-◌, ◌≤◌, ◌<◌, ◌≡◌, refl, ap, ◌∙◌, inl, inr, Bool, arith, leb, if◌then◌else◌,
  ◌==◌, update, Bool-cases,
}

-- `negsuc n` is -(n + 1).
pub data ℤ : Type 0 where
  pos : ℕ → ℤ
  negsuc : ℕ → ℤ

abbrev pub pos_part : ℤ → ℕ
pos_part (pos n) = n
pos_part (negsuc n) = 0

abbrev pub neg_part : ℤ → ℕ
neg_part (pos n) = 0
neg_part (negsuc n) = suc n

abbrev difference : ℕ → ℕ → ℤ
difference a b = if leb b a then pos (a - b) else negsuc (b - a - 1)

infixl 65 ◌+ℤ◌
infix 50 ◌≤ℤ◌
unfoldable pub ◌+ℤ◌ : ℤ → ℤ → ℤ
a +ℤ b = difference (pos_part a + pos_part b) (neg_part a + neg_part b)

abbrev pub ◌≤ℤ◌ : ℤ → ℤ → Type 0
a ≤ℤ b = pos_part a + neg_part b ≤ pos_part b + neg_part a

abbrev pub is_zero : ℤ → Bool
is_zero a = pos_part a == neg_part a

pub +ℤ_parts :
    (a b : ℤ)
    → pos_part (a +ℤ b) + neg_part a + neg_part b ≡ neg_part (a +ℤ b) + pos_part a + pos_part b
unfolding ◌+ℤ◌
+ℤ_parts a b = ground arith

pub decrement_nonpos : (a : ℤ) → pos_part a ≡ 0 → pos_part (a +ℤ negsuc 0) ≡ 0
unfolding ◌+ℤ◌
decrement_nonpos a h = ground arith

pub eq_of_parts : (a b : ℤ) → pos_part a + neg_part b ≡ pos_part b + neg_part a → a ≡ b
eq_of_parts a b h = ground arith

pub parts_of_eq : (a b : ℤ) → a ≡ b → pos_part a + neg_part b ≡ pos_part b + neg_part a
parts_of_eq a b h = rw h refl

pub ruleset int_laws = (arith, +ℤ_parts, eq_of_parts, parts_of_eq)

-- The sum of the first entries.
unfoldable pub sum : ℕ → (ℕ → ℤ) → ℤ
sum zero f = pos 0
sum (suc n) f = sum n f +ℤ f n

pub sum_zeros : (n : ℕ) → sum n (λ i. pos 0) ≡ pos 0
unfolding sum
sum_zeros zero = refl
sum_zeros (suc n) = let before = parts_of_eq _ _ (sum_zeros n) in omega (int_laws, before)

sum_beyond : (n i : ℕ) (f : ℕ → ℤ) (x : ℤ) → n ≤ i → sum n (update f i x) ≡ sum n f
unfolding sum
sum_beyond zero i f x h = refl
sum_beyond (suc n) i f x h =
    let rest : sum n (update f i x) ≡ sum n f = sum_beyond n i f x (omega arith) in
    let last : update f i x n ≡ f n = ground arith in rw (rest, last) refl

sum-suc : (n : ℕ) (f : ℕ → ℤ) → sum (suc n) f ≡ sum n f +ℤ f n
unfolding sum
sum-suc n f = refl

pub sum-update : (n i : ℕ) (f : ℕ → ℤ) (x : ℤ) → i < n → sum n (update f i x) +ℤ f i ≡ sum n f +ℤ x
sum-update zero i f x h = absurd (omega arith)
sum-update (suc n) i f x h = elim (Bool-cases (n == i)) [
  | inl e ↦
      let same : n ≡ i = ground arith in
      let at : f n ≡ f i = ap f same in
      rw (sum-suc n f, sum-suc n (update f i x), sum_beyond n i f x (omega arith), e, at)
        (omega int_laws)
  | inr e ↦
      let before = parts_of_eq _ _ (sum-update n i f x (ground arith)) in
      rw (sum-suc n f, sum-suc n (update f i x), e) (omega (int_laws, before))
]

-- With no positive entry behind the first, the sum is the first entry at most.
pub sum_first :
    (n : ℕ) (f : ℕ → ℤ) → ((i : ℕ) → 1 ≤ i → i < suc n → pos_part (f i) ≡ 0) → sum (suc n) f ≤ℤ f 0
unfolding sum
sum_first zero f h = omega int_laws
sum_first (suc n) f h =
    let rest = sum_first n f (λ i le lt. h i le (omega arith)) in
    let last = h (suc n) (omega arith) (omega arith) in omega int_laws

update_measure :
    {A : Type 0} (g : A → ℤ) (f : ℕ → A) (i : ℕ) (x : A) (j : ℕ)
    → g (update f i x j) ≡ update (λ k. g (f k)) i (g x) j
update_measure g f i x j = elim (Bool-cases (j == i)) [ inl e ↦ rw e refl | inr e ↦ rw e refl ]

-- The sum of a measure of the entries, with one entry written.
pub sum_measure :
    {A : Type 0} (g : A → ℤ) (n i : ℕ) (f : ℕ → A) (x : A)
    → i < n
    → sum n (λ j. g (update f i x j)) +ℤ g (f i) ≡ sum n (λ j. g (f j)) +ℤ g x
sum_measure g n i f x h =
    ap (λ s. sum n s +ℤ g (f i)) (λ k j. update_measure g f i x j k)
    ∙ sum-update n i (λ j. g (f j)) (g x) h
