-- ===== src/Base/Maps.antt =====
-- Vectors and maps as functions of a number, with one entry written.
use pdes.Base.{ℕ, ◌≡◌, ◌≢◌, sym, subst, inl, inr, ◌==◌, Bool-cases, update, arith}

-- A property of the entries survives a write that has it.
pub update-All {ℓ} :
    {A : Type 0} (P : ℕ → A → Type ℓ) (f : ℕ → A) (i : ℕ) (q : A)
    → ((j : ℕ) → P j (f j))
    → P i q
    → (j : ℕ) → P j (update f i q j)
update-All P f i q h k j = elim (Bool-cases (j == i)) [
  | inl t ↦ let same : j ≡ i = ground arith in rw t (subst (λ n. P n q) (sym same) k)
  | inr t ↦ rw t (h j)
]

pub update_self {ℓ} : {A : Type ℓ} (f : ℕ → A) (i : ℕ) (q : A) → update f i q i ≡ q
update_self f i q = ground arith

pub update_ne {ℓ} : {A : Type ℓ} (f : ℕ → A) (i j : ℕ) (q : A) → j ≢ i → update f i q j ≡ f j
update_ne f i j q h = ground arith
