-- ===== src/Base/Permutations.antt =====
-- Rearrangements of joined lists.
use mathlib.Core.List.Perm
use mathlib.Core.List.{append_assoc, append-nil, perm_append_comm, perm_middle, Permᴰ}
use mathlib.Core.Logic.{∥∥₁_elim}
use native.Mathlib.Nat.{ℕ_set}
use pdes.Base.{List, [], ◌∷◌, ◌++◌, Perm, subst, length, ◌≡◌, refl, ap, ◌∙◌, suc}

module _ {ℓ} {A : Type ℓ} where
  -- A list at the end, moved one place forward.
  pub perm_swap_right : (xs ys zs : List A) → Perm (xs ++ ys ++ zs) (xs ++ zs ++ ys)
  perm_swap_right xs ys zs =
      rw (append_assoc xs ys zs, append_assoc xs zs ys)
        (Perm.append_left xs (perm_append_comm ys zs))

  pub perm_interchange :
      (ws xs ys zs : List A) → Perm ((ws ++ xs) ++ (ys ++ zs)) ((ws ++ ys) ++ (xs ++ zs))
  perm_interchange ws xs ys zs =
      rw (← append_assoc (ws ++ xs) ys zs, ← append_assoc (ws ++ ys) xs zs)
        (Perm.append_right zs (perm_swap_right ws xs ys))

  -- An entry put at the end of a list stands before all else, up to order.
  pub perm_snoc : (xs : List A) (x : A) → Perm (xs ++ x ∷ []) (x ∷ xs)
  perm_snoc xs x = subst (λ t. Perm (xs ++ x ∷ []) (x ∷ t)) (append-nil xs) (perm_middle xs [])

  pub perm_snoc_left : (xs ys : List A) (x : A) → Perm (xs ++ x ∷ [] ++ ys) (x ∷ (xs ++ ys))
  perm_snoc_left xs ys x = Perm.append_right ys (perm_snoc xs x)

  pub perm_snoc_right : (xs ys : List A) (x : A) → Perm (xs ++ (ys ++ x ∷ [])) (x ∷ (xs ++ ys))
  perm_snoc_right xs ys x = rw (← append_assoc xs ys (x ∷ [])) (perm_snoc (xs ++ ys) x)

  length-permᴰ : {xs ys : List A} → Permᴰ xs ys → length xs ≡ length ys
  length-permᴰ Permᴰ.nil = refl
  length-permᴰ (Permᴰ.cons e p) = ap suc (length-permᴰ p)
  length-permᴰ (Permᴰ.swap e f) = refl
  length-permᴰ (Permᴰ.trans p q) = length-permᴰ p ∙ length-permᴰ q

  pub length-perm : {xs ys : List A} → Perm xs ys → length xs ≡ length ys
  length-perm p = ∥∥₁_elim p (ℕ_set _ _) length-permᴰ
