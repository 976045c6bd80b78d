-- ===== src/Stack/Tests.antt =====
-- A full stack, and what freeing its pointers does.
use pdes.Base.{ℕ, zero, suc, ◌≡◌, refl, ap, List, [], ◌∷◌, Option, none, some, length}
use pdes.Stack.{StackOfPtr, insert, delete_all, delete_from, copied, delete_all-insert}

unfoldable many : ℕ → List (Option ℕ)
many zero = []
many (suc n) = some n ∷ many n

length-many : (n : ℕ) → length (many n) ≡ n
unfolding many
length-many zero = refl
length-many (suc n) = ap suc (length-many n)

abbrev stack : ℕ → ℕ → StackOfPtr ℕ
stack size n = record { size = size; pointers = many n }

-- Of sixteen pointers two are copied.
copies : copied 2 (many 4) ≡ none ∷ none ∷ some 1 ∷ some 0 ∷ []
unfolding copied many
copies = refl

frees : delete_all (insert (stack 5 3) 7) ≡ some (stack 5 0)
unfolding delete_all delete_from insert many
frees = refl

fails : delete_all (insert (stack 5 5) 7) ≡ none
unfolding delete_all delete_from insert many copied
fails = refl

delete_all-insert_example : delete_all (insert (stack 1000 1000) 7) ≡ none
delete_all-insert_example = delete_all-insert (stack 1000 1000) 7 refl (length-many 1000)
