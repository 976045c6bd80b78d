-- ===== src/Stack.antt =====
-- StackOfPtr.h: the stack that keeps the nodes of processed events until they are freed. The list
-- has the pointers, the latest one first. `none` is a pointer that was left uninitialised: a full
-- stack moves to an array of twice its size, but as many bytes as it has pointers are copied, which is an
-- eighth of them where a pointer has eight bytes.
mod Tests
use pdes.Base.{
  ℕ, suc, ◌+◌, ◌*◌, ◌/◌, ◌≡◌, ◌≢◌, ◌≤◌, refl, List, [], ◌∷◌, Option, none, some, All, length, ltb,
  ◌==◌, true, false, ap, ◌∙◌, if◌then◌else◌, arith,
}

pub record StackOfPtr (A : Type 0) : Type 0 where
  pub size : ℕ
  pub pointers : List (Option A)

abbrev pub initial_size : ℕ
initial_size = 1000

abbrev pointer_bytes : ℕ
pointer_bytes = 8

module _ {A : Type 0} where
  abbrev pub empty : StackOfPtr A
  empty = record { size = initial_size; pointers = [] }

  -- The pointers of a new array whose first `count` ones have been copied.
  unfoldable pub copied : ℕ → List (Option A) → List (Option A)
  copied count [] = []
  copied count (p ∷ ps) = (if ltb (length ps) count then p else none) ∷ copied count ps

  abbrev pub grow : StackOfPtr A → StackOfPtr A
  grow s = record { size = s.size * 2; pointers = copied (s.size / pointer_bytes) s.pointers }

  abbrev pub push : StackOfPtr A → A → StackOfPtr A
  push s a = record s { pointers = some a ∷ s.pointers }

  unfoldable pub insert : StackOfPtr A → A → StackOfPtr A
  insert s a = if length s.pointers == s.size then push (grow s) a else push s a

  -- `remove` until it gives null, each pointer deleted; a fault if one is not a node's.
  unfoldable pub delete_from : ℕ → List (Option A) → Option (StackOfPtr A)
  delete_from size [] = some (record { size = size; pointers = [] })
  delete_from size (none ∷ ps) = none
  delete_from size (some x ∷ ps) = delete_from size ps

  unfoldable pub delete_all : StackOfPtr A → Option (StackOfPtr A)
  delete_all s = delete_from s.size s.pointers

  -- All pointers are initialised, and there is room for more at the first size.
  pub record IsWhole (room : ℕ) (s : StackOfPtr A) : Type 0 where
    pub initialised : All (λ p. p ≢ none) s.pointers
    pub first_size : s.size ≡ initial_size
    pub spare : length s.pointers + room ≤ s.size

  pub empty-IsWhole : IsWhole initial_size empty
  empty-IsWhole = record { initialised = tt; first_size = refl; spare = omega arith }

  pub insert-IsWhole :
      (room : ℕ) (s : StackOfPtr A) (a : A) → IsWhole (suc room) s → IsWhole room (insert s a)
  unfolding insert
  insert-IsWhole room s a w =
      let short : (length s.pointers == s.size) ≡ false = ground (arith, w.spare) in
      rw short (record {
        initialised = (λ e. cc, w.initialised);
        first_size = w.first_size;
        spare = (let h = w.spare in omega (arith, h));
      })

  delete_from_lem :
      (size : ℕ) (ps : List (Option A))
      → All (λ p. p ≢ none) ps
      → delete_from size ps ≡ some (record { size = size; pointers = [] })
  unfolding delete_from
  delete_from_lem size [] h = refl
  delete_from_lem size (none ∷ ps) h = absurd (h.0 refl)
  delete_from_lem size (some x ∷ ps) h = delete_from_lem size ps h.1

  pub delete_all-IsWhole :
      (room : ℕ) (s : StackOfPtr A)
      → IsWhole room s
      → (t : StackOfPtr A) × (delete_all s ≡ some t) × IsWhole initial_size t
  unfolding delete_all
  delete_all-IsWhole room s w = (
    record { size = s.size; pointers = [] },
    delete_from_lem s.size s.pointers w.initialised,
    record {
      initialised = tt;
      first_size = w.first_size;
      spare = (let h = w.first_size in omega (arith, h));
    },
  )

  emptied_by_growth :
      (size count : ℕ) (a : A) (p : Option A) (ps : List (Option A))
      → count ≤ length ps
      → delete_from size (some a ∷ copied count (p ∷ ps)) ≡ none
  unfolding delete_from copied
  emptied_by_growth size count a p ps h =
      let past : ltb (length ps) count ≡ false = ground (arith, h) in rw past refl

  -- A stack that has its first size and is full loses pointers when one more is inserted: freeing its
  -- elements then ends in a fault.
  pub delete_all-insert :
      (s : StackOfPtr A) (a : A)
      → s.size ≡ initial_size
      → length s.pointers ≡ s.size
      → delete_all (insert s a) ≡ none
  unfolding insert delete_all
  delete_all-insert s a first full = at_pointers s.pointers refl
    where
      grown : insert s a ≡ push (grow s) a
      grown =
          let is_full : (length s.pointers == s.size) ≡ true = ground (arith, full) in
          rw is_full refl

      at_pointers : (ps : List (Option A)) → s.pointers ≡ ps → delete_all (insert s a) ≡ none
      at_pointers [] h = absurd (omega (arith, first, full, ap length h))
      at_pointers (p ∷ ps) h =
          ap delete_all grown
          ∙ ap (λ qs. delete_from (s.size * 2) (some a ∷ copied (s.size / pointer_bytes) qs)) h
          ∙ emptied_by_growth (s.size * 2) (s.size / pointer_bytes) a p ps
              (rw first (omega (arith, first, full, ap length h)))
