-- ===== src/Splay/Erase/Search.antt =====
-- The search finds an event that compares equal, if there is one.
use Prim.Native.Nat.Ordering.{lt, eq, gt}
use Prim.Native.Nat.{Ordering}
use pdes.Base.Sorting.{Le, Sorted, Sorted-left, Sorted-right, Sorted-before}
use pdes.Base.{
  ◌≡◌, ◌≢◌, ◌⊎◌, inl, inr, refl, ◌∙◌, true, none, some, List, ◌∷◌, ◌++◌, All, All-map, All-append,
  arith,
}
use pdes.Event.{Event}
use pdes.Splay.Descend.{element_order}
use pdes.Splay.Erase.{search}
use pdes.Splay.InOrder.{in_order}
use pdes.Splay.{
  Element, Tree, leaf, node, Step, left_of, right_of, Place, subtree, rebuild, compare_event,
  not_after,
}

-- The event does not compare equal to the element's.
unfoldable pub Differs : Event → Element → Type 0
Differs e x = compare_event e x.event ≢ eq

-- What a search below a node finds.
pub record Finds (e : Event) (path : List Step) (t : Tree) (q : Place) : Type 0 where
  pub found : search e t path ≡ some q
  pub equal : compare_event e q.element.event ≡ eq
  pub whole : rebuild q.path (subtree q) ≡ rebuild path t

pub behind :
    (e : Event) (x y : Element) → compare_event e x.event ≡ lt → Le element_order x y → Differs e y
unfolding Differs compare_event not_after
behind e x y h k = λ q. ground arith

ahead :
    (e : Event) (x y : Element) → compare_event e x.event ≡ gt → Le element_order y x → Differs e y
unfolding Differs compare_event not_after
ahead e x y h k = λ q. ground arith

Ordering-cases : (o : Ordering) → (o ≡ lt) ⊎ ((o ≡ eq) ⊎ (o ≡ gt))
Ordering-cases lt = inl refl
Ordering-cases eq = inr (inl refl)
Ordering-cases gt = inr (inr refl)

pub earlier :
    (e : Event) (x : Element)
    → not_after e x.event ≡ true
    → Differs e x
    → compare_event e x.event ≡ lt
unfolding Differs not_after compare_event
earlier e x t d = elim (Ordering-cases (compare_event e x.event)) [
  | inl c ↦ c
  | inr (inl c) ↦ absurd (d c)
  | inr (inr c) ↦ absurd (ground arith)
]

module _ (e : Event) (l : Tree) (x : Element) (r : Tree) (path : List Step) where
  search-lt :
      compare_event e x.event ≡ lt → search e (node l x r) path ≡ search e l (left_of x r ∷ path)
  unfolding search
  search-lt c = rw (search, c)

  search-gt :
      compare_event e x.event ≡ gt → search e (node l x r) path ≡ search e r (right_of l x ∷ path)
  unfolding search
  search-gt c = rw (search, c)

  search-eq :
      compare_event e x.event ≡ eq
      → Finds e path (node l x r) (record { path = path; left = l; element = x; right = r })
  unfolding search
  search-eq c = record { found = rw (search, c); equal = c; whole = refl }

  -- None on the one side, and so none at all.
  none_behind :
      compare_event e x.event ≡ lt
      → Sorted element_order (in_order l ++ x ∷ in_order r)
      → All (Differs e) (in_order l)
      → All (Differs e) (in_order l ++ x ∷ in_order r)
  unfolding Differs
  none_behind c s h = All-append (Differs e) (in_order l) (x ∷ in_order r) h (
    (λ k. cc),
    All-map (Le element_order x) (Differs e) (λ y. behind e x y c) (in_order r)
        (Sorted-right element_order (in_order l) (x ∷ in_order r) s).0,
  )

  none_ahead :
      compare_event e x.event ≡ gt
      → Sorted element_order (in_order l ++ x ∷ in_order r)
      → All (Differs e) (in_order r)
      → All (Differs e) (in_order l ++ x ∷ in_order r)
  unfolding Differs
  none_ahead c s h =
      All-append (Differs e) (in_order l) (x ∷ in_order r)
        (All-map (λ y. Le element_order y x) (Differs e) (λ y. ahead e x y c) (in_order l)
          (Sorted-before element_order (in_order l) x (in_order r) s))
        ((λ k. cc), h)

pub search_lem :
    (e : Event) (t : Tree) (path : List Step)
    → Sorted element_order (in_order t)
    → ((search e t path ≡ none) × All (Differs e) (in_order t)) ⊎ ((q : Place) × Finds e path t q)
unfolding search in_order rebuild
search_lem e leaf path s = inl (refl, tt)
search_lem e (node l x r) path s = elim (Ordering-cases (compare_event e x.event)) [
  | inl c ↦
      elim (search_lem e l (left_of x r ∷ path)
        (Sorted-left element_order (in_order l) (x ∷ in_order r) s)) [
          | inl (n, h) ↦ inl (search-lt e l x r path c ∙ n, none_behind e l x r path c s h)
          | inr (q, f) ↦ inr (
            q,
            record { found = search-lt e l x r path c ∙ f.found; equal = f.equal; whole = f.whole },
          )
        ]
  | inr (inl c) ↦ inr (_, search-eq e l x r path c)
  | inr (inr c) ↦
      elim (search_lem e r (right_of l x ∷ path)
        (Sorted-right element_order (in_order l) (x ∷ in_order r) s).1) [
          | inl (n, h) ↦ inl (search-gt e l x r path c ∙ n, none_ahead e l x r path c s h)
          | inr (q, f) ↦ inr (
            q,
            record { found = search-gt e l x r path c ∙ f.found; equal = f.equal; whole = f.whole },
          )
        ]
]
