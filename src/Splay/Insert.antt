-- ===== src/Splay/Insert.antt =====
-- `insert` puts an element where it belongs.
use mathlib.Core.List.{append-nil}
use pdes.Base.{
  ℕ, ◌+◌, ◌≡◌, refl, sym, ◌∙◌, ap, inl, inr, true, false, Option, some, List, [], ◌∷◌, ◌++◌, length,
  head?, arith, Bool-cases,
}
use pdes.Event.{Event}
use pdes.Splay.Descend.{enqueue, enqueue-Sorted, descend-enqueue}
use pdes.Splay.First.{AllLeft, before-AllLeft, leftmost-in_order, address_of}
use pdes.Splay.InOrder.{in_order, before, after, around, in_order-splay}
use pdes.Splay.Valid.{IsValid, IsCurrent-leftmost, IsHead, current-IsHead, with_root}
use pdes.Splay.{
  Element, Tree, leaf, node, Step, left_of, Place, SplayTree, insert, insert_near, grown, splay,
  descend, not_after, leftmost, map_some,
}

abbrev pub new_element : SplayTree → Event → Element
new_element s e = record { address = s.next_address; event = e }

-- The tree after an insertion.
pub record IsInsertion (s : SplayTree) (x : Element) (t : SplayTree) : Type 0 where
  pub valid : IsValid t
  pub elements : in_order t.root ≡ enqueue x (in_order s.root)

length-enqueue : (x : Element) (xs : List Element) → length (enqueue x xs) ≡ length xs + 1
unfolding enqueue
length-enqueue x [] = refl
length-enqueue x (y ∷ xs) = elim (Bool-cases (not_after x.event y.event)) [
  | inl t ↦ rw t (omega arith)
  | inr t ↦ rw t (omega (arith, length-enqueue x xs))
]

pub leftmost-head :
    (t : Tree) {x : Element} {xs : List Element} → in_order t ≡ x ∷ xs → leftmost t ≡ some x.address
leftmost-head t e = leftmost-in_order t ∙ ap (λ zs. map_some address_of (head? zs)) e

grown-IsInsertion :
    (s : SplayTree) (x : Element) (t : Tree) (current : Option ℕ)
    → IsValid s
    → in_order t ≡ enqueue x (in_order s.root)
    → current ≡ leftmost t
    → IsInsertion s x (grown s x current t)
grown-IsInsertion s x t current v e c = record {
  valid = record {
    sorted = rw e (enqueue-Sorted x (in_order s.root) v.sorted);
    count = omega (arith, v.count, length-enqueue x (in_order s.root), ap length e);
    pointer = IsCurrent-leftmost t current c;
  };
  elements = e;
}

around_first :
    (x : Element) (p : Place)
    → AllLeft p.path
    → around (left_of p.element p.right ∷ p.path) (in_order (node leaf x leaf))
      ≡ x ∷ p.element ∷ (in_order p.right ++ after p.path)
unfolding around before after in_order
around_first x p h = rw (before-AllLeft p.path h) refl

around_one :
    (x : Element) (path : List Step)
    → around path (in_order (node leaf x leaf)) ≡ around path (x ∷ [])
unfolding in_order
around_one x path = refl

around_nothing : (xs : List Element) → around [] xs ≡ xs
unfolding around before after
around_nothing xs = append-nil xs

-- The new element before the first one, as its left child.
insert_first :
    (s : SplayTree) (x : Element) (p : Place)
    → IsValid s
    → IsHead s.root p
    → not_after x.event p.element.event ≡ true
    → IsInsertion s x (
        grown s x (some x.address) (
          splay (s.number_of_elements + 1) (left_of p.element p.right ∷ p.path) (node leaf x leaf)))
unfolding enqueue
insert_first s x p v h t =
    grown-IsInsertion s x _ (some x.address) v (e ∙ sym goes) (sym (leftmost-head _ e))
  where
    goes : enqueue x (in_order s.root) ≡ x ∷ p.element ∷ (in_order p.right ++ after p.path)
    goes = ap (enqueue x) h.elements ∙ rw t refl

    e :
        in_order
          (splay (s.number_of_elements + 1) (left_of p.element p.right ∷ p.path) (node leaf x leaf))
        ≡ x ∷ p.element ∷ (in_order p.right ++ after p.path)
    e =
        in_order-splay _ (left_of p.element p.right ∷ p.path) (node leaf x leaf)
        ∙ around_first x p h.is_left

-- The new element behind the first one, found from the root.
insert_later :
    (s : SplayTree) (x : Element) (p : Place)
    → IsValid s
    → IsHead s.root p
    → s.current ≡ some p.element.address
    → not_after x.event p.element.event ≡ false
    → IsInsertion s x (
        grown s x s.current
          (splay (s.number_of_elements + 1) (descend x.event s.root []) (node leaf x leaf)))
unfolding enqueue
insert_later s x p v h c t =
    grown-IsInsertion s x _ s.current v e (c ∙ sym (leftmost-head _ (e ∙ goes)))
  where
    goes : enqueue x (in_order s.root) ≡ p.element ∷ enqueue x (in_order p.right ++ after p.path)
    goes = ap (enqueue x) h.elements ∙ rw t refl

    e :
        in_order (splay (s.number_of_elements + 1) (descend x.event s.root []) (node leaf x leaf))
        ≡ enqueue x (in_order s.root)
    e =
        in_order-splay _ (descend x.event s.root []) (node leaf x leaf)
        ∙ around_one x (descend x.event s.root [])
        ∙ descend-enqueue x s.root [] v.sorted
        ∙ around_nothing (enqueue x (in_order s.root))

insert_near-IsInsertion :
    (s : SplayTree) (x : Element) (p : Place)
    → IsValid s
    → IsHead s.root p
    → s.current ≡ some p.element.address
    → IsInsertion s x (insert_near s x p)
insert_near-IsInsertion s x p v h c = elim (Bool-cases (not_after x.event p.element.event)) [
  | inl t ↦ rw t (insert_first s x p v h t)
  | inr t ↦ rw t (insert_later s x p v h c t)
]

insert_only :
    (s : SplayTree) (x : Element)
    → IsValid (with_root s leaf)
    → IsInsertion
        (with_root s leaf)
        x
        (grown (with_root s leaf) x (some x.address) (node leaf x leaf))
unfolding in_order enqueue leftmost
insert_only s x v =
    grown-IsInsertion (with_root s leaf) x (node leaf x leaf) (some x.address) v refl refl

insert_at_root :
    (t : Tree) (s : SplayTree) (e : Event)
    → IsValid (with_root s t)
    → (u : SplayTree) × (insert (with_root s t) e ≡ some u)
      × IsInsertion (with_root s t) (new_element s e) u
unfolding insert
insert_at_root leaf s e v = (_, refl, insert_only s (new_element s e) v)
insert_at_root (node l x r) s e v =
    let (p, found, h, c) = current-IsHead s l x r v in
    (_, rw found refl, insert_near-IsInsertion (with_root s (node l x r)) (new_element s e) p v h c)

-- `insert` on a valid tree ends without a fault, keeps the invariant, and puts the event in front
-- of the first one that `CompareEvent` does not find before it.
pub insert_lem :
    (s : SplayTree) (e : Event)
    → IsValid s
    → (u : SplayTree) × (insert s e ≡ some u) × IsInsertion s (new_element s e) u
insert_lem s e v = insert_at_root s.root s e v
