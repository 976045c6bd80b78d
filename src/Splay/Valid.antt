-- ===== src/Splay/Valid.antt =====
-- The invariant of the tree, and the place of its first element.
use pdes.Base.Sorting.{Sorted}
use pdes.Base.{ℕ, ◌≡◌, refl, sym, ◌∙◌, ap, Option, some, List, [], ◌∷◌, ◌++◌, length}
use pdes.Splay.Descend.{element_order}
use pdes.Splay.First.{AllLeft, IsFirst, first-IsFirst, follow-leftmost, before-AllLeft}
use pdes.Splay.InOrder.{in_order, after, around, in_order-rebuild}
use pdes.Splay.{
  Element, Tree, leaf, node, Step, Place, subtree, rebuild, SplayTree, empty, follow_current,
  leftmost,
}

-- The cached pointer is the one that walking to the left gives; in an empty tree nobody reads it.
unfoldable pub IsCurrent : Tree → Option ℕ → Type 0
IsCurrent leaf current = Unit
IsCurrent (node l x r) current = current ≡ leftmost (node l x r)

pub record IsValid (s : SplayTree) : Type 0 where
  pub sorted : Sorted element_order (in_order s.root)
  pub count : s.number_of_elements ≡ length (in_order s.root)
  pub pointer : IsCurrent s.root s.current

pub empty-IsValid : IsValid empty
unfolding in_order IsCurrent
empty-IsValid = record { sorted = tt; count = refl; pointer = tt }

pub leftmost-IsCurrent : (t : Tree) → IsCurrent t (leftmost t)
unfolding IsCurrent
leftmost-IsCurrent leaf = tt
leftmost-IsCurrent (node l x r) = refl

pub IsCurrent-leftmost : (t : Tree) (c : Option ℕ) → c ≡ leftmost t → IsCurrent t c
IsCurrent-leftmost t c h = rw h (leftmost-IsCurrent t)

-- What the elements say of the first place.
pub record IsHead (t : Tree) (p : Place) : Type 0 where
  pub is_left : AllLeft p.path
  pub is_end : p.left ≡ leaf
  pub whole : rebuild p.path (subtree p) ≡ t
  pub elements : in_order t ≡ p.element ∷ (in_order p.right ++ after p.path)

head-elements :
    (path : List Step) (l : Tree) (x : Element) (r : Tree)
    → AllLeft path
    → l ≡ leaf
    → in_order (rebuild path (node l x r)) ≡ x ∷ (in_order r ++ after path)
unfolding in_order around
head-elements path l x r h e =
    in_order-rebuild path (node l x r) ∙ rw (before-AllLeft path h, e) refl

IsFirst-IsHead : (t : Tree) (p : Place) → IsFirst t [] p → IsHead t p
unfolding rebuild
IsFirst-IsHead t p f = record {
  is_left = f.is_left;
  is_end = f.is_end;
  whole = f.whole;
  elements =
      ap in_order (sym f.whole) ∙ head-elements p.path p.left p.element p.right f.is_left f.is_end;
}

-- A tree with another root.
abbrev pub with_root : SplayTree → Tree → SplayTree
with_root s t = record s { root = t }

-- In a valid tree that is not empty `current` is a node, and its element the first of all.
pub current-IsHead :
    (s : SplayTree) (l : Tree) (x : Element) (r : Tree)
    → IsValid (with_root s (node l x r))
    → (p : Place) × (follow_current (with_root s (node l x r)) ≡ some p)
      × IsHead (node l x r) p
      × (s.current ≡ some p.element.address)
unfolding IsCurrent AllLeft
current-IsHead s l x r v =
    let (p, e, f) = first-IsFirst l x r [] tt in
    let c : s.current ≡ some p.element.address = v.pointer ∙ f.pointer in
    (
      p,
      rw c (follow-leftmost (node l x r) [] p.element.address f.pointer ∙ e),
      IsFirst-IsHead (node l x r) p f,
      c,
    )
