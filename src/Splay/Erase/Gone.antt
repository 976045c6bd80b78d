-- ===== src/Splay/Erase/Gone.antt =====
-- `erase` takes out one element that compares equal.
use Prim.Native.Nat.Ordering.{eq}
use mathlib.Core.List.{append_assoc}
use pdes.Base.Sorting.{StrictOrder, Le, Sorted, Sorted-left}
use pdes.Base.{
  ℕ, ◌≡◌, ◌⊎◌, inl, inr, refl, sym, ◌∙◌, ap, subst, Option, none, some, List, [], ◌∷◌, ◌++◌, All,
  All-right, All-map, length, length-append, arith, true, ◌==◌, Bool-cases,
}
use pdes.Event.{Event}
use pdes.Splay.Descend.{element_order}
use pdes.Splay.Erase.Reach.{splay-IsAtRoot}
use pdes.Splay.Erase.Search.{Differs, search_lem, behind, earlier}
use pdes.Splay.Erase.{
  search, search_near, join, without_root, remove_root, erase_found, erase_pointed, erase,
}
use pdes.Splay.InOrder.{in_order, after, in_order-rebuild, in_order-splay}
use pdes.Splay.Valid.{IsValid, IsCurrent, IsHead, current-IsHead, with_root}
use pdes.Splay.{
  Element, Tree, leaf, node, Place, subtree, SplayTree, splay, leftmost, or_else, compare_event,
  rebuild, not_after, map_some,
}

in_order_node :
    (l : Tree) (x : Element) (r : Tree) → in_order (node l x r) ≡ in_order l ++ x ∷ in_order r
unfolding in_order
in_order_node l x r = refl

in_order-join : (l r : Tree) → in_order (join l r) ≡ in_order l ++ in_order r
unfolding in_order join
in_order-join leaf r = refl
in_order-join (node a x b) r =
    ap (λ xs. in_order a ++ x ∷ xs) (in_order-join b r)
    ∙ sym (append_assoc (in_order a) (x ∷ in_order b) (in_order r))

All-remove {ℓ κ} :
    {A : Type ℓ} (P : A → Type κ) (xs : List A) (y : A) (ys : List A)
    → All P (xs ++ y ∷ ys)
    → All P (xs ++ ys)
All-remove P [] y ys h = h.1
All-remove P (x ∷ xs) y ys h = (h.0, All-remove P xs y ys h.1)

Sorted-remove {ℓ} :
    {A : Type ℓ} (o : StrictOrder A) (xs : List A) (y : A) (ys : List A)
    → Sorted o (xs ++ y ∷ ys)
    → Sorted o (xs ++ ys)
Sorted-remove o [] y ys s = s.1
Sorted-remove o (x ∷ xs) y ys s = (All-remove (Le o x) xs y ys s.0, Sorted-remove o xs y ys s.1)

-- One element, which compares equal to the event, is gone; the pointer stays if the tree is empty.
pub record TakesOut (s : SplayTree) (e : Event) (u : SplayTree) : Type 0 where
  pub ahead : List Element
  pub gone : Element
  pub behind : List Element
  pub equal : compare_event e gone.event ≡ eq
  pub was : in_order s.root ≡ ahead ++ gone ∷ behind
  pub is : in_order u.root ≡ ahead ++ behind
  pub kept : u.root ≡ leaf → u.current ≡ s.current

IsCurrent-join : (t : Tree) (c : Option ℕ) → IsCurrent t (or_else (leftmost t) c)
unfolding IsCurrent leftmost
IsCurrent-join leaf c = tt
IsCurrent-join (node leaf x r) c = refl
IsCurrent-join (node (node l y m) x r) c = IsCurrent-join (node l y m) c

Sorted-join :
    (l : Tree) (x : Element) (r : Tree)
    → Sorted element_order (in_order l ++ x ∷ in_order r)
    → Sorted element_order (in_order (join l r))
Sorted-join l x r h =
    rw (in_order-join l r) (Sorted-remove element_order (in_order l) x (in_order r) h)

-- What a removal of the root leaves.
without_root-lem :
    (s : SplayTree) (e : Event) (l : Tree) (x : Element) (r : Tree)
    → IsValid s
    → compare_event e x.event ≡ eq
    → in_order s.root ≡ in_order l ++ x ∷ in_order r
    → IsValid (without_root s l r) × TakesOut s e (without_root s l r)
unfolding leftmost
without_root-lem s e l x r v c h = (
  record {
    sorted = Sorted-join l x r (subst (Sorted element_order) h v.sorted);
    count = omega (
      arith,
      v.count,
      ap length h,
      ap length (in_order-join l r),
      length-append (in_order l) (x ∷ in_order r),
      length-append (in_order l) (in_order r),
    );
    pointer = IsCurrent-join (join l r) s.current;
  },
  record {
    ahead = in_order l;
    gone = x;
    behind = in_order r;
    equal = c;
    was = h;
    is = in_order-join l r;
    kept = λ empty. rw empty refl;
  },
)

remove_root-here :
    (s : SplayTree) (l : Tree) (x : Element) (r : Tree)
    → remove_root s x.address (node l x r) ≡ without_root s l r
remove_root-here s l x r = let h : (x.address == x.address) ≡ true = ground arith in rw h refl

erase_found-lem :
    (s : SplayTree) (e : Event) (q : Place)
    → IsValid s
    → compare_event e q.element.event ≡ eq
    → rebuild q.path (subtree q) ≡ s.root
    → IsValid (erase_found s (some q)) × TakesOut s e (erase_found s (some q))
erase_found-lem s e q v c w =
    let i =
      splay-IsAtRoot s.number_of_elements q.path q.left q.element q.right
        (omega (arith, v.count, ap (λ t. length (in_order t)) w)) in
    rw (i.shape, remove_root-here s i.left q.element i.right)
      (without_root-lem s e i.left q.element i.right v c (whole i.left i.right i.shape))
  where
    whole :
        (l r : Tree)
        → splay s.number_of_elements q.path (subtree q) ≡ node l q.element r
        → in_order s.root ≡ in_order l ++ q.element ∷ in_order r
    whole l r shape =
        ap in_order (sym w)
        ∙ in_order-rebuild q.path (subtree q)
        ∙ sym (in_order-splay s.number_of_elements q.path (subtree q))
        ∙ ap in_order shape
        ∙ in_order_node l q.element r

-- Nothing compares equal and nothing is taken out, or one element is.
unfoldable pub IsErasure : SplayTree → Event → SplayTree → Type 0
IsErasure s e u =
    (All (Differs e) (in_order s.root) × (in_order u.root ≡ in_order s.root)) ⊎ TakesOut s e u

-- How the search of `erase` ends.
SearchEnds : SplayTree → Event → Option Place → Type 0
SearchEnds s e o =
    ((o ≡ none) × All (Differs e) (in_order s.root))
    ⊎ ((q : Place) × (o ≡ some q)
        × (compare_event e q.element.event ≡ eq)
        × (rebuild q.path (subtree q) ≡ s.root))

root_search : (s : SplayTree) (e : Event) → IsValid s → SearchEnds s e (search e s.root [])
unfolding SearchEnds rebuild
root_search s e v = elim (search_lem e s.root [] v.sorted) [
  | inl n ↦ inl n
  | inr (q, f) ↦ inr (q, f.found, f.equal, f.whole)
]

-- Nothing below the first element, and so nothing at all.
none_from_first :
    (e : Event) (p : Place) (xs : List Element)
    → not_after e p.element.event ≡ true
    → All (Differs e) (in_order (subtree p))
    → Sorted element_order (p.element ∷ xs)
    → All (Differs e) (p.element ∷ xs)
unfolding in_order
none_from_first e p xs t h s =
    let d = (All-right (Differs e) (in_order p.left) (p.element ∷ in_order p.right) h).0 in
    (
      d,
      All-map (Le element_order p.element) (Differs e)
          (λ y. behind e p.element y (earlier e p.element t d)) xs s.0,
    )

below_sorted :
    (p : Place) (xs : List Element)
    → p.left ≡ leaf
    → Sorted element_order (p.element ∷ (in_order p.right ++ xs))
    → Sorted element_order (in_order (subtree p))
unfolding in_order
below_sorted p xs l s = rw l (Sorted-left element_order (p.element ∷ in_order p.right) xs s)

below_first :
    (s : SplayTree) (e : Event) (p : Place)
    → IsValid s
    → IsHead s.root p
    → not_after e p.element.event ≡ true
    → SearchEnds s e (search e (subtree p) p.path)
unfolding SearchEnds
below_first s e p v h t =
    let sorted = subst (Sorted element_order) h.elements v.sorted in
    elim (search_lem e (subtree p) p.path (below_sorted p (after p.path) h.is_end sorted)) [
      | inl (n, d) ↦ inl (n, rw h.elements (none_from_first e p _ t d sorted))
      | inr (q, f) ↦ inr (q, f.found, f.equal, f.whole ∙ h.whole)
    ]

near_search :
    (s : SplayTree) (e : Event) (p : Place)
    → IsValid s
    → IsHead s.root p
    → SearchEnds s e (search_near s e p)
near_search s e p v h = elim (Bool-cases (not_after e p.element.event)) [
  | inl t ↦ rw t (below_first s e p v h t)
  | inr t ↦ rw t (root_search s e v)
]

found-IsErasure :
    (s : SplayTree) (e : Event) (o : Option Place)
    → IsValid s
    → SearchEnds s e o
    → IsValid (erase_found s o) × IsErasure s e (erase_found s o)
unfolding SearchEnds IsErasure
found-IsErasure s e o v (inl (n, h)) = rw n (v, inl (h, refl))
found-IsErasure s e o v (inr (q, f, c, w)) =
    let (valid, takes) = erase_found-lem s e q v c w in rw f (valid, inr takes)

erase_at_root :
    (t : Tree) (s : SplayTree) (e : Event)
    → IsValid (with_root s t)
    → (u : SplayTree) × (erase (with_root s t) e ≡ some u)
      × IsValid u
      × IsErasure (with_root s t) e u
unfolding erase IsErasure in_order IsCurrent
erase_at_root leaf s e v = (
  record s { root = leaf; current = none },
  refl,
  record { sorted = tt; count = v.count; pointer = tt },
  inl (tt, refl),
)
erase_at_root (node l x r) s e v =
    let (p, found, h, c) = current-IsHead s l x r v in
    let t = with_root s (node l x r) in
    let (valid, erasure) = found-IsErasure t e (search_near t e p) v (near_search t e p v h) in
    (
      erase_found t (search_near t e p),
      ap (erase_pointed t e) c ∙ ap (map_some (λ q. erase_found t (search_near t e q))) found,
      valid,
      erasure,
    )

-- `erase` on a valid tree ends without a fault and keeps the invariant. If no event of the tree
-- compares equal to the given one, all stay; otherwise it takes out exactly one that does, and the
-- limit on the turns of `splay` is enough for that.
pub erase_lem :
    (s : SplayTree) (e : Event)
    → IsValid s
    → (u : SplayTree) × (erase s e ≡ some u) × IsValid u × IsErasure s e u
erase_lem s e v = erase_at_root s.root s e v
