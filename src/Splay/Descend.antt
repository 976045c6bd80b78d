-- ===== src/Splay/Descend.antt =====
-- The search of `insert` ends where the new element belongs in the order of `CompareEvent`, in front
-- of the first element that is not before it.
use pdes.Base.Sorting.{StrictOrder, Le, Sorted, Sorted-left, Sorted-right, Sorted-before}
use pdes.Base.{
  ◌≡◌, refl, sym, ◌∙◌, ap, inl, inr, Bool, true, false, not, List, [], ◌∷◌, ◌++◌, All, All-map,
  if◌then◌else◌, Bool-cases, arith,
}
use pdes.Event.{Event}
use pdes.Splay.InOrder.{in_order, around, around-left, around-right}
use pdes.Splay.{
  Element, Tree, leaf, node, Step, left_of, right_of, not_after, compare_event, descend,
}

-- `CompareEvent(a, b) < 0`, for the elements: the second is not at or before the first.
abbrev pub precedes : Element → Element → Bool
precedes a b = not (not_after b.event a.event)

pub precedes-asymm : (a b : Element) → precedes a b ≡ true → precedes b a ≡ false
unfolding not_after compare_event
precedes-asymm a b h = ground arith

pub precedes-le_trans :
    (a b c : Element) → precedes b a ≡ false → precedes c b ≡ false → precedes c a ≡ false
unfolding not_after compare_event
precedes-le_trans a b c h k = ground arith

abbrev pub element_order : StrictOrder Element
element_order = record {
  less = precedes;
  less_asymm = precedes-asymm;
  le_trans = precedes-le_trans;
}

unfoldable pub enqueue : Element → List Element → List Element
enqueue e [] = e ∷ []
enqueue e (x ∷ xs) = if not_after e.event x.event then e ∷ x ∷ xs else x ∷ enqueue e xs

enqueue-nil : (e : Element) → enqueue e [] ≡ e ∷ []
unfolding enqueue
enqueue-nil e = refl

enqueue-stops :
    (e x : Element) (xs ys : List Element)
    → not_after e.event x.event ≡ true
    → enqueue e (xs ++ x ∷ ys) ≡ enqueue e xs ++ x ∷ ys
unfolding enqueue
enqueue-stops e x [] ys h = rw h
enqueue-stops e x (y ∷ xs) ys h = elim (Bool-cases (not_after e.event y.event)) [
  | inl t ↦ rw t
  | inr t ↦ rw (t, enqueue-stops e x xs ys h)
]

enqueue-passes :
    (e : Element) (xs ys : List Element)
    → All (λ x. not_after e.event x.event ≡ false) xs
    → enqueue e (xs ++ ys) ≡ xs ++ enqueue e ys
unfolding enqueue
enqueue-passes e [] ys h = refl
enqueue-passes e (x ∷ xs) ys h = rw (h.0, enqueue-passes e xs ys h.1)

enqueue-All :
    (P : Element → Type 0) (e : Element) (xs : List Element) → P e → All P xs → All P (enqueue e xs)
unfolding enqueue
enqueue-All P e [] p h = (p, tt)
enqueue-All P e (x ∷ xs) p h = elim (Bool-cases (not_after e.event x.event)) [
  | inl t ↦ rw t (p, h)
  | inr t ↦ rw t (h.0, enqueue-All P e xs p h.1)
]

pub enqueue-Sorted :
    (e : Element) (xs : List Element)
    → Sorted element_order xs
    → Sorted element_order (enqueue e xs)
unfolding enqueue
enqueue-Sorted e [] s = (tt, tt)
enqueue-Sorted e (x ∷ xs) s = elim (Bool-cases (not_after e.event x.event)) [
  | inl t ↦ rw t (
    (
      rw t,
      All-map (Le element_order x) (Le element_order e) (λ y h. precedes-le_trans e x y (rw t) h) xs
          s.0,
    ),
    s,
  )
  | inr t ↦ rw t (
    enqueue-All (Le element_order x) e xs (precedes-asymm x e (rw t)) s.0,
    enqueue-Sorted e xs s.1,
  )
]

-- What is before an element that is before the new one is before the new one too.
passed :
    (e x : Element) (xs ys : List Element)
    → not_after e.event x.event ≡ false
    → Sorted element_order (xs ++ x ∷ ys)
    → All (λ y. not_after e.event y.event ≡ false) xs
passed e x xs ys h s =
    All-map (λ y. Le element_order y x) (λ y. not_after e.event y.event ≡ false)
      (λ y k. ground (arith, precedes-le_trans e y x)) xs (Sorted-before element_order xs x ys s)

descend-left :
    (e : Event) (l : Tree) (x : Element) (r : Tree) (path : List Step)
    → not_after e x.event ≡ true
    → descend e (node l x r) path ≡ descend e l (left_of x r ∷ path)
unfolding descend
descend-left e l x r path h = rw (descend, h)

descend-right :
    (e : Event) (l : Tree) (x : Element) (r : Tree) (path : List Step)
    → not_after e x.event ≡ false
    → descend e (node l x r) path ≡ descend e r (right_of l x ∷ path)
unfolding descend
descend-right e l x r path h = rw (descend, h)

enqueue-behind :
    (e x : Element) (xs : List Element)
    → not_after e.event x.event ≡ false
    → enqueue e (x ∷ xs) ≡ x ∷ enqueue e xs
unfolding enqueue
enqueue-behind e x xs h = rw h

enqueue-right :
    (e x : Element) (xs ys : List Element)
    → not_after e.event x.event ≡ false
    → Sorted element_order (xs ++ x ∷ ys)
    → enqueue e (xs ++ x ∷ ys) ≡ xs ++ x ∷ enqueue e ys
unfolding enqueue
enqueue-right e x xs ys h s =
    enqueue-passes e xs (x ∷ ys) (passed e x xs ys h s)
    ∙ ap (λ zs. xs ++ zs) (enqueue-behind e x ys h)

pub descend-enqueue :
    (e : Element) (t : Tree) (path : List Step)
    → Sorted element_order (in_order t)
    → around (descend e.event t path) (e ∷ []) ≡ around path (enqueue e (in_order t))
unfolding in_order descend
descend-enqueue e leaf path s = ap (around path) (sym (enqueue-nil e))
descend-enqueue e (node l x r) path s = elim (Bool-cases (not_after e.event x.event)) [
  | inl t ↦
      ap (λ p. around p (e ∷ [])) (descend-left e.event l x r path t)
      ∙ descend-enqueue e l (left_of x r ∷ path)
          (Sorted-left element_order (in_order l) (x ∷ in_order r) s)
      ∙ around-left x r path (enqueue e (in_order l))
      ∙ ap (around path) (sym (enqueue-stops e x (in_order l) (in_order r) t))
  | inr t ↦
      ap (λ p. around p (e ∷ [])) (descend-right e.event l x r path t)
      ∙ descend-enqueue e r (right_of l x ∷ path)
          (Sorted-right element_order (in_order l) (x ∷ in_order r) s).1
      ∙ around-right l x path (enqueue e (in_order r))
      ∙ ap (around path) (sym (enqueue-right e x (in_order l) (in_order r) t s))
]
