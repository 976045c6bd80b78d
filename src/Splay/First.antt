-- ===== src/Splay/First.antt =====
-- The element that `current` points to: the first one of the tree, under left links alone.
use pdes.Base.{ℕ, ◌≡◌, refl, sym, ◌∙◌, ap, Option, none, some, List, [], ◌∷◌, ◌++◌, head?, arith}
use pdes.Splay.InOrder.{in_order, before}
use pdes.Splay.{
  Element, Tree, leaf, node, Step, left_of, right_of, Place, subtree, rebuild, follow, leftmost,
  map_some,
}

unfoldable pub AllLeft : List Step → Type 0
AllLeft [] = Unit
AllLeft (left_of x r ∷ path) = AllLeft path
AllLeft (right_of l x ∷ path) = ⊥

-- The place of the first element.
unfoldable pub first : Tree → List Step → Option Place
first leaf path = none
first (node leaf x r) path = some (record { path = path; left = leaf; element = x; right = r })
first (node (node a y b) x r) path = first (node a y b) (left_of x r ∷ path)

pub before-AllLeft : (path : List Step) → AllLeft path → before path ≡ []
unfolding before AllLeft
before-AllLeft [] h = refl
before-AllLeft (left_of x r ∷ path) h = before-AllLeft path h
before-AllLeft (right_of l x ∷ path) h = absurd h

-- What is known of the first place of the tree below a path of left links.
pub record IsFirst (t : Tree) (path : List Step) (p : Place) : Type 0 where
  pub is_left : AllLeft p.path
  pub is_end : p.left ≡ leaf
  pub whole : rebuild p.path (subtree p) ≡ rebuild path t
  pub pointer : leftmost t ≡ some p.element.address

pub first-IsFirst :
    (l : Tree) (x : Element) (r : Tree) (path : List Step)
    → AllLeft path
    → (p : Place) × (first (node l x r) path ≡ some p) × IsFirst (node l x r) path p
unfolding first leftmost rebuild AllLeft
first-IsFirst leaf x r path h =
    (_, refl, record { is_left = h; is_end = refl; whole = refl; pointer = refl })
first-IsFirst (node a y b) x r path h =
    let (p, e, f) = first-IsFirst a y b (left_of x r ∷ path) h in
    (p, e, record { is_left = f.is_left; is_end = f.is_end; whole = f.whole; pointer = f.pointer })

first-some :
    (l : Tree) (x : Element) (r : Tree) (path : List Step)
    → (p : Place) × (first (node l x r) path ≡ some p)
unfolding first
first-some leaf x r path = (_, refl)
first-some (node a y b) x r path = first-some a y b (left_of x r ∷ path)

follow-left :
    (a : ℕ) (l : Tree) (x : Element) (r : Tree) (path : List Step) {p : Place}
    → follow a l (left_of x r ∷ path) ≡ some p
    → follow a (node l x r) path ≡ some p
unfolding follow
follow-left a l x r path h = rw h

-- The pointer of `leftmost` leads to the first element.
pub follow-leftmost :
    (t : Tree) (path : List Step) (a : ℕ) → leftmost t ≡ some a → follow a t path ≡ first t path
unfolding follow first leftmost
follow-leftmost leaf path a h = refl
follow-leftmost (node leaf x r) path a h = ground arith
follow-leftmost (node (node l y m) x r) path a h =
    let (p, e) = first-some l y m (left_of x r ∷ path) in
    follow-left a (node l y m) x r path (follow-leftmost (node l y m) (left_of x r ∷ path) a h ∙ e)
    ∙ sym e

abbrev pub address_of : Element → ℕ
address_of x = x.address

pub head-append {ℓ} :
    {A : Type ℓ} (xs : List A) (y : A) (ys zs : List A)
    → head? (xs ++ y ∷ ys ++ zs) ≡ head? (xs ++ y ∷ ys)
head-append [] y ys zs = refl
head-append (x ∷ xs) y ys zs = refl

pub leftmost-in_order : (t : Tree) → leftmost t ≡ map_some address_of (head? (in_order t))
unfolding leftmost in_order
leftmost-in_order leaf = refl
leftmost-in_order (node leaf x r) = refl
leftmost-in_order (node (node l y m) x r) =
    leftmost-in_order (node l y m)
    ∙ ap (map_some address_of) (sym (head-append (in_order l) y (in_order m) (x ∷ in_order r)))
