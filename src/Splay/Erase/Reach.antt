-- ===== src/Splay/Erase/Reach.antt =====
-- The number of turns that `splay` allows itself brings a node of the tree to the root.
use pdes.Base.{
  ℕ, zero, suc, ◌+◌, ◌*◌, ◌/◌, ◌≤◌, ◌≡◌, refl, ◌∙◌, ap, List, [], ◌∷◌, ◌++◌, length, length-append,
  arith,
}
use pdes.Splay.InOrder.{in_order, before, after, around, in_order-rebuild}
use pdes.Splay.{Element, Tree, node, Step, left_of, right_of, rebuild, double, splay_loop, splay}

-- The node with `x` is the root.
pub record IsAtRoot (x : Element) (t : Tree) : Type 0 where
  pub left : Tree
  pub right : Tree
  pub shape : t ≡ node left x right

double_top : (p g : Step) (l : Tree) (x : Element) (r : Tree) → IsAtRoot x (double p g (node l x r))
double_top (left_of y s) (right_of k z) l x r = record { left = _; right = _; shape = refl }
double_top (right_of k y) (left_of z s) l x r = record { left = _; right = _; shape = refl }
double_top (left_of y s) (left_of z u) l x r = record { left = _; right = _; shape = refl }
double_top (right_of k y) (right_of j z) l x r = record { left = _; right = _; shape = refl }

pub splay_loop-IsAtRoot :
    (n : ℕ) (path : List Step) (l : Tree) (x : Element) (r : Tree)
    → length path ≤ 2 * n
    → IsAtRoot x (splay_loop n path (node l x r))
unfolding splay_loop rebuild
splay_loop-IsAtRoot zero [] l x r h = record { left = _; right = _; shape = refl }
splay_loop-IsAtRoot zero (p ∷ path) l x r h = absurd (omega arith)
splay_loop-IsAtRoot (suc n) [] l x r h = record { left = _; right = _; shape = refl }
splay_loop-IsAtRoot (suc n) (left_of y s ∷ []) l x r h = record {
  left = _;
  right = _;
  shape = refl;
}
splay_loop-IsAtRoot (suc n) (right_of k y ∷ []) l x r h = record {
  left = _;
  right = _;
  shape = refl;
}
splay_loop-IsAtRoot (suc n) (p ∷ g ∷ path) l x r h =
    let d = double_top p g l x r in
    let i = splay_loop-IsAtRoot n path d.left x d.right (omega arith) in
    record { left = i.left; right = i.right; shape = ap (splay_loop n path) d.shape ∙ i.shape }

-- A path is no longer than the elements beside it.
length-beside : (path : List Step) → length path ≤ length (before path) + length (after path)
unfolding before after
length-beside [] = omega arith
length-beside (left_of x r ∷ path) =
    omega (arith, length-beside path, length-append (in_order r) (after path))
length-beside (right_of l x ∷ path) = omega (
  arith,
  length-beside path,
  length-append (before path ++ in_order l) (x ∷ []),
  length-append (before path) (in_order l),
)

length-around :
    (path : List Step) (xs : List Element) → length path + length xs ≤ length (around path xs)
unfolding around
length-around path xs = omega (
  arith,
  length-beside path,
  length-append (before path ++ xs) (after path),
  length-append (before path) xs,
)

-- `splay` brings a node to the root of its tree, whatever the path is, within the number of turns
-- that it allows itself for a tree of at most `number` elements.
pub splay-IsAtRoot :
    (number : ℕ) (path : List Step) (l : Tree) (x : Element) (r : Tree)
    → length (in_order (rebuild path (node l x r))) ≤ number
    → IsAtRoot x (splay number path (node l x r))
unfolding splay
splay-IsAtRoot number path l x r h = splay_loop-IsAtRoot (suc (number / 2)) path l x r (
    omega (
      arith,
      length-around path (in_order (node l x r)),
      ap length (in_order-rebuild path (node l x r)),
    ))
