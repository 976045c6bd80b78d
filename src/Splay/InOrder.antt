-- ===== src/Splay/InOrder.antt =====
-- The elements of the tree in the order of the keys: turning a tree keeps them, and the splay loop
-- keeps those of the whole tree.
use mathlib.Core.List.{append_assoc, append-nil}
use pdes.Base.{ℕ, zero, suc, ◌≡◌, refl, sym, ◌∙◌, ap, List, [], ◌∷◌, ◌++◌}
use pdes.Splay.{
  Element, Tree, leaf, node, Step, left_of, right_of, plug, rebuild, rotate_left, rotate_right,
  single, double, splay_loop, splay,
}

unfoldable pub in_order : Tree → List Element
in_order leaf = []
in_order (node l x r) = in_order l ++ x ∷ in_order r

-- What a path has before and behind the node.
unfoldable pub before : List Step → List Element
before [] = []
before (left_of x r ∷ path) = before path
before (right_of l x ∷ path) = before path ++ in_order l ++ x ∷ []

unfoldable pub after : List Step → List Element
after [] = []
after (left_of x r ∷ path) = x ∷ in_order r ++ after path
after (right_of l x ∷ path) = after path

unfoldable pub around : List Step → List Element → List Element
around path xs = before path ++ xs ++ after path

pub in_order-rotate_left : (t : Tree) → in_order (rotate_left t) ≡ in_order t
unfolding in_order
in_order-rotate_left leaf = refl
in_order-rotate_left (node l x leaf) = refl
in_order-rotate_left (node l x (node m y r)) =
    append_assoc (in_order l) (x ∷ in_order m) (y ∷ in_order r)

pub in_order-rotate_right : (t : Tree) → in_order (rotate_right t) ≡ in_order t
unfolding in_order
in_order-rotate_right leaf = refl
in_order-rotate_right (node leaf x r) = refl
in_order-rotate_right (node (node l x m) y r) =
    sym (append_assoc (in_order l) (x ∷ in_order m) (y ∷ in_order r))

pub around-left :
    (x : Element) (r : Tree) (path : List Step) (xs : List Element)
    → around (left_of x r ∷ path) xs ≡ around path (xs ++ x ∷ in_order r)
unfolding around before after
around-left x r path xs = simp append_assoc

pub around-right :
    (l : Tree) (x : Element) (path : List Step) (xs : List Element)
    → around (right_of l x ∷ path) xs ≡ around path (in_order l ++ x ∷ xs)
unfolding around before after
around-right l x path xs = simp append_assoc

around-plug :
    (s : Step) (path : List Step) (t : Tree)
    → around (s ∷ path) (in_order t) ≡ around path (in_order (plug s t))
unfolding in_order
around-plug (left_of x r) path t = around-left x r path (in_order t)
around-plug (right_of l x) path t = around-right l x path (in_order t)

pub in_order-rebuild :
    (path : List Step) (t : Tree) → in_order (rebuild path t) ≡ around path (in_order t)
unfolding rebuild around before after
in_order-rebuild [] t = sym (append-nil (in_order t))
in_order-rebuild (s ∷ path) t = in_order-rebuild path (plug s t) ∙ sym (around-plug s path t)

in_order-single : (s : Step) (t : Tree) → in_order (single s t) ≡ in_order (plug s t)
in_order-single (left_of x r) t = in_order-rotate_right (node t x r)
in_order-single (right_of l x) t = in_order-rotate_left (node l x t)

in_order-double : (p g : Step) (t : Tree) → in_order (double p g t) ≡ in_order (plug g (plug p t))
unfolding in_order
in_order-double (left_of x r) (right_of l y) t =
    in_order-rotate_left (node l y (rotate_right (node t x r)))
    ∙ ap (λ xs. in_order l ++ y ∷ xs) (in_order-rotate_right (node t x r))
in_order-double (right_of l x) (left_of y r) t =
    in_order-rotate_right (node (rotate_left (node l x t)) y r)
    ∙ ap (λ xs. xs ++ y ∷ in_order r) (in_order-rotate_left (node l x t))
in_order-double (left_of x r) (left_of y s) t =
    in_order-rotate_right (rotate_right (node (node t x r) y s))
    ∙ in_order-rotate_right (node (node t x r) y s)
in_order-double (right_of l x) (right_of k y) t =
    in_order-rotate_left (rotate_left (node k y (node l x t)))
    ∙ in_order-rotate_left (node k y (node l x t))

in_order-splay_loop :
    (n : ℕ) (path : List Step) (t : Tree)
    → in_order (splay_loop n path t) ≡ around path (in_order t)
unfolding splay_loop rebuild
in_order-splay_loop zero path t = in_order-rebuild path t
in_order-splay_loop (suc n) [] t = in_order-rebuild [] t
in_order-splay_loop (suc n) (p ∷ []) t = in_order-single p t ∙ in_order-rebuild (p ∷ []) t
in_order-splay_loop (suc n) (p ∷ g ∷ path) t =
    in_order-splay_loop n path (double p g t)
    ∙ ap (around path) (in_order-double p g t)
    ∙ sym (around-plug g path (plug p t))
    ∙ sym (around-plug p (g ∷ path) t)

-- However often it turns, the splay loop keeps the order of the elements.
pub in_order-splay :
    (n : ℕ) (path : List Step) (t : Tree) → in_order (splay n path t) ≡ around path (in_order t)
unfolding splay
in_order-splay n path t = in_order-splay_loop _ path t
