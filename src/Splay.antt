-- ===== src/Splay.antt =====
-- SplayTree.cpp, SplayTree.h and TreeElement.h: the event queue of the sequential simulation. A node
-- has the address of its element; the parent pointers are what leads from a node to the root, its
-- path. An element always has its event. `none` stands for a pointer that is followed where it is
-- null or to no node of the tree, or that is deleted and was never a node's.
pub mod InOrder
pub mod First
pub mod Descend
pub mod Valid
pub mod Insert
pub mod Take
pub mod Room
pub mod Queue
pub mod Erase
pub mod Implements
mod Tests
use Prim.Native.Nat.Ordering.{lt, eq, gt}
use Prim.Native.Nat.{Ordering}
use pdes.Base.{
  ℕ, zero, suc, ◌+◌, ◌-◌, ◌/◌, Bool, true, false, ◌&&◌, ◌||◌, List, [], ◌∷◌, Option, none, some,
  ltb, ◌==◌, if◌then◌else◌, ◌>>=◌,
}
use pdes.Event.{Event, ObjectId, object_eq}
use pdes.Stack as Stack
use pdes.Stack.{StackOfPtr, delete_all}

pub record Element : Type 0 where
  pub address : ℕ
  pub event : Event

pub data Tree : Type 0 where
  leaf : Tree
  node : Tree → Element → Tree → Tree

-- A step to the parent: the node is its left or its right child, and what else the parent has.
pub data Step : Type 0 where
  left_of : Element → Tree → Step
  right_of : Tree → Element → Step

-- `next_address` is where the next element will be allocated.
pub record SplayTree : Type 0 where
  pub root : Tree
  pub current : Option ℕ
  pub processed_elements : StackOfPtr Element
  pub number_of_elements : ℕ
  pub next_address : ℕ

abbrev pub empty : SplayTree
empty = record {
  root = leaf;
  current = none;
  processed_elements = Stack.empty;
  number_of_elements = 0;
  next_address = 0;
}

-- `operator>` of object ids.
unfoldable pub object_greater : ObjectId → ObjectId → Bool
object_greater a b =
    if ltb b.object a.object
    then true
    else if a.object == b.object && ltb b.manager a.manager
    then true
    else false

-- `CompareEvent`, with `lt`, `eq` and `gt` for -1, 0 and 1.
unfoldable pub compare_event : Event → Event → Ordering
unfolding object_greater object_eq
compare_event a b =
    if a.receive_time == b.receive_time
    then (if object_greater a.receiver b.receiver
        then gt
        else if object_eq a.receiver b.receiver
        then eq
        else lt)
    else if ltb b.receive_time a.receive_time
    then gt
    else lt

-- `CompareEvent(a, b) <= 0`.
unfoldable pub not_after : Event → Event → Bool
not_after a b = elim (compare_event a b) [ gt ↦ false | _ ↦ true ]

abbrev pub plug : Step → Tree → Tree
plug (left_of x r) t = node t x r
plug (right_of l x) t = node l x t

-- The whole tree, from a node and its path.
unfoldable pub rebuild : List Step → Tree → Tree
rebuild [] t = t
rebuild (s ∷ path) t = rebuild path (plug s t)

abbrev pub rotate_left : Tree → Tree
rotate_left leaf = leaf
rotate_left (node l x leaf) = node l x leaf
rotate_left (node l x (node m y r)) = node (node l x m) y r

abbrev pub rotate_right : Tree → Tree
rotate_right leaf = leaf
rotate_right (node leaf x r) = node leaf x r
rotate_right (node (node l x m) y r) = node l x (node m y r)

-- The turn below the root.
abbrev pub single : Step → Tree → Tree
single (left_of x r) t = rotate_right (node t x r)
single (right_of l x) t = rotate_left (node l x t)

-- A turn at the parent `p` and the grandparent `g`, in zig-zag or in zig-zig.
abbrev pub double : Step → Step → Tree → Tree
double (left_of x r) (right_of l y) t = rotate_left (node l y (rotate_right (node t x r)))
double (right_of l x) (left_of y r) t = rotate_right (node (rotate_left (node l x t)) y r)
double (left_of x r) (left_of y s) t = rotate_right (rotate_right (node (node t x r) y s))
double (right_of l x) (right_of k y) t = rotate_left (rotate_left (node k y (node l x t)))

-- The loop, with the turns that are left when it breaks off.
unfoldable pub splay_loop : ℕ → List Step → Tree → Tree
splay_loop zero path t = rebuild path t
splay_loop (suc n) [] t = t
splay_loop (suc n) (p ∷ []) t = single p t
splay_loop (suc n) (p ∷ g ∷ path) t = splay_loop n path (double p g t)

unfoldable pub splay : ℕ → List Step → Tree → Tree
splay number path t = splay_loop (suc (number / 2)) path t

-- A node with its path.
pub record Place : Type 0 where
  pub path : List Step
  pub left : Tree
  pub element : Element
  pub right : Tree

abbrev pub subtree : Place → Tree
subtree p = node p.left p.element p.right

abbrev pub or_else {ℓ} : {A : Type ℓ} → Option A → Option A → Option A
or_else none other = other
or_else (some a) other = some a

-- The node that a pointer points to.
unfoldable pub follow : ℕ → Tree → List Step → Option Place
follow address leaf path = none
follow address (node l x r) path = or_else (follow address l (left_of x r ∷ path)) (
    if x.address == address
    then some (record { path = path; left = l; element = x; right = r })
    else follow address r (right_of l x ∷ path))

abbrev pub follow_current : SplayTree → Option Place
follow_current s = elim s.current [ none ↦ none | some address ↦ follow address s.root [] ]

-- The loops to the left.
unfoldable pub leftmost : Tree → Option ℕ
leftmost leaf = none
leftmost (node leaf x r) = some x.address
leftmost (node (node a y b) x r) = leftmost (node a y b)

-- The search of `insert` for the place of a new node.
unfoldable pub descend : Event → Tree → List Step → List Step
descend e leaf path = path
descend e (node l x r) path = elim (not_after e x.event) [
  | true ↦ descend e l (left_of x r ∷ path)
  | false ↦ descend e r (right_of l x ∷ path)
]

abbrev pub grown : SplayTree → Element → Option ℕ → Tree → SplayTree
grown s new current root = record s {
  root = root;
  current = current;
  number_of_elements = s.number_of_elements + 1;
  next_address = s.next_address + 1;
}

-- The new element becomes the left child of the current one, or is put at its place.
abbrev pub insert_near : SplayTree → Element → Place → SplayTree
insert_near s new p =
    if not_after new.event p.element.event
    then grown s new (some new.address)
        (splay (s.number_of_elements + 1) (left_of p.element p.right ∷ p.path) (node leaf new leaf))
    else grown s new s.current
        (splay (s.number_of_elements + 1) (descend new.event s.root []) (node leaf new leaf))

abbrev pub map_some {ℓ κ} : {A : Type ℓ} {B : Type κ} → (A → B) → Option A → Option B
map_some f none = none
map_some f (some a) = some (f a)

abbrev pub insert_element : SplayTree → Element → Tree → Option SplayTree
insert_element s new leaf = some (grown s new (some new.address) (node leaf new leaf))
insert_element s new (node l x r) = map_some (insert_near s new) (follow_current s)

unfoldable pub insert : SplayTree → Event → Option SplayTree
insert s e = insert_element s (record { address = s.next_address; event = e }) s.root

-- What is left of the tree, and the node from which the new current one is looked for.
abbrev pub unlink : Place → List Step → Tree × Tree
unlink p [] = (p.right, p.right)
unlink p (left_of x r ∷ path) = (rebuild path (node p.right x r), node p.right x r)
unlink p (right_of l x ∷ path) =
    (rebuild path (node p.right x (subtree p)), node p.right x (subtree p))

abbrev pub taken : SplayTree → Place → SplayTree × Option Event
taken s p =
    let (root, below) = unlink p p.path in
    (
      record s {
        root = root;
        current = leftmost below;
        processed_elements = Stack.insert s.processed_elements p.element;
        number_of_elements = s.number_of_elements - 1;
      },
      some p.element.event,
    )

abbrev pub get_from : SplayTree → Tree → Option (SplayTree × Option Event)
get_from s leaf = some (s, none)
get_from s (node l x r) = map_some (taken s) (follow_current s)

unfoldable pub get_event : SplayTree → Option (SplayTree × Option Event)
get_event s = get_from s s.root

abbrev pub peek_from : SplayTree → Tree → Option (SplayTree × Option Event)
peek_from s leaf = some (record s { root = leaf; current = none; number_of_elements = 0 }, none)
peek_from s (node l x r) =
    if s.number_of_elements == 0
    then some (record s { root = leaf; current = none; number_of_elements = 0 }, none)
    else (let t = record s { current = or_else s.current (leftmost s.root) } in
        map_some (λ p. (t, some p.element.event)) (follow_current t))

unfoldable pub peek_event : SplayTree → Option (SplayTree × Option Event)
peek_event s = peek_from s s.root

unfoldable pub clean_up : SplayTree → Option SplayTree
clean_up s = do p ← delete_all s.processed_elements; some (record s { processed_elements = p })
