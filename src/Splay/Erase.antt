-- ===== src/Splay/Erase.antt =====
-- `erase` and `clear`.
pub mod Search
pub mod Reach
pub mod Gone
pub mod Clear
use Prim.Native.Nat.Ordering.{lt, eq, gt}
use pdes.Base.{ℕ, zero, suc, ◌-◌, Option, none, some, List, [], ◌∷◌, ◌==◌, if◌then◌else◌, ◌>>=◌}
use pdes.Event.{Event}
use pdes.Splay.{
  Tree, leaf, node, Step, left_of, right_of, Place, subtree, SplayTree, compare_event, not_after,
  splay, leftmost, follow_current, or_else, map_some, clean_up,
}

-- The search below a node.
unfoldable pub search : Event → Tree → List Step → Option Place
search e leaf path = none
search e (node l x r) path = elim (compare_event e x.event) [
  | lt ↦ search e l (left_of x r ∷ path)
  | eq ↦ some (record { path = path; left = l; element = x; right = r })
  | gt ↦ search e r (right_of l x ∷ path)
]

-- From the current node if the event is at or before it, and from the root otherwise.
abbrev pub search_near : SplayTree → Event → Place → Option Place
search_near s e p =
    if not_after e p.element.event then search e (subtree p) p.path else search e s.root []

-- The right tree below the last node of the left one.
unfoldable pub join : Tree → Tree → Tree
join leaf r = r
join (node a x b) r = node a x (join b r)

abbrev pub without_root : SplayTree → Tree → Tree → SplayTree
without_root s l r = record s {
  root = join l r;
  current = or_else (leftmost (join l r)) s.current;
  number_of_elements = s.number_of_elements - 1;
}

-- The removal, if the node has come to the root.
abbrev pub remove_root : SplayTree → ℕ → Tree → SplayTree
remove_root s address leaf = record s { root = leaf }
remove_root s address (node l x r) =
    if x.address == address then without_root s l r else record s { root = node l x r }

abbrev pub erase_found : SplayTree → Option Place → SplayTree
erase_found s none = s
erase_found s (some p) =
    remove_root s p.element.address (splay s.number_of_elements p.path (subtree p))

abbrev pub erase_pointed : SplayTree → Event → Option ℕ → Option SplayTree
erase_pointed s e none = some (record s { current = leftmost s.root })
erase_pointed s e (some address) =
    map_some (λ p. erase_found s (search_near s e p)) (follow_current s)

abbrev pub erase_below : SplayTree → Event → Tree → Option SplayTree
erase_below s e leaf = some (record s { root = leaf; current = none })
erase_below s e (node l x r) = erase_pointed s e s.current

unfoldable pub erase : SplayTree → Event → Option SplayTree
erase s e = erase_below s e s.root

-- How `clear` ends: a pointer that leads to no node, or is none, is a fault.
pub data ClearResult : Type 0 where
  cleared : SplayTree → ClearResult
  fault : ClearResult
  out_of_fuel : ClearResult

-- `erase(current->getEvent())`.
unfoldable pub erase_current : SplayTree → Option SplayTree
erase_current s = do p ← follow_current s; erase s p.element.event

unfoldable pub clear_loop : ℕ → SplayTree → ClearResult
clear_loop zero s = out_of_fuel
clear_loop (suc n) s = elim s.current [
  | none ↦ cleared (record s { number_of_elements = 0 })
  | some address ↦ elim (erase_current s) [ none ↦ fault | some t ↦ clear_loop n t ]
]

abbrev pub clear_below : SplayTree → Tree → ClearResult
clear_below s leaf = cleared s
clear_below s (node l x r) = clear_loop (suc s.number_of_elements) s

unfoldable pub clear : SplayTree → ClearResult
clear s = elim (clean_up s) [ none ↦ fault | some t ↦ clear_below t s.root ]
