-- ===== src/MultiSet/Lowest.antt =====
-- The multiset of the lowest events: which node belongs to which object, and its order.
use pdes.Base.Sorting.{Le, Le_refl}
use pdes.Base.{
  ℕ, ◌≡◌, refl, subst, inl, inr, false, List, [], ◌∷◌, Option, none, some, arith, All, All-map,
  ◌==◌, if◌then◌else◌, Bool-cases,
}
use pdes.MultiSet.{insert_node, erase_node, erase_low}
use pdes.Event.Order.{receive_order}
use pdes.Event.{Event}

unfoldable pub find_node : ℕ → List (ℕ × Event) → Option Event
find_node i [] = none
find_node i ((j, x) ∷ nodes) = if j == i then some x else find_node i nodes

abbrev pub NodeLe : ℕ × Event → ℕ × Event → Type 0
NodeLe a b = Le receive_order a.1 b.1

-- No two nodes belong to one object, and the nodes stand in the order of their events.
abbrev pub IsIndex : List (ℕ × Event) → Type 0
IsIndex [] = Unit
IsIndex ((j, x) ∷ nodes) =
    (find_node j nodes ≡ none) × All (λ n. Le receive_order x n.1) nodes × IsIndex nodes

pub find-insert_node :
    (i j : ℕ) (e : Event) (nodes : List (ℕ × Event))
    → find_node i nodes ≡ none
    → find_node j (insert_node i e nodes) ≡ (if i == j then some e else find_node j nodes)
unfolding find_node insert_node
find-insert_node i j e [] h = refl
find-insert_node i j e ((k, x) ∷ nodes) h = ground (arith, find-insert_node i j e nodes)

pub find-erase_node :
    (i j : ℕ) (nodes : List (ℕ × Event))
    → IsIndex nodes
    → find_node j (erase_node i nodes) ≡ (if i == j then none else find_node j nodes)
unfolding find_node erase_node
find-erase_node i j [] h = ground arith
find-erase_node i j ((k, x) ∷ nodes) h = ground (arith, find-erase_node i j nodes h.2)

insert_node-All :
    (P : ℕ × Event → Type 0) (i : ℕ) (e : Event) (nodes : List (ℕ × Event))
    → P (i, e)
    → All P nodes
    → All P (insert_node i e nodes)
unfolding insert_node
insert_node-All P i e [] h a = (h, tt)
insert_node-All P i e ((j, x) ∷ nodes) h a = ground (arith, insert_node-All P i e nodes h a.1)

erase_node-All :
    (P : ℕ × Event → Type 0) (i : ℕ) (nodes : List (ℕ × Event))
    → All P nodes
    → All P (erase_node i nodes)
unfolding erase_node
erase_node-All P i [] a = tt
erase_node-All P i ((j, x) ∷ nodes) a = ground (arith, erase_node-All P i nodes a.1)

find_nil : (i : ℕ) → find_node i [] ≡ none
unfolding find_node
find_nil i = refl

find_tail :
    (i j : ℕ) (x : Event) (nodes : List (ℕ × Event))
    → find_node i ((j, x) ∷ nodes) ≡ none
    → ((j == i) ≡ false) × (find_node i nodes ≡ none)
unfolding find_node
find_tail i j x nodes h = (ground arith, ground arith)

pub insert_node-IsIndex :
    (i : ℕ) (e : Event) (nodes : List (ℕ × Event))
    → find_node i nodes ≡ none
    → IsIndex nodes
    → IsIndex (insert_node i e nodes)
unfolding insert_node
insert_node-IsIndex i e [] h v = (find_nil i, tt, tt)
insert_node-IsIndex i e ((j, x) ∷ nodes) h v = elim (Bool-cases (receive_order.less e x)) [
  | inl t ↦ rw t (
    h,
    (
      receive_order.less_asymm e x t,
      All-map (λ n. Le receive_order x n.1) (λ n. Le receive_order e n.1)
          (λ n k. receive_order.le_trans e x n.1 (receive_order.less_asymm e x t) k) nodes v.1,
    ),
    v,
  )
  | inr t ↦ rw t (
    ground (arith, find-insert_node i j e nodes, find_tail i j x nodes h),
    insert_node-All (λ n. Le receive_order x n.1) i e nodes t v.1,
    insert_node-IsIndex i e nodes (find_tail i j x nodes h).1 v.2,
  )
]

pub erase_node-IsIndex :
    (i : ℕ) (nodes : List (ℕ × Event)) → IsIndex nodes → IsIndex (erase_node i nodes)
unfolding erase_node
erase_node-IsIndex i [] v = tt
erase_node-IsIndex i ((j, x) ∷ nodes) v = elim (Bool-cases (j == i)) [
  | inl t ↦ rw t v.2
  | inr t ↦ rw t (
    ground (arith, find-erase_node i j nodes v.2),
    erase_node-All _ i nodes v.1,
    erase_node-IsIndex i nodes v.2,
  )
]

pub erase_low-IsIndex :
    (o : Option Event) (i : ℕ) (nodes : List (ℕ × Event))
    → IsIndex nodes
    → IsIndex (erase_low o i nodes)
erase_low-IsIndex none i nodes v = v
erase_low-IsIndex (some e) i nodes v = erase_node-IsIndex i nodes v

-- Where the low event of the object is known to be `o`, it is gone, and the others are as before.
pub find-erase_low :
    (o : Option Event) (i j : ℕ) (nodes : List (ℕ × Event))
    → IsIndex nodes
    → find_node i nodes ≡ o
    → find_node j (erase_low o i nodes) ≡ (if i == j then none else find_node j nodes)
find-erase_low none i j nodes v h = ground arith
find-erase_low (some e) i j nodes v h = find-erase_node i j nodes v

find-Le :
    (x : Event) (j : ℕ) (e : Event) (nodes : List (ℕ × Event))
    → All (λ n. Le receive_order x n.1) nodes
    → find_node j nodes ≡ some e
    → Le receive_order x e
unfolding find_node
find-Le x j e [] a h = cc
find-Le x j e ((k, y) ∷ nodes) a h = elim (Bool-cases (k == j)) [
  | inl t ↦ let same : y ≡ e = ground arith in subst (Le receive_order x) same a.0
  | inr t ↦ find-Le x j e nodes a.1 (ground arith)
]

-- The first node is not after any event that the index finds.
pub head-Le :
    (i j : ℕ) (x e : Event) (nodes : List (ℕ × Event))
    → IsIndex ((i, x) ∷ nodes)
    → find_node j ((i, x) ∷ nodes) ≡ some e
    → Le receive_order x e
unfolding find_node
head-Le i j x e nodes v h = elim (Bool-cases (i == j)) [
  | inl t ↦
      let same : x ≡ e = ground arith in subst (Le receive_order x) same (Le_refl receive_order x)
  | inr t ↦ find-Le x j e nodes v.1 (ground arith)
]
