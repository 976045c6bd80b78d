-- ===== src/Splay/Take.antt =====
-- `getEvent` takes out the first element, `peekEvent` shows it.
use mathlib.Core.List.{append-nil, append_assoc}
use pdes.Base.Sorting.{Sorted}
use pdes.Base.{
  ◌≡◌, refl, sym, ◌∙◌, ap, subst, Option, none, some, List, [], ◌∷◌, ◌++◌, length, head?, drop,
  arith, ◌==◌, false,
}
use pdes.Event.{Event}
use pdes.Splay.Descend.{element_order}
use pdes.Splay.First.{AllLeft, before-AllLeft, leftmost-in_order, address_of, head-append}
use pdes.Splay.InOrder.{in_order, before, after, around, in_order-rebuild}
use pdes.Splay.Valid.{IsValid, IsCurrent, IsCurrent-leftmost, IsHead, current-IsHead, with_root}
use pdes.Splay.{
  Element, Tree, leaf, node, Step, left_of, right_of, Place, SplayTree, unlink, taken, get_event,
  peek_event, leftmost, map_some, rebuild, or_else, follow_current,
}

abbrev pub event_of : Element → Event
event_of x = x.event

-- The answer and the tree of an operation that is to leave `rest` of the elements.
pub record IsAnswer (rest : List Element) (answer : Option Event) (u : SplayTree) (a : Option Event)
    : Type 0 where
  pub valid : IsValid u
  pub left : in_order u.root ≡ rest
  pub given : a ≡ answer

around-AllLeft :
    (path : List Step) (xs : List Element) → AllLeft path → around path xs ≡ xs ++ after path
unfolding around
around-AllLeft path xs h = rw (before-AllLeft path h) refl

leftmost-around :
    (path : List Step) (l : Tree) (x : Element) (r : Tree)
    → AllLeft path
    → leftmost (node l x r) ≡ leftmost (rebuild path (node l x r))
unfolding in_order
leftmost-around path l x r h =
    leftmost-in_order (node l x r)
    ∙ ap (map_some address_of) (sym (head-append (in_order l) x (in_order r) (after path)))
    ∙ ap (λ xs. map_some address_of (head? xs))
        (sym (in_order-rebuild path (node l x r) ∙ around-AllLeft path (in_order (node l x r)) h))
    ∙ sym (leftmost-in_order (rebuild path (node l x r)))

-- What `unlink` leaves, in order, and that the first one is below the node that it gives.
record Unlinked (p : Place) (path : List Step) : Type 0 where
  stays : in_order (unlink p path).0 ≡ in_order p.right ++ after path
  points : leftmost (unlink p path).1 ≡ leftmost (unlink p path).0

unlink-Unlinked : (p : Place) (path : List Step) → AllLeft path → Unlinked p path
unfolding AllLeft around before after in_order
unlink-Unlinked p [] h = record { stays = sym (append-nil (in_order p.right)); points = refl }
unlink-Unlinked p (left_of x r ∷ path) h = record {
  stays =
      in_order-rebuild path (node p.right x r)
      ∙ around-AllLeft path (in_order (node p.right x r)) h
      ∙ append_assoc (in_order p.right) (x ∷ in_order r) (after path);
  points = leftmost-around path p.right x r h;
}
unlink-Unlinked p (right_of l x ∷ path) h = absurd h

taken-IsAnswer :
    (s : SplayTree) (p : Place) {xs : List Element}
    → IsValid s
    → IsHead s.root p
    → xs ≡ in_order p.right ++ after p.path
    → IsAnswer xs (some p.element.event) (taken s p).0 (taken s p).1
taken-IsAnswer s p v h e =
    let u = unlink-Unlinked p p.path h.is_left in
    record {
      valid = record {
        sorted = rw u.stays (subst (Sorted element_order) h.elements v.sorted).1;
        count = omega (arith, v.count, ap length h.elements, ap length u.stays);
        pointer = IsCurrent-leftmost _ _ u.points;
      };
      left = u.stays ∙ sym e;
      given = refl;
    }

get_at_root :
    (t : Tree) (s : SplayTree)
    → IsValid (with_root s t)
    → (u : SplayTree) × (a : Option Event) × (get_event (with_root s t) ≡ some (u, a))
      × IsAnswer (drop 1 (in_order t)) (map_some event_of (head? (in_order t))) u a
unfolding get_event in_order
get_at_root leaf s v = (_, _, refl, record { valid = v; left = refl; given = refl })
get_at_root (node l x r) s v =
    let (p, found, h, c) = current-IsHead s l x r v in
    (
      (taken (with_root s (node l x r)) p).0,
      (taken (with_root s (node l x r)) p).1,
      rw found refl,
      rw h.elements (taken-IsAnswer (with_root s (node l x r)) p v h refl),
    )

-- `getEvent` on a valid tree ends without a fault, keeps the invariant, gives the first event, none
-- of an empty tree, and takes out no other.
pub get_event_lem :
    (s : SplayTree)
    → IsValid s
    → (u : SplayTree) × (a : Option Event) × (get_event s ≡ some (u, a))
      × IsAnswer (drop 1 (in_order s.root)) (map_some event_of (head? (in_order s.root))) u a
get_event_lem s v = get_at_root s.root s v

peek_node :
    (s : SplayTree) (l : Tree) (x : Element) (r : Tree) (p : Place)
    → follow_current (with_root s (node l x r)) ≡ some p
    → s.current ≡ some p.element.address
    → (s.number_of_elements == 0) ≡ false
    → peek_event (with_root s (node l x r)) ≡ some (with_root s (node l x r), some p.element.event)
unfolding peek_event
peek_node s l x r p found c n =
    let keeps : or_else s.current (leftmost (node l x r)) ≡ s.current = rw c refl in
    rw (n, keeps, found) refl

peek_at_root :
    (t : Tree) (s : SplayTree)
    → IsValid (with_root s t)
    → (u : SplayTree) × (a : Option Event) × (peek_event (with_root s t) ≡ some (u, a))
      × IsAnswer (in_order t) (map_some event_of (head? (in_order t))) u a
unfolding peek_event in_order IsCurrent
peek_at_root leaf s v = (
  record s { root = leaf; current = none; number_of_elements = 0 },
  none,
  refl,
  record { valid = record { sorted = tt; count = refl; pointer = tt }; left = refl; given = refl },
)
peek_at_root (node l x r) s v =
    let (p, found, h, c) = current-IsHead s l x r v in
    (
      with_root s (node l x r),
      some p.element.event,
      peek_node s l x r p found c (ground (arith, v.count, ap length h.elements)),
      record {
        valid = v;
        left = refl;
        given = sym (ap (λ xs. map_some event_of (head? xs)) h.elements);
      },
    )

-- `peekEvent` on a valid tree ends without a fault, keeps the invariant and the elements, and gives
-- the first event, none of an empty tree.
pub peek_event_lem :
    (s : SplayTree)
    → IsValid s
    → (u : SplayTree) × (a : Option Event) × (peek_event s ≡ some (u, a))
      × IsAnswer (in_order s.root) (map_some event_of (head? (in_order s.root))) u a
peek_event_lem s v = peek_at_root s.root s v
