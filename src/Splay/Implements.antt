-- ===== src/Splay/Implements.antt =====
-- The tree keeps what EventSet.h promises its clients.
use mathlib.Core.List.Perm
use mathlib.Core.List.{map}
use pdes.Base.Sorting.{Sorted, Le}
use pdes.Base.{
  ℕ, suc, ◌≡◌, ◌≤◌, refl, ap, inl, inr, Option, some, List, [], ◌∷◌, All, Perm, head?, drop,
  Bool-cases, arith, true,
}
use pdes.Event.{Event}
use pdes.EventSet.{EventSet, IsFirstOf, IsLowest}
use pdes.Splay.Descend.{element_order}
use pdes.Splay.InOrder.{in_order}
use pdes.Splay.Queue.{view}
use pdes.Splay.Take.{event_of, get_event_lem, peek_event_lem}
use pdes.Splay.Insert.{insert_lem, new_element}
use pdes.Splay.Descend.{enqueue}
use pdes.Splay.Room.{
  HasRoom, insert-IsWhole, get_event-IsWhole, peek_event-IsWhole, clean_up-HasRoom,
}
use pdes.Stack.{initial_size}
use pdes.Splay.{
  Element, SplayTree, insert, get_event, peek_event, clean_up, not_after, compare_event, map_some,
}

enqueue-perm : (x : Element) (xs : List Element) → Perm (x ∷ xs) (enqueue x xs)
unfolding enqueue
enqueue-perm x [] = Perm.refl _
enqueue-perm x (y ∷ xs) = elim (Bool-cases (not_after x.event y.event)) [
  | inl t ↦ rw t (Perm.refl _)
  | inr t ↦ rw t (Perm.trans (Perm.swap y x xs) (Perm.cons y (enqueue-perm x xs)))
]

not_after-le : (a b : Event) → not_after a b ≡ true → a.receive_time ≤ b.receive_time
unfolding not_after compare_event
not_after-le a b h = ground arith

lowest :
    (x : Element) (xs : List Element)
    → All (Le element_order x) xs
    → IsLowest x.event (map event_of xs)
lowest x [] h = tt
lowest x (y ∷ xs) h = (not_after-le x.event y.event (ground arith), lowest x xs h.1)

first_of :
    (xs : List Element)
    → Sorted element_order xs
    → IsFirstOf (map_some event_of (head? xs)) (map event_of xs) (map event_of (drop 1 xs))
unfolding IsFirstOf
first_of [] s = (refl, refl)
first_of (x ∷ xs) s = (refl, lowest x xs s.0)

pub insert-view :
    (room : ℕ) (s : SplayTree) (e : Event)
    → HasRoom room s
    → (t : SplayTree) × (insert s e ≡ some t) × HasRoom room t × Perm (e ∷ view s) (view t)
insert-view room s e v =
    let (t, done, i) = insert_lem s e v.valid in
    (
      t,
      done,
      record { valid = i.valid; whole = insert-IsWhole room s e t done v.whole },
      rw i.elements (Perm.map event_of (enqueue-perm (new_element s e) (in_order s.root))),
    )

pub get_event-view :
    (room : ℕ) (s : SplayTree)
    → HasRoom (suc room) s
    → (t : SplayTree) × (a : Option Event) × (get_event s ≡ some (t, a))
      × HasRoom room t
      × IsFirstOf a (view s) (view t)
get_event-view room s v =
    let (t, a, done, i) = get_event_lem s v.valid in
    (
      t,
      a,
      done,
      record { valid = i.valid; whole = get_event-IsWhole room s t a done v.whole },
      rw (i.given, i.left) (first_of (in_order s.root) v.valid.sorted),
    )

pub peek_event-view :
    (room : ℕ) (s : SplayTree)
    → HasRoom room s
    → (t : SplayTree) × (a : Option Event) × (others : List Event) × (peek_event s ≡ some (t, a))
      × HasRoom room t
      × (view t ≡ view s)
      × IsFirstOf a (view s) others
peek_event-view room s v =
    let (t, a, done, i) = peek_event_lem s v.valid in
    (
      t,
      a,
      map event_of (drop 1 (in_order s.root)),
      done,
      record { valid = i.valid; whole = peek_event-IsWhole room s t a done v.whole },
      ap (map event_of) i.left,
      rw i.given (first_of (in_order s.root) v.valid.sorted),
    )

pub clean_up-view :
    (room : ℕ) (s : SplayTree)
    → HasRoom room s
    → (t : SplayTree) × (clean_up s ≡ some t) × HasRoom initial_size t × (view t ≡ view s)
clean_up-view room s v =
    let (t, done, ready, same) = clean_up-HasRoom room s v in
    (t, done, ready, ap (λ r. map event_of (in_order r)) same)

-- The event set of the splay tree.
abbrev pub splay_set : EventSet
splay_set = record {
  Store = SplayTree;
  limit = initial_size;
  IsValid = HasRoom;
  view = view;
  insert = insert;
  get_event = get_event;
  peek_event = peek_event;
  clean_up = clean_up;
  insert_law = insert-view;
  get_event_law = get_event-view;
  peek_event_law = peek_event-view;
  clean_up_law = clean_up-view;
}
