-- ===== src/Splay/Queue.antt =====
-- The tree as a client sees it: a list of events in the order of `CompareEvent`, which forgets the
-- shape of the tree, the addresses and the cached pointer.
use mathlib.Core.List.{map}
use pdes.Base.{
  ℕ, zero, suc, Bool, true, false, subst, arith, ◌≡◌, refl, sym, ◌∙◌, ap, inl, inr, Option, none,
  some, List, [], ◌∷◌, head?, drop, Bool-cases, if◌then◌else◌, ◌>>=◌,
}
use pdes.Event.{Event}
use pdes.Splay.Descend.{enqueue}
use pdes.Splay.InOrder.{in_order}
use pdes.Splay.Insert.{insert_lem, new_element}
use pdes.Splay.Take.{event_of, IsAnswer, get_event_lem, peek_event_lem}
use pdes.Splay.Room.{
  HasRoom, empty-HasRoom, insert-IsWhole, get_event-IsWhole, peek_event-IsWhole, clean_up-HasRoom,
}
use pdes.Stack.{initial_size}
use pdes.Splay.{
  Element, SplayTree, empty, not_after, insert, get_event, peek_event, clean_up, map_some,
}

-- The calls of a client.
pub data Command : Type 0 where
  put : Event → Command
  take_out : Command
  look : Command
  tidy : Command

abbrev without_answer : SplayTree → SplayTree × Option Event
without_answer s = (s, none)

unfoldable pub perform : Command → SplayTree → Option (SplayTree × Option Event)
perform (put e) s = map_some without_answer (insert s e)
perform take_out s = get_event s
perform look s = peek_event s
perform tidy s = map_some without_answer (clean_up s)

-- The events in front of which a new one is put are those that it is not after.
unfoldable pub put_in_order : Event → List Event → List Event
put_in_order e [] = e ∷ []
put_in_order e (x ∷ xs) = if not_after e x then e ∷ x ∷ xs else x ∷ put_in_order e xs

-- The room that a call leaves on the stack of processed elements, of which there must be some to take
-- out an element.
abbrev pub room_left : Command → ℕ → Option ℕ
room_left (put e) room = some room
room_left take_out zero = none
room_left take_out (suc room) = some room
room_left look room = some room
room_left tidy room = some initial_size

-- At most `room` calls of `take_out` come before the first `tidy`, and at most 1000 between two.
unfoldable pub fits : ℕ → List Command → Bool
fits room [] = true
fits room (c ∷ cs) = elim (room_left c room) [ none ↦ false | some left ↦ fits left cs ]

-- What the list makes of a call, and its answer.
unfoldable pub promise : Command → List Event → List Event × Option Event
promise (put e) xs = (put_in_order e xs, none)
promise take_out xs = (drop 1 xs, head? xs)
promise look xs = (xs, head? xs)
promise tidy xs = (xs, none)

-- The answers to a sequence of calls; none of them if a call follows a null or a dangling pointer.
unfoldable pub run : List Command → SplayTree → Option (List (Option Event))
run [] s = some []
run (c ∷ cs) s = do (t, a) ← perform c s; answers ← run cs t; some (a ∷ answers)

unfoldable pub run_promise : List Command → List Event → List (Option Event)
run_promise [] xs = []
run_promise (c ∷ cs) xs = let (ys, a) = promise c xs in a ∷ run_promise cs ys

-- The list that a tree stands for.
abbrev pub view : SplayTree → List Event
view s = map event_of (in_order s.root)

some_eq : {A : Type 0} {a b : A} → some a ≡ some b → a ≡ b
some_eq h = cc

map-enqueue :
    (x : Element) (xs : List Element)
    → map event_of (enqueue x xs) ≡ put_in_order x.event (map event_of xs)
unfolding enqueue put_in_order
map-enqueue x [] = refl
map-enqueue x (y ∷ xs) = elim (Bool-cases (not_after x.event y.event)) [
  | inl t ↦ rw t refl
  | inr t ↦ rw t (ap (λ zs. y.event ∷ zs) (map-enqueue x xs))
]

map-head : (xs : List Element) → map_some event_of (head? xs) ≡ head? (map event_of xs)
map-head [] = refl
map-head (x ∷ xs) = refl

map-drop : (xs : List Element) → map event_of (drop 1 xs) ≡ drop 1 (map event_of xs)
map-drop [] = refl
map-drop (x ∷ xs) = refl

taken_promise :
    (xs : List Element) (u : SplayTree) (a : Option Event)
    → IsAnswer (drop 1 xs) (map_some event_of (head? xs)) u a
    → promise take_out (map event_of xs) ≡ (view u, a)
unfolding promise
taken_promise xs u a i = rw (i.given, map-head xs, i.left, map-drop xs) refl

looked_promise :
    (xs : List Element) (u : SplayTree) (a : Option Event)
    → IsAnswer xs (map_some event_of (head? xs)) u a
    → promise look (map event_of xs) ≡ (view u, a)
unfolding promise
looked_promise xs u a i = rw (i.given, map-head xs, i.left) refl

-- The call of the list that a call of the tree implements.
pub record Refines (c : Command) (s : SplayTree) (left : ℕ) : Type 0 where
  pub tree : SplayTree
  pub answer : Option Event
  pub performed : perform c s ≡ some (tree, answer)
  pub valid : HasRoom left tree
  pub promised : promise c (view s) ≡ (view tree, answer)

-- Every call on a valid tree with room on its stack ends without a fault, keeps the invariant, and
-- does to the list of its events what is promised of the call, with the promised answer.
pub perform-Refines :
    (c : Command) (room left : ℕ) (s : SplayTree)
    → room_left c room ≡ some left
    → HasRoom room s
    → Refines c s left
unfolding perform promise
perform-Refines (put e) room left s r h =
    let (u, done, i) = insert_lem s e h.valid in
    record {
      tree = u;
      answer = none;
      performed = rw done refl;
      valid =
          subst (λ n. HasRoom n u) (some_eq r)
            (record { valid = i.valid; whole = insert-IsWhole room s e u done h.whole });
      promised =
          ap (λ xs. (xs, none))
            (sym (ap (map event_of) i.elements ∙ map-enqueue (new_element s e) (in_order s.root)));
    }
perform-Refines take_out zero left s r h = cc
perform-Refines take_out (suc room) left s r h =
    let (u, a, done, i) = get_event_lem s h.valid in
    record {
      tree = u;
      answer = a;
      performed = done;
      valid =
          subst (λ n. HasRoom n u) (some_eq r)
            (record { valid = i.valid; whole = get_event-IsWhole room s u a done h.whole });
      promised = taken_promise (in_order s.root) u a i;
    }
perform-Refines look room left s r h =
    let (u, a, done, i) = peek_event_lem s h.valid in
    record {
      tree = u;
      answer = a;
      performed = done;
      valid =
          subst (λ n. HasRoom n u) (some_eq r)
            (record { valid = i.valid; whole = peek_event-IsWhole room s u a done h.whole });
      promised = looked_promise (in_order s.root) u a i;
    }
perform-Refines tidy room left s r h =
    let (u, done, ready, same) = clean_up-HasRoom room s h in
    record {
      tree = u;
      answer = none;
      performed = rw done refl;
      valid = subst (λ n. HasRoom n u) (some_eq r) ready;
      promised = ap (λ t. (map event_of (in_order t), none)) (sym same);
    }

fits-left :
    (c : Command) (cs : List Command) (room : ℕ)
    → fits room (c ∷ cs) ≡ true
    → (left : ℕ) × (room_left c room ≡ some left) × (fits left cs ≡ true)
unfolding fits
fits-left c cs room h = at_left (room_left c room) h
  where
    at_left :
        (o : Option ℕ)
        → elim o [ none ↦ false | some left ↦ fits left cs ] ≡ true
        → (left : ℕ) × (o ≡ some left) × (fits left cs ≡ true)
    at_left none h = absurd (ground (arith, h))
    at_left (some left) h = (left, refl, h)

run-from :
    (cs : List Command) (room : ℕ) (s : SplayTree)
    → fits room cs ≡ true
    → HasRoom room s
    → run cs s ≡ some (run_promise cs (view s))
unfolding run run_promise
run-from [] room s f v = refl
run-from (c ∷ cs) room s f v =
    let (left, l, fs) = fits-left c cs room f in
    let r = perform-Refines c room left s l v in
    rw (r.performed, r.promised, run-from cs left r.tree fs r.valid) refl

-- Any sequence of calls of `insert`, `getEvent`, `peekEvent` and `cleanUp` on a new tree, with at most
-- 1000 calls of `getEvent` before the first `cleanUp` and between any two, is answered, with no fault
-- on the way, as a list that is kept in the order of `CompareEvent` answers it, the latest of equal
-- events first.
pub run-run_promise :
    (cs : List Command) → fits initial_size cs ≡ true → run cs empty ≡ some (run_promise cs [])
unfolding in_order
run-run_promise cs f = run-from cs initial_size empty f empty-HasRoom
