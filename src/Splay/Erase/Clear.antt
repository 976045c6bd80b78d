-- ===== src/Splay/Erase/Clear.antt =====
-- `clear` erases the elements one by one, and looks for the current one once more at the end.
use Prim.Native.Nat.Ordering.{eq}
use pdes.Base.{
  ℕ, zero, suc, ◌≤◌, ◌≡◌, ◌∙◌, ap, subst, inl, inr, refl, ◌⊎◌, ◌≢◌, Option, none, some, List, ◌∷◌,
  All, length, length-append, arith, ◌>>=◌,
}
use pdes.Event.{Event}
use pdes.Splay.Erase.Gone.{IsErasure, erase_lem}
use pdes.Splay.Erase.Search.{Differs}
use pdes.Splay.Erase.{
  clear_loop, clear, clear_below, erase_current, ClearResult, cleared, fault, erase,
}
use pdes.Splay.InOrder.{in_order}
use pdes.Splay.Valid.{IsValid, IsCurrent, current-IsHead, with_root}
use pdes.Stack.{StackOfPtr, delete_all}
use pdes.Splay.{
  Element, Tree, leaf, node, SplayTree, compare_event, clean_up, leftmost, follow, Place,
  follow_current,
}

compare_event_refl : (e : Event) → compare_event e e ≡ eq
unfolding compare_event
compare_event_refl e = ground arith

-- After an erasure of the current element one is gone, and the pointer is still not null.
record IsShorter (s u : SplayTree) : Type 0 where
  count : suc (length (in_order u.root)) ≡ length (in_order s.root)
  pointer : u.root ≡ leaf → u.current ≡ s.current

shorter :
    (s : SplayTree) (x : Element) (xs : List Element) (u : SplayTree)
    → in_order s.root ≡ x ∷ xs
    → IsErasure s x.event u
    → IsShorter s u
unfolding IsErasure Differs
shorter s x xs u e (inl (h, same)) =
    absurd ((subst (All (Differs x.event)) e h).0 (compare_event_refl x.event))
shorter s x xs u e (inr t) = record {
  count = omega (
    arith,
    ap length t.was,
    ap length t.is,
    length-append t.ahead (t.gone ∷ t.behind),
    length-append t.ahead t.behind,
  );
  pointer = t.kept;
}

pointer-some :
    (t : Tree) (c : Option ℕ) (a : ℕ)
    → IsCurrent t c
    → (t ≡ leaf → c ≡ some a)
    → (b : ℕ) × (c ≡ some b)
unfolding IsCurrent leftmost
pointer-some leaf c a h k = (a, k refl)
pointer-some (node leaf x r) c a h k = (_, h)
pointer-some (node (node l y m) x r) c a h k = pointer-some (node l y m) c a h (λ e. absurd cc)

erase_current-some :
    (s u : SplayTree) (p : Place)
    → follow_current s ≡ some p
    → erase s p.element.event ≡ some u
    → erase_current s ≡ some u
unfolding erase_current
erase_current-some s u p found done = rw (found, done) refl

clear_step :
    (n : ℕ) (s u : SplayTree) (a : ℕ)
    → s.current ≡ some a
    → erase_current s ≡ some u
    → clear_loop (suc n) s ≡ clear_loop n u
unfolding clear_loop
clear_step n s u a c h =
    ap
      (λ o. elim o [
        | none ↦ cleared (record s { number_of_elements = 0 })
        | some b ↦ elim (erase_current s) [ none ↦ fault | some t ↦ clear_loop n t ]
      ])
      c
    ∙ ap (λ o. elim o [ none ↦ fault | some t ↦ clear_loop n t ]) h

clear_end :
    (n : ℕ) (s : SplayTree) (a : ℕ)
    → s.current ≡ some a
    → clear_loop (suc n) (with_root s leaf) ≡ fault
unfolding clear_loop follow erase_current
clear_end n s a c = rw c refl

-- One turn of the loop on a tree that is not empty.
record IsTurn (n : ℕ) (s : SplayTree) : Type 0 where
  after_turn : SplayTree
  pointer : ℕ
  turned : clear_loop (suc n) s ≡ clear_loop n after_turn
  valid : IsValid after_turn
  current : after_turn.current ≡ some pointer
  count : suc (length (in_order after_turn.root)) ≡ length (in_order s.root)

turn :
    (n : ℕ) (l : Tree) (x : Element) (r : Tree) (s : SplayTree)
    → IsValid (with_root s (node l x r))
    → IsTurn n (with_root s (node l x r))
turn n l x r s v =
    let t = with_root s (node l x r) in
    let (p, found, h, c) = current-IsHead s l x r v in
    let (u, done, valid, erasure) = erase_lem t p.element.event v in
    let short = shorter t p.element _ u h.elements erasure in
    let (b, some_b) =
      pointer-some u.root u.current p.element.address valid.pointer (λ e. short.pointer e ∙ c) in
    record {
      after_turn = u;
      pointer = b;
      turned = clear_step n t u p.element.address c (erase_current-some t u p found done);
      valid = valid;
      current = some_b;
      count = short.count;
    }

clear_loop-fault :
    (n : ℕ) (t : Tree) (s : SplayTree) (a : ℕ)
    → IsValid (with_root s t)
    → s.current ≡ some a
    → length (in_order t) ≤ n
    → clear_loop (suc n) (with_root s t) ≡ fault
clear_loop-fault n leaf s a v c h = clear_end n s a c
clear_loop-fault zero (node l x r) s a v c h =
    let t = turn zero l x r s v in absurd (omega (arith, t.count))
clear_loop-fault (suc n) (node l x r) s a v c h =
    let t = turn (suc n) l x r s v in
    t.turned
    ∙ clear_loop-fault n t.after_turn.root t.after_turn t.pointer t.valid t.current
        (omega (arith, t.count))

-- How `clear` ends in an empty tree.
abbrev pub cleaned : Option SplayTree → ClearResult
cleaned none = fault
cleaned (some t) = cleared t

-- What is left to be cleared is the tree, in whatever state the stack is.
clear_below_lem :
    (t : Tree) (s : SplayTree)
    → IsValid (with_root s t)
    → (t ≢ leaf)
    → clear_below (with_root s t) t ≡ fault
clear_below_lem leaf s v n = absurd (n refl)
clear_below_lem (node l x r) s v n =
    let (p, found, h, c) = current-IsHead s l x r v in
    clear_loop-fault s.number_of_elements (node l x r) s p.element.address v c
      (omega (arith, v.count))

clear_at_root :
    (t : Tree) (s : SplayTree)
    → IsValid (with_root s t)
    → ((t ≡ leaf) × (clear (with_root s t) ≡ cleaned (clean_up (with_root s t))))
      ⊎ ((t ≢ leaf) × (clear (with_root s t) ≡ fault))
unfolding clear clean_up
clear_at_root leaf s v = inl (refl, at_stack (delete_all s.processed_elements))
  where
    at_stack :
        (o : Option (StackOfPtr Element))
        → elim (do p ← o; some (record (with_root s leaf) { processed_elements = p })) [
          | none ↦ fault
          | some t ↦ clear_below t leaf
        ]
          ≡ cleaned (do p ← o; some (record (with_root s leaf) { processed_elements = p }))
    at_stack none = refl
    at_stack (some p) = refl
clear_at_root (node l x r) s v = inr (λ e. cc, at_stack (delete_all s.processed_elements))
  where
    at_stack :
        (o : Option (StackOfPtr Element))
        → elim (do p ← o; some (record (with_root s (node l x r)) { processed_elements = p })) [
          | none ↦ fault
          | some t ↦ clear_below t (node l x r)
        ]
          ≡ fault
    at_stack none = refl
    at_stack (some p) =
        clear_below_lem (node l x r) (record s { processed_elements = p })
          (record { sorted = v.sorted; count = v.count; pointer = v.pointer }) (λ e. cc)

-- `clear` on a valid tree: in an empty one it frees the processed elements and changes no more, with
-- the fault of `cleanUp` if that has one; in any other it ends in a fault, for `current` still points
-- to the element that was erased last.
pub clear_lem :
    (s : SplayTree)
    → IsValid s
    → ((s.root ≡ leaf) × (clear s ≡ cleaned (clean_up s))) ⊎ ((s.root ≢ leaf) × (clear s ≡ fault))
clear_lem s v = clear_at_root s.root s v
