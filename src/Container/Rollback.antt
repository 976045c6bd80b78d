-- ===== src/Container/Rollback.antt =====
-- A rollback takes back exactly the processing from its time on, and makes room for a straggler.
use mathlib.Core.List.{}
use pdes.Base.Sorting.{Le, Le_refl, Sorted}
use pdes.Base.{
  ℕ, ◌≤◌, ◌<◌, ◌≡◌, refl, sym, ◌∙◌, subst, inl, inr, false, List, [], ◌∷◌, ◌++◌, none, some, arith,
  All, All-append, All-left, All-map, front, rest, front-append-rest, front-All, ltb→lt, last?,
  extract, Bool-cases, Option-cases, ◌⊎◌,
}
use pdes.Container.Causality.{IsValid, InOrder, AllBefore, Sorted-left, Sorted-split}
use pdes.Container.{Container, before, insert, rollback, is_in_the_past, same_event}
use pdes.Event.Order.{receive_order, receive_less-le}
use pdes.Event.{Event, receive_less}

-- From the first entry on that is not before the time, no entry is, in a list in order.
pub rest-late :
    (time : ℕ) (xs : List Event)
    → Sorted receive_order xs
    → All (λ e. time ≤ e.receive_time) (rest (before time) xs)
unfolding rest
rest-late time [] s = tt
rest-late time (x ∷ xs) s = elim (Bool-cases (before time x)) [
  | inl e ↦ rw e (rest-late time xs s.1)
  | inr e ↦
      let late : time ≤ x.receive_time = ground arith in
      rw e (
        late,
        All-map (Le receive_order x) (λ y. time ≤ y.receive_time)
            (λ y h. omega (arith, receive_less-le x y h)) xs s.0,
      )
]

-- A rollback splits the processed events, which stand in order, at its time: those before it stay
-- processed, and those that it undoes go back to the unprocessed ones. The rest of the container
-- stays as it is, and the flag asks for a new sort.
pub rollback_split :
    (c : Container) (time : ℕ)
    → Sorted receive_order c.processed
    → (undone : List Event) × (c.processed ≡ (rollback c time).processed ++ undone)
      × ((rollback c time).unprocessed ≡ c.unprocessed ++ undone)
      × All (λ e. e.receive_time < time) (rollback c time).processed
      × All (λ e. time ≤ e.receive_time) undone
      × ((rollback c time).removed ≡ c.removed)
      × ((rollback c time).negative ≡ c.negative)
      × IsValid (rollback c time)
unfolding rollback
rollback_split c time s = (
  rest (before time) c.processed,
  sym (front-append-rest (before time) c.processed),
  refl,
  All-map _ _ (λ e h. ltb→lt _ _ h) _ (front-All (before time) c.processed),
  rest-late time c.processed s,
  refl,
  refl,
  λ h. cc,
)

-- After a rollback the events still processed stand in order, and no unprocessed event is in their
-- past, if that was so before.
pub rollback-InOrder : (c : Container) (time : ℕ) → InOrder c → InOrder (rollback c time)
unfolding rollback
rollback-InOrder c time o = record {
  done = Sorted-left kept undone whole;
  ahead =
      joined kept
        (All-left (λ p. All (Le receive_order p) c.unprocessed) kept undone
          (subst (λ ps. AllBefore ps c.unprocessed) e o.ahead))
        (Sorted-split kept undone whole);
}
  where
    kept : List Event
    kept = front (before time) c.processed

    undone : List Event
    undone = rest (before time) c.processed

    e : c.processed ≡ kept ++ undone
    e = sym (front-append-rest (before time) c.processed)

    whole : Sorted receive_order (kept ++ undone)
    whole = subst (Sorted receive_order) e o.done

    joined :
        (ps : List Event)
        → AllBefore ps c.unprocessed
        → AllBefore ps undone
        → AllBefore ps (c.unprocessed ++ undone)
    joined [] h k = tt
    joined (p ∷ ps) h k =
        (All-append (Le receive_order p) c.unprocessed undone h.0 k.0, joined ps h.1 k.1)

insert-unprocessed :
    (c : Container) (e : Event)
    → ((insert c e).processed ≡ c.processed)
      × (((insert c e).unprocessed ≡ c.unprocessed)
          ⊎ ((insert c e).unprocessed ≡ c.unprocessed ++ e ∷ []))
unfolding insert
insert-unprocessed c e = elim (Option-cases (extract (same_event e) c.negative)) [
  | inl h ↦ rw (h, insert) (refl, inr refl)
  | inr ((n, others), h) ↦ rw (h, insert) (refl, inl refl)
]

AllBefore-snoc :
    (ps xs : List Event) (e : Event)
    → AllBefore ps xs
    → All (λ p. Le receive_order p e) ps
    → AllBefore ps (xs ++ e ∷ [])
AllBefore-snoc [] xs e h k = tt
AllBefore-snoc (p ∷ ps) xs e h k =
    (All-append (Le receive_order p) xs (e ∷ []) h.0 (k.0, tt), AllBefore-snoc ps xs e h.1 k.1)

insert-ahead :
    (c : Container) (e : Event)
    → AllBefore c.processed c.unprocessed
    → All (λ p. Le receive_order p e) c.processed
    → AllBefore c.processed (insert c e).unprocessed
insert-ahead c e o h = elim (insert-unprocessed c e).1 [
  | inl same ↦ rw same o
  | inr more ↦ rw more (AllBefore-snoc c.processed c.unprocessed e o h)
]

insert-InOrder :
    (c : Container) (e : Event)
    → InOrder c
    → All (λ p. Le receive_order p e) c.processed
    → InOrder (insert c e)
insert-InOrder c e o h = record {
  done = subst (Sorted receive_order) (sym same) o.done;
  ahead =
      subst (λ ps. AllBefore ps (insert c e).unprocessed) (sym same) (insert-ahead c e o.ahead h);
}
  where
    same : (insert c e).processed ≡ c.processed
    same = (insert-unprocessed c e).0

last_refl : (x l : Event) → some x ≡ some l → Le receive_order x l
last_refl x l h = let e : x ≡ l = cc in subst (Le receive_order x) e (Le_refl receive_order x)

-- In a list in order no entry is after the last.
Sorted-last :
    (xs : List Event) (l : Event)
    → Sorted receive_order xs
    → last? xs ≡ some l
    → All (λ p. Le receive_order p l) xs
unfolding last?
Sorted-last [] l s h = tt
Sorted-last (x ∷ []) l s h = (last_refl x l h, tt)
Sorted-last (x ∷ y ∷ xs) l s h =
    let later : All (λ p. Le receive_order p l) (y ∷ xs) = Sorted-last (y ∷ xs) l s.1 h in
    (receive_order.le_trans x y l s.0.0 later.0, later)

past_test :
    (c : Container) (e l : Event)
    → last? c.processed ≡ some l
    → is_in_the_past c e ≡ receive_less e l
unfolding is_in_the_past receive_less
past_test c e l h = ground arith

last?-none : (xs : List Event) → last? xs ≡ none → xs ≡ []
unfolding last?
last?-none [] h = refl
last?-none (x ∷ []) h = cc
last?-none (x ∷ y ∷ xs) h = absurd (ground (arith, last?-none (y ∷ xs) h))

not_past-All :
    (c : Container) (e : Event)
    → Sorted receive_order c.processed
    → is_in_the_past c e ≡ false
    → All (λ p. Le receive_order p e) c.processed
not_past-All c e s h = elim (Option-cases (last? c.processed)) [
  | inl no_last ↦ rw (last?-none c.processed no_last) tt
  | inr (l, e') ↦
      All-map (λ p. Le receive_order p l) (λ p. Le receive_order p e)
        (λ p k. receive_order.le_trans p l e k (sym (past_test c e l e') ∙ h)) c.processed
        (Sorted-last c.processed l s e')
]

-- An event that `is_in_the_past` passes, which looks at the last processed event only, can be
-- inserted with no rollback: no unprocessed event is then in the past of a processed one.
pub insert_not_past-InOrder :
    (c : Container) (e : Event) → InOrder c → is_in_the_past c e ≡ false → InOrder (insert c e)
insert_not_past-InOrder c e o h = insert-InOrder c e o (not_past-All c e o.done h)

early-Le :
    (time : ℕ) (e p : Event) → time ≤ e.receive_time → p.receive_time < time → Le receive_order p e
unfolding receive_less
early-Le time e p h k = ground arith

-- A straggler can be inserted after a rollback to its receive time or to an earlier time.
pub insert-rollback-InOrder :
    (c : Container) (e : Event) (time : ℕ)
    → InOrder c
    → time ≤ e.receive_time
    → InOrder (insert (rollback c time) e)
insert-rollback-InOrder c e time o h =
    let (_, _, _, kept_early, _, _, _, _) = rollback_split c time o.done in
    insert-InOrder (rollback c time) e (rollback-InOrder c time o) (
      All-map (λ p. p.receive_time < time) (λ p. Le receive_order p e)
        (λ p k. early-Le time e p h k) _ kept_early)
