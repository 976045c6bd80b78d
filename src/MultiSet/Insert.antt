-- ===== src/MultiSet/Insert.antt =====
-- Insertion keeps the invariant.
use pdes.Base.Sorting.Hint.{insert_hint-Sorted, hint_position-le}
use pdes.Base.Sorting.{hint_position}
use pdes.Base.{
  ℕ, zero, suc, ◌≡◌, refl, ◌∙◌, inl, inr, true, false, List, [], ◌∷◌, some, arith, All, Bool-cases,
  insert_at, head?, length-insert_at, if◌then◌else◌,
}
use pdes.MultiSet.Valid.{IsQueue, IsValid, put-IsValid, set_low-IsValid}
use pdes.MultiSet.{ObjectQueue, TimeWarpMultiSet, insert, put, set_low, starts_with}
use pdes.Event.Order.{receive_order, event_eq_refl}
use pdes.Event.{Event, event_eq}

-- No event of the list has the identity of the given one.
abbrev pub IsFresh : Event → List Event → Type 0
IsFresh e = All (λ x. event_eq e x ≡ false)

first_new :
    (k : ℕ) (e : Event) (xs : List Event)
    → IsFresh e xs
    → starts_with e (insert_at k e xs) ≡ true
    → some e ≡ head? (insert_at k e xs)
unfolding insert_at
first_new zero e xs f h = refl
first_new (suc k) e [] f h = refl
first_new (suc k) e (x ∷ xs) f h = absurd (ground arith)

first_old :
    (k : ℕ) (e : Event) (xs : List Event)
    → starts_with e (insert_at k e xs) ≡ false
    → head? xs ≡ head? (insert_at k e xs)
unfolding insert_at
first_old zero e xs h = absurd (ground (arith, event_eq_refl e))
first_old (suc k) e [] h = absurd (ground (arith, event_eq_refl e))
first_old (suc k) e (x ∷ xs) h = refl

inserted : ObjectQueue → Event → ObjectQueue
inserted q e =
    let pos = hint_position receive_order q.insert_pos e q.unprocessed in
    record q { unprocessed = insert_at pos e q.unprocessed; insert_pos = pos }

inserted-IsQueue : (q : ObjectQueue) (e : Event) → IsQueue q → IsQueue (inserted q e)
unfolding inserted
inserted-IsQueue q e g = record {
  in_order = insert_hint-Sorted receive_order q.insert_pos e q.unprocessed g.in_order;
  cursor = omega (
    arith,
    length-insert_at (hint_position receive_order q.insert_pos e q.unprocessed) e q.unprocessed,
    hint_position-le receive_order q.insert_pos e q.unprocessed g.in_order,
  );
}

insert_cases :
    (m : TimeWarpMultiSet) (e : Event)
    → let i = e.receiver.object in
      let q = inserted (m.queues i) e in
      insert m e ≡ (if starts_with e q.unprocessed then set_low m i q (some e) else put m i q)
unfolding insert inserted
insert_cases m e = refl

inserted_low : (q : ObjectQueue) (e : Event) → (inserted q e).low_pos ≡ q.low_pos
unfolding inserted
inserted_low q e = refl

inserted_first :
    (q : ObjectQueue) (e : Event)
    → IsFresh e q.unprocessed
    → starts_with e (inserted q e).unprocessed ≡ true
    → some e ≡ head? (inserted q e).unprocessed
unfolding inserted
inserted_first q e fresh t = first_new _ e q.unprocessed fresh t

inserted_behind :
    (q : ObjectQueue) (e : Event)
    → starts_with e (inserted q e).unprocessed ≡ false
    → head? q.unprocessed ≡ head? (inserted q e).unprocessed
unfolding inserted
inserted_behind q e t = first_old _ e q.unprocessed t

-- Insertion keeps the invariant, if no unprocessed event of the receiver has the identity of the
-- new one: the test for a new first event compares identities.
pub insert-IsValid :
    (m : TimeWarpMultiSet) (e : Event)
    → IsFresh e (m.queues e.receiver.object).unprocessed
    → IsValid m
    → IsValid (insert m e)
insert-IsValid m e fresh v = elim (Bool-cases (starts_with e (inserted q e).unprocessed)) [
  | inl t ↦
      rw (insert_cases m e, t)
        (set_low-IsValid v i (inserted q e) g (some e) (inserted_first q e fresh t)
          (inserted_low q e))
  | inr t ↦
      rw (insert_cases m e, t)
        (put-IsValid v i (inserted q e) g (inserted_low q e ∙ v.low i ∙ inserted_behind q e t)
          (inserted_low q e))
]
  where
    i : ℕ
    i = e.receiver.object

    q : ObjectQueue
    q = m.queues i

    g : IsQueue (inserted q e)
    g = inserted-IsQueue q e (v.queue i)
