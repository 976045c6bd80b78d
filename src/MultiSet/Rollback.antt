-- ===== src/MultiSet/Rollback.antt =====
-- A rollback of one object never reads through `end()`, keeps the invariant and mends the index of
-- lowest events; fossil collection leaves the unprocessed events alone.
use mathlib.Core.List.{append-eq-nil_iff}
use mathlib.Core.List.Perm
use pdes.Base.Sorting.{Sorted, insert_all, insert_all-Sorted, insert_all-perm, insert_all-All}
use pdes.Base.{
  ℕ, ◌+◌, ◌<◌, ◌≤◌, ◌≡◌, ◌≢◌, refl, sym, ap, ◌∙◌, subst, ◌⊎◌, inl, inr, false, List, [], ◌∷◌, ◌++◌,
  Option, none, some, Perm, arith, All, All-map, All-left, All-right, List-cases, length, head?,
  front, rest, front-append-rest, front-All, rest-All, ltb→lt, wrap32,
}
use pdes.Container.Rollback.{rest-late}
use pdes.MultiSet.Insert.{IsFresh}
use pdes.Base.Maps.{update_self, update_ne}
use pdes.MultiSet.Valid.{IsQueue, IsValid, put-IsValid, set_low-IsValid, set_low_self, set_low_ne}
use pdes.MultiSet.{ObjectQueue, TimeWarpMultiSet, rollback, mend_low, put, set_low, before}
use pdes.Event.Order.{receive_order, event_eq_refl}
use pdes.Event.{Event, event_eq}

-- The queue of an object after a rollback, its low iterator not yet mended.
undone : ObjectQueue → ℕ → ObjectQueue
undone q time = record q {
  unprocessed = insert_all receive_order (rest (before time) q.processed) q.unprocessed;
  insert_pos = 0;
  processed = front (before time) q.processed;
}

counted : TimeWarpMultiSet → ℕ → ℕ → TimeWarpMultiSet
counted m i time = record m {
  rolled_back = wrap32 (m.rolled_back + length (rest (before time) (m.queues i).processed));
}

counted-IsValid : (m : TimeWarpMultiSet) (i time : ℕ) → IsValid m → IsValid (counted m i time)
unfolding counted
counted-IsValid m i time v = record {
  queue = v.queue;
  low = v.low;
  found = v.found;
  index = v.index;
}

rollback_lem :
    (m : TimeWarpMultiSet) (i time : ℕ)
    → rollback m i time
      ≡ mend_low
          (counted m i time)
          i
          (undone (m.queues i) time)
          (m.queues i).low_pos
          (head? (undone (m.queues i) time).unprocessed)
unfolding rollback counted undone
rollback_lem m i time = refl

undone-IsQueue : (q : ObjectQueue) (time : ℕ) → IsQueue q → IsQueue (undone q time)
unfolding undone
undone-IsQueue q time g = record {
  in_order =
      insert_all-Sorted receive_order (rest (before time) q.processed) q.unprocessed g.in_order;
  cursor = omega arith;
}

-- The low event is the only event of the object with its identity, where there is one.
abbrev pub IsUnique : ObjectQueue → Type 0
IsUnique q =
    (l : Event) → (es : List Event) → q.unprocessed ≡ l ∷ es → IsFresh l (es ++ q.processed)

-- What a rollback of object `i` to a time must do.
pub record RollsBack (m n : TimeWarpMultiSet) (i time : ℕ) (late : List Event) : Type 0 where
  pub split : (m.queues i).processed ≡ (n.queues i).processed ++ late
  pub returned : Perm (n.queues i).unprocessed (late ++ (m.queues i).unprocessed)
  pub kept_early : All (λ e. e.receive_time < time) (n.queues i).processed
  pub late_enough : All (λ e. time ≤ e.receive_time) late
  pub same_removed : (n.queues i).removed ≡ (m.queues i).removed
  pub others : (j : ℕ) → j ≢ i → n.queues j ≡ m.queues j
  pub same_executed : n.executed ≡ m.executed
  pub same_committed : n.committed ≡ m.committed
  pub counted : n.rolled_back ≡ wrap32 (m.rolled_back + length late)

-- The counters of the second set are those of the first one.
abbrev SameCounters : TimeWarpMultiSet → TimeWarpMultiSet → Type 0
SameCounters m n =
    (n.rolled_back ≡ m.rolled_back) × (n.executed ≡ m.executed) × (n.committed ≡ m.committed)

-- The entries and the counters are all that `RollsBack` speaks of.
from_entry :
    (m n : TimeWarpMultiSet) (i time : ℕ) (o : Option Event)
    → Sorted receive_order (m.queues i).processed
    → n.queues i ≡ record (undone (m.queues i) time) { low_pos = o }
    → ((j : ℕ) → j ≢ i → n.queues j ≡ m.queues j)
    → SameCounters (counted m i time) n
    → RollsBack m n i time (rest (before time) (m.queues i).processed)
unfolding undone counted
from_entry m n i time o s self others count = record {
  split =
      sym (front-append-rest (before time) q.processed)
      ∙ ap (λ (r : ObjectQueue). r.processed ++ rest (before time) q.processed) (sym self);
  returned =
      subst
        (λ (r : ObjectQueue). Perm r.unprocessed (rest (before time) q.processed ++ q.unprocessed))
        (sym self) (insert_all-perm receive_order (rest (before time) q.processed) q.unprocessed);
  kept_early =
      subst (λ (r : ObjectQueue). All (λ e. e.receive_time < time) r.processed) (sym self)
        (All-map _ _ (λ e h. ltb→lt _ _ h) _ (front-All (before time) q.processed));
  late_enough = rest-late time q.processed s;
  same_removed = ap (λ (r : ObjectQueue). r.removed) self;
  others = others;
  same_executed = count.1;
  same_committed = count.2;
  counted = count.0;
}
  where
    q : ObjectQueue
    q = m.queues i

-- An event of the joined queue is the old first one or has another identity.
new_first :
    (q : ObjectQueue) (time : ℕ) (l : Event) (es : List Event) (x : Event)
    → IsUnique q
    → q.unprocessed ≡ l ∷ es
    → head? (undone q time).unprocessed ≡ some x
    → (l ≡ x) ⊎ (event_eq l x ≡ false)
unfolding undone
new_first q time l es x u h t = head-of _ x t (
    insert_all-All receive_order P (rest (before time) q.processed) q.unprocessed
      (All-map _ P (λ y k. inr k) _
        (rest-All (before time) _ q.processed (All-right _ es q.processed (u l es h))))
      (subst (All P) (sym h)
        (inl refl, All-map _ P (λ y k. inr k) es (All-left _ es q.processed (u l es h)))))
  where
    P : Event → Type 0
    P y = (l ≡ y) ⊎ (event_eq l y ≡ false)

    head-of : (xs : List Event) (y : Event) → head? xs ≡ some y → All P xs → P y
    head-of [] y e a = cc
    head-of (z ∷ xs) y e a = let same : z ≡ y = cc in subst P same a.0

not_both : (xs : List Event) (l : Event) (es : List Event) → xs ≡ [] → xs ≡ l ∷ es → ⊥
not_both xs l es e h = cc

undone_nonempty :
    (q : ObjectQueue) (time : ℕ) (l : Event) (es : List Event)
    → q.unprocessed ≡ l ∷ es
    → (x : Event) × (head? (undone q time).unprocessed ≡ some x)
unfolding undone
undone_nonempty q time l es h = elim (List-cases (undone q time).unprocessed) [
  | inl none_left ↦
      let joined : Perm [] (rest (before time) q.processed ++ q.unprocessed) =
        subst (λ xs. Perm xs (rest (before time) q.processed ++ q.unprocessed)) none_left
          (insert_all-perm receive_order (rest (before time) q.processed) q.unprocessed) in
      let gone : q.unprocessed ≡ [] = (append-eq-nil_iff.0 (sym (Perm.nil-eq joined))).1 in
      absurd (not_both q.unprocessed l es gone h)
  | inr (x, xs, e) ↦ (x, ap head? e)
]

set_low-SameCounters :
    (m : TimeWarpMultiSet) (i : ℕ) (q : ObjectQueue) (o : Option Event)
    → SameCounters m (set_low m i q o)
unfolding set_low
set_low-SameCounters m i q none = (refl, refl, refl)
set_low-SameCounters m i q (some e) = (refl, refl, refl)

-- The two ways in which the source mends the low event.
mended_new :
    (m : TimeWarpMultiSet) (i time : ℕ) (o : Option Event)
    → IsValid m
    → Sorted receive_order (m.queues i).processed
    → o ≡ head? (undone (m.queues i) time).unprocessed
    → let n = set_low (counted m i time) i (undone (m.queues i) time) o in
      IsValid n × RollsBack m n i time (rest (before time) (m.queues i).processed)
mended_new m i time o v s h = (
  set_low-IsValid (counted-IsValid m i time v) i q (undone-IsQueue (m.queues i) time (v.queue i)) o
      h (unfold undone counted in refl),
  from_entry m (set_low (counted m i time) i q o) i time o s (set_low_self (counted m i time) i q o)
      (λ j ne. set_low_ne (counted m i time) i j q o ne ∙ unfold counted in refl)
      (set_low-SameCounters (counted m i time) i q o),
)
  where
    q : ObjectQueue
    q = undone (m.queues i) time

mended_same :
    (m : TimeWarpMultiSet) (i time : ℕ)
    → IsValid m
    → Sorted receive_order (m.queues i).processed
    → (m.queues i).low_pos ≡ head? (undone (m.queues i) time).unprocessed
    → let n = put (counted m i time) i (undone (m.queues i) time) in
      IsValid n × RollsBack m n i time (rest (before time) (m.queues i).processed)
mended_same m i time v s h = (
  put-IsValid (counted-IsValid m i time v) i q (undone-IsQueue (m.queues i) time (v.queue i))
      (unfold undone in h) (unfold undone counted in refl),
  from_entry m (put (counted m i time) i q) i time q.low_pos s
      (update_self (counted m i time).queues i q)
      (λ j ne. update_ne (counted m i time).queues i j q ne ∙ unfold counted in refl)
      (refl, refl, refl),
)
  where
    q : ObjectQueue
    q = undone (m.queues i) time

-- On a valid set, with the processed events of the object in order and no other event of the object
-- with the identity of its low event, a rollback never reads through `end()`, keeps the set valid,
-- and takes back exactly the processing from its time on: the undone events join the unprocessed
-- ones, the queues of all other objects, the removed events and the counts of executed and committed
-- events stay, and the count of events rolled back grows by the number of undone ones.
pub rollback-RollsBack :
    (m : TimeWarpMultiSet) (i time : ℕ)
    → IsValid m
    → IsUnique (m.queues i)
    → Sorted receive_order (m.queues i).processed
    → (n : TimeWarpMultiSet) × (late : List Event) × (rollback m i time ≡ some n)
      × IsValid n
      × RollsBack m n i time late
rollback-RollsBack m i time v u s = elim (List-cases (m.queues i).unprocessed) [
  | inl h ↦
      let (valid, back) = mended_new m i time first v s refl in
      (
        set_low c i q first,
        rest (before time) (m.queues i).processed,
        rollback_lem m i time ∙ ap (λ l. mend_low c i q l first) (v.low i ∙ ap head? h),
        valid,
        back,
      )
  | inr (l, es, h) ↦
      let (x, t) = undone_nonempty (m.queues i) time l es h in
      let low : (m.queues i).low_pos ≡ some l = v.low i ∙ ap head? h in
      let reached : rollback m i time ≡ mend_low c i q (some l) (some x) =
        rollback_lem m i time ∙ λ k. mend_low c i q (low k) (t k) in
      elim (new_first (m.queues i) time l es x u h t) [
        | inl same ↦
            let (valid, back) = mended_same m i time v s (low ∙ (ap some same ∙ sym t)) in
            (
              put c i q,
              rest (before time) (m.queues i).processed,
              reached ∙ kept l x same,
              valid,
              back,
            )
        | inr other ↦
            let (valid, back) = mended_new m i time (some x) v s (sym t) in
            (
              set_low c i q (some x),
              rest (before time) (m.queues i).processed,
              reached ∙ rw other refl,
              valid,
              back,
            )
      ]
]
  where
    c : TimeWarpMultiSet
    c = counted m i time

    q : ObjectQueue
    q = undone (m.queues i) time

    first : Option Event
    first = head? q.unprocessed

    kept : (l x : Event) → l ≡ x → mend_low c i q (some l) (some x) ≡ some (put c i q)
    kept l x same = rw (same, event_eq_refl x)
