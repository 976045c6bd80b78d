-- ===== src/MultiSet/Valid.antt =====
-- The invariant of the event set, and the two ways in which an operation writes an object's entry.
use pdes.Base.Sorting.{Sorted}
use pdes.Base.{
  ℕ, ◌-◌, ◌≤◌, ◌≡◌, ◌≢◌, refl, sym, subst, ◌∙◌, Option, none, some, arith, ◌==◌, if◌then◌else◌,
  update, length, head?,
}
use pdes.Base.Maps.{update-All, update_self, update_ne}
use pdes.MultiSet.Lowest.{
  find_node, IsIndex, find-insert_node, find-erase_low, insert_node-IsIndex, erase_low-IsIndex,
}
use pdes.MultiSet.{ObjectQueue, TimeWarpMultiSet, init, put, set_low, erase_low}
use pdes.Event.Order.{receive_order}
use pdes.Event.{Event}

-- The queue stands in order, and the insertion iterator points into it, or to the end of an empty
-- one.
pub record IsQueue (q : ObjectQueue) : Type 0 where
  pub in_order : Sorted receive_order q.unprocessed
  pub cursor : q.insert_pos ≤ length q.unprocessed - 1

-- Each queue is good, and the index of lowest events holds the first event of each object that has
-- one, under the object's iterator.
pub record IsValid (m : TimeWarpMultiSet) : Type 0 where
  pub queue : (i : ℕ) → IsQueue (m.queues i)
  pub low : (i : ℕ) → (m.queues i).low_pos ≡ head? (m.queues i).unprocessed
  pub found : (i : ℕ) → find_node i m.lowest ≡ (m.queues i).low_pos
  pub index : IsIndex m.lowest

-- The constructor's set has the invariant.
pub init-IsValid : IsValid init
unfolding find_node
init-IsValid = record {
  queue = λ i. record { in_order = tt; cursor = omega arith };
  low = λ i. refl;
  found = λ i. refl;
  index = tt;
}

pub set_low_self :
    (m : TimeWarpMultiSet) (i : ℕ) (q : ObjectQueue) (o : Option Event)
    → (set_low m i q o).queues i ≡ record q { low_pos = o }
unfolding set_low
set_low_self m i q none = update_self m.queues i (record q { low_pos = none })
set_low_self m i q (some e) = update_self m.queues i (record q { low_pos = some e })

pub set_low_ne :
    (m : TimeWarpMultiSet) (i j : ℕ) (q : ObjectQueue) (o : Option Event)
    → j ≢ i
    → (set_low m i q o).queues j ≡ m.queues j
unfolding set_low
set_low_ne m i j q none h = update_ne m.queues i j (record q { low_pos = none }) h
set_low_ne m i j q (some e) h = update_ne m.queues i j (record q { low_pos = some e }) h

module _ {m : TimeWarpMultiSet} (v : IsValid m) (i : ℕ) (q : ObjectQueue) (g : IsQueue q) where
  -- The low event stays where the first event does.
  pub put-IsValid :
      q.low_pos ≡ head? q.unprocessed → q.low_pos ≡ (m.queues i).low_pos → IsValid (put m i q)
  put-IsValid first same = record {
    queue = update-All (λ _ r. IsQueue r) m.queues i q v.queue g;
    low = update-All (λ _ r. r.low_pos ≡ head? r.unprocessed) m.queues i q v.low first;
    found =
        update-All (λ j r. find_node j m.lowest ≡ r.low_pos) m.queues i q v.found
          (v.found i ∙ sym same);
    index = v.index;
  }

  erased :
      q.low_pos ≡ (m.queues i).low_pos
      → (j : ℕ)
      → find_node j (erase_low q.low_pos i m.lowest)
        ≡ (if i == j then none else find_node j m.lowest)
  erased same j = find-erase_low q.low_pos i j m.lowest v.index (v.found i ∙ sym same)

  erased_self :
      q.low_pos ≡ (m.queues i).low_pos → find_node i (erase_low q.low_pos i m.lowest) ≡ none
  erased_self same = ground (arith, erased same i)

  set_low_found :
      (o : Option Event)
      → q.low_pos ≡ (m.queues i).low_pos
      → (j : ℕ) → find_node j (set_low m i q o).lowest ≡ ((set_low m i q o).queues j).low_pos
  unfolding set_low
  set_low_found none same j = ground (arith, erased same j, v.found j)
  set_low_found (some e) same j = ground (
    arith,
    erased same j,
    v.found j,
    find-insert_node i j e (erase_low q.low_pos i m.lowest) (erased_self same),
  )

  set_low-IsIndex :
      (o : Option Event) → q.low_pos ≡ (m.queues i).low_pos → IsIndex (set_low m i q o).lowest
  unfolding set_low
  set_low-IsIndex none same = erase_low-IsIndex q.low_pos i m.lowest v.index
  set_low-IsIndex (some e) same =
      insert_node-IsIndex i e (erase_low q.low_pos i m.lowest) (erased_self same)
        (erase_low-IsIndex q.low_pos i m.lowest v.index)

  set_low_queues :
      (o : Option Event) (j : ℕ)
      → (set_low m i q o).queues j ≡ update m.queues i (record q { low_pos = o }) j
  unfolding set_low
  set_low_queues none j = refl
  set_low_queues (some e) j = refl

  -- The low event follows the first event.
  pub set_low-IsValid :
      (o : Option Event)
      → o ≡ head? q.unprocessed
      → q.low_pos ≡ (m.queues i).low_pos
      → IsValid (set_low m i q o)
  set_low-IsValid o first same = record {
    queue = λ j. subst IsQueue (sym (set_low_queues o j)) (
        update-All (λ _ r. IsQueue r) m.queues i (record q { low_pos = o }) v.queue
          (record { in_order = g.in_order; cursor = g.cursor }) j);
    low = λ j.
        subst (λ r. r.low_pos ≡ head? r.unprocessed) (sym (set_low_queues o j))
          (update-All (λ _ r. r.low_pos ≡ head? r.unprocessed) m.queues i (record q { low_pos = o })
            v.low first j);
    found = set_low_found o same;
    index = set_low-IsIndex o same;
  }
