-- ===== src/MultiSet/Cancel.antt =====
-- A negative event that finds its event keeps the invariant and loses nothing.
use mathlib.Core.List.Perm
use pdes.Base.Permutations.{}
use pdes.Base.Sorting.{Sorted}
use pdes.Base.{
  ℕ, zero, suc, ◌-◌, ◌<◌, ◌≤◌, ◌≡◌, refl, sym, ap, ◌∙◌, subst, ◌⊎◌, inl, inr, Bool, true, false,
  List, [], ◌∷◌, ◌++◌, Option, none, some, Perm, arith, All, Bool-cases, Option-cases, length,
  get_elem?, head?, erase_at, find_index, later, if◌then◌else◌,
}
use pdes.Base.Maps.{update_self}
use pdes.MultiSet.Valid.{IsQueue, IsValid, put-IsValid, set_low-IsValid, set_low_self}
use pdes.MultiSet.{
  ObjectQueue, TimeWarpMultiSet, handle_anti_message, remove_at, put, set_low, pos_after_erase,
  is_negative_of, low_is,
}
use pdes.Event.Order.{receive_order, event_eq_refl}
use pdes.Event.{Event}

later-some :
    (o : Option (ℕ × Event)) {k : ℕ} {e : Event}
    → later o ≡ some (k, e)
    → (j : ℕ) × (k ≡ suc j) × (o ≡ some (j, e))
later-some none h = cc
later-some (some (j, x)) h = (j, ground arith, ground arith)

find_index-get :
    (p : Event → Bool) (xs : List Event) {k : ℕ} {e : Event}
    → find_index p xs ≡ some (k, e)
    → (p e ≡ true) × (get_elem? xs k ≡ some e)
unfolding find_index
find_index-get p [] h = cc
find_index-get p (x ∷ xs) {k} {e} h = elim (Bool-cases (p x)) [
  | inl t ↦
      let here : (k ≡ 0) × (x ≡ e) = (ground arith, ground arith) in
      (rw (← here.1) t, rw here.0 (ap some here.1))
  | inr t ↦
      let (j, same, found) = later-some (find_index p xs) {k = k} {e = e} (ground arith) in
      let (match, got) = find_index-get p xs found in (match, rw same got)
]

pub erase_at-All : (P : Event → Type 0) (k : ℕ) (xs : List Event) → All P xs → All P (erase_at k xs)
erase_at-All P k [] a = tt
erase_at-All P zero (x ∷ xs) a = a.1
erase_at-All P (suc k) (x ∷ xs) a = (a.0, erase_at-All P k xs a.1)

pub erase_at-Sorted :
    (k : ℕ) (xs : List Event) → Sorted receive_order xs → Sorted receive_order (erase_at k xs)
erase_at-Sorted k [] s = tt
erase_at-Sorted zero (x ∷ xs) s = s.1
erase_at-Sorted (suc k) (x ∷ xs) s = (erase_at-All _ k xs s.0, erase_at-Sorted k xs s.1)

erase_at-length :
    (k : ℕ) (xs : List Event) {e : Event}
    → get_elem? xs k ≡ some e
    → (length xs ≡ suc (length (erase_at k xs))) × (k < length xs)
erase_at-length k [] h = cc
erase_at-length zero (x ∷ xs) h = (refl, omega arith)
erase_at-length (suc k) (x ∷ xs) h = omega (arith, erase_at-length k xs h)

erase_at-perm :
    (k : ℕ) (xs : List Event) {e : Event} → get_elem? xs k ≡ some e → Perm xs (e ∷ erase_at k xs)
erase_at-perm k [] h = cc
erase_at-perm zero (x ∷ xs) {e} h = let same : x ≡ e = cc in rw same (Perm.refl _)
erase_at-perm (suc k) (x ∷ xs) {e} h =
    Perm.trans (Perm.cons x (erase_at-perm k xs h)) (Perm.swap e x (erase_at k xs))

pos_after_erase-le : (k pos n : ℕ) → k ≤ n → pos ≤ n → pos_after_erase k pos ≤ n - 1
unfolding pos_after_erase
pos_after_erase-le k pos n h g = ground arith

erased : ObjectQueue → ℕ → Event → ObjectQueue
erased q k e = record q {
  unprocessed = erase_at k q.unprocessed;
  insert_pos = pos_after_erase k q.insert_pos;
  removed = q.removed ++ e ∷ [];
}

erased-IsQueue :
    (q : ObjectQueue) (k : ℕ) (e : Event)
    → get_elem? q.unprocessed k ≡ some e
    → IsQueue q
    → IsQueue (erased q k e)
unfolding erased
erased-IsQueue q k e h g =
    let (len, inside) = erase_at-length k q.unprocessed h in
    record {
      in_order = erase_at-Sorted k q.unprocessed g.in_order;
      cursor = omega (
        arith,
        pos_after_erase-le k q.insert_pos (length q.unprocessed - 1) (omega arith) g.cursor,
      );
    }

-- If the low event is not the erased one, the erased one was not the first.
not_low :
    (k : ℕ) (xs : List Event) (e : Event)
    → get_elem? xs k ≡ some e
    → low_is e (head? xs) ≡ false
    → head? xs ≡ head? (erase_at k xs)
not_low k [] e h t = cc
not_low zero (x ∷ xs) e h t = let same : x ≡ e = cc in absurd (ground (arith, event_eq_refl e))
not_low (suc k) (x ∷ xs) e h t = refl

remove_cases :
    (m : TimeWarpMultiSet) (i k : ℕ) (e : Event)
    → let q = erased (m.queues i) k e in
      remove_at m i k e
      ≡ (if low_is e (m.queues i).low_pos then set_low m i q (head? q.unprocessed) else put m i q)
unfolding remove_at erased
remove_cases m i k e = refl

erased_low : (q : ObjectQueue) (k : ℕ) (e : Event) → (erased q k e).low_pos ≡ q.low_pos
unfolding erased
erased_low q k e = refl

erased_head :
    (q : ObjectQueue) (k : ℕ) (e : Event)
    → get_elem? q.unprocessed k ≡ some e
    → low_is e (head? q.unprocessed) ≡ false
    → head? q.unprocessed ≡ head? (erased q k e).unprocessed
unfolding erased
erased_head q k e h t = not_low k q.unprocessed e h t

remove_at-IsValid :
    (m : TimeWarpMultiSet) (i k : ℕ) (e : Event)
    → get_elem? (m.queues i).unprocessed k ≡ some e
    → IsValid m
    → IsValid (remove_at m i k e)
remove_at-IsValid m i k e h v = elim (Bool-cases (low_is e q.low_pos)) [
  | inl t ↦
      rw (remove_cases m i k e, t)
        (set_low-IsValid v i (erased q k e) g (head? (erased q k e).unprocessed) refl
          (erased_low q k e))
  | inr t ↦
      rw (remove_cases m i k e, t)
        (put-IsValid v i (erased q k e) g
          (erased_low q k e
            ∙ v.low i
            ∙ erased_head q k e h (subst (λ l. low_is e l ≡ false) (v.low i) t))
          (erased_low q k e))
]
  where
    q : ObjectQueue
    q = m.queues i

    g : IsQueue (erased q k e)
    g = erased-IsQueue q k e h (v.queue i)

-- The entry of the object but for its iterators.
pub record IsRemoval (q r : ObjectQueue) (e : Event) : Type 0 where
  pub split : Perm q.unprocessed (e ∷ r.unprocessed)
  pub kept : r.removed ≡ q.removed ++ e ∷ []
  pub same_processed : r.processed ≡ q.processed

erased-IsRemoval :
    (q : ObjectQueue) (k : ℕ) (e : Event) (o : Option Event)
    → get_elem? q.unprocessed k ≡ some e
    → IsRemoval q (record (erased q k e) { low_pos = o }) e
unfolding erased
erased-IsRemoval q k e o h = record {
  split = erase_at-perm k q.unprocessed h;
  kept = refl;
  same_processed = refl;
}

remove_at-IsRemoval :
    (m : TimeWarpMultiSet) (i k : ℕ) (e : Event)
    → get_elem? (m.queues i).unprocessed k ≡ some e
    → IsRemoval (m.queues i) ((remove_at m i k e).queues i) e
remove_at-IsRemoval m i k e h = elim (Bool-cases (low_is e q.low_pos)) [
  | inl t ↦
      rw (remove_cases m i k e, t)
        (subst (λ r. IsRemoval q r e)
          (sym (set_low_self m i (erased q k e) (head? (erased q k e).unprocessed)))
          (erased-IsRemoval q k e _ h))
  | inr t ↦
      rw (remove_cases m i k e, t)
        (subst (λ r. IsRemoval q r e) (sym (update_self m.queues i (erased q k e)))
          (erased-IsRemoval q k e (erased q k e).low_pos h))
]
  where
    q : ObjectQueue
    q = m.queues i

anti_found :
    (m : TimeWarpMultiSet) (i k : ℕ) (n e : Event)
    → find_index (is_negative_of n) (m.queues i).unprocessed ≡ some (k, e)
    → handle_anti_message m i n ≡ (remove_at m i k e, true)
unfolding handle_anti_message
anti_found m i k n e h = ground arith

anti_missed :
    (m : TimeWarpMultiSet) (i : ℕ) (n : Event)
    → find_index (is_negative_of n) (m.queues i).unprocessed ≡ none
    → handle_anti_message m i n ≡ (m, false)
unfolding handle_anti_message
anti_missed m i n h = ground arith

later-none : (o : Option (ℕ × Event)) → later o ≡ none → o ≡ none
later-none none h = refl
later-none (some (k, e)) h = cc

find_index-none :
    (p : Event → Bool) (xs : List Event) → find_index p xs ≡ none → All (λ x. p x ≡ false) xs
unfolding find_index
find_index-none p [] h = tt
find_index-none p (x ∷ xs) h = elim (Bool-cases (p x)) [
  | inl t ↦ absurd (ground arith)
  | inr t ↦ (t, find_index-none p xs (later-none (find_index p xs) (ground arith)))
]

-- A negative event keeps the invariant. It reports success exactly when it takes one event with its
-- sender and number from the object's unprocessed events to its removed ones; otherwise there is no
-- such event, and the set stays as it is.
pub handle_anti_message_lem :
    (m : TimeWarpMultiSet) (i : ℕ) (n : Event)
    → IsValid m
    → IsValid (handle_anti_message m i n).0
      × (((e : Event) × (is_negative_of n e ≡ true)
            × IsRemoval (m.queues i) ((handle_anti_message m i n).0.queues i) e
            × ((handle_anti_message m i n).1 ≡ true))
          ⊎ (All (λ x. is_negative_of n x ≡ false) (m.queues i).unprocessed
              × (handle_anti_message m i n ≡ (m, false))))
handle_anti_message_lem m i n v =
    elim (Option-cases (find_index (is_negative_of n) (m.queues i).unprocessed)) [
      | inl h ↦ (
        subst (λ r. IsValid r.0) (sym (anti_missed m i n h)) v,
        inr (find_index-none (is_negative_of n) _ h, anti_missed m i n h),
      )
      | inr ((k, e), h) ↦
          let (match, got) = find_index-get (is_negative_of n) (m.queues i).unprocessed h in
          (
            subst (λ r. IsValid r.0) (sym (anti_found m i k n e h))
                (remove_at-IsValid m i k e got v),
            inl (
              e,
              match,
              subst (λ r. IsRemoval (m.queues i) (r.0.queues i) e) (sym (anti_found m i k n e h))
                  (remove_at-IsRemoval m i k e got),
              ap (λ r. r.1) (anti_found m i k n e h),
            ),
          )
    ]
