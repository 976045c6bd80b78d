-- ===== src/Container/Cancel.antt =====
-- An event and its negative event annihilate one another, whichever comes first.
use mathlib.Core.List.Perm
use mathlib.Core.List.{}
use pdes.Base.Sorting.{Le, Sorted, extract-Sorted}
use pdes.Base.{
  All-append, ◌≡◌, sym, ap, ◌∙◌, subst, inl, inr, true, false, List, [], ◌∷◌, ◌++◌, Perm, none,
  some, arith, All, extract, extract-some, extract-All, All-map, extract-snoc, Option-cases,
}
use pdes.Base.Permutations.{perm_snoc_left, perm_snoc_right}
use pdes.Container.Causality.{IsValid, InOrder, AllBefore}
use pdes.Container.{Container, insert, handle_anti_message, same_event, enqueue, unsorted}
use pdes.Event.Order.{receive_order}
use pdes.Event.{Event}

same_event_symm : (a b : Event) → same_event a b ≡ same_event b a
unfolding same_event
same_event_symm a b = ground arith

insert_enqueues :
    (c : Container) (e : Event)
    → extract (same_event e) c.negative ≡ none
    → insert c e ≡ enqueue c e
unfolding insert
insert_enqueues c e h = ground arith

anti_takes :
    (c : Container) (n : Event) {e : Event} {others : List Event}
    → extract (same_event n) c.unprocessed ≡ some (e, others)
    → handle_anti_message c n
      ≡ (record c { removed = c.removed ++ e ∷ []; unprocessed = others }, true)
unfolding handle_anti_message
anti_takes c n h = ground arith

anti_waits :
    (c : Container) (n : Event)
    → extract (same_event n) c.unprocessed ≡ none
    → handle_anti_message c n ≡ (record c { negative = c.negative ++ n ∷ [] }, false)
unfolding handle_anti_message
anti_waits c n h = ground arith

insert_cancelled :
    (c : Container) (e : Event) {n : Event} {others : List Event}
    → extract (same_event e) c.negative ≡ some (n, others)
    → insert c e ≡ record c { removed = c.removed ++ e ∷ []; negative = others }
unfolding insert
insert_cancelled c e h = ground arith

insert_then_anti :
    (c : Container) (e n : Event)
    → same_event n e ≡ true
    → extract (same_event e) c.negative ≡ none
    → extract (same_event n) c.unprocessed ≡ none
    → handle_anti_message (insert c e) n
      ≡ (record (enqueue c e) { removed = c.removed ++ e ∷ []; unprocessed = c.unprocessed }, true)
insert_then_anti c e n same free fresh =
    rw (insert_enqueues c e free)
      (anti_takes (enqueue c e) n (extract-snoc (same_event n) c.unprocessed e fresh same))

anti_then_insert :
    (c : Container) (e n : Event)
    → same_event n e ≡ true
    → extract (same_event e) c.negative ≡ none
    → extract (same_event n) c.unprocessed ≡ none
    → insert (handle_anti_message c n).0 e ≡ record c { removed = c.removed ++ e ∷ [] }
anti_then_insert c e n same free fresh = rw (anti_waits c n fresh) (
    insert_cancelled (record c { negative = c.negative ++ n ∷ [] }) e
      (extract-snoc (same_event e) c.negative n free (same_event_symm e n ∙ same)))

-- An event and its negative event annihilate one another in either order. If no negative event
-- waits for the event and no unprocessed event has its identity, then the event followed by its
-- negative, and the negative followed by the event, both leave the container as it was but for the
-- event at the end of the removed ones; the first order also leaves the flag unsorted. The negative
-- event reports that it found its event in the first order only.
pub annihilation :
    (c : Container) (e n : Event)
    → same_event n e ≡ true
    → extract (same_event e) c.negative ≡ none
    → extract (same_event n) c.unprocessed ≡ none
    → (handle_anti_message (insert c e) n
        ≡ (record c { removed = c.removed ++ e ∷ []; sort_status = unsorted }, true))
      × (insert (handle_anti_message c n).0 e ≡ record c { removed = c.removed ++ e ∷ [] })
      × ((handle_anti_message c n).1 ≡ false)
annihilation c e n same free fresh = (
  insert_then_anti c e n same free fresh,
  anti_then_insert c e n same free fresh,
  ap (λ r. r.1) (anti_waits c n fresh),
)

insert-perm :
    (c : Container) (e : Event)
    → Perm ((insert c e).unprocessed ++ (insert c e).removed) (e ∷ (c.unprocessed ++ c.removed))
insert-perm c e = elim (Option-cases (extract (same_event e) c.negative)) [
  | inl h ↦ rw (insert_enqueues c e h) (perm_snoc_left c.unprocessed c.removed e)
  | inr (_, h) ↦ rw (insert_cancelled c e h) (perm_snoc_right c.unprocessed c.removed e)
]

anti-perm :
    (c : Container) (n : Event)
    → Perm
        ((handle_anti_message c n).0.unprocessed ++ (handle_anti_message c n).0.removed)
        (c.unprocessed ++ c.removed)
anti-perm c n = elim (Option-cases (extract (same_event n) c.unprocessed)) [
  | inl h ↦ rw (anti_waits c n h) (Perm.refl _)
  | inr ((e, others), h) ↦ rw (anti_takes c n h) (
      Perm.trans (perm_snoc_right others c.removed e)
        (Perm.symm (Perm.append_right c.removed (extract-some (same_event n) c.unprocessed h).1)))
]

-- No cancellation loses an event or makes one up: the unprocessed and the removed events together
-- gain exactly the event that arrives, and a negative event that arrives moves them about at most.
pub cancellation_conserves :
    (c : Container) (e n : Event)
    → Perm ((insert c e).unprocessed ++ (insert c e).removed) (e ∷ (c.unprocessed ++ c.removed))
      × Perm
          ((handle_anti_message c n).0.unprocessed ++ (handle_anti_message c n).0.removed)
          (c.unprocessed ++ c.removed)
cancellation_conserves c e n = (insert-perm c e, anti-perm c n)

-- Every method that moves events keeps the flag truthful.
pub insert-IsValid : (c : Container) (e : Event) → IsValid c → IsValid (insert c e)
insert-IsValid c e v = elim (Option-cases (extract (same_event e) c.negative)) [
  | inl h ↦ rw (insert_enqueues c e h) (λ t. cc)
  | inr (_, h) ↦ rw (insert_cancelled c e h) v
]

pub anti-IsValid : (c : Container) (n : Event) → IsValid c → IsValid (handle_anti_message c n).0
anti-IsValid c n v = elim (Option-cases (extract (same_event n) c.unprocessed)) [
  | inl h ↦ rw (anti_waits c n h) v
  | inr ((e, others), h) ↦
      rw (anti_takes c n h) (λ t. extract-Sorted receive_order (same_event n) c.unprocessed h (v t))
]

pub anti_shrinks :
    (c : Container) (n : Event) (P : Event → Type 0)
    → All P c.unprocessed
    → All P (handle_anti_message c n).0.unprocessed
anti_shrinks c n P a = elim (Option-cases (extract (same_event n) c.unprocessed)) [
  | inl h ↦ rw (anti_waits c n h) a
  | inr (_, h) ↦ rw (anti_takes c n h) (extract-All (same_event n) P c.unprocessed h a).1
]

pub anti_keeps_processed :
    (c : Container) (n : Event) → (handle_anti_message c n).0.processed ≡ c.processed
unfolding handle_anti_message
anti_keeps_processed c n = ground arith

-- A negative event leaves the container in order.
pub anti-InOrder : (c : Container) (n : Event) → InOrder c → InOrder (handle_anti_message c n).0
anti-InOrder c n o = record {
  done = subst (Sorted receive_order) (sym (anti_keeps_processed c n)) o.done;
  ahead =
      subst (λ ps. AllBefore ps (handle_anti_message c n).0.unprocessed)
        (sym (anti_keeps_processed c n))
        (All-map _ _ (λ p. anti_shrinks c n (Le receive_order p)) c.processed o.ahead);
}

pub insert_grows :
    (c : Container) (e : Event) (P : Event → Type 0)
    → All P c.unprocessed
    → P e
    → All P (insert c e).unprocessed
insert_grows c e P a h = elim (Option-cases (extract (same_event e) c.negative)) [
  | inl none_found ↦
      rw (insert_enqueues c e none_found) (All-append P c.unprocessed (e ∷ []) a (h, tt))
  | inr (_, found) ↦ rw (insert_cancelled c e found) a
]

pub insert_keeps_processed : (c : Container) (e : Event) → (insert c e).processed ≡ c.processed
unfolding insert
insert_keeps_processed c e = ground arith
