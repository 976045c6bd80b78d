-- ===== src/Object/Sorted.antt =====
-- The first look at a container sorts it; after that the loops find it sorted.
use pdes.Base.Sorting.{Sorted}
use pdes.Base.{
  Bool-cases, sym, refl, arith, List-cases, ◌⊎◌, ℕ, ◌≡◌, ap, subst, ◌∙◌, inl, inr, List, [], ◌∷◌,
  Option, some, none, Perm, head?,
}
use pdes.Container.Causality.{
  IsValid, ensure_sorted-IsSortOf, next_event_nonempty, ensure_sorted_nonempty,
}
use pdes.Container.{Container, ensure_sorted, next_event, get_next_event, take_next}
use pdes.Event.Order.{receive_order}
use pdes.Event.{Event}
use pdes.Object.Loops.{holding}
use pdes.Object.{peek_event, found, get_event, get_peeked, within}

pub ensure_sorted-holding :
    (c : Container)
    → IsValid c
    → ensure_sorted c ≡ holding c (ensure_sorted c).unprocessed c.processed
ensure_sorted-holding c v =
    let s = ensure_sorted-IsSortOf c v in
    λ i. record {
      unprocessed = (ensure_sorted c).unprocessed;
      processed = s.same_processed i;
      removed = s.same_removed i;
      negative = s.same_negative i;
      sort_status = s.flag i;
    }

next_event-none : (c : Container) → c.unprocessed ≡ [] → next_event c ≡ (c, none)
unfolding next_event
next_event-none c h = ground arith

peek_event-none :
    (limit : Option ℕ) (c : Container) → c.unprocessed ≡ [] → peek_event limit c ≡ (c, none)
unfolding peek_event
peek_event-none limit c h = ap (λ r. (r.0, found limit r.1)) (next_event-none c h)

-- What the first look at a container finds: nothing, or the sorted events.
pub record IsSeen (c : Container) (y : Event) (ys : List Event) : Type 0 where
  pub next : next_event c ≡ (holding c (y ∷ ys) c.processed, some y)
  pub in_order : Sorted receive_order (y ∷ ys)
  pub same_events : Perm (y ∷ ys) c.unprocessed
  pub peeked :
      (limit : Option ℕ)
      → peek_event limit c ≡ (holding c (y ∷ ys) c.processed, found limit (some y))

pub first_look :
    (c : Container)
    → IsValid c
    → ((c.unprocessed ≡ []) × ((limit : Option ℕ) → peek_event limit c ≡ (c, none)))
      ⊎ ((y : Event) × (ys : List Event) × IsSeen c y ys)
unfolding peek_event
first_look c v = elim (List-cases c.unprocessed) [
  | inl e ↦ inl (e, λ limit. peek_event-none limit c e)
  | inr (x, xs, e) ↦
      let (y, ys, front_eq) = ensure_sorted_nonempty c x xs v e in
      let s = ensure_sorted-IsSortOf c v in
      let whole : ensure_sorted c ≡ holding c (y ∷ ys) c.processed =
        ensure_sorted-holding c v ∙ ap (λ l. holding c l c.processed) front_eq in
      let seen : next_event c ≡ (holding c (y ∷ ys) c.processed, some y) =
        next_event_nonempty c x xs e ∙ ap (λ d. (d, head? d.unprocessed)) whole in
      inr (
        y,
        ys,
        record {
          next = seen;
          in_order = subst (Sorted receive_order) front_eq s.in_order;
          same_events = subst (λ l. Perm l c.unprocessed) front_eq s.same_events;
          peeked = λ limit. ap (λ r. (r.0, found limit r.1)) seen;
        },
      )
]

get_next_event-none : (c : Container) → c.unprocessed ≡ [] → (get_next_event c).1 ≡ none
unfolding get_next_event
get_next_event-none c h = ap (λ r. (take_next r).1) (next_event-none c h)

get_next_event-seen :
    (c : Container) (y : Event) (ys : List Event)
    → next_event c ≡ (holding c (y ∷ ys) c.processed, some y)
    → (get_next_event c).1 ≡ some y
unfolding get_next_event
get_next_event-seen c y ys h = ap (λ r. (take_next r).1) h

get_peeked-found :
    (limit : Option ℕ) (c : Container) (y : Event) (ys : List Event)
    → (get_peeked (holding c (y ∷ ys) c.processed, found limit (some y))).1 ≡ found limit (some y)
unfolding get_next_event next_event ensure_sorted
get_peeked-found limit c y ys = elim (Bool-cases (within limit y)) [
  | inl t ↦ rw t refl
  | inr t ↦ rw t refl
]

-- From a container with a truthful sort status, the event that is got is the one that is peeked, with a
-- minimum time or without: the assertion of the event set holds.
pub get_event-peek_event :
    (limit : Option ℕ) (c : Container) → IsValid c → (get_event limit c).1 ≡ (peek_event limit c).1
unfolding get_event within
get_event-peek_event none c v = elim (first_look c v) [
  | inl (e, peeked) ↦ get_next_event-none c e ∙ sym (ap (λ r. r.1) (peeked none))
  | inr (y, ys, seen) ↦
      get_next_event-seen c y ys seen.next ∙ sym (ap (λ r. r.1) (seen.peeked none))
]
get_event-peek_event (some time) c v = elim (first_look c v) [
  | inl (e, peeked) ↦
      ap (λ r. (get_peeked r).1) (peeked (some time)) ∙ sym (ap (λ r. r.1) (peeked (some time)))
  | inr (y, ys, seen) ↦
      ap (λ r. (get_peeked r).1) (seen.peeked (some time))
      ∙ get_peeked-found (some time) c y ys
      ∙ sym (ap (λ r. r.1) (seen.peeked (some time)))
]
