-- ===== src/Container/Causality.antt =====
-- The order in which a container hands out events, and how a rollback mends it.
use mathlib.Core.List.{}
use mathlib.Core.Bool.{Bool-set}
use mathlib.Core.List.Perm
use pdes.Base.Sorting.{Le, Sorted, sort-Sorted, sort-perm}
use pdes.Base.{
  ◌≡◌, refl, sym, ap, ◌∙◌, subst, ◌⊎◌, inl, inr, List, [], ◌∷◌, ◌++◌, Perm, none, some, arith, All,
  All-append, All-left, All-right, All-map, All-perm, head?, List-cases,
}
use pdes.Container.{
  Container, SortStatus, sorted, unsorted, ensure_sorted, sort_by_receive_times, get_next_event,
  next_event, take_next,
}
use pdes.Event.Order.{receive_order}
use pdes.Event.{Event}

-- The flag tells the truth.
abbrev pub IsValid : Container → Type 0
IsValid c = c.sort_status ≡ sorted → Sorted receive_order c.unprocessed

-- The processed events stand in order, and none of the unprocessed ones is in their past.
pub record InOrder (c : Container) : Type 0 where
  pub done : Sorted receive_order c.processed
  pub ahead : All (λ p. All (Le receive_order p) c.unprocessed) c.processed

SortStatus-cases : (s : SortStatus) → (s ≡ sorted) ⊎ (s ≡ unsorted)
SortStatus-cases sorted = inl refl
SortStatus-cases unsorted = inr refl

-- What sorting on demand gives, and what it leaves alone.
pub record IsSortOf (c d : Container) : Type 0 where
  pub in_order : Sorted receive_order d.unprocessed
  pub same_events : Perm d.unprocessed c.unprocessed
  pub same_processed : d.processed ≡ c.processed
  pub same_removed : d.removed ≡ c.removed
  pub same_negative : d.negative ≡ c.negative
  pub flag : d.sort_status ≡ sorted

pub ensure_sorted-IsSortOf : (c : Container) → IsValid c → IsSortOf c (ensure_sorted c)
unfolding ensure_sorted sort_by_receive_times
ensure_sorted-IsSortOf c v = elim (SortStatus-cases c.sort_status) [
  | inl e ↦
      rw (e, ensure_sorted)
        (record {
          in_order = v e;
          same_events = Perm.refl _;
          same_processed = refl;
          same_removed = refl;
          same_negative = refl;
          flag = e;
        })
  | inr e ↦
      rw (e, ensure_sorted)
        (record {
          in_order = sort-Sorted receive_order c.unprocessed;
          same_events = sort-perm receive_order c.unprocessed;
          same_processed = refl;
          same_removed = refl;
          same_negative = refl;
          flag = refl;
        })
]

pub next_event_nonempty :
    (c : Container) (x : Event) (xs : List Event)
    → c.unprocessed ≡ x ∷ xs
    → next_event c ≡ (ensure_sorted c, head? (ensure_sorted c).unprocessed)
unfolding next_event
next_event_nonempty c x xs h = ground arith

-- What `get_next_event` must do when there is an event: hand out one that no other is before.
pub record TakesLeast (c d : Container) (e : Event) : Type 0 where
  pub split : Perm c.unprocessed (e ∷ d.unprocessed)
  pub least : All (Le receive_order e) d.unprocessed
  pub logged : d.processed ≡ c.processed ++ e ∷ []
  pub valid : IsValid d
  pub same_removed : d.removed ≡ c.removed
  pub same_negative : d.negative ≡ c.negative

took : Container → Event → List Event → Container
took d y ys = record d { unprocessed = ys; processed = d.processed ++ y ∷ [] }

take_next_lem :
    (d : Container) (y : Event) (ys : List Event)
    → d.unprocessed ≡ y ∷ ys
    → take_next (d, head? d.unprocessed) ≡ (took d y ys, some y)
unfolding took
take_next_lem d y ys h = ground arith

took-TakesLeast :
    (c d : Container) (y : Event) (ys : List Event)
    → IsSortOf c d
    → d.unprocessed ≡ y ∷ ys
    → TakesLeast c (took d y ys) y
unfolding took
took-TakesLeast c d y ys s h =
    let ordered : Sorted receive_order (y ∷ ys) = subst (Sorted receive_order) h s.in_order in
    record {
      split = Perm.symm (subst (λ xs. Perm xs c.unprocessed) h s.same_events);
      least = ordered.0;
      logged = ap (λ xs. xs ++ y ∷ []) s.same_processed;
      valid = λ _. ordered.1;
      same_removed = s.same_removed;
      same_negative = s.same_negative;
    }

pub ensure_sorted_nonempty :
    (c : Container) (x : Event) (xs : List Event)
    → IsValid c
    → c.unprocessed ≡ x ∷ xs
    → (y : Event) × (ys : List Event) × ((ensure_sorted c).unprocessed ≡ y ∷ ys)
ensure_sorted_nonempty c x xs v h = elim (List-cases (ensure_sorted c).unprocessed) [
  | inl e ↦
      let same : Perm (ensure_sorted c).unprocessed c.unprocessed =
        (ensure_sorted-IsSortOf c v).same_events in
      absurd (ground (arith, Perm.nil-eq (subst (λ zs. Perm zs c.unprocessed) e same)))
  | inr r ↦ r
]

get_next_event_nonempty :
    (c : Container) (x : Event) (xs : List Event)
    → IsValid c
    → c.unprocessed ≡ x ∷ xs
    → (y : Event) × (ys : List Event) × ((ensure_sorted c).unprocessed ≡ y ∷ ys)
      × (get_next_event c ≡ (took (ensure_sorted c) y ys, some y))
unfolding get_next_event
get_next_event_nonempty c x xs v h =
    let (y, ys, e) = ensure_sorted_nonempty c x xs v h in
    (y, ys, e, ap take_next (next_event_nonempty c x xs h) ∙ take_next_lem (ensure_sorted c) y ys e)

get_next_event_empty : (c : Container) → c.unprocessed ≡ [] → get_next_event c ≡ (c, none)
unfolding get_next_event next_event
get_next_event_empty c h = ground arith

-- From a container whose flag tells the truth, `get_next_event` hands out an event that no other
-- is before and logs it as processed, or does nothing when there is no event.
pub get_next_event_least :
    (c : Container)
    → IsValid c
    → ((c.unprocessed ≡ []) × (get_next_event c ≡ (c, none)))
      ⊎ ((e : Event) × ((get_next_event c).1 ≡ some e) × TakesLeast c (get_next_event c).0 e)
get_next_event_least c v = elim (List-cases c.unprocessed) [
  | inl e ↦ inl (e, get_next_event_empty c e)
  | inr (x, xs, e) ↦
      let (y, ys, front_eq, result) = get_next_event_nonempty c x xs v e in
      inr (
        y,
        ap (λ r. r.1) result,
        rw result (took-TakesLeast c _ y ys (ensure_sorted-IsSortOf c v) front_eq),
      )
]

-- Sorted lists joined where every entry of the first may stand before every entry of the second.
pub Sorted-append :
    (xs ys : List Event)
    → Sorted receive_order xs
    → Sorted receive_order ys
    → All (λ x. All (Le receive_order x) ys) xs
    → Sorted receive_order (xs ++ ys)
Sorted-append [] ys s t h = t
Sorted-append (x ∷ xs) ys s t h =
    (All-append (Le receive_order x) xs ys s.0 h.0, Sorted-append xs ys s.1 t h.1)

pub Sorted-left : (xs ys : List Event) → Sorted receive_order (xs ++ ys) → Sorted receive_order xs
Sorted-left [] ys s = tt
Sorted-left (x ∷ xs) ys s = (All-left (Le receive_order x) xs ys s.0, Sorted-left xs ys s.1)

pub Sorted-split :
    (xs ys : List Event)
    → Sorted receive_order (xs ++ ys)
    → All (λ x. All (Le receive_order x) ys) xs
Sorted-split [] ys s = tt
Sorted-split (x ∷ xs) ys s = (All-right (Le receive_order x) xs ys s.0, Sorted-split xs ys s.1)

-- Each entry of `ps` is not after any entry of `xs`.
abbrev pub AllBefore : List Event → List Event → Type 0
AllBefore ps xs = All (λ p. All (Le receive_order p) xs) ps

pub AllBefore-perm :
    (ps : List Event) {xs ys : List Event} → Perm xs ys → AllBefore ps xs → AllBefore ps ys
AllBefore-perm ps {xs} {ys} perm =
    All-map (λ p. All (Le receive_order p) xs) (λ p. All (Le receive_order p) ys)
      (λ p. All-perm (Le receive_order p) (λ x. Bool-set _ _) perm) ps

AllBefore-head :
    (ps : List Event) (x : Event) (xs : List Event) → AllBefore ps (x ∷ xs) → AllBefore ps (x ∷ [])
AllBefore-head ps x xs = All-map _ _ (λ p h. (h.0, tt)) ps

AllBefore-tail :
    (ps : List Event) (x : Event) (xs : List Event) → AllBefore ps (x ∷ xs) → AllBefore ps xs
AllBefore-tail ps x xs = All-map _ _ (λ p h. h.1) ps

TakesLeast-InOrder : (c d : Container) (e : Event) → TakesLeast c d e → InOrder c → InOrder d
TakesLeast-InOrder c d e t o = record {
  done = subst (Sorted receive_order) (sym t.logged) (
      Sorted-append c.processed (e ∷ []) o.done (tt, tt)
        (AllBefore-head c.processed e d.unprocessed moved));
  ahead =
      subst (λ ps. AllBefore ps d.unprocessed) (sym t.logged)
        (All-append (λ p. All (Le receive_order p) d.unprocessed) c.processed (e ∷ [])
          (AllBefore-tail c.processed e d.unprocessed moved) (t.least, tt));
}
  where
    moved : AllBefore c.processed (e ∷ d.unprocessed)
    moved = AllBefore-perm c.processed t.split o.ahead

-- Handing out the next event keeps the processed events in order and the others ahead of them.
pub get_next_event-InOrder : (c : Container) → IsValid c → InOrder c → InOrder (get_next_event c).0
get_next_event-InOrder c v o = elim (get_next_event_least c v) [
  | inl (_, e) ↦ rw e o
  | inr (e, _, t) ↦ TakesLeast-InOrder c _ e t o
]
