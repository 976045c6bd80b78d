-- ===== src/Container/Fossil.antt =====
-- Fossil collection reclaims what lies before the collect time, and nothing else.
use mathlib.Core.List.{}
use mathlib.Core.List.Perm
use pdes.Base.Permutations.{perm_interchange}
use pdes.Base.Sorting.{Le, Sorted}
use pdes.Base.{
  ℕ, ◌≤◌, ◌<◌, ◌≡◌, sym, subst, Bool, true, not, List, [], ◌∷◌, ◌++◌, Perm, arith, All, All-append,
  All-map, front, rest, keep, front-append-rest, front-All, rest-All, keep-All, keep-perm,
}
use pdes.Container.Causality.{
  IsValid, InOrder, AllBefore, AllBefore-perm, IsSortOf, ensure_sorted-IsSortOf,
}
use pdes.Container.Rollback.{rest-late}
use pdes.Container.{Container, before, ensure_sorted, collect, fossil_collect}
use pdes.Event.Order.{receive_order}
use pdes.Event.{Event}

-- What a collection before a time must do.
pub record Collects (c d : Container) (time : ℕ) (reclaimed : List Event) : Type 0 where
  pub split : Perm (reclaimed ++ (d.processed ++ d.removed)) (c.processed ++ c.removed)
  pub old : All (λ e. e.receive_time < time) reclaimed
  pub late_processed : All (λ e. time ≤ e.receive_time) d.processed
  pub late_removed : All (λ e. time ≤ e.receive_time) d.removed
  pub same_unprocessed : Perm d.unprocessed c.unprocessed
  pub same_negative : d.negative ≡ c.negative
  pub in_order : Sorted receive_order d.unprocessed

-- The two fronts and the two rests regrouped.
regroup :
    (p : Event → Bool) (xs ys : List Event)
    → Perm ((front p xs ++ keep p ys) ++ (rest p xs ++ keep (λ e. not (p e)) ys)) (xs ++ ys)
regroup p xs ys =
    Perm.trans (perm_interchange (front p xs) (keep p ys) (rest p xs) (keep (λ e. not (p e)) ys)) (
      Perm.append
        (subst (λ zs. Perm (front p xs ++ rest p xs) zs) (front-append-rest p xs) (Perm.refl _))
        (keep-perm p ys))

before-lt : (time : ℕ) (e : Event) → before time e ≡ true → e.receive_time < time
before-lt time e h = ground arith

not-before-le : (time : ℕ) (e : Event) → not (before time e) ≡ true → time ≤ e.receive_time
not-before-le time e h = ground arith

collected : Container → (Event → Bool) → Container
collected d p = record d {
  processed = rest p d.processed;
  removed = keep (λ e. not (p e)) d.removed;
}

collected-Collects :
    (c d : Container) (time : ℕ)
    → IsSortOf c d
    → Sorted receive_order c.processed
    → Collects c
        (collected d (before time))
        time
        (front (before time) d.processed ++ keep (before time) d.removed)
unfolding collected
collected-Collects c d time s o = record {
  split =
      Perm.trans (regroup (before time) d.processed d.removed)
        (rw (s.same_processed, s.same_removed) (Perm.refl _));
  old =
      All-append _ (front (before time) d.processed) _
        (All-map _ _ (before-lt time) _ (front-All (before time) d.processed))
        (All-map _ _ (before-lt time) _ (keep-All (before time) d.removed));
  late_processed =
      rest-late time d.processed (subst (Sorted receive_order) (sym s.same_processed) o);
  late_removed = All-map _ _ (not-before-le time) _ (keep-All (λ e. not (before time e)) d.removed);
  same_unprocessed = s.same_events;
  same_negative = s.same_negative;
  in_order = s.in_order;
}

-- With the processed events in order and a truthful flag, fossil collection reclaims exactly the
-- processed and the removed events strictly before the collect time, where the comment in the header
-- says at or before it. The others stay, and the unprocessed events end up sorted.
pub fossil_collect-Collects :
    (c : Container) (time : ℕ)
    → IsValid c
    → Sorted receive_order c.processed
    → Collects c (fossil_collect c time).0 time (fossil_collect c time).1
unfolding fossil_collect collect
fossil_collect-Collects c time v s =
    unfold collected in collected-Collects c (ensure_sorted c) time (ensure_sorted-IsSortOf c v) s

AllBefore-rest :
    (p : Event → Bool) (ps xs : List Event) → AllBefore ps xs → AllBefore (rest p ps) xs
AllBefore-rest p ps xs = rest-All p (λ e. All (Le receive_order e) xs) ps

Sorted-rest :
    (p : Event → Bool) (xs : List Event)
    → Sorted receive_order xs
    → Sorted receive_order (rest p xs)
unfolding rest
Sorted-rest p [] s = tt
Sorted-rest p (x ∷ xs) s = ground (arith, Sorted-rest p xs s.1)

-- Fossil collection leaves the container in order.
pub fossil_collect-InOrder :
    (c : Container) (time : ℕ) → IsValid c → InOrder c → InOrder (fossil_collect c time).0
unfolding fossil_collect collect
fossil_collect-InOrder c time v o = record {
  done = Sorted-rest (before time) _ (subst (Sorted receive_order) (sym s.same_processed) o.done);
  ahead = AllBefore-rest (before time) _ _ (
      AllBefore-perm _ (Perm.symm s.same_events)
        (subst (λ ps. AllBefore ps c.unprocessed) (sym s.same_processed) o.ahead));
}
  where
    s : IsSortOf c (ensure_sorted c)
    s = ensure_sorted-IsSortOf c v
