-- ===== src/Output/Fossil.antt =====
-- Fossil collection of output events: no later rollback misses what it reclaims.
use mathlib.Core.Bool.{Bool-set}
use mathlib.Core.List.{reverse, reverse-append}
use mathlib.Core.Path.{ap₂}
use pdes.Base.{
  ℕ, ◌≤◌, ◌≡◌, refl, sym, ap, ◌∙◌, inl, inr, Bool, true, false, List, [], ◌∷◌, ◌++◌, arith, ltb,
  Bool-cases, front, rest, front-append-rest, front-All, All, All-map,
}
use pdes.Event.{Event}
use pdes.Output.Rollback.{search_local_lem, reverse-All}
use pdes.Output.{OutputEvents, Kernel, at_or_after, get_events_and_remove, collect, fossil_collect}

front-append :
    (p : Event → Bool) (xs ys : List Event)
    → All (λ e. p e ≡ false) ys
    → front p (xs ++ ys) ≡ front p xs
unfolding front
front-append p [] [] h = refl
front-append p [] (y ∷ ys) h = rw h.0 refl
front-append p (x ∷ xs) ys h = elim (Bool-cases (p x)) [
  | inl t ↦ rw t (ap (λ l. x ∷ l) (front-append p xs ys h))
  | inr t ↦ rw t refl
]

old-not-late :
    (bound time : ℕ) (es : List Event)
    → bound ≤ time
    → All (λ e. at_or_after time e ≡ false) (front (λ e. ltb e.send_time bound) es)
old-not-late bound time es h =
    All-map (λ e. ltb e.send_time bound ≡ true) (λ e. at_or_after time e ≡ false)
      (λ e old. ground arith) _ (front-All (λ e. ltb e.send_time bound) es)

found_again :
    (bound time : ℕ) (es : List Event)
    → bound ≤ time
    → front (at_or_after time) (reverse (rest (λ e. ltb e.send_time bound) es))
      ≡ front (at_or_after time) (reverse es)
found_again bound time es h =
    let old = λ (e : Event). ltb e.send_time bound in
    sym (
      ap (λ l. front (at_or_after time) (reverse l)) (sym (front-append-rest old es))
      ∙ ap (front (at_or_after time)) (reverse-append (front old es) (rest old es))
      ∙ front-append (at_or_after time) (reverse (rest old es)) (reverse (front old es)) (
          reverse-All (λ e. at_or_after time e ≡ false) (λ e. Bool-set _ _) (front old es)
            (old-not-late bound time es h)))

-- A rollback to the collection's time or a later one takes back the same events, whether the output
-- was collected before or not, if there is no optimistic fossil collection.
pub get_events-fossil_collect :
    (k : Kernel) (o : OutputEvents) (bound time : ℕ)
    → k.opt_fossil ≡ false
    → bound ≤ time
    → (get_events_and_remove k (fossil_collect o bound) time).1 ≡ (get_events_and_remove k o time).1
unfolding get_events_and_remove fossil_collect collect
get_events-fossil_collect k o bound time h le =
    let old = λ (e : Event). ltb e.send_time bound in
    rw
      (
        search_local_lem k time (reverse (rest old o.sent_local)) h,
        search_local_lem k time (reverse o.sent_local) h,
      )
      (ap₂ (λ xs ys. xs ++ ys) (found_again bound time o.sent_local le)
        (found_again bound time o.sent_remote le))
