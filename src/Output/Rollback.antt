-- ===== src/Output/Rollback.antt =====
-- What a rollback takes back from the output queues, and the order of send times that makes its
-- search from the end right.
use mathlib.Core.List.{reverse, reverse-append, reverse-reverse, reverse-cons, reverse_perm}
use mathlib.Core.List.Perm
use native.Mathlib.Bridge.{le_prop}
use pdes.Base.Sorting.{StrictOrder, Sorted, Le}
use pdes.Base.{
  ℕ, ◌≤◌, ◌<◌, ◌≡◌, refl, sym, ap, ◌∙◌, inl, inr, Bool, true, false, List, [], ◌∷◌, ◌++◌, none,
  arith, ltb, Bool-cases, front, rest, front-append-rest, front-All, All, All-append, All-map,
  All-perm,
}
use pdes.Event.{Event}
use pdes.Output.{OutputEvents, Kernel, at_or_after, search_local, get_events_and_remove}

unfoldable pub send_time_less : Event → Event → Bool
send_time_less a b = ltb a.send_time b.send_time

pub send_time_less-asymm : (a b : Event) → send_time_less a b ≡ true → send_time_less b a ≡ false
unfolding send_time_less
send_time_less-asymm a b h = ground arith

pub send_time_less-le_trans :
    (a b c : Event)
    → send_time_less b a ≡ false
    → send_time_less c b ≡ false
    → send_time_less c a ≡ false
unfolding send_time_less
send_time_less-le_trans a b c h k = ground arith

-- `sendTimeLessThan`.
abbrev pub send_order : StrictOrder Event
send_order = record {
  less = send_time_less;
  less_asymm = send_time_less-asymm;
  le_trans = send_time_less-le_trans;
}

-- A queue with its newest entry first.
abbrev NewestFirst : List Event → Type 0
NewestFirst [] = Unit
NewestFirst (e ∷ es) = All (λ x. x.send_time ≤ e.send_time) es × NewestFirst es

NewestFirst-snoc :
    (es : List Event) (e : Event)
    → NewestFirst es
    → All (λ x. e.send_time ≤ x.send_time) es
    → NewestFirst (es ++ e ∷ [])
NewestFirst-snoc [] e n h = (tt, tt)
NewestFirst-snoc (x ∷ es) e n h = (
  All-append (λ y. y.send_time ≤ x.send_time) es (e ∷ []) n.0 (h.0, tt),
  NewestFirst-snoc es e n.1 h.1,
)

NewestFirst-reverse : (es : List Event) → Sorted send_order es → NewestFirst (reverse es)
unfolding send_time_less
NewestFirst-reverse [] s = tt
NewestFirst-reverse (e ∷ es) s = rw (reverse-cons e es) (
    NewestFirst-snoc (reverse es) e (NewestFirst-reverse es s.1) (
      All-perm (λ x. e.send_time ≤ x.send_time) (λ x. le_prop) (Perm.symm (reverse_perm es))
        (All-map (Le send_order e) (λ x. e.send_time ≤ x.send_time) (λ x h. ground arith) es s.0)))

-- From the first entry on that is not late, no entry is.
rest-early :
    (time : ℕ) (es : List Event)
    → NewestFirst es
    → All (λ e. e.send_time < time) (rest (at_or_after time) es)
unfolding rest
rest-early time [] n = tt
rest-early time (e ∷ es) n = elim (Bool-cases (at_or_after time e)) [
  | inl t ↦ rw t (rest-early time es n.1)
  | inr t ↦ rw t (
    ground arith,
    All-map (λ x. x.send_time ≤ e.send_time) (λ x. x.send_time < time) (λ x h. ground arith) es n.0,
  )
]

pub reverse-All :
    (P : Event → Type 0) (prop : (e : Event) → IsProp (P e)) (es : List Event)
    → All P es
    → All P (reverse es)
reverse-All P prop es h = All-perm P prop (Perm.symm (reverse_perm es)) h

-- Without optimistic fossil collection the search is for the front that is late.
pub search_local_lem :
    (k : Kernel) (time : ℕ) (es : List Event)
    → k.opt_fossil ≡ false
    → search_local k time es ≡ record {
      found = front (at_or_after time) es;
      left = rest (at_or_after time) es;
      recovery = none;
    }
unfolding search_local front rest
search_local_lem k time [] h = refl
search_local_lem k time (e ∷ []) h = ground arith
search_local_lem k time (e ∷ f ∷ es) h = ground (arith, search_local_lem k time (f ∷ es) h)

-- What a queue keeps, and what is found in it.
queue_split :
    (p : Event → Bool) (es : List Event)
    → reverse (rest p (reverse es)) ++ reverse (front p (reverse es)) ≡ es
queue_split p es =
    sym (reverse-append (front p (reverse es)) (rest p (reverse es)))
    ∙ ap reverse (front-append-rest p (reverse es))
    ∙ reverse-reverse es

-- What it is to take back the output from a time on.
pub record TakesBack (o p : OutputEvents) (time : ℕ) (events : List Event) : Type 0 where
  pub of_local : List Event
  pub of_remote : List Event
  pub found : events ≡ of_local ++ of_remote
  pub local_split : p.sent_local ++ reverse of_local ≡ o.sent_local
  pub remote_split : p.sent_remote ++ reverse of_remote ≡ o.sent_remote
  pub late : All (λ e. time ≤ e.send_time) events
  pub early_local : All (λ e. e.send_time < time) p.sent_local
  pub early_remote : All (λ e. e.send_time < time) p.sent_remote
  pub remembered : p.removed_remote ≡ o.removed_remote ++ of_remote

front-late :
    (time : ℕ) (es : List Event) → All (λ e. time ≤ e.send_time) (front (at_or_after time) es)
front-late time es =
    All-map (λ e. at_or_after time e ≡ true) (λ e. time ≤ e.send_time) (λ e h. ground arith) _
      (front-All (at_or_after time) es)

-- Without optimistic fossil collection, and with both queues in the order of send times, the events
-- that are handed out are exactly those that were sent at the time or later: the local ones, the
-- newest first, and behind them the remote ones, the newest first. The earlier ones stay, and the
-- remote ones that go are remembered.
pub get_events_and_remove-TakesBack :
    (k : Kernel) (o : OutputEvents) (time : ℕ)
    → k.opt_fossil ≡ false
    → Sorted send_order o.sent_local
    → Sorted send_order o.sent_remote
    → TakesBack o (get_events_and_remove k o time).0 time (get_events_and_remove k o time).1
unfolding get_events_and_remove
get_events_and_remove-TakesBack k o time h sl sr =
    let late = at_or_after time in
    rw (search_local_lem k time (reverse o.sent_local) h) (record {
      of_local = front late (reverse o.sent_local);
      of_remote = front late (reverse o.sent_remote);
      found = refl;
      local_split = queue_split late o.sent_local;
      remote_split = queue_split late o.sent_remote;
      late =
          All-append (λ e. time ≤ e.send_time) (front late (reverse o.sent_local))
            (front late (reverse o.sent_remote)) (front-late time (reverse o.sent_local))
            (front-late time (reverse o.sent_remote));
      early_local =
          reverse-All (λ e. e.send_time < time) (λ e. le_prop) (rest late (reverse o.sent_local))
            (rest-early time (reverse o.sent_local) (NewestFirst-reverse o.sent_local sl));
      early_remote =
          reverse-All (λ e. e.send_time < time) (λ e. le_prop) (rest late (reverse o.sent_remote))
            (rest-early time (reverse o.sent_remote) (NewestFirst-reverse o.sent_remote sr));
      remembered = refl;
    })
