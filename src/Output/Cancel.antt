-- ===== src/Output/Cancel.antt =====
-- Lazy cancellation: an event that is sent again is matched once and not cancelled, and all else
-- that was taken back is cancelled or held.
use mathlib.Core.List.{append-nil}
use mathlib.Core.List.Perm
use pdes.Base.{
  ◌<◌, ◌≡◌, refl, sym, ap, ◌∙◌, subst, ◌⊎◌, inl, inr, Bool, true, false, List, [], ◌∷◌, ◌++◌, Perm,
  Option, none, some, arith, if◌then◌else◌, Bool-cases, List-cases, front, rest, front-append-rest,
  front-All, extract, extract-some, behind, All, All-map,
}
use pdes.Event.{Event}
use pdes.Output.Lazy.{
  LazyObject, earlier_than, give_up, hit, no_counts, check_with, end_phase, ends,
  check_lazy_cancel_event, lazy_cancel, settle,
}
use pdes.Output.{OutputEvents, Kernel, insert}

-- What is left alone when a phase ends.
abbrev Same : LazyObject → LazyObject → Type 0
Same o p =
    (p.lazy_queue ≡ o.lazy_queue)
    × (p.to_cancel ≡ o.to_cancel)
    × (p.insert_mode ≡ o.insert_mode)
    × (p.output ≡ o.output)

end_phase-Same : (o : LazyObject) → Same o (end_phase o)
end_phase-Same o = elim (List-cases o.lazy_queue) [
  | inl e ↦ rw e (refl, refl, refl, refl)
  | inr (x, xs, e) ↦ rw e (refl, refl, refl, refl)
]

-- The matched event goes back to the output, where the mode says so.
abbrev pub matched_output : Kernel → LazyObject → Event → OutputEvents
matched_output k o x = if o.insert_mode then insert k o.output x else o.output

-- How one event is compared with those that are held.
pub record Compares (equal : Event → Event → Bool) (k : Kernel) (o : LazyObject) (e : Event)
    (p : LazyObject) (found : Bool) : Type 0 where
  pub stale : List Event
  pub all_stale : stale ≡ front (earlier_than e.send_time) o.lazy_queue
  pub given_up : p.to_cancel ≡ o.to_cancel ++ stale
  pub early : All (λ x. x.send_time < e.send_time) stale
  pub same_mode : p.insert_mode ≡ o.insert_mode
  pub result :
      ((found ≡ false)
        × (o.lazy_queue ≡ stale ++ p.lazy_queue)
        × All (λ x. equal x e ≡ false) p.lazy_queue
        × (p.output ≡ o.output))
      ⊎ ((x : Event) × (found ≡ true)
          × (equal x e ≡ true)
          × Perm o.lazy_queue (stale ++ x ∷ p.lazy_queue)
          × (p.output ≡ matched_output k o x))

extract-none :
    (p : Event → Bool) (es : List Event) → extract p es ≡ none → All (λ x. p x ≡ false) es
unfolding extract
extract-none p [] h = tt
extract-none p (x ∷ es) h = elim (Bool-cases (p x)) [
  | inl t ↦ absurd (ground (arith, t))
  | inr t ↦ (t, extract-none p es (behind_none x (extract p es) (rw t at h)))
]
  where
    behind_none : (x : Event) (o : Option (Event × List Event)) → behind x o ≡ none → o ≡ none
    behind_none x none h = refl
    behind_none x (some o) h = cc

module _ (equal : Event → Event → Bool) (k : Kernel) (o : LazyObject) (e : Event) where
  abbrev stale : List Event
  stale = front (earlier_than e.send_time) o.lazy_queue

  abbrev held : List Event
  held = rest (earlier_than e.send_time) o.lazy_queue

  stale_early : All (λ x. x.send_time < e.send_time) stale
  stale_early =
      All-map (λ x. earlier_than e.send_time x ≡ true) (λ x. x.send_time < e.send_time)
        (λ x h. ground arith) stale (front-All (earlier_than e.send_time) o.lazy_queue)

  compares :
      (r : Option (Event × List Event))
      → extract (λ x. equal x e) held ≡ r
      → Compares equal k o e
          (ends (hit k (give_up e.send_time o) r)).0
          (ends (hit k (give_up e.send_time o) r)).1
  unfolding give_up
  compares none h =
      let (queue, cancels, mode, output) = end_phase-Same (give_up e.send_time o) in
      record {
        stale = stale;
        all_stale = refl;
        given_up = cancels;
        early = stale_early;
        same_mode = mode;
        result = inl (
          refl,
          sym (front-append-rest (earlier_than e.send_time) o.lazy_queue)
              ∙ ap (λ l. stale ++ l) (sym queue),
          subst (All (λ y. equal y e ≡ false)) (sym queue) (extract-none (λ y. equal y e) held h),
          output,
        );
      }
  compares (some (x, others)) h =
      let (queue, cancels, mode, output) =
        end_phase-Same (hit k (give_up e.send_time o) (some (x, others))).0 in
      let (same, taken) = extract-some (λ y. equal y e) held h in
      record {
        stale = stale;
        all_stale = refl;
        given_up = cancels;
        early = stale_early;
        same_mode = mode;
        result = inr (
          x,
          refl,
          same,
          subst (λ l. Perm o.lazy_queue (stale ++ x ∷ l)) (sym queue)
              (subst (λ l. Perm l (stale ++ x ∷ others))
                (front-append-rest (earlier_than e.send_time) o.lazy_queue)
                (Perm.append_left stale taken)),
          output,
        );
      }

  Compares-none : o.lazy_queue ≡ [] → Compares equal k o e (no_counts o) false
  unfolding front
  Compares-none h = record {
    stale = [];
    all_stale = ap (front (earlier_than e.send_time)) (sym h);
    given_up = sym (append-nil o.to_cancel);
    early = tt;
    same_mode = refl;
    result = inl (refl, refl, subst (All (λ y. equal y e ≡ false)) (sym h) tt, refl);
  }

  -- The event is compared with the events that are held and were not sent before its time; those
  -- before are given up. The first that is equal leaves, and goes back to the output if the mode says so.
  pub check-Compares :
      Compares equal k o e
        (check_lazy_cancel_event equal k o e).0
        (check_lazy_cancel_event equal k o e).1
  unfolding check_lazy_cancel_event
  check-Compares = go o.lazy_queue refl
    where
      go :
          (queue : List Event)
          → o.lazy_queue ≡ queue
          → Compares equal k o e (check_with equal k o e queue).0 (check_with equal k o e queue).1
      go [] h = Compares-none h
      go (x ∷ xs) h = unfold give_up in compares (extract (λ y. equal y e) held) refl

-- What a lazy cancellation must do with an event that the object sends.
pub record Resolves (equal : Event → Event → Bool) (k : Kernel) (o : LazyObject) (e : Event)
    (p : LazyObject) (found : Bool) (cancelled : List Event) : Type 0 where
  pub stale : List Event
  pub all_stale : stale ≡ front (earlier_than e.send_time) o.lazy_queue
  pub given_up : cancelled ≡ o.to_cancel ++ stale
  pub early : All (λ x. x.send_time < e.send_time) stale
  pub none_pending : p.to_cancel ≡ []
  pub result :
      ((found ≡ false)
        × (o.lazy_queue ≡ stale ++ p.lazy_queue)
        × All (λ x. equal x e ≡ false) p.lazy_queue
        × (p.output ≡ insert k o.output e))
      ⊎ ((x : Event) × (found ≡ true)
          × (equal x e ≡ true)
          × Perm o.lazy_queue (stale ++ x ∷ p.lazy_queue)
          × (p.output ≡ insert k o.output (if o.insert_mode then x else e)))

abbrev settled : Kernel → Event → LazyObject → Bool → LazyObject
settled k e p mode = if mode then p else record p { output = insert k p.output e }

found-Resolves :
    (equal : Event → Event → Bool) (k : Kernel) (o : LazyObject) (e : Event) (p : LazyObject)
    → Compares equal k o e p true
    → (mode : Bool) → o.insert_mode ≡ mode
    → Resolves equal k o e
        (record (settled k e p mode) { to_cancel = [] })
        true
        (settled k e p mode).to_cancel
found-Resolves equal k o e p c true m = record {
  stale = c.stale;
  all_stale = c.all_stale;
  given_up = c.given_up;
  early = c.early;
  none_pending = refl;
  result = elim c.result [
    | inl (f, queue, unequal, output) ↦ absurd (cc)
    | inr (x, f, same, queue, output) ↦ inr (x, refl, same, queue, output ∙ ground (arith, m))
  ];
}
found-Resolves equal k o e p c false m = record {
  stale = c.stale;
  all_stale = c.all_stale;
  given_up = c.given_up;
  early = c.early;
  none_pending = refl;
  result = elim c.result [
    | inl (f, queue, unequal, output) ↦ absurd (cc)
    | inr (x, f, same, queue, output) ↦
        inr (x, refl, same, queue, ap (λ out. insert k out e) output ∙ ground (arith, m))
  ];
}

settle-Resolves :
    (equal : Event → Event → Bool) (k : Kernel) (o : LazyObject) (e : Event) (p : LazyObject)
    (found : Bool)
    → Compares equal k o e p found
    → Resolves equal k o e
        (settle k e (p, found)).0
        (settle k e (p, found)).1
        (settle k e (p, found)).2
settle-Resolves equal k o e p false c = record {
  stale = c.stale;
  all_stale = c.all_stale;
  given_up = c.given_up;
  early = c.early;
  none_pending = refl;
  result = elim c.result [
    | inl (f, queue, unequal, output) ↦
        inl (refl, queue, unequal, ap (λ out. insert k out e) output)
    | inr (x, f, same, queue, output) ↦ absurd (cc)
  ];
}
settle-Resolves equal k o e p true c =
    found-Resolves equal k o e p c p.insert_mode (sym c.same_mode)

-- An event that the object sends again is found exactly if an equal one is held from its own time on;
-- then that one leaves the queue and is not cancelled, and the output gains one event, the held one or
-- the new one by the mode. What is cancelled, after
-- what was to be cancelled before, are all the events of earlier send times at the front of the queue.
pub lazy_cancel-Resolves :
    (equal : Event → Event → Bool) (k : Kernel) (o : LazyObject) (e : Event)
    → Resolves equal k o e
        (lazy_cancel equal k o e).0
        (lazy_cancel equal k o e).1
        (lazy_cancel equal k o e).2
unfolding lazy_cancel
lazy_cancel-Resolves equal k o e =
    settle-Resolves equal k o e (check_lazy_cancel_event equal k o e).0
      (check_lazy_cancel_event equal k o e).1 (check-Compares equal k o e)
