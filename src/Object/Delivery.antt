-- ===== src/Object/Delivery.antt =====
-- An event or negative events that arrive at an object, with the rollback that they cause.
use pdes.Base.{
  ℕ, ◌≤◌, ◌<◌, ◌≡◌, refl, ap, sym, subst, ◌∙◌, inl, inr, Bool-cases, leb, ltb, true, List, [], ◌∷◌,
  Option, some, none, arith, All, All-map, if◌then◌else◌,
}
use pdes.Base.Sorting.{Sorted}
use pdes.Container as Container
use pdes.Container.Causality.{IsValid}
use pdes.Container.Cancel.{
  insert-IsValid, anti-IsValid, anti_shrinks, anti_keeps_processed, insert_grows,
  insert_keeps_processed,
}
use pdes.Container.{Container, handle_anti_message}
use pdes.Event.Order.{receive_order}
use pdes.Event.{Event, ObjectId, object_eq}
use pdes.Object.Faithful.{IsFaithful, IsSaved}
use pdes.Object.Replay.{replay}
use pdes.Object.Rollback.{rollback-IsRolledBack}
use pdes.Object.{
  SimulationObject, insert_event, handle_local_event, low_time, cancel_all, cancel_behind,
  cancel_local_events,
}
use pdes.Output as Output
use pdes.Output.{Kernel}

low_time-le : (low : ℕ) (ns : List Event) → low_time low ns ≤ low
unfolding low_time
low_time-le low [] = omega arith
low_time-le low (n ∷ ns) =
    let least = low_time-le (if ltb n.receive_time low then n.receive_time else low) ns in
    ground (arith, least)

-- The lowest time is not after any of the times, and not before what none of them is before.
low_time-least : (low : ℕ) (ns : List Event) → All (λ n. low_time low ns ≤ n.receive_time) ns
unfolding low_time
low_time-least low [] = tt
low_time-least low (n ∷ ns) =
    let first = low_time-le (if ltb n.receive_time low then n.receive_time else low) ns in
    (
      ground (arith, first),
      low_time-least (if ltb n.receive_time low then n.receive_time else low) ns,
    )

low_time-bound :
    (gvt low : ℕ) (ns : List Event)
    → gvt ≤ low
    → All (λ n. gvt ≤ n.receive_time) ns
    → gvt ≤ low_time low ns
unfolding low_time
low_time-bound gvt low [] h all = h
low_time-bound gvt low (n ∷ ns) h all =
    low_time-bound gvt (if ltb n.receive_time low then n.receive_time else low) ns
      (let first = all.0 in ground (arith, first, h)) all.1

module _ {S : Type 0} (handle : S → Event → S × List Event) (k : Kernel) (id : ObjectId)
    (s0 : S) where
  abbrev pub IsOurs : Event → Type 0
  IsOurs e = object_eq e.receiver id ≡ true

  -- The unprocessed events may change, if they are not before the bound.
  with_container :
      (o : SimulationObject S) (c : Container)
      → (f : IsFaithful handle id s0 o) → c.processed ≡ o.container.processed
      → IsValid c
      → All (λ e. f.bound ≤ e.receive_time) c.unprocessed
      → All IsOurs c.unprocessed
      → IsFaithful handle id s0 (record o { container = c })
  with_container o c f same valid late ours = record {
    bound = f.bound;
    split = record {
      flag = valid;
      done = subst (Sorted receive_order) (sym same) f.split.done;
      early = subst (All (λ e. e.receive_time < f.bound)) (sym same) f.split.early;
      late = late;
      addressed = ours;
      addressed_done = subst (All IsOurs) (sym same) f.split.addressed_done;
    };
    near = f.near;
    replayed = f.replayed ∙ ap (replay handle s0) (sym same);
    states =
        subst (λ ps. IsSaved handle id s0 (o.states.state_queue id.object) ps f.bound) (sym same)
          f.states;
    not_coasting = f.not_coasting;
  }

  pub insert_event-IsFaithful :
      (o : SimulationObject S) (e : Event)
      → (f : IsFaithful handle id s0 o) → f.bound ≤ e.receive_time
      → IsOurs e
      → IsFaithful handle id s0 (insert_event handle k id o e)
  insert_event-IsFaithful o e f h ours =
      with_container o (Container.insert o.container e) f (insert_keeps_processed o.container e)
        (insert-IsValid o.container e f.split.flag)
        (insert_grows o.container e (λ x. f.bound ≤ x.receive_time) f.split.late h)
        (insert_grows o.container e IsOurs f.split.addressed ours)

  cancel_one-IsFaithful :
      (o : SimulationObject S) (n : Event)
      → IsFaithful handle id s0 o
      → IsFaithful handle id s0 (record o { container = (handle_anti_message o.container n).0 })
  cancel_one-IsFaithful o n f =
      with_container o (handle_anti_message o.container n).0 f (anti_keeps_processed o.container n)
        (anti-IsValid o.container n f.split.flag)
        (anti_shrinks o.container n (λ x. f.bound ≤ x.receive_time) f.split.late)
        (anti_shrinks o.container n IsOurs f.split.addressed)

  cancel_all-IsFaithful :
      (o : SimulationObject S) (ns : List Event)
      → IsFaithful handle id s0 o
      → All (λ n. o.simulation_time ≤ n.receive_time) ns
      → (p : SimulationObject S) × (cancel_all handle k id o ns ≡ some p)
        × IsFaithful handle id s0 p
  unfolding cancel_all
  cancel_all-IsFaithful o [] f h = (o, refl, f)
  cancel_all-IsFaithful o (n ∷ ns) f h =
      let next = record o { container = (handle_anti_message o.container n).0 } in
      let (p, done, t) = cancel_all-IsFaithful next ns (cancel_one-IsFaithful o n f) h.1 in
      let yes : leb o.simulation_time n.receive_time ≡ true =
        (let first = h.0 in ground (arith, first)) in
      (p, rw yes done, t)

  behind :
      (ns : List Event) (r : Option (SimulationObject S × Option (List Event)))
      (q p : SimulationObject S) (cancelled : Option (List Event))
      → r ≡ some (q, cancelled)
      → cancel_all handle k id q ns ≡ some p
      → cancel_behind handle k id ns r ≡ some (p, cancelled)
  behind ns r q p cancelled h fin = rw (h, cancel_behind, fin) refl

  -- An event that is not before the global virtual time is taken in without an abort, after a rollback or without one.
  pub handle_local_event-IsFaithful :
      (gvt : ℕ) (o : SimulationObject S) (e : Event)
      → gvt ≤ e.receive_time
      → IsOurs e
      → IsFaithful handle id s0 o
      → (p : SimulationObject S) × (cancelled : Option (List Event)) × (handle_local_event handle k
            id gvt o e
          ≡ some (p, cancelled))
        × IsFaithful handle id s0 p
  unfolding handle_local_event
  handle_local_event-IsFaithful gvt o e h ours f =
      elim (Bool-cases (ltb o.simulation_time e.receive_time)) [
        | inl t ↦
            (let near = f.near in
              (
                insert_event handle k id o e,
                none,
                rw t refl,
                insert_event-IsFaithful o e f (ground (arith, t, near)) ours,
              ))
        | inr t ↦
            let (p, done, r) = rollback-IsRolledBack handle k id s0 gvt o e.receive_time h f in
            (
              insert_event handle k id p e,
              (Output.rollback k o.output e.receive_time).1,
              rw (t, done) refl,
              insert_event-IsFaithful p e r.faithful r.in_time ours,
            )
      ]

  -- Negative events that are not before the global virtual time are handled with no abort and no failed
  -- assertion, and keep a faithful object faithful.
  pub cancel_local_events-IsFaithful :
      (gvt : ℕ) (o : SimulationObject S) (n : Event) (ns : List Event)
      → All (λ m. gvt ≤ m.receive_time) (n ∷ ns)
      → IsFaithful handle id s0 o
      → (p : SimulationObject S) × (cancelled : Option (List Event)) × (cancel_local_events handle k
            id gvt o
            (n ∷ ns)
          ≡ some (p, cancelled))
        × IsFaithful handle id s0 p
  unfolding cancel_local_events
  cancel_local_events-IsFaithful gvt o n ns all f =
      let low = low_time n.receive_time (n ∷ ns) in
      let least = low_time-least n.receive_time (n ∷ ns) in
      elim (Bool-cases (leb low o.simulation_time)) [
        | inl t ↦
            let (q, done, r) =
              rollback-IsRolledBack handle k id s0 gvt o low
                (low_time-bound gvt n.receive_time (n ∷ ns) all.0 all) f in
            let (p, fin, g) = cancel_all-IsFaithful q (n ∷ ns) r.faithful (
              All-map _ _
                (λ m (h : low ≤ m.receive_time). (let back = r.back in omega (arith, h, back)))
                (n ∷ ns) least) in
            (p, (Output.rollback k o.output low).1, rw t (behind (n ∷ ns) _ q p _ done fin), g)
        | inr t ↦
            let (p, fin, g) = cancel_all-IsFaithful o (n ∷ ns) f (
              All-map _ _ (λ m (h : low ≤ m.receive_time). (ground (arith, h, t))) (n ∷ ns)
                least) in
            (p, none, rw t (behind (n ∷ ns) _ o p none refl fin), g)
      ]
