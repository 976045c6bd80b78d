-- ===== src/Sequential/Returns.antt =====
-- The simulation comes to its end, and leaves nothing undone before it.
use pdes.Base.{
  ℕ, zero, suc, ◌+◌, ◌≡◌, ◌≤◌, ◌<◌, refl, ◌∙◌, ap, subst, inl, inr, true, false, ◌==◌, Option, none,
  some, List, Bool-cases, ltb, arith,
}
use pdes.Event.{Event}
use pdes.EventSet.{EventSet}
use pdes.Sequential.Calls.{NotBefore, count_at, AllRegistered, WellBehaved}
use pdes.Sequential.Loop.{
  peek_next-IsNext, first_lowest, later, none_left, due, IsReady, IsTurn, turn-IsTurn,
}
use pdes.Sequential.{Manager, returned, goes_on, turn, simulate_loop, simulate}

module _ (set : EventSet) {A : Type 0} (handle : A → ℕ → ℕ → Event → A × List (ℕ × Event))
    (count : ℕ) (Inv : A → List Event → Type 0) (w : WellBehaved handle count set.limit Inv)
    (most : ℕ) (large : set.limit < most) where
  loop_stops :
      (fuel until : ℕ) (m : Manager set) (a : A) (e : Event)
      → goes_on set until m e ≡ false
      → simulate_loop set handle most fuel until m a (some e) ≡ returned m a
  unfolding simulate_loop
  loop_stops zero until m a e h = rw h refl
  loop_stops (suc fuel) until m a e h = rw (simulate_loop, h) refl

  loop_turns :
      (fuel until : ℕ) (m : Manager set) (a : A) (e : Event) (n : Manager set)
      (event : Option Event) (b : A)
      → goes_on set until m e ≡ true
      → turn set handle most m a e ≡ some (n, event, b)
      → simulate_loop set handle most (suc fuel) until m a (some e)
        ≡ simulate_loop set handle most fuel until n b event
  unfolding simulate_loop
  loop_turns fuel until m a e n event b h t = rw (simulate_loop, h, t) refl

  -- A run from the time `t` has not gone back, nor past the end, and all events before the end are done.
  pub record IsComplete (until t : ℕ) (n : Manager set) (b : A) : Type 0 where
    pub valid : set.IsValid set.limit n.event_set
    pub not_back : t ≤ n.simulation_time
    pub in_time : n.simulation_time ≤ until
    pub done : NotBefore until (set.view n.event_set)
    pub registered : AllRegistered count (set.view n.event_set)
    pub kept : Inv b (set.view n.event_set)

  abbrev Returns : ℕ → ℕ → Manager set → A → Option Event → Type 0
  Returns until t m a event =
      (fuel : ℕ) × (n : Manager set) × (b : A) × (simulate_loop set handle most fuel until m a event
        ≡ returned n b)
      × IsComplete until t n b

  complete :
      (until t : ℕ) (m : Manager set) (a : A) (event : Option Event)
      → IsReady set handle count Inv w until m a event
      → t ≤ m.simulation_time
      → NotBefore until (set.view m.event_set)
      → IsComplete until t m a
  complete until t m a event r h d = record {
    valid = r.valid;
    not_back = h;
    in_time = r.in_time;
    done = d;
    registered = r.registered;
    kept = r.kept;
  }

  -- The loop is left when nothing is due.
  stands :
      (until t : ℕ) (m : Manager set) (a : A) (e : Event)
      → IsReady set handle count Inv w until m a (some e)
      → t ≤ m.simulation_time
      → goes_on set until m e ≡ false
      → Returns until t m a (some e)
  stands until t m a e r h g = (
    0,
    m,
    a,
    loop_stops 0 until m a e g,
    complete until t m a (some e) r h (elim (Bool-cases (ltb m.simulation_time until)) [
      | inl b ↦
          later until e.receive_time (set.view m.event_set) (ground (arith, g, b))
            (first_lowest e (set.view m.event_set) r.others r.first)
      | inr b ↦ later until m.simulation_time (set.view m.event_set) (ground (arith, b)) r.ahead
    ]),
  )

  goes_further :
      (until t : ℕ) (m : Manager set) (a : A) (e : Event)
      → goes_on set until m e ≡ true
      → (s : IsTurn set handle count Inv w most until m a e)
      → Returns until t s.manager s.application s.event
      → Returns until t m a (some e)
  goes_further until t m a e g s (fuel, n, b, done, c) = (
    suc fuel,
    n,
    b,
    loop_turns fuel until m a e s.manager s.event s.application g s.turned ∙ done,
    c,
  )

  fewer_at :
      (u until : ℕ) (m : Manager set) (a : A) (e : Event)
      (s : IsTurn set handle count Inv w most until m a e)
      → e.receive_time ≡ u
      → count_at u (set.view s.manager.event_set) < count_at u (set.view m.event_set)
  fewer_at u until m a e s p = omega (
    arith,
    s.fewer,
    ap (λ v. count_at v (set.view s.manager.event_set)) p,
    ap (λ v. count_at v (set.view m.event_set)) p,
  )

  passed :
      (u until : ℕ) (m : Manager set) (a : A) (e : Event)
      → IsReady set handle count Inv w until m a (some e)
      → NotBefore u (set.view m.event_set)
      → (e.receive_time == u) ≡ false
      → NotBefore (suc u) (set.view m.event_set)
  passed u until m a e r h n =
      later (suc u) e.receive_time (set.view m.event_set)
        (ground (arith, n, due u e (set.view m.event_set) r.others r.first h))
        (first_lowest e (set.view m.event_set) r.others r.first)

  -- By the distance of the time of the first events to the end, and by how many are at that time.
  loop-Returns :
      (distance number u until t : ℕ) (m : Manager set) (a : A) (event : Option Event)
      → IsReady set handle count Inv w until m a event
      → t ≤ m.simulation_time
      → NotBefore u (set.view m.event_set)
      → u + distance ≡ suc until
      → count_at u (set.view m.event_set) ≤ number
      → Returns until t m a event
  unfolding simulate_loop
  loop-Returns distance number u until t m a none r l h d c = (
    0,
    m,
    a,
    refl,
    complete until t m a none r l (none_left until (set.view m.event_set) r.others r.first),
  )
  loop-Returns zero number u until t m a (some e) r l h d c =
      stands until t m a e r l
        (ground (arith, d, due u e (set.view m.event_set) r.others r.first h))
  loop-Returns (suc distance) zero u until t m a (some e) r l h d c =
      elim (Bool-cases (e.receive_time == u)) [
        | inl same ↦ elim (Bool-cases (goes_on set until m e)) [
          | inl g ↦
              let s = turn-IsTurn set handle count Inv w most until m a e large r g in
              absurd (omega (arith, c, fewer_at u until m a e s (ground (arith, same))))
          | inr g ↦ stands until t m a e r l g
        ]
        | inr n ↦
            loop-Returns distance (count_at (suc u) (set.view m.event_set)) (suc u) until t m a
              (some e) r l (passed u until m a e r h n) (omega (arith, d)) (omega arith)
      ]
  loop-Returns (suc distance) (suc number) u until t m a (some e) r l h d c =
      elim (Bool-cases (e.receive_time == u)) [
        | inl same ↦ elim (Bool-cases (goes_on set until m e)) [
          | inl g ↦
              let s = turn-IsTurn set handle count Inv w most until m a e large r g in
              let p : e.receive_time ≡ u = ground (arith, same) in
              let ahead = due m.simulation_time e (set.view m.event_set) r.others r.first r.ahead in
              goes_further until t m a e g s (
                loop-Returns (suc distance) number u until t s.manager s.application s.event s.ready
                  (omega (arith, l, ahead, s.time))
                  (subst (λ v. NotBefore v (set.view s.manager.event_set)) p s.still) d
                  (omega (arith, c, fewer_at u until m a e s p)))
          | inr g ↦ stands until t m a e r l g
        ]
        | inr n ↦
            loop-Returns distance (count_at (suc u) (set.view m.event_set)) (suc u) until t m a
              (some e) r l (passed u until m a e r h n) (omega (arith, d)) (omega arith)
      ]

  -- For an application whose objects handle their events in the loop that SimulationObject.h documents,
  -- send each event to a registered object and to a later time than their own, and of whose events no
  -- more than the limit of the event set are ever pending for one time: on an event set whose events
  -- are for registered objects and not before the simulation time, which is not past the end time,
  -- `simulate` returns, with enough fuel, and fails no assertion and follows no pointer that is null or
  -- to nothing. The time of the simulation has then not gone back and has not passed the end time,
  -- and no event before the end time is left.
  pub simulate-IsComplete :
      (until : ℕ) (m : Manager set) (a : A)
      → set.IsValid set.limit m.event_set
      → m.simulation_time ≤ until
      → NotBefore m.simulation_time (set.view m.event_set)
      → m.number_of_objects ≡ count
      → AllRegistered count (set.view m.event_set)
      → Inv a (set.view m.event_set)
      → (fuel : ℕ) × (n : Manager set) × (b : A) × (simulate set handle most fuel until m a
          ≡ returned n b)
        × IsComplete until m.simulation_time n b
  unfolding simulate
  simulate-IsComplete until m a v h k c registered kept =
      let (n, event, peeked, i) = peek_next-IsNext set m v in
      let ready : IsReady set handle count Inv w until n a event = record {
        valid = i.valid;
        in_time = omega (arith, h, i.same_time);
        ahead = rw (i.same_time, i.same) k;
        same_count = i.same_count ∙ c;
        registered = rw i.same registered;
        kept = rw i.same kept;
        others = i.others;
        first = i.first;
      } in
      let (fuel, l, b, done, complete) =
        loop-Returns (suc until) (count_at 0 (set.view n.event_set)) 0 until m.simulation_time n a
          event ready (omega (arith, i.same_time))
          (later 0 m.simulation_time (set.view n.event_set) (omega arith) (rw i.same k))
          (omega arith) (omega arith) in
      (fuel, l, b, rw peeked done, complete)
