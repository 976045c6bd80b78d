-- ===== src/Sequential/Loop.antt =====
-- The loop of the simulation comes to its end, has then executed what is due, and nothing out of order.
use pdes.Base.Maps.{update_self}
use pdes.Base.{
  ℕ, ◌≡◌, ◌≤◌, ◌<◌, refl, sym, ◌∙◌, ap, subst, true, Option, none, some, List, ◌∷◌, All-map, ltb,
  arith,
}
use pdes.Event.{Event}
use pdes.EventSet.{EventSet, IsFirstOf}
use pdes.Sequential.Calls.{NotBefore, count_at, AllRegistered, WellBehaved}
use pdes.Sequential.Execute.{execute_process-Executed}
use pdes.Sequential.Process.{Inside}
use pdes.Sequential.{
  Manager, returned, object_id, advance, peek_next, clean_up, goes_on, turn, turn_end,
  execute_process,
}

module _ (set : EventSet) where
  -- The manager with the next event known, after one that has the same events.
  pub record IsNext (m n : Manager set) (event : Option Event) : Type 0 where
    pub valid : set.IsValid set.limit n.event_set
    pub same_time : n.simulation_time ≡ m.simulation_time
    pub same_count : n.number_of_objects ≡ m.number_of_objects
    pub same : set.view n.event_set ≡ set.view m.event_set
    pub others : List Event
    pub first : IsFirstOf event (set.view n.event_set) others

  pub peek_next-IsNext :
      (m : Manager set)
      → set.IsValid set.limit m.event_set
      → (n : Manager set) × (event : Option Event) × (peek_next set m ≡ some (n, event))
        × IsNext m n event
  unfolding peek_next
  peek_next-IsNext m v =
      let (s, a, others, done, valid, same, f) = set.peek_event_law set.limit m.event_set v in
      (
        record m { event_set = s },
        a,
        rw done refl,
        record {
          valid = valid;
          same_time = refl;
          same_count = refl;
          same = same;
          others = others;
          first = subst (λ xs. IsFirstOf a xs others) (sym same) f;
        },
      )

  -- What a turn does after the process: there is room for `limit` events once more.
  turn_end-IsNext :
      {A : Type 0} (room : ℕ) (n : Manager set) (b : A)
      → set.IsValid room n.event_set
      → (k : Manager set) × (event : Option Event) × (turn_end set n b ≡ some (k, event, b))
        × IsNext n k event
  unfolding clean_up
  turn_end-IsNext room n b v =
      let (s, cleaned, valid, same) = set.clean_up_law room n.event_set v in
      let (k, event, peeked, i) = peek_next-IsNext (record n { event_set = s }) valid in
      (
        k,
        event,
        rw (cleaned, peeked) refl,
        record {
          valid = i.valid;
          same_time = i.same_time;
          same_count = i.same_count;
          same = i.same ∙ same;
          others = i.others;
          first = i.first;
        },
      )

pub first_lowest :
    (e : Event) (xs others : List Event)
    → IsFirstOf (some e) xs others
    → NotBefore e.receive_time xs
unfolding IsFirstOf
first_lowest e xs others f = subst (NotBefore e.receive_time) (sym f.0) (omega arith, f.1)

first_cons : (e : Event) (xs others : List Event) → IsFirstOf (some e) xs others → xs ≡ e ∷ others
unfolding IsFirstOf
first_cons e xs others f = f.0

pub later : (t u : ℕ) (xs : List Event) → t ≤ u → NotBefore u xs → NotBefore t xs
later t u xs h = All-map _ _ (λ e k. omega arith) xs

pub none_left : (until : ℕ) (xs others : List Event) → IsFirstOf none xs others → NotBefore until xs
unfolding IsFirstOf
none_left until xs others f = subst (NotBefore until) (sym f.0) tt

pub due :
    (t : ℕ) (e : Event) (xs others : List Event)
    → IsFirstOf (some e) xs others
    → NotBefore t xs
    → t ≤ e.receive_time
unfolding IsFirstOf
due t e xs others f h = (subst (NotBefore t) f.0 h).0

-- The receiver is an object with the id of its number.
registered_first :
    (count : ℕ) (e : Event) (xs others : List Event)
    → IsFirstOf (some e) xs others
    → AllRegistered count xs
    → (e.receiver.object < count) × (e.receiver ≡ object_id e.receiver.object)
unfolding IsFirstOf
registered_first count e xs others f h =
    let here = (subst (AllRegistered count) f.0 h).0 in
    let manager : e.receiver.manager ≡ 0 = ground (arith, here) in
    (ground (arith, here), (λ k. record { object = e.receiver.object; manager = manager k }))

module _ (set : EventSet) {A : Type 0} (handle : A → ℕ → ℕ → Event → A × List (ℕ × Event))
    (count : ℕ) (Inv : A → List Event → Type 0) (w : WellBehaved handle count set.limit Inv) where
  -- What holds whenever the loop tests its condition.
  pub record IsReady (until : ℕ) (m : Manager set) (a : A) (event : Option Event) : Type 0 where
    pub valid : set.IsValid set.limit m.event_set
    pub in_time : m.simulation_time ≤ until
    pub ahead : NotBefore m.simulation_time (set.view m.event_set)
    pub same_count : m.number_of_objects ≡ count
    pub registered : AllRegistered count (set.view m.event_set)
    pub kept : Inv a (set.view m.event_set)
    pub others : List Event
    pub first : IsFirstOf event (set.view m.event_set) others

  -- A turn at the event `e`.
  pub record IsTurn (most until : ℕ) (m : Manager set) (a : A) (e : Event) : Type 0 where
    pub manager : Manager set
    pub event : Option Event
    pub application : A
    pub turned : turn set handle most m a e ≡ some (manager, event, application)
    pub ready : IsReady until manager application event
    pub time : manager.simulation_time ≡ e.receive_time
    pub still : NotBefore e.receive_time (set.view manager.event_set)
    pub fewer :
        count_at e.receive_time (set.view manager.event_set)
        < count_at e.receive_time (set.view m.event_set)

  advance-Inside :
      (until : ℕ) (m : Manager set) (a : A) (e : Event)
      → IsReady until m a (some e)
      → Inside set handle count Inv w e.receiver.object e.receive_time set.limit (advance set m e) a
  advance-Inside until m a e r =
      let (number, to) =
        registered_first count e (set.view m.event_set) r.others r.first r.registered in
      record {
        valid = r.valid;
        now = refl;
        own = update_self m.object_times e.receiver.object e.receive_time;
        same_count = r.same_count;
        number = number;
        not_before = first_lowest e (set.view m.event_set) r.others r.first;
        registered = r.registered;
        kept = r.kept;
        enough = w.bounded a (set.view m.event_set) e.receive_time r.kept;
      }

  turn_lem :
      (most : ℕ) (m : Manager set) (a : A) (e : Event) (n : Manager set) (b : A)
      → e.receiver.object < m.number_of_objects
      → execute_process set handle most e.receiver.object (advance set m e) a ≡ returned n b
      → turn set handle most m a e ≡ turn_end set n b
  unfolding turn
  turn_lem most m a e n b h done =
      let there : ltb e.receiver.object m.number_of_objects ≡ true = ground (arith, h) in
      rw (there, done) refl

  pub turn-IsTurn :
      (most until : ℕ) (m : Manager set) (a : A) (e : Event)
      → set.limit < most
      → IsReady until m a (some e)
      → goes_on set until m e ≡ true
      → IsTurn most until m a e
  turn-IsTurn most until m a e large r g =
      let inside = advance-Inside until m a e r in
      let enough = inside.enough in
      let x =
        execute_process-Executed set handle count Inv w most e.receiver.object e.receive_time
          set.limit (advance set m e) a inside (omega (arith, large, enough)) in
      let (k, event, ended, i) =
        turn_end-IsNext set x.room x.manager x.application x.inside.valid in
      let (number, to) =
        registered_first count e (set.view m.event_set) r.others r.first r.registered in
      let time : k.simulation_time ≡ e.receive_time = i.same_time ∙ x.inside.now in
      let still : NotBefore e.receive_time (set.view k.event_set) = rw i.same x.inside.not_before in
      let there : e.receiver.object < m.number_of_objects = rw r.same_count number in
      let fewer =
        x.fewer e r.others (first_cons e (set.view m.event_set) r.others r.first) refl to in
      record {
        manager = k;
        event = event;
        application = x.application;
        turned = turn_lem most m a e x.manager x.application there x.done ∙ ended;
        ready = record {
          valid = i.valid;
          in_time = ground (arith, time);
          ahead = rw time still;
          same_count = i.same_count ∙ x.inside.same_count;
          registered = rw i.same x.inside.registered;
          kept = rw i.same x.inside.kept;
          others = i.others;
          first = i.first;
        };
        time = time;
        still = still;
        fewer = omega (arith, fewer, ap (count_at e.receive_time) i.same);
      }
