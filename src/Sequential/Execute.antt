-- ===== src/Sequential/Execute.antt =====
-- The process of one object: it comes to its end, and takes all that it was started for.
use mathlib.Core.List.{head-eq_of_cons-eq, nil≢cons}
use pdes.Base.{
  ℕ, zero, suc, ◌≡◌, ◌≤◌, ◌<◌, refl, sym, ◌∙◌, ap, subst, inl, inr, true, false, Option, none, some,
  List, ◌∷◌, Bool-cases, arith,
}
use pdes.Event.{Event, ObjectId, object_eq}
use pdes.EventSet.{EventSet, IsFirstOf}
use pdes.Sequential.Calls.{count_at, WellBehaved}
use pdes.Sequential.{Manager, Outcome, returned, object_id, is_more, more_events, execute_process}
use pdes.Sequential.Process.{Inside, Inside-peek, process_event-Processed}

module _ (set : EventSet) {A : Type 0} (handle : A → ℕ → ℕ → Event → A × List (ℕ × Event))
    (count : ℕ) (Inv : A → List Event → Type 0) (w : WellBehaved handle count set.limit Inv) where
  -- How the process of an object ends.
  pub record Executed (object t : ℕ) (m : Manager set) (a : A) (o : Outcome set A) : Type 0 where
    pub manager : Manager set
    pub application : A
    pub room : ℕ
    pub done : o ≡ returned manager application
    pub inside : Inside set handle count Inv w object t room manager application
    pub no_more : count_at t (set.view manager.event_set) ≤ count_at t (set.view m.event_set)
    pub fewer :
        (e : Event) (others : List Event)
        → set.view m.event_set ≡ e ∷ others
        → e.receive_time ≡ t
        → e.receiver ≡ object_id object
        → count_at t (set.view manager.event_set) < count_at t (set.view m.event_set)

  is_more-current :
      (object t : ℕ) (e : Event)
      → e.receive_time ≡ t
      → e.receiver ≡ object_id object
      → is_more set (object_id object) t (some e) ≡ true
  unfolding object_eq
  is_more-current object t e at_time to =
      let number = ap (λ (i : ObjectId). i.object) to in
      let manager = ap (λ (i : ObjectId). i.manager) to in ground (arith, at_time, number, manager)

  current-is_more :
      (object t : ℕ) (e : Event)
      → is_more set (object_id object) t (some e) ≡ true
      → (e.receive_time ≡ t) × (e.receiver ≡ object_id object)
  unfolding object_eq
  current-is_more object t e h =
      let number : e.receiver.object ≡ object = ground (arith, h) in
      let manager : e.receiver.manager ≡ 0 = ground (arith, h) in
      (ground (arith, h), (λ k. record { object = number k; manager = manager k }))

  more_events-peek :
      (object : ℕ) (m : Manager set) (s : set.Store) (x : Option Event)
      → set.peek_event m.event_set ≡ some (s, x)
      → more_events set object m
        ≡ some
            (record m { event_set = s }, is_more set (object_id object) (m.object_times object) x)
  unfolding more_events
  more_events-peek object m s x h = rw h refl

  -- One turn of the loop, before turns that are known to come to an end.
  execute_process-turn :
      (fuel object t room : ℕ) (m : Manager set) (a : A)
      → Inside set handle count Inv w object t room m a
      → count_at t (set.view m.event_set) < suc fuel
      → ((left : ℕ) (n : Manager set) (b : A)
          → Inside set handle count Inv w object t left n b
          → count_at t (set.view n.event_set) < fuel
          → Executed object t n b (execute_process set handle fuel object n b))
      → Executed object t m a (execute_process set handle (suc fuel) object m a)
  unfolding execute_process IsFirstOf
  execute_process-turn fuel object t room m a i h again =
      let (s, x, others, peeked, valid, same, f) = set.peek_event_law room m.event_set i.valid in
      from_answer s x others peeked valid same f
    where
      stops :
          (s : set.Store) (x : Option Event) (others : List Event)
          → set.peek_event m.event_set ≡ some (s, x)
          → set.IsValid room s
          → set.view s ≡ set.view m.event_set
          → IsFirstOf x (set.view m.event_set) others
          → is_more set (object_id object) (m.object_times object) x ≡ false
          → Executed object t m a (execute_process set handle (suc fuel) object m a)
      stops s x others peeked v same f past = record {
        manager = record m { event_set = s };
        application = a;
        room = room;
        done = rw (execute_process, more_events-peek object m s x peeked, past) refl;
        inside = Inside-peek set handle count Inv w object t room m a s i v same;
        no_more = omega (arith, ap (count_at t) same);
        fewer = λ e rest first at_time to. absurd (is_first x f past e rest first at_time to);
      }
        where
          is_first :
              (x : Option Event)
              → IsFirstOf x (set.view m.event_set) others
              → is_more set (object_id object) (m.object_times object) x ≡ false
              → (e : Event) (rest : List Event) → set.view m.event_set ≡ e ∷ rest
              → e.receive_time ≡ t
              → e.receiver ≡ object_id object
              → ⊥
          is_first none f past e rest first at_time to = nil≢cons (sym f.0 ∙ first)
          is_first (some y) f past e rest first at_time to =
              let same : e ≡ y = head-eq_of_cons-eq (sym first ∙ f.0) in
              let now = is_more-current object (m.object_times object) e (at_time ∙ sym i.own) to in
              let here : is_more set (object_id object) (m.object_times object) (some y) ≡ true =
                subst (λ z. is_more set (object_id object) (m.object_times object) (some z) ≡ true)
                  same now in
              let both : true ≡ false = sym here ∙ past in cc

      goes :
          (s : set.Store) (x : Event) (others : List Event)
          → set.peek_event m.event_set ≡ some (s, some x)
          → set.IsValid room s
          → set.view s ≡ set.view m.event_set
          → IsFirstOf (some x) (set.view m.event_set) others
          → is_more set (object_id object) (m.object_times object) (some x) ≡ true
          → Executed object t m a (execute_process set handle (suc fuel) object m a)
      goes s x others peeked v same f current =
          let k : Manager set = record m { event_set = s } in
          let (at_time, to) = current-is_more object (m.object_times object) x current in
          let p =
            process_event-Processed set handle count Inv w object t room k a x others
              (Inside-peek set handle count Inv w object t room m a s i v same) (same ∙ f.0)
              (at_time ∙ i.own) to in
          let fewer = p.fewer in
          let q =
            again p.room p.manager p.application p.inside
              (omega (arith, h, fewer, ap (count_at t) same)) in
          let no_more = q.no_more in
          record {
            manager = q.manager;
            application = q.application;
            room = q.room;
            done =
                rw (execute_process, more_events-peek object m s (some x) peeked, current, p.done)
                  q.done;
            inside = q.inside;
            no_more = omega (arith, fewer, no_more, ap (count_at t) same);
            fewer = λ e rest first at to. (omega (arith, fewer, no_more, ap (count_at t) same));
          }

      from_answer :
          (s : set.Store) (x : Option Event) (others : List Event)
          → set.peek_event m.event_set ≡ some (s, x)
          → set.IsValid room s
          → set.view s ≡ set.view m.event_set
          → IsFirstOf x (set.view m.event_set) others
          → Executed object t m a (execute_process set handle (suc fuel) object m a)
      from_answer s none others peeked v same f = stops s none others peeked v same f refl
      from_answer s (some x) others peeked v same f =
          elim (Bool-cases (is_more set (object_id object) (m.object_times object) (some x))) [
            | inl current ↦ goes s x others peeked v same f current
            | inr past ↦ stops s (some x) others peeked v same f past
          ]

  -- As much fuel as events at the time, and one more, is enough.
  pub execute_process-Executed :
      (fuel object t room : ℕ) (m : Manager set) (a : A)
      → Inside set handle count Inv w object t room m a
      → count_at t (set.view m.event_set) < fuel
      → Executed object t m a (execute_process set handle fuel object m a)
  execute_process-Executed zero object t room m a i h = absurd (omega (arith, h))
  execute_process-Executed (suc fuel) object t room m a i h =
      execute_process-turn fuel object t room m a i h
        (λ left n b. execute_process-Executed fuel object t left n b)
