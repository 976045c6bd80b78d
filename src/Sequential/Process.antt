-- ===== src/Sequential/Process.antt =====
-- One event of an object's process: it is taken out and handled, and what is sent comes later.
use mathlib.Core.List.{head-eq_of_cons-eq, nil≢cons}
use pdes.Base.{
  ℕ, zero, suc, ◌≡◌, ◌≤◌, ◌<◌, refl, sym, ◌∙◌, ap, subst, Option, none, some, List, ◌∷◌, All-append,
  All-map, arith,
}
use pdes.Event.{Event}
use pdes.EventSet.{EventSet, IsFirstOf}
use pdes.Sequential.Calls.{
  NotBefore, NotBefore-perm, count_at, count_at-perm, count_at-late, AllRegistered,
  AllRegistered-perm, WellBehaved, events_of, sent_late, sent_registered, send_all-HasSent,
}
use pdes.Sequential.{Manager, object_id, counted, manager_get_event, handled, process_event}

-- One event fewer is at the time of the first one once that is taken out.
count_at-cons :
    (t : ℕ) (e : Event) (es : List Event)
    → e.receive_time ≡ t
    → count_at t (e ∷ es) ≡ suc (count_at t es)
unfolding count_at
count_at-cons t e es h = ground (arith, h)

module _ (set : EventSet) {A : Type 0} (handle : A → ℕ → ℕ → Event → A × List (ℕ × Event))
    (count : ℕ) (Inv : A → List Event → Type 0) (w : WellBehaved handle count set.limit Inv) where
  -- What holds whenever the process of an object tests whether there are more events at its time. There is
  -- room for the events that are at this time.
  pub record Inside (object t room : ℕ) (m : Manager set) (a : A) : Type 0 where
    pub valid : set.IsValid room m.event_set
    pub now : m.simulation_time ≡ t
    pub own : m.object_times object ≡ t
    pub same_count : m.number_of_objects ≡ count
    pub number : object < count
    pub not_before : NotBefore t (set.view m.event_set)
    pub registered : AllRegistered count (set.view m.event_set)
    pub kept : Inv a (set.view m.event_set)
    pub enough : count_at t (set.view m.event_set) ≤ room

  -- A peek leaves all this as it is.
  pub Inside-peek :
      (object t room : ℕ) (m : Manager set) (a : A) (s : set.Store)
      → Inside object t room m a
      → set.IsValid room s
      → set.view s ≡ set.view m.event_set
      → Inside object t room (record m { event_set = s }) a
  Inside-peek object t room m a s i v same = record {
    valid = v;
    now = i.now;
    own = i.own;
    same_count = i.same_count;
    number = i.number;
    not_before = rw same i.not_before;
    registered = rw same i.registered;
    kept = rw same i.kept;
    enough = rw same i.enough;
  }

  -- The object has gone on, with fewer events left at its time.
  pub record Processed (object t : ℕ) (m : Manager set) (a : A) (o : Option (Manager set × A))
      : Type 0 where
    pub manager : Manager set
    pub application : A
    pub room : ℕ
    pub done : o ≡ some (manager, application)
    pub inside : Inside object t room manager application
    pub fewer : count_at t (set.view manager.event_set) < count_at t (set.view m.event_set)

  -- What the application does with an event that has been taken out.
  handled-Processed :
      (object t room : ℕ) (m : Manager set) (a : A) (s : set.Store) (x : Event)
      → Inside object t (suc room) m a
      → set.IsValid room s
      → set.view m.event_set ≡ x ∷ set.view s
      → x.receive_time ≡ t
      → x.receiver ≡ object_id object
      → Processed object t m a (handled set handle object (counted set m s (some x)) a (some x))
  unfolding handled
  handled-Processed object t room m a s x i v taken at_time to =
      let now = m.object_times object in
      let (kept, sent_well) =
        w.kept a object now x (set.view s) i.number to (at_time ∙ sym i.own)
          (subst (Inv a) taken i.kept) in
      let sent = (handle a object now x).1 in
      let (n, done, g) =
        send_all-HasSent set count now room sent (counted set m s (some x)) sent_well v in
      let late : NotBefore (suc t) (events_of sent) =
        subst (λ u. NotBefore (suc u) (events_of sent)) i.own
          (sent_late count now sent sent_well) in
      let counts : count_at t (set.view n.event_set) ≡ count_at t (set.view s) =
        sym (count_at-perm t g.gained) ∙ count_at-late t (events_of sent) (set.view s) late in
      let less = ap (count_at t) taken ∙ count_at-cons t x (set.view s) at_time in
      let enough = i.enough in
      record {
        manager = n;
        application = (handle a object now x).0;
        room = room;
        done = rw done refl;
        inside = record {
          valid = g.valid;
          now = g.same_time ∙ i.now;
          own = ap (λ f. f object) g.same_times ∙ i.own;
          same_count = g.same_count ∙ i.same_count;
          number = i.number;
          not_before = NotBefore-perm t g.gained (
              All-append (λ e. t ≤ e.receive_time) (events_of sent) (set.view s)
                (All-map _ _ (λ e (h : suc t ≤ e.receive_time). (omega (arith, h))) (events_of sent)
                  late)
                (subst (NotBefore t) taken i.not_before).1);
          registered = AllRegistered-perm count g.gained (
              All-append _ (events_of sent) (set.view s) (sent_registered count now sent sent_well)
                (subst (AllRegistered count) taken i.registered).1);
          kept = w.order_free (handle a object now x).0 g.gained kept;
          enough = omega (arith, counts, less, enough);
        };
        fewer = omega (arith, counts, less);
      }

  -- A turn of the loop, whose first event is at the object and its time.
  pub process_event-Processed :
      (object t room : ℕ) (m : Manager set) (a : A) (e : Event) (others : List Event)
      → Inside object t room m a
      → set.view m.event_set ≡ e ∷ others
      → e.receive_time ≡ t
      → e.receiver ≡ object_id object
      → Processed object t m a (process_event set handle object m a)
  unfolding process_event manager_get_event IsFirstOf
  process_event-Processed object t zero m a e others i f at_time to =
      let enough = i.enough in
      let some_at = ap (count_at t) f ∙ count_at-cons t e others at_time in
      absurd (omega (arith, enough, some_at))
  process_event-Processed object t (suc room) m a e others i f at_time to =
      let (s, x, got, valid, g) = set.get_event_law room m.event_set i.valid in
      from_answer s x got valid g
    where
      from_answer :
          (s : set.Store) (x : Option Event)
          → set.get_event m.event_set ≡ some (s, x)
          → set.IsValid room s
          → IsFirstOf x (set.view m.event_set) (set.view s)
          → Processed object t m a (process_event set handle object m a)
      from_answer s none got v g = absurd (nil≢cons (sym g.0 ∙ f))
      from_answer s (some x) got v g =
          let same : e ≡ x = head-eq_of_cons-eq (sym f ∙ g.0) in
          rw got (
            handled-Processed object t room m a s x i v g.0
              (ap (λ (y : Event). y.receive_time) (sym same) ∙ at_time)
              (ap (λ (y : Event). y.receiver) (sym same) ∙ to))
