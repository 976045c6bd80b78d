-- ===== src/Sequential/Calls.antt =====
-- What the application promises of its objects, and what sending does to the events.
use mathlib.Core.List.Perm
use mathlib.Core.Bool.{Bool-set}
use mathlib.Core.List.{Permᴰ, perm_middle}
use mathlib.Core.Logic.{∥∥₁_elim}
use native.Mathlib.Bridge.{le_prop}
use native.Mathlib.Nat.{ℕ_set}
use pdes.Base.{
  Bool, true, ℕ, ◌≡◌, ◌≤◌, refl, ◌∙◌, ap, List, [], ◌∷◌, ◌++◌, All, All-perm, some, Perm, suc, ◌<◌,
  ◌==◌, ◌&&◌, ltb, if◌then◌else◌, arith,
}
use pdes.Event.{Event, ObjectId, object_eq}
use pdes.EventSet.{EventSet}
use pdes.Sequential.{Manager, object_id, handle_event, receive_event, send_all}

-- All events of the list are received at the time or later.
abbrev pub NotBefore : ℕ → List Event → Type 0
NotBefore t = All (λ e. t ≤ e.receive_time)

-- How many events of the list are received at the time.
unfoldable pub count_at : ℕ → List Event → ℕ
count_at t [] = 0
count_at t (e ∷ es) = if e.receive_time == t then suc (count_at t es) else count_at t es

count_at-permᴰ : (t : ℕ) {xs ys : List Event} → Permᴰ xs ys → count_at t xs ≡ count_at t ys
unfolding count_at
count_at-permᴰ t Permᴰ.nil = refl
count_at-permᴰ t (Permᴰ.cons e p) = rw (e, count_at-permᴰ t p) refl
count_at-permᴰ t (Permᴰ.swap e f) = rw (e, f) (ground arith)
count_at-permᴰ t (Permᴰ.trans p q) = count_at-permᴰ t p ∙ count_at-permᴰ t q

pub count_at-perm : (t : ℕ) {xs ys : List Event} → Perm xs ys → count_at t xs ≡ count_at t ys
count_at-perm t p = ∥∥₁_elim p (ℕ_set _ _) (count_at-permᴰ t)

pub NotBefore-perm : (t : ℕ) {xs ys : List Event} → Perm xs ys → NotBefore t xs → NotBefore t ys
NotBefore-perm t p h = All-perm _ (λ x. le_prop) p h

-- The receiver is one of the registered objects.
abbrev pub is_registered : ℕ → Event → Bool
is_registered count e = ltb e.receiver.object count && e.receiver.manager == 0

abbrev pub AllRegistered : ℕ → List Event → Type 0
AllRegistered count = All (λ e. is_registered count e ≡ true)

pub AllRegistered-perm :
    (count : ℕ) {xs ys : List Event} → Perm xs ys → AllRegistered count xs → AllRegistered count ys
AllRegistered-perm count p h = All-perm _ (λ x. Bool-set _ _) p h

-- An event that an object sends at a time: to one of the objects, as its receiver, and to a later time.
abbrev pub IsSent : ℕ → ℕ → ℕ × Event → Type 0
IsSent count t (target, e) =
    (target < count) × (e.receiver ≡ object_id target) × (t < e.receive_time)

abbrev pub events_of : List (ℕ × Event) → List Event
events_of [] = []
events_of ((target, e) ∷ sent) = e ∷ events_of sent

-- What an application must do. `Inv` is an invariant of its state with the events that are pending, by
-- which no more events than `limit` are pending for any one time; its objects send as they should.
pub record WellBehaved {A : Type 0} (handle : A → ℕ → ℕ → Event → A × List (ℕ × Event))
    (count limit : ℕ) (Inv : A → List Event → Type 0) : Type 0 where
  pub order_free : (a : A) {xs ys : List Event} → Perm xs ys → Inv a xs → Inv a ys
  pub bounded : (a : A) (xs : List Event) (t : ℕ) → Inv a xs → count_at t xs ≤ limit
  pub kept :
      (a : A) (object t : ℕ) (e : Event) (xs : List Event)
      → object < count
      → e.receiver ≡ object_id object
      → e.receive_time ≡ t
      → Inv a (e ∷ xs)
      → Inv (handle a object t e).0 (events_of (handle a object t e).1 ++ xs)
        × All (IsSent count t) (handle a object t e).1

pub sent_late :
    (count t : ℕ) (sent : List (ℕ × Event))
    → All (IsSent count t) sent
    → NotBefore (suc t) (events_of sent)
sent_late count t [] h = tt
sent_late count t ((target, e) ∷ sent) h = (h.0.2, sent_late count t sent h.1)

pub sent_registered :
    (count t : ℕ) (sent : List (ℕ × Event))
    → All (IsSent count t) sent
    → AllRegistered count (events_of sent)
sent_registered count t [] h = tt
sent_registered count t ((target, e) ∷ sent) h = (
  (let there = h.0.0 in
      let number = ap (λ (i : ObjectId). i.object) h.0.1 in
      let manager = ap (λ (i : ObjectId). i.manager) h.0.1 in
      ground (arith, there, number, manager)),
  sent_registered count t sent h.1,
)

-- Events of later times are not counted.
pub count_at-late :
    (t : ℕ) (es xs : List Event) → NotBefore (suc t) es → count_at t (es ++ xs) ≡ count_at t xs
unfolding count_at
count_at-late t [] xs h = refl
count_at-late t (e ∷ es) xs h =
    let late = h.0 in let more = count_at-late t es xs h.1 in ground (arith, late, more)

module _ (set : EventSet) where
  -- What sending does to the manager.
  pub record HasSent (room : ℕ) (es : List Event) (m n : Manager set) : Type 0 where
    pub valid : set.IsValid room n.event_set
    pub same_time : n.simulation_time ≡ m.simulation_time
    pub same_times : n.object_times ≡ m.object_times
    pub same_count : n.number_of_objects ≡ m.number_of_objects
    pub gained : Perm (es ++ set.view m.event_set) (set.view n.event_set)

  pub send_all-HasSent :
      (count t room : ℕ) (sent : List (ℕ × Event)) (m : Manager set)
      → All (IsSent count t) sent
      → set.IsValid room m.event_set
      → (n : Manager set) × (send_all set m sent ≡ some n) × HasSent room (events_of sent) m n
  unfolding send_all receive_event handle_event object_eq
  send_all-HasSent count t room [] m h v = (
    m,
    refl,
    record {
      valid = v;
      same_time = refl;
      same_times = refl;
      same_count = refl;
      gained = Perm.refl _;
    },
  )
  send_all-HasSent count t room ((target, e) ∷ sent) m h v =
      let (s, done, valid, perm) = set.insert_law room m.event_set e v in
      let k : Manager set = record m { event_set = s } in
      let (n, rest_done, r) = send_all-HasSent count t room sent k h.1 valid in
      let addressed : object_eq e.receiver (object_id target) ≡ true =
        (let number = ap (λ (i : ObjectId). i.object) h.0.1 in
          let manager = ap (λ (i : ObjectId). i.manager) h.0.1 in
          ground (arith, number, manager)) in
      (
        n,
        rw (addressed, done) rest_done,
        record {
          valid = r.valid;
          same_time = r.same_time;
          same_times = r.same_times;
          same_count = r.same_count;
          gained =
              Perm.trans (Perm.symm (perm_middle (events_of sent) (set.view m.event_set)))
                (Perm.trans (Perm.append_left (events_of sent) perm) r.gained);
        },
      )
