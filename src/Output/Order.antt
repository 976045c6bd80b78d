-- ===== src/Output/Order.antt =====
-- The output queues of one object over its life: its clock never runs behind the events that it has
-- sent, so the queues stay in the order of send times.
use mathlib.Core.List.{reverse}
use pdes.Base.Sorting.{Sorted, Le, Sorted-left, Sorted-right}
use pdes.Base.{
  ℕ, ◌≤◌, ◌<◌, ◌≡◌, sym, subst, inl, inr, false, List, [], ◌∷◌, ◌++◌, arith, Bool, Bool-cases, All,
  All-append, All-map, front, rest, front-append-rest, rest-All,
}
use pdes.Event.{Event}
use pdes.Output.Rollback.{send_order, send_time_less, get_events_and_remove-TakesBack}
use pdes.Output.{
  OutputEvents, Kernel, is_local, insert, get_events_and_remove, fossil_collect, collect,
}

pub record Sender : Type 0 where
  pub clock : ℕ
  pub output : OutputEvents

-- An event is sent at the object's time or later; a rollback sets the time back; fossils are
-- collected at any time.
pub data Action : Type 0 where
  advances : ℕ → Action
  sends : Event → Action
  rolls_back : ℕ → Action
  collects : ℕ → Action

-- The action is one that the simulation manager may take.
abbrev pub Allowed : Sender → Action → Type 0
Allowed s (advances time) = s.clock ≤ time
Allowed s (sends e) = e.send_time ≡ s.clock
Allowed s (rolls_back time) = Unit
Allowed s (collects time) = Unit

unfoldable pub act : Kernel → Sender → Action → Sender
act k s (advances time) = record s { clock = time }
act k s (sends e) = record s { output = insert k s.output e }
act k s (rolls_back time) = record {
  clock = time;
  output = (get_events_and_remove k s.output time).0;
}
act k s (collects time) = record s { output = fossil_collect s.output time }

pub record InSendOrder (s : Sender) : Type 0 where
  pub local_order : Sorted send_order s.output.sent_local
  pub remote_order : Sorted send_order s.output.sent_remote
  pub local_past : All (λ e. e.send_time ≤ s.clock) s.output.sent_local
  pub remote_past : All (λ e. e.send_time ≤ s.clock) s.output.sent_remote

Sorted-snoc :
    (es : List Event) (e : Event) (clock : ℕ)
    → Sorted send_order es
    → All (λ x. x.send_time ≤ clock) es
    → e.send_time ≡ clock
    → Sorted send_order (es ++ e ∷ [])
unfolding send_time_less
Sorted-snoc [] e clock s h same = (tt, tt)
Sorted-snoc (x ∷ es) e clock s h same = (
  All-append (Le send_order x) es (e ∷ []) s.0 (ground arith, tt),
  Sorted-snoc es e clock s.1 h.1 same,
)

past-snoc :
    (es : List Event) (e : Event) (clock : ℕ)
    → All (λ x. x.send_time ≤ clock) es
    → e.send_time ≡ clock
    → All (λ x. x.send_time ≤ clock) (es ++ e ∷ [])
past-snoc es e clock h same = All-append (λ x. x.send_time ≤ clock) es (e ∷ []) h (omega arith, tt)

rest-Sorted :
    (p : Event → Bool) (es : List Event) → Sorted send_order es → Sorted send_order (rest p es)
rest-Sorted p es s =
    Sorted-right send_order (front p es) (rest p es) (rw (front-append-rest p es) s)

sends-InSendOrder :
    (k : Kernel) (s : Sender) (e : Event)
    → InSendOrder s
    → e.send_time ≡ s.clock
    → InSendOrder (act k s (sends e))
unfolding act insert
sends-InSendOrder k s e v same = elim (Bool-cases (is_local k e)) [
  | inl t ↦ rw t (record {
    local_order = Sorted-snoc s.output.sent_local e s.clock v.local_order v.local_past same;
    remote_order = v.remote_order;
    local_past = past-snoc s.output.sent_local e s.clock v.local_past same;
    remote_past = v.remote_past;
  })
  | inr t ↦ rw t (record {
    local_order = v.local_order;
    remote_order = Sorted-snoc s.output.sent_remote e s.clock v.remote_order v.remote_past same;
    local_past = v.local_past;
    remote_past = past-snoc s.output.sent_remote e s.clock v.remote_past same;
  })
]

-- Without optimistic fossil collection, and if each event that an object sends has the object's clock
-- as its send time and the clock goes back by rollbacks only, its output queues stay in the order of
-- send times and none of their events is later than the clock, whatever is sent, taken back and
-- collected.
pub act-InSendOrder :
    (k : Kernel) (s : Sender) (a : Action)
    → k.opt_fossil ≡ false
    → InSendOrder s
    → Allowed s a
    → InSendOrder (act k s a)
unfolding act
act-InSendOrder k s (advances time) h v ok = record {
  local_order = v.local_order;
  remote_order = v.remote_order;
  local_past =
      All-map (λ e. e.send_time ≤ s.clock) (λ e. e.send_time ≤ time) (λ e le. omega arith) _
        v.local_past;
  remote_past =
      All-map (λ e. e.send_time ≤ s.clock) (λ e. e.send_time ≤ time) (λ e le. omega arith) _
        v.remote_past;
}
act-InSendOrder k s (sends e) h v ok = sends-InSendOrder k s e v ok
act-InSendOrder k s (rolls_back time) h v ok =
    let t = get_events_and_remove-TakesBack k s.output time h v.local_order v.remote_order in
    let after = (get_events_and_remove k s.output time).0 in
    record {
      local_order =
          Sorted-left send_order after.sent_local (reverse t.of_local)
            (subst (Sorted send_order) (sym t.local_split) v.local_order);
      remote_order =
          Sorted-left send_order after.sent_remote (reverse t.of_remote)
            (subst (Sorted send_order) (sym t.remote_split) v.remote_order);
      local_past =
          All-map (λ e. e.send_time < time) (λ e. e.send_time ≤ time) (λ e le. omega arith) _
            t.early_local;
      remote_past =
          All-map (λ e. e.send_time < time) (λ e. e.send_time ≤ time) (λ e le. omega arith) _
            t.early_remote;
    }
act-InSendOrder k s (collects time) h v ok =
    unfold fossil_collect collect in
    record {
      local_order = rest-Sorted _ s.output.sent_local v.local_order;
      remote_order = rest-Sorted _ s.output.sent_remote v.remote_order;
      local_past = rest-All _ (λ e. e.send_time ≤ s.clock) s.output.sent_local v.local_past;
      remote_past = rest-All _ (λ e. e.send_time ≤ s.clock) s.output.sent_remote v.remote_past;
    }
