-- ===== src/Output/Held.antt =====
-- The events that lazy cancellation holds: a rollback adds what it takes back, and their least
-- receive time bounds all that may still be cancelled.
use mathlib.Core.List.{reverse, reverse_perm, perm_append_comm, append_assoc}
use mathlib.Core.List.Perm
use native.Mathlib.Nat.{le_trans}
use pdes.Base.Permutations.{perm_interchange}
use pdes.Base.Sorting.{StrictOrder, Sorted, Le}
use pdes.Base.{
  ℕ, zero, suc, ◌≤◌, ◌<◌, ◌≡◌, subst, inl, inr, Bool, true, false, List, [], ◌∷◌, ◌++◌, Perm, arith,
  ltb, if◌then◌else◌, ◌==◌, Bool-cases, All, All-map,
}
use pdes.Event.{Event}
use pdes.Output.Lazy.{LazyObject, rollback, lazy_min_time, get_lazy_q_min_time}
use pdes.Output.Rollback.{send_order, TakesBack, get_events_and_remove-TakesBack}
use pdes.Output.{OutputEvents, Kernel, get_events_and_remove}

unfoldable pub receive_time_less : Event → Event → Bool
receive_time_less a b = ltb a.receive_time b.receive_time

pub receive_time_less-asymm :
    (a b : Event) → receive_time_less a b ≡ true → receive_time_less b a ≡ false
unfolding receive_time_less
receive_time_less-asymm a b h = ground arith

pub receive_time_less-le_trans :
    (a b c : Event)
    → receive_time_less b a ≡ false
    → receive_time_less c b ≡ false
    → receive_time_less c a ≡ false
unfolding receive_time_less
receive_time_less-le_trans a b c h k = ground arith

-- `receiveTimeLessThan`.
abbrev pub receive_time_order : StrictOrder Event
receive_time_order = record {
  less = receive_time_less;
  less_asymm = receive_time_less-asymm;
  le_trans = receive_time_less-le_trans;
}

abbrev pub sent : OutputEvents → List Event
sent o = o.sent_local ++ o.sent_remote

joined : (kept gone whole : List Event) → kept ++ reverse gone ≡ whole → Perm (gone ++ kept) whole
joined kept gone whole h =
    Perm.trans (perm_append_comm gone kept)
      (subst (Perm (kept ++ gone)) h (Perm.append_left kept (Perm.symm (reverse_perm gone))))

TakesBack-perm :
    (o p : OutputEvents) (time : ℕ) (events : List Event)
    → TakesBack o p time events
    → Perm (events ++ sent p) (sent o)
TakesBack-perm o p time events t = rw t.found (
    Perm.trans (perm_interchange t.of_local t.of_remote p.sent_local p.sent_remote) (
      Perm.append (joined p.sent_local t.of_local o.sent_local t.local_split)
        (joined p.sent_remote t.of_remote o.sent_remote t.remote_split)))

-- A rollback loses no event: those that were held or count as sent are, after it, held or count as
-- sent, and those held are sorted by their receive times. The sort of the C++ library is any that
-- rearranges a list in order; there is no optimistic fossil collection, and the output is in the order of
-- send times.
pub rollback_holds :
    (sort : List Event → List Event) (k : Kernel) (o : LazyObject) (time : ℕ)
    → ((es : List Event) → Perm (sort es) es)
    → ((es : List Event) → Sorted receive_time_order (sort es))
    → k.opt_fossil ≡ false
    → Sorted send_order o.output.sent_local
    → Sorted send_order o.output.sent_remote
    → Perm
        ((rollback sort k o time).0.lazy_queue ++ sent (rollback sort k o time).0.output)
        (o.lazy_queue ++ sent o.output)
      × Sorted receive_time_order (rollback sort k o time).0.lazy_queue
      × All (λ e. e.send_time < time) (rollback sort k o time).0.output.sent_local
      × All (λ e. e.send_time < time) (rollback sort k o time).0.output.sent_remote
unfolding rollback
rollback_holds sort k o time rearranges orders h sl sr =
    let t = get_events_and_remove-TakesBack k o.output time h sl sr in
    let p = (get_events_and_remove k o.output time).0 in
    let events = (get_events_and_remove k o.output time).1 in
    (
      Perm.trans (Perm.append_right (sent p) (rearranges (o.lazy_queue ++ events))) (
          rw (append_assoc o.lazy_queue events (sent p))
            (Perm.append_left o.lazy_queue (TakesBack-perm o.output p time events t))),
      orders (o.lazy_queue ++ events),
      t.early_local,
      t.early_remote,
    )

-- The first receive time of a queue, as `lazy_min_time` reads it.
abbrev first_time : ℕ → List Event → ℕ
first_time infinity queue = elim queue [ [] ↦ infinity | e ∷ _ ↦ e.receive_time ]

head_least :
    (infinity : ℕ) (queue : List Event)
    → Sorted receive_time_order queue
    → All (λ e. first_time infinity queue ≤ e.receive_time) queue
unfolding receive_time_less
head_least infinity [] s = tt
head_least infinity (e ∷ es) s = (
  omega arith,
  All-map (Le receive_time_order e) (λ x. e.receive_time ≤ x.receive_time) (λ x h. ground arith) es
      s.0,
)

next-le :
    (infinity : ℕ) (objects : ℕ → LazyObject) (n : ℕ)
    → (get_lazy_q_min_time infinity objects (suc n) ≤ get_lazy_q_min_time infinity objects n)
      × (get_lazy_q_min_time infinity objects (suc n) ≤ lazy_min_time infinity (objects n))
unfolding get_lazy_q_min_time
next-le infinity objects n =
    choice (get_lazy_q_min_time infinity objects n) (lazy_min_time infinity (objects n))
  where
    choice : (a b : ℕ) → ((if ltb b a then b else a) ≤ a) × ((if ltb b a then b else a) ≤ b)
    choice a b = (ground arith, ground arith)

-- With the held events of every object in the order of receive times, the least time that the
-- objects below a number report is not after any event that one of them holds.
pub min_time_least :
    (infinity : ℕ) (objects : ℕ → LazyObject) (n i : ℕ)
    → i < n
    → ((j : ℕ) → Sorted receive_time_order (objects j).lazy_queue)
    → All (λ e. get_lazy_q_min_time infinity objects n ≤ e.receive_time) (objects i).lazy_queue
min_time_least infinity objects zero i h s = absurd (omega arith)
min_time_least infinity objects (suc n) i h s = elim (Bool-cases (i == n)) [
  | inl t ↦
      let same : n ≡ i = ground arith in
      All-map (λ e. lazy_min_time infinity (objects i) ≤ e.receive_time)
        (λ e. get_lazy_q_min_time infinity objects (suc n) ≤ e.receive_time)
        (λ e le.
          le_trans
            (subst
              (λ j.
                get_lazy_q_min_time infinity objects (suc n) ≤ lazy_min_time infinity (objects j))
              same (next-le infinity objects n).1)
            le)
        (objects i).lazy_queue (head_least infinity (objects i).lazy_queue (s i))
  | inr t ↦
      All-map (λ e. get_lazy_q_min_time infinity objects n ≤ e.receive_time)
        (λ e. get_lazy_q_min_time infinity objects (suc n) ≤ e.receive_time)
        (λ e le. le_trans (next-le infinity objects n).0 le) (objects i).lazy_queue
        (min_time_least infinity objects n i (ground arith) s)
]
