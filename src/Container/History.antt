-- ===== src/Container/History.antt =====
-- Histories of a container: what arrives, is cancelled, processed and collected in any order. An
-- arriving event that is in the past causes a rollback to its receive time first, and a negative
-- event a rollback to its own, as the simulation manager does with the restored time at hand.
use pdes.Base.{ℕ, inl, inr, List, [], ◌∷◌, arith, Bool-cases, if◌then◌else◌}
use pdes.Container.Causality.{IsValid, InOrder, get_next_event_least, get_next_event-InOrder}
use pdes.Container.Rollback.{
  rollback_split, rollback-InOrder, insert_not_past-InOrder, insert-rollback-InOrder,
}
use pdes.Container.Cancel.{insert-IsValid, anti-IsValid, anti-InOrder}
use pdes.Container.Fossil.{fossil_collect-Collects, fossil_collect-InOrder}
use pdes.Container.{
  Container, empty, insert, rollback, handle_anti_message, get_next_event, fossil_collect,
  is_in_the_past,
}
use pdes.Event.{Event}

pub data Action : Type 0 where
  arrives : Event → Action
  cancels : Event → ℕ → Action
  processes : Action
  collects : ℕ → Action

unfoldable pub step : Container → Action → Container
step c (arrives e) = if is_in_the_past c e then insert (rollback c e.receive_time) e else insert c e
step c (cancels n time) = (handle_anti_message (rollback c time) n).0
step c processes = (get_next_event c).0
step c (collects time) = (fossil_collect c time).0

unfoldable pub run : Container → List Action → Container
run c [] = c
run c (a ∷ actions) = run (step c a) actions

pub record IsSound (c : Container) : Type 0 where
  pub flag : IsValid c
  pub causal : InOrder c

rollback-IsSound : (c : Container) (time : ℕ) → IsSound c → IsSound (rollback c time)
rollback-IsSound c time s =
    let (_, _, _, _, _, _, _, v) = rollback_split c time s.causal.done in
    record { flag = v; causal = rollback-InOrder c time s.causal }

next-IsSound : (c : Container) → IsSound c → IsSound (get_next_event c).0
next-IsSound c s = elim (get_next_event_least c s.flag) [
  | inl (_, e) ↦ rw e s
  | inr (e, _, t) ↦ record { flag = t.valid; causal = get_next_event-InOrder c s.flag s.causal }
]

step-IsSound : (c : Container) (a : Action) → IsSound c → IsSound (step c a)
unfolding step
step-IsSound c (arrives e) s = elim (Bool-cases (is_in_the_past c e)) [
  | inl t ↦ rw t (record {
    flag = insert-IsValid (rollback c e.receive_time) e (rollback-IsSound c e.receive_time s).flag;
    causal = insert-rollback-InOrder c e e.receive_time s.causal (omega arith);
  })
  | inr t ↦
      rw t (record {
        flag = insert-IsValid c e s.flag;
        causal = insert_not_past-InOrder c e s.causal t;
      })
]
step-IsSound c (cancels n time) s =
    let r = rollback-IsSound c time s in
    record {
      flag = anti-IsValid (rollback c time) n r.flag;
      causal = anti-InOrder (rollback c time) n r.causal;
    }
step-IsSound c processes s = next-IsSound c s
step-IsSound c (collects time) s = record {
  flag = λ _. (fossil_collect-Collects c time s.flag s.causal.done).in_order;
  causal = fossil_collect-InOrder c time s.flag s.causal;
}

-- After every history the events that count as processed stand in the order of their receive
-- times, numbers and senders, no unprocessed event is in the past of a processed one, and the flag
-- that lets a sort be skipped is truthful.
pub run-IsSound : (c : Container) (actions : List Action) → IsSound c → IsSound (run c actions)
unfolding run
run-IsSound c [] s = s
run-IsSound c (a ∷ actions) s = run-IsSound (step c a) actions (step-IsSound c a s)

pub empty-IsSound : IsSound empty
empty-IsSound = record { flag = λ _. tt; causal = record { done = tt; ahead = tt } }
