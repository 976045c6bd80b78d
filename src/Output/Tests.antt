-- ===== src/Output/Tests.antt =====
-- Tests of the output queues, and the theorems at concrete queues.
use pdes.Base.Sorting.{Sorted, sort, sort-perm, sort-Sorted}
use pdes.Base.{
  ℕ, Bool, ◌≤◌, ◌<◌, ◌≡◌, refl, true, false, [], ◌∷◌, ◌++◌, Perm, some, arith, ◌==◌, All, front,
  rest, extract,
}
use pdes.Event.{Event}
use pdes.Output.Cancel.{Resolves, lazy_cancel-Resolves}
use pdes.Output.Fossil.{get_events-fossil_collect}
use pdes.Output.Held.{receive_time_order, receive_time_less, sent, rollback_holds, min_time_least}
use pdes.Output.Lazy.{
  LazyObject, new_object, give_up, check_lazy_cancel_event, lazy_cancel, get_lazy_q_min_time,
  rollback,
}
use pdes.Output.Order.{Sender, act, InSendOrder, act-InSendOrder, sends}
use pdes.Output.Rollback.{send_order, send_time_less, TakesBack, get_events_and_remove-TakesBack}
use pdes.Output.{OutputEvents, Kernel, search_local, get_events_and_remove, fossil_collect}

abbrev kernel : Kernel
kernel = record { id = 0; opt_fossil = false; last_collect = λ i. 0; approximate = λ t. t }

-- The event `id` of object 1, for object 2 of the manager.
abbrev event : ℕ → ℕ → ℕ → ℕ → Event
event manager id send receive = record {
  sender = record { object = 1; manager = 0 };
  receiver = record { object = 2; manager = manager };
  send_time = send;
  receive_time = receive;
  event_id = id;
}

abbrev output : OutputEvents
output = record {
  sent_local = event 0 1 2 9 ∷ event 0 2 4 6 ∷ event 0 4 7 8 ∷ [];
  sent_remote = event 1 3 4 5 ∷ event 1 5 8 9 ∷ [];
  removed_remote = [];
}

takes_newest_first :
    (get_events_and_remove kernel output 4).1
    ≡ event 0 4 7 8 ∷ event 0 2 4 6 ∷ event 1 5 8 9 ∷ event 1 3 4 5 ∷ []
unfolding get_events_and_remove search_local front
takes_newest_first = refl

-- With optimistic fossil collection a receiver that has been collected too far starts a recovery.
recovers :
    (get_events_and_remove (record kernel { opt_fossil = true; last_collect = λ i. 7 }) output 2).2
    ≡ some (2, 4)
unfolding get_events_and_remove search_local front
recovers = refl

local_order : Sorted send_order output.sent_local
unfolding send_time_less
local_order = ((refl, (refl, tt)), ((refl, tt), (tt, tt)))

remote_order : Sorted send_order output.sent_remote
unfolding send_time_less
remote_order = ((refl, tt), (tt, tt))

get_events_and_remove-TakesBack_example :
    TakesBack output
      (get_events_and_remove kernel output 4).0
      4
      (get_events_and_remove kernel output 4).1
get_events_and_remove-TakesBack_example =
    get_events_and_remove-TakesBack kernel output 4 refl local_order remote_order

get_events-fossil_collect_example :
    (get_events_and_remove kernel (fossil_collect output 3) 4).1
    ≡ (get_events_and_remove kernel output 4).1
get_events-fossil_collect_example = get_events-fossil_collect kernel output 3 4 refl (omega arith)

abbrev sender : Sender
sender = record { clock = 8; output = output }

sender-InSendOrder : InSendOrder sender
sender-InSendOrder = record {
  local_order = local_order;
  remote_order = remote_order;
  local_past = omega arith;
  remote_past = omega arith;
}

act-InSendOrder_example : InSendOrder (act kernel sender (sends (event 0 6 8 11)))
act-InSendOrder_example =
    act-InSendOrder kernel sender (sends (event 0 6 8 11)) refl sender-InSendOrder refl

abbrev holding : LazyObject
holding = record new_object {
  lazy_queue = event 1 3 4 5 ∷ event 0 2 4 6 ∷ event 0 4 7 8 ∷ [];
  output = record output { sent_local = event 0 1 2 9 ∷ []; sent_remote = [] };
}

abbrev same_number : Event → Event → Bool
same_number a b = a.event_id == b.event_id

-- Event 4 is sent again: those of earlier send times are cancelled.
hits_four : (lazy_cancel same_number kernel holding (event 0 4 7 8)).1 ≡ true
unfolding lazy_cancel check_lazy_cancel_event give_up front rest extract
hits_four = refl

lazy_cancel-Resolves_example :
    Resolves same_number kernel holding
      (event 0 4 7 8)
      (lazy_cancel same_number kernel holding (event 0 4 7 8)).0
      (lazy_cancel same_number kernel holding (event 0 4 7 8)).1
      (lazy_cancel same_number kernel holding (event 0 4 7 8)).2
lazy_cancel-Resolves_example = lazy_cancel-Resolves same_number kernel holding (event 0 4 7 8)

rolled_back : LazyObject
rolled_back = (rollback (sort receive_time_order) kernel (record holding { output = output }) 4).0

rollback_holds_example :
    Perm (rolled_back.lazy_queue ++ sent rolled_back.output) (holding.lazy_queue ++ sent output)
    × Sorted receive_time_order rolled_back.lazy_queue
    × All (λ e. e.send_time < 4) rolled_back.output.sent_local
    × All (λ e. e.send_time < 4) rolled_back.output.sent_remote
unfolding rolled_back
rollback_holds_example =
    rollback_holds (sort receive_time_order) kernel (record holding { output = output }) 4
      (sort-perm receive_time_order) (sort-Sorted receive_time_order) refl local_order remote_order

held_order : Sorted receive_time_order holding.lazy_queue
unfolding receive_time_less
held_order = ((refl, (refl, tt)), ((refl, tt), (tt, tt)))

min_time_least_example :
    All (λ e. get_lazy_q_min_time 100 (λ i. holding) 3 ≤ e.receive_time) holding.lazy_queue
min_time_least_example = min_time_least 100 (λ i. holding) 3 1 (omega arith) (λ j. held_order)
