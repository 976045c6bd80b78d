-- ===== src/Sequential/Tests.antt =====
-- Runs of the sequential simulation over the splay tree, and the theorems at a concrete run.
use pdes.Base.Permutations.{length-perm}
use pdes.Base.{
  wrap32, ℕ, ◌+◌, ◌≡◌, ◌≤◌, refl, Bool, false, List, [], ◌∷◌, Option, none, some, length, arith,
}
use pdes.Event.{Event, object_eq}
use pdes.Sequential.Calls.{NotBefore, count_at, WellBehaved}
use pdes.Sequential.Returns.{IsComplete, simulate-IsComplete}
use pdes.Sequential.{
  Manager, Outcome, object_id, returned, fault, out_of_fuel, manager_get_event, handle_event,
  receive_event, send_all, more_events, handled, process_event, execute_process, peek_next,
  get_next_event_time, simulation_complete, clean_up, turn, simulate_loop, simulate,
}
use pdes.Splay.Implements.{splay_set}
use pdes.Splay.InOrder.{in_order}
use pdes.Splay.Room.{HasRoom}
use pdes.Splay.Valid.{IsCurrent}
use pdes.Splay.{
  leaf, node, insert, get_event as tree_get_event, peek_event, clean_up as tree_clean_up, splay,
  splay_loop, rebuild, descend, follow, leftmost, compare_event, not_after, object_greater,
}
use pdes.Stack as Stack

program : Unit {0}
unfolding insert tree_get_event peek_event tree_clean_up splay splay_loop rebuild descend follow
    leftmost compare_event not_after object_greater object_eq in_order IsCurrent manager_get_event
    handle_event receive_event send_all more_events handled process_event execute_process peek_next
    get_next_event_time simulation_complete clean_up turn simulate_loop simulate wrap32 Stack.insert
    Stack.delete_all Stack.delete_from
program = tt

abbrev event : ℕ → ℕ → ℕ → Event
event object time id = record {
  sender = record { object = 9; manager = 0 };
  receiver = object_id object;
  send_time = 0;
  receive_time = time;
  event_id = id;
}

-- Whatever takes an event sends one to object 1 two units later. The application counts the events.
abbrev pass_on : ℕ → ℕ → ℕ → Event → ℕ × List (ℕ × Event)
pass_on turns object time e = (turns + 1, (1, event 1 (time + 2) turns) ∷ [])

abbrev start : Manager splay_set
start = record {
  simulation_time = 0;
  event_set = record {
    root = node leaf (record { address = 0; event = event 0 3 7 }) leaf;
    current = some 0;
    processed_elements = Stack.empty;
    number_of_elements = 1;
    next_address = 1;
  };
  number_of_processed_events = 0;
  number_of_objects = 2;
  object_times = λ i. 0;
}

summary : Outcome splay_set ℕ → Option (ℕ × ℕ × ℕ)
summary (returned m a) = some (m.simulation_time, m.number_of_processed_events, a)
summary fault = none
summary out_of_fuel = none

-- Turns at 3, 5, 7 and 9; the event at 11 is left.
ran : summary (simulate splay_set pass_on 3 9 10 start 0) ≡ some (9, 4, 4)
unfolding program summary
ran = refl

-- An event for an object that there is not is a fault.
lost : summary (simulate splay_set pass_on 3 9 10 (record start { number_of_objects = 1 }) 0) ≡ none
unfolding program summary
lost = refl

next_time : Option (Manager splay_set × ℕ) → Option ℕ
next_time none = none
next_time (some (m, t)) = some t

next : next_time (get_next_event_time splay_set 99 start) ≡ some 3
unfolding program next_time
next = refl

complete : Option (Manager splay_set × Bool) → Option Bool
complete none = none
complete (some (m, b)) = some b

not_complete : complete (simulation_complete splay_set start) ≡ some false
unfolding program complete
not_complete = refl

start-HasRoom : HasRoom 1000 start.event_set
unfolding program
start-HasRoom = record {
  valid = record { sorted = (tt, tt); count = refl; pointer = refl };
  whole = Stack.empty-IsWhole;
}

start-NotBefore : NotBefore 0 (splay_set.view start.event_set)
unfolding program
start-NotBefore = (omega arith, tt)

count_at-length : (t : ℕ) (xs : List Event) → count_at t xs ≤ length xs
unfolding count_at
count_at-length t [] = omega arith
count_at-length t (x ∷ xs) = let h = count_at-length t xs in ground (arith, h)

-- There is one pending event at most.
abbrev OnePending : ℕ → List Event → Type 0
OnePending turns xs = length xs ≤ 1

pass_on-WellBehaved : WellBehaved pass_on 2 1000 OnePending
pass_on-WellBehaved = record {
  order_free = λ a perm h. (omega (arith, h, length-perm perm));
  bounded = λ a xs t h. (omega (arith, h, count_at-length t xs));
  kept = λ a object t e xs there to at_time h. (h, ((omega arith, refl, omega arith), tt));
}

simulate-IsComplete_example :
    (fuel : ℕ) × (n : Manager splay_set) × (b : ℕ) × (simulate splay_set pass_on 1001 fuel 10 start
        0
      ≡ returned n b)
    × IsComplete splay_set pass_on 2 OnePending pass_on-WellBehaved 1001 (omega arith) 10 0 n b
unfolding in_order
simulate-IsComplete_example =
    simulate-IsComplete splay_set pass_on 2 OnePending pass_on-WellBehaved 1001 (omega arith) 10
      start 0 start-HasRoom (omega arith) start-NotBefore refl (refl, tt) (omega arith)
