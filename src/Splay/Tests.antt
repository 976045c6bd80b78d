-- ===== src/Splay/Tests.antt =====
-- Runs of the tree, and the theorems at a concrete tree.
use pdes.Base.{ℕ, ◌≡◌, ◌≢◌, ◌⊎◌, ◌≤◌, refl, List, [], ◌∷◌, Option, none, some, length, arith, ◌>>=◌}
use pdes.Event.{Event}
use pdes.Splay.Erase.Clear.{clear_lem, cleaned}
use pdes.Splay.Erase.Gone.{IsErasure, erase_lem}
use pdes.Splay.Erase.Reach.{IsAtRoot, splay-IsAtRoot}
use pdes.Splay.Erase.{search, join, erase, clear, clear_loop, erase_current, fault}
use pdes.Splay.InOrder.{in_order}
use pdes.Splay.Queue.{
  Command, put, take_out, look, tidy, perform, run, run_promise, promise, put_in_order, fits,
  run-run_promise,
}
use pdes.Splay.Valid.{IsValid, IsCurrent}
use pdes.Stack as Stack
use pdes.Splay.{
  Element, leaf, node, Step, left_of, right_of, SplayTree, empty, insert, get_event, peek_event,
  clean_up, splay, splay_loop, rebuild, descend, follow, leftmost, compare_event, not_after,
  object_greater,
}

program : Unit {0}
unfolding Stack.insert Stack.delete_from Stack.delete_all insert get_event peek_event clean_up splay
    splay_loop rebuild descend follow leftmost compare_event not_after object_greater search join
    erase clear clear_loop erase_current perform run run_promise promise put_in_order in_order
program = tt

abbrev event : ℕ → ℕ → ℕ → Event
event object time id = record {
  sender = record { object = 9; manager = 0 };
  receiver = record { object = object; manager = 0 };
  send_time = 0;
  receive_time = time;
  event_id = id;
}

abbrev calls : List Command
calls =
    put (event 0 8 1)
    ∷ put (event 1 5 2)
    ∷ put (event 0 6 3)
    ∷ put (event 0 5 4)
    ∷ put (event 0 5 5)
    ∷ take_out
    ∷ look
    ∷ tidy
    ∷ take_out
    ∷ put (event 2 7 6)
    ∷ take_out
    ∷ take_out
    ∷ take_out
    ∷ take_out
    ∷ take_out
    ∷ []

answered :
    run calls empty
    ≡ some (
        none
        ∷ none
        ∷ none
        ∷ none
        ∷ none
        ∷ some (event 0 5 5)
        ∷ some (event 0 5 4)
        ∷ none
        ∷ some (event 0 5 4)
        ∷ none
        ∷ some (event 1 5 2)
        ∷ some (event 0 6 3)
        ∷ some (event 2 7 6)
        ∷ some (event 0 8 1)
        ∷ none
        ∷ [])
unfolding program
answered = refl

after_erasure : Option (Option Event)
after_erasure = do
  a ← insert empty (event 0 8 1)
  b ← insert a (event 1 5 2)
  c ← insert b (event 0 6 3)
  d ← erase c (event 1 5 7)
  (e, x) ← peek_event d
  some x

-- Another event for the same receiver at the same time goes.
erased : after_erasure ≡ some (some (event 0 6 3))
unfolding program after_erasure
erased = refl

abbrev single : SplayTree
single = record {
  root = node leaf (record { address = 0; event = event 0 8 1 }) leaf;
  current = some 0;
  processed_elements = Stack.empty;
  number_of_elements = 1;
  next_address = 1;
}

single-IsValid : IsValid single
unfolding in_order IsCurrent leftmost
single-IsValid = record { sorted = (tt, tt); count = refl; pointer = refl }

run-run_promise_example : run calls empty ≡ some (run_promise calls [])
unfolding fits
run-run_promise_example = run-run_promise calls refl

erase_lem_example :
    (u : SplayTree) × (erase single (event 0 8 9) ≡ some u)
    × IsValid u
    × IsErasure single (event 0 8 9) u
erase_lem_example = erase_lem single (event 0 8 9) single-IsValid

clear_lem_example :
    ((single.root ≡ leaf) × (clear single ≡ cleaned (clean_up single)))
    ⊎ ((single.root ≢ leaf) × (clear single ≡ fault))
clear_lem_example = clear_lem single single-IsValid

abbrev element : ℕ → Element
element i = record { address = i; event = event 0 i i }

abbrev chain : List Step
chain = left_of (element 2) leaf ∷ left_of (element 3) leaf ∷ right_of leaf (element 0) ∷ []

short : length (in_order (rebuild chain (node leaf (element 1) leaf))) ≤ 4
unfolding program
short = omega arith

splay-IsAtRoot_example : IsAtRoot (element 1) (splay 4 chain (node leaf (element 1) leaf))
splay-IsAtRoot_example = splay-IsAtRoot 4 chain leaf (element 1) leaf short
