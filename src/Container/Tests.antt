-- ===== src/Container/Tests.antt =====
-- Runs of a container, and the theorems at concrete containers.
use pdes.Base.Sorting.{sort, insert as insert_sorted}
use pdes.Base.{
  ℕ, ◌≡◌, ◌⊎◌, refl, true, false, [], ◌∷◌, ◌++◌, Perm, none, some, extract, front, rest, keep,
  last?,
}
use pdes.Container.Cancel.{annihilation, cancellation_conserves}
use pdes.Container.Causality.{TakesLeast, get_next_event_least}
use pdes.Container.Fossil.{Collects, fossil_collect-Collects}
use pdes.Container.History.{arrives, cancels, processes, collects, run, step, IsSound, run-IsSound}
use pdes.Container.{
  Container, unsorted, empty, insert, handle_anti_message, rollback, get_next_event, next_event,
  ensure_sorted, sort_by_receive_times, fossil_collect, collect, is_in_the_past, same_event,
  fossil_collect_event, fossil_collect_int, ofc_purge,
}
use pdes.Event.{Event, receive_less}

program : Unit {0}
unfolding insert handle_anti_message rollback get_next_event next_event ensure_sorted
    sort_by_receive_times fossil_collect collect is_in_the_past same_event extract front rest keep
    last? sort insert_sorted receive_less run step fossil_collect_event fossil_collect_int
program = tt

abbrev event : ℕ → ℕ → Event
event time id = record {
  sender = record { object = 1; manager = 0 };
  receiver = record { object = 0; manager = 0 };
  send_time = 0;
  receive_time = time;
  event_id = id;
}

-- Two events processed, one waiting.
abbrev busy : Container
busy = record empty { unprocessed = event 9 3 ∷ []; processed = event 2 1 ∷ event 5 2 ∷ [] }

out_of_order :
    get_next_event (insert (insert empty (event 9 1)) (event 4 2))
    ≡ (record empty { unprocessed = event 9 1 ∷ []; processed = event 4 2 ∷ [] }, some (event 4 2))
unfolding program
out_of_order = refl

straggler : (run busy (arrives (event 4 7) ∷ processes ∷ [])).processed ≡ event 2 1 ∷ event 4 7 ∷ []
unfolding program
straggler = refl

collected : fossil_collect busy 5 ≡ (record busy { processed = event 5 2 ∷ [] }, event 2 1 ∷ [])
unfolding program
collected = refl

collected_one : fossil_collect_event busy (event 5 2) ≡ record busy { processed = event 2 1 ∷ [] }
unfolding program
collected_one = refl

collected_approximately : (fossil_collect_int (λ t. t) busy 6).1 ≡ event 2 1 ∷ event 5 2 ∷ []
unfolding program
collected_approximately = refl

purged : (ofc_purge busy).0 ≡ empty
unfolding ofc_purge
purged = refl

busy-IsSound : IsSound busy
unfolding receive_less
busy-IsSound = record {
  flag = λ _. (tt, tt);
  causal = record { done = ((refl, tt), (tt, tt)); ahead = ((refl, tt), ((refl, tt), tt)) };
}

get_next_event_least_example :
    ((busy.unprocessed ≡ []) × (get_next_event busy ≡ (busy, none)))
    ⊎ ((e : Event) × ((get_next_event busy).1 ≡ some e) × TakesLeast busy (get_next_event busy).0 e)
get_next_event_least_example = get_next_event_least busy busy-IsSound.flag

annihilation_example :
    (handle_anti_message (insert busy (event 6 8)) (event 0 8)
      ≡ (record busy { removed = event 6 8 ∷ []; sort_status = unsorted }, true))
    × (insert (handle_anti_message busy (event 0 8)).0 (event 6 8)
        ≡ record busy { removed = event 6 8 ∷ [] })
    × ((handle_anti_message busy (event 0 8)).1 ≡ false)
unfolding program
annihilation_example = annihilation busy (event 6 8) (event 0 8) refl refl refl

cancellation_conserves_example :
    Perm
      ((insert busy (event 6 8)).unprocessed ++ (insert busy (event 6 8)).removed)
      (event 6 8 ∷ (busy.unprocessed ++ busy.removed))
    × Perm
        ((handle_anti_message busy (event 0 3)).0.unprocessed
          ++ (handle_anti_message busy (event 0 3)).0.removed)
        (busy.unprocessed ++ busy.removed)
cancellation_conserves_example = cancellation_conserves busy (event 6 8) (event 0 3)

fossil_collect-Collects_example :
    Collects busy (fossil_collect busy 5).0 5 (fossil_collect busy 5).1
fossil_collect-Collects_example =
    fossil_collect-Collects busy 5 busy-IsSound.flag busy-IsSound.causal.done

run-IsSound_example :
    IsSound (run busy (arrives (event 4 7) ∷ cancels (event 0 2) 3 ∷ processes ∷ collects 3 ∷ []))
run-IsSound_example =
    run-IsSound busy (arrives (event 4 7) ∷ cancels (event 0 2) 3 ∷ processes ∷ collects 3 ∷ [])
      busy-IsSound
