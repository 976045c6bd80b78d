-- ===== src/Fossil/Tests.antt =====
-- A collection of two objects, and the theorem at it.
use pdes.Base.{ℕ, zero, suc, ◌≡◌, refl, false, [], ◌∷◌, All, arith, front, keep, rest}
use pdes.Container as Container
use pdes.Event.{Event}
use pdes.Fossil.Safe.{IsSafe, fossil_collect-IsSafe}
use pdes.Fossil.States.{IsBased}
use pdes.Fossil.{Kernel, collect_states, least, collect_events, fossil_collect}
use pdes.Output as Output
use pdes.State as State
use pdes.State.{Entry, earlier}

abbrev event : ℕ → ℕ → Event
event object time = record {
  sender = record { object = 1; manager = 0 };
  receiver = record { object = object; manager = 0 };
  send_time = 0;
  receive_time = time;
  event_id = time;
}

abbrev saved : ℕ → Entry ℕ
saved time = record { main_time = time; element = time }

-- Object 0 has states at 0, 4 and 9, object 1 at 0, 3 and 6; object 0 has processed events at 2 and 5.
abbrev kernel : Kernel ℕ
kernel = record {
  states = record (State.init ℕ 1) {
    state_queue = λ i. elim i [
      | zero ↦ saved 0 ∷ saved 4 ∷ saved 9 ∷ []
      | suc j ↦ saved 0 ∷ saved 3 ∷ saved 6 ∷ []
    ];
  };
  outputs = λ i. Output.no_output;
  containers = λ i. record Container.empty {
    processed = elim i [ zero ↦ event 0 2 ∷ event 0 5 ∷ [] | suc j ↦ [] ];
  };
}

-- The event before the lowest time of a state that is left, 3, is reclaimed.
reclaimed : (fossil_collect 100 (0 ∷ 1 ∷ []) kernel 5).1 ≡ event 0 2 ∷ []
unfolding fossil_collect collect_states collect_events least State.fossil_collect State.collect
    State.lower_bound Container.fossil_collect Container.collect Container.ensure_sorted front keep
    rest
reclaimed = refl

based : All (λ j. IsBased 5 (kernel.states.state_queue j)) (0 ∷ 1 ∷ [])
unfolding earlier
based = (
  record {
    first = saved 0;
    others = saved 4 ∷ saved 9 ∷ [];
    whole = refl;
    early = omega arith;
    in_order = ((refl, (refl, tt)), ((refl, tt), (tt, tt)));
  },
  (
    record {
      first = saved 0;
      others = saved 3 ∷ saved 6 ∷ [];
      whole = refl;
      early = omega arith;
      in_order = ((refl, (refl, tt)), ((refl, tt), (tt, tt)));
    },
    tt,
  ),
)

abbrev output : Output.Kernel
output = record { id = 0; opt_fossil = false; last_collect = λ i. 0; approximate = λ t. t }

fossil_collect-IsSafe_example :
    All
      (λ j.
        IsSafe output 5 j kernel
          (fossil_collect 100 (0 ∷ 1 ∷ []) kernel 5).0
          (fossil_collect 100 (0 ∷ 1 ∷ []) kernel 5).1)
      (0 ∷ 1 ∷ [])
fossil_collect-IsSafe_example =
    fossil_collect-IsSafe output 100 5 (0 ∷ 1 ∷ []) kernel refl (λ h. absurd (omega (arith, h)))
      based
