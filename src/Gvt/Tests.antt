-- ===== src/Gvt/Tests.antt =====
-- Tests of the estimation of the global virtual time, and the theorems at concrete systems.
use pdes.Base.Int.{pos, negsuc, sum, ◌+ℤ◌}
use pdes.Base.{◌≡◌, refl, true, [], ◌∷◌, none, some, arith, update, ◌==◌, if◌then◌else◌}
use pdes.Gvt.Round.{tokens}
use pdes.Gvt.Safety.{IsSound, Happens-IsSound, no_white_event, build-IsSound}
use pdes.Gvt.System.{System, build, send_event, sends, white_events, carried}
use pdes.Gvt.{
  white, red, token, update_to, concludes, handle_token, send_gvt_token, destination_of, min_func,
  conclude, send_gvt_update, get_gvt_info, receive_kernel_message, calculate_gvt, init,
}

-- The initiator of two starts a round: the token carries its clock and its count of one.
started :
    calculate_gvt 2 100 5 (record (init 0 0) { whites = pos 1 })
    ≡ some (record {
      manager = record (init 0 0) {
        color = red;
        whites = pos 0;
        t_min = some 100;
        pending = true;
        iteration = 1;
      };
      sent = token 1 5 100 (pos 1) ∷ [];
      collected = none;
    })
unfolding calculate_gvt send_gvt_token destination_of
started = refl

-- The second manager has received the white event: the count that goes on is zero.
passed :
    receive_kernel_message 2 100 4 (record (init 0 1) { whites = negsuc 0 }) (token 1 5 100 (pos 1))
    ≡ some (record {
      manager = record (init 0 1) { color = red; t_min = some 100; iteration = 1 };
      sent = token 0 4 100 (pos 0) ∷ [];
      collected = none;
    })
unfolding receive_kernel_message handle_token send_gvt_token destination_of min_func ◌+ℤ◌
passed = refl

-- Two red managers on the second round; the first has received a white event that the token counts.
abbrev counted : System
counted = record {
  managers = λ i. record {
    id = i;
    color = red;
    iteration = 2;
    t_min = some 100;
    whites = if i == 0 then negsuc 0 else pos 0;
    pending = i == 0;
    gvt = 3;
    period_counter = 0;
  };
  events = red ∷ [];
  network = token 0 5 7 (pos 1) ∷ [];
}

counted-IsSound : IsSound 2 counted
unfolding tokens carried sum white_events ◌+ℤ◌
counted-IsSound = record {
  numbered = λ i. refl;
  quiet = λ i q. ground arith;
  addressed = omega arith;
  on_the_way = refl;
  balanced = refl;
}

concludes_now : concludes (counted.managers 0) (pos 1) ≡ true
unfolding concludes ◌+ℤ◌
concludes_now = refl

no_white_event_example : white_events counted.events ≡ 0
no_white_event_example =
    no_white_event 1 counted 0 5 7 (pos 1) counted-IsSound refl concludes_now (λ i le lt. refl)

concluded :
    receive_kernel_message 2 100 6 (counted.managers 0) (token 0 5 7 (pos 1))
    ≡ some (record {
      manager = record (init 5 0) { t_min = some 100 };
      sent = update_to 1 5 ∷ [];
      collected = some 5;
    })
unfolding receive_kernel_message handle_token concludes conclude min_func send_gvt_update ◌+ℤ◌
concluded = refl

abbrev sent : System
sent = record (build 0) {
  managers = update (init 0) 1 (record (init 0 1) { whites = pos 1 });
  events = white ∷ [];
}

sends_white : send_event (build 0) 1 4 ≡ some sent
unfolding send_event build get_gvt_info ◌+ℤ◌
sends_white = refl

Happens-IsSound_example : IsSound 2 sent
Happens-IsSound_example =
    Happens-IsSound 2 100 (build 0) sent (omega arith) (build-IsSound 2 0) (sends 1 4 (omega arith))
      sends_white
