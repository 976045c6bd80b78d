-- ===== src/Event/Order.antt =====
-- The comparisons of EventFunctors.h are strict weak orders, and what the equalities compare.
use pdes.Base.{◌≤◌, ◌≡◌, ◌↔◌, true, false, arith}
use pdes.Base.Sorting.{StrictOrder}
use pdes.Event.{Event, event_eq, compare_events, receive_less}

pub receive_less-asymm : (a b : Event) → receive_less a b ≡ true → receive_less b a ≡ false
unfolding receive_less
receive_less-asymm a b h = ground arith

pub receive_less-le_trans :
    (a b c : Event) → receive_less b a ≡ false → receive_less c b ≡ false → receive_less c a ≡ false
unfolding receive_less
receive_less-le_trans a b c h k = ground arith

-- The order of unprocessed events.
abbrev pub receive_order : StrictOrder Event
receive_order = record {
  less = receive_less;
  less_asymm = receive_less-asymm;
  le_trans = receive_less-le_trans;
}

-- Neither of two events is before the other exactly when they have one receive time and are one
-- event in the sense of `operator==`.
pub receive_less-tie :
    (a b : Event)
    → ((receive_less a b ≡ false) × (receive_less b a ≡ false))
      ↔ ((a.receive_time ≡ b.receive_time) × (event_eq a b ≡ true))
unfolding receive_less event_eq
receive_less-tie a b = (λ h. ground arith, λ h. ground arith)

pub receive_less-le : (a b : Event) → receive_less b a ≡ false → a.receive_time ≤ b.receive_time
unfolding receive_less
receive_less-le a b h = ground arith

pub event_eq_refl : (e : Event) → event_eq e e ≡ true
unfolding event_eq
event_eq_refl e = ground arith

pub event_eq-eq :
    (a b : Event) → event_eq a b ≡ true → (a.sender ≡ b.sender) × (a.event_id ≡ b.event_id)
unfolding event_eq
event_eq-eq a b h = ground arith

-- The events that differ in their receiver alone are equal for `compareEvents`.
pub compare_events_receiver :
    (a b : Event)
    → (compare_events a b ≡ true)
      ↔ ((a.sender ≡ b.sender) × (a.send_time ≡ b.send_time) × (a.receive_time ≡ b.receive_time))
unfolding compare_events
compare_events_receiver a b = (λ h. ground arith, λ h. ground arith)
