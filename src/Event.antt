-- ===== src/Event.antt =====
-- Event.h, Event.cpp, EventId.h, ObjectID.h, NegativeEvent.cpp and EventFunctors.h: events, their
-- identity and the orders by which the event sets keep them. A virtual time is a number; an event
-- behind a pointer is its value, since the kernel never writes to an event that it holds.
pub mod Order
mod Tests
use pdes.Base.{ℕ, Bool, true, false, not, ◌&&◌, ◌||◌, ltb, leb, ◌==◌, if◌then◌else◌}

-- The number of an object on its simulation manager, and the number of that manager.
pub record ObjectId : Type 0 where
  pub object : ℕ
  pub manager : ℕ

unfoldable pub object_less : ObjectId → ObjectId → Bool
object_less a b =
    if ltb a.object b.object
    then true
    else if a.object == b.object && ltb a.manager b.manager
    then true
    else false

unfoldable pub object_eq : ObjectId → ObjectId → Bool
object_eq a b = if a.object == b.object && a.manager == b.manager then true else false

-- A negative event has the fields of the event that it cancels.
pub record Event : Type 0 where
  pub sender : ObjectId
  pub receiver : ObjectId
  pub send_time : ℕ
  pub receive_time : ℕ
  pub event_id : ℕ

-- `operator==`: the identity of an event is its sender and the sender's number for it.
unfoldable pub event_eq : Event → Event → Bool
unfolding object_eq
event_eq a b = object_eq a.sender b.sender && a.event_id == b.event_id

-- `NegativeEvent::eventCompare`, and the test of the event sets for the event to be cancelled.
unfoldable pub event_compare : Event → Event → Bool
unfolding object_eq
event_compare n a =
    if not (object_eq a.sender n.sender) || not (a.event_id == n.event_id) then false else true

-- `Event::compareEvents`, as it is written: the receiver of the first is compared with itself.
unfoldable pub compare_events : Event → Event → Bool
unfolding object_eq
compare_events a b =
    if not (object_eq a.sender b.sender)
      || (not (a.send_time == b.send_time)
          || (not (object_eq a.receiver a.receiver) || not (a.receive_time == b.receive_time)))
    then false
    else true

-- `receiveTimeLessThanEventIdLessThan`.
unfoldable pub receive_less : Event → Event → Bool
unfolding object_less
receive_less a b =
    if not (a.receive_time == b.receive_time)
    then ltb a.receive_time b.receive_time
    else if not (a.event_id == b.event_id)
    then ltb a.event_id b.event_id
    else object_less a.sender b.sender

-- `sendTimeLessThanEventIdLessThan`.
unfoldable pub send_less : Event → Event → Bool
unfolding object_less
send_less a b =
    if not (a.send_time == b.send_time)
    then ltb a.send_time b.send_time
    else if not (a.event_id == b.event_id)
    then ltb a.event_id b.event_id
    else object_less a.sender b.sender
