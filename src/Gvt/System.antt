-- ===== src/Gvt/System.antt =====
-- The managers with the events and the kernel messages in flight, and what can happen to them.
-- Events and kernel messages arrive in any order.
use pdes.Base.Int.{ℤ, pos, ◌+ℤ◌, sum}
use pdes.Base.{
  ℕ, suc, ◌<◌, ◌≡◌, List, [], ◌∷◌, ◌++◌, Option, none, some, update, get_elem?, erase_at,
}
use pdes.Gvt.{
  GvtTokenColor, white, red, GvtManager, GvtMessage, token, update_to, Reaction, init, get_gvt_info,
  update_event_record, calculate_gvt, receive_kernel_message,
}

-- The managers by number, the colours of the events in flight, and the kernel messages in flight.
pub record System : Type 0 where
  pub managers : ℕ → GvtManager
  pub events : List GvtTokenColor
  pub network : List GvtMessage

unfoldable pub build : ℕ → System
build zero_time = record { managers = init zero_time; events = []; network = [] }

abbrev pub place_sender : System → ℕ → GvtTokenColor × Option GvtManager → Option System
place_sender s i (c, none) = none
place_sender s i (c, some m) =
    some (record s { managers = update s.managers i m; events = s.events ++ c ∷ [] })

abbrev pub place_reaction : System → ℕ → List GvtMessage → Option Reaction → Option System
place_reaction s i others none = none
place_reaction s i others (some r) =
    some (record s { managers = update s.managers i r.manager; network = others ++ r.sent })

-- Manager `i` sends an event with the given send time to another manager.
unfoldable pub send_event : System → ℕ → ℕ → Option System
send_event s i time = place_sender s i (get_gvt_info (s.managers i) time)

-- Event `k` in flight, of colour `c`, reaches manager `i`.
unfoldable pub receive_event : System → ℕ → ℕ → GvtTokenColor → Option System
receive_event s i k c = some (record s {
  managers = update s.managers i (update_event_record (s.managers i) c);
  events = erase_at k s.events;
})

-- Manager 0 is at the end of its period.
unfoldable pub start : ℕ → ℕ → System → ℕ → Option System
start count infinity s last =
    place_reaction s 0 s.network (calculate_gvt count infinity last (s.managers 0))

abbrev pub receiver_of : GvtMessage → ℕ
receiver_of (token d low minimum in_transit) = d
receiver_of (update_to d new) = d

-- Kernel message `k` in flight, which is `msg`, reaches its receiver.
unfoldable pub deliver : ℕ → ℕ → System → ℕ → ℕ → GvtMessage → Option System
deliver count infinity s last k msg =
    place_reaction s (receiver_of msg) (erase_at k s.network)
      (receive_kernel_message count infinity last (s.managers (receiver_of msg)) msg)

-- What can happen next among `count` managers.
pub data Happens (count infinity : ℕ) (s : System) : Option System → Type 0 where
  sends : (i time : ℕ) → i < count → Happens count infinity s (send_event s i time)
  receives :
      (i k : ℕ) (c : GvtTokenColor)
      → i < count
      → get_elem? s.events k ≡ some c
      → Happens count infinity s (receive_event s i k c)
  starts : (last : ℕ) → Happens count infinity s (start count infinity s last)
  delivers :
      (last k : ℕ) (msg : GvtMessage)
      → get_elem? s.network k ≡ some msg
      → Happens count infinity s (deliver count infinity s last k msg)

-- The sum of the counts that the tokens in flight carry.
unfoldable pub carried : List GvtMessage → ℤ
carried [] = pos 0
carried (token d low minimum in_transit ∷ ms) = in_transit +ℤ carried ms
carried (update_to d new ∷ ms) = carried ms

-- The number of white events in flight.
unfoldable pub white_events : List GvtTokenColor → ℕ
white_events [] = 0
white_events (white ∷ cs) = suc (white_events cs)
white_events (red ∷ cs) = white_events cs

abbrev pub whites_of : System → ℕ → ℤ
whites_of s i = (s.managers i).whites

-- The counts of the managers and of the tokens in flight add up to the white events in flight.
abbrev pub IsBalanced : ℕ → System → Type 0
IsBalanced count s = sum count (whites_of s) +ℤ carried s.network ≡ pos (white_events s.events)
