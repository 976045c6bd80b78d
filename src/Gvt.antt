-- ===== src/Gvt.antt =====
-- MatternGVTManager.cpp, MatternObjectRecord.h, MatternGVTMessage.cpp and GVTUpdateMessage.cpp: the
-- managers estimate the global virtual time by a token that collects the counts of the white
-- messages and the minima of the clocks and of the red messages. `count` is the number of
-- simulation managers, `infinity` the largest time, and `last` what the scheduler returns as the time
-- of the last event that it scheduled. The counts are C++ integers that do not overflow; a message
-- carries one as unsigned and back, which changes no count between -2 ^ 31 and 2 ^ 31. `none` stands
-- for a failed assertion, an abort or the use of a null pointer.
pub mod System
pub mod Balance
pub mod Conservation
pub mod Round
pub mod Safety
mod Tests
use pdes.Base.Int.{ℤ, pos, negsuc, ◌+ℤ◌, is_zero}
use pdes.Base.{
  ℕ, zero, suc, ◌+◌, ◌-◌, Bool, true, false, not, ◌&&◌, List, [], ◌∷◌, ◌++◌, Option, none, some,
  ltb, leb, ◌==◌, if◌then◌else◌,
}

pub data GvtTokenColor : Type 0 where
  white red : GvtTokenColor

-- The object record with the fields of the manager; `t_min` is a pointer that is null at first.
pub record GvtManager : Type 0 where
  pub id : ℕ
  pub color : GvtTokenColor
  pub iteration : ℕ
  pub t_min : Option ℕ
  pub whites : ℤ
  pub pending : Bool
  pub gvt : ℕ
  pub period_counter : ℕ

pub data GvtMessage : Type 0 where
  token : (destination last minimum : ℕ) (in_transit : ℤ) → GvtMessage
  update_to : (destination gvt : ℕ) → GvtMessage

-- A manager with the messages that it sends and the time to which it collects fossils, if it does.
pub record Reaction : Type 0 where
  pub manager : GvtManager
  pub sent : List GvtMessage
  pub collected : Option ℕ

abbrev silent : GvtManager → Reaction
silent m = record { manager = m; sent = []; collected = none }

abbrev pub init : ℕ → ℕ → GvtManager
init zero_time id = record {
  id = id;
  color = white;
  iteration = 0;
  t_min = none;
  whites = pos 0;
  pending = false;
  gvt = zero_time;
  period_counter = 0;
}

unfoldable pub min_func : ℕ → ℕ → ℕ
min_func a b = if ltb a b then a else b

abbrev pub lower_to : GvtManager → ℕ → Option ℕ → Option GvtManager
lower_to m time none = none
lower_to m time (some t) = some (if ltb time t then record m { t_min = some time } else m)

unfoldable pub set_min_time_stamp : GvtManager → ℕ → Option GvtManager
set_min_time_stamp m time = lower_to m time m.t_min

-- The counter is an unsigned number that starts again at the period.
unfoldable pub check_gvt_period : ℕ → GvtManager → GvtManager × Bool
check_gvt_period period m =
    if not m.pending
    then (if (m.period_counter + 1) == period
        then (record m { period_counter = 0 }, true)
        else (record m { period_counter = m.period_counter + 1 }, false))
    else (m, false)

abbrev pub note_sent : GvtTokenColor → GvtManager → ℕ → Option GvtManager
note_sent white m time = some (record m { whites = m.whites +ℤ pos 1 })
note_sent red m time = set_min_time_stamp m time

-- The colour goes with the event.
unfoldable pub get_gvt_info : GvtManager → ℕ → GvtTokenColor × Option GvtManager
get_gvt_info m time = (m.color, note_sent m.color m time)

unfoldable pub update_event_record : GvtManager → GvtTokenColor → GvtManager
update_event_record m white = record m { whites = m.whites +ℤ negsuc 0 }
update_event_record m red = m

-- The number of the next manager of the ring.
unfoldable pub destination_of : ℕ → ℕ → ℕ
destination_of count id = if not (id == count - 1) then id + 1 else 0

unfoldable pub send_gvt_token : ℕ → GvtManager → ℕ → ℕ → GvtManager × GvtMessage
send_gvt_token count m last minimum = (
  record m { iteration = m.iteration + 1 },
  token (destination_of count m.id) last minimum m.whites,
)

-- The updates to the managers below `n`, but not to the sender.
unfoldable pub send_gvt_update : ℕ → GvtManager → List GvtMessage
send_gvt_update zero m = []
send_gvt_update (suc n) m =
    send_gvt_update n m ++ (if not (m.id == n) then update_to n m.gvt ∷ [] else [])

unfoldable pub calculate_gvt : ℕ → ℕ → ℕ → GvtManager → Option Reaction
calculate_gvt count infinity last m =
    if not (m.id == 0)
    then none
    else if ltb 1 count
    then (if not m.pending
        then (let (m', t) = send_gvt_token count m last infinity in
            some (record {
              manager = record m' {
                color = red;
                whites = pos 0;
                t_min = some infinity;
                pending = true;
              };
              sent = t ∷ [];
              collected = none;
            }))
        else some (silent m))
    else some (record { manager = record m { gvt = last }; sent = []; collected = some last })

-- The token goes on with the minima, and the count starts again.
abbrev pub pass_token : ℕ → GvtManager → ℕ → ℕ → ℕ → ℤ → Option ℕ → Option Reaction
pass_token count m last low minimum in_transit none = none
pass_token count m last low minimum in_transit (some t) =
    let (m', k) =
      send_gvt_token count (record m { whites = m.whites +ℤ in_transit }) (min_func low last)
        (min_func minimum t) in
    some (record { manager = record m' { whites = pos 0 }; sent = k ∷ []; collected = none })

-- The initiator sets the estimate and tells it to the others.
unfoldable pub conclude : ℕ → GvtManager → ℕ → ℕ → Option Reaction
conclude count m low minimum =
    let new = min_func low minimum in
    if leb m.gvt new
    then some (record {
      manager = record m {
        gvt = new;
        iteration = 0;
        whites = pos 0;
        color = white;
        pending = false;
      };
      sent = send_gvt_update count (record m { gvt = new });
      collected = if ltb m.gvt new then some new else none;
    })
    else none

unfoldable pub concludes : GvtManager → ℤ → Bool
concludes m in_transit = ltb 1 m.iteration && is_zero (m.whites +ℤ in_transit)

abbrev pub turn_red : GvtTokenColor → ℕ → GvtManager → GvtManager
turn_red white infinity m = record m { t_min = some infinity; color = red }
turn_red red infinity m = m

unfoldable pub handle_token : ℕ → ℕ → ℕ → GvtManager → ℕ → ℕ → ℤ → Option Reaction
handle_token count infinity last m low minimum in_transit =
    if m.id == 0
    then (if concludes m in_transit
        then conclude count m low minimum
        else pass_token count m last low minimum in_transit m.t_min)
    else (let m' = turn_red m.color infinity m in
        pass_token count m' last low minimum in_transit m'.t_min)

unfoldable pub handle_update : GvtManager → ℕ → Option Reaction
handle_update m new =
    if leb m.gvt new
    then some (record {
      manager = record m { gvt = new; iteration = 0; color = white };
      sent = [];
      collected = if ltb m.gvt new then some new else none;
    })
    else none

unfoldable pub receive_kernel_message : ℕ → ℕ → ℕ → GvtManager → GvtMessage → Option Reaction
receive_kernel_message count infinity last m (token d low minimum in_transit) =
    handle_token count infinity last m low minimum in_transit
receive_kernel_message count infinity last m (update_to d new) = handle_update m new

unfoldable pub ofc_reset : GvtManager → GvtManager
ofc_reset m = record m {
  pending = false;
  period_counter = 0;
  whites = pos 0;
  iteration = 0;
  color = white;
}
