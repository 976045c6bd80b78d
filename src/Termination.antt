-- ===== src/Termination.antt =====
-- TokenPassingTerminationManager.cpp and TerminateToken.h: the managers agree on the end of the
-- simulation by a token that circulates in the ring of the simulation managers. A method returns
-- the new manager with the tokens that it sends, oldest first; `none` stands for a failed assertion
-- or an abort.
pub mod Ring
pub mod Handlers
pub mod Conduct
pub mod Safety
pub mod Reachable
mod Tests
use pdes.Base.{
  ℕ, ◌+◌, ◌-◌, Bool, true, false, List, [], ◌∷◌, Option, none, some, ◌==◌, if◌then◌else◌,
}

pub data TokenState : Type 0 where
  first_cycle second_cycle cancel_cycle become_terminator simulation_complete : TokenState

pub record TerminateToken : Type 0 where
  pub sender : ℕ
  pub receiver : ℕ
  pub terminator : ℕ
  pub state : TokenState

pub data TerminatorStatus : Type 0 where
  slave terminator_idle terminator_processing : TerminatorStatus

pub data IdleStatus : Type 0 where
  idle active : IdleStatus

pub record Manager : Type 0 where
  pub id : ℕ
  pub peer : ℕ
  pub terminator_status : TerminatorStatus
  pub sim_status : IdleStatus
  pub complete : Bool
  pub idle_since_last_token : Bool

abbrev pub Outcome : Type 0
Outcome = Option (Manager × List TerminateToken)

unfoldable pub figure_out_peer : ℕ → ℕ → ℕ
figure_out_peer count id = if id == count - 1 then 0 else id + 1

unfoldable pub get_terminator_status : ℕ → TerminatorStatus
get_terminator_status id = if id == 0 then terminator_idle else slave

-- The constructor does not write `mySimManagerStatus`: it is an argument here.
unfoldable pub init : ℕ → ℕ → IdleStatus → Manager
unfolding figure_out_peer get_terminator_status
init count id status = record {
  id = id;
  peer = figure_out_peer count id;
  terminator_status = get_terminator_status id;
  sim_status = status;
  complete = false;
  idle_since_last_token = true;
}

abbrev pub am_terminator : TerminatorStatus → Bool
am_terminator slave = false
am_terminator terminator_idle = true
am_terminator terminator_processing = true

-- The assertion of `sendToken` is on the receiver.
unfoldable pub send_token : Manager → TerminateToken → Outcome
send_token m t = if t.receiver == m.id then none else some (m, t ∷ [])

unfoldable pub circulate_token : Manager → TerminateToken → Outcome
unfolding send_token
circulate_token m t =
    send_token m
      (record { sender = m.id; receiver = m.peer; terminator = t.terminator; state = t.state })

abbrev send_when_idle : TerminatorStatus → Manager → Outcome
send_when_idle terminator_idle m =
    circulate_token (record m { terminator_status = terminator_processing })
      (record { sender = m.id; receiver = m.peer; terminator = m.id; state = first_cycle })
send_when_idle s m = none

unfoldable pub send_terminate_token : Manager → Outcome
unfolding circulate_token
send_terminate_token m = send_when_idle m.terminator_status m

abbrev with_answer : Bool → Outcome → Option (Bool × Manager × List TerminateToken)
with_answer b none = none
with_answer b (some (m, ts)) = some (b, m, ts)

abbrev start_cycle : TerminatorStatus → Manager → Outcome
start_cycle slave m = some (m, [])
start_cycle terminator_processing m = some (m, [])
start_cycle terminator_idle m = send_terminate_token m

unfoldable pub terminate_simulation : Manager → Option (Bool × Manager × List TerminateToken)
unfolding send_terminate_token
terminate_simulation m =
    if m.complete then some (true, m, []) else with_answer false (start_cycle m.terminator_status m)

unfoldable pub taint_token : Manager → TerminateToken → Outcome
unfolding send_token
taint_token m t = send_token m (record {
  sender = m.id;
  receiver = t.terminator;
  terminator = t.terminator;
  state = cancel_cycle;
})

unfoldable pub cancel_cycle_of : Manager → Outcome
cancel_cycle_of m = some (record m { terminator_status = terminator_idle }, [])

unfoldable pub simulation_completed : Manager → Outcome
unfolding send_token
simulation_completed m =
    send_token (record m { complete = true })
      (record { sender = m.id; receiver = m.peer; terminator = m.id; state = simulation_complete })

unfoldable pub retire_terminator : Manager → TerminateToken → Outcome
unfolding send_token
retire_terminator m t =
    if m.id == t.terminator
    then send_token (record m { terminator_status = slave })
        (record {
          sender = m.id;
          receiver = t.sender;
          terminator = t.sender;
          state = become_terminator;
        })
    else none

unfoldable pub become_terminator_of : Manager → Outcome
become_terminator_of m = some (record m { terminator_status = terminator_idle }, [])

-- A terminator ignores the tokens that its switch does not name.
unfoldable pub handle_as_terminator : Manager → TerminateToken → TokenState → Outcome
unfolding circulate_token cancel_cycle_of simulation_completed retire_terminator
handle_as_terminator m t first_cycle =
    if m.idle_since_last_token
    then circulate_token m
        (record { sender = m.id; receiver = m.peer; terminator = m.id; state = second_cycle })
    else cancel_cycle_of m
handle_as_terminator m t second_cycle =
    if m.idle_since_last_token then simulation_completed m else cancel_cycle_of m
handle_as_terminator m t cancel_cycle = retire_terminator m t
handle_as_terminator m t become_terminator = some (m, [])
handle_as_terminator m t simulation_complete = some (m, [])

unfoldable pub handle_as_slave : Manager → TerminateToken → TokenState → Outcome
unfolding circulate_token taint_token become_terminator_of simulation_completed
handle_as_slave m t first_cycle =
    if m.idle_since_last_token then circulate_token m t else taint_token m t
handle_as_slave m t second_cycle =
    if m.idle_since_last_token then circulate_token m t else taint_token m t
handle_as_slave m t become_terminator = become_terminator_of m
handle_as_slave m t simulation_complete = simulation_completed m
handle_as_slave m t cancel_cycle = none

abbrev pub is_idle : IdleStatus → Bool
is_idle idle = true
is_idle active = false

abbrev note_status : Outcome → Outcome
note_status none = none
note_status (some (m, ts)) = some (record m { idle_since_last_token = is_idle m.sim_status }, ts)

unfoldable pub handle_terminate_token : Manager → TerminateToken → Outcome
unfolding handle_as_terminator handle_as_slave
handle_terminate_token m t = note_status (
    if am_terminator m.terminator_status
    then handle_as_terminator m t t.state
    else handle_as_slave m t t.state)

unfoldable pub set_status_active : Manager → Manager
set_status_active m = record m { sim_status = active; idle_since_last_token = false }

unfoldable pub set_status_passive : Manager → Manager
set_status_passive m = record m { sim_status = idle }

unfoldable pub ofc_reset : Manager → Manager
unfolding get_terminator_status
ofc_reset m = record m {
  sim_status = active;
  idle_since_last_token = false;
  complete = false;
  terminator_status = get_terminator_status m.id;
}
