-- ===== src/Termination/Handlers.antt =====
-- What a manager does with each kind of token, one equation for each branch.
use pdes.Base.{ℕ, ◌≡◌, ◌≢◌, ◌⊎◌, inl, inr, true, false, [], ◌∷◌, some, arith}
use pdes.Termination.{
  Manager, TerminateToken, TokenState, first_cycle, second_cycle, cancel_cycle, become_terminator,
  simulation_complete, slave, terminator_idle, handle_terminate_token, is_idle, am_terminator,
}

-- The manager after a token, with its idle flag set anew.
abbrev pub noted : Manager → Manager
noted m = record m { idle_since_last_token = is_idle m.sim_status }

-- A token from the manager to its peer.
abbrev pub onward : Manager → ℕ → TokenState → TerminateToken
onward m terminator state = record {
  sender = m.id;
  receiver = m.peer;
  terminator = terminator;
  state = state;
}

abbrev pub IsCycle : TokenState → Type 0
IsCycle s = (s ≡ first_cycle) ⊎ (s ≡ second_cycle)

module _ (m : Manager) (k : TerminateToken) (status : m.terminator_status ≡ slave) where
  pub slave_circulates :
      IsCycle k.state
      → m.idle_since_last_token ≡ true
      → m.peer ≢ m.id
      → handle_terminate_token m k ≡ some (noted m, onward m k.terminator k.state ∷ [])
  unfolding handle_terminate_token
  slave_circulates (inl e) f ne = ground arith
  slave_circulates (inr e) f ne = ground arith

  pub slave_taints :
      IsCycle k.state
      → m.idle_since_last_token ≡ false
      → k.terminator ≢ m.id
      → handle_terminate_token m k
        ≡ some (
          noted m,
          record {
            sender = m.id;
            receiver = k.terminator;
            terminator = k.terminator;
            state = cancel_cycle;
          }
              ∷ [],
        )
  unfolding handle_terminate_token
  slave_taints (inl e) f ne = ground arith
  slave_taints (inr e) f ne = ground arith

  pub slave_completes :
      k.state ≡ simulation_complete
      → m.peer ≢ m.id
      → handle_terminate_token m k
        ≡ some (noted (record m { complete = true }), onward m m.id simulation_complete ∷ [])
  unfolding handle_terminate_token
  slave_completes e ne = ground arith

  pub slave_becomes :
      k.state ≡ become_terminator
      → handle_terminate_token m k
        ≡ some (noted (record m { terminator_status = terminator_idle }), [])
  unfolding handle_terminate_token
  slave_becomes e = ground arith

module _ (m : Manager) (k : TerminateToken)
    (status : am_terminator m.terminator_status ≡ true) where
  pub terminator_continues :
      k.state ≡ first_cycle
      → m.idle_since_last_token ≡ true
      → m.peer ≢ m.id
      → handle_terminate_token m k ≡ some (noted m, onward m m.id second_cycle ∷ [])
  unfolding handle_terminate_token
  terminator_continues e f ne = ground arith

  pub terminator_completes :
      k.state ≡ second_cycle
      → m.idle_since_last_token ≡ true
      → m.peer ≢ m.id
      → handle_terminate_token m k
        ≡ some (noted (record m { complete = true }), onward m m.id simulation_complete ∷ [])
  unfolding handle_terminate_token
  terminator_completes e f ne = ground arith

  pub terminator_cancels :
      IsCycle k.state
      → m.idle_since_last_token ≡ false
      → handle_terminate_token m k
        ≡ some (noted (record m { terminator_status = terminator_idle }), [])
  unfolding handle_terminate_token
  terminator_cancels (inl e) f = ground arith
  terminator_cancels (inr e) f = ground arith

  pub terminator_retires :
      k.state ≡ cancel_cycle
      → m.id ≡ k.terminator
      → k.sender ≢ m.id
      → handle_terminate_token m k
        ≡ some (
          noted (record m { terminator_status = slave }),
          record {
            sender = m.id;
            receiver = k.sender;
            terminator = k.sender;
            state = become_terminator;
          }
              ∷ [],
        )
  unfolding handle_terminate_token
  terminator_retires e own ne = ground arith

  pub terminator_ends :
      k.state ≡ simulation_complete → handle_terminate_token m k ≡ some (noted m, [])
  unfolding handle_terminate_token
  terminator_ends e = ground arith
