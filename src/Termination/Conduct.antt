-- ===== src/Termination/Conduct.antt =====
-- What a manager does with a token of the cycle that is under way.
use pdes.Base.Maps.{}
use pdes.Base.{ℕ, ◌≡◌, ◌≢◌, refl, sym, ◌∙◌, subst, inl, inr, true, [], ◌∷◌, some, Bool-cases}
use pdes.Termination.Handlers.{
  noted, onward, IsCycle, slave_circulates, slave_taints, slave_completes, terminator_continues,
  terminator_completes, terminator_cancels, terminator_retires, terminator_ends,
}
use pdes.Termination.Ring.{}
use pdes.Termination.{
  Manager, TerminateToken, TokenState, first_cycle, second_cycle, cancel_cycle, become_terminator,
  simulation_complete, slave, terminator_idle, terminator_processing, Outcome,
  handle_terminate_token, am_terminator,
}

-- What a token in flight may be while manager `t` has started a cycle.
abbrev pub Carries : ℕ → TerminateToken → TokenState → Type 0
Carries t k first_cycle = k.terminator ≡ t
Carries t k second_cycle = k.terminator ≡ t
Carries t k cancel_cycle = (k.receiver ≡ t) × (k.terminator ≡ t) × (k.sender ≢ t)
Carries t k become_terminator = ⊥
Carries t k simulation_complete = Unit

-- A manager keeps its number and its peer, which is another manager.
pub record IsNode (i : ℕ) (m : Manager) : Type 0 where
  pub own_id : m.id ≡ i
  pub peer_ne : m.peer ≢ i

-- What a slave does with a token of the cycle of `t`: it stays a slave and sends one such token.
pub record StaysSlave (t i : ℕ) (o : Outcome) : Type 0 where
  pub manager : Manager
  pub token : TerminateToken
  pub result : o ≡ some (manager, token ∷ [])
  pub status : manager.terminator_status ≡ slave
  pub node : IsNode i manager
  pub carries : Carries t token token.state

module _ (t i : ℕ) (m : Manager) (k : TerminateToken) (st : m.terminator_status ≡ slave)
    (n : IsNode i m) (ne : i ≢ t) where
  peer_other : m.peer ≢ m.id
  peer_other = λ e. n.peer_ne (e ∙ n.own_id)

  cycle-Carries :
      (s : TokenState)
      → k.state ≡ s
      → IsCycle s
      → k.terminator ≡ t
      → Carries t (onward m k.terminator k.state) k.state
  cycle-Carries s e (inl f) h = subst (Carries t (onward m k.terminator k.state)) (sym (e ∙ f)) h
  cycle-Carries s e (inr f) h = subst (Carries t (onward m k.terminator k.state)) (sym (e ∙ f)) h

  slave_cycle : IsCycle k.state → k.terminator ≡ t → StaysSlave t i (handle_terminate_token m k)
  slave_cycle cycle h = elim (Bool-cases m.idle_since_last_token) [
    | inl f ↦ record {
      manager = noted m;
      token = onward m k.terminator k.state;
      result = slave_circulates m k st cycle f peer_other;
      status = st;
      node = record { own_id = n.own_id; peer_ne = n.peer_ne };
      carries = cycle-Carries k.state refl cycle h;
    }
    | inr f ↦ record {
      manager = noted m;
      token = record {
        sender = m.id;
        receiver = k.terminator;
        terminator = k.terminator;
        state = cancel_cycle;
      };
      result = slave_taints m k st cycle f (λ e. ne (sym n.own_id ∙ (sym e ∙ h)));
      status = st;
      node = record { own_id = n.own_id; peer_ne = n.peer_ne };
      carries = (h, h, λ e. ne (sym n.own_id ∙ e));
    }
  ]

  pub slave_handles :
      (s : TokenState)
      → k.state ≡ s
      → k.receiver ≡ i
      → Carries t k s
      → StaysSlave t i (handle_terminate_token m k)
  slave_handles first_cycle e r c = slave_cycle (inl e) c
  slave_handles second_cycle e r c = slave_cycle (inr e) c
  slave_handles cancel_cycle e r c = absurd (ne (sym r ∙ c.0))
  slave_handles become_terminator e r c = absurd c
  slave_handles simulation_complete e r c = record {
    manager = noted (record m { complete = true });
    token = onward m m.id simulation_complete;
    result = slave_completes m k st e peer_other;
    status = st;
    node = record { own_id = n.own_id; peer_ne = n.peer_ne };
    carries = tt;
  }

-- What the terminator, manager `t`, does with the token that comes back.
pub data TerminatorDoes (t : ℕ) (o : Outcome) : Type 0 where
  stops :
      (m : Manager)
      → o ≡ some (m, [])
      → m.terminator_status ≡ terminator_idle
      → IsNode t m
      → TerminatorDoes t o
  ends :
      (m : Manager)
      → o ≡ some (m, [])
      → m.terminator_status ≡ terminator_processing
      → IsNode t m
      → TerminatorDoes t o
  continues :
      (m : Manager) (k : TerminateToken)
      → o ≡ some (m, k ∷ [])
      → m.terminator_status ≡ terminator_processing
      → IsNode t m
      → Carries t k k.state
      → TerminatorDoes t o
  retires :
      (m : Manager) (k : TerminateToken)
      → o ≡ some (m, k ∷ [])
      → m.terminator_status ≡ slave
      → IsNode t m
      → k.state ≡ become_terminator
      → TerminatorDoes t o

module _ (t : ℕ) (m : Manager) (k : TerminateToken)
    (st : m.terminator_status ≡ terminator_processing) (n : IsNode t m) where
  acts : am_terminator m.terminator_status ≡ true
  acts = rw st

  pub terminator_handles :
      (s : TokenState) → k.state ≡ s → Carries t k s → TerminatorDoes t (handle_terminate_token m k)
  terminator_handles first_cycle e c = elim (Bool-cases m.idle_since_last_token) [
    | inl f ↦
        continues (noted m) (onward m m.id second_cycle)
          (terminator_continues m k acts e f (λ g. n.peer_ne (g ∙ n.own_id))) st
          (record { own_id = n.own_id; peer_ne = n.peer_ne }) n.own_id
    | inr f ↦
        stops (noted (record m { terminator_status = terminator_idle }))
          (terminator_cancels m k acts (inl e) f) refl
          (record { own_id = n.own_id; peer_ne = n.peer_ne })
  ]
  terminator_handles second_cycle e c = elim (Bool-cases m.idle_since_last_token) [
    | inl f ↦
        continues (noted (record m { complete = true })) (onward m m.id simulation_complete)
          (terminator_completes m k acts e f (λ g. n.peer_ne (g ∙ n.own_id))) st
          (record { own_id = n.own_id; peer_ne = n.peer_ne }) tt
    | inr f ↦
        stops (noted (record m { terminator_status = terminator_idle }))
          (terminator_cancels m k acts (inr e) f) refl
          (record { own_id = n.own_id; peer_ne = n.peer_ne })
  ]
  terminator_handles cancel_cycle e c =
      retires (noted (record m { terminator_status = slave })) _
        (terminator_retires m k acts e (n.own_id ∙ sym c.1) (λ g. c.2 (g ∙ n.own_id))) refl
        (record { own_id = n.own_id; peer_ne = n.peer_ne }) refl
  terminator_handles become_terminator e c = absurd c
  terminator_handles simulation_complete e c =
      ends (noted m) (terminator_ends m k acts e) st
        (record { own_id = n.own_id; peer_ne = n.peer_ne })
