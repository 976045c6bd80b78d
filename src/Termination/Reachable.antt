-- ===== src/Termination/Reachable.antt =====
-- Every step of the ring keeps its invariant, from the rings that the constructors build on.
use pdes.Base.{
  ℕ, ◌≤◌, ◌-◌, ◌≡◌, ◌≢◌, refl, sym, ◌∙◌, subst, inl, inr, true, false, [], ◌∷◌, Option, none, some,
  arith, ◌==◌, Bool-cases,
}
use pdes.Termination.Conduct.{}
use pdes.Termination.Handlers.{onward}
use pdes.Termination.Ring.{
  Ring, drop_answer, ask, wake, calm, Happens, delivers, asks, wakes, calms, Reach, here, next,
}
use pdes.Termination.Safety.{
  resting, ending, circulating, handing, IsRing, Goes, deliver-Goes, keep-Goes, nodes_after,
  slaves_after, self_status,
}
use pdes.Termination.{
  Manager, first_cycle, IdleStatus, slave, terminator_idle, terminator_processing,
  terminate_simulation, set_status_active, set_status_passive, figure_out_peer, init,
  get_terminator_status,
}

-- What a manager does when it is asked, by its status.
ask_complete :
    (m : Manager) → m.complete ≡ true → drop_answer (terminate_simulation m) ≡ some (m, [])
unfolding terminate_simulation
ask_complete m e = ground arith

ask_slave :
    (m : Manager)
    → m.complete ≡ false
    → m.terminator_status ≡ slave
    → drop_answer (terminate_simulation m) ≡ some (m, [])
unfolding terminate_simulation
ask_slave m e st = ground arith

ask_processing :
    (m : Manager)
    → m.complete ≡ false
    → m.terminator_status ≡ terminator_processing
    → drop_answer (terminate_simulation m) ≡ some (m, [])
unfolding terminate_simulation
ask_processing m e st = ground arith

-- The manager that has started a cycle.
abbrev pub started : Manager → Manager
started m = record m { terminator_status = terminator_processing }

pub ask_idle :
    (m : Manager)
    → m.complete ≡ false
    → m.terminator_status ≡ terminator_idle
    → m.peer ≢ m.id
    → drop_answer (terminate_simulation m) ≡ some (started m, onward m m.id first_cycle ∷ [])
unfolding terminate_simulation
ask_idle m e st ne = ground arith

module _ (r : Ring) (v : IsRing r) where
  keeps :
      (i : ℕ)
      → drop_answer (terminate_simulation (r.managers i)) ≡ some (r.managers i, [])
      → Goes (ask r i)
  unfolding ask
  keeps i e = rw e (keep-Goes r v i (r.managers i) refl (v.nodes i))

  start-Goes :
      (t : ℕ)
      → (r.managers t).complete ≡ false
      → (r.managers t).terminator_status ≡ terminator_idle
      → ((i : ℕ) → i ≢ t → (r.managers i).terminator_status ≡ slave)
      → r.network ≡ []
      → Goes (ask r t)
  unfolding ask
  start-Goes t f st o e =
      let m = r.managers t in
      let n = v.nodes t in
      rw (ask_idle m f st (λ g. n.peer_ne (g ∙ n.own_id)), e)
        (record {
          nodes = nodes_after r v t (started m) (record { own_id = n.own_id; peer_ne = n.peer_ne });
          phase =
              circulating t (onward m m.id first_cycle) (self_status r v t (started m) refl)
                (slaves_after r v t t (started m) o (λ ne. absurd (ne refl))) n.own_id refl;
        })

  ask-Goes : (i : ℕ) → Goes (ask r i)
  ask-Goes i = elim (Bool-cases (r.managers i).complete) [
    | inl f ↦ keeps i (ask_complete (r.managers i) f)
    | inr f ↦ elim v.phase [
      | resting t st o e ↦ elim (Bool-cases (i == t)) [
        | inl g ↦
            let at : t ≡ i = ground arith in
            subst (λ j. Goes (ask r j)) at
              (start-Goes t (subst (λ j. (r.managers j).complete ≡ false) (sym at) f) st o e)
        | inr g ↦ keeps i (ask_slave (r.managers i) f (o i (ground arith)))
      ]
      | ending t st o e ↦ in_cycle f t st o
      | circulating t k st o c e ↦ in_cycle f t st o
      | handing k o b e ↦ keeps i (ask_slave (r.managers i) f (o i))
    ]
  ]
    where
      in_cycle :
          (r.managers i).complete ≡ false
          → (t : ℕ) → (r.managers t).terminator_status ≡ terminator_processing
          → ((j : ℕ) → j ≢ t → (r.managers j).terminator_status ≡ slave)
          → Goes (ask r i)
      in_cycle f t st o = elim (Bool-cases (i == t)) [
        | inl g ↦
            let at : t ≡ i = ground arith in
            keeps i (
              ask_processing (r.managers i) f
                (subst (λ j. (r.managers j).terminator_status ≡ terminator_processing) at st))
        | inr g ↦ keeps i (ask_slave (r.managers i) f (o i (ground arith)))
      ]

  wake-Goes : (i : ℕ) → Goes (wake r i)
  unfolding wake set_status_active
  wake-Goes i =
      keep-Goes r v i (set_status_active (r.managers i)) refl
        (record { own_id = (v.nodes i).own_id; peer_ne = (v.nodes i).peer_ne })

  calm-Goes : (i : ℕ) → Goes (calm r i)
  unfolding calm set_status_passive
  calm-Goes i =
      keep-Goes r v i (set_status_passive (r.managers i)) refl
        (record { own_id = (v.nodes i).own_id; peer_ne = (v.nodes i).peer_ne })

  -- In a ring with one terminator and one token at most, what happens next fails no assertion and
  -- aborts nowhere, and leads to a ring with one terminator and one token at most.
  pub Happens-Goes : {o : Option Ring} → Happens r o → Goes o
  Happens-Goes delivers = deliver-Goes r v
  Happens-Goes (asks i) = ask-Goes i
  Happens-Goes (wakes i) = wake-Goes i
  Happens-Goes (calms i) = calm-Goes i

-- The managers of a simulation, as they are built.
unfoldable pub build : ℕ → (ℕ → IdleStatus) → Ring
unfolding init
build count statuses = record { managers = λ i. init count i (statuses i); network = [] }

pub build-IsRing :
    (count : ℕ) (statuses : ℕ → IdleStatus) → 2 ≤ count → IsRing (build count statuses)
unfolding build figure_out_peer get_terminator_status
build-IsRing count statuses le = record {
  nodes = λ i. record { own_id = refl; peer_ne = peer_other i };
  phase = resting 0 refl (λ i ne. status_slave i ne) refl;
}
  where
    peer_other : (i : ℕ) → figure_out_peer count i ≢ i
    peer_other i = elim (Bool-cases (i == (count - 1))) [
      | inl e ↦ rw e (ground arith)
      | inr e ↦ rw e (ground arith)
    ]

    status_slave : (i : ℕ) → i ≢ 0 → get_terminator_status i ≡ slave
    status_slave i ne = ground arith

-- In every ring that a simulation of two managers or more reaches, by deliveries in order and by
-- managers that ask, wake and calm down at any time, there is one terminator, or the duty is on its
-- way to one, and one token in flight at most.
pub Reach-IsRing :
    (count : ℕ) (statuses : ℕ → IdleStatus)
    → 2 ≤ count
    → {r : Ring} → Reach (build count statuses) r
    → IsRing r
Reach-IsRing count statuses le here = build-IsRing count statuses le
Reach-IsRing count statuses le (next {s = s} h step e) =
    subst Goes e (Happens-Goes s (Reach-IsRing count statuses le h) step)

-- In a ring that a simulation of two managers or more reaches, by deliveries in order and by managers
-- that ask, wake and calm down at any time, no further delivery, question, waking or calming fails an
-- assertion or aborts. A reset for optimistic fossil collection is not among these actions.
pub no_assertion_fails :
    (count : ℕ) (statuses : ℕ → IdleStatus)
    → 2 ≤ count
    → {r : Ring} {o : Option Ring} → Reach (build count statuses) r
    → Happens r o
    → (s : Ring) × (o ≡ some s) × IsRing s
no_assertion_fails count statuses le {r = r} {o = o} h step =
    got o (Happens-Goes r (Reach-IsRing count statuses le h) step)
  where
    got : (o : Option Ring) → Goes o → (s : Ring) × (o ≡ some s) × IsRing s
    got none g = absurd g
    got (some s) g = (s, refl, g)
