-- ===== src/Termination/Safety.antt =====
-- There is one terminator at a time and one token in flight at most, so that no assertion fails.
use pdes.Base.Maps.{update-All, update_self, update_ne}
use pdes.Base.{
  ℕ, ◌≡◌, ◌≢◌, refl, sym, ap, ◌∙◌, subst, inl, inr, [], ◌∷◌, Option, none, some, arith, update,
  ◌==◌, Bool-cases,
}
use mathlib.Core.List.{append-nil}
use pdes.Termination.Conduct.{
  Carries, IsNode, slave_handles, stops, ends, continues, retires, terminator_handles,
}
use pdes.Termination.Handlers.{noted, slave_becomes}
use pdes.Termination.Ring.{Ring, deliver_from, place, deliver}
use pdes.Termination.{
  Manager, TerminateToken, become_terminator, TerminatorStatus, slave, terminator_idle,
  terminator_processing, handle_terminate_token,
}

-- Every manager but `t` is a slave.
abbrev pub OthersSlaves : ℕ → (ℕ → Manager) → Type 0
OthersSlaves t ms = (i : ℕ) → i ≢ t → (ms i).terminator_status ≡ slave

pub data Phase (r : Ring) : Type 0 where
  resting :
      (t : ℕ)
      → (r.managers t).terminator_status ≡ terminator_idle
      → OthersSlaves t r.managers
      → r.network ≡ []
      → Phase r
  ending :
      (t : ℕ)
      → (r.managers t).terminator_status ≡ terminator_processing
      → OthersSlaves t r.managers
      → r.network ≡ []
      → Phase r
  circulating :
      (t : ℕ) (k : TerminateToken)
      → (r.managers t).terminator_status ≡ terminator_processing
      → OthersSlaves t r.managers
      → Carries t k k.state
      → r.network ≡ k ∷ []
      → Phase r
  handing :
      (k : TerminateToken)
      → ((i : ℕ) → (r.managers i).terminator_status ≡ slave)
      → k.state ≡ become_terminator
      → r.network ≡ k ∷ []
      → Phase r

-- There is one terminator, or the duty is on its way to one; and one token in flight at most.
pub record IsRing (r : Ring) : Type 0 where
  pub nodes : (i : ℕ) → IsNode i (r.managers i)
  pub phase : Phase r

-- What happens does so with no failed assertion and no abort, into a ring with the invariant.
abbrev pub Goes : Option Ring → Type 0
Goes none = ⊥
Goes (some r) = IsRing r

module _ (r : Ring) (v : IsRing r) where
  pub nodes_after :
      (i : ℕ) (m : Manager) → IsNode i m → (j : ℕ) → IsNode j (update r.managers i m j)
  nodes_after i m n = update-All IsNode r.managers i m v.nodes n

  pub slaves_after :
      (t i : ℕ) (m : Manager)
      → OthersSlaves t r.managers
      → (i ≢ t → m.terminator_status ≡ slave)
      → OthersSlaves t (update r.managers i m)
  slaves_after t i m o h =
      update-All (λ j (x : Manager). j ≢ t → x.terminator_status ≡ slave) r.managers i m o h

  pub self_status :
      (t : ℕ) (m : Manager) {s : TerminatorStatus}
      → m.terminator_status ≡ s
      → (update r.managers t m t).terminator_status ≡ s
  self_status t m h = ap (λ (x : Manager). x.terminator_status) (update_self r.managers t m) ∙ h

  other_status :
      (t i : ℕ) (m : Manager) {s : TerminatorStatus}
      → t ≢ i
      → (r.managers t).terminator_status ≡ s
      → (update r.managers i m t).terminator_status ≡ s
  other_status t i m ne h =
      ap (λ (x : Manager). x.terminator_status) (update_ne r.managers i t m ne) ∙ h

  deliver_home :
      (t : ℕ) (k : TerminateToken)
      → (r.managers t).terminator_status ≡ terminator_processing
      → OthersSlaves t r.managers
      → Carries t k k.state
      → Goes (place r t [] (handle_terminate_token (r.managers t) k))
  deliver_home t k st o c =
      elim (terminator_handles t (r.managers t) k st (v.nodes t) k.state refl c) [
        | stops m e h n ↦ rw e (record {
          nodes = nodes_after t m n;
          phase =
              resting t (self_status t m h) (slaves_after t t m o (λ ne. absurd (ne refl))) refl;
        })
        | ends m e h n ↦ rw e (record {
          nodes = nodes_after t m n;
          phase = ending t (self_status t m h) (slaves_after t t m o (λ ne. absurd (ne refl))) refl;
        })
        | continues m k' e h n c' ↦ rw e (record {
          nodes = nodes_after t m n;
          phase =
              circulating t k' (self_status t m h) (slaves_after t t m o (λ ne. absurd (ne refl)))
                c' refl;
        })
        | retires m k' e h n b ↦
            rw e
              (record { nodes = nodes_after t m n; phase = handing k' (all_slaves t m o h) b refl })
      ]
    where
      all_slaves :
          (i : ℕ) (m : Manager)
          → OthersSlaves i r.managers
          → m.terminator_status ≡ slave
          → (j : ℕ) → (update r.managers i m j).terminator_status ≡ slave
      all_slaves i m others h j = elim (Bool-cases (j == i)) [
        | inl e ↦ rw e h
        | inr e ↦ rw e (others j (ground arith))
      ]

  deliver_circulating :
      (t : ℕ) (k : TerminateToken)
      → (r.managers t).terminator_status ≡ terminator_processing
      → OthersSlaves t r.managers
      → Carries t k k.state
      → Goes (place r k.receiver [] (handle_terminate_token (r.managers k.receiver) k))
  deliver_circulating t k st o c = elim (Bool-cases (k.receiver == t)) [
    | inl e ↦
        let at_home : k.receiver ≡ t = ground arith in
        subst (λ j. Goes (place r j [] (handle_terminate_token (r.managers j) k))) (sym at_home)
          (deliver_home t k st o c)
    | inr e ↦ away (ground arith)
  ]
    where
      away :
          k.receiver ≢ t
          → Goes (place r k.receiver [] (handle_terminate_token (r.managers k.receiver) k))
      away ne =
          let h =
            slave_handles t k.receiver (r.managers k.receiver) k (o k.receiver ne)
              (v.nodes k.receiver) ne k.state refl refl c in
          rw h.result (record {
            nodes = nodes_after k.receiver h.manager h.node;
            phase =
                circulating t h.token (other_status t k.receiver h.manager (λ e. ne (sym e)) st)
                  (slaves_after t k.receiver h.manager o (λ _. h.status)) h.carries refl;
          })

  deliver_handing :
      (k : TerminateToken)
      → ((i : ℕ) → (r.managers i).terminator_status ≡ slave)
      → k.state ≡ become_terminator
      → Goes (place r k.receiver [] (handle_terminate_token (r.managers k.receiver) k))
  deliver_handing k o e =
      let i = k.receiver in
      let m = noted (record (r.managers i) { terminator_status = terminator_idle }) in
      rw (slave_becomes (r.managers i) k (o i) e) (record {
        nodes =
            nodes_after i m (record { own_id = (v.nodes i).own_id; peer_ne = (v.nodes i).peer_ne });
        phase =
            resting i (self_status i m refl)
              (slaves_after i i m (λ j _. o j) (λ ne. absurd (ne refl))) refl;
      })

  pub deliver-Goes : Goes (deliver r)
  unfolding deliver
  deliver-Goes = elim v.phase [
    | resting t st o e ↦ rw (e, deliver_from) v
    | ending t st o e ↦ rw (e, deliver_from) v
    | circulating t k st o c e ↦ rw (e, deliver_from) (deliver_circulating t k st o c)
    | handing k o b e ↦ rw (e, deliver_from) (deliver_handing k o b)
  ]

  -- A manager may change anything but its number, its peer and its status.
  statuses_after :
      (i : ℕ) (m : Manager)
      → m.terminator_status ≡ (r.managers i).terminator_status
      → (j : ℕ) → (update r.managers i m j).terminator_status ≡ (r.managers j).terminator_status
  statuses_after i m h =
      update-All (λ j (x : Manager). x.terminator_status ≡ (r.managers j).terminator_status)
        r.managers i m (λ j. refl) h

  keep-Phase :
      (s : Ring)
      → ((j : ℕ) → (s.managers j).terminator_status ≡ (r.managers j).terminator_status)
      → s.network ≡ r.network
      → Phase s
  keep-Phase s h e = elim v.phase [
    | resting t st o k ↦ resting t (h t ∙ st) (λ j ne. h j ∙ o j ne) (e ∙ k)
    | ending t st o k ↦ ending t (h t ∙ st) (λ j ne. h j ∙ o j ne) (e ∙ k)
    | circulating t k st o c l ↦ circulating t k (h t ∙ st) (λ j ne. h j ∙ o j ne) c (e ∙ l)
    | handing k o b l ↦ handing k (λ j. h j ∙ o j) b (e ∙ l)
  ]

  pub keep-Goes :
      (i : ℕ) (m : Manager)
      → m.terminator_status ≡ (r.managers i).terminator_status
      → IsNode i m
      → Goes (place r i r.network (some (m, [])))
  keep-Goes i m h n = record {
    nodes = nodes_after i m n;
    phase = keep-Phase _ (statuses_after i m h) (append-nil r.network);
  }
