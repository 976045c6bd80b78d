-- ===== src/Termination/Tests.antt =====
-- The ring at work: two managers that go through a whole termination.
use pdes.Base.{
  ℕ, zero, suc, ◌≡◌, refl, Bool, true, false, List, [], ◌∷◌, Option, none, some, arith, ◌>>=◌,
  update,
}
use pdes.Termination.Reachable.{build, Reach-IsRing, no_assertion_fails}
use pdes.Termination.Ring.{Ring, ask, wake, calm, deliver, delivers, asks, Reach, here, next}
use pdes.Termination.Safety.{IsRing}
use pdes.Termination.{
  idle, handle_terminate_token, terminate_simulation, set_status_active, set_status_passive,
  ofc_reset, init,
}

abbrev two : Ring
two = build 2 (λ _. idle)

-- Deliveries in a row.
deliveries : ℕ → Option Ring → Option Ring
deliveries zero r = r
deliveries (suc n) none = none
deliveries (suc n) (some r) = deliveries n (deliver r)

completed : Option Ring → List Bool
completed none = []
completed (some r) = (r.managers 0).complete ∷ (r.managers 1).complete ∷ []

whole_run : completed (deliveries 6 (ask two 0)) ≡ true ∷ true ∷ []
unfolding completed deliveries ask deliver build init handle_terminate_token terminate_simulation
whole_run = refl

-- A manager that works in between stops the completion.
abbrev woken : Option Ring → Option Ring
woken none = none
woken (some r) = wake r 1

cancelled_run : completed (deliveries 6 (woken (ask two 0))) ≡ false ∷ false ∷ []
unfolding completed deliveries ask wake deliver build init handle_terminate_token
    terminate_simulation set_status_active
cancelled_run = refl

abbrev reset_first : Ring → Option Ring
reset_first r = some (record r { managers = update r.managers 0 (ofc_reset (r.managers 0)) })

-- A manager that is reset while its token is away asks again once it is idle: the second token that comes back
-- cancelled meets the abort.
reset_run : Option Ring
reset_run = do
  a ← ask two 0
  b ← wake a 1
  c ← reset_first b
  d ← calm c 0
  e ← ask d 0
  deliveries 4 (some e)

aborts : reset_run ≡ none
unfolding reset_run deliveries ask wake calm deliver build init handle_terminate_token
    terminate_simulation set_status_active set_status_passive ofc_reset
aborts = refl

or_two : Option Ring → Ring
or_two none = two
or_two (some r) = r

asked : Ring
unfolding or_two ask build init terminate_simulation
asked = or_two (ask two 0)

asked_eq : ask two 0 ≡ some asked
unfolding asked or_two ask build init terminate_simulation
asked_eq = refl

asked-Reach : Reach two asked
asked-Reach = next here (asks 0) asked_eq

Reach-IsRing_example : IsRing asked
Reach-IsRing_example = Reach-IsRing 2 (λ _. idle) (omega arith) asked-Reach

no_assertion_fails_example : (s : Ring) × (deliver asked ≡ some s) × IsRing s
no_assertion_fails_example = no_assertion_fails 2 (λ _. idle) (omega arith) asked-Reach delivers
