-- ===== src/Termination/Ring.antt =====
-- The ring of managers with the tokens in flight, and what can happen in it.
use pdes.Base.{ℕ, ◌≡◌, Bool, List, [], ◌∷◌, ◌++◌, Option, none, some, update}
use pdes.Termination.{
  Manager, TerminateToken, Outcome, handle_terminate_token, terminate_simulation, set_status_active,
  set_status_passive,
}

-- The managers of the ring by number, and the tokens in flight.
pub record Ring : Type 0 where
  pub managers : ℕ → Manager
  pub network : List TerminateToken

abbrev pub place : Ring → ℕ → List TerminateToken → Outcome → Option Ring
place r i others none = none
place r i others (some (m, sent)) =
    some (record { managers = update r.managers i m; network = others ++ sent })

-- The oldest token in flight reaches its receiver.
abbrev pub deliver_from : Ring → List TerminateToken → Option Ring
deliver_from r [] = some r
deliver_from r (t ∷ others) =
    place r t.receiver others (handle_terminate_token (r.managers t.receiver) t)

unfoldable pub deliver : Ring → Option Ring
deliver r = deliver_from r r.network

abbrev pub drop_answer : Option (Bool × Manager × List TerminateToken) → Outcome
drop_answer none = none
drop_answer (some (b, m, ts)) = some (m, ts)

-- Manager `i` asks whether the simulation has ended.
unfoldable pub ask : Ring → ℕ → Option Ring
ask r i = place r i r.network (drop_answer (terminate_simulation (r.managers i)))

unfoldable pub wake : Ring → ℕ → Option Ring
wake r i = place r i r.network (some (set_status_active (r.managers i), []))

unfoldable pub calm : Ring → ℕ → Option Ring
calm r i = place r i r.network (some (set_status_passive (r.managers i), []))

-- What can happen next; `none` is a failed assertion or an abort.
pub data Happens (r : Ring) : Option Ring → Type 0 where
  delivers : Happens r (deliver r)
  asks : (i : ℕ) → Happens r (ask r i)
  wakes : (i : ℕ) → Happens r (wake r i)
  calms : (i : ℕ) → Happens r (calm r i)

-- Everything that can be reached.
pub data Reach (r : Ring) : Ring → Type 0 where
  here : Reach r r
  next : {s t : Ring} → {o : Option Ring} → Reach r s → Happens s o → o ≡ some t → Reach r t
