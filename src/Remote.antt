-- ===== src/Remote.antt =====
-- TimeWarpSimulationManager.cpp: the negative events that cancel what another manager has received. They
-- are sent in messages of ten at most. The result has the messages in order, each with the least send time
-- that `getGVTInfo` of the GVT manager is asked with; `none` stands for a failed assertion.
pub mod Batches
mod Tests
use pdes.Base.{
  ℕ, zero, suc, List, [], ◌∷◌, Option, some, none, length, take, drop, ltb, if◌then◌else◌,
}
use pdes.Event.{Event}

pub record NegativeEventMessage : Type 0 where
  pub events : List Event
  pub minimum : ℕ

-- The loops that look for the least send time.
unfoldable pub min_send_time : ℕ → List Event → ℕ
min_send_time low [] = low
min_send_time low (e ∷ es) = min_send_time (if ltb e.send_time low then e.send_time else low) es

abbrev pub message : Event → List Event → NegativeEventMessage
message first es = record { events = es; minimum = min_send_time first.send_time es }

-- The loop over more than ten events: each turn sends the next ten, or those that are left.
unfoldable pub batches : ℕ → List Event → List NegativeEventMessage
batches zero es = []
batches (suc n) [] = []
batches (suc n) (e ∷ es) = message e (take 10 (e ∷ es)) ∷ batches n (drop 10 (e ∷ es))

unfoldable pub cancel_remote_events : List Event → Option (List NegativeEventMessage)
cancel_remote_events [] = none
cancel_remote_events (e ∷ es) = some (
    if ltb 10 (length (e ∷ es))
    then batches (length (e ∷ es)) (e ∷ es)
    else message e (e ∷ es) ∷ [])
