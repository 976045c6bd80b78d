-- ===== src/Remote/Batches.antt =====
-- The messages carry every negative event once and in order, and each tells a time that is not after its events.
use mathlib.Core.List.{append-nil}
use pdes.Base.{
  ℕ, zero, suc, ◌≤◌, ◌≡◌, refl, ap, ◌∙◌, inl, inr, List, [], ◌∷◌, ◌++◌, some, length, take, drop,
  ltb, arith, All, if◌then◌else◌, Bool-cases, take-append-drop,
}
use pdes.Event.{Event}
use pdes.Remote.{NegativeEventMessage, min_send_time, message, batches, cancel_remote_events}

-- What a message must be.
pub record IsBatch (m : NegativeEventMessage) : Type 0 where
  pub some_events : 1 ≤ length m.events
  pub not_many : length m.events ≤ 10
  pub not_after : All (λ e. m.minimum ≤ e.send_time) m.events

abbrev pub all_events : List NegativeEventMessage → List Event
all_events [] = []
all_events (m ∷ ms) = m.events ++ all_events ms

min_send_time-le : (low : ℕ) (es : List Event) → min_send_time low es ≤ low
unfolding min_send_time
min_send_time-le low [] = omega arith
min_send_time-le low (e ∷ es) =
    let least = min_send_time-le (if ltb e.send_time low then e.send_time else low) es in
    ground (arith, least)

min_send_time-least : (low : ℕ) (es : List Event) → All (λ e. min_send_time low es ≤ e.send_time) es
unfolding min_send_time
min_send_time-least low [] = tt
min_send_time-least low (e ∷ es) =
    let first = min_send_time-le (if ltb e.send_time low then e.send_time else low) es in
    (
      ground (arith, first),
      min_send_time-least (if ltb e.send_time low then e.send_time else low) es,
    )

length-take : (n : ℕ) (es : List Event) → length (take n es) ≤ n
length-take zero es = omega arith
length-take (suc n) [] = omega arith
length-take (suc n) (e ∷ es) = let fewer = length-take n es in omega (arith, fewer)

length-drop : (n : ℕ) (es : List Event) → length (drop n es) ≤ length es
length-drop zero es = omega arith
length-drop (suc n) [] = omega arith
length-drop (suc n) (e ∷ es) = let fewer = length-drop n es in omega (arith, fewer)

message-IsBatch :
    (e : Event) (es : List Event) → 1 ≤ length es → length es ≤ 10 → IsBatch (message e es)
message-IsBatch e es h k = record {
  some_events = h;
  not_many = k;
  not_after = min_send_time-least e.send_time es;
}

batches-all : (n : ℕ) (es : List Event) → length es ≤ n → all_events (batches n es) ≡ es
unfolding batches
batches-all zero [] h = refl
batches-all zero (e ∷ es) h = absurd (omega (arith, h))
batches-all (suc n) [] h = refl
batches-all (suc n) (e ∷ es) h =
    let fewer = length-drop 9 es in
    ap (λ l. take 10 (e ∷ es) ++ l) (batches-all n (drop 10 (e ∷ es)) (omega (arith, h, fewer)))
    ∙ take-append-drop 10 (e ∷ es)

batches-IsBatch : (n : ℕ) (es : List Event) → All IsBatch (batches n es)
unfolding batches
batches-IsBatch zero es = tt
batches-IsBatch (suc n) [] = tt
batches-IsBatch (suc n) (e ∷ es) = (
  message-IsBatch e (take 10 (e ∷ es)) (omega arith) (length-take 10 (e ∷ es)),
  batches-IsBatch n (drop 10 (e ∷ es)),
)

-- Unless there is nothing to cancel, the messages that are sent carry all negative events, each once and in
-- their order. No message is empty or has more than ten, and the time that it tells the GVT manager is not
-- after the send time of any of its events.
pub cancel_remote_events-IsBatch :
    (e : Event) (es : List Event)
    → (ms : List NegativeEventMessage) × (cancel_remote_events (e ∷ es) ≡ some ms)
      × (all_events ms ≡ e ∷ es)
      × All IsBatch ms
unfolding cancel_remote_events
cancel_remote_events-IsBatch e es = elim (Bool-cases (ltb 10 (length (e ∷ es)))) [
  | inl t ↦ (
    batches (length (e ∷ es)) (e ∷ es),
    rw t refl,
    batches-all (length (e ∷ es)) (e ∷ es) (omega arith),
    batches-IsBatch (length (e ∷ es)) (e ∷ es),
  )
  | inr t ↦ (
    message e (e ∷ es) ∷ [],
    rw t refl,
    append-nil (e ∷ es),
    (message-IsBatch e (e ∷ es) (omega arith) (ground (arith, t)), tt),
  )
]
