-- ===== src/EventSet.antt =====
-- EventSet.h, as the scheduler uses it: an abstract class with the event set of a configuration
-- behind it. The laws are what its clients rely on.
use pdes.Base.{ℕ, suc, ◌≡◌, ◌≤◌, Option, none, some, List, [], ◌∷◌, All, Perm}
use pdes.Event.{Event}

-- No event of the list is received before the given one.
abbrev pub IsLowest : Event → List Event → Type 0
IsLowest e = All (λ x. e.receive_time ≤ x.receive_time)

-- An answer is the first of the events, with the others behind it, or none of no events.
unfoldable pub IsFirstOf : Option Event → List Event → List Event → Type 0
IsFirstOf none events others = (events ≡ []) × (others ≡ [])
IsFirstOf (some e) events others = (events ≡ e ∷ others) × IsLowest e others

-- The operations give `none` where they would follow a pointer that is null or to nothing. `IsValid`
-- has the number of events that may still be taken out before the next `cleanUp`, which is `limit`
-- after each.
pub record EventSet : Type 1 where
  pub Store : Type 0
  pub limit : ℕ
  pub IsValid : ℕ → Store → Type 0
  pub view : Store → List Event
  pub insert : Store → Event → Option Store
  pub get_event : Store → Option (Store × Option Event)
  pub peek_event : Store → Option (Store × Option Event)
  pub clean_up : Store → Option Store
  pub insert_law :
      (room : ℕ) (s : Store) (e : Event)
      → IsValid room s
      → (t : Store) × (insert s e ≡ some t) × IsValid room t × Perm (e ∷ view s) (view t)
  pub get_event_law :
      (room : ℕ) (s : Store)
      → IsValid (suc room) s
      → (t : Store) × (a : Option Event) × (get_event s ≡ some (t, a))
        × IsValid room t
        × IsFirstOf a (view s) (view t)
  pub peek_event_law :
      (room : ℕ) (s : Store)
      → IsValid room s
      → (t : Store) × (a : Option Event) × (others : List Event) × (peek_event s ≡ some (t, a))
        × IsValid room t
        × (view t ≡ view s)
        × IsFirstOf a (view s) others
  pub clean_up_law :
      (room : ℕ) (s : Store)
      → IsValid room s
      → (t : Store) × (clean_up s ≡ some t) × IsValid limit t × (view t ≡ view s)
