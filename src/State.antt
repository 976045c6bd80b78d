-- ===== src/State.antt =====
-- StateManagerImplementationBase.cpp, PeriodicStateManager.cpp and SetObject.h: the states that are
-- saved for the objects of one simulation manager, to which a rollback goes back. `S` is what the
-- application keeps in a state; a copy of a state is its value. A queue is a `multiset` by time, and
-- the objects are given by their numbers. `none` stands for `abort`.
pub mod Queue
pub mod Restore
pub mod Fossil
pub mod Period
pub mod Valid
mod Tests
use pdes.Base.Int.{ℤ, pos, negsuc, ◌+ℤ◌}
use pdes.Base.Sorting.{StrictOrder, insert}
use pdes.Base.{
  ℕ, zero, suc, ◌-◌, ◌≡◌, Bool, true, false, not, List, [], ◌∷◌, Option, none, some, arith, ltb,
  ◌==◌, if◌then◌else◌, drop, rest, last?, update,
}

-- `SetObject<State>`: the main time and the element.
pub record Entry (S : Type 0) : Type 0 where
  pub main_time : ℕ
  pub element : S

unfoldable pub earlier : {S : Type 0} → Entry S → Entry S → Bool
earlier a b = ltb a.main_time b.main_time

pub earlier-asymm : {S : Type 0} (a b : Entry S) → earlier a b ≡ true → earlier b a ≡ false
unfolding earlier
earlier-asymm a b h = ground arith

pub earlier-le_trans :
    {S : Type 0} (a b c : Entry S) → earlier b a ≡ false → earlier c b ≡ false → earlier c a ≡ false
unfolding earlier
earlier-le_trans a b c h k = ground arith

-- `SetObject::operator<`.
abbrev pub time_order : (S : Type 0) → StrictOrder (Entry S)
time_order S = record { less = earlier; less_asymm = earlier-asymm; le_trans = earlier-le_trans }

-- The arrays by object number.
pub record StateManager (S : Type 0) : Type 0 where
  pub object_state_period : ℕ → ℕ
  pub period_counter : ℕ → ℤ
  pub state_queue : ℕ → List (Entry S)

abbrev pub init : (S : Type 0) → ℕ → StateManager S
init S period = record {
  object_state_period = λ id. period;
  period_counter = λ id. negsuc 0;
  state_queue = λ id. [];
}

abbrev pub is_due : ℤ → Bool
is_due (pos zero) = true
is_due (pos (suc n)) = false
is_due (negsuc n) = true

-- `PeriodicStateManager::saveState`, for an object in state `s`.
unfoldable pub save_state : {S : Type 0} → StateManager S → ℕ → ℕ → S → StateManager S
save_state {S} m time id s =
    if is_due (m.period_counter id)
    then record m {
      state_queue =
          update m.state_queue id
            (insert (time_order S) (record { main_time = time; element = s }) (m.state_queue id));
      period_counter = update m.period_counter id (pos (m.object_state_period id));
    }
    else record m { period_counter = update m.period_counter id (m.period_counter id +ℤ negsuc 0) }

-- The entries without the last ones that pass a test.
unfoldable pub drop_back : {A : Type 0} → (A → Bool) → List A → List A
drop_back p [] = []
drop_back p (x ∷ xs) = elim (drop_back p xs) [
  | [] ↦ if p x then [] else x ∷ []
  | y ∷ ys ↦ x ∷ y ∷ ys
]

abbrev pub after : {S : Type 0} → ℕ → Entry S → Bool
after time e = ltb time e.main_time

-- The loop from the end of the queue erases what is after the time, but never the first entry.
unfoldable pub unwind : {S : Type 0} → ℕ → List (Entry S) → List (Entry S)
unwind time [] = []
unwind time (e ∷ es) = e ∷ drop_back (after time) es

-- A restored state with its time, or the zero time with whether a recovery starts.
pub data Outcome (S : Type 0) : Type 0 where
  restored : StateManager S → S → ℕ → Outcome S
  recovers : Bool → ℕ → Outcome S

abbrev pub restore_last :
    {S : Type 0} → StateManager S → ℕ → List (Entry S) → Option (Entry S) → Option (Outcome S)
restore_last m id queue none = none
restore_last m id queue (some e) =
    some (restored (record m { state_queue = update m.state_queue id queue }) e.element e.main_time)

-- With no saved state, optimistic fossil collection recovers, unless it does so already.
abbrev pub no_state : {S : Type 0} → Bool → Bool → ℕ → Option (Outcome S)
no_state opt_fossil in_recovery zero_time =
    if opt_fossil then some (recovers (not in_recovery) zero_time) else none

unfoldable pub restore_state :
    {S : Type 0} → Bool → Bool → ℕ → StateManager S → ℕ → ℕ → Option (Outcome S)
restore_state opt_fossil in_recovery zero_time m time id = elim (m.state_queue id) [
  | [] ↦ no_state opt_fossil in_recovery zero_time
  | e ∷ es ↦ restore_last m id (unwind time (e ∷ es)) (last? (unwind time (e ∷ es)))
]

-- `multiset::lower_bound`: the position of the first entry that is not before the time.
unfoldable pub lower_bound : {S : Type 0} → ℕ → List (Entry S) → ℕ
lower_bound time [] = 0
lower_bound time (e ∷ es) = if ltb e.main_time time then suc (lower_bound time es) else 0

-- The lowest time that is left.
abbrev pub lowest : {S : Type 0} → ℕ → List (Entry S) → ℕ
lowest infinity [] = infinity
lowest infinity (e ∷ es) = e.main_time

abbrev pub place : {S : Type 0} → ℕ → StateManager S → ℕ → List (Entry S) → StateManager S × ℕ
place infinity m id queue =
    (record m { state_queue = update m.state_queue id queue }, lowest infinity queue)

-- What stays of a queue: one entry before the time is kept.
unfoldable pub collect : {S : Type 0} → ℕ → ℕ → List (Entry S) → List (Entry S)
collect infinity time queue =
    if not (time == infinity) then drop (lower_bound time queue - 1) queue else []

unfoldable pub fossil_collect : {S : Type 0} → ℕ → StateManager S → ℕ → ℕ → StateManager S × ℕ
fossil_collect infinity m id time = place infinity m id (collect infinity time (m.state_queue id))

-- The collection by an approximate time.
unfoldable pub collect_int : {S : Type 0} → (ℕ → ℕ) → ℕ → ℕ → List (Entry S) → List (Entry S)
collect_int approximate infinity time queue =
    if not (time == approximate infinity)
    then rest (λ e. ltb (approximate e.main_time) time) queue
    else []

unfoldable pub fossil_collect_int :
    {S : Type 0} → (ℕ → ℕ) → ℕ → StateManager S → ℕ → ℕ → StateManager S × ℕ
fossil_collect_int approximate infinity m id time =
    place infinity m id (collect_int approximate infinity time (m.state_queue id))

unfoldable pub ofc_purge_object : {S : Type 0} → StateManager S → ℕ → StateManager S
ofc_purge_object m id = record m {
  state_queue = update m.state_queue id [];
  period_counter = update m.period_counter id (negsuc 0);
}

-- The objects below a number, in order.
unfoldable pub ofc_purge : {S : Type 0} → StateManager S → ℕ → StateManager S
ofc_purge m zero = m
ofc_purge m (suc n) = ofc_purge_object (ofc_purge m n) n
