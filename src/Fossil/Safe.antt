-- ===== src/Fossil/Safe.antt =====
-- What the kernel reclaims no later rollback needs.
use pdes.Base.{
  ℕ, ◌≤◌, ◌<◌, ◌≡◌, ◌≢◌, refl, ◌∙◌, sym, subst, inl, inr, false, List, [], ◌∷◌, some, arith, All,
  All-map, All-append, ltb, ◌==◌, Bool-cases, ltb→lt, front-All, keep-All, update,
}
use pdes.Container as Container
use pdes.Container.{Container}
use pdes.Event.{Event}
use pdes.Fossil.{Kernel, collect_states, least, collect_outputs, collect_events, fossil_collect}
use pdes.Output as Output
use pdes.Output.Fossil.{get_events-fossil_collect}
use pdes.Output.{OutputEvents, get_events_and_remove}
use pdes.State as State
use pdes.State.Fossil.{answer, answer-restore}
use pdes.State.{
  StateManager, Entry, time_order, earlier, unwind, restore_state, lower_bound, collect, lowest,
  no_state,
}
use pdes.Fossil.States.{
  IsBased, Floor, collect-IsBased, step_keeps, reported, collect_states-Floor, same_answers,
  answer-Floor,
}

least_low : (low : ℕ) (ts : List ℕ) → (least low ts ≤ low) × All (λ t. least low ts ≤ t) ts
unfolding least
least_low low [] = (omega arith, tt)
least_low low (t ∷ ts) = elim (Bool-cases (ltb t low)) [
  | inl h ↦
      let (a, b) = least_low t ts in
      let e : least low (t ∷ ts) ≡ least t ts = rw h refl in
      subst (λ v. (v ≤ low) × All (λ x. v ≤ x) (t ∷ ts)) (sym e)
        (omega (arith, a, ltb→lt t low h), (a, b))
  | inr h ↦
      let (a, b) = least_low low ts in
      let e : least low (t ∷ ts) ≡ least low ts = rw h refl in
      subst (λ v. (v ≤ low) × All (λ x. v ≤ x) (t ∷ ts)) (sym e) (a, (ground (arith, a, h), b))
]

container_old :
    (c : Container) (time : ℕ)
    → All (λ e. e.receive_time < time) (Container.fossil_collect c time).1
unfolding Container.fossil_collect Container.collect
container_old c time =
    let d = Container.ensure_sorted c in
    All-append _ _ _
      (All-map _ _ (λ e h. ltb→lt _ _ h) _ (front-All (Container.before time) d.processed))
      (All-map _ _ (λ e h. ltb→lt _ _ h) _ (keep-All (Container.before time) d.removed))

collect_events-old :
    (time : ℕ) (objects : List ℕ) (containers : ℕ → Container)
    → All (λ e. e.receive_time < time) (collect_events time objects containers).1
unfolding collect_events
collect_events-old time [] containers = tt
collect_events-old time (i ∷ is) containers =
    All-append _ _ _ (container_old (containers i) time) (collect_events-old time is _)

step_output :
    (k : Output.Kernel) (low time i : ℕ) (outputs : ℕ → OutputEvents) (j : ℕ)
    → k.opt_fossil ≡ false
    → low ≤ time
    → (get_events_and_remove k (update outputs i (Output.fossil_collect (outputs i) low) j) time).1
      ≡ (get_events_and_remove k (outputs j) time).1
step_output k low time i outputs j h le = elim (Bool-cases (j == i)) [
  | inl t ↦
      let same : i ≡ j = ground arith in
      rw t (
        subst
          (λ x.
            (get_events_and_remove k (Output.fossil_collect (outputs i) low) time).1
            ≡ (get_events_and_remove k (outputs x) time).1)
          same (get_events-fossil_collect k (outputs i) low time h le))
  | inr t ↦ rw t refl
]

same_output :
    (k : Output.Kernel) (low time : ℕ) (objects : List ℕ) (outputs : ℕ → OutputEvents) (j : ℕ)
    → k.opt_fossil ≡ false
    → low ≤ time
    → (get_events_and_remove k (collect_outputs low objects outputs j) time).1
      ≡ (get_events_and_remove k (outputs j) time).1
unfolding collect_outputs
same_output k low time [] outputs j h le = refl
same_output k low time (i ∷ is) outputs j h le =
    same_output k low time is _ j h le ∙ step_output k low time i outputs j h le

-- What a collection of the kernel leaves to an object.
pub record IsSafe {S : Type 0} (output : Output.Kernel) (time j : ℕ) (k n : Kernel S)
    (gone : List Event) : Type 0 where
  pub same_state :
      (u : ℕ)
      → time ≤ u
      → answer (restore_state false false 0 n.states u j)
        ≡ answer (restore_state false false 0 k.states u j)
  pub same_events :
      (u : ℕ)
      → time ≤ u
      → (get_events_and_remove output (n.outputs j) u).1
        ≡ (get_events_and_remove output (k.outputs j) u).1
  pub not_needed :
      (u : ℕ) (s : S) (r : ℕ)
      → answer (restore_state false false 0 n.states u j) ≡ some (some (s, r))
      → All (λ e. e.receive_time < r) gone

module _ {S : Type 0} (output : Output.Kernel) (infinity time : ℕ) where
  object-IsSafe :
      (objects : List ℕ) (k : Kernel S) (low j : ℕ)
      → output.opt_fossil ≡ false
      → time ≢ infinity
      → low ≤ time
      → Floor low ((collect_states infinity time objects k.states).0.state_queue j)
      → IsSafe output time j k
          (record {
            states = (collect_states infinity time objects k.states).0;
            outputs = collect_outputs low objects k.outputs;
            containers = (collect_events low objects k.containers).0;
          })
          (collect_events low objects k.containers).1
  object-IsSafe objects k low j opt ne le floor =
      let n = (collect_states infinity time objects k.states).0 in
      record {
        same_state = λ u h. same_answers infinity time u objects k.states j h ne;
        same_events = λ u h. same_output output low u objects k.outputs j opt (omega arith);
        not_needed = λ u s r e.
            let here = answer-restore false false 0 u j n (n.state_queue j) refl in
            let least_time = answer-Floor low u (n.state_queue j) s r floor (sym here ∙ e) in
            All-map _ _ (λ x h. omega (arith, h, least_time)) _
              (collect_events-old low objects k.containers);
      }

  -- The collection of all objects before a time that is not infinity and that each object has a state
  -- for, without optimistic fossil collection: a rollback of any of them to that time or a later one is handed out the same
  -- state as before and takes back the same events that were sent, and every event that has been
  -- reclaimed, of whichever object, is before the time of the state.
  pub fossil_collect-IsSafe :
      (objects : List ℕ) (k : Kernel S)
      → output.opt_fossil ≡ false
      → time ≢ infinity
      → All (λ j. IsBased time (k.states.state_queue j)) objects
      → All
          (λ j.
            IsSafe output time j k
              (fossil_collect infinity objects k time).0
              (fossil_collect infinity objects k time).1)
          objects
  unfolding fossil_collect collect_states
  fossil_collect-IsSafe [] k opt ne b = tt
  fossil_collect-IsSafe (i ∷ is) k opt ne b =
      let (n, t) = State.fossil_collect infinity k.states i time in
      let ts = (collect_states infinity time is n).1 in
      let (below, all_below) = least_low t ts in
      let keeps = λ (queue : List (Entry S)). collect-IsBased infinity time queue ne in
      let (early, _) =
        reported infinity time k.states i
          (step_keeps (IsBased time) infinity time k.states i i keeps b.0) in
      All-map _ _
        (λ j floor.
          object-IsSafe (i ∷ is) k (least t ts) j opt ne (omega (arith, below, early)) floor)
        (i ∷ is)
        (collect_states-Floor infinity time (least t ts) (i ∷ is) k.states ne b (below, all_below))
