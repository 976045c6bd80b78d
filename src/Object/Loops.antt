-- ===== src/Object/Loops.antt =====
-- The loops over the events of an object whose container is sorted: what they process, and that the
-- number of events is enough for their turns.
use pdes.Base.{
  ℕ, zero, suc, ◌≤◌, ◌≡◌, refl, ap, sym, ◌∙◌, inl, inr, Bool, true, false, ◌&&◌, List, [], ◌∷◌,
  ◌++◌, Option, none, some, arith, Bool-cases, front, rest, length,
}
use pdes.Container.{Container, sorted, next_event, get_next_event, ensure_sorted}
use pdes.Event.{Event, ObjectId}
use pdes.Object.Replay.{replay}
use pdes.Object.{
  SimulationObject, within, found, peek_event, get_event, is_current, handle_events, process, turn,
  then_loop, process_loop,
}
use pdes.Output.{Kernel, OutputEvents}
use mathlib.Core.List.{append_assoc, append-nil}

-- A sorted container with these unprocessed and processed events.
abbrev pub holding : Container → List Event → List Event → Container
holding c us ps = record c { unprocessed = us; processed = ps; sort_status = sorted }

next_event-holding :
    (c : Container) (e : Event) (us ps : List Event)
    → next_event (holding c (e ∷ us) ps) ≡ (holding c (e ∷ us) ps, some e)
unfolding next_event ensure_sorted
next_event-holding c e us ps = refl

pub peek_event-holding :
    (limit : Option ℕ) (c : Container) (e : Event) (us ps : List Event)
    → peek_event limit (holding c (e ∷ us) ps) ≡ (holding c (e ∷ us) ps, found limit (some e))
unfolding peek_event
peek_event-holding limit c e us ps = rw (next_event-holding c e us ps) refl

pub peek_event-empty :
    (limit : Option ℕ) (c : Container) (ps : List Event)
    → peek_event limit (holding c [] ps) ≡ (holding c [] ps, none)
unfolding peek_event next_event
peek_event-empty limit c ps = refl

get_next_event-holding :
    (c : Container) (e : Event) (us ps : List Event)
    → get_next_event (holding c (e ∷ us) ps) ≡ (holding c us (ps ++ e ∷ []), some e)
unfolding get_next_event
get_next_event-holding c e us ps = rw (next_event-holding c e us ps) refl

get_event-holding :
    (limit : Option ℕ) (c : Container) (e : Event) (us ps : List Event)
    → within limit e ≡ true
    → get_event limit (holding c (e ∷ us) ps) ≡ (holding c us (ps ++ e ∷ []), some e)
unfolding get_event within
get_event-holding none c e us ps h = get_next_event-holding c e us ps
get_event-holding (some time) c e us ps h =
    rw (peek_event-holding (some time) c e us ps, h) (get_next_event-holding c e us ps)

handle_events-coasting :
    (k : Kernel) (time : ℕ) (output : OutputEvents) (es : List Event)
    → handle_events k (some time) output es ≡ (output, [])
unfolding handle_events
handle_events-coasting k time output [] = refl
handle_events-coasting k time output (e ∷ es) = rw (handle_events-coasting k time output es) refl

-- The events that `execute_process` takes.
abbrev pub taken : ObjectId → Option ℕ → ℕ → Event → Bool
taken id coast time e = within coast e && is_current id time e

module _ {S : Type 0} (handle : S → Event → S × List Event) (k : Kernel) (id : ObjectId) where
  -- The object `p` is `o` after some events, with the container `c`.
  pub record IsAfter (o p : SimulationObject S) (es : List Event) (c : Container) : Type 0 where
    pub same_time : p.simulation_time ≡ o.simulation_time
    pub same_coast : p.coast_forward_time ≡ o.coast_forward_time
    pub same_states : p.states ≡ o.states
    pub state_after : p.state ≡ replay handle o.state es
    pub container_after : p.container ≡ c
    pub silent : (time : ℕ) → o.coast_forward_time ≡ some time → p.output ≡ o.output
    pub unsent : (time : ℕ) → o.coast_forward_time ≡ some time → p.delivered ≡ o.delivered

  -- One event is processed.
  abbrev pub one : SimulationObject S → Container → Event → SimulationObject S
  one o c e = record o {
    container = c;
    state = (handle o.state e).0;
    output = (handle_events k o.coast_forward_time o.output (handle o.state e).1).0;
    delivered =
        o.delivered ++ (handle_events k o.coast_forward_time o.output (handle o.state e).1).1;
  }

  one_silent :
      (o : SimulationObject S) (c : Container) (e : Event) (time : ℕ)
      → o.coast_forward_time ≡ some time
      → (one o c e).output ≡ o.output
  one_silent o c e time h =
      rw h (ap (λ r. r.0) (handle_events-coasting k time o.output (handle o.state e).1))

  one_unsent :
      (o : SimulationObject S) (c : Container) (e : Event) (time : ℕ)
      → o.coast_forward_time ≡ some time
      → (one o c e).delivered ≡ o.delivered
  one_unsent o c e time h = rw h (
      ap (λ r. o.delivered ++ r.1) (handle_events-coasting k time o.output (handle o.state e).1)
      ∙ append-nil o.delivered)

  IsAfter-cons :
      (o p : SimulationObject S) (e : Event) (es : List Event) (c d : Container)
      → IsAfter (one o d e) p es c
      → IsAfter o p (e ∷ es) c
  unfolding replay
  IsAfter-cons o p e es c d a = record {
    same_time = a.same_time;
    same_coast = a.same_coast;
    same_states = a.same_states;
    state_after = a.state_after;
    container_after = a.container_after;
    silent = λ time h. a.silent time h ∙ one_silent o d e time h;
    unsent = λ time h. a.unsent time h ∙ one_unsent o d e time h;
  }

  stays-IsAfter :
      (o : SimulationObject S) (c d : Container)
      → c ≡ d
      → IsAfter o (record o { container = c }) [] d
  unfolding replay
  stays-IsAfter o c d e = record {
    same_time = refl;
    same_coast = refl;
    same_states = refl;
    state_after = refl;
    container_after = e;
    silent = λ time h. refl;
    unsent = λ time h. refl;
  }

  no_more : (c : Container) (us ps : List Event) → holding c us ps ≡ holding c us (ps ++ [])
  no_more c us ps = ap (holding c us) (sym (append-nil ps))

  after_peek :
      (n : ℕ) (o : SimulationObject S) {c : Container} {e : Option Event}
      → peek_event o.coast_forward_time o.container ≡ (c, e)
      → (process_loop handle k id (suc n) o).0
        ≡ (turn handle k id (process_loop handle k id n) o (c, e)).0
  unfolding process_loop
  after_peek n o h = ap (λ r. (turn handle k id (process_loop handle k id n) o r).0) h

  loop-empty :
      (n : ℕ) (o : SimulationObject S) (c : Container) (ps : List Event)
      → o.container ≡ holding c [] ps
      → (process_loop handle k id (suc n) o).0 ≡ record o { container = holding c [] ps }
  loop-empty n o c ps e =
      after_peek n o
        (ap (peek_event o.coast_forward_time) e ∙ peek_event-empty o.coast_forward_time c ps)

  peeks :
      (o : SimulationObject S) (c : Container) (x : Event) (us ps : List Event)
      → o.container ≡ holding c (x ∷ us) ps
      → peek_event o.coast_forward_time o.container
        ≡ (holding c (x ∷ us) ps, found o.coast_forward_time (some x))
  peeks o c x us ps e =
      ap (peek_event o.coast_forward_time) e ∙ peek_event-holding o.coast_forward_time c x us ps

  loop-stops :
      (n : ℕ) (o : SimulationObject S) (c : Container) (x : Event) (us ps : List Event)
      → o.container ≡ holding c (x ∷ us) ps
      → taken id o.coast_forward_time o.simulation_time x ≡ false
      → (process_loop handle k id (suc n) o).0 ≡ record o { container = holding c (x ∷ us) ps }
  loop-stops n o c x us ps e h =
      after_peek n o (peeks o c x us ps e) ∙ elim (Bool-cases (within o.coast_forward_time x)) [
        | inl w ↦
            (let other : is_current id o.simulation_time x ≡ false = rw w at h in
              rw (w, other) refl)
        | inr w ↦ rw w refl
      ]

  loop-takes :
      (n : ℕ) (o : SimulationObject S) (c : Container) (x : Event) (us ps : List Event)
      → o.container ≡ holding c (x ∷ us) ps
      → taken id o.coast_forward_time o.simulation_time x ≡ true
      → (process_loop handle k id (suc n) o).0
        ≡ (process_loop handle k id n (one o (holding c us (ps ++ x ∷ [])) x)).0
  loop-takes n o c x us ps e h = elim (Bool-cases (within o.coast_forward_time x)) [
    | inl w ↦
        let current : is_current id o.simulation_time x ≡ true = rw w at h in
        after_peek n o (peeks o c x us ps e)
        ∙ rw (w, current)
            (ap
              (λ r.
                (then_loop handle k id (process_loop handle k id n) (process handle k id o r)).0)
              (get_event-holding o.coast_forward_time c x us ps w))
    | inr w ↦ absurd (ground (arith, w, h))
  ]

  pub process_loop-IsAfter :
      (n : ℕ) (o : SimulationObject S) (c : Container) (us ps : List Event)
      → length us ≤ n
      → o.container ≡ holding c us ps
      → IsAfter o
          (process_loop handle k id n o).0
          (front (taken id o.coast_forward_time o.simulation_time) us)
          (holding c
            (rest (taken id o.coast_forward_time o.simulation_time) us)
            (ps ++ front (taken id o.coast_forward_time o.simulation_time) us))
  unfolding front rest process_loop
  process_loop-IsAfter zero o c [] ps h e =
      stays-IsAfter o o.container (holding c [] (ps ++ [])) (e ∙ no_more c [] ps)
  process_loop-IsAfter zero o c (x ∷ us) ps h e = absurd (omega (arith, h))
  process_loop-IsAfter (suc n) o c [] ps h e =
      rw (loop-empty n o c ps e)
        (stays-IsAfter o (holding c [] ps) (holding c [] (ps ++ [])) (no_more c [] ps))
  process_loop-IsAfter (suc n) o c (x ∷ us) ps h e =
      elim (Bool-cases (taken id o.coast_forward_time o.simulation_time x)) [
        | inr t ↦
            rw (loop-stops n o c x us ps e t, t)
              (stays-IsAfter o (holding c (x ∷ us) ps) _ (no_more c (x ∷ us) ps))
        | inl t ↦
            let next : SimulationObject S = one o (holding c us (ps ++ x ∷ [])) x in
            let later = process_loop-IsAfter n next c us (ps ++ x ∷ []) (omega (arith, h)) refl in
            rw (loop-takes n o c x us ps e t, t)
              (IsAfter-cons o _ x _ _ _ (rw append_assoc at later))
      ]
