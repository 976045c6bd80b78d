-- ===== src/Object/Coast.antt =====
-- `executeProcess` at the time of an event, and the loop that coasts forward.
use pdes.Base.Sorting.{Sorted}
use pdes.Base.{
  ℕ, zero, suc, ◌≤◌, ◌≡◌, refl, ap, sym, subst, ◌∙◌, inl, inr, Bool, true, List, [], ◌∷◌, ◌++◌,
  Option, some, arith, Bool-cases, All, All-map, All-append, front, rest, length, front-All,
}
use pdes.Container.{Container, before}
use pdes.Event.Order.{receive_order}
use pdes.Event.{Event, ObjectId, object_eq}
use pdes.Object.Loops.{
  holding, taken, IsAfter, process_loop-IsAfter, peek_event-empty, peek_event-holding,
}
use pdes.Object.Replay.{
  replay, replay-append, front-twice, rest-twice, length-rest, All-rest, Sorted-rest, first-lowest,
}
use pdes.Object.{
  SimulationObject, within, peek_event, is_current, execute_process, coast_loop, coast_turn,
}
use pdes.Output.{Kernel}
use mathlib.Core.List.{append_assoc, append-nil}

taken-before :
    (id : ObjectId) (limit time : ℕ) (e : Event)
    → taken id (some limit) time e ≡ true
    → before limit e ≡ true
unfolding within
taken-before id limit time e h = ground (arith, h)

taken-time :
    (id : ObjectId) (coast : Option ℕ) (time : ℕ) (e : Event)
    → taken id coast time e ≡ true
    → e.receive_time ≡ time
unfolding is_current
taken-time id coast time e h = ground (arith, h)

-- An addressed event at the time is taken.
takes :
    (id : ObjectId) (limit : ℕ) (e : Event)
    → before limit e ≡ true
    → object_eq e.receiver id ≡ true
    → taken id (some limit) e.receive_time e ≡ true
unfolding is_current within
takes id limit e h a = ground (arith, h, a)

module _ {S : Type 0} (handle : S → Event → S × List Event) (k : Kernel) (id : ObjectId) where
  pub execute_process-IsAfter :
      (o : SimulationObject S) (c : Container) (us ps : List Event)
      → o.container ≡ holding c us ps
      → IsAfter handle k id o
          (execute_process handle k id o).0
          (front (taken id o.coast_forward_time o.simulation_time) us)
          (holding c
            (rest (taken id o.coast_forward_time o.simulation_time) us)
            (ps ++ front (taken id o.coast_forward_time o.simulation_time) us))
  unfolding execute_process
  execute_process-IsAfter o c us ps e =
      process_loop-IsAfter handle k id (length o.container.unprocessed) o c us ps
        (rw e (omega arith)) e

  -- Object `p` is `o` after it has coasted forward to a time, over the unprocessed events `us`.
  pub record IsCoasted (o p : SimulationObject S) (time : ℕ) (c : Container) (us ps : List Event)
      : Type 0 where
    pub same_states : p.states ≡ o.states
    pub same_output : p.output ≡ o.output
    pub same_delivered : p.delivered ≡ o.delivered
    pub state_after : p.state ≡ replay handle o.state (front (before time) us)
    pub container_after :
        p.container ≡ holding c (rest (before time) us) (ps ++ front (before time) us)
    pub later : o.simulation_time ≤ p.simulation_time
    pub in_time : p.simulation_time ≤ time
    pub passed : All (λ e. e.receive_time ≤ p.simulation_time) (front (before time) us)

  -- The loop ends where nothing is before the time.
  stands-IsCoasted :
      (o : SimulationObject S) (time : ℕ) (c : Container) (us ps : List Event)
      → front (before time) us ≡ []
      → rest (before time) us ≡ us
      → o.simulation_time ≤ time
      → IsCoasted o (record o { container = holding c us ps }) time c us ps
  unfolding replay
  stands-IsCoasted o time c us ps f r h = record {
    same_states = refl;
    same_output = refl;
    same_delivered = refl;
    state_after = rw f refl;
    container_after = rw (f, r) (ap (holding c us) (sym (append-nil ps)));
    later = omega arith;
    in_time = h;
    passed = rw f tt;
  }

  pub after_peek :
      (n time : ℕ) (o : SimulationObject S) {c : Container} {e : Option Event}
      → peek_event (some time) o.container ≡ (c, e)
      → coast_loop handle k id (suc n) time o
        ≡ coast_turn handle k id (coast_loop handle k id n time) o (c, e)
  unfolding coast_loop
  after_peek n time o h = ap (coast_turn handle k id (coast_loop handle k id n time) o) h

  -- One turn of the loop, at the first event `x`.
  abbrev turned : SimulationObject S → Container → Event → SimulationObject S
  turned o c x =
      (execute_process handle k id (record o { container = c; simulation_time = x.receive_time })).0

  -- A turn, and the loop after it, coast together.
  IsCoasted-turn :
      (o m p : SimulationObject S) (time now : ℕ) (c d : Container) (us ps : List Event)
      → IsAfter handle k id
          (record o { container = d; simulation_time = now })
          m
          (front (taken id (some time) now) us)
          (holding c
            (rest (taken id (some time) now) us)
            (ps ++ front (taken id (some time) now) us))
      → o.coast_forward_time ≡ some time
      → o.simulation_time ≤ now
      → IsCoasted m p time c
          (rest (taken id (some time) now) us)
          (ps ++ front (taken id (some time) now) us)
      → IsCoasted o p time c us ps
  IsCoasted-turn o m p time now c d us ps a coasts h b =
      let tk = taken id (some time) now in
      let both = front-twice tk (before time) (taken-before id time now) us in
      record {
        same_states = b.same_states ∙ a.same_states;
        same_output = b.same_output ∙ a.silent time coasts;
        same_delivered = b.same_delivered ∙ a.unsent time coasts;
        state_after =
            b.state_after
            ∙ ap (λ s. replay handle s (front (before time) (rest tk us))) a.state_after
            ∙ sym (replay-append handle o.state (front tk us) (front (before time) (rest tk us)))
            ∙ ap (replay handle o.state) (sym both);
        container_after =
            b.container_after
            ∙ ap (λ l. holding c l ((ps ++ front tk us) ++ front (before time) (rest tk us)))
                (sym (rest-twice tk (before time) (taken-before id time now) us))
            ∙ ap (holding c (rest (before time) us)) (
                append_assoc ps (front tk us) (front (before time) (rest tk us))
                ∙ ap (λ l. ps ++ l) (sym both));
        later = (let same = a.same_time in let more = b.later in omega (arith, same, more, h));
        in_time = b.in_time;
        passed = rw both (
            All-append (λ e. e.receive_time ≤ p.simulation_time) (front tk us)
              (front (before time) (rest tk us))
              (All-map _ _
                (λ e t.
                  (let there = taken-time id (some time) now e t in
                    let same = a.same_time in
                    let more = b.later in omega (arith, there, same, more)))
                (front tk us) (front-All tk us))
              b.passed);
      }

  turned-IsAfter :
      (o : SimulationObject S) (time : ℕ) (c : Container) (x : Event) (us ps : List Event)
      → o.coast_forward_time ≡ some time
      → IsAfter handle k id
          (record o { container = holding c (x ∷ us) ps; simulation_time = x.receive_time })
          (turned o (holding c (x ∷ us) ps) x)
          (front (taken id (some time) x.receive_time) (x ∷ us))
          (holding c
            (rest (taken id (some time) x.receive_time) (x ∷ us))
            (ps ++ front (taken id (some time) x.receive_time) (x ∷ us)))
  turned-IsAfter o time c x us ps co =
      subst
        (λ limit.
          IsAfter handle k id
            (record o { container = holding c (x ∷ us) ps; simulation_time = x.receive_time })
            (turned o (holding c (x ∷ us) ps) x) (front (taken id limit x.receive_time) (x ∷ us))
            (holding c (rest (taken id limit x.receive_time) (x ∷ us))
              (ps ++ front (taken id limit x.receive_time) (x ∷ us))))
        co
        (execute_process-IsAfter
          (record o { container = holding c (x ∷ us) ps; simulation_time = x.receive_time }) c
          (x ∷ us) ps refl)

  rest_shorter :
      (p : Event → Bool) (x : Event) (us : List Event)
      → p x ≡ true
      → length (rest p (x ∷ us)) ≤ length us
  unfolding rest
  rest_shorter p x us h = rw h (length-rest p us)

  -- As many turns as there are events are enough.
  pub coast_loop-IsCoasted :
      (n : ℕ) (o : SimulationObject S) (time : ℕ) (c : Container) (us ps : List Event)
      → length us ≤ n
      → o.container ≡ holding c us ps
      → o.coast_forward_time ≡ some time
      → Sorted receive_order us
      → All (λ e. object_eq e.receiver id ≡ true) us
      → All (λ e. o.simulation_time ≤ e.receive_time) us
      → o.simulation_time ≤ time
      → IsCoasted o (coast_loop handle k id n time o) time c us ps
  unfolding front rest coast_loop within
  coast_loop-IsCoasted zero o time c (x ∷ us) ps h e co s ad le t = absurd (omega (arith, h))
  coast_loop-IsCoasted zero o time c [] ps h e co s ad le t =
      subst (λ d. IsCoasted o (record o { container = d }) time c [] ps) (sym e)
        (stands-IsCoasted o time c [] ps refl refl t)
  coast_loop-IsCoasted (suc n) o time c [] ps h e co s ad le t =
      rw (after_peek n time o (ap (peek_event (some time)) e ∙ peek_event-empty (some time) c ps))
        (stands-IsCoasted o time c [] ps refl refl t)
  coast_loop-IsCoasted (suc n) o time c (x ∷ us) ps h e co s ad le t =
      let peeked = ap (peek_event (some time)) e ∙ peek_event-holding (some time) c x us ps in
      elim (Bool-cases (before time x)) [
        | inr w ↦
            rw (after_peek n time o peeked, w)
              (stands-IsCoasted o time c (x ∷ us) ps (rw w refl) (rw w refl) t)
        | inl w ↦
            let tk = taken id (some time) x.receive_time in
            let m = turned o (holding c (x ∷ us) ps) x in
            let a = turned-IsAfter o time c x us ps co in
            let fewer = rest_shorter tk x us (takes id time x w ad.0) in
            let late : All (λ e. m.simulation_time ≤ e.receive_time) (x ∷ us) =
              subst (λ t. All (λ e. t ≤ e.receive_time) (x ∷ us)) (sym a.same_time)
                (first-lowest x us s) in
            let same : m.simulation_time ≡ x.receive_time = a.same_time in
            rw (after_peek n time o peeked, w)
              (IsCoasted-turn o m _ time x.receive_time c _ (x ∷ us) ps a co le.0 (
                coast_loop-IsCoasted n m time c (rest tk (x ∷ us)) (ps ++ front tk (x ∷ us))
                  (omega (arith, fewer, h)) a.container_after (a.same_coast ∙ co)
                  (Sorted-rest tk (x ∷ us) s) (All-rest _ tk (x ∷ us) ad)
                  (All-rest _ tk (x ∷ us) late) (ground (arith, same, w))))
      ]
