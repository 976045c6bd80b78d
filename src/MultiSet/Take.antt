-- ===== src/MultiSet/Take.antt =====
-- Events are handed out lowest first.
use pdes.Base.Sorting.{Le, Le_refl, Sorted}
use pdes.Base.{
  ℕ, zero, suc, ◌+◌, ◌-◌, ◌<◌, ◌≡◌, ◌≢◌, refl, sym, ap, ◌∙◌, subst, ◌⊎◌, inl, inr, List, [], ◌∷◌,
  ◌++◌, Option, none, some, arith, All, All-map, Option-cases, List-cases, length, get_elem?, head?,
  if◌then◌else◌, wrap32,
}
use pdes.MultiSet.Lowest.{find_node, IsIndex, head-Le}
use pdes.Base.Maps.{update_self}
use pdes.MultiSet.Valid.{IsQueue, IsValid, put-IsValid, set_low-IsValid, set_low_self, set_low_ne}
use pdes.MultiSet.{
  ObjectQueue, TimeWarpMultiSet, get_event, get_first, take_event, put, set_low, peek_event,
  peek_lowest, node_event, peek_event_before, get_event_before, only_before,
}
use pdes.Event.Order.{receive_order}
use pdes.Event.{Event, event_eq}

inside : (xs : List Event) (k : ℕ) → k < length xs → (x : Event) × (get_elem? xs k ≡ some x)
inside [] k h = absurd (omega arith)
inside (x ∷ xs) zero h = (x, refl)
inside (x ∷ xs) (suc k) h = inside xs k (omega arith)

taken : ObjectQueue → Event → List Event → Event → ObjectQueue
taken q e es x = record q {
  unprocessed = es;
  insert_pos = if event_eq e x then 0 else q.insert_pos - 1;
  processed = q.processed ++ e ∷ [];
}

taken-IsQueue :
    (q : ObjectQueue) (e : Event) (es : List Event) (x : Event)
    → q.unprocessed ≡ e ∷ es
    → IsQueue q
    → IsQueue (taken q e es x)
unfolding taken
taken-IsQueue q e es x h g = record {
  in_order = (subst (Sorted receive_order) h g.in_order).1;
  cursor = ground (arith, ap length h, g.cursor);
}

-- The counter is no part of the invariant.
counted : TimeWarpMultiSet → TimeWarpMultiSet
counted m = record m { executed = wrap32 (m.executed + 1) }

counted-IsValid : (m : TimeWarpMultiSet) → IsValid m → IsValid (counted m)
unfolding counted
counted-IsValid m v = record { queue = v.queue; low = v.low; found = v.found; index = v.index }

-- What `get_event` must do at an object whose queue is not empty.
pub record Takes (m n : TimeWarpMultiSet) (i : ℕ) (e : Event) : Type 0 where
  pub first : (m.queues i).unprocessed ≡ e ∷ (n.queues i).unprocessed
  pub logged : (n.queues i).processed ≡ (m.queues i).processed ++ e ∷ []
  pub same_removed : (n.queues i).removed ≡ (m.queues i).removed
  pub others : (j : ℕ) → j ≢ i → n.queues j ≡ m.queues j
  pub counted : n.executed ≡ wrap32 (m.executed + 1)

taken_result : TimeWarpMultiSet → ℕ → Event → List Event → Event → TimeWarpMultiSet
unfolding counted taken
taken_result m i e es x = set_low (counted m) i (taken (m.queues i) e es x) (head? es)

taken_result-executed :
    (m : TimeWarpMultiSet) (i : ℕ) (q : ObjectQueue) (o : Option Event)
    → (set_low m i q o).executed ≡ m.executed
unfolding set_low
taken_result-executed m i q none = refl
taken_result-executed m i q (some e) = refl

taken_result-Takes :
    (m : TimeWarpMultiSet) (i : ℕ) (e : Event) (es : List Event) (x : Event)
    → (m.queues i).unprocessed ≡ e ∷ es
    → Takes m (taken_result m i e es x) i e
unfolding taken_result
taken_result-Takes m i e es x h =
    let self : (taken_result m i e es x).queues i
        ≡ record (taken (m.queues i) e es x) { low_pos = head? es } =
      set_low_self (counted m) i (taken (m.queues i) e es x) (head? es) in
    record {
      first = h ∙ ap (λ (r : ObjectQueue). e ∷ r.unprocessed) (sym self);
      logged = ap (λ (r : ObjectQueue). r.processed) self;
      same_removed = ap (λ (r : ObjectQueue). r.removed) self;
      others = λ j ne. set_low_ne (counted m) i j (taken (m.queues i) e es x) (head? es) ne;
      counted = taken_result-executed (counted m) i (taken (m.queues i) e es x) (head? es);
    }

taken_result-IsValid :
    (m : TimeWarpMultiSet) (i : ℕ) (e : Event) (es : List Event) (x : Event)
    → (m.queues i).unprocessed ≡ e ∷ es
    → IsValid m
    → IsValid (taken_result m i e es x)
unfolding taken_result
taken_result-IsValid m i e es x h v =
    set_low-IsValid (counted-IsValid m v) i (taken (m.queues i) e es x)
      (taken-IsQueue (m.queues i) e es x h (v.queue i)) (head? es) refl refl

get_event_empty :
    (m : TimeWarpMultiSet) (i : ℕ)
    → (m.queues i).unprocessed ≡ []
    → get_event m i ≡ some (put m i (record (m.queues i) { insert_pos = 0 }), none)
unfolding get_event
get_event_empty m i h = ground arith

get_event_full :
    (m : TimeWarpMultiSet) (i : ℕ) (e : Event) (es : List Event) (x : Event)
    → (m.queues i).unprocessed ≡ e ∷ es
    → get_elem? (m.queues i).unprocessed (m.queues i).insert_pos ≡ some x
    → get_event m i ≡ some (taken_result m i e es x, some e)
unfolding get_event take_event taken_result
get_event_full m i e es x h g = λ t. get_first m i (h t) (g t)

rewound : TimeWarpMultiSet → ℕ → ObjectQueue
rewound m i = record (m.queues i) { insert_pos = 0 }

rewound-IsValid :
    (m : TimeWarpMultiSet) (i : ℕ)
    → (m.queues i).unprocessed ≡ []
    → IsValid m
    → IsValid (put m i (rewound m i))
unfolding rewound
rewound-IsValid m i h v =
    put-IsValid v i (rewound m i) (record { in_order = (v.queue i).in_order; cursor = omega arith })
      (v.low i) refl

cursor_reads :
    (m : TimeWarpMultiSet) (i : ℕ) (e : Event) (es : List Event)
    → (m.queues i).unprocessed ≡ e ∷ es
    → IsQueue (m.queues i)
    → (x : Event) × (get_elem? (m.queues i).unprocessed (m.queues i).insert_pos ≡ some x)
cursor_reads m i e es h g =
    inside (m.queues i).unprocessed (m.queues i).insert_pos (omega (arith, ap length h, g.cursor))

first_least :
    (xs : List Event) (e : Event)
    → Sorted receive_order xs
    → head? xs ≡ some e
    → All (Le receive_order e) xs
first_least [] e s h = tt
first_least (x ∷ xs) e s h =
    let same : x ≡ e = cc in
    subst (λ y. All (Le receive_order y) (x ∷ xs)) same (Le_refl receive_order x, s.0)

-- What is not after the first is not after any, in a list in order.
All-after :
    (xs : List Event) (e : Event)
    → Sorted receive_order xs
    → ((x : Event) → head? xs ≡ some x → Le receive_order e x)
    → All (Le receive_order e) xs
All-after [] e s h = tt
All-after (x ∷ xs) e s h = (
  h x refl,
  All-map (Le receive_order x) (Le receive_order e)
      (λ y k. receive_order.le_trans e x y (h x refl) k) xs s.0,
)

no_head : (xs : List Event) → head? xs ≡ none → xs ≡ []
no_head [] h = refl
no_head (x ∷ xs) h = cc

find_nil : (j : ℕ) → find_node j [] ≡ none
unfolding find_node
find_nil j = refl

find_self : (i : ℕ) (e : Event) (nodes : List (ℕ × Event)) → find_node i ((i, e) ∷ nodes) ≡ some e
unfolding find_node
find_self i e nodes = ground arith

-- On a valid set `get_event` never reads through `end()`, and keeps the set valid. It hands out the
-- first event of the object's queue and logs it as processed, with the queues of all other objects
-- as they were; at an object with no unprocessed event it hands out none.
pub get_event_lem :
    (m : TimeWarpMultiSet) (i : ℕ)
    → IsValid m
    → (n : TimeWarpMultiSet) × (o : Option Event) × (get_event m i ≡ some (n, o))
      × IsValid n
      × (o ≡ peek_event m i)
      × (((o ≡ none) × ((m.queues i).unprocessed ≡ []) × ((n.queues i).unprocessed ≡ []))
          ⊎ ((e : Event) × (o ≡ some e) × Takes m n i e))
unfolding peek_event
get_event_lem m i v = elim (List-cases (m.queues i).unprocessed) [
  | inl h ↦
      let self : (put m i (rewound m i)).queues i ≡ rewound m i =
        update_self m.queues i (rewound m i) in
      (
        put m i (rewound m i),
        none,
        unfold rewound in get_event_empty m i h,
        rewound-IsValid m i h v,
        ap head? (sym h),
        inl (refl, h, ap (λ (r : ObjectQueue). r.unprocessed) self ∙ unfold rewound in h),
      )
  | inr (e, es, h) ↦
      let (x, g) = cursor_reads m i e es h (v.queue i) in
      (
        taken_result m i e es x,
        some e,
        get_event_full m i e es x h g,
        taken_result-IsValid m i e es x h v,
        ap head? (sym h),
        inr (e, refl, taken_result-Takes m i e es x h),
      )
]

-- The event that is handed out is not after any unprocessed event of its object.
pub peek_event_least :
    (m : TimeWarpMultiSet) (i : ℕ) (e : Event)
    → IsValid m
    → peek_event m i ≡ some e
    → All (Le receive_order e) (m.queues i).unprocessed
unfolding peek_event
peek_event_least m i e v h = first_least (m.queues i).unprocessed e (v.queue i).in_order h

-- With no object given, the peek finds an event that is not after any unprocessed event of any
-- object, and finds none only if no object has an unprocessed event.
pub peek_lowest_lem :
    (m : TimeWarpMultiSet)
    → IsValid m
    → ((peek_lowest m ≡ none) × ((j : ℕ) → (m.queues j).unprocessed ≡ []))
      ⊎ ((e : Event) × (i : ℕ) × (peek_lowest m ≡ some e)
          × (peek_event m i ≡ some e)
          × ((j : ℕ) → All (Le receive_order e) (m.queues j).unprocessed))
unfolding peek_lowest peek_event
peek_lowest_lem m v = elim (List-cases m.lowest) [
  | inl h ↦ inl (ap (λ ns. node_event (head? ns)) h, λ j. no_head _ (none_low j h))
  | inr ((i, e), nodes, h) ↦
      inr (e, i, ap (λ ns. node_event (head? ns)) h, own i e nodes h, λ j. below_all j i e nodes h)
]
  where
    low_is_first : (j : ℕ) → find_node j m.lowest ≡ head? (m.queues j).unprocessed
    low_is_first j = v.found j ∙ v.low j

    none_low : (j : ℕ) → m.lowest ≡ [] → head? (m.queues j).unprocessed ≡ none
    none_low j h = sym (low_is_first j) ∙ (ap (find_node j) h ∙ find_nil j)

    own :
        (i : ℕ) (e : Event) (nodes : List (ℕ × Event))
        → m.lowest ≡ (i, e) ∷ nodes
        → head? (m.queues i).unprocessed ≡ some e
    own i e nodes h = sym (low_is_first i) ∙ (ap (find_node i) h ∙ find_self i e nodes)

    below_all :
        (j i : ℕ) (e : Event) (nodes : List (ℕ × Event))
        → m.lowest ≡ (i, e) ∷ nodes
        → All (Le receive_order e) (m.queues j).unprocessed
    below_all j i e nodes h = All-after (m.queues j).unprocessed e (v.queue j).in_order (λ x t.
        head-Le i j e x nodes (subst IsIndex h v.index)
          (ap (find_node j) (sym h) ∙ (low_is_first j ∙ t)))

before_none :
    (m : TimeWarpMultiSet) (i time : ℕ)
    → peek_event_before m i time ≡ none
    → get_event_before m i time ≡ some (m, none)
unfolding get_event_before
before_none m i time h = ground arith

before_some :
    (m : TimeWarpMultiSet) (i time : ℕ) (e : Event)
    → peek_event_before m i time ≡ some e
    → get_event_before m i time ≡ get_event m i
unfolding get_event_before
before_some m i time e h = ground arith

only_before-some :
    (o : Option Event) (time : ℕ) (e : Event)
    → only_before time o ≡ some e
    → (o ≡ some e) × (e.receive_time < time)
only_before-some none time e h = cc
only_before-some (some x) time e h = (ground arith, ground arith)

-- With a time given, an event is handed out only if it is before the time, and is then the one that
-- the peek with the same time shows: the assertion of the source holds.
pub get_event_before_lem :
    (m : TimeWarpMultiSet) (i time : ℕ)
    → IsValid m
    → (n : TimeWarpMultiSet) × (o : Option Event) × (get_event_before m i time ≡ some (n, o))
      × IsValid n
      × (o ≡ peek_event_before m i time)
      × ((o ≡ none) ⊎ ((e : Event) × (o ≡ some e) × (e.receive_time < time)))
get_event_before_lem m i time v = elim (Option-cases (peek_event_before m i time)) [
  | inl h ↦ (m, none, before_none m i time h, v, sym h, inl refl)
  | inr (e, h) ↦
      let (n, o, result, valid, same, _) = get_event_lem m i v in
      let (shown, early) =
        only_before-some (peek_event m i) time e (unfold peek_event_before in h) in
      (
        n,
        o,
        before_some m i time e h ∙ result,
        valid,
        same ∙ (shown ∙ sym h),
        inr (e, same ∙ shown, early),
      )
]
