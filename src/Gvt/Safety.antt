-- ===== src/Gvt/Safety.antt =====
-- The invariant of the managers with their events and messages in flight, and what a count of zero
-- tells the initiator.
use mathlib.Core.Option.{some-injective}
use pdes.Base.Int.{ℤ, pos, pos_part, neg_part, ◌+ℤ◌, sum_first, sum_zeros, int_laws, parts_of_eq}
use pdes.Base.Maps.{update-All}
use pdes.Base.{
  ℕ, suc, ◌+◌, ◌≤◌, ◌<◌, ◌≡◌, ◌≢◌, refl, sym, ◌∙◌, subst, inl, inr, true, List, [], ◌∷◌, ◌++◌,
  Option, none, some, arith, update, get_elem?, erase_at, ◌==◌, Bool-cases, All, All-append,
  All-erase_at, All-get_elem?,
}
use pdes.Gvt.Balance.{carried-erase_at, count_of, receive-Conserves, calculate-Conserves, Conserves}
use pdes.Gvt.Conservation.{place-IsBalanced, sender-IsBalanced, receiver-IsBalanced}
use pdes.Gvt.Round.{
  tokens, tokens_in, tokens-append, tokens-erase_at, expected, IsQuiet, Addressed, Keeps, KeepsIf,
  receive-Keeps, calculate-Keeps, StaysIn, info-StaysIn, record-StaysIn,
}
use pdes.Gvt.System.{
  System, build, place_sender, place_reaction, send_event, receive_event, start, receiver_of,
  deliver, Happens, sends, receives, starts, delivers, carried, white_events, whites_of, IsBalanced,
}
use pdes.Gvt.{
  GvtTokenColor, red, GvtManager, GvtMessage, token, update_to, Reaction, get_gvt_info,
  update_event_record, calculate_gvt, receive_kernel_message, concludes,
}

-- The managers have their numbers, every message has a receiver, the tokens in flight are those
-- that the initiator waits for, red managers count no white event as sent, and the counts add up to the
-- white events in flight.
pub record IsSound (count : ℕ) (s : System) : Type 0 where
  pub numbered : (i : ℕ) → (s.managers i).id ≡ i
  pub quiet : (i : ℕ) → IsQuiet (s.managers i)
  pub addressed : All (Addressed count) s.network
  pub on_the_way : tokens s.network ≡ expected (s.managers 0)
  pub balanced : IsBalanced count s

-- A manager is replaced by one that waits for the same token.
same_expected :
    (f : ℕ → GvtManager) (i : ℕ) (n : GvtManager)
    → expected n ≡ expected (f i)
    → expected (update f i n 0) ≡ expected (f 0)
same_expected f i n h = elim (Bool-cases (0 == i)) [
  | inl e ↦
      let z : 0 ≡ i = ground arith in rw e (subst (λ j. expected n ≡ expected (f j)) (sym z) h)
  | inr e ↦ rw e refl
]

stays :
    (count : ℕ) (s : System) (i : ℕ) (n : GvtManager) (events : List GvtTokenColor)
    → IsSound count s
    → StaysIn (s.managers i) n
    → IsBalanced count (record s { managers = update s.managers i n; events = events })
    → IsSound count (record s { managers = update s.managers i n; events = events })
stays count s i n events v k b = record {
  numbered =
      update-All (λ j (m : GvtManager). m.id ≡ j) s.managers i n v.numbered
        (k.same_id ∙ v.numbered i);
  quiet = update-All (λ j m. IsQuiet m) s.managers i n v.quiet k.quiet;
  addressed = v.addressed;
  on_the_way = v.on_the_way ∙ sym (same_expected s.managers i n k.still);
  balanced = b;
}

-- The initiator, or a manager that waits for nothing, reacts to a message.
expected_after :
    (f : ℕ → GvtManager) (i k taken sent : ℕ) (n : GvtManager)
    → ((f i).id ≢ 0 → expected n ≡ expected (f i))
    → (f i).id ≡ i
    → sent + expected (f i) ≡ taken + expected n
    → taken + k ≡ expected (f 0)
    → k + sent ≡ expected (update f i n 0)
expected_after f i k taken sent n still number moved before = elim (Bool-cases (0 == i)) [
  | inl e ↦
      let z : 0 ≡ i = ground arith in
      let here : taken + k ≡ expected (f i) = subst (λ j. taken + k ≡ expected (f j)) z before in
      rw e (omega (arith, here, moved))
  | inr e ↦
      let away : (f i).id ≢ 0 = λ p. (ground (arith, number, p)) in
      rw e (omega (arith, still away, moved, before))
]

abbrev after : System → ℕ → List GvtMessage → Reaction → System
after s i others r = record s {
  managers = update s.managers i r.manager;
  network = others ++ r.sent;
}

reacts :
    (count : ℕ) (s : System) (i k : ℕ) (others : List GvtMessage) (r : Reaction)
    → IsSound count s
    → Keeps count (s.managers i) k r
    → All (Addressed count) others
    → k + tokens others ≡ tokens s.network
    → IsBalanced count (after s i others r)
    → IsSound count (after s i others r)
reacts count s i k others r v keeps to gone b = record {
  numbered =
      update-All (λ j (m : GvtManager). m.id ≡ j) s.managers i r.manager v.numbered
        (keeps.same_id ∙ v.numbered i);
  quiet = update-All (λ j m. IsQuiet m) s.managers i r.manager v.quiet keeps.quiet;
  addressed = All-append (Addressed count) others r.sent to keeps.addressed;
  on_the_way =
      tokens-append others r.sent
      ∙ expected_after s.managers i (tokens others) k (tokens r.sent) r.manager keeps.still
          (v.numbered i) keeps.on_the_way (gone ∙ v.on_the_way);
  balanced = b;
}

reaction-IsSound :
    (count : ℕ) (s : System) (i k : ℕ) (c : ℤ) (others : List GvtMessage) (o : Option Reaction)
    (t : System)
    → IsSound count s
    → i < count
    → KeepsIf count (s.managers i) k o
    → Conserves (s.managers i) c o
    → All (Addressed count) others
    → k + tokens others ≡ tokens s.network
    → c +ℤ carried others ≡ carried s.network
    → place_reaction s i others o ≡ some t
    → IsSound count t
reaction-IsSound count s i k c others none t v lt keeps saved to gone e h = cc
reaction-IsSound count s i k c others (some r) t v lt keeps saved to gone e h =
    subst (IsSound count) (some-injective _ _ h) (
      reacts count s i k others r v keeps to gone (
        place-IsBalanced count s i others c (some r) (after s i others r) lt e saved v.balanced
          refl))

sender-IsSound :
    (count : ℕ) (s : System) (i time : ℕ) (o : Option GvtManager) (t : System)
    → IsSound count s
    → i < count
    → (get_gvt_info (s.managers i) time).1 ≡ o
    → send_event s i time ≡ some t
    → place_sender s i ((get_gvt_info (s.managers i) time).0, o) ≡ some t
    → IsSound count t
sender-IsSound count s i time none t v lt g h p = cc
sender-IsSound count s i time (some m) t v lt g h p = subst (IsSound count) (some-injective _ _ p) (
    stays count s i m _ v (info-StaysIn (s.managers i) m time (v.quiet i) g) (
      subst (IsBalanced count) (sym (some-injective _ _ p))
        (sender-IsBalanced count s i time t lt v.balanced h)))

token_owed :
    (count : ℕ) (s : System) (k : ℕ) (msg : GvtMessage) (i : ℕ)
    → IsSound count s
    → get_elem? s.network k ≡ some msg
    → (s.managers i).id ≡ 0
    → tokens_in msg ≤ expected (s.managers i)
token_owed count s k msg i v e z =
    let here : i ≡ 0 = sym (v.numbered i) ∙ z in
    let found = tokens-erase_at k s.network msg e in rw here (omega (arith, found, v.on_the_way))

-- Whatever happens keeps the invariant: of events that are sent and received, of an estimation that
-- starts, and of tokens and updates that arrive, in any order.
pub Happens-IsSound :
    (count infinity : ℕ) (s t : System) {o : Option System}
    → 0 < count
    → IsSound count s
    → Happens count infinity s o
    → o ≡ some t
    → IsSound count t
unfolding send_event receive_event start deliver
Happens-IsSound count infinity s t pos_count v (sends i time lt) h =
    sender-IsSound count s i time (get_gvt_info (s.managers i) time).1 t v lt refl h h
Happens-IsSound count infinity s t pos_count v (receives i k c lt e) h =
    subst (IsSound count) (some-injective _ _ h) (
      stays count s i (update_event_record (s.managers i) c) (erase_at k s.events) v
        (record-StaysIn (s.managers i) c (v.quiet i))
        (subst (IsBalanced count) (sym (some-injective _ _ h))
          (receiver-IsBalanced count s i k c t lt e v.balanced h)))
Happens-IsSound count infinity s t pos_count v (starts last) h =
    reaction-IsSound count s 0 0 (pos 0) s.network
      (calculate_gvt count infinity last (s.managers 0)) t v pos_count
      (calculate-Keeps count infinity last (s.managers 0) (rw v.numbered pos_count) (v.quiet 0))
      (calculate-Conserves count infinity last (s.managers 0)) v.addressed (omega arith)
      (omega int_laws) h
Happens-IsSound count infinity s t pos_count v (delivers last k msg e) h =
    let i = receiver_of msg in
    let lt = All-get_elem? (Addressed count) k s.network e v.addressed in
    reaction-IsSound count s i (tokens_in msg) (count_of msg) (erase_at k s.network)
      (receive_kernel_message count infinity last (s.managers i) msg) t v lt
      (receive-Keeps count infinity last (s.managers i) msg (rw v.numbered lt)
        (token_owed count s k msg i v e))
      (receive-Conserves count infinity last (s.managers i) msg)
      (All-erase_at (Addressed count) k s.network v.addressed) (tokens-erase_at k s.network msg e)
      (carried-erase_at k s.network msg e) h

pub build-IsSound : (count zero_time : ℕ) → IsSound count (build zero_time)
unfolding build tokens carried white_events
build-IsSound count zero_time = record {
  numbered = λ i. refl;
  quiet = λ i q. refl;
  addressed = tt;
  on_the_way = refl;
  balanced = let zeros = parts_of_eq _ _ (sum_zeros count) in omega (int_laws, zeros);
}

-- Without a token in flight nothing is carried.
carried_no_token : (ms : List GvtMessage) → tokens ms ≡ 0 → carried ms ≡ pos 0
unfolding tokens carried
carried_no_token [] h = refl
carried_no_token (token d low minimum c ∷ ms) h = absurd (omega arith)
carried_no_token (update_to d new ∷ ms) h = carried_no_token ms h

concludes-zero :
    (m : GvtManager) (c : ℤ)
    → concludes m c ≡ true
    → pos_part (m.whites +ℤ c) ≡ neg_part (m.whites +ℤ c)
unfolding concludes
concludes-zero m c h = ground arith

expected-le : (m : GvtManager) → expected m ≤ 1
expected-le m = ground arith

-- When the initiator finds a count of zero in its token, with every other manager red, then no
-- white event is in flight.
pub no_white_event :
    (count : ℕ) (s : System) (k low minimum : ℕ) (in_transit : ℤ)
    → IsSound (suc count) s
    → get_elem? s.network k ≡ some (token 0 low minimum in_transit)
    → concludes (s.managers 0) in_transit ≡ true
    → ((i : ℕ) → 1 ≤ i → i < suc count → (s.managers i).color ≡ red)
    → white_events s.events ≡ 0
no_white_event count s k low minimum in_transit v e h reds =
    let gone = tokens-erase_at k s.network _ e in
    let none_left : tokens (erase_at k s.network) ≡ 0 =
      omega (arith, gone, v.on_the_way, expected-le (s.managers 0)) in
    let rest = parts_of_eq _ _ (carried_no_token (erase_at k s.network) none_left) in
    let all = parts_of_eq _ _ (carried-erase_at k s.network _ e) in
    let first = sum_first count (whites_of s) (λ i le lt. v.quiet i (reds i le lt)) in
    let zero_count = concludes-zero (s.managers 0) in_transit h in
    let balance = parts_of_eq _ _ v.balanced in
    omega (int_laws, rest, all, first, zero_count, balance)
