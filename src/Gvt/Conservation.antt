-- ===== src/Gvt/Conservation.antt =====
-- Every step keeps the balance of the white events.
use mathlib.Core.Option.{some-injective}
use pdes.Base.Int.{ℤ, pos, ◌+ℤ◌, sum_measure, parts_of_eq, int_laws}
use pdes.Base.{
  ℕ, zero, suc, ◌+◌, ◌<◌, ◌≡◌, refl, sym, ap, subst, inl, inr, List, [], ◌∷◌, ◌++◌, Option, none,
  some, arith, get_elem?, erase_at, ltb, Bool-cases,
}
use pdes.Gvt.Balance.{carried-append, Conserves}
use pdes.Gvt.System.{
  System, place_sender, place_reaction, send_event, receive_event, carried, white_events,
  IsBalanced,
}
use pdes.Gvt.{
  GvtTokenColor, white, red, GvtManager, GvtMessage, Reaction, get_gvt_info, set_min_time_stamp,
  update_event_record, note_sent, lower_to,
}

pub place-IsBalanced :
    (count : ℕ) (s : System) (i : ℕ) (others : List GvtMessage) (c : ℤ) (o : Option Reaction)
    (t : System)
    → i < count
    → c +ℤ carried others ≡ carried s.network
    → Conserves (s.managers i) c o
    → IsBalanced count s
    → place_reaction s i others o ≡ some t
    → IsBalanced count t
place-IsBalanced count s i others c none t lt e k b h = cc
place-IsBalanced count s i others c (some r) t lt e k b h =
    subst (IsBalanced count) (some-injective _ _ h) (
      let moved =
        parts_of_eq _ _
          (sum_measure (λ (x : GvtManager). x.whites) count i s.managers r.manager lt) in
      let joined = parts_of_eq _ _ (carried-append others r.sent) in
      let messages = parts_of_eq _ _ e in
      let kept = parts_of_eq _ _ k in
      let before = parts_of_eq _ _ b in omega (int_laws, moved, joined, messages, kept, before))

white_events-snoc :
    (cs : List GvtTokenColor) (c : GvtTokenColor)
    → white_events (cs ++ c ∷ []) ≡ white_events (c ∷ []) + white_events cs
unfolding white_events
white_events-snoc [] c = omega arith
white_events-snoc (white ∷ cs) c = omega (arith, white_events-snoc cs c)
white_events-snoc (red ∷ cs) c = white_events-snoc cs c

white_events-cons :
    (c : GvtTokenColor) (cs : List GvtTokenColor)
    → white_events (c ∷ cs) ≡ white_events (c ∷ []) + white_events cs
unfolding white_events
white_events-cons white cs = omega arith
white_events-cons red cs = omega arith

white_events-erase_at :
    (k : ℕ) (cs : List GvtTokenColor) (c : GvtTokenColor)
    → get_elem? cs k ≡ some c
    → white_events (c ∷ []) + white_events (erase_at k cs) ≡ white_events cs
white_events-erase_at k [] c h = cc
white_events-erase_at zero (d ∷ cs) c h =
    subst (λ x. white_events (x ∷ []) + white_events cs ≡ white_events (d ∷ cs))
      (some-injective _ _ h) (sym (white_events-cons d cs))
white_events-erase_at (suc k) (d ∷ cs) c h =
    let kept = white_events-erase_at k cs c h in
    omega (arith, kept, white_events-cons d cs, white_events-cons d (erase_at k cs))

-- A white event that is sent is counted, and a red one is not.
info_counts :
    (m n : GvtManager) (time : ℕ)
    → (get_gvt_info m time).1 ≡ some n
    → n.whites ≡ m.whites +ℤ pos (white_events (m.color ∷ []))
unfolding get_gvt_info set_min_time_stamp white_events
info_counts m n time h = go m.color h
  where
    red_case : (o : Option ℕ) → lower_to m time o ≡ some n → n.whites ≡ m.whites +ℤ pos 0
    red_case none e = cc
    red_case (some t) e = elim (Bool-cases (ltb time t)) [
      | inl b ↦
          subst (λ (x : GvtManager). x.whites ≡ m.whites +ℤ pos 0) (some-injective _ _ (rw b at e))
            (omega int_laws)
      | inr b ↦
          subst (λ (x : GvtManager). x.whites ≡ m.whites +ℤ pos 0) (some-injective _ _ (rw b at e))
            (omega int_laws)
    ]

    go :
        (c : GvtTokenColor)
        → note_sent c m time ≡ some n
        → n.whites ≡ m.whites +ℤ pos (white_events (c ∷ []))
    go white e = ap (λ (x : GvtManager). x.whites) (sym (some-injective _ _ e))
    go red e = red_case m.t_min e

record_counts :
    (m : GvtManager) (c : GvtTokenColor)
    → (update_event_record m c).whites +ℤ pos (white_events (c ∷ [])) ≡ m.whites
unfolding update_event_record white_events
record_counts m white = omega int_laws
record_counts m red = omega int_laws

pub sender-IsBalanced :
    (count : ℕ) (s : System) (i time : ℕ) (t : System)
    → i < count
    → IsBalanced count s
    → send_event s i time ≡ some t
    → IsBalanced count t
unfolding send_event get_gvt_info
sender-IsBalanced count s i time t lt b h = go (get_gvt_info (s.managers i) time).1 refl h
  where
    colour : GvtTokenColor
    colour = (s.managers i).color

    go :
        (o : Option GvtManager)
        → (get_gvt_info (s.managers i) time).1 ≡ o
        → place_sender s i (colour, o) ≡ some t
        → IsBalanced count t
    go none e h = cc
    go (some m) e h = subst (IsBalanced count) (some-injective _ _ h) (
        let moved =
          parts_of_eq _ _ (sum_measure (λ (x : GvtManager). x.whites) count i s.managers m lt) in
        let counted = parts_of_eq _ _ (info_counts (s.managers i) m time e) in
        let more = white_events-snoc s.events colour in
        let before = parts_of_eq _ _ b in omega (int_laws, moved, counted, more, before))

pub receiver-IsBalanced :
    (count : ℕ) (s : System) (i k : ℕ) (c : GvtTokenColor) (t : System)
    → i < count
    → get_elem? s.events k ≡ some c
    → IsBalanced count s
    → receive_event s i k c ≡ some t
    → IsBalanced count t
unfolding receive_event
receiver-IsBalanced count s i k c t lt e b h = subst (IsBalanced count) (some-injective _ _ h) (
    let moved = parts_of_eq _ _ (
      sum_measure (λ (x : GvtManager). x.whites) count i s.managers
        (update_event_record (s.managers i) c) lt) in
    let counted = parts_of_eq _ _ (record_counts (s.managers i) c) in
    let gone = white_events-erase_at k s.events c e in
    let before = parts_of_eq _ _ b in omega (int_laws, moved, counted, gone, before))
