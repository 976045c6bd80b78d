-- ===== src/Gvt/Round.antt =====
-- What one manager does to the round of the token: who it tells, whether the token goes on, and
-- that a red manager counts no white event as sent.
use mathlib.Core.Option.{some-injective}
use pdes.Base.Int.{ℤ, pos_part, decrement_nonpos}
use pdes.Base.{
  ℕ, zero, suc, ◌+◌, ◌≤◌, ◌<◌, ◌≡◌, ◌≢◌, refl, sym, get_elem?, erase_at, subst, inl, inr, Bool,
  true, false, not, List, [], ◌∷◌, ◌++◌, Option, none, some, arith, ltb, leb, ◌==◌, if◌then◌else◌,
  Bool-cases, All, All-append,
}
use pdes.Gvt.System.{receiver_of}
use pdes.Gvt.{
  GvtTokenColor, white, red, GvtManager, GvtMessage, token, update_to, Reaction, get_gvt_info,
  update_event_record, calculate_gvt, receive_kernel_message, handle_token, handle_update, conclude,
  concludes, pass_token, send_gvt_token, send_gvt_update, turn_red, min_func, destination_of,
  note_sent, lower_to, set_min_time_stamp,
}

-- The number of tokens among messages.
unfoldable pub tokens : List GvtMessage → ℕ
tokens [] = 0
tokens (token d low minimum in_transit ∷ ms) = suc (tokens ms)
tokens (update_to d new ∷ ms) = tokens ms

abbrev pub tokens_in : GvtMessage → ℕ
tokens_in (token d low minimum c) = 1
tokens_in (update_to d new) = 0

pub tokens-append : (ms ns : List GvtMessage) → tokens (ms ++ ns) ≡ tokens ms + tokens ns
unfolding tokens
tokens-append [] ns = omega arith
tokens-append (token d low minimum c ∷ ms) ns = omega (arith, tokens-append ms ns)
tokens-append (update_to d new ∷ ms) ns = tokens-append ms ns

tokens-cons :
    (msg : GvtMessage) (ms : List GvtMessage) → tokens (msg ∷ ms) ≡ tokens_in msg + tokens ms
unfolding tokens
tokens-cons (token d low minimum c) ms = omega arith
tokens-cons (update_to d new) ms = omega arith

pub tokens-erase_at :
    (k : ℕ) (ms : List GvtMessage) (msg : GvtMessage)
    → get_elem? ms k ≡ some msg
    → tokens_in msg + tokens (erase_at k ms) ≡ tokens ms
tokens-erase_at k [] msg h = cc
tokens-erase_at zero (x ∷ ms) msg h =
    subst (λ y. tokens_in y + tokens ms ≡ tokens (x ∷ ms)) (some-injective _ _ h)
      (sym (tokens-cons x ms))
tokens-erase_at (suc k) (x ∷ ms) msg h =
    omega (arith, tokens-erase_at k ms msg h, tokens-cons x ms, tokens-cons x (erase_at k ms))

-- The tokens that the initiator has on the way.
abbrev count_tokens : Bool → ℕ
count_tokens true = 1
count_tokens false = 0

abbrev pub expected : GvtManager → ℕ
expected m = count_tokens m.pending

-- A red manager has sent no white event that its count still holds.
abbrev pub IsQuiet : GvtManager → Type 0
IsQuiet m = m.color ≡ red → pos_part m.whites ≡ 0

abbrev pub Addressed : ℕ → GvtMessage → Type 0
Addressed count msg = receiver_of msg < count

-- What a manager that takes `k` tokens keeps.
pub record Keeps (count : ℕ) (m : GvtManager) (k : ℕ) (r : Reaction) : Type 0 where
  pub same_id : r.manager.id ≡ m.id
  pub addressed : All (Addressed count) r.sent
  pub on_the_way : tokens r.sent + expected m ≡ k + expected r.manager
  pub still : m.id ≢ 0 → expected r.manager ≡ expected m
  pub quiet : IsQuiet r.manager

abbrev pub KeepsIf : ℕ → GvtManager → ℕ → Option Reaction → Type 0
KeepsIf count m k none = Unit
KeepsIf count m k (some r) = Keeps count m k r

destination-lt : (count id : ℕ) → id < count → destination_of count id < count
unfolding destination_of
destination-lt count id h = ground arith

tokens_one : (d low minimum : ℕ) (c : ℤ) → tokens (token d low minimum c ∷ []) ≡ 1
unfolding tokens
tokens_one d low minimum c = refl

pub pass-Keeps :
    (count last low minimum : ℕ) (m : GvtManager) (c : ℤ) (t : Option ℕ)
    → m.id < count
    → KeepsIf count m 1 (pass_token count m last low minimum c t)
unfolding send_gvt_token tokens
pass-Keeps count last low minimum m c none h = tt
pass-Keeps count last low minimum m c (some t) h = record {
  same_id = refl;
  addressed = (destination-lt count m.id h, tt);
  on_the_way = refl;
  still = λ _. refl;
  quiet = λ _. refl;
}

abbrev update_for : ℕ → GvtManager → List GvtMessage
update_for n m = if not (m.id == n) then update_to n m.gvt ∷ [] else []

-- Each update goes to a manager of the simulation, and is no token.
send-update :
    (n count : ℕ) (m : GvtManager)
    → n ≤ count
    → All (Addressed count) (send_gvt_update n m) × (tokens (send_gvt_update n m) ≡ 0)
unfolding send_gvt_update tokens
send-update zero count m h = (tt, refl)
send-update (suc n) count m h =
    let (told, none_sent) = send-update n count m (omega arith) in
    elim (Bool-cases (m.id == n)) [
      | inl e ↦ rw e (
        All-append (Addressed count) (send_gvt_update n m) [] told tt,
        omega (arith, tokens-append (send_gvt_update n m) [], none_sent),
      )
      | inr e ↦ rw e (
        All-append (Addressed count) (send_gvt_update n m) (update_to n m.gvt ∷ []) told (h, tt),
        omega (arith, tokens-append (send_gvt_update n m) (update_to n m.gvt ∷ []), none_sent),
      )
    ]

conclude-Keeps :
    (count low minimum : ℕ) (m : GvtManager)
    → m.id ≡ 0
    → expected m ≡ 1
    → KeepsIf count m 1 (conclude count m low minimum)
unfolding conclude
conclude-Keeps count low minimum m z one = elim (Bool-cases (leb m.gvt (min_func low minimum))) [
  | inl e ↦
      let (told, none_sent) =
        send-update count count (record m { gvt = min_func low minimum }) (omega arith) in
      rw e (record {
        same_id = refl;
        addressed = told;
        on_the_way = omega (arith, none_sent, one);
        still = λ ne. absurd (ne z);
        quiet = λ q. absurd (cc);
      })
  | inr e ↦ rw e tt
]

turned-Keeps :
    (count infinity last low minimum : ℕ) (m : GvtManager) (c : ℤ) (g : GvtTokenColor)
    → m.id < count
    → KeepsIf count m 1
        (pass_token count (turn_red g infinity m) last low minimum c (turn_red g infinity m).t_min)
turned-Keeps count infinity last low minimum m c white h =
    let k = pass-Keeps count last low minimum (turn_red white infinity m) c (some infinity) h in
    record {
      same_id = k.same_id;
      addressed = k.addressed;
      on_the_way = k.on_the_way;
      still = k.still;
      quiet = k.quiet;
    }
turned-Keeps count infinity last low minimum m c red h =
    pass-Keeps count last low minimum m c m.t_min h

token-Keeps :
    (count infinity last low minimum : ℕ) (m : GvtManager) (c : ℤ)
    → m.id < count
    → (m.id ≡ 0 → expected m ≡ 1)
    → KeepsIf count m 1 (handle_token count infinity last m low minimum c)
unfolding handle_token
token-Keeps count infinity last low minimum m c lt h = elim (Bool-cases (m.id == 0)) [
  | inl e ↦
      let z : m.id ≡ 0 = ground arith in
      elim (Bool-cases (concludes m c)) [
        | inl t ↦ rw (e, t) (conclude-Keeps count low minimum m z (h z))
        | inr t ↦ rw (e, t) (pass-Keeps count last low minimum m c m.t_min lt)
      ]
  | inr e ↦ rw e (turned-Keeps count infinity last low minimum m c m.color lt)
]

update-Keeps : (count : ℕ) (m : GvtManager) (new : ℕ) → KeepsIf count m 0 (handle_update m new)
unfolding handle_update tokens
update-Keeps count m new = elim (Bool-cases (leb m.gvt new)) [
  | inl e ↦ rw e (record {
    same_id = refl;
    addressed = tt;
    on_the_way = refl;
    still = λ _. refl;
    quiet = λ q. absurd (cc);
  })
  | inr e ↦ rw e tt
]

pub receive-Keeps :
    (count infinity last : ℕ) (m : GvtManager) (msg : GvtMessage)
    → m.id < count
    → (m.id ≡ 0 → tokens_in msg ≤ expected m)
    → KeepsIf count m (tokens_in msg) (receive_kernel_message count infinity last m msg)
unfolding receive_kernel_message
receive-Keeps count infinity last m (token d low minimum c) lt h =
    token-Keeps count infinity last low minimum m c lt (λ z. one m.pending (h z))
  where
    one : (b : Bool) → 1 ≤ count_tokens b → count_tokens b ≡ 1
    one true p = refl
    one false p = absurd (omega arith)
receive-Keeps count infinity last m (update_to d new) lt h = update-Keeps count m new

pub calculate-Keeps :
    (count infinity last : ℕ) (m : GvtManager)
    → m.id < count
    → IsQuiet m
    → KeepsIf count m 0 (calculate_gvt count infinity last m)
unfolding calculate_gvt send_gvt_token tokens
calculate-Keeps count infinity last m lt q = elim (Bool-cases (m.id == 0)) [
  | inr e ↦ rw e tt
  | inl e ↦
      let z : m.id ≡ 0 = ground arith in
      elim (Bool-cases (ltb 1 count)) [
        | inr t ↦
            rw (e, t)
              (record {
                same_id = refl;
                addressed = tt;
                on_the_way = refl;
                still = λ _. refl;
                quiet = q;
              })
        | inl t ↦ elim (Bool-cases m.pending) [
          | inl p ↦
              rw (e, t, p)
                (record {
                  same_id = refl;
                  addressed = tt;
                  on_the_way = refl;
                  still = λ _. refl;
                  quiet = q;
                })
          | inr p ↦
              rw (e, t, p)
                (record {
                  same_id = refl;
                  addressed = (destination-lt count m.id lt, tt);
                  on_the_way = refl;
                  still = λ ne. absurd (ne z);
                  quiet = λ _. refl;
                })
        ]
      ]
]

-- What the book-keeping of events keeps.
pub record StaysIn (m n : GvtManager) : Type 0 where
  pub same_id : n.id ≡ m.id
  pub still : expected n ≡ expected m
  pub quiet : IsQuiet n

lowered-StaysIn :
    (m n : GvtManager) (time : ℕ) (t : Option ℕ)
    → IsQuiet m
    → lower_to m time t ≡ some n
    → StaysIn m n
lowered-StaysIn m n time none q h = cc
lowered-StaysIn m n time (some t) q h =
    subst (StaysIn m) (some-injective _ _ h) (lower (ltb time t))
  where
    lower : (b : Bool) → StaysIn m (if b then record m { t_min = some time } else m)
    lower true = record { same_id = refl; still = refl; quiet = q }
    lower false = record { same_id = refl; still = refl; quiet = q }

noted-StaysIn :
    (m n : GvtManager) (time : ℕ) (c : GvtTokenColor)
    → c ≡ m.color
    → IsQuiet m
    → note_sent c m time ≡ some n
    → StaysIn m n
unfolding set_min_time_stamp
noted-StaysIn m n time white e q h =
    subst (StaysIn m) (some-injective _ _ h)
      (record { same_id = refl; still = refl; quiet = λ r. absurd (cc) })
noted-StaysIn m n time red e q h = lowered-StaysIn m n time m.t_min q h

pub info-StaysIn :
    (m n : GvtManager) (time : ℕ) → IsQuiet m → (get_gvt_info m time).1 ≡ some n → StaysIn m n
unfolding get_gvt_info
info-StaysIn m n time q h = noted-StaysIn m n time m.color refl q h

pub record-StaysIn :
    (m : GvtManager) (c : GvtTokenColor) → IsQuiet m → StaysIn m (update_event_record m c)
unfolding update_event_record
record-StaysIn m white q = record {
  same_id = refl;
  still = refl;
  quiet = λ r. decrement_nonpos m.whites (q r);
}
record-StaysIn m red q = record { same_id = refl; still = refl; quiet = q }
