-- ===== src/Gvt/Balance.antt =====
-- The white events in flight are counted exactly, whatever happens.
use mathlib.Core.Option.{some-injective}
use pdes.Base.Int.{ℤ, pos, pos_part, neg_part, ◌+ℤ◌, is_zero, parts_of_eq, int_laws}
use pdes.Base.{
  ℕ, zero, suc, ◌≡◌, refl, not, subst, inl, inr, true, List, [], ◌∷◌, ◌++◌, Option, none, some,
  arith, get_elem?, erase_at, ltb, leb, ◌==◌, if◌then◌else◌, Bool-cases,
}
use pdes.Gvt.System.{carried}
use pdes.Gvt.{
  GvtTokenColor, white, red, GvtManager, GvtMessage, token, update_to, Reaction, calculate_gvt,
  receive_kernel_message, handle_token, handle_update, conclude, concludes, pass_token,
  send_gvt_token, send_gvt_update, turn_red, min_func,
}

pub carried-append : (ms ns : List GvtMessage) → carried (ms ++ ns) ≡ carried ms +ℤ carried ns
unfolding carried
carried-append [] ns = omega int_laws
carried-append (token d low minimum c ∷ ms) ns =
    let rest = parts_of_eq _ _ (carried-append ms ns) in omega (int_laws, rest)
carried-append (update_to d new ∷ ms) ns = carried-append ms ns

abbrev update_for : ℕ → GvtManager → List GvtMessage
update_for n m = if not (m.id == n) then update_to n m.gvt ∷ [] else []

update_suc :
    (n : ℕ) (m : GvtManager) → send_gvt_update (suc n) m ≡ send_gvt_update n m ++ update_for n m
unfolding send_gvt_update
update_suc n m = refl

carried_last : (n : ℕ) (m : GvtManager) → carried (update_for n m) ≡ pos 0
unfolding carried
carried_last n m = elim (Bool-cases (m.id == n)) [ inl e ↦ rw e refl | inr e ↦ rw e refl ]

carried_none : (m : GvtManager) → carried (send_gvt_update zero m) ≡ pos 0
unfolding carried send_gvt_update
carried_none m = refl

-- Updates carry nothing.
pub carried-update : (n : ℕ) (m : GvtManager) → carried (send_gvt_update n m) ≡ pos 0
carried-update zero m = carried_none m
carried-update (suc n) m =
    rw (update_suc n m, carried-append (send_gvt_update n m) (update_for n m))
      (let rest = parts_of_eq _ _ (carried-update n m) in
        let last = parts_of_eq _ _ (carried_last n m) in omega (int_laws, rest, last))

abbrev pub count_of : GvtMessage → ℤ
count_of (token d low minimum c) = c
count_of (update_to d new) = pos 0

pub carried-erase_at :
    (k : ℕ) (ms : List GvtMessage) (msg : GvtMessage)
    → get_elem? ms k ≡ some msg
    → count_of msg +ℤ carried (erase_at k ms) ≡ carried ms
unfolding carried
carried-erase_at k [] msg h = cc
carried-erase_at zero (token d low minimum c ∷ ms) msg h =
    subst (λ n. count_of n +ℤ carried ms ≡ c +ℤ carried ms) (some-injective _ _ h) refl
carried-erase_at zero (update_to d new ∷ ms) msg h =
    subst (λ n. count_of n +ℤ carried ms ≡ carried ms) (some-injective _ _ h) (omega int_laws)
carried-erase_at (suc k) (token d low minimum c ∷ ms) msg h =
    let rest = parts_of_eq _ _ (carried-erase_at k ms msg h) in omega (int_laws, rest)
carried-erase_at (suc k) (update_to d new ∷ ms) msg h = carried-erase_at k ms msg h

-- A reaction hands on all that the manager and the message counted.
abbrev pub Conserves : GvtManager → ℤ → Option Reaction → Type 0
Conserves m c none = Unit
Conserves m c (some r) = r.manager.whites +ℤ carried r.sent ≡ m.whites +ℤ c

pass-Conserves :
    (count last low minimum : ℕ) (m : GvtManager) (c : ℤ) (t : Option ℕ)
    → Conserves m c (pass_token count m last low minimum c t)
unfolding send_gvt_token carried
pass-Conserves count last low minimum m c none = tt
pass-Conserves count last low minimum m c (some t) = omega int_laws

conclude-Conserves :
    (count low minimum : ℕ) (m : GvtManager) (c : ℤ)
    → is_zero (m.whites +ℤ c) ≡ true
    → Conserves m c (conclude count m low minimum)
unfolding conclude
conclude-Conserves count low minimum m c h = elim (Bool-cases (leb m.gvt (min_func low minimum))) [
  | inl e ↦
      let none_carried =
        parts_of_eq _ _ (carried-update count (record m { gvt = min_func low minimum })) in
      let zero_sum : pos_part (m.whites +ℤ c) ≡ neg_part (m.whites +ℤ c) = ground arith in
      rw e (omega (int_laws, none_carried, zero_sum))
  | inr e ↦ rw e tt
]

concludes_zero : (m : GvtManager) (c : ℤ) → concludes m c ≡ true → is_zero (m.whites +ℤ c) ≡ true
unfolding concludes
concludes_zero m c h = ground arith

token-Conserves :
    (count infinity last low minimum : ℕ) (m : GvtManager) (c : ℤ)
    → Conserves m c (handle_token count infinity last m low minimum c)
unfolding handle_token
token-Conserves count infinity last low minimum m c = elim (Bool-cases (m.id == 0)) [
  | inl e ↦ elim (Bool-cases (concludes m c)) [
    | inl t ↦ rw (e, t) (conclude-Conserves count low minimum m c (concludes_zero m c t))
    | inr t ↦ rw (e, t) (pass-Conserves count last low minimum m c m.t_min)
  ]
  | inr e ↦ rw e (red-Conserves m.color)
]
  where
    red-Conserves :
        (g : GvtTokenColor)
        → Conserves m c (
            pass_token count
              (turn_red g infinity m)
              last
              low
              minimum
              c
              (turn_red g infinity m).t_min)
    red-Conserves white =
        pass-Conserves count last low minimum (turn_red white infinity m) c (some infinity)
    red-Conserves red = pass-Conserves count last low minimum m c m.t_min

update-Conserves : (m : GvtManager) (new : ℕ) → Conserves m (pos 0) (handle_update m new)
unfolding handle_update carried
update-Conserves m new = elim (Bool-cases (leb m.gvt new)) [ inl e ↦ rw e refl | inr e ↦ rw e tt ]

pub receive-Conserves :
    (count infinity last : ℕ) (m : GvtManager) (msg : GvtMessage)
    → Conserves m (count_of msg) (receive_kernel_message count infinity last m msg)
unfolding receive_kernel_message
receive-Conserves count infinity last m (token d low minimum c) =
    token-Conserves count infinity last low minimum m c
receive-Conserves count infinity last m (update_to d new) = update-Conserves m new

-- The start of an estimation moves the count of manager 0 into its token.
pub calculate-Conserves :
    (count infinity last : ℕ) (m : GvtManager)
    → Conserves m (pos 0) (calculate_gvt count infinity last m)
unfolding calculate_gvt send_gvt_token carried
calculate-Conserves count infinity last m = elim (Bool-cases (m.id == 0)) [
  | inr e ↦ rw e tt
  | inl e ↦ elim (Bool-cases (ltb 1 count)) [
    | inr t ↦ rw (e, t) refl
    | inl t ↦ elim (Bool-cases m.pending) [
      | inl p ↦ rw (e, t, p) refl
      | inr p ↦ rw (e, t, p) (omega int_laws)
    ]
  ]
]
