-- ===== src/Object/Replay.antt =====
-- What an object's state is when its events are processed one after the other, and the lists that the
-- loops leave.
use pdes.Base.Sorting.{Sorted, Sorted-left, Sorted-right, Le}
use pdes.Container.Causality.{Sorted-append}
use pdes.Base.{
  ℕ, ◌≤◌, ◌<◌, ◌≡◌, refl, ap, sym, inl, inr, Bool, true, false, List, [], ◌∷◌, ◌++◌, arith,
  Bool-cases, All, front, rest, length, All-left, All-right, All-map, subst, front-append-rest,
}
use pdes.Container.{before}
use pdes.Event.Order.{receive_order}
use pdes.Event.{Event, receive_less}

-- The state after some events.
unfoldable pub replay : {S : Type 0} → (S → Event → S × List Event) → S → List Event → S
replay handle s [] = s
replay handle s (e ∷ es) = replay handle (handle s e).0 es

pub replay-append :
    {S : Type 0} (handle : S → Event → S × List Event) (s : S) (xs ys : List Event)
    → replay handle s (xs ++ ys) ≡ replay handle (replay handle s xs) ys
unfolding replay
replay-append handle s [] ys = refl
replay-append handle s (x ∷ xs) ys = replay-append handle (handle s x).0 xs ys

module _ (p q : Event → Bool) (sub : (e : Event) → p e ≡ true → q e ≡ true) where
  pub front-twice : (xs : List Event) → front q xs ≡ front p xs ++ front q (rest p xs)
  unfolding front rest
  front-twice [] = refl
  front-twice (x ∷ xs) = elim (Bool-cases (p x)) [
    | inl t ↦ rw (t, sub x t) (ap (λ l. x ∷ l) (front-twice xs))
    | inr t ↦ rw t refl
  ]

  pub rest-twice : (xs : List Event) → rest q xs ≡ rest q (rest p xs)
  unfolding rest
  rest-twice [] = refl
  rest-twice (x ∷ xs) = elim (Bool-cases (p x)) [
    | inl t ↦ rw (t, sub x t) (rest-twice xs)
    | inr t ↦ rw t refl
  ]

-- Nothing after events that all pass is taken from behind the first that fails.
pub front-append-late :
    (p : Event → Bool) (xs ys : List Event)
    → All (λ e. p e ≡ false) ys
    → front p (xs ++ ys) ≡ front p xs
unfolding front
front-append-late p [] [] h = refl
front-append-late p [] (y ∷ ys) h = rw h.0 refl
front-append-late p (x ∷ xs) ys h = elim (Bool-cases (p x)) [
  | inl t ↦ rw t (ap (λ l. x ∷ l) (front-append-late p xs ys h))
  | inr t ↦ rw t refl
]

pub front-all : (p : Event → Bool) (xs : List Event) → All (λ e. p e ≡ true) xs → front p xs ≡ xs
unfolding front
front-all p [] h = refl
front-all p (x ∷ xs) h = rw h.0 (ap (λ l. x ∷ l) (front-all p xs h.1))

pub length-rest : (p : Event → Bool) (xs : List Event) → length (rest p xs) ≤ length xs
unfolding rest
length-rest p [] = omega arith
length-rest p (x ∷ xs) = let shorter = length-rest p xs in ground arith

pub All-rest :
    (P : Event → Type 0) (p : Event → Bool) (xs : List Event) → All P xs → All P (rest p xs)
All-rest P p xs h =
    All-right P (front p xs) (rest p xs) (subst (All P) (sym (front-append-rest p xs)) h)

pub Sorted-rest :
    (p : Event → Bool) (xs : List Event)
    → Sorted receive_order xs
    → Sorted receive_order (rest p xs)
Sorted-rest p xs s =
    Sorted-right receive_order (front p xs) (rest p xs)
      (subst (Sorted receive_order) (sym (front-append-rest p xs)) s)

-- In order, the first event is at the lowest time.
pub first-lowest :
    (x : Event) (xs : List Event)
    → Sorted receive_order (x ∷ xs)
    → All (λ e. x.receive_time ≤ e.receive_time) (x ∷ xs)
unfolding receive_less
first-lowest x xs s = (omega arith, All-map _ _ (λ e h. ground (arith, h)) xs s.0)

pub All-front :
    (P : Event → Type 0) (p : Event → Bool) (xs : List Event) → All P xs → All P (front p xs)
All-front P p xs h =
    All-left P (front p xs) (rest p xs) (subst (All P) (sym (front-append-rest p xs)) h)

pub Sorted-front :
    (p : Event → Bool) (xs : List Event)
    → Sorted receive_order xs
    → Sorted receive_order (front p xs)
Sorted-front p xs s =
    Sorted-left receive_order (front p xs) (rest p xs)
      (subst (Sorted receive_order) (sym (front-append-rest p xs)) s)

-- What is before a time does not change with what comes at the time or later.
pub front-before :
    (time : ℕ) (xs ys : List Event)
    → All (λ e. time ≤ e.receive_time) ys
    → front (before time) (xs ++ ys) ≡ front (before time) xs
front-before time xs ys h =
    front-append-late (before time) xs ys (All-map _ _ (λ e t. ground (arith, t)) ys h)

pub earlier-Le : (a b : Event) → a.receive_time < b.receive_time → Le receive_order a b
unfolding receive_less
earlier-Le a b h = ground (arith, h)

-- Two lists in order, the second after a time and the first before it, are in order together.
pub Sorted-join :
    (time : ℕ) (xs ys : List Event)
    → Sorted receive_order xs
    → Sorted receive_order ys
    → All (λ e. e.receive_time < time) xs
    → All (λ e. time ≤ e.receive_time) ys
    → Sorted receive_order (xs ++ ys)
Sorted-join time xs ys s t early late = Sorted-append xs ys s t (
    All-map _ _
      (λ x (h : x.receive_time < time).
        All-map _ _ (λ y (l : time ≤ y.receive_time). (earlier-Le x y (omega (arith, h, l)))) ys
          late)
      xs early)
