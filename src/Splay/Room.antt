-- ===== src/Splay/Room.antt =====
-- What the calls do to the stack of processed elements, and the trees whose stack has room.
use pdes.Base.{
  ℕ, suc, ◌≡◌, refl, sym, ◌∙◌, ap, subst, Option, none, some, inl, inr, Bool-cases, ◌==◌, arith,
}
use pdes.Event.{Event}
use pdes.Splay.Valid.{IsValid, empty-IsValid}
use pdes.Splay.{
  Element, Tree, leaf, node, Place, SplayTree, empty, insert, insert_element, insert_near,
  get_event, get_from, taken, peek_event, peek_from, clean_up, map_some, not_after, follow_current,
}
use pdes.Stack as Stack
use pdes.Stack.{StackOfPtr, IsWhole, initial_size, delete_all-IsWhole}

-- A valid tree that may give up `room` more elements before the next `cleanUp`.
pub record HasRoom (room : ℕ) (s : SplayTree) : Type 0 where
  pub valid : IsValid s
  pub whole : IsWhole room s.processed_elements

pub empty-HasRoom : HasRoom initial_size empty
empty-HasRoom = record { valid = empty-IsValid; whole = Stack.empty-IsWhole }

some_image :
    {A B : Type 0} (f : A → B) (o : Option A) (b : B) → map_some f o ≡ some b → (a : A) × (f a ≡ b)
some_image f none b h = cc
some_image f (some a) b h = (a, cc)

Stack-insert_near :
    (s : SplayTree) (new : Element) (p : Place)
    → (insert_near s new p).processed_elements ≡ s.processed_elements
Stack-insert_near s new p = elim (Bool-cases (not_after new.event p.element.event)) [
  | inl t ↦ rw t refl
  | inr t ↦ rw t refl
]

Stack-insert_element :
    (s : SplayTree) (new : Element) (t : Tree) (u : SplayTree)
    → insert_element s new t ≡ some u
    → u.processed_elements ≡ s.processed_elements
Stack-insert_element s new leaf u h = cc
Stack-insert_element s new (node l x r) u h =
    let (p, e) = some_image (insert_near s new) (follow_current s) u h in
    ap (λ (v : SplayTree). v.processed_elements) (sym e) ∙ Stack-insert_near s new p

-- `insert` leaves the stack.
pub insert-IsWhole :
    (room : ℕ) (s : SplayTree) (e : Event) (u : SplayTree)
    → insert s e ≡ some u
    → IsWhole room s.processed_elements
    → IsWhole room u.processed_elements
unfolding insert
insert-IsWhole room s e u h w =
    subst (IsWhole room)
      (sym (Stack-insert_element s (record { address = s.next_address; event = e }) s.root u h)) w

less_room : (room : ℕ) (p : StackOfPtr Element) → IsWhole (suc room) p → IsWhole room p
less_room room p w = record {
  initialised = w.initialised;
  first_size = w.first_size;
  spare = (let h = w.spare in omega (arith, h));
}

get_from-IsWhole :
    (room : ℕ) (s : SplayTree) (t : Tree) (u : SplayTree) (a : Option Event)
    → get_from s t ≡ some (u, a)
    → IsWhole (suc room) s.processed_elements
    → IsWhole room u.processed_elements
get_from-IsWhole room s leaf u a h w =
    let e : s ≡ u = cc in
    subst (λ (v : SplayTree). IsWhole room v.processed_elements) e
      (less_room room s.processed_elements w)
get_from-IsWhole room s (node l x r) u a h w =
    let (p, e) = some_image (taken s) (follow_current s) (u, a) h in
    subst (λ (v : SplayTree × Option Event). IsWhole room v.0.processed_elements) e
      (Stack.insert-IsWhole room s.processed_elements p.element w)

-- `getEvent` takes the room of one element.
pub get_event-IsWhole :
    (room : ℕ) (s u : SplayTree) (a : Option Event)
    → get_event s ≡ some (u, a)
    → IsWhole (suc room) s.processed_elements
    → IsWhole room u.processed_elements
unfolding get_event
get_event-IsWhole room s u a h w = get_from-IsWhole room s s.root u a h w

Stack-peek_from :
    (s : SplayTree) (t : Tree) (u : SplayTree) (a : Option Event)
    → peek_from s t ≡ some (u, a)
    → u.processed_elements ≡ s.processed_elements
Stack-peek_from s leaf u a h = cc
Stack-peek_from s (node l x r) u a h = elim (Bool-cases (s.number_of_elements == 0)) [
  | inl t ↦ (let k = rw t at h in cc)
  | inr t ↦
      (let k = rw t at h in
        let (p, e) = some_image _ _ (u, a) k in
        ap (λ (v : SplayTree × Option Event). v.0.processed_elements) (sym e))
]

pub peek_event-IsWhole :
    (room : ℕ) (s u : SplayTree) (a : Option Event)
    → peek_event s ≡ some (u, a)
    → IsWhole room s.processed_elements
    → IsWhole room u.processed_elements
unfolding peek_event
peek_event-IsWhole room s u a h w = subst (IsWhole room) (sym (Stack-peek_from s s.root u a h)) w

-- `cleanUp` frees all processed elements, and makes room for as many as there were at first.
pub clean_up-HasRoom :
    (room : ℕ) (s : SplayTree)
    → HasRoom room s
    → (t : SplayTree) × (clean_up s ≡ some t) × HasRoom initial_size t × (t.root ≡ s.root)
unfolding clean_up
clean_up-HasRoom room s h =
    let (p, done, w) = delete_all-IsWhole room s.processed_elements h.whole in
    (
      record s { processed_elements = p },
      rw done refl,
      record {
        valid = record {
          sorted = h.valid.sorted;
          count = h.valid.count;
          pointer = h.valid.pointer;
        };
        whole = w;
      },
      refl,
    )
