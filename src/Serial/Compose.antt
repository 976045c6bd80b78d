-- ===== src/Serial/Compose.antt =====
-- Readers one after the other read what writers have written one after the other.
use mathlib.Core.List.{append_assoc}
use pdes.Base.{◌≡◌, refl, sym, ◌∙◌, ap, Option, some, List, [], ◌∷◌, ◌++◌, length, All}
use pdes.Serial.Extract.{◌>>=◌, next, pure, lift, get_each}
use pdes.Serial.Messages.{add_each}
use pdes.Serial.Reads.{Reads}
use pdes.Serial.{
  Bytes, Reader, SerializedInstance, Get, fresh, get, init_extract, second, read_string,
}

abbrev pub at : Bytes → Bytes → SerializedInstance
at contents rest = record { contents = contents; extract_iterator = some rest }

pub record GetReads {A : Type 0} (g : Get A) (bytes : Bytes) (a : A) : Type 0 where
  pub reads : (contents rest : Bytes) → g (at contents (bytes ++ rest)) ≡ some (a, at contents rest)

pub get-GetReads :
    {A : Type 0} (r : Reader A) (bytes : Bytes) (a : A) → Reads r bytes a → GetReads (get r) bytes a
unfolding Reads get init_extract
get-GetReads r bytes a h = record { reads = λ contents rest. rw (h rest) refl }

pub bind-GetReads :
    {A B : Type 0} (g : Get A) (k : A → Get B) {xs ys : Bytes} {a : A} {b : B}
    → GetReads g xs a
    → GetReads (k a) ys b
    → GetReads (g >>= k) (xs ++ ys) b
bind-GetReads g k {xs} {ys} h i = record {
  reads = λ contents rest.
      rw (append_assoc xs ys rest, h.reads contents (ys ++ rest)) (i.reads contents rest);
}

pub end-GetReads :
    {A B : Type 0} (g : Get A) (f : A → B) {xs : Bytes} {a : A}
    → GetReads g xs a
    → GetReads (g >>= λ x. pure (f x)) xs (f a)
end-GetReads g f h = record { reads = λ contents rest. rw (h.reads contents rest) refl }

pub lift-GetReads : {A : Type 0} (o : Option A) {a : A} → o ≡ some a → GetReads (lift o) [] a
lift-GetReads o e = record { reads = λ contents rest. rw e refl }

pub get_each-GetReads :
    {A : Type 0} (g : Get A) (add : A → Bytes) (P : A → Type 0)
    → ((a : A) → P a → GetReads g (add a) a)
    → (xs : List A) → All P xs
    → GetReads (get_each (length xs) g) (add_each add xs []) xs
unfolding get_each add_each
get_each-GetReads g add P h [] p = record { reads = λ contents rest. refl }
get_each-GetReads g add P h (x ∷ xs) p =
    bind-GetReads g (λ a. get_each (length xs) g >>= λ others. pure (a ∷ others)) (h x p.0)
      (end-GetReads (get_each (length xs) g) (λ ys. x ∷ ys) (get_each-GetReads g add P h xs p.1))

pub add_each-append :
    {A : Type 0} (add : A → Bytes) (xs : List A) (body : Bytes)
    → add_each add xs body ≡ add_each add xs [] ++ body
unfolding add_each
add_each-append add [] body = refl
add_each-append add (x ∷ xs) body =
    ap (λ ys. add x ++ ys) (add_each-append add xs body)
    ∙ sym (append_assoc (add x) (add_each add xs []) body)

-- The first reader of an instance starts behind the name of its type.
pub record Starts {A : Type 0} (g : Get A) : Type 0 where
  pub starts :
      (contents rest : Bytes)
      → second (read_string contents) ≡ some rest
      → g (fresh contents) ≡ g (at contents rest)

pub get-Starts : {A : Type 0} (r : Reader A) → Starts (get r)
unfolding get init_extract
get-Starts r = record { starts = λ contents rest h. rw h refl }

pub bind-Starts : {A B : Type 0} (g : Get A) (k : A → Get B) → Starts g → Starts (g >>= k)
bind-Starts g k h = record { starts = λ contents rest e. ap (next k) (h.starts contents rest e) }
