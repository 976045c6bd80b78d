-- ===== src/Serial/Reads.antt =====
-- What is written is read again, whatever stands behind it.
use mathlib.Core.List.{append_assoc}
use pdes.Base.{
  ℕ, ◌+◌, ◌≡◌, ◌<◌, ◌^◌, ◌*◌, ◌/◌, ◌%◌, refl, ap, some, [], ◌∷◌, ◌++◌, length, length-append, arith,
}
use pdes.Serial.{
  Bytes, DataType, code_of, char_blob, int, unsigned, serialized_instance, write_int, add_bytes,
  add_string, add_unsigned, add_int, add_serialized_instance, Reader, read_int, read_bytes,
  check_type, long_long, double, read_unsigned, read_signed, read_vector, read_string,
  read_instance, without_last,
}

unfoldable pub Reads : {A : Type 0} → Reader A → Bytes → A → Type 0
Reads r bytes a = (rest : Bytes) → r (bytes ++ rest) ≡ some (a, rest)

word :
    (n : ℕ)
    → n < 2 ^ 32
    → n % 256
        + 256 * (n / 256 % 256 + 256 * (n / 256 / 256 % 256 + 256 * (n / 256 / 256 / 256 % 256)))
      ≡ n
word n h = omega arith

-- Four bytes hold an unsigned int.
pub read_int-Reads : (n : ℕ) → n < 2 ^ 32 → Reads read_int (write_int n) n
unfolding Reads read_int write_int
read_int-Reads n h rest = ap (λ m. some (m, rest)) (word n h)

read_bytes-Reads : (xs : Bytes) → Reads (read_bytes (length xs)) xs xs
unfolding Reads read_bytes
read_bytes-Reads [] rest = refl
read_bytes-Reads (x ∷ xs) rest = rw (read_bytes-Reads xs rest) refl

check_type-Reads : (t : DataType) → Reads (check_type t) (write_int (code_of t)) tt
unfolding Reads check_type read_int write_int
check_type-Reads char_blob rest = refl
check_type-Reads int rest = refl
check_type-Reads unsigned rest = refl
check_type-Reads long_long rest = refl
check_type-Reads double rest = refl
check_type-Reads serialized_instance rest = refl

pub read_unsigned-Reads : (n : ℕ) → n < 2 ^ 32 → Reads read_unsigned (add_unsigned n) n
unfolding Reads read_unsigned add_unsigned
read_unsigned-Reads n h rest =
    rw
      (
        append_assoc (write_int (code_of unsigned)) (write_int n) rest,
        check_type-Reads unsigned (write_int n ++ rest),
      )
      (read_int-Reads n h rest)

pub read_signed-Reads : (n : ℕ) → n < 2 ^ 32 → Reads read_signed (add_int n) n
unfolding Reads read_signed add_int
read_signed-Reads n h rest =
    rw
      (
        append_assoc (write_int (code_of int)) (write_int n) rest,
        check_type-Reads int (write_int n ++ rest),
      )
      (read_int-Reads n h rest)

pub read_vector-Reads : (xs : Bytes) → length xs < 2 ^ 32 → Reads read_vector (add_bytes xs) xs
unfolding Reads read_vector add_bytes
read_vector-Reads xs h rest =
    rw
      (
        append_assoc (write_int (code_of char_blob)) (write_int (length xs) ++ xs) rest,
        check_type-Reads char_blob (write_int (length xs) ++ xs ++ rest),
        append_assoc (write_int (length xs)) xs rest,
        read_int-Reads (length xs) h (xs ++ rest),
      )
      (read_bytes-Reads xs rest)

without_last-snoc : (xs : Bytes) (x : ℕ) → without_last (xs ++ x ∷ []) ≡ xs
unfolding without_last
without_last-snoc [] x = refl
without_last-snoc (y ∷ []) x = refl
without_last-snoc (y ∷ z ∷ xs) x = ap (λ ys. y ∷ ys) (without_last-snoc (z ∷ xs) x)

pub read_string-Reads : (s : Bytes) → length s + 1 < 2 ^ 32 → Reads read_string (add_string s) s
unfolding Reads read_string add_string
read_string-Reads s h rest =
    rw
      (
        read_vector-Reads (s ++ 0 ∷ []) (omega (arith, length-append s (0 ∷ []))) rest,
        without_last-snoc s 0,
      )
      refl

pub read_instance-Reads :
    (xs : Bytes) → length xs < 2 ^ 32 → Reads read_instance (add_serialized_instance xs) xs
unfolding Reads read_instance add_serialized_instance
read_instance-Reads xs h rest =
    rw
      (
        append_assoc (write_int (code_of serialized_instance)) (add_bytes xs) rest,
        check_type-Reads serialized_instance (add_bytes xs ++ rest),
      )
      (read_vector-Reads xs h rest)
