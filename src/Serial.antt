-- ===== src/Serial.antt =====
-- SerializedInstance.cpp and SerializedInstance.h: the bytes in which kernel messages are sent. An
-- `int` has four bytes, the lowest first, as on the machines that the kernel is built for. What a
-- method appends to `data` is its result, and `none` stands for an abort or a read past the end.
pub mod Reads
pub mod Messages
pub mod Extract
pub mod Compose
pub mod Nested
pub mod RoundTrip
mod Tests
use pdes.Base.{
  ℕ, zero, suc, ◌+◌, ◌-◌, ◌*◌, ◌/◌, ◌%◌, Bool, true, false, ◌&&◌, Option, none, some, List, [], ◌∷◌,
  ◌++◌, length, ◌==◌, if◌then◌else◌, ◌>>=◌,
}

abbrev pub Bytes : Type 0
Bytes = List ℕ

-- `DATA_TYPE`.
pub data DataType : Type 0 where
  char_blob int unsigned long_long double serialized_instance : DataType

abbrev pub code_of : DataType → ℕ
code_of char_blob = 0
code_of int = 1
code_of unsigned = 2
code_of long_long = 3
code_of double = 4
code_of serialized_instance = 5

-- `writeInt`: of a wider number the low 32 bits.
unfoldable pub write_int : ℕ → Bytes
write_int n = n % 256 ∷ n / 256 % 256 ∷ n / 256 / 256 % 256 ∷ n / 256 / 256 / 256 % 256 ∷ []

unfoldable pub add_bytes : Bytes → Bytes
add_bytes xs = write_int (code_of char_blob) ++ (write_int (length xs) ++ xs)

-- With a null at the end.
unfoldable pub add_string : Bytes → Bytes
add_string s = add_bytes (s ++ 0 ∷ [])

unfoldable pub add_unsigned : ℕ → Bytes
add_unsigned n = write_int (code_of unsigned) ++ write_int n

unfoldable pub add_int : ℕ → Bytes
add_int n = write_int (code_of int) ++ write_int n

unfoldable pub add_serialized_instance : Bytes → Bytes
add_serialized_instance xs = write_int (code_of serialized_instance) ++ add_bytes xs

-- A reader of bytes gives a value and the bytes behind it.
abbrev pub Reader : Type 0 → Type 0
Reader A = Bytes → Option (A × Bytes)

unfoldable pub read_int : Reader ℕ
read_int (a ∷ b ∷ c ∷ d ∷ rest) = some (a + 256 * (b + 256 * (c + 256 * d)), rest)
read_int rest = none

abbrev pub front_of {ℓ} : {A : Type ℓ} → A → Option (List A × List A) → Option (List A × List A)
front_of x none = none
front_of x (some (xs, rest)) = some (x ∷ xs, rest)

unfoldable pub read_bytes : ℕ → Reader Bytes
read_bytes zero rest = some ([], rest)
read_bytes (suc n) [] = none
read_bytes (suc n) (x ∷ rest) = front_of x (read_bytes n rest)

-- `checkType` of what is read next.
unfoldable pub check_type : DataType → Reader (Unit {0})
check_type t bytes = do
  (found, rest) ← read_int bytes
  if found == code_of t then some (tt, rest) else none

unfoldable pub read_unsigned : Reader ℕ
read_unsigned bytes = do (_, rest) ← check_type unsigned bytes; read_int rest

unfoldable pub read_signed : Reader ℕ
read_signed bytes = do (_, rest) ← check_type int bytes; read_int rest

unfoldable pub read_vector : Reader Bytes
read_vector bytes = do
  (_, rest) ← check_type char_blob bytes
  (n, more) ← read_int rest
  read_bytes n more

unfoldable pub without_last : Bytes → Bytes
without_last [] = []
without_last (x ∷ []) = []
without_last (x ∷ y ∷ xs) = x ∷ without_last (y ∷ xs)

-- The bytes of a string are without the null; with no bytes at all it is empty.
unfoldable pub read_string : Reader Bytes
read_string bytes = do (s, rest) ← read_vector bytes; some (without_last s, rest)

unfoldable pub read_instance : Reader Bytes
read_instance bytes = do (_, rest) ← check_type serialized_instance bytes; read_vector rest

-- An instance that is read; the iterator is the bytes that are left, once it is initialized.
pub record SerializedInstance : Type 0 where
  pub contents : Bytes
  pub extract_iterator : Option Bytes

abbrev pub Get : Type 0 → Type 0
Get A = SerializedInstance → Option (A × SerializedInstance)

abbrev pub fresh : Bytes → SerializedInstance
fresh bytes = record { contents = bytes; extract_iterator = none }

-- The iterator starts behind the name of the data type.
abbrev pub second {ℓ κ} : {A : Type ℓ} {B : Type κ} → Option (A × B) → Option B
second none = none
second (some (a, b)) = some b

unfoldable pub init_extract : SerializedInstance → Option Bytes
init_extract s = elim s.extract_iterator [
  | none ↦ second (read_string s.contents)
  | some rest ↦ some rest
]

unfoldable pub get : {A : Type 0} → Reader A → Get A
get read s = do
  bytes ← init_extract s
  (a, rest) ← read bytes
  some (a, record s { extract_iterator = some rest })

-- `getDataType`.
unfoldable pub get_data_type : Bytes → Option Bytes
get_data_type bytes = do (name, rest) ← read_string bytes; some name
