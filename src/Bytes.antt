-- ===== src/Bytes.antt =====
-- Byte strings of the standard library, as transaction.rs, mix.rs and decryption.rs use them: arrays
-- and slices compare in lexicographic order, and a word is written in big-endian order.
pub mod Order
pub mod Words
use Prim.Native.Nat.{compare, Ordering}
use cryptoballot.Prelude.{ℕ, ◌/◌, ◌%◌, ◌^◌, ◌<◌, Bool, true, false, ◌&&◌, List, [], ◌∷◌, ◌==◌, All}

-- Every element of a `[u8]` is a byte.
abbrev pub IsByte : ℕ → Type 0
IsByte b = b < 256

abbrev pub IsBytes : List ℕ → Type 0
IsBytes = All IsByte

-- `Ordering::then`
abbrev pub then_cmp : Ordering → Ordering → Ordering
then_cmp Ordering.lt o = Ordering.lt
then_cmp Ordering.eq o = o
then_cmp Ordering.gt o = Ordering.gt

-- `Ord::cmp` of slices, arrays and strings
unfoldable pub lex_cmp : List ℕ → List ℕ → Ordering
lex_cmp [] [] = Ordering.eq
lex_cmp [] (y ∷ ys) = Ordering.lt
lex_cmp (x ∷ xs) [] = Ordering.gt
lex_cmp (x ∷ xs) (y ∷ ys) = then_cmp (compare x y) (lex_cmp xs ys)

-- `PartialEq::eq` of slices and arrays
unfoldable pub bytes_eq : List ℕ → List ℕ → Bool
bytes_eq [] [] = true
bytes_eq [] (y ∷ ys) = false
bytes_eq (x ∷ xs) [] = false
bytes_eq (x ∷ xs) (y ∷ ys) = x == y && bytes_eq xs ys

-- `u16::to_be_bytes` and `u32::to_be_bytes`
abbrev pub u16_to_be_bytes : ℕ → List ℕ
u16_to_be_bytes n = (n / 256 % 256) ∷ (n % 256) ∷ []

abbrev pub u32_to_be_bytes : ℕ → List ℕ
u32_to_be_bytes n = (n / 16777216 % 256) ∷ (n / 65536 % 256) ∷ (n / 256 % 256) ∷ (n % 256) ∷ []
