-- ===== src/Bytes/Words.antt =====
-- Big-endian words.
use cryptoballot.Prelude.{ℕ, ◌<◌, ◌≡◌, arith}
use cryptoballot.Bytes.{IsBytes, u16_to_be_bytes, u32_to_be_bytes}

pub u16_to_be_bytes-IsBytes : (n : ℕ) → IsBytes (u16_to_be_bytes n)
u16_to_be_bytes-IsBytes n = omega arith

pub u32_to_be_bytes-IsBytes : (n : ℕ) → IsBytes (u32_to_be_bytes n)
u32_to_be_bytes-IsBytes n = omega arith

pub u16_to_be_bytes-injective :
    (m n : ℕ) → m < 65536 → n < 65536 → u16_to_be_bytes m ≡ u16_to_be_bytes n → m ≡ n
u16_to_be_bytes-injective m n hm hn e = ground arith

pub u32_to_be_bytes-injective :
    (m n : ℕ) → m < 4294967296 → n < 4294967296 → u32_to_be_bytes m ≡ u32_to_be_bytes n → m ≡ n
u32_to_be_bytes-injective m n hm hn e = ground arith
