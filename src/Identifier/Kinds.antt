-- ===== src/Identifier/Kinds.antt =====
-- The numbers and names of the transaction types.
use cryptoballot.Prelude.{ℕ, ◌≡◌, some, arith}
use cryptoballot.Identifier.{TransactionType, as_u8, from_u8}

-- The number of a transaction type is read back as that type.
pub from_u8-as_u8 : (t : TransactionType) → from_u8 (as_u8 t) ≡ some t
unfolding from_u8
from_u8-as_u8 t = ground arith

pub as_u8-from_u8 : (n : ℕ) (t : TransactionType) → from_u8 n ≡ some t → as_u8 t ≡ n
unfolding from_u8
as_u8-from_u8 n t h = ground arith
