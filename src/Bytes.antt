-- ===== src/Bytes.antt =====
-- Python's `bytes` as the program uses them: big-endian numbers (`int.from_bytes`, `int.to_bytes`,
-- `int.bit_length`) and padding. A byte string is a list of numbers below 256.
pub mod Numbers
pub mod Equality
use robinhood_chain_sequence.Prelude.{
  ℕ, zero, suc, ◌+◌, ◌-◌, ◌*◌, ◌/◌, ◌%◌, ◌<◌, Bool, true, false, ◌&&◌, List, [], ◌∷◌, ◌++◌, ◌==◌,
  if◌then◌else◌, All, length, replicate,
}

abbrev pub Bytes : Type 0
Bytes = List ℕ

abbrev pub IsByte : ℕ → Type 0
IsByte b = b < 256

unfoldable pub from_bytes_acc : ℕ → Bytes → ℕ
from_bytes_acc acc [] = acc
from_bytes_acc acc (b ∷ bs) = from_bytes_acc (acc * 256 + b) bs

-- int.from_bytes(bs, "big")
unfoldable pub from_bytes : Bytes → ℕ
unfolding from_bytes_acc
from_bytes bs = from_bytes_acc 0 bs

-- value.to_bytes(n, "big"), for a value that fits (Python raises OverflowError for others).
unfoldable pub to_bytes : ℕ → ℕ → Bytes
to_bytes value zero = []
to_bytes value (suc n) = to_bytes (value / 256) n ++ (value % 256 ∷ [])

unfoldable pub bit_length_from : ℕ → ℕ → ℕ
bit_length_from zero n = 0
bit_length_from (suc fuel) n =
    let rest = suc (bit_length_from fuel (n / 2)) in if n == 0 then 0 else rest

-- n.bit_length(): the rounds of halving until 0, at most `n`.
unfoldable pub bit_length : ℕ → ℕ
unfolding bit_length_from
bit_length n = bit_length_from n n

-- (n.bit_length() + 7) // 8
unfoldable pub byte_length : ℕ → ℕ
byte_length n = (bit_length n + 7) / 8

-- bytes(n)
abbrev pub zeros : ℕ → Bytes
zeros n = replicate n 0

-- any(bs)
unfoldable pub any : Bytes → Bool
any [] = false
any (b ∷ bs) = if b == 0 then any bs else true

-- bs == cs
unfoldable pub bytes_eq : Bytes → Bytes → Bool
bytes_eq [] [] = true
bytes_eq [] (c ∷ cs) = false
bytes_eq (b ∷ bs) [] = false
bytes_eq (b ∷ bs) (c ∷ cs) = b == c && bytes_eq bs cs

-- bs.rjust(n, b"\x00")
unfoldable pub rjust : Bytes → ℕ → Bytes
rjust bs n = zeros (n - length bs) ++ bs

-- bs.ljust(n, b"\x00")
unfoldable pub ljust : Bytes → ℕ → Bytes
ljust bs n = bs ++ zeros (n - length bs)
