-- ===== src/Rlp/Uint.antt =====
-- `_rlp_uint` is the string of the number's bytes, with no zero in front.
use robinhood_chain_sequence.Prelude.{ℕ, ◌≡◌, refl, ◌==◌, inl, inr, Bool-cases, ==_iff}
use robinhood_chain_sequence.Bytes.{Bytes, from_bytes, to_bytes, byte_length}
use robinhood_chain_sequence.Bytes.Numbers.{
  from_bytes-to_bytes, lt-pow-byte_length, byte_length_zero,
}
use robinhood_chain_sequence.Rlp.{rlp_uint, rlp_bytes}

-- Go's big.Int.Bytes().
unfoldable pub minimal : ℕ → Bytes
minimal v = to_bytes v (byte_length v)

pub rlp_uint-minimal : (v : ℕ) → rlp_uint v ≡ rlp_bytes (minimal v)
unfolding rlp_uint rlp_bytes minimal
rlp_uint-minimal v = elim (Bool-cases (v == 0)) [
  | inl e ↦ let z : v ≡ 0 = (==_iff v 0).0 e in rw (z, byte_length_zero) (unfold to_bytes in refl)
  | inr e ↦ rw e
]

pub from_bytes-minimal : (v : ℕ) → from_bytes (minimal v) ≡ v
unfolding minimal
from_bytes-minimal v = from_bytes-to_bytes v (byte_length v) (lt-pow-byte_length v)

-- `_rlp_uint` writes the RLP string of the bytes of the number, the fewest that hold it, and those
-- bytes read back as the number.
rlp_uint_lem : (v : ℕ) → (rlp_uint v ≡ rlp_bytes (minimal v)) × (from_bytes (minimal v) ≡ v)
rlp_uint_lem v = (rlp_uint-minimal v, from_bytes-minimal v)
