-- ===== src/Tx/Texts/Checksum.antt =====
-- A checksummed address reads back.
use robinhood_chain_sequence.Prelude.{
  ℕ, ◌+◌, ◌*◌, ◌/◌, ◌%◌, ◌≤◌, ◌<◌, ◌≡◌, refl, ap, arith, false, some, [], ◌∷◌, ◌++◌, ok, All,
  length,
}
use robinhood_chain_sequence.Bytes.{Bytes, IsByte}
use robinhood_chain_sequence.Hex.{
  Text, text, is_space, digit_value, from_hex, remove_0x, addr, hex_digit, to_hex,
}
use robinhood_chain_sequence.Hex.Digits.{unhex_read}
use robinhood_chain_sequence.Tx.Texts.{recase, mixed, checksum}

digit_value-recase :
    (n d : ℕ)
    → n < 16
    → (digit_value (recase (hex_digit n) d) ≡ some n) × (is_space (recase (hex_digit n) d) ≡ false)
unfolding digit_value is_space hex_digit recase
digit_value-recase n d h = (ground arith, ground arith)

length-to_hex : (bs : Bytes) → length (to_hex bs) ≡ 2 * length bs
unfolding to_hex
length-to_hex [] = refl
length-to_hex (b ∷ bs) = omega (arith, length-to_hex bs)

-- The digits of `bs` in either case, which read as `bs`.
record Cased (bs : Bytes) (digest : Text) : Type 0 where
  digits : Text
  made : mixed (to_hex bs) digest ≡ ok digits
  read : from_hex digits ≡ some bs

mixed-to_hex :
    (bs : Bytes) (digest : Text) → All IsByte bs → 2 * length bs ≤ length digest → Cased bs digest
unfolding mixed to_hex from_hex
mixed-to_hex [] digest bytes fits = record { digits = []; made = refl; read = refl }
mixed-to_hex (b ∷ bs) [] bytes fits = absurd (omega arith)
mixed-to_hex (b ∷ bs) (d ∷ []) bytes fits = absurd (omega arith)
mixed-to_hex (b ∷ bs) (d ∷ d' ∷ digest) (byte, bytes) fits =
    let rest = mixed-to_hex bs digest bytes (omega arith) in
    let (high, no_space) = digit_value-recase (b / 16) d (omega arith) in
    let (low, _) = digit_value-recase (b % 16) d' (omega arith) in
    let value : b / 16 * 16 + b % 16 ≡ b = omega arith in
    record {
      digits = recase (hex_digit (b / 16)) d ∷ recase (hex_digit (b % 16)) d' ∷ rest.digits;
      made = rw rest.made refl;
      read = rw (no_space, high, low, rest.read) (ap (λ c. some (c ∷ bs)) value);
    }

module _ (keccak : Bytes → Bytes) (digests : (b : Bytes) → length (keccak b) ≡ 32) where
  -- The checksummed text of an address of 20 bytes is one that `addr` reads as that address,
  -- whatever the digits of its hash, where a hash has 32 bytes.
  pub addr-checksum :
      (a : Bytes)
      → All IsByte a
      → length a ≡ 20
      → (t : Text) × (checksum keccak a ≡ ok t) × (addr t ≡ ok a)
  unfolding checksum addr remove_0x
  addr-checksum a bytes size =
      let digest : Text = to_hex (keccak (to_hex a)) in
      let long : length digest ≡ 2 * length (keccak (to_hex a)) =
        length-to_hex (keccak (to_hex a)) in
      let cased = mixed-to_hex a digest bytes (omega (arith, digests (to_hex a))) in
      let read = unhex_read (text "0x" ++ cased.digits) a cased.read in
      (text "0x" ++ cased.digits, rw cased.made refl, rw (read, size) refl)
