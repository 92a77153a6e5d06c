-- ===== src/Hex/Digits.antt =====
-- Hex texts to bytes and back.
use robinhood_chain_sequence.Prelude.{
  ℕ, ◌+◌, ◌*◌, ◌/◌, ◌%◌, ◌<◌, ◌≡◌, ◌∙◌, refl, sym, ap, inl, inr, arith, Bool-cases, false, Option,
  Option-cases, none, some, [], ◌∷◌, ◌++◌, ok, >>=-eq-ok, All, ◌==◌, ==_iff, length,
}
use robinhood_chain_sequence.Bytes.{Bytes, IsByte}
use robinhood_chain_sequence.Hex.{
  Text, is_space, digit_value, from_hex, unhex, remove_0x, hex_digit, to_hex, with_digits,
  filter_precompile, is_filtered_selector, EthCall, is_filtered_call,
}

-- A digit that is printed is read back, and is no white space.
pub digit_value-hex_digit :
    (n : ℕ) → n < 16 → (digit_value (hex_digit n) ≡ some n) × (is_space (hex_digit n) ≡ false)
unfolding digit_value is_space hex_digit
digit_value-hex_digit n h = (ground arith, ground arith)

pub from_hex-to_hex : (bs : Bytes) → All IsByte bs → from_hex (to_hex bs) ≡ some bs
unfolding from_hex to_hex
from_hex-to_hex [] h = refl
from_hex-to_hex (b ∷ bs) (hb, h) =
    let (high, no_space) = digit_value-hex_digit (b / 16) (omega arith) in
    let (low, _) = digit_value-hex_digit (b % 16) (omega arith) in
    let value : b / 16 * 16 + b % 16 ≡ b = omega arith in
    rw (no_space, high, low, from_hex-to_hex bs h) (ap (λ c. some (c ∷ bs)) value)

digit_value-lt : (c d : ℕ) → digit_value c ≡ some d → d < 16
unfolding digit_value
digit_value-lt c d h = ground arith

with_digits-some :
    (hi lo : Option ℕ) (rest : Option Bytes) (bs : Bytes)
    → with_digits hi lo rest ≡ some bs
    → (x : ℕ) × (y : ℕ) × (ys : Bytes) × (hi ≡ some x)
      × (lo ≡ some y)
      × (rest ≡ some ys)
      × ((x * 16 + y) ∷ ys ≡ bs)
with_digits-some (some x) (some y) (some ys) bs h = (x, y, ys, refl, refl, refl, ground (arith, h))
with_digits-some (some x) (some y) none bs h = absurd (cc)
with_digits-some (some x) none rest bs h = absurd (cc)
with_digits-some none lo rest bs h = absurd (cc)

-- What is read is bytes.
from_hex-IsByte : (t : Text) (bs : Bytes) → from_hex t ≡ some bs → All IsByte bs
unfolding from_hex
from_hex-IsByte [] bs h = let same : [] ≡ bs = ground (arith, h) in rw (← same) tt
from_hex-IsByte (c ∷ []) bs h = elim (Bool-cases (is_space c)) [
  | inl space ↦ let same : [] ≡ bs = ground (arith, h, space) in rw (← same) tt
  | inr other ↦ absurd (ground (arith, h, other))
]
from_hex-IsByte (c ∷ d ∷ rest) bs h = elim (Bool-cases (is_space c)) [
  | inl space ↦ from_hex-IsByte (d ∷ rest) bs (rw space at h)
  | inr other ↦
      let (x, y, ys, hx, hy, hr, same) =
        with_digits-some (digit_value c) (digit_value d) (from_hex rest) bs (rw other at h) in
      let high = digit_value-lt c x hx in
      let low = digit_value-lt d y hy in rw (← same) (omega arith, from_hex-IsByte rest ys hr)
]

unhex-ok : (t : Text) (bs : Bytes) → unhex t ≡ ok bs → from_hex (remove_0x t) ≡ some bs
unfolding unhex
unhex-ok t bs h = elim (Option-cases (from_hex (remove_0x t))) [
  | inl bad ↦ absurd (ground (arith, bad))
  | inr (raw, read) ↦ ground (arith, read)
]

pub unhex_read : (t : Text) (bs : Bytes) → from_hex (remove_0x t) ≡ some bs → unhex t ≡ ok bs
unfolding unhex
unhex_read t bs h = ground (arith, h)

-- What the body of `eth_call` asks about: a hash of 32 bytes, behind the selector.
pub record Asks (t : Text) (call : EthCall) : Type 0 where
  pub raw : Bytes
  pub given : unhex t ≡ ok raw
  pub size : length raw ≡ 32
  pub to : call.to ≡ filter_precompile
  pub asked : unhex call.calldata ≡ ok (0x85 ∷ 0xc7 ∷ 0x33 ∷ 0xa4 ∷ raw)

unhex-selector :
    (raw : Bytes)
    → All IsByte raw
    → unhex (is_filtered_selector ++ to_hex raw) ≡ ok (0x85 ∷ 0xc7 ∷ 0x33 ∷ 0xa4 ∷ raw)
unfolding remove_0x to_hex
unhex-selector raw h =
    let four : IsByte 0x85 × IsByte 0xc7 × IsByte 0x33 × IsByte 0xa4 = omega arith in
    unhex_read (is_filtered_selector ++ to_hex raw) _
      (from_hex-to_hex (0x85 ∷ 0xc7 ∷ 0x33 ∷ 0xa4 ∷ raw) (four.0, (four.1, (four.2, (four.3, h)))))

-- The body that `is_filtered_call` makes of a text goes to the filter precompile, and its
-- calldata is hex of the selector and of the bytes that the text gives, which are 32.
pub is_filtered_call-Asks : (t : Text) (call : EthCall) → is_filtered_call t ≡ ok call → Asks t call
unfolding is_filtered_call
is_filtered_call-Asks t call h =
    let (raw, given, made) = >>=-eq-ok (unhex t) _ h in
    elim (Bool-cases (length raw == 32)) [
      | inr other ↦ absurd (ground (arith, other))
      | inl whole ↦
          let same : record {
            to = filter_precompile;
            calldata = is_filtered_selector ++ to_hex raw;
          }
              ≡ call =
            ground (arith, whole) in
          let bytes = from_hex-IsByte (remove_0x t) raw (unhex-ok t raw given) in
          record {
            raw = raw;
            given = given;
            size = (==_iff (length raw) 32).0 whole;
            to = sym (ap (λ c. c.to) same);
            asked = ap (λ c. unhex c.calldata) (sym same) ∙ unhex-selector raw bytes;
          }
    ]
