-- ===== src/Rlp/Encode.antt =====
-- Sizes and heads of what the encoders write.
use robinhood_chain_sequence.Prelude.{
  ℕ, ◌+◌, ◌-◌, ◌<◌, ◌≤◌, ◌^◌, ◌≡◌, refl, arith, [], ◌∷◌, ◌++◌, ◌&&◌, true, false, ltb, length,
  length-append, inl, inr, Bool-cases, ltb→lt, ltb_false→le, slice, slice-append, ◌==◌, ==_iff,
  append_assoc, get_or-append, ◌⊎◌,
}
use robinhood_chain_sequence.Bytes.{Bytes, from_bytes, to_bytes, byte_length}
use robinhood_chain_sequence.Bytes.Numbers.{
  length-to_bytes, from_bytes-to_bytes, lt-pow-byte_length, byte_length-le,
}
use robinhood_chain_sequence.Rlp.{item, byte_at, item_at, rlp_header, rlp_list, rlp_bytes}
use robinhood_chain_sequence.Rlp.Fields.{Field, string, nested, encode, payload, Fits, FieldFits}

pub byte_length_pos : (n : ℕ) → 0 < n → 0 < byte_length n
byte_length_pos n h = elim (Bool-cases (byte_length n == 0)) [
  | inl e ↦
      let z : byte_length n ≡ 0 = (==_iff _ 0).0 e in
      absurd (omega (arith, rw z at (lt-pow-byte_length n)))
  | inr e ↦ ground arith
]

pub rlp_header-short :
    (size offset : ℕ) → ltb size 56 ≡ true → rlp_header size offset ≡ (offset + size) ∷ []
unfolding rlp_header
rlp_header-short size offset h = rw h

pub rlp_header-long :
    (size offset : ℕ)
    → ltb size 56 ≡ false
    → rlp_header size offset ≡ (offset + 55 + byte_length size) ∷ to_bytes size (byte_length size)
unfolding rlp_header
rlp_header-long size offset h = rw h

module _ (p : Bytes) (r : Bytes) where
  -- The length bytes behind the head.
  slice_size :
      (head size n : ℕ)
      → slice (length p + 1) (length p + 1 + n) (p ++ (head ∷ (to_bytes size n ++ r)))
        ≡ to_bytes size n
  slice_size head size n = rw (← append_assoc p (head ∷ []) (to_bytes size n ++ r)) (
      slice-append (p ++ (head ∷ [])) (to_bytes size n) r (length p + 1) (length p + 1 + n)
        (omega (arith, length-append p (head ∷ [])))
        (omega (arith, length-append p (head ∷ []), length-to_bytes size n)))

  size_read :
      (head size n m : ℕ)
      → m ≡ n
      → size < 256 ^ n
      → from_bytes (slice (length p + 1) (length p + 1 + m) (p ++ (head ∷ (to_bytes size n ++ r))))
        ≡ size
  size_read head size n m e fits = rw (e, slice_size head size n) (from_bytes-to_bytes size n fits)

  short_item :
      (offset size : ℕ)
      → (offset ≡ 0x80) ⊎ (offset ≡ 0xc0)
      → size < 56
      → item_at (p ++ ((offset + size) ∷ r)) (length p)
        ≡ item (length p) (length p + 1) (length p + 1 + size)
  unfolding item_at
  short_item offset size h small = rw get_or-append (ground arith)

  long_item :
      (offset size n : ℕ)
      → (offset ≡ 0x80) ⊎ (offset ≡ 0xc0)
      → 0 < n
      → n ≤ 8
      → size < 256 ^ n
      → item_at (p ++ ((offset + 55 + n) ∷ (to_bytes size n ++ r))) (length p)
        ≡ item (length p) (length p + 1 + n) (length p + 1 + n + size)
  unfolding item_at
  long_item offset size n h lo hi fits = rw get_or-append (
      ground (
        arith,
        size_read (offset + 55 + n) size n (offset + 55 + n - 0xb7),
        size_read (offset + 55 + n) size n (offset + 55 + n - 0xf7),
      ))

  -- An item of `size` bytes behind its header.
  header_item :
      (offset size : ℕ)
      → (offset ≡ 0x80) ⊎ (offset ≡ 0xc0)
      → size < 256 ^ 8
      → item_at (p ++ (rlp_header size offset ++ r)) (length p)
        ≡ item
            (length p)
            (length p + length (rlp_header size offset))
            (length p + length (rlp_header size offset) + size)
  header_item offset size h fits = elim (Bool-cases (ltb size 56)) [
    | inl small ↦
        rw (rlp_header-short size offset small) (short_item offset size h (ltb→lt size 56 small))
    | inr large ↦ rw (rlp_header-long size offset large) (
        let e =
          long_item offset size (byte_length size) h
            (byte_length_pos size (omega (arith, ltb_false→le size 56 large)))
            (byte_length-le size 8 fits) (lt-pow-byte_length size) in
        ground (arith, e, length-to_bytes size (byte_length size)))
  ]

single_item :
    (p r : Bytes) (c : ℕ)
    → c < 0x80
    → item_at (p ++ (c ∷ r)) (length p) ≡ item (length p) (length p) (length p + 1)
unfolding item_at
single_item p r c h = rw get_or-append (ground arith)

pub rlp_bytes_single : (c : ℕ) → c < 0x80 → rlp_bytes (c ∷ []) ≡ c ∷ []
unfolding rlp_bytes
rlp_bytes_single c h = ground arith

pub rlp_bytes_header :
    (b : Bytes)
    → (length b == 1 && ltb (byte_at b 0) 0x80) ≡ false
    → rlp_bytes b ≡ rlp_header (length b) 0x80 ++ b
unfolding rlp_bytes
rlp_bytes_header b h = rw h

prefixed_item :
    (p r c : Bytes) (offset : ℕ)
    → (offset ≡ 0x80) ⊎ (offset ≡ 0xc0)
    → Fits c
    → item_at (p ++ ((rlp_header (length c) offset ++ c) ++ r)) (length p)
      ≡ item
          (length p)
          (length p + length (rlp_header (length c) offset ++ c) - length c)
          (length p + length (rlp_header (length c) offset ++ c))
prefixed_item p r c offset h fits = rw append_assoc (
    ground (
      arith,
      header_item p (c ++ r) offset (length c) h fits,
      length-append (rlp_header (length c) offset) c,
    ))

pub single_or_not :
    (b : Bytes)
    → ((c : ℕ) × (b ≡ c ∷ []) × (c < 0x80)) ⊎ ((length b == 1 && ltb (byte_at b 0) 0x80) ≡ false)
single_or_not [] = inr refl
single_or_not (c ∷ []) = elim (Bool-cases (ltb c 0x80)) [
  | inl small ↦ inl (c, refl, ltb→lt c 0x80 small)
  | inr large ↦ inr large
]
single_or_not (c ∷ d ∷ r) = inr (ground arith)

-- The scanner's round on an encoded field finds the field's place and its payload.
pub item_at-encode :
    (p r : Bytes) (f : Field)
    → FieldFits f
    → item_at (p ++ (encode f ++ r)) (length p)
      ≡ item
          (length p)
          (length p + length (encode f) - length (payload f))
          (length p + length (encode f))
item_at-encode p r (nested c) fits = unfold rlp_list in prefixed_item p r c 0xc0 (inr refl) fits
item_at-encode p r (string b) fits = elim (single_or_not b) [
  | inl (c, e, small) ↦ rw (e, rlp_bytes_single c small) (ground (arith, single_item p r c small))
  | inr other ↦ rw (rlp_bytes_header b other) (prefixed_item p r b 0x80 (inl refl) fits)
]
