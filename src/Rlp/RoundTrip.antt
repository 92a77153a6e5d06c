-- ===== src/Rlp/RoundTrip.antt =====
-- The scanner reads back what the encoders wrote.
use robinhood_chain_sequence.Prelude.{
  ℕ, zero, suc, ◌+◌, ◌-◌, ◌<◌, ◌≤◌, ◌^◌, ◌≡◌, refl, ap, ◌∙◌, arith, List, [], ◌∷◌, ◌++◌, ltb,
  length, length-append, append_assoc, inl, inr, Bool-cases, ltb→lt, ltb_false→le, le→ltb_false,
  All, ok, slice, slice-append,
}
use mathlib.Core.Path.{ap₂}
use robinhood_chain_sequence.Bytes.{Bytes, from_bytes, byte_length, to_bytes}
use robinhood_chain_sequence.Bytes.Numbers.{
  length-to_bytes, from_bytes-to_bytes, lt-pow-byte_length, byte_length-le,
}
use robinhood_chain_sequence.Rlp.{
  Item, item, item_at, scan_items, list_bounds, scan_list, rlp_header, rlp_list, byte_at,
}
use robinhood_chain_sequence.Rlp.Fields.{
  Field, string, nested, encode, encode_all, payload, payloads, Fits, FieldFits, positions,
}
use robinhood_chain_sequence.Rlp.Encode.{
  item_at-encode, rlp_header-short, rlp_header-long, byte_length_pos, single_or_not,
  rlp_bytes_single, rlp_bytes_header,
}

pub length-rlp_header_pos : (size offset : ℕ) → 0 < length (rlp_header size offset)
unfolding rlp_header
length-rlp_header_pos size offset = ground arith

-- An encoding ends in its payload.
pub encode_split : (f : Field) → (h : Bytes) × (encode f ≡ h ++ payload f)
encode_split (nested c) = unfold rlp_list in (rlp_header (length c) 0xc0, refl)
encode_split (string b) = elim (single_or_not b) [
  | inl (c, e, small) ↦ ([], rw (e, rlp_bytes_single c small))
  | inr other ↦ (rlp_header (length b) 0x80, rlp_bytes_header b other)
]

pub length-encode_pos : (f : Field) → 0 < length (encode f)
length-encode_pos (nested c) =
    unfold rlp_list in
    omega
      (arith, length-append (rlp_header (length c) 0xc0) c, length-rlp_header_pos (length c) 0xc0)
length-encode_pos (string b) = elim (single_or_not b) [
  | inl (c, e, small) ↦ rw (e, rlp_bytes_single c small) (omega arith)
  | inr other ↦ rw (rlp_bytes_header b other) (
      omega (
        arith,
        length-append (rlp_header (length b) 0x80) b,
        length-rlp_header_pos (length b) 0x80,
      ))
]

regroup : (p a b q : Bytes) → p ++ ((a ++ b) ++ q) ≡ (p ++ a) ++ (b ++ q)
regroup p a b q = simp append_assoc

scan_items_step :
    (fuel : ℕ) (buf : Bytes) (i end : ℕ) (found : Item) (items : List Item)
    → i < end
    → item_at buf i ≡ found
    → scan_items fuel buf found.payload_end end ≡ ok items
    → scan_items (suc fuel) buf i end ≡ ok (found ∷ items)
unfolding scan_items
scan_items_step fuel buf i end found items h e r = ground (arith, e, r)

pub scan_items-encode :
    (fs : List Field) (p q : Bytes) (fuel i end : ℕ)
    → All FieldFits fs
    → length (encode_all fs) < fuel
    → i ≡ length p
    → end ≡ i + length (encode_all fs)
    → scan_items fuel (p ++ (encode_all fs ++ q)) i end ≡ ok (positions i fs)
scan_items-encode [] p q zero i end fits h ei ee = absurd (omega arith)
scan_items-encode [] p q (suc fuel) i end fits h ei ee = unfold scan_items in ground arith
scan_items-encode (f ∷ fs) p q zero i end fits h ei ee = absurd (omega arith)
scan_items-encode (f ∷ fs) p q (suc fuel) i end (fit, fits) h ei ee =
    scan_items_step fuel (p ++ ((encode f ++ encode_all fs) ++ q)) i end
      (item i (i + length (encode f) - length (payload f)) (i + length (encode f)))
      (positions (i + length (encode f)) fs)
      (omega (arith, length-append (encode f) (encode_all fs), length-encode_pos f))
      (rw (ei, append_assoc) (item_at-encode p (encode_all fs ++ q) f fit))
      (rw (regroup p (encode f) (encode_all fs) q) (
        scan_items-encode fs (p ++ encode f) q fuel (i + length (encode f)) end fits
          (omega (arith, length-append (encode f) (encode_all fs), length-encode_pos f))
          (omega (arith, length-append p (encode f)))
          (omega (arith, length-append (encode f) (encode_all fs)))))

-- What the scanner does with a list that is long enough.
scan_list_step :
    (buf : Bytes) (i end : ℕ)
    → list_bounds buf ≡ (i, end)
    → 0xc0 ≤ byte_at buf 0
    → end ≤ length buf
    → scan_list buf ≡ scan_items (suc (length buf)) buf i end
scan_list_step [] i end e h l = absurd (omega arith)
scan_list_step (head ∷ rest) i end e h l =
    unfold scan_list in rw e (rw (le→ltb_false head 0xc0 h, le→ltb_false _ end l))

long_bounds :
    (size n : ℕ) (r : Bytes)
    → 0 < n
    → n ≤ 8
    → size < 256 ^ n
    → list_bounds ((0xc0 + 55 + n) ∷ (to_bytes size n ++ r)) ≡ (1 + n, 1 + n + size)
unfolding list_bounds
long_bounds size n r lo hi fits = ground (arith, read (0xc0 + 55 + n - 0xf7))
  where
    read :
        (m : ℕ)
        → m ≡ n
        → from_bytes (slice 1 (1 + m) ((0xc0 + 55 + n) ∷ (to_bytes size n ++ r))) ≡ size
    read m e =
        rw
          (
            e,
            slice-append ((0xc0 + 55 + n) ∷ []) (to_bytes size n) r 1 (1 + n) refl
                (omega (arith, length-to_bytes size n)),
          )
          (from_bytes-to_bytes size n fits)

pub header_bounds :
    (size : ℕ) (r : Bytes)
    → size < 256 ^ 8
    → (list_bounds (rlp_header size 0xc0 ++ r)
        ≡ (length (rlp_header size 0xc0), length (rlp_header size 0xc0) + size))
      × (0xc0 ≤ byte_at (rlp_header size 0xc0 ++ r) 0)
header_bounds size r fits = elim (Bool-cases (ltb size 56)) [
  | inl small ↦
      rw (rlp_header-short size 0xc0 small)
        (unfold list_bounds in ground (arith, ltb→lt size 56 small), omega arith)
  | inr large ↦ rw (rlp_header-long size 0xc0 large) (
    ground (
      arith,
      long_bounds size (byte_length size) r
          (byte_length_pos size (omega (arith, ltb_false→le size 56 large)))
          (byte_length-le size 8 fits) (lt-pow-byte_length size),
      length-to_bytes size (byte_length size),
    ),
    omega arith,
  )
]

-- The scanner finds the fields of an encoded list, each at its place, whatever follows the list.
pub scan_list-rlp_list :
    (fs : List Field) (rest : Bytes)
    → All FieldFits fs
    → Fits (encode_all fs)
    → scan_list (rlp_list (encode_all fs) ++ rest)
      ≡ ok (positions (length (rlp_header (length (encode_all fs)) 0xc0)) fs)
unfolding rlp_list
scan_list-rlp_list fs rest fits fit =
    let c = encode_all fs in
    let head = rlp_header (length c) 0xc0 in
    let (bounds, big) = header_bounds (length c) (c ++ rest) fit in
    rw append_assoc (
      scan_list_step (head ++ (c ++ rest)) (length head) (length head + length c) bounds big
        (omega (arith, length-append head (c ++ rest), length-append c rest))
      ∙ scan_items-encode fs head rest (suc (length (head ++ (c ++ rest)))) (length head)
          (length head + length c) fits
          (omega (arith, length-append head (c ++ rest), length-append c rest)) refl refl)

-- buf[s:e] for the payload of every item found.
abbrev pub read_all : Bytes → List Item → List Bytes
read_all buf [] = []
read_all buf (it ∷ items) = slice it.payload_start it.payload_end buf ∷ read_all buf items

read_field :
    (p q : Bytes) (f : Field) (i : ℕ)
    → i ≡ length p
    → slice
        (i + length (encode f) - length (payload f))
        (i + length (encode f))
        (p ++ (encode f ++ q))
      ≡ payload f
read_field p q f i e =
    let (h, split) = encode_split f in
    let sizes : length (encode f) ≡ length h + length (payload f) =
      ap length split ∙ length-append h (payload f) in
    let whole : p ++ (encode f ++ q) ≡ (p ++ h) ++ (payload f ++ q) =
      rw split (regroup p h (payload f) q) in
    rw whole (
      slice-append (p ++ h) (payload f) q (i + length (encode f) - length (payload f))
        (i + length (encode f)) (omega (arith, length-append p h))
        (omega (arith, length-append p h)))

pub read_all-positions :
    (fs : List Field) (p q : Bytes) (i : ℕ)
    → i ≡ length p
    → read_all (p ++ (encode_all fs ++ q)) (positions i fs) ≡ payloads fs
read_all-positions [] p q i e = refl
read_all-positions (f ∷ fs) p q i e =
    let whole : p ++ (encode_all (f ∷ fs) ++ q) ≡ (p ++ encode f) ++ (encode_all fs ++ q) =
      regroup p (encode f) (encode_all fs) q in
    let first : p ++ (encode_all (f ∷ fs) ++ q) ≡ p ++ (encode f ++ (encode_all fs ++ q)) =
      ap (λ r. p ++ r) (append_assoc (encode f) (encode_all fs) q) in
    ap₂ (λ x xs. x ∷ xs) (ap (slice _ _) first ∙ read_field p (encode_all fs ++ q) f i e)
      (ap (λ b. read_all b (positions (i + length (encode f)) fs)) whole
        ∙ read_all-positions fs (p ++ encode f) q (i + length (encode f))
            (omega (arith, length-append p (encode f))))

-- Slicing an encoded list at the places that the scanner reports gives the payloads, in order.
pub read_all-rlp_list :
    (fs : List Field) (rest : Bytes)
    → read_all
        (rlp_list (encode_all fs) ++ rest)
        (positions (length (rlp_header (length (encode_all fs)) 0xc0)) fs)
      ≡ payloads fs
unfolding rlp_list
read_all-rlp_list fs rest =
    rw append_assoc (read_all-positions fs (rlp_header (length (encode_all fs)) 0xc0) rest _ refl)
