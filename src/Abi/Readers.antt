-- ===== src/Abi/Readers.antt =====
-- The readers against the encoding that the contract ABI prescribes: heads of 32-byte words, and
-- tails behind them.
use robinhood_chain_sequence.Prelude.{
  ℕ, ◌+◌, ◌*◌, ◌%◌, ◌^◌, ◌≤◌, ◌<◌, ◌≡◌, refl, sym, ap, ◌∙◌, arith, ◌++◌, length, length-append,
  slice, append_assoc, slice-append, ok,
}
use robinhood_chain_sequence.Bytes.{Bytes, from_bytes, to_bytes, zeros, bytes_eq}
use robinhood_chain_sequence.Bytes.Numbers.{from_bytes-to_bytes, length-to_bytes}
use robinhood_chain_sequence.Abi.{word, uint, address, offset, blob_at, dynamic}

-- `bs` holds the bytes `part` from place `at` on.
pub record Holds (bs : Bytes) (at : ℕ) (part : Bytes) : Type 0 where
  pub before : Bytes
  pub after : Bytes
  pub whole : bs ≡ before ++ (part ++ after)
  pub place : length before ≡ at

Holds-slice :
    (bs : Bytes) (at : ℕ) (part : Bytes)
    → Holds bs at part
    → (slice at (at + length part) bs ≡ part) × (at + length part ≤ length bs)
Holds-slice bs at part h = (
  ap (slice at (at + length part)) h.whole
      ∙ slice-append h.before part h.after at (at + length part) (sym h.place)
          (omega (arith, h.place)),
  omega (
    arith,
    ap length h.whole,
    h.place,
    length-append h.before (part ++ h.after),
    length-append part h.after,
  ),
)

pub word_lem :
    (bs : Bytes) (i : ℕ) (w : Bytes) → length w ≡ 32 → Holds bs (i * 32) w → word bs i ≡ ok w
unfolding word
word_lem bs i w size h =
    let (read, room) = Holds-slice bs (i * 32) w h in
    ground (arith, ap (λ n. slice (i * 32) (i * 32 + n) bs) size, read)

pub uint_lem :
    (bs : Bytes) (i n : ℕ) → n < 256 ^ 32 → Holds bs (i * 32) (to_bytes n 32) → uint bs i ≡ ok n
unfolding uint
uint_lem bs i n small h =
    rw (word_lem bs i (to_bytes n 32) (length-to_bytes n 32) h)
      (ap ok (from_bytes-to_bytes n 32 small))

offset_lem :
    (bs : Bytes) (i off : ℕ)
    → off < 256 ^ 32
    → off % 32 ≡ 0
    → off + 32 ≤ length bs
    → Holds bs (i * 32) (to_bytes off 32)
    → offset bs i ≡ ok off
unfolding offset
offset_lem bs i off small whole room h = rw (uint_lem bs i off small h) (ground arith)

-- Two parts that follow each other.
Holds-first : (bs : Bytes) (at : ℕ) (p q : Bytes) → Holds bs at (p ++ q) → Holds bs at p
Holds-first bs at p q h = record {
  before = h.before;
  after = q ++ h.after;
  whole = h.whole ∙ ap (λ r. h.before ++ r) (append_assoc p q h.after);
  place = h.place;
}

Holds-second :
    (bs : Bytes) (at : ℕ) (p q : Bytes) → Holds bs at (p ++ q) → Holds bs (at + length p) q
Holds-second bs at p q h = record {
  before = h.before ++ p;
  after = h.after;
  whole =
      h.whole
      ∙ ap (λ r. h.before ++ r) (append_assoc p q h.after)
      ∙ sym (append_assoc h.before p (q ++ h.after));
  place = omega (arith, length-append h.before p, h.place);
}

blob_at_lem :
    (bs : Bytes) (off : ℕ) (size blob : Bytes)
    → length size ≡ 32
    → from_bytes size ≡ length blob
    → Holds bs off (size ++ blob)
    → blob_at bs off ≡ ok blob
unfolding blob_at
blob_at_lem bs off size blob width count h =
    let (read, room) = Holds-slice bs off size (Holds-first bs off size blob h) in
    let (read', room') =
      Holds-slice bs (off + length size) blob (Holds-second bs off size blob h) in
    let counted : from_bytes (slice off (off + 32) bs) ≡ length blob =
      ap from_bytes (ap (λ n. slice off (off + n) bs) (sym width) ∙ read) ∙ count in
    rw counted (ground (arith, ap (λ n. slice (off + n) (off + n + length blob) bs) width, read'))

-- A dynamic argument reads back: where word `i` of the head is the offset of a tail, and the tail is
-- a word that says how many bytes follow and those bytes, `dynamic` returns them. The offset is a
-- multiple of 32.
pub dynamic_lem :
    (bs : Bytes) (i off : ℕ) (size blob : Bytes)
    → off < 256 ^ 32
    → off % 32 ≡ 0
    → length size ≡ 32
    → from_bytes size ≡ length blob
    → Holds bs (i * 32) (to_bytes off 32)
    → Holds bs off (size ++ blob)
    → dynamic bs i ≡ ok blob
unfolding dynamic
dynamic_lem bs i off size blob small whole width count head tail =
    let room : off + length size ≤ length bs =
      (Holds-slice bs off size (Holds-first bs off size blob tail)).1 in
    rw (offset_lem bs i off small whole (omega (arith, width)) head)
      (blob_at_lem bs off size blob width count tail)

-- An address argument reads back: word `i` is twelve zeros and the address.
pub address_lem :
    (bs : Bytes) (i : ℕ) (a : Bytes)
    → length a ≡ 20
    → Holds bs (i * 32) (zeros 12 ++ a)
    → address bs i ≡ ok a
unfolding address
address_lem bs i a size h =
    rw (word_lem bs i (zeros 12 ++ a) (omega (arith, length-append (zeros 12) a)) h)
      (unfold slice bytes_eq in refl)
