-- ===== src/L2/Unsigned.antt =====
-- `_check_unsigned_tx` against the words that it is about.
use robinhood_chain_sequence.Prelude.{
  ℕ, zero, suc, ◌+◌, ◌-◌, ◌*◌, ◌^◌, ◌≤◌, ◌<◌, ◌≡◌, ◌↔◌, refl, sym, ap, ◌∙◌, arith, [], ◌∷◌, ◌++◌,
  All, length, slice, take, drop, take-append-drop, false, ◌==◌, ==_iff, slice_head, length-slice,
  length-drop, Bool-cases, inl, inr, ok,
}
use robinhood_chain_sequence.Bytes.{Bytes, IsByte, from_bytes, from_bytes_acc, any}
use robinhood_chain_sequence.Bytes.Numbers.{from_bytes_acc-append, from_bytes-lt, pow-256_suc}
use robinhood_chain_sequence.L2.{check_unsigned_tx}

from_bytes_acc_lem :
    (acc : ℕ) (bs : Bytes) → from_bytes_acc acc bs ≡ acc * 256 ^ length bs + from_bytes_acc 0 bs
unfolding from_bytes_acc
from_bytes_acc_lem acc [] = omega arith
from_bytes_acc_lem acc (b ∷ bs) = grind (
  arith,
  from_bytes_acc_lem (acc * 256 + b) bs,
  from_bytes_acc_lem (0 * 256 + b) bs,
  ap (λ (t : ℕ). acc * t) (pow-256_suc (length bs)),
)

from_bytes-append :
    (bs cs : Bytes) → from_bytes (bs ++ cs) ≡ from_bytes bs * 256 ^ length cs + from_bytes cs
unfolding from_bytes
from_bytes-append bs cs =
    from_bytes_acc-append 0 bs cs ∙ from_bytes_acc_lem (from_bytes_acc 0 bs) cs

from_bytes_cons : (b : ℕ) (bs : Bytes) → from_bytes (b ∷ bs) ≡ b * 256 ^ length bs + from_bytes bs
unfolding from_bytes from_bytes_acc
from_bytes_cons b bs =
    from_bytes_acc_lem (0 * 256 + b) bs
    ∙ ap (λ n. n * 256 ^ length bs + from_bytes_acc 0 bs) (omega arith)

pow_pos : (n : ℕ) → 0 < 256 ^ n
pow_pos zero = omega arith
pow_pos (suc n) = omega (arith, pow_pos n, pow-256_suc n)

-- Bytes are all zero just when they stand for 0.
zero-any : (bs : Bytes) → any bs ≡ false → from_bytes bs ≡ 0
unfolding any
zero-any [] h = unfold from_bytes in refl
zero-any (b ∷ bs) h = elim (Bool-cases (b == 0)) [
  | inl e ↦
      let z : b ≡ 0 = (==_iff b 0).0 e in
      from_bytes_cons b bs ∙ omega (arith, zero-any bs (rw e at h), ap (λ n. n * 256 ^ length bs) z)
  | inr e ↦ absurd (ground arith)
]

any-zero : (bs : Bytes) → from_bytes bs ≡ 0 → any bs ≡ false
unfolding any
any-zero [] h = refl
any-zero (b ∷ bs) h = elim (Bool-cases (b == 0)) [
  | inl e ↦ rw e (any-zero bs (omega (arith, from_bytes_cons b bs)))
  | inr e ↦ absurd (grind (arith, from_bytes_cons b bs, ==_iff b 0, pow_pos (length bs)))
]

All-take : (n : ℕ) (bs : Bytes) → All IsByte bs → All IsByte (take n bs)
All-take zero bs h = tt
All-take (suc n) [] h = tt
All-take (suc n) (b ∷ bs) (hb, h) = (hb, All-take n bs h)

All-drop : (n : ℕ) (bs : Bytes) → All IsByte bs → All IsByte (drop n bs)
All-drop zero bs h = h
All-drop (suc n) [] h = tt
All-drop (suc n) (b ∷ bs) (hb, h) = All-drop n bs h

-- The first 24 bytes of a word are zero just when its number fits in 64 bits.
high_zero :
    (w : Bytes) → length w ≡ 32 → All IsByte w → (any (take 24 w) ≡ false) ↔ (from_bytes w < 2 ^ 64)
high_zero w hw hb =
    let low : Bytes = drop 24 w in
    let split : from_bytes w ≡ from_bytes (take 24 w) * 256 ^ length low + from_bytes low =
      ap from_bytes (sym (take-append-drop 24 w)) ∙ from_bytes-append (take 24 w) low in
    let eight : length low ≡ 8 = omega (arith, length-drop 24 w) in
    let split' : from_bytes w ≡ from_bytes (take 24 w) * 256 ^ 8 + from_bytes low =
      split ∙ ap (λ n. from_bytes (take 24 w) * 256 ^ n + from_bytes low) eight in
    let small : from_bytes low < 256 ^ 8 = rw eight at (from_bytes-lt low (All-drop 24 w hb)) in
    (λ h. omega (arith, zero-any (take 24 w) h), λ h. any-zero (take 24 w) (omega arith))

All-slice : (s e : ℕ) (bs : Bytes) → All IsByte bs → All IsByte (slice s e bs)
unfolding slice
All-slice s e bs h = All-take (e - s) (drop s bs) (All-drop s bs h)

high_bytes :
    (body : Bytes) (s : ℕ)
    → s + 32 ≤ length body
    → All IsByte body
    → (any (slice s (s + 24) body) ≡ false) ↔ (from_bytes (slice s (s + 32) body) < 2 ^ 64)
high_bytes body s room hb = rw (slice_head 24 s (s + 32) body (omega arith)) (
    high_zero (slice s (s + 32) body) (length-slice s (s + 32) body room ∙ omega arith)
      (All-slice s (s + 32) body hb))

-- An unsigned user transaction (kind 0) passes its check just when it holds five words, and its gas
-- limit and its nonce, the first and the third word, are below 2 ^ 64. A contract transaction
-- (kind 1) passes just when it holds four words and its gas limit is below 2 ^ 64. The body is any
-- list of bytes.
pub check_unsigned_tx_lem :
    (body : Bytes)
    → All IsByte body
    → ((check_unsigned_tx body 0 ≡ ok tt) ↔ (
        (160 ≤ length body)
        × (from_bytes (slice 0 32 body) < 2 ^ 64)
        × (from_bytes (slice 64 96 body) < 2 ^ 64)))
      × ((check_unsigned_tx body 1 ≡ ok tt)
          ↔ ((128 ≤ length body) × (from_bytes (slice 0 32 body) < 2 ^ 64)))
unfolding check_unsigned_tx
check_unsigned_tx_lem body hb = (
  (
    λ h.
        let room : 160 ≤ length body = ground arith in
        (
          room,
          (high_bytes body 0 (omega arith) hb).0 (ground arith),
          (high_bytes body 64 (omega arith) hb).0 (ground arith),
        ),
    λ (room, gas, nonce). ground (
      arith,
      (high_bytes body 0 (omega arith) hb).1 gas,
      (high_bytes body 64 (omega arith) hb).1 nonce,
    ),
  ),
  (
    λ h.
        let room : 128 ≤ length body = ground arith in
        (room, (high_bytes body 0 (omega arith) hb).0 (ground arith)),
    λ (room, gas). ground (arith, (high_bytes body 0 (omega arith) hb).1 gas),
  ),
)
