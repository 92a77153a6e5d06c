-- ===== src/Bytes/Numbers.antt =====
-- Numbers to bytes and back.
use robinhood_chain_sequence.Prelude.{
  ℕ, zero, suc, ◌+◌, ◌*◌, ◌/◌, ◌%◌, ◌^◌, ◌≤◌, ◌<◌, ◌≡◌, refl, ap, arith, [], ◌∷◌, ◌++◌, ◌==◌,
  ==_iff, All, All-append, length, length-append, every, every_lem, true, inl, inr, Bool-cases, ltb,
  ltb→lt, ltb_false→le,
}
use robinhood_chain_sequence.Bytes.{
  Bytes, IsByte, from_bytes_acc, from_bytes, to_bytes, bit_length_from, bit_length, byte_length,
}

pub from_bytes_acc-append :
    (acc : ℕ) (bs cs : Bytes)
    → from_bytes_acc acc (bs ++ cs) ≡ from_bytes_acc (from_bytes_acc acc bs) cs
unfolding from_bytes_acc
from_bytes_acc-append acc [] cs = refl
from_bytes_acc-append acc (b ∷ bs) cs = from_bytes_acc-append (acc * 256 + b) bs cs

pub from_bytes-snoc : (bs : Bytes) (b : ℕ) → from_bytes (bs ++ (b ∷ [])) ≡ from_bytes bs * 256 + b
unfolding from_bytes
from_bytes-snoc bs b = from_bytes_acc-append 0 bs (b ∷ [])

pub pow-256_suc : (n : ℕ) → 256 ^ suc n ≡ 256 ^ n * 256
pow-256_suc n = omega arith

pub length-to_bytes : (v n : ℕ) → length (to_bytes v n) ≡ n
unfolding to_bytes
length-to_bytes v zero = refl
length-to_bytes v (suc n) =
    omega (arith, length-append (to_bytes (v / 256) n) (v % 256 ∷ []), length-to_bytes (v / 256) n)

-- A number that fits is read back.
pub from_bytes-to_bytes : (v n : ℕ) → v < 256 ^ n → from_bytes (to_bytes v n) ≡ v
unfolding to_bytes
from_bytes-to_bytes v zero h = unfold from_bytes in omega arith
from_bytes-to_bytes v (suc n) h =
    rw from_bytes-snoc
      (omega (arith, from_bytes-to_bytes (v / 256) n (omega (arith, pow-256_suc n))))

pub to_bytes-IsByte : (v n : ℕ) → All IsByte (to_bytes v n)
unfolding to_bytes
to_bytes-IsByte v zero = tt
to_bytes-IsByte v (suc n) =
    All-append IsByte (to_bytes (v / 256) n) (v % 256 ∷ []) (to_bytes-IsByte (v / 256) n)
      (omega arith)

from_bytes_acc-lt :
    (acc m : ℕ) (bs : Bytes) → acc < m → All IsByte bs → from_bytes_acc acc bs < m * 256 ^ length bs
unfolding from_bytes_acc
from_bytes_acc-lt acc m [] h hs = omega arith
from_bytes_acc-lt acc m (b ∷ bs) h (hb, hs) = omega (
  arith,
  from_bytes_acc-lt (acc * 256 + b) (m * 256) bs (omega arith) hs,
  ap (λ (t : ℕ). m * t) (pow-256_suc (length bs)),
)

pub from_bytes-lt : (bs : Bytes) → All IsByte bs → from_bytes bs < 256 ^ length bs
unfolding from_bytes
from_bytes-lt bs h = omega (arith, from_bytes_acc-lt 0 1 bs (omega arith) h)

bit_length_from_fuel : (f g n : ℕ) → n ≤ f → n ≤ g → bit_length_from f n ≡ bit_length_from g n
unfolding bit_length_from
bit_length_from_fuel zero zero n hf hg = refl
bit_length_from_fuel zero (suc g) n hf hg = ground arith
bit_length_from_fuel (suc f) zero n hf hg = ground arith
bit_length_from_fuel (suc f) (suc g) n hf hg = ground (arith, bit_length_from_fuel f g (n / 2))

bit_length-half : (n : ℕ) → 0 < n → bit_length n ≡ suc (bit_length (n / 2))
unfolding bit_length bit_length_from
bit_length-half zero h = absurd (omega arith)
bit_length-half (suc n) h = ground (arith, bit_length_from_fuel n (suc n / 2) (suc n / 2))

bit_length-quarter : (n : ℕ) → 2 ≤ n → bit_length n ≡ 2 + bit_length (n / 4)
bit_length-quarter n h =
    let e : n / 2 / 2 ≡ n / 4 = omega arith in
    omega (arith, bit_length-half n, bit_length-half (n / 2), ap bit_length e)

bit_length-nibble : (n : ℕ) → 8 ≤ n → bit_length n ≡ 4 + bit_length (n / 16)
bit_length-nibble n h =
    let e : n / 4 / 4 ≡ n / 16 = omega arith in
    omega (arith, bit_length-quarter n, bit_length-quarter (n / 4), ap bit_length e)

bit_length-byte : (n : ℕ) → 128 ≤ n → bit_length n ≡ 8 + bit_length (n / 256)
bit_length-byte n h =
    let e : n / 16 / 16 ≡ n / 256 = omega arith in
    omega (arith, bit_length-nibble n, bit_length-nibble (n / 16), ap bit_length e)

pub byte_length-step : (n : ℕ) → 256 ≤ n → byte_length n ≡ suc (byte_length (n / 256))
unfolding byte_length
byte_length-step n h = omega (arith, bit_length-byte n)

small_table : every (λ x. byte_length (suc x) == 1) 255 ≡ true
unfolding every byte_length bit_length
small_table = refl

pub byte_length_small : (n : ℕ) → 0 < n → n < 256 → byte_length n ≡ 1
byte_length_small zero p h = absurd (omega arith)
byte_length_small (suc n) p h =
    (==_iff _ 1).0 (every_lem (λ x. byte_length (suc x) == 1) 255 n (omega arith) small_table)

pub byte_length_zero : byte_length 0 ≡ 0
unfolding byte_length bit_length
byte_length_zero = refl

-- The size of a number in bytes: it fits, and one byte fewer would not do.
byte_length_bound_fuel :
    (f n : ℕ) → n ≤ f → (n < 256 ^ byte_length n) × (0 < n → 256 ^ byte_length n ≤ n * 256)
byte_length_bound_fuel zero n h =
    let e : n ≡ 0 = omega arith in rw (e, byte_length_zero) (omega arith, λ p. omega arith)
byte_length_bound_fuel (suc f) n h = elim (Bool-cases (ltb n 256)) [
  | inl small ↦ elim (Bool-cases (n == 0)) [
    | inl zero_case ↦
        let e : n ≡ 0 = (==_iff n 0).0 zero_case in
        rw (e, byte_length_zero) (omega arith, λ p. omega arith)
    | inr pos_case ↦
        let p : 0 < n = ground arith in
        rw (byte_length_small n p (ltb→lt n 256 small)) (ltb→lt n 256 small, λ q. omega arith)
  ]
  | inr large ↦
      let p : 256 ≤ n = ltb_false→le n 256 large in
      let (lo, hi) = byte_length_bound_fuel f (n / 256) (omega arith) in
      let up : 256 ^ byte_length (n / 256) ≤ n / 256 * 256 = hi (omega arith) in
      rw (byte_length-step n p) (
        omega (arith, pow-256_suc (byte_length (n / 256))),
        λ q. omega (arith, pow-256_suc (byte_length (n / 256))),
      )
]

pub lt-pow-byte_length : (n : ℕ) → n < 256 ^ byte_length n
lt-pow-byte_length n = (byte_length_bound_fuel n n (omega arith)).0

pub pow-byte_length-le : (n : ℕ) → 0 < n → 256 ^ byte_length n ≤ n * 256
pow-byte_length-le n = (byte_length_bound_fuel n n (omega arith)).1

-- A number below 256 ^ k takes at most k bytes.
pub byte_length-le : (n k : ℕ) → n < 256 ^ k → byte_length n ≤ k
byte_length-le n zero h = let e : n ≡ 0 = omega arith in rw (e, byte_length_zero) (omega arith)
byte_length-le n (suc k) h = elim (Bool-cases (ltb n 256)) [
  | inl small ↦ elim (Bool-cases (n == 0)) [
    | inl none_left ↦
        let e : n ≡ 0 = (==_iff n 0).0 none_left in rw (e, byte_length_zero) (omega arith)
    | inr some_left ↦ rw (byte_length_small n (ground arith) (ltb→lt n 256 small)) (omega arith)
  ]
  | inr large ↦
      rw (byte_length-step n (ltb_false→le n 256 large))
        (omega (arith, byte_length-le (n / 256) k (omega (arith, pow-256_suc k))))
]
