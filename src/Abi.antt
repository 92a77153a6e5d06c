-- ===== src/Abi.antt =====
-- abi.py: ABI-encoded arguments, read slot by slot. Every reader raises `Malformed` when the payload
-- cannot hold what is asked.
pub mod Readers
pub mod Malformed
pub mod Examples
use robinhood_chain_sequence.Prelude.{
  ℕ, zero, suc, ◌+◌, ◌*◌, ◌/◌, ◌%◌, Option, none, some, List, [], ◌∷◌, ◌||◌, not, Result, ok, err,
  malformed, ◌>>=◌, traverse, ltb, ◌==◌, if◌then◌else◌, length, slice, drop, replicate,
}
use robinhood_chain_sequence.Bytes.{Bytes, from_bytes, bytes_eq, zeros}

abbrev pub word_size : ℕ
word_size = 32

-- The zero address.
abbrev pub zero_address : Bytes
zero_address = zeros 20

-- The address that stands for ETH.
abbrev pub native : Bytes
native = replicate 20 0xee

unfoldable pub word : Bytes → ℕ → Result Bytes
word bs i =
    let start = i * word_size in
    let end = start + word_size in
    if ltb (length bs) end then err malformed else ok (slice start end bs)

unfoldable pub uint : Bytes → ℕ → Result ℕ
uint bs i = word bs i >>= λ w. ok (from_bytes w)

unfoldable pub address : Bytes → ℕ → Result Bytes
address bs i =
    word bs i >>= λ w. if bytes_eq (slice 0 12 w) (zeros 12) then ok (drop 12 w) else err malformed

unfoldable pub token : Bytes → ℕ → Result (Option Bytes)
token bs i =
    address bs i >>= λ a. ok (if bytes_eq a zero_address || bytes_eq a native then none else some a)

unfoldable pub offset : Bytes → ℕ → Result ℕ
offset bs i = uint bs i >>= λ off.
    if not (off % word_size == 0) || ltb (length bs) (off + word_size)
    then err malformed
    else ok off

-- The blob whose length stands at `off`.
unfoldable pub blob_at : Bytes → ℕ → Result Bytes
blob_at bs off =
    let n = from_bytes (slice off (off + word_size) bs) in
    let start = off + word_size in
    if ltb (length bs) (start + n) then err malformed else ok (slice start (start + n) bs)

unfoldable pub dynamic : Bytes → ℕ → Result Bytes
dynamic bs i = offset bs i >>= λ off. blob_at bs off

unfoldable pub tuple_at : Bytes → ℕ → Result Bytes
tuple_at bs i = offset bs i >>= λ off. ok (drop off bs)

unfoldable pub elements : Bytes → ℕ → ℕ → Result (Bytes × ℕ)
elements bs i width = tuple_at bs i >>= λ body. uint body 0 >>= λ n.
    let area = drop word_size body in
    if ltb (length area / (width * word_size)) n then err malformed else ok (area, n)

-- range(k, k + n)
unfoldable pub range_from : ℕ → ℕ → List ℕ
range_from k zero = []
range_from k (suc n) = k ∷ range_from (suc k) n

-- [area[k * size : (k + 1) * size] for k in ...]
unfoldable pub chunks : Bytes → ℕ → List ℕ → List Bytes
chunks area size [] = []
chunks area size (k ∷ ks) = slice (k * size) ((k + 1) * size) area ∷ chunks area size ks

unfoldable pub static_array : Bytes → ℕ → ℕ → Result (List Bytes)
static_array bs i width =
    elements bs i width >>= λ (area, n). ok (chunks area (width * word_size) (range_from 0 n))

unfoldable pub tuple_array : Bytes → ℕ → Result (List Bytes)
tuple_array bs i = elements bs i 1 >>= λ (area, n).
    traverse (λ k. offset area k >>= λ off. ok (drop off area)) (range_from 0 n)

unfoldable pub bytes_array : Bytes → ℕ → Result (List Bytes)
bytes_array bs i = elements bs i 1 >>= λ (area, n).
    traverse (λ k. offset area k >>= λ off. blob_at area off) (range_from 0 n)
