-- ===== src/Rlp.antt =====
-- codec.py, the RLP scanner and the RLP encoders: `_scan_list` records offsets and copies nothing;
-- `_rlp_header`, `_rlp_list`, `_rlp_bytes` and `_rlp_uint` write.
pub mod Fields
pub mod Encode
pub mod RoundTrip
pub mod Payloads
pub mod Examples
pub mod Scan
pub mod Uint
use robinhood_chain_sequence.Prelude.{
  ℕ, zero, suc, ◌+◌, ◌-◌, List, [], ◌∷◌, ◌++◌, ◌&&◌, Result, ok, err, value_error, out_of_fuel,
  ◌>>=◌, ltb, ◌==◌, if◌then◌else◌, length, get_or, slice,
}
use robinhood_chain_sequence.Bytes.{Bytes, from_bytes, to_bytes, bit_length, byte_length}

-- (item_start, payload_start, payload_end)
pub record Item : Type 0 where
  pub item_start : ℕ
  pub payload_start : ℕ
  pub payload_end : ℕ

abbrev pub item : ℕ → ℕ → ℕ → Item
item i s e = record { item_start = i; payload_start = s; payload_end = e }

-- buf[i]; the scanner reads it at i < end ≤ len(buf) alone, so the default is never seen.
abbrev pub byte_at : Bytes → ℕ → ℕ
byte_at buf i = get_or buf i 0

-- The body of the scanner's loop: the item whose head stands at `i`.
unfoldable pub item_at : Bytes → ℕ → Item
item_at buf i =
    let c = byte_at buf i in
    if ltb c 0x80
    then item i i (i + 1)
    else if ltb c 0xb8
    then item i (i + 1) (i + 1 + (c - 0x80))
    else if ltb c 0xc0
    then (let s = i + 1 + (c - 0xb7) in item i s (s + from_bytes (slice (i + 1) s buf)))
    else if ltb c 0xf8
    then item i (i + 1) (i + 1 + (c - 0xc0))
    else (let s = i + 1 + (c - 0xf7) in item i s (s + from_bytes (slice (i + 1) s buf)))

-- `while i < end: ...`, and the test of `i != end` behind it.
unfoldable pub scan_items : ℕ → Bytes → ℕ → ℕ → Result (List Item)
unfolding item_at
scan_items zero buf i end = err out_of_fuel
scan_items (suc fuel) buf i end =
    let found = item_at buf i in
    let more = scan_items fuel buf found.payload_end end >>= λ items. ok (found ∷ items) in
    if ltb i end then more else if i == end then ok [] else err value_error

-- Where the items of the list at the head of `buf` start and end.
unfoldable pub list_bounds : Bytes → ℕ × ℕ
list_bounds buf =
    let head = byte_at buf 0 in
    let n = head - 0xf7 in
    if ltb head 0xf8
    then (1, 1 + (head - 0xc0))
    else (1 + n, 1 + n + from_bytes (slice 1 (1 + n) buf))

-- A round moves at least one byte on, so `len(buf)` and one rounds are enough.
unfoldable pub scan_list : Bytes → Result (List Item)
unfolding list_bounds scan_items
scan_list [] = err value_error
scan_list (head ∷ rest) =
    let buf = head ∷ rest in
    let (i, end) = list_bounds buf in
    if ltb head 0xc0
    then err value_error
    else if ltb (length buf) end
    then err value_error
    else scan_items (suc (length buf)) buf i end

unfoldable pub rlp_header : ℕ → ℕ → Bytes
rlp_header size offset =
    let n = byte_length size in
    if ltb size 56 then (offset + size) ∷ [] else (offset + 55 + n) ∷ to_bytes size n

unfoldable pub rlp_list : Bytes → Bytes
unfolding rlp_header
rlp_list content = rlp_header (length content) 0xc0 ++ content

unfoldable pub rlp_bytes : Bytes → Bytes
unfolding rlp_header
rlp_bytes value =
    if length value == 1 && ltb (byte_at value 0) 0x80
    then value
    else rlp_header (length value) 0x80 ++ value

unfoldable pub rlp_uint : ℕ → Bytes
unfolding rlp_header
rlp_uint value =
    let body = to_bytes value (byte_length value) in
    if value == 0
    then 0x80 ∷ []
    else if length body == 1 && ltb (byte_at body 0) 0x80
    then body
    else rlp_header (length body) 0x80 ++ body
