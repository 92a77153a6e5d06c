-- ===== src/L2.antt =====
-- codec.py, the payload of an L2Message: `_split_batch`, `_check_unsigned_tx`, `_parse_l2_message`
-- and `decode_l2_message`.
pub mod Batch
pub mod Depth
pub mod Tree
pub mod Voids
pub mod Unsigned
pub mod Meaning
pub mod Surfaced
pub mod Examples
use robinhood_chain_sequence.Prelude.{
  ℕ, zero, suc, ◌+◌, ◌-◌, ◌*◌, List, [], ◌∷◌, ◌++◌, ◌&&◌, ◌||◌, Result, ok, err, rejected,
  out_of_fuel, ◌>>=◌, ◌>>◌, collect, ltb, leb, ◌==◌, if◌then◌else◌, length, slice,
}
use robinhood_chain_sequence.Bytes.{Bytes, from_bytes, any}
use robinhood_chain_sequence.Tx.{Tx, signed_tx}

abbrev pub l2_unsigned_user_tx : ℕ
l2_unsigned_user_tx = 0

abbrev pub l2_contract_tx : ℕ
l2_contract_tx = 1

abbrev pub l2_batch : ℕ
l2_batch = 3

abbrev pub l2_signed_tx : ℕ
l2_signed_tx = 4

abbrev pub max_batch_depth : ℕ
max_batch_depth = 16

abbrev pub max_l2_message_size : ℕ
max_l2_message_size = 256 * 1024

-- `while offset + 8 <= size: ...`; a length or a body that is cut off ends the batch.
unfoldable pub split_from : ℕ → Bytes → ℕ → Result (List Bytes)
split_from zero payload offset = err out_of_fuel
split_from (suc fuel) payload offset =
    let size = length payload in
    let start = offset + 8 in
    let count = from_bytes (slice offset start payload) in
    let more = split_from fuel payload (start + count) >>= λ entries.
    ok (slice start (start + count) payload ∷ entries) in
    if leb start size then (if ltb size (start + count) then ok [] else more) else ok []

-- A round moves eight bytes on at least.
unfoldable pub split_batch : Bytes → Result (List Bytes)
unfolding split_from
split_batch payload = split_from (suc (length payload)) payload 0

unfoldable pub check_unsigned_tx : Bytes → ℕ → Result (Unit {0})
check_unsigned_tx body kind =
    let words = if kind == l2_unsigned_user_tx then 5 else 4 in
    if ltb (length body) (32 * words) || any (slice 0 24 body)
    then err rejected
    else if kind == l2_unsigned_user_tx && any (slice 64 88 body)
    then err rejected
    else ok tt

-- The body of `_parse_l2_message`, over the call that it makes on a nested message.
unfoldable pub parse_with : (Bytes → Result (List Tx)) → Bytes → ℕ → Result (List Tx)
parse_with nested [] depth = err rejected
parse_with nested (kind ∷ body) depth =
    if kind == l2_signed_tx
    then (signed_tx body >>= λ tx. ok (tx ∷ []))
    else if kind == l2_batch
    then (if leb max_batch_depth depth
        then err rejected
        else (split_batch body >>= λ entries. collect nested entries))
    else if kind == l2_unsigned_user_tx || kind == l2_contract_tx
    then (check_unsigned_tx body kind >> ok [])
    else err rejected

unfoldable pub parse_nested : ℕ → Bytes → ℕ → Result (List Tx)
parse_nested zero payload depth = err out_of_fuel
parse_nested (suc fuel) payload depth =
    parse_with (λ entry. parse_nested fuel entry (depth + 1)) payload depth

-- A batch is refused at depth 16, so the calls go no deeper than this.
unfoldable pub parse_l2_message : Bytes → ℕ → Result (List Tx)
unfolding parse_nested
parse_l2_message payload depth = parse_nested (suc (max_batch_depth - depth)) payload depth

-- `try: ... except _Rejected: return []`
unfoldable pub or_nothing : Result (List Tx) → List Tx
or_nothing (ok txs) = txs
or_nothing (err e) = []

unfoldable pub decode_l2_message : Bytes → ℕ → List Tx
unfolding or_nothing
decode_l2_message payload depth =
    if length payload == 0 || ltb max_l2_message_size (length payload)
    then []
    else or_nothing (parse_l2_message payload depth)
