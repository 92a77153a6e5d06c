-- ===== src/L2/Examples.antt =====
-- Runs of the theorems on L2 messages.
use robinhood_chain_sequence.Prelude.{
  ◌≡◌, ◌≤◌, ◌<◌, ◌^◌, ◌↔◌, ◌⊎◌, All, slice, refl, arith, List, [], ◌∷◌, ◌++◌, length, ltb, ok, err,
  rejected, if◌then◌else◌, replicate,
}
use robinhood_chain_sequence.Bytes.{Bytes, IsByte, from_bytes}
use robinhood_chain_sequence.Tx.{
  Tx, signed_tx, decode_transaction, decode_body, layout_of, arbos_fields,
}
use robinhood_chain_sequence.L2.{
  check_unsigned_tx, parse_l2_message, decode_l2_message, max_l2_message_size, or_nothing,
}
use robinhood_chain_sequence.Tx.Examples.{swap, signed_tx-swap}
use robinhood_chain_sequence.Rlp.{rlp_bytes, rlp_list}
use robinhood_chain_sequence.Rlp.Fields.{list_of}
use robinhood_chain_sequence.Bytes.{byte_length, bit_length, to_bytes}
use robinhood_chain_sequence.L2.Depth.{parse_l2_message-total}
use robinhood_chain_sequence.L2.Unsigned.{check_unsigned_tx_lem}
use robinhood_chain_sequence.L2.Tree.{
  Message, signed, contract, batch, nil, cons, encode_message, entries, EntriesFit,
}
use robinhood_chain_sequence.L2.Meaning.{LeavesAreBytes, meaning}
use robinhood_chain_sequence.L2.Surfaced.{ReadFrom, leaves, decode_l2_message-meaning}
use robinhood_chain_sequence.L2.Voids.{bad_signed, bad_entry, here, there, decode_l2_message-HasBad}

-- A contract transaction of the right size, beside a signed one that is no envelope, in a batch.
abbrev two_entries : Message
two_entries = batch (cons (contract (replicate 128 0)) (cons (signed (0x7f ∷ [])) nil))

two_entries-EntriesFit : EntriesFit two_entries
unfolding EntriesFit entries encode_message
two_entries-EntriesFit = ground arith

-- Beside one that is.
abbrev good_entries : Message
good_entries = batch (cons (contract (replicate 128 0)) (cons (signed (2 ∷ list_of swap)) nil))

good_entries-EntriesFit : EntriesFit good_entries
unfolding EntriesFit entries encode_message rlp_bytes rlp_list byte_length bit_length to_bytes
good_entries-EntriesFit = ground arith

good_entries-LeavesAreBytes : LeavesAreBytes good_entries
unfolding LeavesAreBytes
good_entries-LeavesAreBytes = ground arith

good_entries-meaning : (tx : Tx) × (meaning good_entries 0 ≡ ok (tx ∷ []))
unfolding meaning from_bytes slice
good_entries-meaning = let (tx, accepted) = signed_tx-swap in (tx, rw accepted refl)

decode_l2_message-meaning_example :
    (decode_l2_message (encode_message good_entries) 0 ≡ (
      if ltb max_l2_message_size (length (encode_message good_entries))
      then []
      else or_nothing (meaning good_entries 0)))
    × ((decode_l2_message (encode_message good_entries) 0 ≡ [])
        ⊎ ReadFrom (leaves good_entries) (decode_l2_message (encode_message good_entries) 0))
decode_l2_message-meaning_example =
    decode_l2_message-meaning good_entries 0 good_entries-EntriesFit good_entries-LeavesAreBytes

bad_entry_signed : signed_tx (0x7f ∷ []) ≡ err rejected
unfolding signed_tx decode_transaction decode_body layout_of arbos_fields
bad_entry_signed = refl

decode_l2_message-HasBad_example : decode_l2_message (encode_message two_entries) 0 ≡ []
decode_l2_message-HasBad_example =
    decode_l2_message-HasBad two_entries 0 two_entries-EntriesFit
      (bad_entry (there (here (bad_signed (0x7f ∷ []) bad_entry_signed))))

parse_l2_message-total_example :
    ((txs : List Tx) × (parse_l2_message (3 ∷ []) 7 ≡ ok txs))
    ⊎ (parse_l2_message (3 ∷ []) 7 ≡ err rejected)
parse_l2_message-total_example = parse_l2_message-total (3 ∷ []) 7

-- A kind 0 body whose nonce does not fit in 64 bits.
abbrev large_nonce : Bytes
large_nonce = replicate 64 0 ++ 1 ∷ replicate 95 0

large_nonce-IsByte : All IsByte large_nonce
large_nonce-IsByte = ground arith

check_unsigned_tx_lem_example :
    ((check_unsigned_tx large_nonce 0 ≡ ok tt) ↔ (
      (160 ≤ length large_nonce)
      × (from_bytes (slice 0 32 large_nonce) < 2 ^ 64)
      × (from_bytes (slice 64 96 large_nonce) < 2 ^ 64)))
    × ((check_unsigned_tx large_nonce 1 ≡ ok tt)
        ↔ ((128 ≤ length large_nonce) × (from_bytes (slice 0 32 large_nonce) < 2 ^ 64)))
check_unsigned_tx_lem_example = check_unsigned_tx_lem large_nonce large_nonce-IsByte
