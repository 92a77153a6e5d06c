-- ===== src/Tx/Examples.antt =====
-- Runs of the theorems on signed transactions.
use robinhood_chain_sequence.Prelude.{
  ◌≡◌, refl, arith, Option, some, List, [], ◌∷◌, ◌++◌, length, ok, replicate,
}
use robinhood_chain_sequence.Bytes.{Bytes, from_bytes, to_bytes, byte_length, bit_length}
use robinhood_chain_sequence.Hex.{Text, addr}
use robinhood_chain_sequence.Tx.Texts.{checksum}
use robinhood_chain_sequence.Tx.Texts.Checksum.{addr-checksum}
use robinhood_chain_sequence.Rlp.{rlp_bytes, rlp_list}
use robinhood_chain_sequence.Rlp.Fields.{Field, string, nested, encode_all, list_of, ListFits}
use robinhood_chain_sequence.Rlp.Uint.{minimal}
use robinhood_chain_sequence.Tx.{
  Tx, Layout, layout, layout_of, arbos_fields, decode_transaction, signed_tx, recover_input,
  sender_bytes,
}
use robinhood_chain_sequence.Tx.Decode.{Shows, decode_transaction-legacy}
use robinhood_chain_sequence.Tx.Accept.{Accepted, signed_tx-Accepted, signed_tx-typed}
use robinhood_chain_sequence.Tx.Signing.{signed_fields, signature, Signs}
use robinhood_chain_sequence.Tx.Sender.{sender_bytes-typed, sender_bytes-eip155}

-- What an EIP-1559 envelope signs: chain 4663, a call with a selector, an empty access list.
abbrev swap_front : List Field
swap_front =
    string (0x12 ∷ 0x37 ∷ [])
    ∷ string (9 ∷ [])
    ∷ string (1 ∷ [])
    ∷ string (2 ∷ [])
    ∷ string (0x52 ∷ 0x08 ∷ [])
    ∷ string (replicate 20 0xaa)
    ∷ string []
    ∷ string (1 ∷ 2 ∷ 3 ∷ 4 ∷ 5 ∷ [])
    ∷ nested []
    ∷ []

-- A legacy transfer.
abbrev transfer_front : List Field
transfer_front =
    string (9 ∷ [])
    ∷ string (2 ∷ [])
    ∷ string (0x52 ∷ 0x08 ∷ [])
    ∷ string (replicate 20 0xaa)
    ∷ string (100 ∷ [])
    ∷ string []
    ∷ []

abbrev some_r : Bytes
some_r = replicate 32 0x11

abbrev some_s : Bytes
some_s = replicate 31 0x22

signs : Signs some_r some_s
signs = record {
  r_some = omega arith;
  s_some = omega arith;
  r_fits = omega arith;
  s_fits = omega arith;
}

abbrev pub swap : List Field
swap = signed_fields swap_front (1 ∷ []) some_r some_s

-- v = 35 + 2 * 46 + 1
abbrev transfer : List Field
transfer = signed_fields transfer_front (128 ∷ []) some_r some_s

length-swap : length (encode_all swap) ≡ 104
unfolding rlp_bytes rlp_list byte_length bit_length to_bytes
length-swap = refl

length-transfer : length (encode_all transfer) ≡ 95
unfolding rlp_bytes rlp_list byte_length bit_length to_bytes
length-transfer = refl

swap-ListFits : ListFits swap
swap-ListFits = record { each = ground arith; whole = omega (arith, length-swap) }

transfer-ListFits : ListFits transfer
transfer-ListFits = record { each = ground arith; whole = omega (arith, length-transfer) }

signed_tx-typed_example :
    (l : Layout) × (tx : Tx) × (layout_of 2 ≡ some l)
    × (signed_tx (2 ∷ list_of swap) ≡ ok tx)
    × Shows (2 ∷ list_of swap) 2 l swap tx
signed_tx-typed_example = signed_tx-typed 2 swap (unfold arbos_fields in refl) swap-ListFits

abbrev swap_accepted :
    (l : Layout) × (tx : Tx) × (layout_of 2 ≡ some l)
    × (signed_tx (2 ∷ list_of swap) ≡ ok tx)
    × Shows (2 ∷ list_of swap) 2 l swap tx
swap_accepted = signed_tx-typed 2 swap (unfold arbos_fields in refl) swap-ListFits

pub signed_tx-swap : (tx : Tx) × (signed_tx (2 ∷ list_of swap) ≡ ok tx)
signed_tx-swap = (swap_accepted.1, swap_accepted.3)

signed_tx-Accepted_example : Accepted (2 ∷ list_of swap) swap_accepted.1
signed_tx-Accepted_example = signed_tx-Accepted (2 ∷ list_of swap) swap_accepted.1 swap_accepted.3

decode_transaction-legacy_example :
    (tx : Tx) × (decode_transaction (list_of transfer) ≡ some tx)
    × Shows (list_of transfer) 0 (layout 0 2 3 4 5) transfer tx
decode_transaction-legacy_example =
    decode_transaction-legacy transfer transfer-ListFits (omega arith)

-- A curve and a hash for the runs.
abbrev toy_keccak : Bytes → Bytes
toy_keccak b = replicate 12 0 ++ replicate 20 (length b)

abbrev toy_key : Bytes → Bytes → Option Bytes
toy_key sig digest = some (4 ∷ sig ++ digest)

sender_bytes-typed_example :
    (tx : Tx) × (decode_transaction (2 ∷ list_of swap) ≡ some tx)
    × ((sender_bytes toy_keccak toy_key tx).0
        ≡ recover_input toy_keccak toy_key
            (some (signature some_r some_s (from_bytes (1 ∷ [])), 2 ∷ list_of swap_front)))
sender_bytes-typed_example =
    sender_bytes-typed toy_keccak toy_key 2 (layout 1 4 5 6 7) swap_front (1 ∷ []) some_r some_s
      (ground arith) (omega arith) (unfold layout_of in refl) swap-ListFits (omega arith)
      (omega arith) signs (unfold from_bytes in omega arith)

sender_bytes-eip155_example :
    (tx : Tx) × (decode_transaction (list_of transfer) ≡ some tx)
    × ((sender_bytes toy_keccak toy_key tx).0
        ≡ recover_input toy_keccak toy_key (
            some (
              signature some_r some_s 1,
              list_of (transfer_front ++ string (minimal 46) ∷ string [] ∷ string [] ∷ []),
            )))
sender_bytes-eip155_example =
    sender_bytes-eip155 toy_keccak toy_key transfer_front (128 ∷ []) some_r some_s 46 1 refl
      transfer-ListFits signs (omega arith) (unfold from_bytes in refl)

-- Digits of a digest that are all great.
abbrev great : Bytes → Bytes
great b = replicate 32 0xff

abbrev address : Bytes
address = replicate 20 0xab

addr-checksum_example : (t : Text) × (checksum great address ≡ ok t) × (addr t ≡ ok address)
addr-checksum_example = addr-checksum great (λ b. refl) address (omega arith) refl
