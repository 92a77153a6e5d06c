-- ===== src/ParentChain/Examples.antt =====
-- Runs of the theorems on a SubmitRetryable and an EthDeposit message.
use robinhood_chain_sequence.Prelude.{
  ℕ, ◌≡◌, refl, List, [], ◌∷◌, ◌++◌, length, ok, none, drop, take, slice, replicate,
}
use robinhood_chain_sequence.Bytes.{Bytes, from_bytes, ljust}
use robinhood_chain_sequence.Tx.{Tx, calldata}
use robinhood_chain_sequence.ParentChain.{
  Header, null, Retryable, retryable_of, retryable_fields, retryable_calldata, read_retryable,
  words, words_from, l1_base_fee, submit_retryable, eth_deposit, arb_deposit_tx, parent_chain_tx,
  arb_submit_retryable_tx, arb_retryable_tx,
}
use robinhood_chain_sequence.Rlp.{rlp_bytes, rlp_uint}
use robinhood_chain_sequence.Rlp.Fields.{list_of}
use robinhood_chain_sequence.ParentChain.Envelope.{submit_fields, submit_retryable-list_of}
use robinhood_chain_sequence.ParentChain.Calldata.{Arguments}
use robinhood_chain_sequence.ParentChain.Payload.{submit_retryable-Arguments}

abbrev message_words : List Bytes
message_words =
    (replicate 12 0 ++ replicate 20 0xaa)
    ∷ replicate 32 1
    ∷ replicate 32 2
    ∷ replicate 32 3
    ∷ (replicate 12 0xff ++ replicate 20 0xbb)
    ∷ (replicate 12 0 ++ replicate 20 0xcc)
    ∷ (replicate 30 0 ++ 0x52 ∷ 0x08 ∷ [])
    ∷ replicate 32 4
    ∷ (replicate 31 0 ++ 5 ∷ [])
    ∷ []

-- Three bytes of retry data, where the message states five.
abbrev message : Bytes
message =
    (replicate 12 0 ++ replicate 20 0xaa)
    ++ replicate 32 1
    ++ replicate 32 2
    ++ replicate 32 3
    ++ (replicate 12 0xff ++ replicate 20 0xbb)
    ++ (replicate 12 0 ++ replicate 20 0xcc)
    ++ (replicate 30 0 ++ 0x52 ∷ 0x08 ∷ [])
    ++ replicate 32 4
    ++ (replicate 31 0 ++ 5 ∷ [])
    ++ 7 ∷ 8 ∷ 9 ∷ []

abbrev parsed : Retryable
parsed = retryable_of message_words (7 ∷ 8 ∷ 9 ∷ 0 ∷ 0 ∷ [])

abbrev header : Header
header = record {
  kind = none;
  sender = null;
  timestamp = none;
  block_number = none;
  request_id = null;
  base_fee_l1 = null;
}

abbrev built : Tx
built =
    parent_chain_tx arb_submit_retryable_tx
      (retryable_fields parsed (replicate 32 6) (replicate 20 0xdd) 0 4663) arb_retryable_tx 0
      (from_bytes parsed.gas_limit) (retryable_calldata parsed (replicate 32 6) 0)
      (replicate 20 0xdd)

read_retryable-message : read_retryable message ≡ ok parsed
unfolding read_retryable words words_from slice from_bytes ljust
read_retryable-message = refl

submit_retryable-message :
    submit_retryable message (replicate 32 6) (replicate 20 0xdd) header 4663 ≡ ok built
unfolding submit_retryable l1_base_fee
submit_retryable-message = rw read_retryable-message

submit_retryable-Arguments_example :
    (r : Retryable) × (fee : ℕ) × (read_retryable message ≡ ok r)
    × (l1_base_fee header.base_fee_l1 ≡ ok fee)
    × (length r.retry_data ≡ from_bytes r.data_length)
    × Arguments r (replicate 32 6) fee (drop 4 (calldata built))
submit_retryable-Arguments_example =
    submit_retryable-Arguments message (replicate 32 6) (replicate 20 0xdd) header 4663 built refl
      submit_retryable-message

submit_retryable-list_of_example :
    (r : Retryable) × (fee : ℕ) × (read_retryable message ≡ ok r)
    × (l1_base_fee header.base_fee_l1 ≡ ok fee)
    × (built.raw ≡ 0x69 ∷ list_of (submit_fields r 4663 (replicate 32 6) (replicate 20 0xdd) fee))
submit_retryable-list_of_example =
    submit_retryable-list_of message (replicate 32 6) (replicate 20 0xdd) header 4663 built
      submit_retryable-message

abbrev deposit : Bytes
deposit = replicate 20 0xaa ++ replicate 31 0 ++ 9 ∷ []

abbrev deposited : Tx
deposited =
    parent_chain_tx arb_deposit_tx
      (rlp_uint 4663
        ∷ rlp_bytes (replicate 32 6)
        ∷ rlp_bytes (replicate 20 0xdd)
        ∷ rlp_bytes (take 20 deposit)
        ∷ rlp_uint (from_bytes (slice 20 52 deposit))
        ∷ [])
      (take 20 deposit) (from_bytes (slice 20 52 deposit)) 0 [] (replicate 20 0xdd)

eth_deposit-deposit : eth_deposit deposit (replicate 32 6) (replicate 20 0xdd) 4663 ≡ ok deposited
unfolding eth_deposit
eth_deposit-deposit = refl
