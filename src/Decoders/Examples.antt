-- ===== src/Decoders/Examples.antt =====
-- A run of the theorem on a transfer.
use robinhood_chain_sequence.Prelude.{
  ◌≡◌, refl, arith, [], ◌∷◌, Option, some, none, replicate, if◌then◌else◌,
}
use robinhood_chain_sequence.Bytes.{Bytes, bytes_eq}
use robinhood_chain_sequence.Intents.{Call, Decoder, decode_call}
use robinhood_chain_sequence.Decoders.Erc20.{transfer}
use robinhood_chain_sequence.Decoders.Transfers.{
  transfer_calldata, transfer_intent, decode_call-transfer,
}

abbrev transfer_selector : Bytes
transfer_selector = 0xa9 ∷ 0x05 ∷ 0x9c ∷ 0xbb ∷ []

abbrev one_decoder : Bytes → Option Decoder
one_decoder selector = if bytes_eq selector transfer_selector then some transfer else none

abbrev token_call : Call
token_call = record {
  to = some (replicate 20 0xee);
  value = 0;
  calldata = transfer_calldata transfer_selector (replicate 20 0xaa) 1000 (1 ∷ []);
  actor = none;
  via = replicate 20 0xee ∷ [];
}

decode_call-transfer_example :
    decode_call one_decoder token_call 3 ≡ transfer_intent token_call (replicate 20 0xaa) 1000 ∷ []
decode_call-transfer_example =
    decode_call-transfer transfer_selector (replicate 20 0xaa) (1 ∷ []) 1000 token_call one_decoder
      3 refl refl (omega arith) refl (unfold bytes_eq in refl) (omega arith)
