-- ===== src/Hex/Examples.antt =====
-- Runs of the theorems on hex texts.
use robinhood_chain_sequence.Prelude.{◌≡◌, refl, ◌++◌, ok, replicate}
use robinhood_chain_sequence.Hex.{Text, text, EthCall, is_filtered_call}
use robinhood_chain_sequence.Hex.Digits.{Asks, is_filtered_call-Asks}

abbrev tx_hash : Text
tx_hash = text "0x" ++ replicate 64 b'7'

abbrev body : EthCall
body = record {
  to = text "0x0000000000000000000000000000000000000074";
  calldata = text "0x85c733a4" ++ replicate 64 b'7';
}

filtered : is_filtered_call tx_hash ≡ ok body
unfolding is_filtered_call
filtered = refl

is_filtered_call-Asks_example : Asks tx_hash body
is_filtered_call-Asks_example = is_filtered_call-Asks tx_hash body filtered
