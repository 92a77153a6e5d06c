-- ===== src/Decoders/Routers.antt =====
-- decoders/pons.py, decoders/zerox.py and decoders/steps_router.py.
use robinhood_chain_sequence.Prelude.{
  ◌*◌, List, [], ◌∷◌, ◌++◌, some, Result, ok, ◌>>=◌, take, drop, length, ◌==◌, if◌then◌else◌,
}
use robinhood_chain_sequence.Bytes.{Bytes, bytes_eq}
use robinhood_chain_sequence.Intents.{Decoder, Intent, Call, intent, swap}
use robinhood_chain_sequence.Abi.{
  word_size, zero_address, address, uint, token, dynamic, tuple_array,
}
use robinhood_chain_sequence.Decoders.Uniswap.{last_hop}

-- addr("0x8366a39CC670B4001A1121B8F6A443A643e40951")
abbrev pub v4_pool_manager : Bytes
v4_pool_manager =
    0x83 ∷ 0x66 ∷ 0xa3 ∷ 0x9c ∷ 0xc6 ∷ 0x70 ∷ 0xb4 ∷ 0x00 ∷ 0x1a ∷ 0x11 ∷ 0x21 ∷ 0xb8 ∷ 0xf6 ∷ 0xa4
    ∷ 0x43 ∷ 0xa6 ∷ 0x43 ∷ 0xe4 ∷ 0x09 ∷ 0x51 ∷ []

-- pons.buy behind the test of the size.
unfoldable pub buy_words : Call → Bytes → Result (List Intent)
buy_words call d = do
  manager ← address d 1
  if bytes_eq manager v4_pool_manager
      then (do
        token_out ← token d 2
        amount_out ← uint d 4
        recipient ← address d 5
        ok (
            record (intent swap call.actor call.via) {
              amount_in = some call.value;
              token_out = token_out;
              amount_out = some amount_out;
              recipient = some recipient;
            }
            ∷ []))
      else ok []

unfoldable pub buy : Decoder
unfolding buy_words
buy again call depth =
    let d = drop 4 call.calldata in if length d == 10 * word_size then buy_words call d else ok []

-- What Settler's leading tuple says of the output; a zero recipient says nothing.
unfoldable pub settler_output : Intent → Bytes → Result Intent
settler_output found s = do
  recipient ← address s 0
  if bytes_eq recipient zero_address then ok found else (do
    token_out ← token s 1
    amount_out ← uint s 2
    ok (record found {
      recipient = some recipient;
      token_out = token_out;
      amount_out = some amount_out;
    }))

-- zerox.exec_, for the selector of Settler's `execute`.
unfoldable pub exec : Bytes → Decoder
unfolding settler_output
exec settler_execute again call depth = do
  let d = drop 4 call.calldata
  target ← address d 3
  token_in ← token d 1
  amount_in ← uint d 2
  let found = record (intent swap call.actor (call.via ++ target ∷ [])) {
    token_in = token_in;
    amount_in = some amount_in;
  }
  body ← dynamic d 4
  if bytes_eq (take 4 body) settler_execute
      then (do settled ← settler_output found (drop 4 body); ok (settled ∷ []))
      else ok (found ∷ [])

-- steps_router._swap behind the reading of the steps.
unfoldable pub swap_steps : Call → List Bytes → Result (List Intent)
unfolding last_hop
swap_steps call [] = ok []
swap_steps call (step ∷ steps) = do
  let d = drop 4 call.calldata
  token_in ← token step 1
  token_out ← token (last_hop step steps) 2
  amount_in ← uint d 2
  amount_out ← uint d 3
  recipient ← token d 1
  ok (
      record (intent swap call.actor call.via) {
        token_in = token_in;
        token_out = token_out;
        amount_in = some amount_in;
        amount_out = some amount_out;
        recipient = recipient;
      }
      ∷ [])

unfoldable pub steps_swap : Decoder
unfolding swap_steps
steps_swap again call depth = tuple_array (drop 4 call.calldata) 0 >>= swap_steps call
