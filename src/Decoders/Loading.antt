-- ===== src/Decoders/Loading.antt =====
-- Runs of the theorems on the table of decoders, with a small hash in place of keccak.
use robinhood_chain_sequence.Abi.{address, word}
use robinhood_chain_sequence.Prelude.{
  ℕ, ◌%◌, ◌≡◌, ◌↔◌, refl, true, [], ◌∷◌, ◌++◌, take, All, arith, none, some, Outcome, Result, ok,
  err, malformed, replicate,
}
use robinhood_chain_sequence.Bytes.{Bytes, to_bytes, from_bytes, bytes_eq}
use robinhood_chain_sequence.Hex.{text, digit_value, sel}
use robinhood_chain_sequence.Intents.{Call, decode_call}
use robinhood_chain_sequence.Decoders.Registry.{
  Table, selector_of, registrations, load, find, lookup,
}
use robinhood_chain_sequence.Abi.Malformed.{IsMalformed}
use robinhood_chain_sequence.Decoders.Erc4337.{handle_ops, execute}
use robinhood_chain_sequence.Decoders.Signatures.{user_op}
use robinhood_chain_sequence.Decoders.Sound.{Sound, is_claimed}
use robinhood_chain_sequence.Decoders.Sound.Table.{
  decode_call-Sound, decode_call-claimed, find-Malformed,
}
use robinhood_chain_sequence.Decoders.Rules.{Decoded, refused, decode_call-Decoded}
use robinhood_chain_sequence.Decoders.Registered.{Finds, load-Finds}

abbrev keccak : Bytes → Bytes
keccak b = to_bytes (from_bytes b % 4294967291) 4

abbrev or_empty : Result Table → Table
or_empty (ok table) = table
or_empty (err raised) = []

abbrev table : Table
table = or_empty (load keccak)

loaded : load keccak ≡ ok table
unfolding load bytes_eq lookup to_bytes from_bytes digit_value sel
loaded = refl

load-Finds_example : All (Finds keccak table) (registrations keccak)
load-Finds_example = load-Finds keccak table loaded

-- An execute of a wallet whose target is called with three bytes.
abbrev call : Call
call = record {
  to = some (replicate 20 0x11);
  value = 0;
  calldata =
      selector_of keccak (text "execute(address,uint256,bytes)")
      ++ replicate 12 0
      ++ replicate 20 0x22
      ++ replicate 32 0
      ++ replicate 31 0
      ++ 96 ∷ []
      ++ replicate 31 0
      ++ 3 ∷ []
      ++ 1 ∷ 2 ∷ 3 ∷ replicate 29 0;
  actor = none;
  via = [];
}

-- A bundle of one operation, whose wallet transfers 5 of a token.
abbrev num : ℕ → Bytes
num n = to_bytes n 32

abbrev wallet : Bytes
wallet = replicate 20 0x77

abbrev transfer_data : Bytes
transfer_data =
    selector_of keccak (text "transfer(address,uint256)")
    ++ replicate 12 0
    ++ replicate 20 0x55
    ++ num 5

abbrev execute_data : Bytes
execute_data =
    selector_of keccak (text "execute(address,uint256,bytes)")
    ++ replicate 12 0
    ++ replicate 20 0x44
    ++ num 0
    ++ num 96
    ++ num 68
    ++ transfer_data
    ++ replicate 28 0

abbrev operation : Bytes
operation =
    replicate 12 0
    ++ wallet
    ++ num 0
    ++ num 0
    ++ num 288
    ++ replicate 160 0
    ++ num 228
    ++ execute_data

abbrev bundle : Call
bundle = record {
  to = some (replicate 20 0x99);
  value = 0;
  calldata =
      selector_of keccak (text "handleOps(" ++ user_op ++ text "[],address)")
      ++ num 64
      ++ replicate 32 0
      ++ num 1
      ++ num 32
      ++ operation;
  actor = none;
  via = replicate 20 0x99 ∷ [];
}

bundle_found : find keccak table (take 4 bundle.calldata) ≡ some handle_ops
unfolding find load bytes_eq to_bytes from_bytes digit_value sel
bundle_found = refl

decode_call-Sound_example : All (Sound bundle) (decode_call (find keccak table) bundle 0)
decode_call-Sound_example = decode_call-Sound keccak table bundle 0

decode_call-claimed_example :
    All (λ i. is_claimed i.actor ≡ true) (decode_call (find keccak table) bundle 0)
decode_call-claimed_example = decode_call-claimed keccak table bundle 0 bundle_found

-- An execute with no arguments.
abbrev cut_call : Call
cut_call = record call { calldata = take 4 call.calldata }

cut_found : find keccak table (take 4 cut_call.calldata) ≡ some execute
unfolding find load bytes_eq to_bytes from_bytes digit_value sel
cut_found = refl

cut_raises : execute (decode_call (find keccak table)) cut_call 0 ≡ err malformed
unfolding execute address word selector_of to_bytes
cut_raises = refl

-- What it raises is caught.
decode_call-Decoded_example :
    (decode_call (find keccak table) cut_call 0 ≡ []) ↔ Decoded keccak table cut_call 0 []
decode_call-Decoded_example = decode_call-Decoded keccak table cut_call 0 []

cut_Decoded : Decoded keccak table cut_call 0 []
unfolding selector_of to_bytes
cut_Decoded = refused execute (omega arith) (omega arith) cut_found cut_raises

find-Malformed_example :
    Outcome IsMalformed
      (All (Sound cut_call))
      (execute (decode_call (find keccak table)) cut_call 0)
find-Malformed_example =
    find-Malformed keccak table (take 4 cut_call.calldata) execute cut_call 0 cut_found
