-- ===== src/Verify/Examples.antt =====
-- Runs of the theorems on feed signatures, and on a frame and a session of which one entry is signed.
use robinhood_chain_sequence.Rlp.Uint.{minimal}
use robinhood_chain_sequence.Base64.{b64decode}
use robinhood_chain_sequence.Prelude.{
  ◌≡◌, refl, Option, none, some, ℕ, List, [], ◌∷◌, ◌++◌, true, false, ok, replicate, All, inr,
}
use robinhood_chain_sequence.Prelude.Int.{ℤ, pos}
use robinhood_chain_sequence.Bytes.{Bytes, bytes_eq, to_bytes, byte_length, bit_length}
use robinhood_chain_sequence.Hex.{Text, text, unhex}
use robinhood_chain_sequence.ParentChain.{Json, Header, null, str, num}
use robinhood_chain_sequence.Consumer.{
  Config, Consumer, start, frame, run_steps, step, go_live, deliver,
}
use robinhood_chain_sequence.Session.{
  Settings, Session, Run, here, next, opens, receives, begin, on_open, on_frame, mainnet_feed,
  known_chain_id, stamp,
}
use robinhood_chain_sequence.Session.Verified.{FromSigned, Run-FromSigned}
use robinhood_chain_sequence.Frame.{Entry, FeedMessage, message_of, parse_frame, txs_of}
use robinhood_chain_sequence.Verify.{
  Preimage, preimage, signature_payload, Verifier, mainnet_chain_id, accepts, flatten, fixed,
  fixed_int, hex_part, base64_part, sender_part, request_part, base_fee_part, signature_hash,
  minimal_int,
}
use robinhood_chain_sequence.Verify.Binding.{SameWidths, signature_payload-preimage}
use robinhood_chain_sequence.Verify.Signed.{IsSigned, accepts-IsSigned}

abbrev to_int : Json → Option ℤ
to_int j = none

-- A hash and a curve for the tests: the hash is its input, and the key is one and the same.
abbrev keccak : Bytes → Bytes
keccak b = b

abbrev public_key : Bytes → Bytes → Option Bytes
public_key sig digest = some (4 ∷ replicate 20 0xda)

abbrev verifier : Verifier
verifier = record {
  chain_id = mainnet_chain_id;
  signers = replicate 20 0x11 ∷ replicate 20 0xda ∷ [];
}

abbrev header : Header
header = record {
  kind = some (pos 6);
  sender = str (text "0xa4b0");
  timestamp = some 1000;
  block_number = some 7;
  request_id = null;
  base_fee_l1 = num (pos 300);
}

abbrev entry : Option Text → Entry
entry signature = record {
  sequence_number = some (pos 5);
  block_hash = some (text "0x0102");
  delayed_messages_read = some 1;
  header = header;
  l2_msg = some (text "BAU=");
  block_metadata = none;
  signature = signature;
}

-- 65 zero bytes
abbrev zeros : Text
zeros = replicate 86 65 ++ text "A="

-- An entry that is signed, and one that is not.
abbrev feed : List Entry
feed = entry (some zeros) ∷ entry none ∷ []

zeros_pass : accepts to_int keccak public_key verifier (entry (some zeros)) ≡ true
unfolding accepts b64decode signature_hash signature_payload preimage fixed fixed_int hex_part unhex
    base64_part sender_part request_part base_fee_part minimal_int bytes_eq
zeros_pass = refl

-- Without a signature nothing is accepted.
unsigned_fails : accepts to_int keccak public_key verifier (entry none) ≡ false
unfolding accepts
unsigned_fails = refl

accepts-IsSigned_example : IsSigned to_int keccak public_key verifier (entry (some zeros))
accepts-IsSigned_example =
    accepts-IsSigned to_int keccak public_key verifier (entry (some zeros)) zeros_pass

abbrev parts : Preimage
parts = record {
  chain = replicate 6 0 ++ 0x12 ∷ 0x37 ∷ [];
  seq = replicate 7 0 ++ 5 ∷ [];
  block_hash = 1 ∷ 2 ∷ [];
  metadata = [];
  delayed = replicate 7 0 ++ 1 ∷ [];
  kind = 6 ∷ [];
  sender = 0xa4 ∷ 0xb0 ∷ [];
  block_number = replicate 7 0 ++ 7 ∷ [];
  timestamp = replicate 6 0 ++ 3 ∷ 0xe8 ∷ [];
  request_id = [];
  base_fee = 1 ∷ 44 ∷ [];
  l2_msg = 4 ∷ 5 ∷ [];
}

preimage-parts : preimage to_int mainnet_chain_id (entry none) ≡ ok parts
unfolding preimage fixed fixed_int hex_part unhex base64_part sender_part request_part base_fee_part
    minimal_int b64decode to_bytes minimal byte_length bit_length
preimage-parts = refl

signature_payload-parts :
    signature_payload to_int mainnet_chain_id (entry none) ≡ ok (flatten parts)
unfolding signature_payload preimage fixed fixed_int hex_part unhex base64_part sender_part
    request_part base_fee_part minimal_int b64decode to_bytes minimal byte_length bit_length
signature_payload-parts = refl

same_widths : SameWidths parts parts
same_widths = record {
  block_hash = refl;
  metadata = refl;
  sender = refl;
  request_id = refl;
  base_fee = refl;
}

signature_payload-preimage_example : parts ≡ parts
unfolding preimage signature_payload
signature_payload-preimage_example =
    signature_payload-preimage to_int mainnet_chain_id mainnet_chain_id (entry none)
      (entry (some zeros)) (flatten parts) parts parts preimage-parts preimage-parts same_widths
      signature_payload-parts signature_payload-parts

abbrev config : Config
config = record {
  live_threshold = 30;
  max_backlog_seconds = 60;
  reorg_window = 64;
  chain_id = none;
}

-- One message of the two is yielded.
abbrev after_feed : Consumer × List FeedMessage
after_feed =
    run_steps 64 0 (true ∷ false ∷ [])
      (message_of (entry (some zeros)) [] ∷ message_of (entry none) [] ∷ []) start

read_feed :
    frame config (accepts to_int keccak public_key verifier) 990 (λ i. 1001) true feed start
    ≡ ok after_feed
unfolding frame parse_frame txs_of accepts b64decode signature_hash signature_payload preimage fixed
    fixed_int hex_part unhex base64_part sender_part request_part base_fee_part minimal_int bytes_eq
read_feed = refl

abbrev settings : Settings
settings = record {
  url = mainnet_feed;
  verify = some verifier;
  live_threshold = 30;
  max_backlog_seconds = 60;
  reconnect_delay = 1;
  max_reconnect_delay = 3;
  stall_warning = 30;
  reorg_window = 64;
}

-- No header of the handshake names a chain.
abbrev no_header : Text → Option ℕ
no_header t = none

abbrev opened : Session
opened = on_open no_header settings [] 990 7 (begin settings none start)

abbrev received : Session × List FeedMessage
received = on_frame to_int keccak public_key settings true (some feed) (λ i. 1001) 1001 8 opened

session :
    Run no_header to_int keccak public_key settings true
      (begin settings none start)
      ([] ++ received.1)
      received.0
unfolding on_open
session =
    next (next here (opens (begin settings none start) [] 990 7 refl))
      (receives opened (some feed) (λ i. 1001) 1001 8 refl)

-- The message of the signed entry comes out of it.
received_lem :
    received.1 ≡ stamp 1001 8 (record (message_of (entry (some zeros)) []) { live = true }) ∷ []
unfolding on_frame on_open frame parse_frame txs_of accepts b64decode signature_hash
    signature_payload preimage fixed fixed_int hex_part unhex base64_part sender_part request_part
    base_fee_part minimal_int bytes_eq run_steps step go_live deliver known_chain_id
received_lem = refl

mainnet_known : known_chain_id mainnet_feed ≡ some mainnet_chain_id
unfolding known_chain_id bytes_eq
mainnet_known = refl

Run-FromSigned_example : All (FromSigned to_int keccak public_key verifier) ([] ++ received.1)
Run-FromSigned_example =
    Run-FromSigned to_int keccak public_key verifier settings true refl no_header
      (inr mainnet_known) start session
