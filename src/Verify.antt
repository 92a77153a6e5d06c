-- ===== src/Verify.antt =====
-- verify.py: the bytes that a feed message's signature covers, the signer, and the verifier. keccak
-- and the curve are third-party code, so they are arguments.
pub mod Binding
pub mod Signed
pub mod Examples
use robinhood_chain_sequence.Prelude.{
  ℕ, ◌+◌, ◌-◌, ◌^◌, Bool, true, false, Option, none, some, List, [], ◌∷◌, ◌++◌, ◌&&◌, Result, ok,
  err, value_error, ◌>>=◌, ◌>>◌, ltb, leb, ◌==◌, if◌then◌else◌, length, take, drop, get_or,
}
use robinhood_chain_sequence.Prelude.Int.{ℤ, pos, negsuc}
use robinhood_chain_sequence.Bytes.{Bytes, to_bytes, bytes_eq}
use robinhood_chain_sequence.Hex.{Text, text, unhex}
use robinhood_chain_sequence.Base64.{b64decode}
use robinhood_chain_sequence.Rlp.Uint.{minimal}
use robinhood_chain_sequence.Tx.{last_20}
use robinhood_chain_sequence.ParentChain.{join, Json, null, empty, other, num, str}
use robinhood_chain_sequence.Frame.{Entry, or_zero}

-- FEED_PREFIX
abbrev pub feed_prefix : Bytes
feed_prefix = text "Arbitrum Nitro Feed:"

-- MAINNET_CHAIN_ID
abbrev pub mainnet_chain_id : ℕ
mainnet_chain_id = 4663

-- MAINNET_SIGNER
abbrev pub mainnet_signer : Bytes
mainnet_signer =
    0xda ∷ 0xa5 ∷ 0x26 ∷ 0x08 ∷ 0x67 ∷ 0x87 ∷ 0xd9 ∷ 0xde ∷ 0xbe ∷ 0x1d ∷ 0x7f ∷ 0x3f ∷ 0xfd ∷ 0xb1
    ∷ 0xfe ∷ 0x50 ∷ 0xcf ∷ 0x86 ∷ 0x87 ∷ 0xf4 ∷ []

-- value.to_bytes(n, "big"), which raises OverflowError for a number that does not fit.
unfoldable pub fixed : ℕ → ℕ → Result Bytes
fixed value n = if ltb value (256 ^ n) then ok (to_bytes value n) else err value_error

-- The same for a signed value: a negative one raises.
unfoldable pub fixed_int : Option ℤ → ℕ → Result Bytes
unfolding fixed
fixed_int none n = fixed 0 n
fixed_int (some (pos v)) n = fixed v n
fixed_int (some (negsuc v)) n = err value_error

-- bytes.fromhex(...) of a text that is there and not empty.
unfoldable pub hex_part : Option Text → Result Bytes
hex_part none = ok []
hex_part (some t) = if length t == 0 then ok [] else unhex t

-- base64.b64decode(...) of a text that is there and not empty.
unfoldable pub base64_part : Option Text → Result Bytes
base64_part none = ok []
base64_part (some t) = if length t == 0 then ok [] else b64decode t

-- bytes.fromhex((header.get("sender") or "").removeprefix("0x")); only a text has `removeprefix`.
unfoldable pub sender_part : Json → Result Bytes
sender_part null = ok []
sender_part empty = ok []
sender_part (str t) = unhex t
sender_part (num (pos n)) = if n == 0 then ok [] else err value_error
sender_part (num (negsuc n)) = err value_error
sender_part other = err value_error

-- Left out when null, not written as zeros.
unfoldable pub request_part : Json → Result Bytes
request_part null = ok []
request_part (str t) = unhex t
request_part empty = err value_error
request_part other = err value_error
request_part (num n) = err value_error

-- _minimal(int(value)): a negative number has no such bytes.
unfoldable pub minimal_int : Option ℤ → Result Bytes
minimal_int none = err value_error
minimal_int (some (pos v)) = ok (minimal v)
minimal_int (some (negsuc v)) = err value_error

-- The parts of the signed bytes, in their order; those that are left out are empty.
pub record Preimage : Type 0 where
  pub chain : Bytes
  pub seq : Bytes
  pub block_hash : Bytes
  pub metadata : Bytes
  pub delayed : Bytes
  pub kind : Bytes
  pub sender : Bytes
  pub block_number : Bytes
  pub timestamp : Bytes
  pub request_id : Bytes
  pub base_fee : Bytes
  pub l2_msg : Bytes

unfoldable pub flatten : Preimage → Bytes
flatten p = join (
    feed_prefix ∷ p.chain ∷ p.seq ∷ p.block_hash ∷ p.metadata ∷ p.delayed ∷ p.kind ∷ p.sender
    ∷ p.block_number ∷ p.timestamp ∷ p.request_id ∷ p.base_fee ∷ p.l2_msg ∷ [])

-- The signature as the curve takes it, from a recovery byte in either convention.
unfoldable pub normalised : Bytes → Option Bytes
normalised sig =
    let v = get_or sig 64 0 in
    if length sig == 65
    then (if leb 27 v && leb v 30
        then some (take 64 sig ++ (v - 27) ∷ [])
        else if ltb 3 v
        then none
        else some sig)
    else none

-- The checks on `signatureV2`.
unfoldable pub decoded_signature : Option Text → Option Bytes
unfolding normalised
decoded_signature none = none
decoded_signature (some encoded) =
    if length encoded == 0
    then none
    else elim (b64decode encoded) [ err raised ↦ none | ok sig ↦ normalised sig ]

-- `int(value)` of a JSON value that is no integer: Python's, for floats, texts and booleans.
module _ (to_int : Json → Option ℤ) where
  unfoldable pub base_fee_part : Json → Result Bytes
  base_fee_part null = ok []
  base_fee_part (num n) = minimal_int (some n)
  base_fee_part other = minimal_int (to_int other)
  base_fee_part empty = minimal_int (to_int empty)
  base_fee_part (str t) = minimal_int (to_int (str t))

  -- `signature_payload`, part by part; an exception leaves no payload.
  unfoldable pub preimage : ℕ → Entry → Result Preimage
  preimage chain_id e = do
    chain ← fixed chain_id 8
    seq ← fixed_int e.sequence_number 8
    block_hash ← hex_part e.block_hash
    metadata ← base64_part e.block_metadata
    delayed ← fixed (or_zero e.delayed_messages_read) 8
    kind ← fixed_int e.header.kind 1
    sender ← sender_part e.header.sender
    block_number ← fixed (or_zero e.header.block_number) 8
    timestamp ← fixed (or_zero e.header.timestamp) 8
    request_id ← request_part e.header.request_id
    base_fee ← base_fee_part e.header.base_fee_l1
    l2_msg ← base64_part e.l2_msg
    ok (record {
      chain = chain;
      seq = seq;
      block_hash = block_hash;
      metadata = metadata;
      delayed = delayed;
      kind = kind;
      sender = sender;
      block_number = block_number;
      timestamp = timestamp;
      request_id = request_id;
      base_fee = base_fee;
      l2_msg = l2_msg;
    })

  unfoldable pub signature_payload : ℕ → Entry → Result Bytes
  unfolding flatten
  signature_payload chain_id e = preimage chain_id e >>= λ p. ok (flatten p)

  module _ (keccak : Bytes → Bytes) (public_key : Bytes → Bytes → Option Bytes) where
    -- signature_hash
    unfoldable pub signature_hash : ℕ → Entry → Result Bytes
    signature_hash chain_id e = signature_payload chain_id e >>= λ payload. ok (keccak payload)

    -- The recovery, of which every exception gives None.
    unfoldable pub recover_from : Option Bytes → Result Bytes → Option Bytes
    recover_from (some sig) (ok digest) = elim (public_key sig digest) [
      | none ↦ none
      | some key ↦ some (last_20 (keccak (drop 1 key)))
    ]
    recover_from (some sig) (err e) = none
    recover_from none digest = none

    unfoldable pub recover_signer : Entry → ℕ → Option Bytes
    unfolding recover_from decoded_signature
    recover_signer e chain_id =
        recover_from (decoded_signature e.signature) (signature_hash chain_id e)

pub record Verifier : Type 0 where
  pub chain_id : ℕ
  pub signers : List Bytes

-- x in signers
unfoldable pub member : Bytes → List Bytes → Bool
member x [] = false
member x (s ∷ signers) = if bytes_eq s x then true else member x signers

unfoldable pub all_addresses : List Bytes → Bool
all_addresses [] = true
all_addresses (s ∷ signers) = length s == 20 && all_addresses signers

-- Verifier.__init__
unfoldable pub make_verifier : ℕ → List Bytes → Result Verifier
unfolding all_addresses
make_verifier chain_id signers =
    if all_addresses signers
    then ok (record { chain_id = chain_id; signers = signers })
    else err value_error

-- MAINNET_VERIFIER
abbrev pub mainnet_verifier : Verifier
mainnet_verifier = record { chain_id = mainnet_chain_id; signers = mainnet_signer ∷ [] }

module _ (to_int : Json → Option ℤ) (keccak : Bytes → Bytes)
    (public_key : Bytes → Bytes → Option Bytes) where
  -- Verifier.signer_of
  unfoldable pub signer_of : Verifier → Entry → Option Bytes
  unfolding recover_signer
  signer_of v e = recover_signer to_int keccak public_key e v.chain_id

  -- Verifier.accepts: None is no member.
  unfoldable pub accepts : Verifier → Entry → Bool
  unfolding signer_of member
  accepts v e = elim (signer_of v e) [ none ↦ false | some s ↦ member s v.signers ]
