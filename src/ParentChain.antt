-- ===== src/ParentChain.antt =====
-- codec.py, messages from the parent chain: `_parent_chain_tx`, `_words`, `_header_bytes`,
-- `_l1_base_fee`, `_submit_retryable` and `decode_parent_chain_message`.
pub mod Calldata
pub mod Payload
pub mod Envelope
pub mod Examples
use robinhood_chain_sequence.Prelude.{
  ℕ, zero, suc, ◌+◌, ◌-◌, ◌*◌, ◌%◌, ◌^◌, Bool, false, Option, none, some, List, [], ◌∷◌, ◌++◌, ◌&&◌,
  Result, ok, err, rejected, ◌>>=◌, ltb, leb, ◌==◌, if◌then◌else◌, length, take, drop, slice,
  get_or,
}
use robinhood_chain_sequence.Prelude.Int.{ℤ, pos, negsuc}
use robinhood_chain_sequence.Bytes.{Bytes, from_bytes, to_bytes, any, ljust, zeros}
use robinhood_chain_sequence.Hex.{Text, unhex}
use robinhood_chain_sequence.Rlp.{rlp_list, rlp_bytes, rlp_uint}
use robinhood_chain_sequence.Tx.{Tx, known}
use robinhood_chain_sequence.L2.{max_l2_message_size}

-- A value of a JSON header; a key that is absent reads as null. `empty` is one that Python takes for
-- false and is neither null, a number nor a text (false, [], {}); `other` is any further one.
pub data Json : Type 0 where
  null empty other : Json
  num : ℤ → Json
  str : Text → Json

pub record Header : Type 0 where
  pub kind : Option ℤ
  pub sender : Json
  pub timestamp : Option ℕ
  pub block_number : Option ℕ
  pub request_id : Json
  pub base_fee_l1 : Json

-- header.get("kind", -1), of a header whose kind is a number or absent; a null is not modelled.
unfoldable pub kind_of : Header → ℤ
kind_of header = elim header.kind [ none ↦ negsuc 0 | some k ↦ k ]

abbrev pub is_kind : ℤ → ℕ → Bool
is_kind (pos n) k = n == k
is_kind (negsuc n) k = false

abbrev pub arb_submit_retryable_tx : ℕ
arb_submit_retryable_tx = 0x69

abbrev pub arb_deposit_tx : ℕ
arb_deposit_tx = 0x64

abbrev pub arb_retryable_tx : Bytes
arb_retryable_tx = zeros 19 ++ 0x6e ∷ []

abbrev pub submit_retryable_selector : Bytes
submit_retryable_selector = 0xc9 ∷ 0xf9 ∷ 0x5d ∷ 0x32 ∷ []

-- b"".join(parts)
unfoldable pub join : List Bytes → Bytes
join [] = []
join (b ∷ bs) = b ++ join bs

unfoldable pub parent_chain_tx : ℕ → List Bytes → Bytes → ℕ → ℕ → Bytes → Bytes → Tx
unfolding join
parent_chain_tx tx_type fields to value gas bs sender = record {
  raw = tx_type ∷ rlp_list (join fields);
  tx_type = tx_type;
  body = some bs;
  fields = none;
  sender_memo = known (some sender);
  nonce = 0;
  gas = gas;
  value = value;
  to_bytes = some to;
  data_len = length bs;
  data_span = (0, length bs);
  selector = if leb 4 (length bs) then some (take 4 bs) else none;
}

unfoldable pub words_from : ℕ → ℕ → Bytes → List Bytes
words_from i zero payload = []
words_from i (suc count) payload = slice i (i + 32) payload ∷ words_from (i + 32) count payload

unfoldable pub words : Bytes → ℕ → Result (List Bytes)
unfolding words_from
words payload count =
    if ltb (length payload) (32 * count) then err rejected else ok (words_from 0 count payload)

-- What `_unhex` gave, or the rejection of a text that is no hex.
unfoldable pub sized : Result Bytes → ℕ → Result Bytes
sized (err e) size = err rejected
sized (ok raw) size = if length raw == size then ok raw else err rejected

unfoldable pub header_bytes : Json → ℕ → Result Bytes
unfolding sized
header_bytes (str value) size = sized (unhex value) size
header_bytes null size = err rejected
header_bytes other size = err rejected
header_bytes empty size = err rejected
header_bytes (num n) size = err rejected

unfoldable pub l1_base_fee : Json → Result ℕ
l1_base_fee null = ok 0
l1_base_fee (num (pos fee)) = if ltb fee (2 ^ 256) then ok fee else err rejected
l1_base_fee (num (negsuc n)) = err rejected
l1_base_fee (str t) = err rejected
l1_base_fee other = err rejected
l1_base_fee empty = err rejected

-- The nine words of a SubmitRetryable message and the retry data behind them.
pub record Retryable : Type 0 where
  pub retry_to : Bytes
  pub call_value : Bytes
  pub deposit : Bytes
  pub max_submission_fee : Bytes
  pub fee_refund : Bytes
  pub beneficiary : Bytes
  pub gas_limit : Bytes
  pub max_fee : Bytes
  pub data_length : Bytes
  pub retry_data : Bytes

-- The last twenty bytes of a word.
abbrev pub low_20 : Bytes → Bytes
low_20 w = drop 12 w

-- The words in the order of the message, with its retry data.
abbrev pub retryable_of : List Bytes → Bytes → Retryable
retryable_of w retry_data = record {
  retry_to = get_or w 0 [];
  call_value = get_or w 1 [];
  deposit = get_or w 2 [];
  max_submission_fee = get_or w 3 [];
  fee_refund = get_or w 4 [];
  beneficiary = get_or w 5 [];
  gas_limit = get_or w 6 [];
  max_fee = get_or w 7 [];
  data_length = get_or w 8 [];
  retry_data = retry_data;
}

unfoldable pub read_retryable : Bytes → Result Retryable
read_retryable payload = do
  w ← words payload 9
  let gas = from_bytes (get_or w 6 [])
  let size = from_bytes (get_or w 8 [])
  let tail = slice 288 (288 + size) payload
  if leb (2 ^ 64) gas
      then err rejected
      else if ltb max_l2_message_size size
      then err rejected
      else if ltb 0 size && length tail == 0
      then err rejected
      else ok (retryable_of w (ljust tail size))

-- The fields of the transaction that arbos builds, encoded.
unfoldable pub retryable_fields : Retryable → Bytes → Bytes → ℕ → ℕ → List Bytes
retryable_fields r request_id poster fee chain_id =
    let to = low_20 r.retry_to in
    rlp_uint chain_id
    ∷ rlp_bytes request_id
    ∷ rlp_bytes poster
    ∷ rlp_uint fee
    ∷ rlp_uint (from_bytes r.deposit)
    ∷ rlp_uint (from_bytes r.max_fee)
    ∷ rlp_uint (from_bytes r.gas_limit)
    ∷ rlp_bytes (if any to then to else [])
    ∷ rlp_uint (from_bytes r.call_value)
    ∷ rlp_bytes (low_20 r.beneficiary)
    ∷ rlp_uint (from_bytes r.max_submission_fee)
    ∷ rlp_bytes (low_20 r.fee_refund)
    ∷ rlp_bytes r.retry_data
    ∷ []

-- The calldata of `submitRetryable(...)`; -n % 32 zeros fill the last word.
unfoldable pub retryable_calldata : Retryable → Bytes → ℕ → Bytes
unfolding join
retryable_calldata r request_id fee = join (
    submit_retryable_selector
    ∷ request_id
    ∷ to_bytes fee 32
    ∷ r.deposit
    ∷ r.call_value
    ∷ r.max_fee
    ∷ r.gas_limit
    ∷ r.max_submission_fee
    ∷ zeros 12
    ∷ low_20 r.fee_refund
    ∷ zeros 12
    ∷ low_20 r.beneficiary
    ∷ zeros 12
    ∷ low_20 r.retry_to
    ∷ to_bytes (32 * 11) 32
    ∷ r.data_length
    ∷ r.retry_data
    ∷ zeros ((32 - from_bytes r.data_length % 32) % 32)
    ∷ [])

unfoldable pub submit_retryable : Bytes → Bytes → Bytes → Header → ℕ → Result Tx
unfolding read_retryable l1_base_fee
submit_retryable payload request_id poster header chain_id = do
  r ← read_retryable payload
  fee ← l1_base_fee header.base_fee_l1
  ok (
      parent_chain_tx arb_submit_retryable_tx (retryable_fields r request_id poster fee chain_id)
        arb_retryable_tx 0 (from_bytes r.gas_limit) (retryable_calldata r request_id fee) poster)

unfoldable pub eth_deposit : Bytes → Bytes → Bytes → ℕ → Result Tx
eth_deposit payload request_id poster chain_id =
    let to = take 20 payload in
    let value = from_bytes (slice 20 52 payload) in
    if ltb (length payload) 52
    then err rejected
    else ok (
        parent_chain_tx arb_deposit_tx
          (rlp_uint chain_id
            ∷ rlp_bytes request_id
            ∷ rlp_bytes poster
            ∷ rlp_bytes to
            ∷ rlp_uint value
            ∷ [])
          to value 0 [] poster)

unfoldable pub build_parent_chain : Header → Bytes → ℕ → Result (List Tx)
unfolding header_bytes eth_deposit submit_retryable
build_parent_chain header payload chain_id =
    let built = do
      request_id ← header_bytes header.request_id 32
      poster ← header_bytes header.sender 20
      if is_kind (kind_of header) 12
          then (eth_deposit payload request_id poster chain_id >>= λ tx. ok (tx ∷ []))
          else if is_kind (kind_of header) 9
          then (submit_retryable payload request_id poster header chain_id >>= λ tx. ok (tx ∷ []))
          else ok []
    in if ltb max_l2_message_size (length payload) then err rejected else built

unfoldable pub decode_parent_chain_message : Header → Bytes → ℕ → List Tx
unfolding build_parent_chain kind_of
decode_parent_chain_message header payload chain_id =
    elim (build_parent_chain header payload chain_id) [ ok txs ↦ txs | err e ↦ [] ]
