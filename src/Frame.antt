-- ===== src/Frame.antt =====
-- codec.py, frames: `FeedMessage` and `parse_frame`.
pub mod Read
pub mod Backlog
pub mod Examples
use robinhood_chain_sequence.Prelude.{
  ℕ, Bool, true, false, Option, none, some, List, [], ◌||◌, not, Result, ok, err, ◌>>=◌, traverse,
  ◌==◌, if◌then◌else◌, length,
}
use robinhood_chain_sequence.Prelude.Int.{ℤ, negsuc}
use robinhood_chain_sequence.Hex.{Text}
use robinhood_chain_sequence.Base64.{b64decode}
use robinhood_chain_sequence.Tx.{Tx}
use robinhood_chain_sequence.L2.{decode_l2_message}
use robinhood_chain_sequence.ParentChain.{
  Json, null, Header, kind_of, is_kind, decode_parent_chain_message,
}

-- An element of a frame's `messages`, with the fields that the program reads. Absent and null are
-- `none`; a sequence number that is null, which no message has, is not modelled apart.
pub record Entry : Type 0 where
  pub sequence_number : Option ℤ
  pub block_hash : Option Text
  pub delayed_messages_read : Option ℕ
  pub header : Header
  pub l2_msg : Option Text
  pub block_metadata : Option Text
  pub signature : Option Text

pub record FeedMessage : Type 0 where
  pub seq : ℤ
  pub l1_kind : ℤ
  pub l1_sender : Json
  pub timestamp : ℕ
  pub txs : List Tx
  pub block_hash : Option Text
  pub delayed_messages_read : ℕ
  pub l1_block_number : ℕ
  pub request_id : Json
  pub live : Bool
  pub received_at : ℕ
  pub received_monotonic : ℕ
  pub reorg : Bool

-- `value or 0`, and `.get(key, 0)`
abbrev pub or_zero : Option ℕ → ℕ
or_zero none = 0
or_zero (some n) = n

-- entry.get("sequenceNumber", -1)
unfoldable pub seq_of : Entry → ℤ
seq_of e = elim e.sequence_number [ none ↦ negsuc 0 | some s ↦ s ]

-- FeedMessage.from_parent_chain
unfoldable pub from_parent_chain : FeedMessage → Bool
from_parent_chain m = elim m.request_id [ null ↦ not (is_kind m.l1_kind 3) | _ ↦ true ]

-- A payload of base64 that cannot be read gives nothing.
unfoldable pub parent_txs : Header → Option ℕ → Text → List Tx
parent_txs header none l2_msg = []
parent_txs header (some chain_id) l2_msg =
    let decoded : List Tx = elim (b64decode l2_msg) [
      | ok payload ↦ decode_parent_chain_message header payload chain_id
      | err e ↦ []
    ] in
    if is_kind (kind_of header) 9 || is_kind (kind_of header) 12 then decoded else []

unfoldable pub txs_of : Header → Option ℕ → Option Text → Result (List Tx)
unfolding parent_txs
txs_of header chain_id none = ok []
txs_of header chain_id (some l2_msg) =
    if length l2_msg == 0
    then ok []
    else if is_kind (kind_of header) 3
    then (b64decode l2_msg >>= λ payload. ok (decode_l2_message payload 0))
    else ok (parent_txs header chain_id l2_msg)

unfoldable pub message_of : Entry → List Tx → FeedMessage
unfolding seq_of kind_of
message_of e txs = record {
  seq = seq_of e;
  l1_kind = kind_of e.header;
  l1_sender = e.header.sender;
  timestamp = or_zero e.header.timestamp;
  txs = txs;
  block_hash = e.block_hash;
  delayed_messages_read = or_zero e.delayed_messages_read;
  l1_block_number = or_zero e.header.block_number;
  request_id = e.header.request_id;
  live = true;
  received_at = 0;
  received_monotonic = 0;
  reorg = false;
}

-- The body of the loop of `parse_frame`.
unfoldable pub parse_entry : Bool → Option ℕ → Entry → Result FeedMessage
unfolding message_of
parse_entry decode_txs chain_id e =
    (if decode_txs then txs_of e.header chain_id e.l2_msg else ok []) >>= λ txs.
    ok (message_of e txs)

unfoldable pub parse_frame : List Entry → Bool → Option ℕ → Result (List FeedMessage)
unfolding parse_entry
parse_frame entries decode_txs chain_id = traverse (parse_entry decode_txs chain_id) entries
