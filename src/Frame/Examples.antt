-- ===== src/Frame/Examples.antt =====
-- A run of the parser on a frame with an empty batch.
use robinhood_chain_sequence.Prelude.{◌≡◌, refl, true, some, none, List, [], ◌∷◌, ok}
use robinhood_chain_sequence.Prelude.Int.{pos}
use robinhood_chain_sequence.Hex.{text}
use robinhood_chain_sequence.Base64.{b64decode}
use robinhood_chain_sequence.L2.{
  decode_l2_message, parse_l2_message, parse_with, split_batch, or_nothing,
}
use robinhood_chain_sequence.ParentChain.{null}
use robinhood_chain_sequence.Frame.{Entry, FeedMessage, message_of, txs_of, parse_frame}

-- "Aw==" is the byte 3: a batch with no entry.
abbrev batch_entry : Entry
batch_entry = record {
  sequence_number = some (pos 5);
  block_hash = some (text "0x01");
  delayed_messages_read = some 1;
  header = record {
    kind = some (pos 3);
    sender = null;
    timestamp = some 1000;
    block_number = some 7;
    request_id = null;
    base_fee_l1 = null;
  };
  l2_msg = some (text "Aw==");
  block_metadata = none;
  signature = none;
}

abbrev frame : List Entry
frame = batch_entry ∷ []

abbrev frame_messages : List FeedMessage
frame_messages = message_of batch_entry [] ∷ []

parse_frame-frame : parse_frame frame true none ≡ ok frame_messages
unfolding parse_frame txs_of b64decode decode_l2_message parse_l2_message parse_with split_batch
    or_nothing
parse_frame-frame = refl
