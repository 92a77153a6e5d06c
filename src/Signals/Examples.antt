-- ===== src/Signals/Examples.antt =====
-- Runs of the theorems on the scripts.
use robinhood_chain_sequence.Prelude.{
  ◌+◌, ◌≡◌, refl, Option, some, none, true, false, List, [], ◌∷◌, ok, length, replicate, slice,
}
use robinhood_chain_sequence.Prelude.Int.{pos}
use robinhood_chain_sequence.Bytes.{Bytes, bytes_eq}
use robinhood_chain_sequence.Tx.{Tx, known, sender_bytes}
use robinhood_chain_sequence.ParentChain.{null}
use robinhood_chain_sequence.Frame.{FeedMessage}
use robinhood_chain_sequence.Intents.{Decoder, intent, swap, decode_intents}
use robinhood_chain_sequence.Cli.{keep_if, keep}
use robinhood_chain_sequence.Signals.{is_trade, followed}
use robinhood_chain_sequence.Signals.Follow.{shown, by_actor, followed-keep}
use robinhood_chain_sequence.Signals.Tally.{no_tally, tally_messages, count_of, load}
use robinhood_chain_sequence.Signals.Counts.{sum, sent_to, all_txs, tally_messages_lem}

abbrev keccak : Bytes → Bytes
keccak b = replicate 32 0

abbrev public_key : Bytes → Bytes → Option Bytes
public_key digest signature = none

-- A swap for nobody, and one for a named wallet.
abbrev two_swaps : Decoder
two_swaps again call depth =
    ok (intent swap none call.via ∷ intent swap (some (replicate 20 0x99)) call.via ∷ [])

abbrev every_selector : Bytes → Option Decoder
every_selector selector = some two_swaps

abbrev wallet : Bytes
wallet = replicate 20 0x55

abbrev router : Bytes
router = replicate 20 0x66

abbrev trade : Option Bytes → Tx
trade to = record {
  raw = 1 ∷ [];
  tx_type = 2;
  body = some (1 ∷ 2 ∷ 3 ∷ 4 ∷ []);
  fields = none;
  sender_memo = known (some wallet);
  nonce = 0;
  gas = 0;
  value = 0;
  to_bytes = to;
  data_len = 4;
  data_span = (0, 4);
  selector = some (1 ∷ 2 ∷ 3 ∷ 4 ∷ []);
}

followed-keep_example :
    followed keccak public_key every_selector [] (wallet ∷ []) (trade (some router))
    ≡ keep_if
        (λ i. is_trade i.kind)
        (shown
          (keep keccak public_key every_selector (by_actor (wallet ∷ [])) (trade (some router))))
followed-keep_example =
    followed-keep keccak public_key every_selector [] (wallet ∷ []) (trade (some router))

-- The swap for nobody is the sender's, and the other wallet is not followed.
one_followed :
    followed keccak public_key every_selector [] (wallet ∷ []) (trade (some router))
    ≡ intent swap none (router ∷ []) ∷ []
unfolding followed decode_intents slice sender_bytes bytes_eq
one_followed = refl

abbrev block_of : List Tx → FeedMessage
block_of txs = record {
  seq = pos 9;
  l1_kind = pos 3;
  l1_sender = null;
  timestamp = 1000;
  txs = txs;
  block_hash = none;
  delayed_messages_read = 0;
  l1_block_number = 7;
  request_id = null;
  live = true;
  received_at = 0;
  received_monotonic = 0;
  reorg = false;
}

abbrev capture : List FeedMessage
capture =
    block_of (trade (some router) ∷ trade none ∷ []) ∷ block_of (trade (some router) ∷ []) ∷ []

tally_messages_lem_example :
    let t = tally_messages keccak public_key no_tally capture in
    (t.txs ≡ length (load capture))
    × (sum t.types ≡ t.txs)
    × (t.deploys + sum t.recipients ≡ t.txs)
    × ((a : Bytes) → count_of a t.recipients ≡ sent_to a (all_txs capture))
    × (t.blocks ≡ length capture)
tally_messages_lem_example = tally_messages_lem keccak public_key capture

capture_counts :
    let t = tally_messages keccak public_key no_tally capture in
    (t.txs ≡ 3) × (t.deploys ≡ 1) × (count_of router t.recipients ≡ 2)
unfolding tally_messages count_of bytes_eq
capture_counts = (refl, refl, refl)
