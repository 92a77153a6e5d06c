-- ===== src/Signals.antt =====
-- examples/copy_trade_signals.py, and the tallies of examples/replay_capture.py. What they print is the
-- value returned, all or none where a text fails; clocks are not modelled, and `seen_at` is not rounded.
pub mod Follow
pub mod Tally
pub mod Counts
pub mod Examples
use robinhood_chain_sequence.Prelude.{
  ℕ, Bool, true, false, Option, none, some, List, [], ◌∷◌, ◌&&◌, not, Result, ok, ◌>>=◌, traverse,
  collect, ◌==◌, if◌then◌else◌, length,
}
use robinhood_chain_sequence.Prelude.Int.{ℤ}
use robinhood_chain_sequence.Bytes.{Bytes}
use robinhood_chain_sequence.Hex.{Text}
use robinhood_chain_sequence.Tx.{Tx, sender_bytes}
use robinhood_chain_sequence.Tx.Texts.{hash, sender_text}
use robinhood_chain_sequence.Frame.{FeedMessage}
use robinhood_chain_sequence.Intents.{Decoder, Intent, IntentKind, swap, decode_intents}
use robinhood_chain_sequence.Intents.Dict.{IntentDict, as_dict}
use robinhood_chain_sequence.Cli.{contains, keep_if}

-- intent.kind in TRADES
unfoldable pub is_trade : IntentKind → Bool
is_trade swap = true
is_trade IntentKind.relay_fill = true
is_trade IntentKind.relay_sell = true
is_trade IntentKind.transfer = false
is_trade IntentKind.approve = false

-- intent.actor if intent.actor is not None else tx.sender_bytes
unfoldable pub wallet_of : Option Bytes → Option Bytes → Option Bytes
wallet_of none sender = sender
wallet_of (some actor) sender = some actor

-- The two tests of an intent.
unfoldable pub is_followed : List Bytes → Option Bytes → Intent → Bool
unfolding is_trade wallet_of contains
is_followed follow sender i = is_trade i.kind && contains follow (wallet_of i.actor sender)

-- A line that is printed; its constant fields are left out.
pub record Signal : Type 0 where
  pub block : ℤ
  pub sequencer_time : ℕ
  pub seen_at : ℕ
  pub hash : Text
  pub intent : IntentDict
  pub sender : Option Text

module _ (keccak : Bytes → Bytes) (public_key : Bytes → Bytes → Option Bytes)
    (find : Bytes → Option Decoder) (watch_contracts follow : List Bytes) where
  -- The intents of a transaction that pass.
  unfoldable pub followed : Tx → List Intent
  unfolding is_followed
  followed tx =
      keep_if (is_followed follow (sender_bytes keccak public_key tx).0) (decode_intents find tx)

  unfoldable pub signal_of : FeedMessage → Tx → Intent → Result Signal
  signal_of msg tx i = do
    intent ← as_dict keccak i
    sender ← sender_text keccak public_key tx
    ok (record {
      block = msg.seq;
      sequencer_time = msg.timestamp;
      seen_at = msg.received_at;
      hash = hash keccak tx;
      intent = intent;
      sender = sender;
    })

  -- WATCH_CONTRACTS and tx.to_bytes not in WATCH_CONTRACTS
  unfoldable pub is_gated : Tx → Bool
  unfolding contains
  is_gated tx = not (length watch_contracts == 0) && not (contains watch_contracts tx.to_bytes)

  unfoldable pub tx_signals : FeedMessage → Tx → Result (List Signal)
  unfolding is_gated followed signal_of
  tx_signals msg tx = if is_gated tx then ok [] else traverse (signal_of msg tx) (followed tx)

  -- The loop of `main`; `seen` is the length of what it returns.
  unfoldable pub signals : List FeedMessage → Result (List Signal)
  unfolding tx_signals
  signals msgs = collect (λ msg. collect (tx_signals msg) msg.txs) msgs
