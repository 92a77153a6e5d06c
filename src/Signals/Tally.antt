-- ===== src/Signals/Tally.antt =====
-- examples/replay_capture.py, the tallies of `main` over the messages of a capture, and `load` of
-- examples/bench.py. The times are not modelled, and what is printed of a tally is its ten greatest
-- counts.
use robinhood_chain_sequence.Prelude.{
  ℕ, ◌+◌, Option, none, some, List, [], ◌∷◌, ◌++◌, map, ◌==◌, if◌then◌else◌, length,
}
use robinhood_chain_sequence.Bytes.{Bytes, bytes_eq}
use robinhood_chain_sequence.Tx.{Tx, sender_bytes}
use robinhood_chain_sequence.Frame.{FeedMessage, from_parent_chain}

-- A Counter, and counter[key] += 1. The keys are the bytes; `.hex()` of them is what is printed.
abbrev pub Counter : Type 0
Counter = List (Bytes × ℕ)

unfoldable pub count : Bytes → Counter → Counter
count key [] = (key, 1) ∷ []
count key ((k, n) ∷ counter) =
    let rest = count key counter in if bytes_eq k key then (k, n + 1) ∷ counter else (k, n) ∷ rest

-- counter[key]
unfoldable pub count_of : Bytes → Counter → ℕ
count_of key [] = 0
count_of key ((k, n) ∷ counter) =
    let rest = count_of key counter in if bytes_eq k key then n else rest

pub record Tally : Type 0 where
  pub selectors : Counter
  pub recipients : Counter
  pub senders : Counter
  pub types : Counter
  pub blocks : ℕ
  pub txs : ℕ
  pub deploys : ℕ
  pub from_parent : ℕ

abbrev pub no_tally : Tally
no_tally = record {
  selectors = [];
  recipients = [];
  senders = [];
  types = [];
  blocks = 0;
  txs = 0;
  deploys = 0;
  from_parent = 0;
}

-- `if key: counter[key] += 1`
unfoldable pub count_some : Option Bytes → Counter → Counter
unfolding count
count_some none counter = counter
count_some (some key) counter = if length key == 0 then counter else count key counter

-- A contract that is called, or a deployment.
unfoldable pub tally_to : Option Bytes → Option Bytes → Tally → Tally
unfolding count_some count
tally_to none selector t = record t { deploys = t.deploys + 1 }
tally_to (some to) selector t = record t {
  recipients = count to t.recipients;
  selectors = count_some selector t.selectors;
}

module _ (keccak : Bytes → Bytes) (public_key : Bytes → Bytes → Option Bytes) where
  unfoldable pub tally_tx : Tally → Tx → Tally
  unfolding tally_to count_some count
  tally_tx t tx = tally_to tx.to_bytes tx.selector (record t {
    txs = t.txs + 1;
    types = count (tx.tx_type ∷ []) t.types;
    senders = count_some (sender_bytes keccak public_key tx).0 t.senders;
  })

  unfoldable pub tally_txs : Tally → List Tx → Tally
  unfolding tally_tx
  tally_txs t [] = t
  tally_txs t (tx ∷ txs) = tally_txs (tally_tx t tx) txs

  unfoldable pub tally_messages : Tally → List FeedMessage → Tally
  unfolding tally_txs
  tally_messages t [] = t
  tally_messages t (msg ∷ msgs) =
      tally_messages
        (tally_txs
          (record t {
            blocks = t.blocks + 1;
            from_parent = t.from_parent + (if from_parent_chain msg then 1 else 0);
          })
          msg.txs)
        msgs

-- Every envelope of a capture, as raw bytes.
unfoldable pub load : List FeedMessage → List Bytes
load [] = []
load (msg ∷ msgs) = map (λ tx. tx.raw) msg.txs ++ load msgs
