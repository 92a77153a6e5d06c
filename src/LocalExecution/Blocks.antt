-- ===== src/LocalExecution/Blocks.antt =====
-- examples/local_execution/execute.py, `run_blocks`: the blocks in order on one EVM, with the score of
-- every transaction. The times that it measures and the progress that it prints are not modelled.
use robinhood_chain_sequence.Prelude.{
  ℕ, ◌+◌, Option, none, some, List, [], ◌∷◌, ◌++◌, ◌||◌, Result, ok, ◌>>=◌, ◌==◌, if◌then◌else◌,
  length,
}
use robinhood_chain_sequence.Bytes.{Bytes, bytes_eq}
use robinhood_chain_sequence.Hex.{Text, text}
use robinhood_chain_sequence.Tx.{Tx}
use robinhood_chain_sequence.Tx.Texts.{hash, to_text, selector_hex}
use robinhood_chain_sequence.ParentChain.{arb_deposit_tx, arb_submit_retryable_tx}
use robinhood_chain_sequence.Frame.{FeedMessage, from_parent_chain}
use robinhood_chain_sequence.LocalExecution.Machine.{
  Machine, Ending, lower, block_env, execute, traced, score, first_diff,
}
use robinhood_chain_sequence.LocalExecution.Counters.{
  Receipt, real_logs, Stats, Row, Pass, receipt_for, outcome_for, compared, count_scored,
}

abbrev pub with_stats : {Evm : Type 0} → Pass Evm → Stats → Pass Evm
with_stats p s = record p { stats = s }

module _ {Evm : Type 0} (machine : Machine Evm) (keccak : Bytes → Bytes)
    (public_key : Bytes → Bytes → Option Bytes) where
  -- `traced` where the sets are asked for, or `execute`.
  unfoldable pub run_with :
      Option (List (Text × ℕ) × List Text) → Tx → Pass Evm → Result (Pass Evm × Ending)
  run_with none tx p = execute machine keccak public_key p.evm tx >>= λ (evm, ending).
      ok (record p { evm = evm }, ending)
  run_with (some (slots, accounts)) tx p =
      traced machine keccak public_key p.evm tx >>= λ (evm, ending, more_slots, more_accounts). ok (
        record p { evm = evm; reads = some (slots ++ more_slots, accounts ++ more_accounts) },
        ending,
      )

  -- The line of the detail file.
  unfoldable pub row_of : Text → FeedMessage → Tx → Option Text → Ending → Receipt → Row
  unfolding real_logs
  row_of label msg tx to (status, logs) truth = record {
    phase = label;
    seq = msg.seq;
    hash = hash keccak tx;
    to = to;
    selector = selector_hex tx;
    ours = status;
    chain_ok = bytes_eq truth.status (text "0x1");
    verdict = score logs (real_logs truth);
    our_logs = length logs;
    real_logs = length truth.logs;
    first_diff = first_diff logs (real_logs truth);
  }

  -- The score of a transaction, if the node gave a receipt for it.
  unfoldable pub scored :
      Text → FeedMessage → Tx → Ending → Option Receipt → Pass Evm → Result (Pass Evm)
  unfolding row_of count_scored
  scored label msg tx ending none p =
      ok (with_stats p (record p.stats { no_receipt = p.stats.no_receipt + 1 }))
  scored label msg tx ending (some truth) p = to_text keccak tx >>= λ to. ok (record p {
    stats = count_scored ending truth p.stats;
    detail = p.detail ++ row_of label msg tx to ending truth ∷ [];
  })

  -- The body of the loop over the transactions, of a transaction that is executed.
  unfoldable pub run_called : Text → FeedMessage → List Receipt → Tx → Pass Evm → Result (Pass Evm)
  unfolding run_with outcome_for compared receipt_for scored
  run_called label msg receipts tx p = do
    (run, ending) ← run_with p.reads tx p
    let key = hash keccak tx
    let kept = compared (outcome_for run.outcomes key) key ending run
    scored label msg tx ending (receipt_for receipts (lower key)) kept

  -- What is skipped, by tx.to_bytes and the type of the transaction.
  unfoldable pub run_to :
      Text → FeedMessage → List Receipt → Tx → Option Bytes → Pass Evm → Result (Pass Evm)
  unfolding run_called
  run_to label msg receipts tx none p =
      ok (with_stats p (record p.stats { deploy_skipped = p.stats.deploy_skipped + 1 }))
  run_to label msg receipts tx (some to) p =
      if tx.tx_type == arb_deposit_tx || tx.tx_type == arb_submit_retryable_tx
      then ok (
          with_stats p
            (record p.stats { parent_chain_tx_skipped = p.stats.parent_chain_tx_skipped + 1 }))
      else run_called label msg receipts tx p

  -- The body of the loop over the transactions.
  unfoldable pub run_tx : Text → FeedMessage → List Receipt → Tx → Pass Evm → Result (Pass Evm)
  unfolding run_to
  run_tx label msg receipts tx p = run_to label msg receipts tx tx.to_bytes p

  unfoldable pub run_txs :
      Text → FeedMessage → List Receipt → List Tx → Pass Evm → Result (Pass Evm)
  unfolding run_tx
  run_txs label msg receipts [] p = ok p
  run_txs label msg receipts (tx ∷ txs) p =
      run_tx label msg receipts tx p >>= run_txs label msg receipts txs

  unfoldable pub end_block : FeedMessage → Pass Evm → Pass Evm
  end_block msg p =
      if from_parent_chain msg
      then with_stats p
          (record p.stats { parent_chain_messages = p.stats.parent_chain_messages + 1 })
      else p

  unfoldable pub run_blocks :
      Text → List (FeedMessage × List Receipt) → Pass Evm → Result (Pass Evm)
  unfolding run_txs end_block block_env
  run_blocks label [] p = ok p
  run_blocks label ((msg, receipts) ∷ blocks) p =
      run_txs label msg receipts msg.txs
        (record p { evm = machine.set_block_env p.evm (block_env msg) })
      >>= λ q. run_blocks label blocks (end_block msg q)
