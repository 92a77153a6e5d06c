-- ===== src/LocalExecution/Agreement.antt =====
-- examples/local_execution/execute.py: the comparison of the offline pass with the forked pass.
use robinhood_chain_sequence.Prelude.{
  ◌+◌, ◌≡◌, refl, ap, ◌∙◌, arith, Option, none, some, List, [], ◌∷◌, ◌||◌, ok, All, Outcome,
  returns, AnyError, Outcome-bind, Outcome-map, Outcome-eq-ok, ◌==◌,
}
use robinhood_chain_sequence.Bytes.{Bytes}
use robinhood_chain_sequence.Hex.{Text}
use robinhood_chain_sequence.Tx.{Tx}
use robinhood_chain_sequence.Tx.Texts.{hash}
use robinhood_chain_sequence.ParentChain.{arb_deposit_tx, arb_submit_retryable_tx}
use robinhood_chain_sequence.Abi.Malformed.{Outcome-if}
use robinhood_chain_sequence.Frame.{FeedMessage}
use robinhood_chain_sequence.LocalExecution.Machine.{Machine, Ending, lower}
use robinhood_chain_sequence.LocalExecution.Counters.{
  Receipt, no_stats, Pass, receipt_for, outcome_for, compared,
}
use robinhood_chain_sequence.LocalExecution.Blocks.{
  run_called, run_to, run_tx, run_txs, end_block, run_blocks,
}
use robinhood_chain_sequence.LocalExecution.Accounting.{run_with-same}
use robinhood_chain_sequence.LocalExecution.Outcomes.{
  comparisons, ran, IsKnown, scored-ran, KnownIn, KnownBlock, end_block-outcomes, run_blocks-Learns,
}

module _ {Evm : Type 0} (machine : Machine Evm) (keccak : Bytes → Bytes)
    (public_key : Bytes → Bytes → Option Bytes) (label : Text) where
  -- As many comparisons as transactions that run, and no new outcome.
  record Compares (p q : Pass Evm) : Type 0 where
    same : q.outcomes ≡ p.outcomes
    each : comparisons q.stats + ran p.stats ≡ comparisons p.stats + ran q.stats

  Compares-refl : (p : Pass Evm) → Compares p p
  Compares-refl p = record { same = refl; each = omega arith }

  Compares-trans : {p q r : Pass Evm} → Compares p q → Compares q r → Compares p r
  Compares-trans f g = record { same = g.same ∙ f.same; each = omega (arith, f.each, g.each) }

  compared_known :
      (key : Text) (ending : Ending) (p : Pass Evm)
      → IsKnown key p.outcomes
      → let q = compared (outcome_for p.outcomes key) key ending p in
        (q.outcomes ≡ p.outcomes)
        × (comparisons q.stats ≡ comparisons p.stats + 1)
        × (ran q.stats ≡ ran p.stats)
  unfolding compared
  compared_known key ending p (e, known) = rw known (refl, ground arith, ground arith)

  run_called-Compares :
      (msg : FeedMessage) (receipts : List Receipt) (tx : Tx) (p : Pass Evm)
      → IsKnown (hash keccak tx) p.outcomes
      → Outcome AnyError (Compares p) (run_called machine keccak public_key label msg receipts tx p)
  unfolding run_called
  run_called-Compares msg receipts tx p (e, known) =
      Outcome-bind _ _ (run_with-same machine keccak public_key label p.reads tx p)
        (λ (run, ending) (stats_same, same).
          let key = hash keccak tx in
          let known_here : IsKnown key run.outcomes = rw same (e, known) in
          let (kept, one, none_more) = compared_known key ending run known_here in
          Outcome-map _
            (scored-ran machine keccak public_key label msg tx ending
              (receipt_for receipts (lower key))
              (compared (outcome_for run.outcomes key) key ending run))
            (λ q (kept', compared_same, one_more). record {
              same = kept' ∙ kept ∙ same;
              each = omega (
                arith,
                one,
                none_more,
                compared_same,
                one_more,
                ap comparisons stats_same,
                ap ran stats_same,
              );
            }))

  run_to-Compares :
      (msg : FeedMessage) (receipts : List Receipt) (tx : Tx) (p : Pass Evm) (to : Option Bytes)
      → tx.to_bytes ≡ to
      → KnownIn machine keccak public_key label p.outcomes tx
      → Outcome AnyError (Compares p) (run_to machine keccak public_key label msg receipts tx to p)
  unfolding run_to
  run_to-Compares msg receipts tx p none e known =
      returns _ (record { same = refl; each = omega arith })
  run_to-Compares msg receipts tx p (some to) e known =
      Outcome-if (tx.tx_type == arb_deposit_tx || tx.tx_type == arb_submit_retryable_tx) _ _
        (λ arbos. returns _ (record { same = refl; each = omega arith }))
        (λ plain. run_called-Compares msg receipts tx p (known (ground (arith, e, plain))))

  run_txs-Compares :
      (msg : FeedMessage) (receipts : List Receipt) (txs : List Tx) (p : Pass Evm)
      → All (KnownIn machine keccak public_key label p.outcomes) txs
      → Outcome AnyError (Compares p) (run_txs machine keccak public_key label msg receipts txs p)
  unfolding run_txs run_tx
  run_txs-Compares msg receipts [] p known = returns p (Compares-refl p)
  run_txs-Compares msg receipts (tx ∷ txs) p (known, rest) =
      Outcome-bind _ _ (run_to-Compares msg receipts tx p tx.to_bytes refl known) (λ q first.
        Outcome-map _ (run_txs-Compares msg receipts txs q (rw first.same rest))
          (λ r more. Compares-trans first more))

  run_blocks-Compares :
      (blocks : List (FeedMessage × List Receipt)) (p : Pass Evm)
      → All (KnownBlock machine keccak public_key label p.outcomes) blocks
      → Outcome AnyError (Compares p) (run_blocks machine keccak public_key label blocks p)
  unfolding run_blocks
  run_blocks-Compares [] p known = returns p (Compares-refl p)
  run_blocks-Compares ((msg, receipts) ∷ blocks) p (these, rest) =
      Outcome-bind _ _ (run_txs-Compares msg receipts msg.txs _ these) (λ q first.
        let r = end_block machine keccak public_key msg q in
        let (kept, compared_same, ran_same) =
          end_block-outcomes machine keccak public_key label msg q in
        let ended : Compares q r = record {
          same = kept;
          each = omega (arith, compared_same, ran_same);
        } in
        let here : Compares p r =
          Compares-trans (record { same = first.same; each = first.each }) ended in
        Outcome-map _ (run_blocks-Compares blocks r (rw here.same rest))
          (λ s more. Compares-trans here more))

  -- "offline agrees with forked" is measured of every transaction that runs. Where a forked pass over
  -- the blocks ends, and a pass over the same blocks, from any state of the EVM, starts with its
  -- outcomes and with counters of zero and ends too, the second pass makes as many comparisons with
  -- the forked pass as it runs transactions, with a receipt or without, and it adds no outcome.
  pub run_blocks-Compared :
      (blocks : List (FeedMessage × List Receipt)) (forked_label : Text)
      (forked forked' offline offline' : Pass Evm)
      → run_blocks machine keccak public_key forked_label blocks forked ≡ ok forked'
      → offline.outcomes ≡ forked'.outcomes
      → offline.stats ≡ no_stats
      → run_blocks machine keccak public_key label blocks offline ≡ ok offline'
      → (offline'.stats.agrees_with_forked + offline'.stats.differs_from_forked
          ≡ offline'.stats.no_receipt + offline'.stats.txs)
        × (offline'.outcomes ≡ forked'.outcomes)
  run_blocks-Compared blocks forked_label forked forked' offline offline' first given fresh second =
      let (_, learned) =
        Outcome-eq-ok _ forked'
          (run_blocks-Learns machine keccak public_key forked_label blocks forked) first in
      let c =
        Outcome-eq-ok _ offline' (run_blocks-Compares blocks offline (rw given learned)) second in
      let zero_compared : (comparisons offline.stats ≡ 0) × (ran offline.stats ≡ 0) =
        rw fresh (refl, refl) in
      (omega (arith, c.each, zero_compared), c.same ∙ given)
