-- ===== src/LocalExecution/Accounting.antt =====
-- What the counters of `run_blocks` add up to.
use robinhood_chain_sequence.Prelude.{
  ℕ, ◌+◌, ◌≤◌, ◌≡◌, refl, arith, Option, none, some, List, [], ◌∷◌, ◌||◌, ok, Outcome, returns,
  AnyError, Outcome-bind, Outcome-map, Outcome-eq-ok, >>=-Outcome, Bool-cases, inl, inr, ◌==◌,
  if◌then◌else◌, length,
}
use mathlib.Core.Path.{subst}
use robinhood_chain_sequence.Bytes.{Bytes}
use robinhood_chain_sequence.Hex.{Text}
use robinhood_chain_sequence.Tx.{Tx}
use robinhood_chain_sequence.Tx.Texts.{hash, to_text}
use robinhood_chain_sequence.ParentChain.{arb_deposit_tx, arb_submit_retryable_tx}
use robinhood_chain_sequence.Abi.Malformed.{Outcome-if}
use robinhood_chain_sequence.Frame.{FeedMessage, from_parent_chain}
use robinhood_chain_sequence.LocalExecution.Machine.{Machine, Ending, execute, traced, lower}
use robinhood_chain_sequence.LocalExecution.Counters.{
  Receipt, Stats, no_stats, Pass, receipt_for, outcome_for, compared, count_status, count_verdict,
  count_with_logs, count_scored, ending_eq,
}
use robinhood_chain_sequence.LocalExecution.Blocks.{
  run_with, scored, run_called, run_to, run_tx, run_txs, end_block, run_blocks,
}

-- Every transaction is skipped, without a receipt, or scored.
abbrev pub total : Stats → ℕ
total s = s.deploy_skipped + s.parent_chain_tx_skipped + s.no_receipt + s.txs

-- The scored transactions by verdict, by status, and those with logs among them.
pub record Balanced (s : Stats) : Type 0 where
  pub verdicts : s.exact + s.missing + s.differs ≡ s.txs
  pub statuses : s.status_match + s.status_mismatch ≡ s.txs
  pub with_logs : s.with_logs_exact + s.with_logs_missing + s.with_logs_differs ≡ s.txs_with_logs
  pub within_exact : s.with_logs_exact ≤ s.exact
  pub within_missing : s.with_logs_missing ≤ s.missing
  pub within_differs : s.with_logs_differs ≤ s.differs

-- A step that counts `n` transactions, and `m` messages of the parent chain.
record Counts (n m : ℕ) (s t : Stats) : Type 0 where
  counted : total t ≡ total s + n
  messages : t.parent_chain_messages ≡ s.parent_chain_messages + m
  balanced : Balanced s → Balanced t

Counts-trans :
    {a b n m k l : ℕ} {s t u : Stats}
    → Counts n m s t
    → Counts k l t u
    → a ≡ n + k
    → b ≡ m + l
    → Counts a b s u
Counts-trans f g as_sum bs_sum = record {
  counted = omega (arith, f.counted, g.counted, as_sum);
  messages = omega (arith, f.messages, g.messages, bs_sum);
  balanced = λ b. g.balanced (f.balanced b);
}

-- The counters that no equation of `Balanced` reads.
Counts-plain :
    (n m : ℕ) (s t : Stats)
    → total t ≡ total s + n
    → t.parent_chain_messages ≡ s.parent_chain_messages + m
    → record s {
      deploy_skipped = t.deploy_skipped;
      parent_chain_tx_skipped = t.parent_chain_tx_skipped;
      agrees_with_forked = t.agrees_with_forked;
      differs_from_forked = t.differs_from_forked;
      no_receipt = t.no_receipt;
      parent_chain_messages = t.parent_chain_messages;
    }
      ≡ t
    → Counts n m s t
Counts-plain n m s t counted messages same = record {
  counted = counted;
  messages = messages;
  balanced = λ b. rw (← same) (record {
    verdicts = b.verdicts;
    statuses = b.statuses;
    with_logs = b.with_logs;
    within_exact = b.within_exact;
    within_missing = b.within_missing;
    within_differs = b.within_differs;
  });
}

count_scored-Counts :
    (ending : Ending) (truth : Receipt) (s : Stats) → Counts 1 0 s (count_scored ending truth s)
unfolding count_scored count_status count_verdict count_with_logs
count_scored-Counts (status, logs) truth s = record {
  counted = ground arith;
  messages = ground arith;
  balanced = λ b. record {
    verdicts = ground (arith, b.verdicts);
    statuses = ground (arith, b.statuses);
    with_logs = ground (arith, b.with_logs);
    within_exact = ground (arith, b.within_exact);
    within_missing = ground (arith, b.within_missing);
    within_differs = ground (arith, b.within_differs);
  };
}

compared-Counts :
    {Evm : Type 0} (found : Option Ending) (key : Text) (ending : Ending) (p : Pass Evm)
    → Counts 0 0 p.stats (compared found key ending p).stats
unfolding compared
compared-Counts none key ending p = Counts-plain 0 0 _ _ (omega arith) (omega arith) refl
compared-Counts (some forked) key ending p = elim (Bool-cases (ending_eq forked ending)) [
  | inl agrees ↦ rw agrees (Counts-plain 0 0 _ _ (omega arith) (omega arith) refl)
  | inr other ↦ rw other (Counts-plain 0 0 _ _ (omega arith) (omega arith) refl)
]

-- The transactions of the blocks, and the blocks that came from the parent chain.
abbrev pub txs_in : List (FeedMessage × List Receipt) → ℕ
txs_in [] = 0
txs_in ((msg, receipts) ∷ blocks) = length msg.txs + txs_in blocks

abbrev pub parent_chain_in : List (FeedMessage × List Receipt) → ℕ
parent_chain_in [] = 0
parent_chain_in ((msg, receipts) ∷ blocks) =
    (if from_parent_chain msg then 1 else 0) + parent_chain_in blocks

module _ {Evm : Type 0} (machine : Machine Evm) (keccak : Bytes → Bytes)
    (public_key : Bytes → Bytes → Option Bytes) (label : Text) where
  abbrev Step : ℕ → ℕ → Pass Evm → Pass Evm → Type 0
  Step n m p q = Counts n m p.stats q.stats

  -- The run of a transaction changes neither the counters nor the outcomes.
  pub run_with-same :
      (reads : Option (List (Text × ℕ) × List Text)) (tx : Tx) (p : Pass Evm)
      → Outcome AnyError
          (λ (q, ending). (q.stats ≡ p.stats) × (q.outcomes ≡ p.outcomes))
          (run_with machine keccak public_key reads tx p)
  unfolding run_with
  run_with-same none tx p =
      >>=-Outcome (execute machine keccak public_key p.evm tx) _
        (λ (evm, ending) _. returns _ (refl, refl))
  run_with-same (some (slots, accounts)) tx p =
      >>=-Outcome (traced machine keccak public_key p.evm tx) _
        (λ (evm, ending, more_slots, more_accounts) _. returns _ (refl, refl))

  scored-Counts :
      (msg : FeedMessage) (tx : Tx) (ending : Ending) (truth : Option Receipt) (p : Pass Evm)
      → Outcome AnyError (Step 1 0 p) (scored machine keccak public_key label msg tx ending truth p)
  unfolding scored
  scored-Counts msg tx ending none p =
      returns _ (Counts-plain 1 0 _ _ (omega arith) (omega arith) refl)
  scored-Counts msg tx ending (some truth) p =
      >>=-Outcome (to_text keccak tx) _
        (λ to _. returns _ (count_scored-Counts ending truth p.stats))

  run_called-Counts :
      (msg : FeedMessage) (receipts : List Receipt) (tx : Tx) (p : Pass Evm)
      → Outcome AnyError (Step 1 0 p) (run_called machine keccak public_key label msg receipts tx p)
  unfolding run_called
  run_called-Counts msg receipts tx p =
      Outcome-bind _ _ (run_with-same p.reads tx p) (λ (run, ending) (same, _).
        let key = hash keccak tx in
        let found = outcome_for run.outcomes key in
        Outcome-map _
          (scored-Counts msg tx ending (receipt_for receipts (lower key))
            (compared found key ending run))
          (λ q counts.
            subst (λ s. Counts 1 0 s q.stats) same
              (Counts-trans (compared-Counts found key ending run) counts (omega arith)
                (omega arith))))

  run_to-Counts :
      (msg : FeedMessage) (receipts : List Receipt) (tx : Tx) (to : Option Bytes) (p : Pass Evm)
      → Outcome AnyError (Step 1 0 p) (run_to machine keccak public_key label msg receipts tx to p)
  unfolding run_to
  run_to-Counts msg receipts tx none p =
      returns _ (Counts-plain 1 0 _ _ (omega arith) (omega arith) refl)
  run_to-Counts msg receipts tx (some to) p =
      Outcome-if (tx.tx_type == arb_deposit_tx || tx.tx_type == arb_submit_retryable_tx) _ _
        (λ arbos. returns _ (Counts-plain 1 0 _ _ (omega arith) (omega arith) refl))
        (λ plain. run_called-Counts msg receipts tx p)

  run_txs-Counts :
      (msg : FeedMessage) (receipts : List Receipt) (txs : List Tx) (p : Pass Evm)
      → Outcome AnyError
          (Step (length txs) 0 p)
          (run_txs machine keccak public_key label msg receipts txs p)
  unfolding run_txs run_tx
  run_txs-Counts msg receipts [] p =
      returns p (Counts-plain 0 0 _ _ (omega arith) (omega arith) refl)
  run_txs-Counts msg receipts (tx ∷ txs) p =
      Outcome-bind _ _ (run_to-Counts msg receipts tx tx.to_bytes p) (λ q first.
        Outcome-map _ (run_txs-Counts msg receipts txs q)
          (λ r rest. Counts-trans first rest (omega arith) (omega arith)))

  abbrev parent_chain_one : FeedMessage → ℕ
  parent_chain_one msg = if from_parent_chain msg then 1 else 0

  end_block-Counts :
      (msg : FeedMessage) (p : Pass Evm)
      → Step 0 (parent_chain_one msg) p (end_block machine keccak public_key msg p)
  unfolding end_block
  end_block-Counts msg p = elim (Bool-cases (from_parent_chain msg)) [
    | inl parent ↦ rw parent (Counts-plain 0 1 _ _ (omega arith) (omega arith) refl)
    | inr other ↦ rw other (Counts-plain 0 0 _ _ (omega arith) (omega arith) refl)
  ]

  run_blocks-Counts :
      (blocks : List (FeedMessage × List Receipt)) (p : Pass Evm)
      → Outcome AnyError
          (Step (txs_in blocks) (parent_chain_in blocks) p)
          (run_blocks machine keccak public_key label blocks p)
  unfolding run_blocks
  run_blocks-Counts [] p = returns p (Counts-plain 0 0 _ _ (omega arith) (omega arith) refl)
  run_blocks-Counts ((msg, receipts) ∷ blocks) p =
      Outcome-bind _ _ (run_txs-Counts msg receipts msg.txs _) (λ q first.
        let ended = end_block-Counts msg q in
        Outcome-map _ (run_blocks-Counts blocks (end_block machine keccak public_key msg q))
          (λ r rest.
            let behind : Counts (txs_in blocks) (parent_chain_in ((msg, receipts) ∷ blocks)) q.stats
                r.stats =
              Counts-trans ended rest (omega arith) refl in
            Counts-trans first behind (omega arith) (omega arith)))

  -- A pass over the blocks that ends, from counters of zero, accounts for every transaction: each was
  -- skipped as a deployment, skipped as a transaction of the parent chain, had no receipt, or was
  -- scored. Of the scored ones the verdicts and the statuses each add up to all, those with logs on
  -- the chain by verdict add up to their number, and no verdict counts more of them than it counts in
  -- all; and the messages of the parent chain are those of the blocks.
  pub run_blocks-Balanced :
      (blocks : List (FeedMessage × List Receipt)) (p q : Pass Evm)
      → p.stats ≡ no_stats
      → run_blocks machine keccak public_key label blocks p ≡ ok q
      → (total q.stats ≡ txs_in blocks)
        × Balanced q.stats
        × (q.stats.parent_chain_messages ≡ parent_chain_in blocks)
  run_blocks-Balanced blocks p q fresh ended =
      let counts = Outcome-eq-ok _ q (run_blocks-Counts blocks p) ended in
      let none_yet : Balanced p.stats = rw fresh (record {
        verdicts = refl;
        statuses = refl;
        with_logs = refl;
        within_exact = omega arith;
        within_missing = omega arith;
        within_differs = omega arith;
      }) in
      let start : (total p.stats ≡ 0) × (p.stats.parent_chain_messages ≡ 0) =
        rw fresh (refl, refl) in
      (
        omega (arith, counts.counted, start),
        counts.balanced none_yet,
        omega (arith, counts.messages, start),
      )
