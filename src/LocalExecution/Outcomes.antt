-- ===== src/LocalExecution/Outcomes.antt =====
-- The outcomes that a pass of `run_blocks` keeps.
use robinhood_chain_sequence.Prelude.{
  ℕ, ◌+◌, ◌≡◌, refl, arith, Bool, true, false, not, Bool-cases, inl, inr, Option, none, some, List,
  [], ◌∷◌, ◌++◌, ◌||◌, All, Outcome, returns, AnyError, Outcome-bind, Outcome-map, >>=-Outcome,
  ◌==◌,
}
use robinhood_chain_sequence.Bytes.{Bytes, bytes_eq}
use robinhood_chain_sequence.Bytes.Equality.{bytes_eq_refl}
use robinhood_chain_sequence.Hex.{Text}
use robinhood_chain_sequence.Tx.{Tx}
use robinhood_chain_sequence.Tx.Texts.{hash, to_text}
use robinhood_chain_sequence.ParentChain.{arb_deposit_tx, arb_submit_retryable_tx}
use robinhood_chain_sequence.Abi.Malformed.{Outcome-if}
use robinhood_chain_sequence.Frame.{FeedMessage, from_parent_chain}
use robinhood_chain_sequence.LocalExecution.Machine.{Machine, Ending, lower}
use robinhood_chain_sequence.LocalExecution.Counters.{
  Receipt, Stats, Pass, receipt_for, outcome_for, compared, count_status, count_verdict,
  count_with_logs, count_scored,
}
use robinhood_chain_sequence.LocalExecution.Blocks.{
  scored, run_called, run_to, run_tx, run_txs, end_block, run_blocks,
}
use robinhood_chain_sequence.LocalExecution.Accounting.{run_with-same}

-- The transactions compared with the forked pass, and those that ran.
abbrev pub comparisons : Stats → ℕ
comparisons s = s.agrees_with_forked + s.differs_from_forked

abbrev pub ran : Stats → ℕ
ran s = s.no_receipt + s.txs

abbrev pub Outcomes : Type 0
Outcomes = List (Text × Ending)

abbrev pub IsKnown : Text → Outcomes → Type 0
IsKnown key outcomes = (e : Ending) × (outcome_for outcomes key ≡ some e)

-- What is known stays known, and as it is.
pub record Grows (before after : Outcomes) : Type 0 where
  stays :
      (key : Text) (e : Ending) → outcome_for before key ≡ some e → outcome_for after key ≡ some e

Grows-trans : {a b c : Outcomes} → Grows a b → Grows b c → Grows a c
Grows-trans f g = record { stays = λ key e h. g.stays key e (f.stays key e h) }

-- A new outcome behind those that there are.
outcome_for-append :
    (xs ys : Outcomes) (key : Text) (e : Ending)
    → outcome_for xs key ≡ some e
    → outcome_for (xs ++ ys) key ≡ some e
unfolding outcome_for
outcome_for-append [] ys key e h = absurd (cc)
outcome_for-append ((k, x) ∷ xs) ys key e h = elim (Bool-cases (bytes_eq k key)) [
  | inl same ↦ ground (arith, same, h)
  | inr other ↦
      let later : outcome_for xs key ≡ some e = ground (arith, other, h) in
      rw (other, outcome_for-append xs ys key e later) refl
]

outcome_for-last :
    (xs : Outcomes) (key : Text) (e : Ending)
    → outcome_for xs key ≡ none
    → outcome_for (xs ++ (key, e) ∷ []) key ≡ some e
unfolding outcome_for
outcome_for-last [] key e h = rw (bytes_eq_refl key) refl
outcome_for-last ((k, x) ∷ xs) key e h = elim (Bool-cases (bytes_eq k key)) [
  | inl same ↦ absurd (ground (arith, same, h))
  | inr other ↦
      let later : outcome_for xs key ≡ none = ground (arith, other, h) in
      rw (other, outcome_for-last xs key e later) refl
]

count_scored-ran :
    (ending : Ending) (truth : Receipt) (s : Stats)
    → (comparisons (count_scored ending truth s) ≡ comparisons s)
      × (ran (count_scored ending truth s) ≡ ran s + 1)
unfolding count_scored count_status count_verdict count_with_logs
count_scored-ran (status, logs) truth s = (ground arith, ground arith)

-- tx.to_bytes is not None, and the transaction is none of ArbOS.
abbrev pub runs_to : Tx → Option Bytes → Bool
runs_to tx none = false
runs_to tx (some to) = not (tx.tx_type == arb_deposit_tx || tx.tx_type == arb_submit_retryable_tx)

module _ {Evm : Type 0} (machine : Machine Evm) (keccak : Bytes → Bytes)
    (public_key : Bytes → Bytes → Option Bytes) (label : Text) where
  -- Behind the comparison, the score changes no outcome and counts one transaction.
  pub scored-ran :
      (msg : FeedMessage) (tx : Tx) (ending : Ending) (truth : Option Receipt) (p : Pass Evm)
      → Outcome AnyError
          (λ q.
            (q.outcomes ≡ p.outcomes)
            × (comparisons q.stats ≡ comparisons p.stats)
            × (ran q.stats ≡ ran p.stats + 1))
          (scored machine keccak public_key label msg tx ending truth p)
  unfolding scored
  scored-ran msg tx ending none p = returns _ (refl, refl, omega arith)
  scored-ran msg tx ending (some truth) p = >>=-Outcome (to_text keccak tx) _ (λ to _.
      let (compared_same, one_more) = count_scored-ran ending truth p.stats in
      returns _ (refl, compared_same, one_more))

  -- The forked pass keeps the outcome of every transaction that runs.
  record Learns (tx : Tx) (p q : Pass Evm) : Type 0 where
    grows : Grows p.outcomes q.outcomes
    known : runs_to tx tx.to_bytes ≡ true → IsKnown (hash keccak tx) q.outcomes

  compared-Learns :
      (key : Text) (ending : Ending) (p : Pass Evm) (found : Option Ending)
      → outcome_for p.outcomes key ≡ found
      → Grows p.outcomes (compared found key ending p).outcomes
        × IsKnown key (compared found key ending p).outcomes
  unfolding compared
  compared-Learns key ending p none h = (
    record { stays = λ k e known. outcome_for-append p.outcomes _ k e known },
    (ending, outcome_for-last p.outcomes key ending h),
  )
  compared-Learns key ending p (some e) h = (record { stays = λ k e known. known }, (e, h))

  run_called-Learns :
      (msg : FeedMessage) (receipts : List Receipt) (tx : Tx) (p : Pass Evm)
      → Outcome AnyError
          (Learns tx p)
          (run_called machine keccak public_key label msg receipts tx p)
  unfolding run_called
  run_called-Learns msg receipts tx p =
      Outcome-bind _ _ (run_with-same machine keccak public_key label p.reads tx p)
        (λ (run, ending) (_, same).
          let key = hash keccak tx in
          let found = outcome_for run.outcomes key in
          Outcome-map _
            (scored-ran msg tx ending (receipt_for receipts (lower key))
              (compared found key ending run))
            (λ q (kept, _, _).
              let (grows, known) = compared-Learns key ending run found refl in
              record { grows = rw kept (rw (← same) grows); known = λ _. rw kept known }))

  run_to-Learns :
      (msg : FeedMessage) (receipts : List Receipt) (tx : Tx) (p : Pass Evm) (to : Option Bytes)
      → tx.to_bytes ≡ to
      → Outcome AnyError (Learns tx p) (run_to machine keccak public_key label msg receipts tx to p)
  unfolding run_to
  run_to-Learns msg receipts tx p none e = returns _ (record {
    grows = record { stays = λ k e known. known };
    known = λ runs. absurd (ground (arith, e, runs));
  })
  run_to-Learns msg receipts tx p (some to) e =
      Outcome-if (tx.tx_type == arb_deposit_tx || tx.tx_type == arb_submit_retryable_tx) _ _
        (λ arbos. returns _ (record {
          grows = record { stays = λ k e known. known };
          known = λ runs. absurd (ground (arith, e, arbos, runs));
        }))
        (λ plain. run_called-Learns msg receipts tx p)

  abbrev pub KnownIn : Outcomes → Tx → Type 0
  KnownIn outcomes tx = runs_to tx tx.to_bytes ≡ true → IsKnown (hash keccak tx) outcomes

  KnownIn-Grows :
      (txs : List Tx) {a b : Outcomes} → Grows a b → All (KnownIn a) txs → All (KnownIn b) txs
  KnownIn-Grows [] g h = tt
  KnownIn-Grows (tx ∷ txs) g (k, h) = (
    λ runs. let (e, known) = k runs in (e, g.stays (hash keccak tx) e known),
    KnownIn-Grows txs g h,
  )

  run_txs-Learns :
      (msg : FeedMessage) (receipts : List Receipt) (txs : List Tx) (p : Pass Evm)
      → Outcome AnyError
          (λ q. Grows p.outcomes q.outcomes × All (KnownIn q.outcomes) txs)
          (run_txs machine keccak public_key label msg receipts txs p)
  unfolding run_txs run_tx
  run_txs-Learns msg receipts [] p = returns p (record { stays = λ k e known. known }, tt)
  run_txs-Learns msg receipts (tx ∷ txs) p =
      Outcome-bind _ _ (run_to-Learns msg receipts tx p tx.to_bytes refl) (λ q first.
        Outcome-map _ (run_txs-Learns msg receipts txs q) (λ r (grows, rest). (
          Grows-trans first.grows grows,
          ((KnownIn-Grows (tx ∷ []) grows (first.known, tt)).0, rest),
        )))

  abbrev pub KnownBlock : Outcomes → FeedMessage × List Receipt → Type 0
  KnownBlock outcomes (msg, receipts) = All (KnownIn outcomes) msg.txs

  pub end_block-outcomes :
      (msg : FeedMessage) (p : Pass Evm)
      → let q = end_block machine keccak public_key msg p in
        (q.outcomes ≡ p.outcomes)
        × (comparisons q.stats ≡ comparisons p.stats)
        × (ran q.stats ≡ ran p.stats)
  unfolding end_block
  end_block-outcomes msg p = elim (Bool-cases (from_parent_chain msg)) [
    | inl parent ↦ rw parent (refl, refl, refl)
    | inr other ↦ rw other (refl, refl, refl)
  ]

  pub run_blocks-Learns :
      (blocks : List (FeedMessage × List Receipt)) (p : Pass Evm)
      → Outcome AnyError
          (λ q. Grows p.outcomes q.outcomes × All (KnownBlock q.outcomes) blocks)
          (run_blocks machine keccak public_key label blocks p)
  unfolding run_blocks
  run_blocks-Learns [] p = returns p (record { stays = λ k e known. known }, tt)
  run_blocks-Learns ((msg, receipts) ∷ blocks) p =
      Outcome-bind _ _ (run_txs-Learns msg receipts msg.txs _) (λ q (grows, these).
        let (same, _, _) = end_block-outcomes msg q in
        Outcome-map _ (run_blocks-Learns blocks (end_block machine keccak public_key msg q))
          (λ r (more, rest).
            let later : Grows q.outcomes r.outcomes = rw (← same) more in
            (Grows-trans grows later, (KnownIn-Grows msg.txs later these, rest))))
