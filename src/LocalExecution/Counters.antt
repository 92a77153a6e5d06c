-- ===== src/LocalExecution/Counters.antt =====
-- examples/local_execution/execute.py, what `run_blocks` keeps and counts. The counters are those of the
-- Counter `stats`, by name.
use robinhood_chain_sequence.Prelude.{
  ℕ, ◌+◌, Bool, true, false, Option, none, some, List, [], ◌∷◌, ◌++◌, map, ◌&&◌, ◌==◌,
  if◌then◌else◌, length,
}
use robinhood_chain_sequence.Prelude.Int.{ℤ}
use robinhood_chain_sequence.Bytes.{bytes_eq}
use robinhood_chain_sequence.Hex.{Text, text}
use robinhood_chain_sequence.LocalExecution.Machine.{
  Log, Ending, Verdict, exact, missing, differs, lower, logs_eq, score,
}

-- A receipt of the node, with the fields that the script reads.
pub record Receipt : Type 0 where
  pub transaction_hash : Text
  pub status : Text
  pub logs : List Log

unfoldable pub lower_log : Log → Log
lower_log l = record {
  address = lower l.address;
  topics = map lower l.topics;
  payload = lower l.payload;
}

unfoldable pub real_logs : Receipt → List Log
unfolding lower_log
real_logs r = map lower_log r.logs

pub record Stats : Type 0 where
  pub deploy_skipped : ℕ
  pub parent_chain_tx_skipped : ℕ
  pub agrees_with_forked : ℕ
  pub differs_from_forked : ℕ
  pub no_receipt : ℕ
  pub txs : ℕ
  pub real_logs : ℕ
  pub status_match : ℕ
  pub status_mismatch : ℕ
  pub exact : ℕ
  pub missing : ℕ
  pub differs : ℕ
  pub txs_with_logs : ℕ
  pub with_logs_exact : ℕ
  pub with_logs_missing : ℕ
  pub with_logs_differs : ℕ
  pub parent_chain_messages : ℕ

abbrev pub no_stats : Stats
no_stats = record {
  deploy_skipped = 0;
  parent_chain_tx_skipped = 0;
  agrees_with_forked = 0;
  differs_from_forked = 0;
  no_receipt = 0;
  txs = 0;
  real_logs = 0;
  status_match = 0;
  status_mismatch = 0;
  exact = 0;
  missing = 0;
  differs = 0;
  txs_with_logs = 0;
  with_logs_exact = 0;
  with_logs_missing = 0;
  with_logs_differs = 0;
  parent_chain_messages = 0;
}

-- A line of the detail file.
pub record Row : Type 0 where
  pub phase : Text
  pub seq : ℤ
  pub hash : Text
  pub to : Option Text
  pub selector : Option Text
  pub ours : Text
  pub chain_ok : Bool
  pub verdict : Verdict
  pub our_logs : ℕ
  pub real_logs : ℕ
  pub first_diff : Option (Log × Log)

-- What a pass keeps: the EVM, the counters, the sets of slots and accounts if they are asked for, the
-- outcomes of the forked pass, and the lines written: `main` gives a dictionary and a file to both
-- passes. The sets are lists.
pub record Pass (Evm : Type 0) : Type 0 where
  pub evm : Evm
  pub stats : Stats
  pub reads : Option (List (Text × ℕ) × List Text)
  pub outcomes : List (Text × Ending)
  pub detail : List Row

-- {r["transactionHash"].lower(): r for r in receipts}.get(key): the last one counts.
unfoldable pub receipt_for : List Receipt → Text → Option Receipt
receipt_for [] key = none
receipt_for (r ∷ receipts) key = elim (receipt_for receipts key) [
  | some found ↦ some found
  | none ↦ if bytes_eq (lower r.transaction_hash) key then some r else none
]

-- outcomes.get(key)
unfoldable pub outcome_for : List (Text × Ending) → Text → Option Ending
outcome_for [] key = none
outcome_for ((k, ending) ∷ outcomes) key =
    let rest = outcome_for outcomes key in if bytes_eq k key then some ending else rest

unfoldable pub ending_eq : Ending → Ending → Bool
ending_eq (status, logs) (status', logs') = bytes_eq status status' && logs_eq logs logs'

-- The comparison with the forked pass, or the outcome is kept.
unfoldable pub compared : {Evm : Type 0} → Option Ending → Text → Ending → Pass Evm → Pass Evm
unfolding ending_eq
compared none key ending p = record p { outcomes = p.outcomes ++ (key, ending) ∷ [] }
compared (some forked) key ending p = record p {
  stats =
      if ending_eq forked ending
      then record p.stats { agrees_with_forked = p.stats.agrees_with_forked + 1 }
      else record p.stats { differs_from_forked = p.stats.differs_from_forked + 1 };
}

unfoldable pub count_status : Bool → Bool → Stats → Stats
count_status ours chain_ok s =
    if (if ours then chain_ok else (if chain_ok then false else true))
    then record s { status_match = s.status_match + 1 }
    else record s { status_mismatch = s.status_mismatch + 1 }

unfoldable pub count_verdict : Verdict → Stats → Stats
count_verdict exact s = record s { exact = s.exact + 1 }
count_verdict missing s = record s { missing = s.missing + 1 }
count_verdict differs s = record s { differs = s.differs + 1 }

-- The counters of a transaction that has logs on the chain.
unfoldable pub count_with_logs : Verdict → Stats → Stats
count_with_logs exact s = record s {
  txs_with_logs = s.txs_with_logs + 1;
  with_logs_exact = s.with_logs_exact + 1;
}
count_with_logs missing s = record s {
  txs_with_logs = s.txs_with_logs + 1;
  with_logs_missing = s.with_logs_missing + 1;
}
count_with_logs differs s = record s {
  txs_with_logs = s.txs_with_logs + 1;
  with_logs_differs = s.with_logs_differs + 1;
}

-- All the counters of a transaction with a receipt.
unfoldable pub count_scored : Ending → Receipt → Stats → Stats
unfolding real_logs count_status count_verdict count_with_logs
count_scored (status, logs) truth s =
    let chain_ok = bytes_eq truth.status (text "0x1") in
    let verdict = score logs (real_logs truth) in
    let counted = count_verdict verdict (
      count_status (bytes_eq status (text "success")) chain_ok
        (record s { txs = s.txs + 1; real_logs = s.real_logs + length truth.logs })) in
    if length truth.logs == 0 then counted else count_with_logs verdict counted
