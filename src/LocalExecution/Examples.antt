-- ===== src/LocalExecution/Examples.antt =====
-- Runs of the theorems on the local execution.
use robinhood_chain_sequence.Prelude.{
  map, ◌++◌, All, ◌&&◌, ◌==◌, ==_refl, if◌then◌else◌, arith, ℕ, suc, ◌+◌, ◌≡◌, refl, true, false,
  some, none, List, [], ◌∷◌, Option, Result, ok, err, replicate,
}
use robinhood_chain_sequence.Prelude.Int.{pos}
use mathlib.Core.Path.{subst}
use robinhood_chain_sequence.Bytes.{Bytes, IsByte, bytes_eq}
use robinhood_chain_sequence.Bytes.Equality.{bytes_eq_refl}
use robinhood_chain_sequence.Hex.{Text, text, to_hex}
use robinhood_chain_sequence.Tx.{Tx, known, sender_bytes}
use robinhood_chain_sequence.Tx.Texts.{hash, sender_text, to_text}
use robinhood_chain_sequence.ParentChain.{null}
use robinhood_chain_sequence.Frame.{FeedMessage, from_parent_chain}
use robinhood_chain_sequence.LocalExecution.Trace.{
  class_of, sload, sstore, call, staticcall, delegatecall, balance, other, address_text, touched,
}
use robinhood_chain_sequence.LocalExecution.Tree.{
  Execution, IsProper, done, access, probe, call_to, delegate_to, quiet, trace_of, slots_of,
  accounts_of,
}
use robinhood_chain_sequence.LocalExecution.Reads.{touched_lem}
use robinhood_chain_sequence.LocalExecution.Machine.{
  Machine, returned, lower, str, plain, score, traced, execute,
}
use robinhood_chain_sequence.LocalExecution.Counters.{Receipt, Pass, no_stats}
use robinhood_chain_sequence.LocalExecution.Blocks.{run_blocks}
use robinhood_chain_sequence.LocalExecution.Accounting.{
  total, Balanced, txs_in, parent_chain_in, run_blocks-Balanced,
}
use robinhood_chain_sequence.LocalExecution.Snapshot.{
  Fork, Store, AccountInfo, snapshot_at, evm_from_snapshot,
}
use robinhood_chain_sequence.LocalExecution.Snapshot.Gathered.{Listed}
use robinhood_chain_sequence.LocalExecution.Snapshot.Accounts.{
  StoreLaws, Named, HasBytes, said, code_said,
}
use robinhood_chain_sequence.LocalExecution.Snapshot.Restored.{evm_from_snapshot-snapshot_at}
use robinhood_chain_sequence.LocalExecution.Agreement.{run_blocks-Compared}

-- A contract that pays a plain account, reads a slot, lets a library write one, and calls another
-- contract that reads a slot and looks at a balance.
abbrev example_execution : Execution
example_execution = call_to call 100 7 (0 ∷ []) done (
    access sload 1 [] (
      delegate_to delegatecall 100 8 [] (access sstore 2 (5 ∷ []) done) (
        call_to staticcall 100 9 [] (access sload 3 [] (probe balance 10 [] done))
          (quiet (other (text "STOP")) [] done))))

abbrev contract : Text
contract = text "0xcc"

touched_lem_example :
    touched contract (text "0xee") (trace_of 1 example_execution)
    ≡ (slots_of contract example_execution, contract ∷ text "0xee" ∷ accounts_of example_execution)
touched_lem_example = touched_lem contract (text "0xee") example_execution (
    unfold IsProper class_of in
    (refl, tt, (refl, (refl, (refl, tt), (refl, (refl, (refl, tt)), (refl, tt))))))

slots_read :
    slots_of contract example_execution ≡ (contract, 1) ∷ (contract, 2) ∷ (address_text 9, 3) ∷ []
unfolding slots_of
slots_read = refl

-- An EVM that counts its calls, each of which succeeds with one log.
abbrev counter : Machine ℕ
counter = record {
  set_block_env = λ evm env. evm;
  message_call = λ evm message. ok (
    suc evm,
    returned true
        (record { address = str (text "0xAB"); topics = []; payload = plain (some (7 ∷ [])) } ∷ []),
  );
  printed = λ evm message. trace_of 1 example_execution;
}

abbrev keccak : Bytes → Bytes
keccak b = replicate 32 0

abbrev public_key : Bytes → Bytes → Option Bytes
public_key digest signature = none

abbrev sent : ℕ → Option Bytes → Tx
sent tx_type to = record {
  raw = 1 ∷ [];
  tx_type = tx_type;
  body = none;
  fields = none;
  sender_memo = known (some (replicate 20 0x55));
  nonce = 0;
  gas = 21000;
  value = 0;
  to_bytes = to;
  data_len = 0;
  data_span = (0, 0);
  selector = none;
}

abbrev example_message : FeedMessage
example_message = record {
  seq = pos 9;
  l1_kind = pos 3;
  l1_sender = null;
  timestamp = 1000;
  txs = sent 2 (some (replicate 20 0x66)) ∷ sent 2 none ∷ sent 0x64 (some (replicate 20 0x66)) ∷ [];
  block_hash = none;
  delayed_messages_read = 0;
  l1_block_number = 7;
  request_id = null;
  live = true;
  received_at = 0;
  received_monotonic = 0;
  reorg = false;
}

abbrev example_blocks : List (FeedMessage × List Receipt)
example_blocks =
    (
      example_message,
      record {
        transaction_hash = hash keccak (sent 2 none);
        status = text "0x1";
        logs = record { address = text "0xab"; topics = []; payload = text "0x07" } ∷ [];
      }
          ∷ [],
    )
    ∷ []

abbrev forked_pass : Pass ℕ
forked_pass = record {
  evm = 0;
  stats = no_stats;
  reads = some ([], []);
  outcomes = [];
  detail = [];
}

abbrev or_start : Result (Pass ℕ) → Pass ℕ
or_start (ok q) = q
or_start (err raised) = forked_pass

abbrev forked_end : Pass ℕ
forked_end =
    or_start (run_blocks counter keccak public_key (text "forked") example_blocks forked_pass)

forked_ends :
    run_blocks counter keccak public_key (text "forked") example_blocks forked_pass ≡ ok forked_end
unfolding run_blocks traced sender_text sender_bytes to_hex to_text bytes_eq lower hash
forked_ends = refl

forked_counts :
    (forked_end.stats.exact ≡ 1)
    × (forked_end.stats.deploy_skipped ≡ 1)
    × (forked_end.stats.parent_chain_tx_skipped ≡ 1)
unfolding run_blocks traced sender_text sender_bytes to_hex to_text bytes_eq lower hash
    from_parent_chain score
forked_counts = (refl, refl, refl)

run_blocks-Balanced_example :
    (total forked_end.stats ≡ txs_in example_blocks)
    × Balanced forked_end.stats
    × (forked_end.stats.parent_chain_messages ≡ parent_chain_in example_blocks)
run_blocks-Balanced_example =
    run_blocks-Balanced counter keccak public_key (text "forked") example_blocks forked_pass
      forked_end refl forked_ends

abbrev offline_pass : Pass ℕ
offline_pass = record forked_pass { reads = none; outcomes = forked_end.outcomes }

abbrev offline_end : Pass ℕ
offline_end =
    or_start (run_blocks counter keccak public_key (text "offline") example_blocks offline_pass)

offline_ends :
    run_blocks counter keccak public_key (text "offline") example_blocks offline_pass
    ≡ ok offline_end
unfolding run_blocks execute sender_text sender_bytes to_hex to_text bytes_eq lower hash
offline_ends = refl

run_blocks-Compared_example :
    (offline_end.stats.agrees_with_forked + offline_end.stats.differs_from_forked
      ≡ offline_end.stats.no_receipt + offline_end.stats.txs)
    × (offline_end.outcomes ≡ forked_end.outcomes)
run_blocks-Compared_example =
    run_blocks-Compared counter keccak public_key (text "offline") example_blocks (text "forked")
      forked_pass forked_end offline_pass offline_end forked_ends refl refl offline_ends

-- An EVM that is two functions: the value of every slot, and the account of every address.
record PlainEvm : Type 0 where
  slots : Text → ℕ → ℕ
  people : Text → Option AccountInfo

abbrev plain_store : Store PlainEvm
plain_store = record {
  fresh = record { slots = λ a slot. 0; people = λ a. none };
  insert_account_info =
      λ evm a info. record evm { people = λ b. if bytes_eq a b then some info else evm.people b };
  insert_account_storage = λ evm a slot value. record evm {
    slots = λ b other. if bytes_eq a b && slot == other then value else evm.slots b other;
  };
  storage = λ evm a slot. evm.slots a slot;
  basic = λ evm a. evm.people a;
}

plain_store-StoreLaws : StoreLaws plain_store
plain_store-StoreLaws = record {
  written = λ evm a slot value. rw (bytes_eq_refl a, ==_refl slot) refl;
  apart = λ evm a b slot other value h. rw h refl;
  inserted = λ evm a info. rw (bytes_eq_refl a) refl;
  inserted_apart = λ evm a b info h. rw h refl;
  inserted_stays = λ evm a b slot value info h. h;
}

-- A node where every account has a code of one byte, and slot n holds n + 1.
abbrev small_fork : Fork
small_fork = record {
  basic = λ a. some (record { balance = 12; nonce = 3 });
  get_code = λ a. some (0xfe ∷ []);
  storage = λ a slot. slot + 1;
}

small_fork-HasBytes : HasBytes small_fork
small_fork-HasBytes a code e =
    let same : 0xfe ∷ [] ≡ code = cc in subst (All IsByte) same (omega arith, tt)

-- The snapshot of what the example touches.
evm_from_snapshot-snapshot_at_example :
    (evm : PlainEvm) × (evm_from_snapshot plain_store keccak
        (snapshot_at small_fork 8 (slots_of contract example_execution) (contract ∷ []))
      ≡ ok evm)
    × ((a : Text) (slot : ℕ)
        → Listed a slot (slots_of contract example_execution)
        → evm.slots a slot ≡ slot + 1)
    × ((a : Text)
        → Named a (
            (contract ∷ [])
            ++ map (λ (address, slot). address) (slots_of contract example_execution))
        → evm.people a
          ≡ some (record {
            balance = 12;
            nonce = 3;
            code = some (0xfe ∷ []);
            code_hash = some (keccak (0xfe ∷ []));
          }))
unfolding said code_said
evm_from_snapshot-snapshot_at_example =
    evm_from_snapshot-snapshot_at plain_store keccak small_fork plain_store-StoreLaws 8
      (slots_of contract example_execution) (contract ∷ []) small_fork-HasBytes
