-- ===== src/LocalExecution/Tree.antt =====
-- What an execution touches, told by its tree of calls, against what `traced` reads out of the flat
-- trace, which names no contract.
use robinhood_chain_sequence.Prelude.{ℕ, suc, ◌≡◌, List, [], ◌∷◌, ◌++◌}
use robinhood_chain_sequence.Hex.{Text}
use robinhood_chain_sequence.LocalExecution.Trace.{
  Op, storage_op, call_op, account_probe, context_keeping_op, no_class, class_of, Step,
  address_text,
}

-- The execution of a piece of code: its opcodes in order, each with the rest of the execution. A call
-- has the execution of the code that it runs, which is `done` where no code runs: an account without
-- code, or a call that is refused.
pub data Execution : Type 0 where
  done : Execution
  access : (op : Op) (slot : ℕ) (below : List ℕ) (rest : Execution) → Execution
  probe : (op : Op) (account : ℕ) (below : List ℕ) (rest : Execution) → Execution
  call_to : (op : Op) (gas target : ℕ) (below : List ℕ) (inside rest : Execution) → Execution
  delegate_to : (op : Op) (gas target : ℕ) (below : List ℕ) (inside rest : Execution) → Execution
  quiet : (op : Op) (stack : List ℕ) (rest : Execution) → Execution

-- Every opcode stands where its class belongs. An opcode of no class runs no code of its own: there
-- is no CREATE and no CREATE2.
unfoldable pub IsProper : Execution → Type 0
IsProper done = Unit
IsProper (access op slot below rest) = (class_of op ≡ storage_op) × IsProper rest
IsProper (probe op account below rest) = (class_of op ≡ account_probe) × IsProper rest
IsProper (call_to op gas target below inside rest) =
    (class_of op ≡ call_op) × IsProper inside × IsProper rest
IsProper (delegate_to op gas target below inside rest) =
    (class_of op ≡ context_keeping_op) × IsProper inside × IsProper rest
IsProper (quiet op stack rest) = (class_of op ≡ no_class) × IsProper rest

abbrev pub step_at : ℕ → Op → List ℕ → Step
step_at depth op stack = record { depth = depth; op = op; stack = stack }

-- The trace of an execution whose code runs at a depth of calls.
unfoldable pub trace_of : ℕ → Execution → List Step
trace_of depth done = []
trace_of depth (access op slot below rest) = step_at depth op (slot ∷ below) ∷ trace_of depth rest
trace_of depth (probe op account below rest) =
    step_at depth op (account ∷ below) ∷ trace_of depth rest
trace_of depth (call_to op gas target below inside rest) =
    step_at depth op (gas ∷ target ∷ below) ∷ trace_of (suc depth) inside ++ trace_of depth rest
trace_of depth (delegate_to op gas target below inside rest) =
    step_at depth op (gas ∷ target ∷ below) ∷ trace_of (suc depth) inside ++ trace_of depth rest
trace_of depth (quiet op stack rest) = step_at depth op stack ∷ trace_of depth rest

-- The slots that code running on the storage of `here` touches.
unfoldable pub slots_of : Text → Execution → List (Text × ℕ)
slots_of here done = []
slots_of here (access op slot below rest) = (here, slot) ∷ slots_of here rest
slots_of here (probe op account below rest) = slots_of here rest
slots_of here (call_to op gas target below inside rest) =
    slots_of (address_text target) inside ++ slots_of here rest
slots_of here (delegate_to op gas target below inside rest) =
    slots_of here inside ++ slots_of here rest
slots_of here (quiet op stack rest) = slots_of here rest

-- The accounts that it calls or looks at.
unfoldable pub accounts_of : Execution → List Text
accounts_of done = []
accounts_of (access op slot below rest) = accounts_of rest
accounts_of (probe op account below rest) = address_text account ∷ accounts_of rest
accounts_of (call_to op gas target below inside rest) =
    address_text target ∷ accounts_of inside ++ accounts_of rest
accounts_of (delegate_to op gas target below inside rest) =
    address_text target ∷ accounts_of inside ++ accounts_of rest
accounts_of (quiet op stack rest) = accounts_of rest
