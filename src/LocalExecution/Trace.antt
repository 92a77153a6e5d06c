-- ===== src/LocalExecution/Trace.antt =====
-- examples/local_execution/execute.py, `traced` behind the run itself: the slots and accounts that are
-- read out of the EIP-3155 trace. A line of the trace that has an opcode is a `Step`, at depth 1 if it
-- says none; the stack is given top first. A word is below 2 ^ 256, as the tracer's words are:
-- `to_bytes` of a larger one would raise.
use robinhood_chain_sequence.Prelude.{
  ℕ, suc, Option, none, some, List, [], ◌∷◌, ◌++◌, ◌==◌, if◌then◌else◌, drop,
}
use robinhood_chain_sequence.Bytes.{to_bytes}
use robinhood_chain_sequence.Hex.{Text, text, to_hex}

-- The opcodes by what `traced` does with them: SLOAD and SSTORE, CALL_OPS, ACCOUNT_PROBES,
-- CONTEXT_KEEPING_OPS, and all the others.
pub data Op : Type 0 where
  sload sstore call staticcall balance extcodesize extcodehash extcodecopy delegatecall callcode :
      Op
  other : Text → Op

pub data OpClass : Type 0 where
  storage_op call_op account_probe context_keeping_op no_class : OpClass

unfoldable pub class_of : Op → OpClass
class_of sload = storage_op
class_of sstore = storage_op
class_of call = call_op
class_of staticcall = call_op
class_of balance = account_probe
class_of extcodesize = account_probe
class_of extcodehash = account_probe
class_of extcodecopy = account_probe
class_of delegatecall = context_keeping_op
class_of callcode = context_keeping_op
class_of (other name) = no_class

pub record Step : Type 0 where
  pub depth : ℕ
  pub op : Op
  pub stack : List ℕ

-- "0x" + word.to_bytes(32, "big")[12:].hex()
unfoldable pub address_text : ℕ → Text
address_text word = text "0x" ++ to_hex (drop 12 (to_bytes word 32))

-- What the loop keeps. The sets are lists, in the order of the insertions.
pub record Tracing : Type 0 where
  pub slots : List (Text × ℕ)
  pub reached : List Text
  pub context : List (ℕ × Text)
  pub pending : Option (ℕ × Text)

-- context.get(depth, default)
unfoldable pub context_at : List (ℕ × Text) → ℕ → Text → Text
context_at [] depth default = default
context_at ((d, a) ∷ context) depth default =
    let rest = context_at context depth default in if d == depth then a else rest

-- if pending and depth == pending[0] + 1
unfoldable pub settle_with : Option (ℕ × Text) → ℕ → Tracing → Tracing
settle_with none depth t = t
settle_with (some (from, target)) depth t =
    if depth == suc from
    then record t { context = (depth, target) ∷ t.context; pending = none }
    else t

unfoldable pub settle : ℕ → Tracing → Tracing
unfolding settle_with
settle depth t = settle_with t.pending depth t

-- The branches on the name of the opcode, in the context `here`.
unfoldable pub read_step : OpClass → List ℕ → ℕ → Text → Tracing → Tracing
unfolding address_text
read_step storage_op (slot ∷ stack) depth here t = record t { slots = t.slots ++ (here, slot) ∷ [] }
read_step call_op (gas ∷ target ∷ stack) depth here t = record t {
  reached = t.reached ++ address_text target ∷ [];
  pending = some (depth, address_text target);
}
read_step account_probe (a ∷ stack) depth here t = record t {
  reached = t.reached ++ address_text a ∷ [];
}
read_step context_keeping_op (gas ∷ target ∷ stack) depth here t = record t {
  reached = t.reached ++ address_text target ∷ [];
  pending = some (depth, here);
}
read_step context_keeping_op _ depth here t = record t { pending = some (depth, here) }
read_step _ _ depth here t = t

-- One line of the trace; `to` is tx.to.lower().
unfoldable pub trace_step : Text → Tracing → Step → Tracing
unfolding settle context_at class_of read_step
trace_step to t s =
    let u = settle s.depth t in
    read_step (class_of s.op) s.stack s.depth (context_at u.context s.depth to) u

unfoldable pub trace_steps : Text → Tracing → List Step → Tracing
unfolding trace_step
trace_steps to t [] = t
trace_steps to t (s ∷ steps) = trace_steps to (trace_step to t s) steps

-- The sets as they are before the first line; `sender` is tx.sender.lower().
unfoldable pub tracing : Text → Text → Tracing
tracing to sender = record {
  slots = [];
  reached = to ∷ sender ∷ [];
  context = (1, to) ∷ [];
  pending = none;
}

-- The slots and the accounts of a trace.
unfoldable pub touched : Text → Text → List Step → List (Text × ℕ) × List Text
unfolding trace_steps tracing
touched to sender steps = let t = trace_steps to (tracing to sender) steps in (t.slots, t.reached)
