-- ===== src/LocalExecution/Machine.antt =====
-- examples/local_execution/execute.py: one transaction on the EVM, and its score. pyrevm is a
-- parameter, a `Machine`.
use robinhood_chain_sequence.Prelude.{
  ℕ, ◌+◌, ◌^◌, min, Bool, true, false, Option, none, some, List, [], ◌∷◌, ◌++◌, map, ◌&&◌, ◌||◌,
  Result, ok, err, attribute_error, ◌>>=◌, leb, ◌==◌, if◌then◌else◌, length,
}
use robinhood_chain_sequence.Bytes.{Bytes, bytes_eq}
use robinhood_chain_sequence.Hex.{Text, text, to_hex}
use robinhood_chain_sequence.Tx.{Tx, calldata}
use robinhood_chain_sequence.Tx.Texts.{to_text, sender_text}
use robinhood_chain_sequence.Frame.{FeedMessage}
use robinhood_chain_sequence.LocalExecution.Trace.{Step, touched}

-- GAS_CAP and SEQUENCER
abbrev pub gas_cap : ℕ
gas_cap = 30000000

abbrev pub sequencer : Text
sequencer = text "0xA4b000000000000000000073657175656e636572"

-- t.lower(), of ASCII.
unfoldable pub lower_code : ℕ → ℕ
lower_code c = if leb b'A' c && leb c b'Z' then c + 32 else c

unfoldable pub lower : Text → Text
unfolding lower_code
lower t = map lower_code t

-- t.split("{")[0]
unfoldable pub before_brace : Text → Text
before_brace [] = []
before_brace (c ∷ cs) = let rest = before_brace cs in if c == b'{' then [] else c ∷ rest

-- t.strip(), of ASCII.
unfoldable pub is_blank : ℕ → Bool
is_blank c = (leb 9 c && leb c 13) || (leb 28 c && leb c 32)

unfoldable pub strip_left : Text → Text
unfolding is_blank
strip_left [] = []
strip_left (c ∷ cs) = let rest = strip_left cs in if is_blank c then rest else c ∷ cs

unfoldable pub strip_right : Text → Text
unfolding is_blank
strip_right [] = []
strip_right (c ∷ cs) =
    let rest = strip_right cs in if length rest == 0 && is_blank c then [] else c ∷ rest

-- str(exc).split("{")[0].strip().lower() or "error"
unfoldable pub error_status : Text → Text
unfolding before_brace strip_left strip_right
error_status message =
    let status = lower (strip_right (strip_left (before_brace message))) in
    if length status == 0 then text "error" else status

pub record BlockEnv : Type 0 where
  pub number : ℕ
  pub timestamp : ℕ
  pub coinbase : Text
  pub basefee : ℕ
  pub gas_limit : ℕ

unfoldable pub block_env : FeedMessage → BlockEnv
block_env msg = record {
  number = msg.l1_block_number;
  timestamp = msg.timestamp;
  coinbase = sequencer;
  basefee = 0;
  gas_limit = 2 ^ 50;
}

-- The arguments of `message_call`.
pub record Message : Type 0 where
  pub caller : Option Text
  pub to : Option Text
  pub calldata : Bytes
  pub value : ℕ
  pub gas : ℕ
  pub gas_price : ℕ

-- A log as pyrevm gives it: texts or bytes, and data that may be a pair (topics, data), or bytes, or
-- None.
pub data Raw : Type 0 where
  str : Text → Raw
  octets : Bytes → Raw

pub data LogData : Type 0 where
  pair : Bytes → LogData
  plain : Option Bytes → LogData

pub record RawLog : Type 0 where
  pub address : Raw
  pub topics : List Raw
  pub payload : LogData

-- A call raises a RuntimeError, with its text, or `evm.result` says whether it was a success, and its
-- logs.
pub data Called : Type 0 where
  raised : Text → Called
  returned : (is_success : Bool) (logs : List RawLog) → Called

-- pyrevm. A call may raise another exception, which nothing catches. `printed` is what the tracer
-- writes while the call runs.
pub record Machine (Evm : Type 0) : Type 0 where
  pub set_block_env : Evm → BlockEnv → Evm
  pub message_call : Evm → Message → Result (Evm × Called)
  pub printed : Evm → Message → List Step

unfoldable pub checksum_hex : Raw → Text
checksum_hex (str t) = lower t
checksum_hex (octets raw) = text "0x" ++ to_hex raw

-- (address, topics, data)
pub record Log : Type 0 where
  pub address : Text
  pub topics : List Text
  pub payload : Text

unfoldable pub payload_of : LogData → Bytes
payload_of (pair bs) = bs
payload_of (plain none) = []
payload_of (plain (some bs)) = bs

unfoldable pub log_of : RawLog → Log
unfolding checksum_hex payload_of
log_of l = record {
  address = checksum_hex l.address;
  topics = map checksum_hex l.topics;
  payload = text "0x" ++ to_hex (payload_of l.payload);
}

-- A status and the logs.
abbrev pub Ending : Type 0
Ending = Text × List Log

unfoldable pub ending_of : Called → Ending
unfolding error_status log_of
ending_of (raised message) = (error_status message, [])
ending_of (returned false logs) = (text "revert", [])
ending_of (returned true logs) = (text "success", map log_of logs)

module _ {Evm : Type 0} (machine : Machine Evm) (keccak : Bytes → Bytes)
    (public_key : Bytes → Bytes → Option Bytes) where
  unfoldable pub message_of_tx : Tx → Result Message
  message_of_tx tx = do
    caller ← sender_text keccak public_key tx
    to ← to_text keccak tx
    ok (record {
      caller = caller;
      to = to;
      calldata = calldata tx;
      value = tx.value;
      gas = min tx.gas gas_cap;
      gas_price = 0;
    })

  unfoldable pub execute : Evm → Tx → Result (Evm × Ending)
  unfolding message_of_tx ending_of
  execute evm tx = do
    message ← message_of_tx tx
    (after, called) ← machine.message_call evm message
    ok (after, ending_of called)

  -- tx.to.lower() and tx.sender.lower(), then the loop over the trace.
  unfoldable pub touched_of :
      Option Text → Option Text → List Step → Result (List (Text × ℕ) × List Text)
  touched_of (some to) (some sender) steps = ok (touched (lower to) (lower sender) steps)
  touched_of _ _ steps = err attribute_error

  unfoldable pub traced : Evm → Tx → Result (Evm × Ending × List (Text × ℕ) × List Text)
  unfolding message_of_tx execute touched_of
  traced evm tx = do
    message ← message_of_tx tx
    (after, ending) ← execute evm tx
    (slots, reached) ← touched_of message.to message.caller (machine.printed evm message)
    ok (after, ending, slots, reached)

-- The texts of two lists, one by one.
unfoldable pub texts_eq : List Text → List Text → Bool
texts_eq [] [] = true
texts_eq (t ∷ ts) (u ∷ us) = bytes_eq t u && texts_eq ts us
texts_eq _ _ = false

unfoldable pub log_eq : Log → Log → Bool
unfolding texts_eq
log_eq a b =
    bytes_eq a.address b.address && texts_eq a.topics b.topics && bytes_eq a.payload b.payload

unfoldable pub logs_eq : List Log → List Log → Bool
unfolding log_eq
logs_eq [] [] = true
logs_eq (a ∷ ours) (b ∷ theirs) = log_eq a b && logs_eq ours theirs
logs_eq _ _ = false

pub data Verdict : Type 0 where
  exact missing differs : Verdict

unfoldable pub score : List Log → List Log → Verdict
unfolding logs_eq
score ours theirs =
    if logs_eq ours theirs then exact else if length ours == 0 then missing else differs

-- next(([o, t] for o, t in zip(logs, real_logs(truth), strict=False) if o != t), None)
unfoldable pub first_diff : List Log → List Log → Option (Log × Log)
unfolding log_eq
first_diff (o ∷ ours) (t ∷ theirs) =
    let rest = first_diff ours theirs in if log_eq o t then rest else some (o, t)
first_diff _ _ = none
