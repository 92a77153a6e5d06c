-- ===== src/Intents.antt =====
-- intents.py: calls, intents, the table of decoders and the dispatch. The decoders themselves are in
-- Decoders; here they are an argument of the dispatch, over the dispatch that they call.
pub mod Dict
use robinhood_chain_sequence.Prelude.{
  ℕ, zero, suc, ◌-◌, Bool, true, Option, none, some, List, [], ◌∷◌, ◌++◌, ◌||◌, ◌&&◌, Result, ok,
  err, ltb, ◌==◌, if◌then◌else◌, length, take,
}
use robinhood_chain_sequence.Bytes.{Bytes}
use robinhood_chain_sequence.Tx.{Tx, calldata}

abbrev pub max_depth : ℕ
max_depth = 8

pub record Call : Type 0 where
  pub to : Option Bytes
  pub value : ℕ
  pub calldata : Bytes
  pub actor : Option Bytes
  pub via : List Bytes

pub data IntentKind : Type 0 where
  swap transfer approve relay_fill relay_sell : IntentKind

pub record Intent : Type 0 where
  pub kind : IntentKind
  pub actor : Option Bytes
  pub via : List Bytes
  pub payer : Option Bytes
  pub token_in : Option Bytes
  pub token_out : Option Bytes
  pub amount_in : Option ℕ
  pub amount_out : Option ℕ
  pub exact_in : Bool
  pub recipient : Option Bytes
  pub order_id : Option Bytes

-- Intent(kind, actor, via) with the defaults of the dataclass.
abbrev pub intent : IntentKind → Option Bytes → List Bytes → Intent
intent kind actor via = record {
  kind = kind;
  actor = actor;
  via = via;
  payer = none;
  token_in = none;
  token_out = none;
  amount_in = none;
  amount_out = none;
  exact_in = true;
  recipient = none;
  order_id = none;
}

abbrev pub via_of : Option Bytes → List Bytes
via_of none = []
via_of (some to) = to ∷ []

abbrev or_else : Option Bytes → Option Bytes → Option Bytes
or_else none b = b
or_else (some a) b = some a

unfoldable pub inner : Call → Option Bytes → ℕ → Bytes → Option Bytes → Call
inner call to value bs actor = record {
  to = to;
  value = value;
  calldata = bs;
  actor = or_else actor call.actor;
  via = call.via ++ via_of to;
}

-- A decoder, over the dispatch of the calls inside.
abbrev pub Decoder : Type 0
Decoder = (Call → ℕ → List Intent) → Call → ℕ → Result (List Intent)

-- `except Malformed: return []`, behind a decoder that returns or raises `Malformed`. A list has no
-- place for another exception, which the code would let through.
unfoldable pub or_silent : Result (List Intent) → List Intent
or_silent (ok intents) = intents
or_silent (err e) = []

module _ (find : Bytes → Option Decoder) where
  -- The body of `decode_call`, over the dispatch that the decoders call.
  unfoldable pub decode_with : (Call → ℕ → List Intent) → Call → ℕ → List Intent
  unfolding or_silent
  decode_with again call depth =
      if ltb max_depth depth || ltb (length call.calldata) 4
      then []
      else elim (find (take 4 call.calldata)) [
        | none ↦ []
        | some decoder ↦ or_silent (decoder again call depth)
      ]

  unfoldable pub decode_nested : ℕ → Call → ℕ → List Intent
  decode_nested zero call depth = []
  decode_nested (suc fuel) call depth = decode_with (decode_nested fuel) call depth

  -- Past depth 8 nothing is decoded, and a decoder that calls back goes one deeper.
  unfoldable pub decode_call : Call → ℕ → List Intent
  unfolding decode_with decode_nested
  decode_call call depth = decode_nested (suc (suc max_depth - depth)) call depth

  unfoldable pub decode_intents : Tx → List Intent
  unfolding decode_call calldata
  decode_intents tx =
      let bs = calldata tx in
      let decoded =
        decode_call
          (record {
            to = tx.to_bytes;
            value = tx.value;
            calldata = bs;
            actor = none;
            via = via_of tx.to_bytes;
          })
          0 in
      elim tx.to_bytes [
        | none ↦ decoded
        | some to ↦
            if length bs == 0 && ltb 0 tx.value
            then record (intent transfer none (to ∷ [])) {
              amount_in = some tx.value;
              recipient = some to;
            }
              ∷ []
            else decoded
      ]
