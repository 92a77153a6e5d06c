-- ===== src/Tx.antt =====
-- codec.py, signed transaction envelopes: `Tx`, `decode_transaction`, `_signed_tx` and the payload
-- that `Tx._recover` rebuilds. keccak and the curve are third-party code, so they are arguments.
pub mod Views
pub mod Decode
pub mod Accept
pub mod Signing
pub mod Sender
pub mod Texts
pub mod Examples
use robinhood_chain_sequence.Prelude.{
  ℕ, ◌+◌, ◌-◌, ◌/◌, ◌%◌, List, [], ◌∷◌, ◌++◌, ◌&&◌, ◌||◌, not, Option, none, some, Bool, Result, ok,
  err, rejected, ltb, leb, ◌==◌, if◌then◌else◌, length, get_or, slice, drop,
}
use robinhood_chain_sequence.Bytes.{Bytes, from_bytes, rjust}
use robinhood_chain_sequence.Rlp.{Item, item, scan_list, rlp_list, rlp_uint}

-- Field positions of an envelope type.
pub record Layout : Type 0 where
  pub nonce_i : ℕ
  pub gas_i : ℕ
  pub to_i : ℕ
  pub value_i : ℕ
  pub data_i : ℕ

abbrev pub layout : ℕ → ℕ → ℕ → ℕ → ℕ → Layout
layout n g t v d = record { nonce_i = n; gas_i = g; to_i = t; value_i = v; data_i = d }

-- _LAYOUT.get(tx_type)
unfoldable pub layout_of : ℕ → Option Layout
layout_of tx_type =
    if tx_type == 0
    then some (layout 0 2 3 4 5)
    else if tx_type == 1
    then some (layout 1 3 4 5 6)
    else if tx_type == 2 || tx_type == 3 || tx_type == 4
    then some (layout 1 4 5 6 7)
    else none

-- _ARBOS_FIELDS.get(tx_type)
unfoldable pub arbos_fields : ℕ → Option ℕ
arbos_fields tx_type =
    if tx_type == 1
    then some 11
    else if tx_type == 2
    then some 12
    else if tx_type == 4
    then some 13
    else none

abbrev pub legacy_fields : ℕ
legacy_fields = 9

-- The sender's slot: not asked for yet, or the answer that is kept.
pub data Memo : Type 0 where
  unset : Memo
  known : Option Bytes → Memo

pub record Tx : Type 0 where
  pub raw : Bytes
  pub tx_type : ℕ
  pub body : Option Bytes
  pub fields : Option (List Item)
  pub sender_memo : Memo
  pub nonce : ℕ
  pub gas : ℕ
  pub value : ℕ
  pub to_bytes : Option Bytes
  pub data_len : ℕ
  pub data_span : ℕ × ℕ
  pub selector : Option Bytes

-- _uint(buf, item)
unfoldable pub uint : Bytes → Item → ℕ
uint buf it = from_bytes (slice it.payload_start it.payload_end buf)

-- fields[n], read below len(fields) alone.
abbrev pub nth : List Item → ℕ → Item
nth fields n = get_or fields n (item 0 0 0)

-- Tx.__init__
unfoldable pub init_tx : Bytes → ℕ → Option Bytes → Option (List Item) → Option Layout → Tx
unfolding uint
init_tx raw tx_type (some body) (some fields) (some l) =
    let to = nth fields l.to_i in
    let calldata = nth fields l.data_i in
    record {
      raw = raw;
      tx_type = tx_type;
      body = some body;
      fields = some fields;
      sender_memo = unset;
      nonce = uint body (nth fields l.nonce_i);
      gas = uint body (nth fields l.gas_i);
      value = uint body (nth fields l.value_i);
      to_bytes =
          if ltb to.payload_start to.payload_end
          then some (slice to.payload_start to.payload_end body)
          else none;
      data_len = calldata.payload_end - calldata.payload_start;
      data_span = (calldata.payload_start, calldata.payload_end);
      selector =
          if leb 4 (calldata.payload_end - calldata.payload_start)
          then some (slice calldata.payload_start (calldata.payload_start + 4) body)
          else none;
    }
init_tx raw tx_type body fields _ = record {
  raw = raw;
  tx_type = tx_type;
  body = body;
  fields = fields;
  sender_memo = unset;
  nonce = 0;
  gas = 0;
  value = 0;
  to_bytes = none;
  data_len = 0;
  data_span = (0, 0);
  selector = none;
}

-- The hash is kept, the fields are dropped.
abbrev pub hash_only : Bytes → ℕ → Tx
hash_only raw tx_type = init_tx raw tx_type none none none

-- `decode_transaction` behind the choice of the body.
unfoldable pub decode_body : Bytes → ℕ → Bytes → Tx
decode_body raw tx_type body = elim (layout_of tx_type) [
  | none ↦ hash_only raw tx_type
  | some l ↦ elim (scan_list body) [
    | err e ↦ hash_only raw tx_type
    | ok fields ↦
        if ltb (length fields) (l.data_i + 4)
        then hash_only raw tx_type
        else init_tx raw tx_type (some body) (some fields) (some l)
  ]
]

unfoldable pub decode_transaction : Bytes → Option Tx
unfolding decode_body
decode_transaction [] = none
decode_transaction (head ∷ rest) =
    if ltb head 0x80
    then some (decode_body (head ∷ rest) head rest)
    else some (decode_body (head ∷ rest) 0 (head ∷ rest))

-- f[-1][2]
unfoldable pub last_end : List Item → ℕ
last_end [] = 0
last_end (it ∷ []) = it.payload_end
last_end (it ∷ more ∷ items) = last_end (more ∷ items)

-- `_signed_tx` behind the look-up of the field count.
unfoldable pub accept_fields : Tx → Option ℕ → Option Bytes → Option (List Item) → Result Tx
unfolding last_end
accept_fields tx (some count) (some body) (some fields) =
    if length fields == count && last_end fields == length body then ok tx else err rejected
accept_fields tx _ _ _ = err rejected

unfoldable pub signed_tx : Bytes → Result Tx
unfolding accept_fields
signed_tx [] = err rejected
signed_tx (head ∷ rest) =
    let count = if ltb head 0x80 then arbos_fields head else some legacy_fields in
    elim (decode_transaction (head ∷ rest)) [
      | none ↦ err rejected
      | some tx ↦ accept_fields tx count tx.body tx.fields
    ]

-- Tx.data
unfoldable pub calldata : Tx → Bytes
calldata tx = elim tx.body [ none ↦ [] | some body ↦ slice tx.data_span.0 tx.data_span.1 body ]

pub data Kind : Type 0 where
  deploy call transfer : Kind

-- Tx.kind
unfoldable pub kind : Tx → Kind
kind tx = elim tx.to_bytes [
  | none ↦ deploy
  | some to ↦ elim tx.selector [ none ↦ transfer | some s ↦ call ]
]

-- The parity and the bytes that a legacy signature is over, from `v`.
unfoldable pub legacy_unsigned : Bytes → List Item → ℕ → Option (ℕ × Bytes)
legacy_unsigned body f v =
    let six = slice (nth f 0).item_start (nth f 5).payload_end body in
    if leb 35 v
    then some ((v - 35) % 2, six ++ rlp_uint ((v - 35) / 2) ++ 0x80 ∷ 0x80 ∷ [])
    else if v == 27 || v == 28
    then some (v - 27, six)
    else none

-- `_recover` behind the reads of v, r and s: (signature, message) for the curve. `run` is what a
-- typed envelope signs, without the type.
unfoldable pub sign_with :
    ℕ → ℕ → Bytes → Bytes → Option (ℕ × Bytes) → Bytes → Option (Bytes × Bytes)
sign_with tx_type v r s legacy run =
    let sig = λ (parity : ℕ). rjust r 32 ++ rjust s 32 ++ parity ∷ [] in
    if length r == 0 || length s == 0 || ltb 32 (length r) || ltb 32 (length s)
    then none
    else if tx_type == 0
    then elim legacy [
      | none ↦ none
      | some (parity, unsigned) ↦ some (sig parity, rlp_list unsigned)
    ]
    else if ltb 1 v
    then none
    else some (sig v, tx_type ∷ rlp_list run)

unfoldable pub signing_input : ℕ → Bytes → List Item → Option (Bytes × Bytes)
signing_input tx_type body f =
    let n = length f in
    let v = uint body (nth f (n - 3)) in
    if ltb n 4
    then none
    else sign_with tx_type v (slice (nth f (n - 2)).payload_start (nth f (n - 2)).payload_end body)
        (slice (nth f (n - 1)).payload_start (nth f (n - 1)).payload_end body)
        (legacy_unsigned body f v) (slice (nth f 0).item_start (nth f (n - 4)).payload_end body)

-- bs[-20:]
abbrev pub last_20 : Bytes → Bytes
last_20 bs = drop (length bs - 20) bs

-- `keccak` of eth-hash, and coincurve's `PublicKey.from_signature_and_message(...).format(...)`.
module _ (keccak : Bytes → Bytes) (public_key : Bytes → Bytes → Option Bytes) where
  -- `_recover` behind the signature.
  unfoldable pub recover_input : Option (Bytes × Bytes) → Option Bytes
  recover_input none = none
  recover_input (some (sig, message)) = elim (public_key sig (keccak message)) [
    | none ↦ none
    | some key ↦ some (last_20 (keccak (drop 1 key)))
  ]

  -- Tx._recover
  unfoldable pub recover : Option Bytes → Option (List Item) → ℕ → Option Bytes
  unfolding recover_input
  recover (some body) (some f) tx_type = recover_input (signing_input tx_type body f)
  recover body _ tx_type = none

  -- Tx.sender_bytes behind the look at the slot: the answer, and the transaction that keeps it.
  unfoldable pub answer : Memo → Tx → Option Bytes × Tx
  unfolding recover
  answer (known s) tx = (s, tx)
  answer unset tx =
      let s = recover tx.body tx.fields tx.tx_type in (s, record tx { sender_memo = known s })

  -- Tx.sender_bytes
  unfoldable pub sender_bytes : Tx → Option Bytes × Tx
  unfolding answer
  sender_bytes tx = answer tx.sender_memo tx
