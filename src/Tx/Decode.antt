-- ===== src/Tx/Decode.antt =====
-- `decode_transaction` and `_signed_tx` on envelopes written by the RLP specification.
use robinhood_chain_sequence.Prelude.{
  ℕ, ◌+◌, ◌<◌, ◌≤◌, ◌≡◌, refl, ap, ◌∙◌, arith, List, [], ◌∷◌, length, get_or, slice_head, take, leb,
  ltb, if◌then◌else◌, Option, none, some, lt→ltb,
}
use robinhood_chain_sequence.Bytes.{Bytes, from_bytes}
use robinhood_chain_sequence.Rlp.{rlp_list, byte_at}
use robinhood_chain_sequence.Rlp.Fields.{
  Field, encode_all, payloads, list_of, head_of, places, ListFits,
}
use robinhood_chain_sequence.Rlp.RoundTrip.{header_bounds}
use robinhood_chain_sequence.Tx.{
  Tx, Layout, layout, layout_of, init_tx, decode_body, decode_transaction, calldata, nth,
}
use robinhood_chain_sequence.Tx.Views.{
  scan-list_of, field-list_of, uint-list_of, nth_width, length-positions,
}

-- An address field: nothing for the empty string.
abbrev pub optional : Bytes → Option Bytes
optional b = if ltb 0 (length b) then some b else none

-- The selector of calldata: its first four bytes, where it has four.
abbrev pub selector_in : Bytes → Option Bytes
selector_in d = if leb 4 (length d) then some (take 4 d) else none

-- The payload of field `n`.
abbrev pub field_of : List Field → ℕ → Bytes
field_of fs n = get_or (payloads fs) n []

-- `tx` shows the envelope's fields, at the positions of the layout.
pub record Shows (raw : Bytes) (tx_type : ℕ) (l : Layout) (fs : List Field) (tx : Tx) : Type 0 where
  pub raw_kept : tx.raw ≡ raw
  pub type_read : tx.tx_type ≡ tx_type
  pub nonce_read : tx.nonce ≡ from_bytes (field_of fs l.nonce_i)
  pub gas_read : tx.gas ≡ from_bytes (field_of fs l.gas_i)
  pub value_read : tx.value ≡ from_bytes (field_of fs l.value_i)
  pub to_read : tx.to_bytes ≡ optional (field_of fs l.to_i)
  pub data_read : calldata tx ≡ field_of fs l.data_i
  pub size_read : tx.data_len ≡ length (field_of fs l.data_i)
  pub selector_read : tx.selector ≡ selector_in (field_of fs l.data_i)

layout_bounds :
    (t : ℕ) (l : Layout)
    → layout_of t ≡ some l
    → (l.nonce_i < l.data_i) × (l.gas_i < l.data_i) × (l.to_i < l.data_i) × (l.value_i < l.data_i)
unfolding layout_of
layout_bounds t l h = ground arith

module _ (raw : Bytes) (t : ℕ) (l : Layout) (fs : List Field) where
  abbrev pub decoded : Tx
  decoded = init_tx raw t (some (list_of fs)) (some (places fs)) (some l)

  pub decode_body-list_of :
      layout_of t ≡ some l
      → ListFits fs
      → l.data_i + 4 ≤ length fs
      → decode_body raw t (list_of fs) ≡ decoded
  unfolding decode_body
  decode_body-list_of hl fits enough =
      ground (arith, hl, scan-list_of fs fits, length-positions fs (length (head_of fs)))

  pub decoded-Shows : layout_of t ≡ some l → l.data_i + 4 ≤ length fs → Shows raw t l fs decoded
  unfolding init_tx calldata
  decoded-Shows hl enough =
      let (hn, hg, ht, hv) = layout_bounds t l hl in
      record {
        raw_kept = refl;
        type_read = refl;
        nonce_read = uint-list_of fs l.nonce_i (omega arith);
        gas_read = uint-list_of fs l.gas_i (omega arith);
        value_read = uint-list_of fs l.value_i (omega arith);
        to_read = ground (
          arith,
          field-list_of fs l.to_i (omega arith),
          nth_width fs (length (head_of fs)) l.to_i (omega arith),
        );
        data_read = field-list_of fs l.data_i (omega arith);
        size_read = omega (arith, nth_width fs (length (head_of fs)) l.data_i);
        selector_read = ground (
          arith,
          field-list_of fs l.data_i (omega arith),
          nth_width fs (length (head_of fs)) l.data_i (omega arith),
          slice_head 4 (nth (places fs) l.data_i).payload_start
              (nth (places fs) l.data_i).payload_end (list_of fs),
        );
      }

-- A typed envelope `type || rlp(fields)` of a known type, with the fields of the type's layout
-- and at least three behind them, is decoded. The transaction shows the payloads of the fields at
-- the layout's positions: nonce, gas, value, recipient, calldata, its length and its selector.
-- The fields have sizes that RLP can encode.
decode_transaction-typed :
    (t : ℕ) (l : Layout) (fs : List Field)
    → t < 0x80
    → layout_of t ≡ some l
    → ListFits fs
    → l.data_i + 4 ≤ length fs
    → (tx : Tx) × (decode_transaction (t ∷ list_of fs) ≡ some tx) × Shows (t ∷ list_of fs) t l fs tx
decode_transaction-typed t l fs typed hl fits enough =
    let raw : Bytes = t ∷ list_of fs in
    (
      decoded raw t l fs,
      unfold decode_transaction in
          (rw (lt→ltb t 0x80 typed) (ap some (decode_body-list_of raw t l fs hl fits enough))),
      decoded-Shows raw t l fs hl enough,
    )

pub decode_transaction_list :
    (raw : Bytes) → 0xc0 ≤ byte_at raw 0 → decode_transaction raw ≡ some (decode_body raw 0 raw)
decode_transaction_list [] h = absurd (omega arith)
decode_transaction_list (head ∷ rest) h = unfold decode_transaction in ground arith

pub list_of_head : (fs : List Field) → ListFits fs → 0xc0 ≤ byte_at (list_of fs) 0
unfolding rlp_list
list_of_head fs fits = (header_bounds (length (encode_all fs)) (encode_all fs) fits.whole).1

-- A legacy envelope, which is the RLP list alone, with nine fields or more is decoded as type 0,
-- and the transaction shows its fields at the positions of the legacy layout. The fields have
-- sizes that RLP can encode.
pub decode_transaction-legacy :
    (fs : List Field)
    → ListFits fs
    → 9 ≤ length fs
    → (tx : Tx) × (decode_transaction (list_of fs) ≡ some tx)
      × Shows (list_of fs) 0 (layout 0 2 3 4 5) fs tx
decode_transaction-legacy fs fits enough =
    let l : Layout = layout 0 2 3 4 5 in
    let hl : layout_of 0 ≡ some l = unfold layout_of in refl in
    (
      decoded (list_of fs) 0 l fs,
      decode_transaction_list (list_of fs) (list_of_head fs fits)
          ∙ ap some (decode_body-list_of (list_of fs) 0 l fs hl fits (omega arith)),
      decoded-Shows (list_of fs) 0 l fs hl (omega arith),
    )
