-- ===== src/Tx/Accept.antt =====
-- What `_signed_tx` lets through, as geth's `UnmarshalBinary` does.
use robinhood_chain_sequence.Prelude.{
  ℕ, ◌+◌, ◌<◌, ◌≤◌, ◌≡◌, refl, ap, ◌∙◌, arith, List, [], ◌∷◌, length, ltb, ◌==◌, true, false,
  Option, none, some, Bool-cases, inl, inr, ok, lt→ltb, ltb_false→le, ltb→lt,
}
use robinhood_chain_sequence.Bytes.{Bytes}
use robinhood_chain_sequence.Rlp.{Item, scan_list, byte_at}
use robinhood_chain_sequence.Rlp.Fields.{Field, list_of, head_of, places, ListFits}
use robinhood_chain_sequence.Tx.{
  Tx, Layout, layout, layout_of, arbos_fields, legacy_fields, init_tx, decode_body,
  decode_transaction, signed_tx, accept_fields, last_end,
}
use robinhood_chain_sequence.Tx.Decode.{decoded, decode_body-list_of, decoded-Shows, Shows}
use robinhood_chain_sequence.Tx.Views.{last_end-places, length-positions}

-- The envelope was read whole: its list has `count` items and ends with the envelope.
pub record IsWhole (body : Bytes) (count : ℕ) (tx : Tx) : Type 0 where
  pub items : List Item
  pub body_kept : tx.body ≡ some body
  pub items_kept : tx.fields ≡ some items
  pub scanned : scan_list body ≡ ok items
  pub counted : length items ≡ count
  pub ended : last_end items ≡ length body

accept_fields_inv :
    (tx tx' : Tx) (count : Option ℕ) (body : Option Bytes) (fields : Option (List Item))
    → accept_fields tx count body fields ≡ ok tx'
    → (n : ℕ) × (b : Bytes) × (f : List Item) × (count ≡ some n)
      × (body ≡ some b)
      × (fields ≡ some f)
      × (length f ≡ n)
      × (last_end f ≡ length b)
      × (tx ≡ tx')
unfolding accept_fields
accept_fields_inv tx tx' (some n) (some b) (some f) h =
    (n, b, f, refl, refl, refl, ground arith, ground arith, ground arith)
accept_fields_inv tx tx' (some n) (some b) none h = absurd (ground arith)
accept_fields_inv tx tx' (some n) none f h = absurd (ground arith)
accept_fields_inv tx tx' none b f h = absurd (ground arith)

-- A decoded envelope keeps its body and the items found in it, or neither.
decode_body_kept :
    (raw : Bytes) (t : ℕ) (body b : Bytes) (f : List Item)
    → (decode_body raw t body).body ≡ some b
    → (decode_body raw t body).fields ≡ some f
    → (b ≡ body)
      × (scan_list body ≡ ok f)
      × ((decode_body raw t body).raw ≡ raw)
      × ((decode_body raw t body).tx_type ≡ t)
unfolding decode_body init_tx
decode_body_kept raw t body b f hb hf = ground arith

pub typed_step :
    (head : ℕ) (rest : Bytes)
    → ltb head 0x80 ≡ true
    → signed_tx (head ∷ rest)
      ≡ accept_fields
          (decode_body (head ∷ rest) head rest)
          (arbos_fields head)
          (decode_body (head ∷ rest) head rest).body
          (decode_body (head ∷ rest) head rest).fields
unfolding signed_tx decode_transaction
typed_step head rest h = rw (h, signed_tx) (rw h)

pub legacy_step :
    (head : ℕ) (rest : Bytes)
    → ltb head 0x80 ≡ false
    → signed_tx (head ∷ rest)
      ≡ accept_fields
          (decode_body (head ∷ rest) 0 (head ∷ rest))
          (some legacy_fields)
          (decode_body (head ∷ rest) 0 (head ∷ rest)).body
          (decode_body (head ∷ rest) 0 (head ∷ rest)).fields
unfolding signed_tx decode_transaction
legacy_step head rest h = rw (h, signed_tx) (rw h)

-- The two shapes that geth reads: a type byte with its list, or a list alone.
pub data Accepted (raw : Bytes) (tx : Tx) : Type 0 where
  typed :
      (t n : ℕ) (body : Bytes)
      → raw ≡ t ∷ body
      → t < 0x80
      → arbos_fields t ≡ some n
      → tx.raw ≡ raw
      → tx.tx_type ≡ t
      → IsWhole body n tx
      → Accepted raw tx
  legacy : 0x80 ≤ byte_at raw 0 → tx.raw ≡ raw → tx.tx_type ≡ 0 → IsWhole raw 9 tx → Accepted raw tx

decode_body-IsWhole :
    (raw body b : Bytes) (t n : ℕ) (f : List Item) (tx : Tx)
    → (decode_body raw t body).body ≡ some b
    → (decode_body raw t body).fields ≡ some f
    → length f ≡ n
    → last_end f ≡ length b
    → decode_body raw t body ≡ tx
    → (tx.raw ≡ raw) × (tx.tx_type ≡ t) × IsWhole body n tx
decode_body-IsWhole raw body b t n f tx hb hf hn he e =
    let (same, scanned, r, k) = decode_body_kept raw t body b f hb hf in
    (
      rw (← e) r,
      rw (← e) k,
      record {
        items = f;
        body_kept = rw (← e) (hb ∙ ap some same);
        items_kept = rw (← e) hf;
        scanned = scanned;
        counted = hn;
        ended = he ∙ ap length same;
      },
    )

-- Whatever `_signed_tx` returns was read whole from one of two shapes, a type byte 1, 2 or 4 with
-- its list, or a list alone: the list was scanned, has exactly the number of fields of its type
-- and ends with the envelope.
pub signed_tx-Accepted : (raw : Bytes) (tx : Tx) → signed_tx raw ≡ ok tx → Accepted raw tx
signed_tx-Accepted [] tx h = absurd (unfold signed_tx in ground arith)
signed_tx-Accepted (head ∷ rest) tx h = elim (Bool-cases (ltb head 0x80)) [
  | inl small ↦
      let raw : Bytes = head ∷ rest in
      let d : Tx = decode_body raw head rest in
      let (n, b, f, hn, hb, hf, hl, he, e) =
        accept_fields_inv d tx (arbos_fields head) d.body d.fields
          (rw (typed_step head rest small) at h) in
      let (r, k, w) = decode_body-IsWhole raw rest b head n f tx hb hf hl he e in
      typed head n rest refl (ltb→lt head 0x80 small) hn r k w
  | inr large ↦
      let raw : Bytes = head ∷ rest in
      let d : Tx = decode_body raw 0 raw in
      let (n, b, f, hn, hb, hf, hl, he, e) =
        accept_fields_inv d tx (some legacy_fields) d.body d.fields
          (rw (legacy_step head rest large) at h) in
      let nine : length f ≡ 9 = ground (arith, hn, hl) in
      let (r, k, w) = decode_body-IsWhole raw raw b 0 9 f tx hb hf nine he e in
      legacy (ltb_false→le head 0x80 large) r k w
]

arbos_layout :
    (t n : ℕ)
    → arbos_fields t ≡ some n
    → (l : Layout) × (layout_of t ≡ some l) × (l.data_i + 4 ≤ n) × (0 < n) × (t < 0x80)
unfolding arbos_fields layout_of
arbos_layout t n h = elim (Bool-cases (t == 1)) [
  | inl one ↦ (layout 1 3 4 5 6, ground arith, ground arith, ground arith, ground arith)
  | inr more ↦ (layout 1 4 5 6 7, ground arith, ground arith, ground arith, ground arith)
]

accept_whole :
    (raw : Bytes) (t : ℕ) (l : Layout) (fs : List Field)
    → 0 < length fs
    → accept_fields (decoded raw t l fs) (some (length fs)) (some (list_of fs)) (some (places fs))
      ≡ ok (decoded raw t l fs)
unfolding accept_fields
accept_whole raw t l fs h =
    ground (arith, length-positions fs (length (head_of fs)), last_end-places fs h)

-- An envelope of type 1, 2 or 4 with exactly that type's number of fields is accepted by
-- `_signed_tx`, and the transaction shows its fields. The fields have sizes that RLP can encode.
pub signed_tx-typed :
    (t : ℕ) (fs : List Field)
    → arbos_fields t ≡ some (length fs)
    → ListFits fs
    → (l : Layout) × (tx : Tx) × (layout_of t ≡ some l)
      × (signed_tx (t ∷ list_of fs) ≡ ok tx)
      × Shows (t ∷ list_of fs) t l fs tx
signed_tx-typed t fs ha fits =
    let (l, hl, enough, some_fields, small) = arbos_layout t (length fs) ha in
    let raw : Bytes = t ∷ list_of fs in
    (
      l,
      decoded raw t l fs,
      hl,
      typed_step t (list_of fs) (lt→ltb t 0x80 small)
          ∙ rw (decode_body-list_of raw t l fs hl fits enough, ha)
              (unfold init_tx in accept_whole raw t l fs some_fields),
      decoded-Shows raw t l fs hl enough,
    )
