-- ===== src/Tx/Sender.antt =====
-- The sender that `Tx.sender_bytes` answers with, from the envelope to the key.
use robinhood_chain_sequence.Prelude.{
  ℕ, ◌+◌, ◌*◌, ◌<◌, ◌≤◌, ◌≡◌, ◌≢◌, refl, ap, ◌∙◌, arith, Option, some, List, [], ◌∷◌, ◌++◌, length,
  length-append, lt→ltb,
}
use robinhood_chain_sequence.Bytes.{Bytes, from_bytes}
use robinhood_chain_sequence.Rlp.Uint.{minimal}
use robinhood_chain_sequence.Rlp.Fields.{Field, string, list_of, places, ListFits}
use robinhood_chain_sequence.Tx.{
  Tx, Layout, layout, layout_of, Memo, unset, known, init_tx, decode_transaction, signing_input,
  recover, recover_input, answer, sender_bytes,
}
use robinhood_chain_sequence.Tx.Decode.{
  decoded, decode_body-list_of, decode_transaction_list, list_of_head,
}
use robinhood_chain_sequence.Tx.Signing.{
  signed_fields, signature, Signs, signing_input-typed, signing_input-eip155,
}

module _ (keccak : Bytes → Bytes) (public_key : Bytes → Bytes → Option Bytes) where
  sender-decoded :
      (raw : Bytes) (t : ℕ) (l : Layout) (fs : List Field)
      → (sender_bytes keccak public_key (decoded raw t l fs)).0
        ≡ recover keccak public_key (some (list_of fs)) (some (places fs)) t
  unfolding sender_bytes init_tx
  sender-decoded raw t l fs = refl

  recover-list_of :
      (fs : List Field) (t : ℕ)
      → recover keccak public_key (some (list_of fs)) (some (places fs)) t
        ≡ recover_input keccak public_key (signing_input t (list_of fs) (places fs))
  unfolding recover
  recover-list_of fs t = refl

  -- The sender of a decoded typed envelope is what the curve recovers from r, s and the parity v on
  -- the hash of the type and the list of the fields in front of v, r and s. The fields are as many
  -- as the type's layout needs, r and s have 1 to 32 bytes, and v is 0 or 1.
  pub sender_bytes-typed :
      (t : ℕ) (l : Layout) (front : List Field) (v r s : Bytes)
      → t ≢ 0
      → t < 0x80
      → layout_of t ≡ some l
      → ListFits (signed_fields front v r s)
      → l.data_i + 4 ≤ length (signed_fields front v r s)
      → 0 < length front
      → Signs r s
      → from_bytes v ≤ 1
      → (tx : Tx) × (decode_transaction (t ∷ list_of (signed_fields front v r s)) ≡ some tx)
        × ((sender_bytes keccak public_key tx).0
            ≡ recover_input keccak public_key
                (some (signature r s (from_bytes v), t ∷ list_of front)))
  sender_bytes-typed t l front v r s ht typed hl fits enough some_front signs hv =
      let fs : List Field = signed_fields front v r s in
      let raw : Bytes = t ∷ list_of fs in
      (
        decoded raw t l fs,
        unfold decode_transaction in
            (rw (lt→ltb t 0x80 typed) (ap some (decode_body-list_of raw t l fs hl fits enough))),
        sender-decoded raw t l fs
            ∙ recover-list_of fs t
            ∙ ap (recover_input keccak public_key)
                (signing_input-typed front v r s t ht some_front signs hv),
      )

  -- The sender of a decoded legacy envelope with v = 35 + 2 * chain + parity is what the curve
  -- recovers from r, s and the parity on the hash of EIP-155: the six fields, the chain id and two
  -- empty fields. r and s have 1 to 32 bytes.
  pub sender_bytes-eip155 :
      (front : List Field) (v r s : Bytes) (chain parity : ℕ)
      → length front ≡ 6
      → ListFits (signed_fields front v r s)
      → Signs r s
      → parity ≤ 1
      → from_bytes v ≡ 35 + 2 * chain + parity
      → (tx : Tx) × (decode_transaction (list_of (signed_fields front v r s)) ≡ some tx)
        × ((sender_bytes keccak public_key tx).0
            ≡ recover_input keccak public_key (
                some (
                  signature r s parity,
                  list_of (front ++ string (minimal chain) ∷ string [] ∷ string [] ∷ []),
                )))
  sender_bytes-eip155 front v r s chain parity six fits signs hp hv =
      let fs : List Field = signed_fields front v r s in
      let l : Layout = layout 0 2 3 4 5 in
      let enough : 9 ≤ length fs =
        omega (arith, length-append front (string v ∷ string r ∷ string s ∷ [])) in
      (
        decoded (list_of fs) 0 l fs,
        decode_transaction_list (list_of fs) (list_of_head fs fits)
            ∙ ap some
                (decode_body-list_of (list_of fs) 0 l fs (unfold layout_of in refl) fits enough),
        sender-decoded (list_of fs) 0 l fs
            ∙ recover-list_of fs 0
            ∙ ap (recover_input keccak public_key)
                (signing_input-eip155 front v r s chain parity six signs hp hv),
      )

  memo :
      (m : Memo) (tx : Tx)
      → tx.sender_memo ≡ m
      → (answer keccak public_key m tx).1.sender_memo ≡ known (answer keccak public_key m tx).0
  unfolding answer
  memo unset tx e = refl
  memo (known s) tx e = e

-- After the first call the answer is kept: a second call returns it and the same transaction, and
-- does not ask the curve, since it does so whatever curve it is given.
sender_bytes-sender_bytes :
    (keccak : Bytes → Bytes) (public_key other_curve : Bytes → Bytes → Option Bytes) (tx : Tx)
    → sender_bytes keccak other_curve (sender_bytes keccak public_key tx).1
      ≡ ((sender_bytes keccak public_key tx).0, (sender_bytes keccak public_key tx).1)
unfolding sender_bytes
sender_bytes-sender_bytes keccak public_key other_curve tx =
    let first : Option Bytes × Tx = sender_bytes keccak public_key tx in
    ap (λ m. answer keccak other_curve m first.1) (memo keccak public_key tx.sender_memo tx refl)
    ∙ (unfold answer in refl)
