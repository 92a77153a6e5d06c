-- ===== src/L2/Voids.antt =====
-- Which messages `decode_l2_message` gives nothing of.
use robinhood_chain_sequence.Prelude.{
  ℕ, ◌+◌, ◌≡◌, ◌≢◌, refl, sym, ◌∙◌, arith, List, [], ◌++◌, leb, Bool-cases, inl, inr, ok, err,
  rejected, Result, ◌>>=◌, >>=-eq-ok,
}
use robinhood_chain_sequence.Bytes.{Bytes}
use robinhood_chain_sequence.Tx.{Tx, signed_tx}
use robinhood_chain_sequence.L2.{parse_l2_message, decode_l2_message, check_unsigned_tx, or_nothing}
use robinhood_chain_sequence.L2.Tree.{
  Message, signed, unsigned, contract, batch, Messages, cons, encode_message, EntriesFit, run,
  run_all, parse-message,
}

-- A leaf somewhere in the message that its own check refuses.
mutual
  pub data HasBad : Message → Type 0 where
    bad_signed : (raw : Bytes) → signed_tx raw ≡ err rejected → HasBad (signed raw)
    bad_unsigned : (body : Bytes) → check_unsigned_tx body 0 ≡ err rejected → HasBad (unsigned body)
    bad_contract : (body : Bytes) → check_unsigned_tx body 1 ≡ err rejected → HasBad (contract body)
    bad_entry : {ms : Messages} → SomeBad ms → HasBad (batch ms)

  pub data SomeBad : Messages → Type 0 where
    here : {m : Message} {ms : Messages} → HasBad m → SomeBad (cons m ms)
    there : {m : Message} {ms : Messages} → SomeBad ms → SomeBad (cons m ms)

mutual
  unfolding run

  HasBad-run : {m : Message} → HasBad m → (depth : ℕ) (txs : List Tx) → run m depth ≢ ok txs
  HasBad-run (bad_signed raw h) depth txs e = ground arith
  HasBad-run (bad_unsigned body h) depth txs e = ground arith
  HasBad-run (bad_contract body h) depth txs e = ground arith
  HasBad-run (bad_entry s) depth txs e = elim (Bool-cases (leb 16 depth)) [
    | inl deep ↦ ground arith
    | inr room ↦ SomeBad-run_all s (depth + 1) txs (rw room at e)
  ]

  SomeBad-run_all :
      {ms : Messages} → SomeBad ms → (depth : ℕ) (txs : List Tx) → run_all ms depth ≢ ok txs
  SomeBad-run_all (here {m = m} {ms = ms} b) depth txs e =
      let (xs, first, rest) =
        >>=-eq-ok (run m depth) (λ xs. run_all ms depth >>= λ ys. ok (xs ++ ys)) {b = txs} e in
      HasBad-run b depth xs first
  SomeBad-run_all (there {m = m} {ms = ms} b) depth txs e =
      let (xs, first, rest) =
        >>=-eq-ok (run m depth) (λ xs. run_all ms depth >>= λ ys. ok (xs ++ ys)) {b = txs} e in
      let (ys, more, last) = >>=-eq-ok (run_all ms depth) (λ ys. ok (xs ++ ys)) {b = txs} rest in
      SomeBad-run_all b depth ys more

or_nothing_unless_ok : (r : Result (List Tx)) → ((txs : List Tx) → r ≢ ok txs) → or_nothing r ≡ []
unfolding or_nothing
or_nothing_unless_ok (ok txs) h = absurd (h txs refl)
or_nothing_unless_ok (err e) h = refl

-- A leaf that its own check refuses voids the whole message, at any place and at any depth of
-- batches: nothing of the other entries is surfaced. The length of every batch entry fits in
-- eight bytes.
pub decode_l2_message-HasBad :
    (m : Message) (depth : ℕ)
    → EntriesFit m
    → HasBad m
    → decode_l2_message (encode_message m) depth ≡ []
unfolding decode_l2_message
decode_l2_message-HasBad m depth fits bad =
    let none_kept : or_nothing (parse_l2_message (encode_message m) depth) ≡ [] =
      or_nothing_unless_ok (parse_l2_message (encode_message m) depth)
        (λ txs e. HasBad-run bad depth txs (sym (parse-message m depth fits) ∙ e)) in
    ground (arith, none_kept)
