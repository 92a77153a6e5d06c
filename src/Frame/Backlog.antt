-- ===== src/Frame/Backlog.antt =====
-- `parse_frame` with and without the transactions.
use robinhood_chain_sequence.Prelude.{
  ℕ, ◌≡◌, arith, refl, ap, ◌∙◌, true, false, Option, List, [], ◌∷◌, ok, ◌>>=◌, >>=-eq-ok, traverse,
}
use robinhood_chain_sequence.Frame.{
  Entry, FeedMessage, txs_of, message_of, parse_entry, parse_frame,
}

-- The message without its transactions.
abbrev pub bare : FeedMessage → FeedMessage
bare m = record m { txs = [] }

abbrev pub all_bare : List FeedMessage → List FeedMessage
all_bare [] = []
all_bare (m ∷ ms) = bare m ∷ all_bare ms

parse_entry-bare :
    (chain : Option ℕ) (e : Entry) (m : FeedMessage)
    → parse_entry true chain e ≡ ok m
    → parse_entry false chain e ≡ ok (bare m)
unfolding parse_entry message_of
parse_entry-bare chain e m h =
    let (txs, read, made) =
      >>=-eq-ok (txs_of e.header chain e.l2_msg) (λ txs. ok (message_of e txs)) h in
    let same : message_of e txs ≡ m = cc in ap (λ x. ok (bare x)) same

-- Reading a frame without its transactions gives the same messages, each with an empty list of
-- transactions, wherever reading it with them succeeds: nothing else that a message says depends on
-- its payload.
pub parse_frame-bare :
    (chain : Option ℕ) (entries : List Entry) (ms : List FeedMessage)
    → parse_frame entries true chain ≡ ok ms
    → parse_frame entries false chain ≡ ok (all_bare ms)
unfolding parse_frame
parse_frame-bare chain [] [] h = refl
parse_frame-bare chain [] (m ∷ ms) h = absurd (ground arith)
parse_frame-bare chain (e ∷ entries) ms h =
    let (m, first, h') =
      >>=-eq-ok (parse_entry true chain e)
        (λ y. traverse (parse_entry true chain) entries >>= λ ys. ok (y ∷ ys)) h in
    let (rest, others, h'') =
      >>=-eq-ok (traverse (parse_entry true chain) entries) (λ ys. ok (m ∷ ys)) h' in
    let same : m ∷ rest ≡ ms = cc in
    ap (λ r. r >>= λ y. traverse (parse_entry false chain) entries >>= λ ys. ok (y ∷ ys))
      (parse_entry-bare chain e m first)
    ∙ ap (λ r. r >>= λ ys. ok (bare m ∷ ys)) (parse_frame-bare chain entries rest others)
    ∙ ap (λ xs. ok (all_bare xs)) same
