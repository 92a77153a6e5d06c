-- ===== src/L2/Tree.antt =====
-- L2 messages as trees, and `_parse_l2_message` on a tree, without offsets or fuel: a step between
-- the bytes and what L2/Meaning.antt says that a tree means.
use robinhood_chain_sequence.Prelude.{
  ℕ, ◌+◌, ◌≡◌, refl, ap, ◌∙◌, arith, List, [], ◌∷◌, ◌++◌, leb, if◌then◌else◌, All, append-nil, inl,
  ok, err, rejected, Result, collect, ◌>>=◌, ◌>>◌,
}
use robinhood_chain_sequence.Bytes.{Bytes}
use robinhood_chain_sequence.Tx.{Tx, signed_tx}
use robinhood_chain_sequence.L2.{
  parse_with, parse_l2_message, check_unsigned_tx, max_batch_depth, l2_unsigned_user_tx,
  l2_contract_tx, l2_batch, l2_signed_tx,
}
use robinhood_chain_sequence.L2.Batch.{frames, FrameFits, split_batch-frames}
use robinhood_chain_sequence.L2.Depth.{parse_l2_message_lem}

mutual
  pub data Message : Type 0 where
    signed unsigned contract : Bytes → Message
    batch : Messages → Message

  pub data Messages : Type 0 where
    nil : Messages
    cons : Message → Messages → Messages

unfoldable mutual
  pub encode_message : Message → Bytes
  encode_message (signed raw) = l2_signed_tx ∷ raw
  encode_message (unsigned body) = l2_unsigned_user_tx ∷ body
  encode_message (contract body) = l2_contract_tx ∷ body
  encode_message (batch ms) = l2_batch ∷ frames (entries ms)

  pub entries : Messages → List Bytes
  entries nil = []
  entries (cons m ms) = encode_message m ∷ entries ms

-- Every entry of every batch has a length that eight bytes hold.
unfoldable mutual
  unfolding entries

  pub EntriesFit : Message → Type 0
  EntriesFit (batch ms) = All FrameFits (entries ms) × NestedFit ms
  EntriesFit _ = Unit {0}

  pub NestedFit : Messages → Type 0
  NestedFit nil = Unit {0}
  NestedFit (cons m ms) = EntriesFit m × NestedFit ms

-- `_parse_l2_message` on a tree: the checks of the leaves are those of the code.
unfoldable mutual
  pub run : Message → ℕ → Result (List Tx)
  run (signed raw) depth = signed_tx raw >>= λ tx. ok (tx ∷ [])
  run (unsigned body) depth = check_unsigned_tx body l2_unsigned_user_tx >> ok []
  run (contract body) depth = check_unsigned_tx body l2_contract_tx >> ok []
  run (batch ms) depth = if leb max_batch_depth depth then err rejected else run_all ms (depth + 1)

  pub run_all : Messages → ℕ → Result (List Tx)
  run_all nil depth = ok []
  run_all (cons m ms) depth = run m depth >>= λ txs. run_all ms depth >>= λ more. ok (txs ++ more)

parse_batch :
    (nested : Bytes → Result (List Tx)) (es : List Bytes) (depth : ℕ)
    → All FrameFits es
    → parse_with nested (l2_batch ∷ frames es) depth
      ≡ (if leb max_batch_depth depth then err rejected else collect nested es)
unfolding parse_with
parse_batch nested es depth fits =
    rw (← append-nil (frames es), split_batch-frames es [] fits (inl (omega arith)))

parse_leaf :
    (nested : Bytes → Result (List Tx)) (body : Bytes) (depth : ℕ)
    → (parse_with nested (l2_signed_tx ∷ body) depth ≡ run (signed body) depth)
      × (parse_with nested (l2_unsigned_user_tx ∷ body) depth ≡ run (unsigned body) depth)
      × (parse_with nested (l2_contract_tx ∷ body) depth ≡ run (contract body) depth)
unfolding parse_with run
parse_leaf nested body depth = (refl, refl, refl)

mutual
  unfolding encode_message run EntriesFit

  pub parse-message :
      (m : Message) (depth : ℕ)
      → EntriesFit m
      → parse_l2_message (encode_message m) depth ≡ run m depth
  parse-message (signed raw) depth fits =
      parse_l2_message_lem (encode_message (signed raw)) depth
      ∙ (parse_leaf (λ entry. parse_l2_message entry (depth + 1)) raw depth).0
  parse-message (unsigned body) depth fits =
      parse_l2_message_lem (encode_message (unsigned body)) depth
      ∙ (parse_leaf (λ entry. parse_l2_message entry (depth + 1)) body depth).1
  parse-message (contract body) depth fits =
      parse_l2_message_lem (encode_message (contract body)) depth
      ∙ (parse_leaf (λ entry. parse_l2_message entry (depth + 1)) body depth).2
  parse-message (batch ms) depth (here, below) =
      parse_l2_message_lem (encode_message (batch ms)) depth
      ∙ parse_batch (λ entry. parse_l2_message entry (depth + 1)) (entries ms) depth here
      ∙ ap (λ r. if leb max_batch_depth depth then err rejected else r)
          (parse-entries ms (depth + 1) below)

  parse-entries :
      (ms : Messages) (depth : ℕ)
      → NestedFit ms
      → collect (λ e. parse_l2_message e depth) (entries ms) ≡ run_all ms depth
  parse-entries nil depth fits = refl
  parse-entries (cons m ms) depth (fit, fits) =
      rw (parse-message m depth fit, parse-entries ms depth fits)
