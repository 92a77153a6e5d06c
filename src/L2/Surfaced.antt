-- ===== src/L2/Surfaced.antt =====
-- What `decode_l2_message` surfaces of a message, against what the message means.
use robinhood_chain_sequence.Prelude.{
  >>=-eq-ok, sym, All-append, Bool-cases, Result-cases, ℕ, ◌+◌, ◌<◌, ◌≡◌, ◌⊎◌, refl, ap, ◌∙◌, arith,
  List, [], ◌∷◌, ◌++◌, length, ltb, if◌then◌else◌, All, Bool, true, false, inl, inr, ok, err,
  rejected, ◌>>=◌,
}
use mathlib.Core.Path.{subst}
use robinhood_chain_sequence.Bytes.{Bytes}
use robinhood_chain_sequence.Tx.{Tx, signed_tx}
use robinhood_chain_sequence.Tx.Accept.{Accepted, typed, legacy, signed_tx-Accepted}
use robinhood_chain_sequence.L2.{decode_l2_message, max_l2_message_size, or_nothing}
use robinhood_chain_sequence.L2.Tree.{
  Message, signed, unsigned, contract, batch, Messages, nil, cons, encode_message, EntriesFit,
  parse-message,
}
use robinhood_chain_sequence.L2.Meaning.{meaning, meaning_all, no_txs, LeavesAreBytes, run-meaning}

-- The envelopes of the signed leaves, from left to right.
unfoldable mutual
  pub leaves : Message → List Bytes
  leaves (signed raw) = raw ∷ []
  leaves (batch ms) = all_leaves ms
  leaves _ = []

  pub all_leaves : Messages → List Bytes
  all_leaves nil = []
  all_leaves (cons m ms) = leaves m ++ all_leaves ms

abbrev envelopes : List Tx → List Bytes
envelopes [] = []
envelopes (tx ∷ txs) = tx.raw ∷ envelopes txs

envelopes-append : (xs ys : List Tx) → envelopes (xs ++ ys) ≡ envelopes xs ++ envelopes ys
envelopes-append [] ys = refl
envelopes-append (x ∷ xs) ys = ap (λ es. x.raw ∷ es) (envelopes-append xs ys)

Accepted-raw : (raw : Bytes) (tx : Tx) → Accepted raw tx → tx.raw ≡ raw
Accepted-raw raw tx (typed t n body shape small known kept same whole) = kept
Accepted-raw raw tx (legacy list kept same whole) = kept

-- The transactions of these envelopes, in order, each read whole from its own.
abbrev pub ReadFrom : List Bytes → List Tx → Type 0
ReadFrom raws txs = (envelopes txs ≡ raws) × All (λ tx. Accepted tx.raw tx) txs

ReadFrom-append :
    (raws more : List Bytes) (xs ys : List Tx)
    → ReadFrom raws xs
    → ReadFrom more ys
    → ReadFrom (raws ++ more) (xs ++ ys)
ReadFrom-append raws more xs ys (ex, hx) (ey, hy) = (
  envelopes-append xs ys ∙ ap (λ es. es ++ envelopes ys) ex ∙ ap (λ es. raws ++ es) ey,
  All-append (λ tx. Accepted tx.raw tx) xs ys hx hy,
)

if-eq-ok :
    (test : Bool) (txs : List Tx)
    → (if test then no_txs else err rejected) ≡ ok txs
    → ReadFrom [] txs
if-eq-ok true txs e = let none_left : [] ≡ txs = cc in subst (ReadFrom []) none_left (refl, tt)
if-eq-ok false txs e = absurd (cc)

mutual
  unfolding meaning leaves

  meaning-leaves :
      (m : Message) (depth : ℕ) (txs : List Tx) → meaning m depth ≡ ok txs → ReadFrom (leaves m) txs
  meaning-leaves (signed raw) depth txs e =
      let (tx, read, rest) = >>=-eq-ok (signed_tx raw) (λ tx. ok (tx ∷ [])) {b = txs} e in
      let one : tx ∷ [] ≡ txs = cc in
      let accepted = signed_tx-Accepted raw tx read in
      let kept = Accepted-raw raw tx accepted in
      subst (ReadFrom (raw ∷ [])) one
        (ap (λ r. r ∷ []) kept, (subst (λ r. Accepted r tx) (sym kept) accepted, tt))
  meaning-leaves (unsigned body) depth txs e = if-eq-ok _ txs e
  meaning-leaves (contract body) depth txs e = if-eq-ok _ txs e
  meaning-leaves (batch ms) depth txs e = elim (Bool-cases (ltb depth 16)) [
    | inl room ↦ meaning_all-leaves ms (depth + 1) txs (rw room at e)
    | inr deep ↦ absurd (ground arith)
  ]

  meaning_all-leaves :
      (ms : Messages) (depth : ℕ) (txs : List Tx)
      → meaning_all ms depth ≡ ok txs
      → ReadFrom (all_leaves ms) txs
  meaning_all-leaves nil depth txs e =
      let none_left : [] ≡ txs = cc in subst (ReadFrom []) none_left (refl, tt)
  meaning_all-leaves (cons m ms) depth txs e =
      let (xs, first, rest) =
        >>=-eq-ok (meaning m depth) (λ xs. meaning_all ms depth >>= λ ys. ok (xs ++ ys)) {b = txs}
          e in
      let (ys, more, last) =
        >>=-eq-ok (meaning_all ms depth) (λ ys. ok (xs ++ ys)) {b = txs} rest in
      let joined : xs ++ ys ≡ txs = cc in
      subst (ReadFrom (leaves m ++ all_leaves ms)) joined (
        ReadFrom-append (leaves m) (all_leaves ms) xs ys (meaning-leaves m depth xs first)
          (meaning_all-leaves ms depth ys more))

encode_message_some : (m : Message) → 0 < length (encode_message m)
unfolding encode_message
encode_message_some (signed raw) = omega arith
encode_message_some (unsigned body) = omega arith
encode_message_some (contract body) = omega arith
encode_message_some (batch ms) = omega arith

-- A list of transactions is empty, or read from the signed leaves.
Surfaced : Message → List Tx → Type 0
Surfaced m txs = (txs ≡ []) ⊎ ReadFrom (leaves m) txs

meaning-Surfaced : (m : Message) (depth : ℕ) → Surfaced m (or_nothing (meaning m depth))
unfolding Surfaced or_nothing
meaning-Surfaced m depth = elim (Result-cases (meaning m depth)) [
  | inl (txs, runs) ↦ rw runs (inr (meaning-leaves m depth txs runs))
  | inr (raised, raises) ↦ rw raises (inl refl)
]

if-Surfaced :
    (m : Message) (test : Bool) (txs : List Tx)
    → Surfaced m txs
    → Surfaced m (if test then [] else txs)
unfolding Surfaced
if-Surfaced m true txs h = inl refl
if-Surfaced m false txs h = h

decode-meaning :
    (m : Message) (depth : ℕ)
    → EntriesFit m
    → LeavesAreBytes m
    → decode_l2_message (encode_message m) depth ≡ (
        if ltb max_l2_message_size (length (encode_message m))
        then []
        else or_nothing (meaning m depth))
unfolding decode_l2_message
decode-meaning m depth fits bytes =
    ground (arith, encode_message_some m, parse-message m depth fits, run-meaning m depth bytes)

-- The L2 message that encodes a tree of batches, signed and unsigned transactions decodes to the
-- transactions that the tree means, in order, and to nothing where the tree means that it is refused,
-- as it does where an unsigned leaf is too short or has a gas limit or a nonce past 64 bits, where
-- `_signed_tx` refuses a signed leaf, and where a batch lies too deep. A message longer than the size
-- limit decodes to nothing. What a message decodes to, unless it is nothing, is one transaction for
-- each signed leaf of the tree, in order, and each was read whole from the envelope in its leaf, with
-- the number of fields of its type. The unsigned leaves are made of bytes, and the length of every
-- batch entry fits in eight of them.
pub decode_l2_message-meaning :
    (m : Message) (depth : ℕ)
    → EntriesFit m
    → LeavesAreBytes m
    → (decode_l2_message (encode_message m) depth ≡ (
        if ltb max_l2_message_size (length (encode_message m))
        then []
        else or_nothing (meaning m depth)))
      × ((decode_l2_message (encode_message m) depth ≡ [])
          ⊎ ReadFrom (leaves m) (decode_l2_message (encode_message m) depth))
unfolding Surfaced
decode_l2_message-meaning m depth fits bytes =
    let same = decode-meaning m depth fits bytes in
    (same, subst (Surfaced m) (sym same) (if-Surfaced m _ _ (meaning-Surfaced m depth)))
