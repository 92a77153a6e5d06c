-- ===== src/L2/Meaning.antt =====
-- What an L2 message means, said of its tree: the tests of the unsigned leaves by the numbers in their
-- words, apart from the byte tests of `_check_unsigned_tx`, and the limit on nested batches.
use robinhood_chain_sequence.Prelude.{
  ℕ, ◌+◌, ◌^◌, ◌≡◌, ◌⊎◌, refl, ap, ◌∙◌, arith, List, [], ◌∷◌, ◌++◌, ◌&&◌, length, slice, leb, ltb,
  if◌then◌else◌, All, Bool, true, false, inl, inr, ok, err, rejected, Result, ◌>>=◌, ◌>>◌,
}
use robinhood_chain_sequence.Bytes.{Bytes, IsByte, from_bytes}
use robinhood_chain_sequence.Tx.{Tx, signed_tx}
use robinhood_chain_sequence.L2.{check_unsigned_tx}
use robinhood_chain_sequence.L2.Unsigned.{check_unsigned_tx_lem}
use robinhood_chain_sequence.L2.Tree.{
  Message, signed, unsigned, contract, batch, Messages, nil, cons, run, run_all,
}

-- The word at a place of a body is a number of 64 bits.
abbrev word_fits : Bytes → ℕ → Bool
word_fits body start = ltb (from_bytes (slice start (start + 32) body)) (2 ^ 64)

-- What a message at a depth means: the transactions that it carries, in order, or that it is refused.
-- A signed leaf carries what `_signed_tx` reads of it. An unsigned leaf carries nothing, but it has to
-- hold five words, with a gas limit and a nonce of 64 bits in the first and the third of them; a leaf
-- of a contract has to hold four, with such a gas limit. A batch carries what its entries do, is
-- refused with any one of them, and lies at depth 15 at most.
unfoldable mutual
  pub meaning : Message → ℕ → Result (List Tx)
  meaning (signed raw) depth = signed_tx raw >>= λ tx. ok (tx ∷ [])
  meaning (unsigned body) depth =
      if leb 160 (length body) && word_fits body 0 && word_fits body 64 then ok [] else err rejected
  meaning (contract body) depth =
      if leb 128 (length body) && word_fits body 0 then ok [] else err rejected
  meaning (batch ms) depth = if ltb depth 16 then meaning_all ms (depth + 1) else err rejected

  pub meaning_all : Messages → ℕ → Result (List Tx)
  meaning_all nil depth = ok []
  meaning_all (cons m ms) depth =
      meaning m depth >>= λ txs. meaning_all ms depth >>= λ more. ok (txs ++ more)

-- The unsigned leaves are made of bytes.
unfoldable mutual
  pub LeavesAreBytes : Message → Type 0
  LeavesAreBytes (signed raw) = Unit {0}
  LeavesAreBytes (unsigned body) = All IsByte body
  LeavesAreBytes (contract body) = All IsByte body
  LeavesAreBytes (batch ms) = AllAreBytes ms

  pub AllAreBytes : Messages → Type 0
  AllAreBytes nil = Unit {0}
  AllAreBytes (cons m ms) = LeavesAreBytes m × AllAreBytes ms

check_or_rejected :
    (body : Bytes) (kind : ℕ)
    → (check_unsigned_tx body kind ≡ ok tt) ⊎ (check_unsigned_tx body kind ≡ err rejected)
unfolding check_unsigned_tx
check_or_rejected body kind = ground arith

abbrev pub no_txs : Result (List Tx)
no_txs = ok []

-- A check that passes just when a test holds is the test.
check_lem :
    (check : Result (Unit {0})) (test : Bool)
    → (check ≡ ok tt) ⊎ (check ≡ err rejected)
    → (check ≡ ok tt → test ≡ true)
    → (test ≡ true → check ≡ ok tt)
    → (check >> no_txs) ≡ (if test then no_txs else err rejected)
check_lem check true either to from = rw (from refl) refl
check_lem check false either to from = elim either [
  | inl passed ↦ absurd (cc (to passed))
  | inr refused ↦ rw refused refl
]

unsigned-meaning :
    (body : Bytes) (depth : ℕ)
    → All IsByte body
    → run (unsigned body) depth ≡ meaning (unsigned body) depth
unfolding run meaning
unsigned-meaning body depth bytes =
    let law = (check_unsigned_tx_lem body bytes).0 in
    check_lem (check_unsigned_tx body 0) _ (check_or_rejected body 0)
      (λ passed. let (room, gas, nonce) = law.0 passed in ground (arith, room, gas, nonce))
      (λ holds. law.1 (ground (arith, holds), ground (arith, holds), ground (arith, holds)))

contract-meaning :
    (body : Bytes) (depth : ℕ)
    → All IsByte body
    → run (contract body) depth ≡ meaning (contract body) depth
unfolding run meaning
contract-meaning body depth bytes =
    let law = (check_unsigned_tx_lem body bytes).1 in
    check_lem (check_unsigned_tx body 1) _ (check_or_rejected body 1)
      (λ passed. let (room, gas) = law.0 passed in ground (arith, room, gas))
      (λ holds. law.1 (ground (arith, holds), ground (arith, holds)))

batch_limit :
    (depth : ℕ) (r : Result (List Tx))
    → (if leb 16 depth then err rejected else r) ≡ (if ltb depth 16 then r else err rejected)
batch_limit depth r = ground arith

mutual
  unfolding run meaning LeavesAreBytes

  pub run-meaning : (m : Message) (depth : ℕ) → LeavesAreBytes m → run m depth ≡ meaning m depth
  run-meaning (signed raw) depth bytes = refl
  run-meaning (unsigned body) depth bytes = unsigned-meaning body depth bytes
  run-meaning (contract body) depth bytes = contract-meaning body depth bytes
  run-meaning (batch ms) depth bytes =
      ap (λ r. if leb 16 depth then err rejected else r) (run_all-meaning_all ms (depth + 1) bytes)
      ∙ batch_limit depth (meaning_all ms (depth + 1))

  run_all-meaning_all :
      (ms : Messages) (depth : ℕ) → AllAreBytes ms → run_all ms depth ≡ meaning_all ms depth
  run_all-meaning_all nil depth bytes = refl
  run_all-meaning_all (cons m ms) depth (this, more) =
      rw (run-meaning m depth this, run_all-meaning_all ms depth more) refl
