-- ===== src/Consumer/Verified.antt =====
-- `_frame` with a verifier: what is yielded was signed.
use robinhood_chain_sequence.Prelude.{
  ℕ, ◌≡◌, ◌⊎◌, ◌∙◌, inl, inr, Bool, true, Option, List, [], ◌∷◌, All, ok,
}
use robinhood_chain_sequence.Prelude.Int.{ℤ}
use robinhood_chain_sequence.Bytes.{Bytes}
use robinhood_chain_sequence.ParentChain.{Json}
use robinhood_chain_sequence.Frame.{Entry, FeedMessage, seq_of, txs_of}
use robinhood_chain_sequence.Frame.Read.{IsRead, Aligned}
use robinhood_chain_sequence.Verify.{Verifier, accepts}
use robinhood_chain_sequence.Verify.Signed.{IsSigned, accepts-IsSigned}
use robinhood_chain_sequence.Consumer.{Config, Consumer, accepted_of, frame}
use robinhood_chain_sequence.Consumer.Frames.{frame-ok}
use robinhood_chain_sequence.Consumer.Origin.{Content, FromAccepted, run_steps-FromAccepted}

-- One of the entries has `P`.
abbrev pub SomeEntry : (Entry → Type 0) → List Entry → Type 0
SomeEntry P [] = ⊥
SomeEntry P (e ∷ entries) = P e ⊎ SomeEntry P entries

-- `m` says what `e` says: its sequence number, its block hash, and its transactions or none.
pub record Says (chain : Option ℕ) (e : Entry) (m : FeedMessage) : Type 0 where
  pub seq : m.seq ≡ seq_of e
  pub block_hash : m.block_hash ≡ e.block_hash
  pub txs : (m.txs ≡ []) ⊎ (txs_of e.header chain e.l2_msg ≡ ok m.txs)

Says-Content :
    (chain : Option ℕ) (e : Entry) (m n : FeedMessage)
    → IsRead chain e n
    → Content m n
    → Says chain e m
Says-Content chain e m n read same = record {
  seq = same.seq ∙ read.seq;
  block_hash = same.block_hash ∙ read.block_hash;
  txs = rw same.txs read.txs;
}

module _ (config : Config) (accepts : Entry → Bool) where
  abbrev pub FromEntry : List Entry → FeedMessage → Type 0
  FromEntry entries m = SomeEntry (λ e. (accepts e ≡ true) × Says config.chain_id e m) entries

  FromAccepted-FromEntry :
      (entries : List Entry) (messages : List FeedMessage) (m : FeedMessage)
      → Aligned config.chain_id entries messages
      → FromAccepted (accepted_of config accepts entries) messages m
      → FromEntry entries m
  unfolding accepted_of
  FromAccepted-FromEntry [] messages m read from = from
  FromAccepted-FromEntry (e ∷ entries) [] m read from = absurd from
  FromAccepted-FromEntry (e ∷ entries) (n ∷ ns) m (read, later) (inl (good, same)) =
      inl (good, Says-Content config.chain_id e m n read same)
  FromAccepted-FromEntry (e ∷ entries) (n ∷ ns) m (read, later) (inr from) =
      inr (FromAccepted-FromEntry entries ns m later from)

  All-FromEntry :
      (entries : List Entry) (messages out : List FeedMessage)
      → Aligned config.chain_id entries messages
      → All (FromAccepted (accepted_of config accepts entries) messages) out
      → All (FromEntry entries) out
  All-FromEntry entries messages [] read from = tt
  All-FromEntry entries messages (m ∷ out) read (h, from) = (
    FromAccepted-FromEntry entries messages m read h,
    All-FromEntry entries messages out read from,
  )

  pub frame-FromEntry :
      (started : ℕ) (clock : ℕ → ℕ) (decode_backlog : Bool) (entries : List Entry) (c : Consumer)
      (r : Consumer × List FeedMessage)
      → frame config accepts started clock decode_backlog entries c ≡ ok r
      → All (FromEntry entries) r.1
  frame-FromEntry started clock decode_backlog entries c r h =
      let (first, messages, read, e) =
        frame-ok config accepts started clock decode_backlog entries c r h in
      rw (← e) (
        All-FromEntry entries messages _ read (
          run_steps-FromAccepted config.reorg_window first (accepted_of config accepts entries)
            messages c))

module _ (to_int : Json → Option ℤ) (keccak : Bytes → Bytes)
    (public_key : Bytes → Bytes → Option Bytes) (v : Verifier) (config : Config) where
  -- The message says what an entry says that carries a good signature by a listed signer.
  abbrev pub Vouched : List Entry → FeedMessage → Type 0
  Vouched entries m =
      SomeEntry (λ e. IsSigned to_int keccak public_key v e × Says config.chain_id e m) entries

  FromEntry-Vouched :
      (entries : List Entry) (m : FeedMessage)
      → FromEntry config (accepts to_int keccak public_key v) entries m
      → Vouched entries m
  FromEntry-Vouched [] m from = from
  FromEntry-Vouched (e ∷ entries) m (inl (good, says)) =
      inl (accepts-IsSigned to_int keccak public_key v e good, says)
  FromEntry-Vouched (e ∷ entries) m (inr from) = inr (FromEntry-Vouched entries m from)

  All-Vouched :
      (entries : List Entry) (out : List FeedMessage)
      → All (FromEntry config (accepts to_int keccak public_key v) entries) out
      → All (Vouched entries) out
  All-Vouched entries [] from = tt
  All-Vouched entries (m ∷ out) (h, from) =
      (FromEntry-Vouched entries m h, All-Vouched entries out from)

  -- With a verifier, every message that a frame yields says what one of the frame's entries says (its
  -- sequence number, its block hash, and the transactions of its payload or none), and that entry
  -- carries a signature from which the curve recovers, with the hash of the entry's payload for the
  -- verifier's chain, the key of an allowed signer.
  pub frame-Vouched :
      (started : ℕ) (clock : ℕ → ℕ) (decode_backlog : Bool) (entries : List Entry) (c : Consumer)
      (r : Consumer × List FeedMessage)
      → frame config (accepts to_int keccak public_key v) started clock decode_backlog entries c
        ≡ ok r
      → All (Vouched entries) r.1
  frame-Vouched started clock decode_backlog entries c r h = All-Vouched entries r.1 (
      frame-FromEntry config (accepts to_int keccak public_key v) started clock decode_backlog
        entries c r h)
