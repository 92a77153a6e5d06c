-- ===== src/Session/Verified.antt =====
-- A session with a verifier, from the handshake to the messages.
use robinhood_chain_sequence.Prelude.{
  ℕ, ◌≡◌, refl, inl, inr, Bool, Option, none, some, List, [], ◌∷◌, map, All, All-append, Result, ok,
  err,
}
use robinhood_chain_sequence.Prelude.Int.{ℤ}
use robinhood_chain_sequence.Bytes.{Bytes}
use robinhood_chain_sequence.Hex.{Text}
use robinhood_chain_sequence.ParentChain.{Json}
use robinhood_chain_sequence.Frame.{Entry, FeedMessage}
use robinhood_chain_sequence.Verify.{Verifier}
use robinhood_chain_sequence.Verify.Signed.{IsSigned}
use robinhood_chain_sequence.Consumer.{Consumer, frame}
use robinhood_chain_sequence.Consumer.Verified.{Says, Vouched, frame-Vouched}
use robinhood_chain_sequence.Session.{
  Settings, Session, Step, opens, receives, fails, closes, Run, here, next, begin, stamp, on_result,
  on_frame, arrived, trusts, config_of,
}
use robinhood_chain_sequence.Session.Chain.{Compatible, OnChain, Run-OnChain}

module _ (to_int : Json → Option ℤ) (keccak : Bytes → Bytes)
    (public_key : Bytes → Bytes → Option Bytes) (v : Verifier) where
  -- The message says what some entry says that a listed signer signed, for the verifier's chain.
  abbrev pub FromSigned : FeedMessage → Type 0
  FromSigned m = (e : Entry) × IsSigned to_int keccak public_key v e × Says (some v.chain_id) e m

  Vouched-FromSigned :
      (settings : Settings) (entries : List Entry) (m : FeedMessage)
      → Vouched to_int keccak public_key v (config_of settings (some v.chain_id)) entries m
      → FromSigned m
  Vouched-FromSigned settings [] m from = absurd from
  Vouched-FromSigned settings (e ∷ entries) m (inl (signed, says)) = (e, signed, says)
  Vouched-FromSigned settings (e ∷ entries) m (inr later) =
      Vouched-FromSigned settings entries m later

  All-FromSigned :
      (settings : Settings) (entries : List Entry) (out : List FeedMessage)
      → All (Vouched to_int keccak public_key v (config_of settings (some v.chain_id)) entries) out
      → All FromSigned out
  All-FromSigned settings entries [] h = tt
  All-FromSigned settings entries (m ∷ out) (from, h) =
      (Vouched-FromSigned settings entries m from, All-FromSigned settings entries out h)

  All-stamp :
      (received mono : ℕ) (out : List FeedMessage)
      → All FromSigned out
      → All FromSigned (map (stamp received mono) out)
  All-stamp received mono [] h = tt
  All-stamp received mono (m ∷ out) ((e, signed, says), h) = (
    (e, signed, record { seq = says.seq; block_hash = says.block_hash; txs = says.txs }),
    All-stamp received mono out h,
  )

  on_result-FromSigned :
      (settings : Settings) (received mono : ℕ) (s : Session)
      (m : Result (Consumer × List FeedMessage))
      → ((r : Consumer × List FeedMessage) → m ≡ ok r → All FromSigned r.1)
      → All FromSigned (on_result settings received mono s m).1
  unfolding on_result
  on_result-FromSigned settings received mono s (err raised) h = tt
  on_result-FromSigned settings received mono s (ok (c, out)) h =
      All-stamp received mono out (h (c, out) refl)

  module _ (settings : Settings) (decode_backlog : Bool) (given : settings.verify ≡ some v) where
    frame-FromSigned :
        (chain : Option ℕ) (started : ℕ) (clock : ℕ → ℕ) (entries : List Entry) (c : Consumer)
        (r : Consumer × List FeedMessage)
        → chain ≡ some v.chain_id
        → frame
            (config_of settings chain)
            (trusts to_int keccak public_key settings.verify)
            started
            clock
            decode_backlog
            entries
            c
          ≡ ok r
        → All FromSigned r.1
    unfolding trusts
    frame-FromSigned chain started clock entries c r same h = All-FromSigned settings entries r.1 (
        frame-Vouched to_int keccak public_key v (config_of settings (some v.chain_id)) started
          clock decode_backlog entries c r (rw (given, same) at h))

    on_frame-FromSigned :
        (s : Session) (raw : Option (List Entry)) (clock : ℕ → ℕ) (received mono : ℕ)
        → s.chain_id ≡ some v.chain_id
        → All FromSigned
            (on_frame to_int keccak public_key settings decode_backlog raw clock received mono s).1
    unfolding on_frame
    on_frame-FromSigned s none clock received mono same = tt
    on_frame-FromSigned s (some entries) clock received mono same =
        on_result-FromSigned settings received mono (arrived mono s) _ (λ r h.
          frame-FromSigned s.chain_id s.started clock entries (arrived mono s).consumer r same h)

    module _ (int_of : Text → Option ℕ) (fits : Compatible settings.url v) where
      Step-FromSigned :
          {s t : Session} {out : List FeedMessage}
          → Step int_of to_int keccak public_key settings decode_backlog s out t
          → OnChain v s
          → All FromSigned out
      Step-FromSigned (opens s values now mono p) on = tt
      Step-FromSigned (receives s raw clock received mono p) (inl (unset, outside)) =
          absurd (outside p)
      Step-FromSigned (receives s raw clock received mono p) (inr set) =
          on_frame-FromSigned s raw clock received mono set
      Step-FromSigned (fails s p) on = tt
      Step-FromSigned (closes s p) on = tt

      Run-Step-FromSigned :
          {s t : Session} {out : List FeedMessage}
          → Run int_of to_int keccak public_key settings decode_backlog s out t
          → OnChain v s
          → All FromSigned out
      Run-Step-FromSigned here on = tt
      Run-Step-FromSigned (next {out = out} {more = more} r st) on =
          All-append FromSigned out more (Run-Step-FromSigned r on) (
            Step-FromSigned st (
              Run-OnChain int_of to_int keccak public_key settings decode_backlog v given fits r
                on))

      -- From the first connection on, over reconnects and whatever the feed sends: with a
      -- verifier, a URL that is not known to be of another chain, and no chain id given to the
      -- consumer, every message that is yielded says what an entry says (its sequence number, its
      -- block hash, and the transactions of its payload, read for the verifier's chain, or none),
      -- and that entry carries a signature from which the curve recovers, with the hash of the
      -- entry's payload for the verifier's chain, the key of an allowed signer.
      pub Run-FromSigned :
          {t : Session} {out : List FeedMessage} (c : Consumer)
          → Run int_of to_int keccak public_key settings decode_backlog
              (begin settings none c)
              out
              t
          → All FromSigned out
      Run-FromSigned c r = Run-Step-FromSigned r (inl (refl, λ e. cc))
