-- ===== src/Consumer/Frames.antt =====
-- `_frame` as a whole: the messages that `parse_frame` makes, and the loop over them.
use robinhood_chain_sequence.Prelude.{
  ℕ, suc, ◌≡◌, refl, sym, ap, ◌∙◌, Bool, true, Option, List, [], ◌∷◌, ◌++◌, All, length, take, drop,
  take-append-drop, ok, >>=-eq-ok, if◌then◌else◌,
}
use robinhood_chain_sequence.Frame.{Entry, FeedMessage, parse_frame}
use robinhood_chain_sequence.Frame.Read.{
  Aligned, Aligned-append, length-Aligned, parse_frame-Aligned,
}
use mathlib.Core.Path.{subst}
use robinhood_chain_sequence.Consumer.{Config, Consumer, run_steps, accepted_of, first_live, frame}
use robinhood_chain_sequence.Consumer.Step.{IsFresh, RunLaws, run_steps-RunLaws}

Aligned-IsFresh :
    (chain : Option ℕ) (es : List Entry) (ms : List FeedMessage)
    → Aligned chain es ms
    → All IsFresh ms
Aligned-IsFresh chain [] [] a = tt
Aligned-IsFresh chain [] (m ∷ ms) a = absurd a
Aligned-IsFresh chain (e ∷ es) [] a = absurd a
Aligned-IsFresh chain (e ∷ es) (m ∷ ms) (h, a) = (h.fresh, Aligned-IsFresh chain es ms a)

module _ (config : Config) (accepts : Entry → Bool) where
  length-accepted_of :
      (entries : List Entry) → length (accepted_of config accepts entries) ≡ length entries
  unfolding accepted_of
  length-accepted_of [] = refl
  length-accepted_of (e ∷ entries) = ap suc (length-accepted_of entries)

  -- A frame that the decoder reads: the loop runs over one message for each entry.
  pub frame-ok :
      (started : ℕ) (clock : ℕ → ℕ) (decode_backlog : Bool) (entries : List Entry) (c : Consumer)
      (r : Consumer × List FeedMessage)
      → frame config accepts started clock decode_backlog entries c ≡ ok r
      → (first : ℕ) × (messages : List FeedMessage) × Aligned config.chain_id entries messages
        × (run_steps config.reorg_window first (accepted_of config accepts entries) messages c ≡ r)
  unfolding frame
  frame-ok started clock decode_backlog entries c r h =
      let first : ℕ = if c.is_live then 0 else first_live config accepts started clock entries in
      let chain : Option ℕ = config.chain_id in
      let (backlog, hb, h') =
        >>=-eq-ok (parse_frame (take first entries) decode_backlog chain) _ h in
      let (current, hc, h'') = >>=-eq-ok (parse_frame (drop first entries) true chain) _ h' in
      let read : Aligned chain (take first entries ++ drop first entries) (backlog ++ current) =
        Aligned-append chain (take first entries) (drop first entries) backlog current
          (parse_frame-Aligned decode_backlog chain (take first entries) backlog hb)
          (parse_frame-Aligned true chain (drop first entries) current hc) in
      (
        first,
        backlog ++ current,
        subst (λ es. Aligned chain es (backlog ++ current)) (take-append-drop first entries) read,
        cc,
      )

  -- A frame that the decoder reads counts each of its entries exactly once: as backlog, live,
  -- duplicate or unverified. As many messages are yielded as are counted for backlog or live.
  -- Each one that is yielded is past the watermark, or is marked as a reorg and is not past it;
  -- and the watermark ends at the last one.
  pub frame-RunLaws :
      (started : ℕ) (clock : ℕ → ℕ) (decode_backlog : Bool) (entries : List Entry) (c : Consumer)
      (r : Consumer × List FeedMessage)
      → frame config accepts started clock decode_backlog entries c ≡ ok r
      → RunLaws c (length entries) r
  frame-RunLaws started clock decode_backlog entries c r h =
      let (first, messages, read, e) = frame-ok started clock decode_backlog entries c r h in
      let count = length-Aligned config.chain_id entries messages read in
      rw (← e, ← count)
        (run_steps-RunLaws config.reorg_window first (accepted_of config accepts entries) messages c
          (length-accepted_of entries ∙ sym count)
          (Aligned-IsFresh config.chain_id entries messages read))
