-- ===== src/Decoders/Rules.antt =====
-- `decode_call` of intents.py as rules, one for each of its exits, without fuel.
use mathlib.Core.Path.{subst}
use robinhood_chain_sequence.Prelude.{
  ℕ, ◌≤◌, ◌<◌, ◌≡◌, ◌↔◌, refl, sym, ap, ◌∙◌, arith, Bool-cases, Option-cases, none, some, inl, inr,
  List, [], Result, Outcome, returns, raises, ok, err, malformed, All, ltb, ltb→lt, lt→ltb,
  ltb_false→le, le→ltb_false, length, take,
}
use robinhood_chain_sequence.Bytes.{Bytes}
use robinhood_chain_sequence.Intents.{Call, Intent, Decoder, or_silent, decode_with, decode_call}
use robinhood_chain_sequence.Abi.Malformed.{IsMalformed}
use robinhood_chain_sequence.Decoders.Registry.{Table, find}
use robinhood_chain_sequence.Decoders.Sound.{Sound}
use robinhood_chain_sequence.Decoders.Sound.Table.{find-Malformed}
use robinhood_chain_sequence.Decoders.Dispatch.{decode_call-decode_with}

module _ (keccak : Bytes → Bytes) (table : Table) where
  -- What a call at a depth decodes to, where the calls inside are decoded by `decode_call`.
  pub data Decoded (call : Call) (depth : ℕ) : List Intent → Type 0 where
    too_deep : 8 < depth → Decoded call depth []
    too_short : length call.calldata < 4 → Decoded call depth []
    unknown : find keccak table (take 4 call.calldata) ≡ none → Decoded call depth []
    refused :
        (d : Decoder)
        → depth ≤ 8
        → 4 ≤ length call.calldata
        → find keccak table (take 4 call.calldata) ≡ some d
        → d (decode_call (find keccak table)) call depth ≡ err malformed
        → Decoded call depth []
    decoded :
        (d : Decoder) (intents : List Intent)
        → depth ≤ 8
        → 4 ≤ length call.calldata
        → find keccak table (take 4 call.calldata) ≡ some d
        → d (decode_call (find keccak table)) call depth ≡ ok intents
        → Decoded call depth intents

  -- The decoder of a call that is neither too deep nor too short.
  decoder_runs :
      (call : Call) (depth : ℕ) (d : Decoder)
      → depth ≤ 8
      → 4 ≤ length call.calldata
      → find keccak table (take 4 call.calldata) ≡ some d
      → decode_call (find keccak table) call depth
        ≡ or_silent (d (decode_call (find keccak table)) call depth)
  decoder_runs call depth d shallow long known =
      let deep = le→ltb_false 8 depth shallow in
      let short = le→ltb_false (length call.calldata) 4 long in
      decode_call-decode_with keccak table call depth
      ∙ unfold decode_with in rw (deep, short, known) refl

  Decoded-decode_call :
      (call : Call) (depth : ℕ) (intents : List Intent)
      → Decoded call depth intents
      → decode_call (find keccak table) call depth ≡ intents
  unfolding decode_with or_silent
  Decoded-decode_call call depth intents (too_deep h) =
      let deep = lt→ltb 8 depth h in decode_call-decode_with keccak table call depth ∙ rw deep refl
  Decoded-decode_call call depth intents (too_short h) =
      let short = lt→ltb (length call.calldata) 4 h in
      decode_call-decode_with keccak table call depth ∙ ground (arith, short)
  Decoded-decode_call call depth intents (unknown h) =
      decode_call-decode_with keccak table call depth ∙ ground (arith, h)
  Decoded-decode_call call depth intents (refused d shallow long known raised) =
      decoder_runs call depth d shallow long known ∙ ap or_silent raised
  Decoded-decode_call call depth intents (decoded d found shallow long known runs) =
      decoder_runs call depth d shallow long known ∙ ap or_silent runs

  ending :
      (call : Call) (depth : ℕ) (d : Decoder) (r : Result (List Intent))
      → depth ≤ 8
      → 4 ≤ length call.calldata
      → find keccak table (take 4 call.calldata) ≡ some d
      → d (decode_call (find keccak table)) call depth ≡ r
      → Outcome IsMalformed (All (Sound call)) r
      → Decoded call depth (or_silent r)
  unfolding or_silent
  ending call depth d r shallow long known runs (returns found sound) =
      decoded d found shallow long known runs
  ending call depth d r shallow long known runs (raises e same) =
      refused d shallow long known (runs ∙ ap err same)

  decode_call-runs :
      (call : Call) (depth : ℕ) → Decoded call depth (decode_call (find keccak table) call depth)
  decode_call-runs call depth = elim (Bool-cases (ltb 8 depth)) [
    | inl deep ↦
        let rule : Decoded call depth [] = too_deep (ltb→lt 8 depth deep) in
        subst (Decoded call depth) (sym (Decoded-decode_call call depth [] rule)) rule
    | inr shallow ↦ elim (Bool-cases (ltb (length call.calldata) 4)) [
      | inl short ↦
          let rule : Decoded call depth [] = too_short (ltb→lt (length call.calldata) 4 short) in
          subst (Decoded call depth) (sym (Decoded-decode_call call depth [] rule)) rule
      | inr long ↦ elim (Option-cases (find keccak table (take 4 call.calldata))) [
        | inl missing ↦
            let rule : Decoded call depth [] = unknown missing in
            subst (Decoded call depth) (sym (Decoded-decode_call call depth [] rule)) rule
        | inr (d, known) ↦
            let within = ltb_false→le 8 depth shallow in
            let enough = ltb_false→le (length call.calldata) 4 long in
            subst (Decoded call depth) (sym (decoder_runs call depth d within enough known)) (
              ending call depth d _ within enough known refl
                (find-Malformed keccak table (take 4 call.calldata) d call depth known))
      ]
    ]
  ]

  -- With the decoders of the program, whatever the table, `decode_call` returns just what its rules
  -- give. A call past depth 8, one with less than 4 bytes of calldata and one with a selector that the
  -- table does not find give nothing. Any other call gives what the decoder that is found returns,
  -- with `decode_call` itself for the calls inside, or nothing where that raises `Malformed`, and no
  -- decoder raises anything else. The fuel of the model shows nowhere.
  pub decode_call-Decoded :
      (call : Call) (depth : ℕ) (intents : List Intent)
      → (decode_call (find keccak table) call depth ≡ intents) ↔ Decoded call depth intents
  decode_call-Decoded call depth intents = (
    λ e. subst (Decoded call depth) e (decode_call-runs call depth),
    Decoded-decode_call call depth intents,
  )
