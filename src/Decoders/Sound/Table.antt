-- ===== src/Decoders/Sound/Table.antt =====
-- The whole table of decoders: what `decode_call` and `decode_intents` promise, and what a decoder of
-- the table raises.
use robinhood_chain_sequence.Prelude.{
  ℕ, zero, suc, ◌+◌, ◌-◌, ◌≡◌, refl, arith, true, Option-cases, some, List, [], ◌∷◌, ◌||◌, Result,
  Outcome, Outcome-bind, returns, raises, All, Bool-cases, inl, inr, ltb, length, take,
}
use robinhood_chain_sequence.Bytes.{Bytes}
use robinhood_chain_sequence.Intents.{
  Call, Intent, Decoder, inner, max_depth, or_silent, decode_with, decode_nested, decode_call,
}
use robinhood_chain_sequence.Abi.Malformed.{
  IsMalformed, Outcome-collect, address-Malformed, dynamic-Malformed, tuple_array-Malformed,
}
use robinhood_chain_sequence.Decoders.Erc4337.{handle_ops}
use robinhood_chain_sequence.Decoders.Signatures.{Registration}
use robinhood_chain_sequence.Decoders.Registry.{Table, registrations, decoder_at, find, lookup}
use robinhood_chain_sequence.Decoders.Dispatch.{decode_call-decode_with}
use robinhood_chain_sequence.Decoders.Sound.{
  Sound, IsSound, Keeps, is_claimed, erc20-IsSound, erc4337-IsSound,
}
use robinhood_chain_sequence.Decoders.Sound.Swaps.{
  single-IsSound, path_call-IsSound, v2-IsSound, multicall-IsSound, buy-IsSound, exec-IsSound,
  steps_swap-IsSound,
}
use robinhood_chain_sequence.Decoders.Sound.Commands.{universal_router-IsSound}
use robinhood_chain_sequence.Decoders.Sound.Solver.{relay-IsSound}

or_silent-All {ℓ} :
    {P : Intent → Type ℓ} (m : Result (List Intent))
    → Outcome IsMalformed (All P) m
    → All P (or_silent m)
unfolding or_silent
or_silent-All m (returns found h) = h
or_silent-All m (raises e h) = tt

module _ (keccak : Bytes → Bytes) where
  registrations-IsSound : All (λ r. IsSound r.decoder) (registrations keccak)
  registrations-IsSound =
      let (a1, a2, a3, a4) = erc20-IsSound in
      let (b1, b2, b3, b4, b5) = erc4337-IsSound in
      let (f, s) = relay-IsSound in
      search (
        a1, a2, a3, a4, b1, b2, b3, b4, b5, f, s, buy-IsSound, steps_swap-IsSound,
        universal_router-IsSound, exec-IsSound, single-IsSound, path_call-IsSound, v2-IsSound,
        multicall-IsSound,
      )

  decoder_at-IsSound :
      (rs : List Registration) (id : ℕ) (d : Decoder)
      → All (λ r. IsSound r.decoder) rs
      → decoder_at rs id ≡ some d
      → IsSound d
  unfolding decoder_at
  decoder_at-IsSound [] id d sound h = absurd (cc)
  decoder_at-IsSound (r ∷ rs) zero d (this, sound) h =
      let same : r.decoder ≡ d = cc in rw (← same) this
  decoder_at-IsSound (r ∷ rs) (suc id) d (this, sound) h = decoder_at-IsSound rs id d sound h

  module _ (table : Table) where
    find-IsSound :
        (selector : Bytes) (d : Decoder) → find keccak table selector ≡ some d → IsSound d
    unfolding find
    find-IsSound selector d h = elim (Option-cases (lookup table selector)) [
      | inl unknown ↦ absurd (ground (arith, unknown))
      | inr (id, known) ↦
          decoder_at-IsSound (registrations keccak) id d registrations-IsSound
            (ground (arith, known))
    ]

    decode_with-Sound :
        (again : Call → ℕ → List Intent) (call : Call) (depth : ℕ)
        → Keeps again
        → All (Sound call) (decode_with (find keccak table) again call depth)
    unfolding decode_with
    decode_with-Sound again call depth keeps =
        elim (Bool-cases (ltb max_depth depth || ltb (length call.calldata) 4)) [
          | inl stop ↦ rw stop tt
          | inr go ↦ elim (Option-cases (find keccak table (take 4 call.calldata))) [
            | inl unknown ↦ rw (go, unknown) tt
            | inr (d, known) ↦
                let sound = (find-IsSound (take 4 call.calldata) d known).sound in
                rw (go, known) (or_silent-All _ (sound again call depth keeps))
          ]
        ]

    decode_nested-Sound : (fuel : ℕ) → Keeps (decode_nested (find keccak table) fuel)
    unfolding decode_nested
    decode_nested-Sound zero call depth = tt
    decode_nested-Sound (suc fuel) call depth =
        decode_with-Sound _ call depth (decode_nested-Sound fuel)

    -- What `decode_call` returns with the decoders of the program, for any call and whatever the
    -- table: of every intent, the path begins with the path of the call; if the call names an actor
    -- the intent names one; and if the addresses of the call have 20 bytes, the actor, the payer, the
    -- tokens, the recipient and every contract of the path of the intent have 20 bytes, where they are
    -- there, and its order id has 32.
    pub decode_call-Sound :
        (call : Call) (depth : ℕ) → All (Sound call) (decode_call (find keccak table) call depth)
    unfolding decode_call
    decode_call-Sound call depth = decode_nested-Sound (suc (suc max_depth - depth)) call depth

    -- A decoder that the table finds, run on any call with `decode_call` for the calls inside, either
    -- returns intents that keep the promise of `Sound`, or raises `Malformed`, the one exception that
    -- `decode_call` catches: it raises nothing else.
    pub find-Malformed :
        (selector : Bytes) (d : Decoder) (call : Call) (depth : ℕ)
        → find keccak table selector ≡ some d
        → Outcome IsMalformed (All (Sound call)) (d (decode_call (find keccak table)) call depth)
    find-Malformed selector d call depth found =
        (find-IsSound selector d found).sound _ call depth decode_call-Sound

    -- An intent inside a call that names an actor names one.
    All-claimed :
        (call : Call) (is : List Intent)
        → is_claimed call.actor ≡ true
        → All (Sound call) is
        → All (λ i. is_claimed i.actor ≡ true) is
    All-claimed call [] named h = tt
    All-claimed call (i ∷ is) named (s, h) = (s.claims named, All-claimed call is named h)

    handle_ops-claimed :
        (call : Call) (depth : ℕ)
        → Outcome IsMalformed
            (All (λ i. is_claimed i.actor ≡ true))
            (handle_ops (decode_call (find keccak table)) call depth)
    unfolding handle_ops inner
    handle_ops-claimed call depth = Outcome-bind _ _ (tuple_array-Malformed _ 0) (λ ops _.
        Outcome-collect _ ops (λ op. Outcome-bind _ _ (address-Malformed op 0) (λ wallet size.
          Outcome-bind _ _ (dynamic-Malformed op 3) (λ bs _. returns _ (
            All-claimed _ _ refl
              (decode_call-Sound (inner call (some wallet) 0 bs (some wallet)) (depth + 1)))))))

    -- Every intent of an ERC-4337 bundle names an actor: where the selector of a call is that of
    -- `handleOps`, whether the call names an actor or not, no intent that `decode_call` returns is
    -- without one.
    pub decode_call-claimed :
        (call : Call) (depth : ℕ)
        → find keccak table (take 4 call.calldata) ≡ some handle_ops
        → All (λ i. is_claimed i.actor ≡ true) (decode_call (find keccak table) call depth)
    decode_call-claimed call depth bundle =
        rw (decode_call-decode_with keccak table call depth)
          (elim (Bool-cases (ltb max_depth depth || ltb (length call.calldata) 4)) [
            | inl stop ↦ unfold decode_with in rw stop tt
            | inr go ↦
                unfold decode_with in
                rw (go, bundle) (or_silent-All _ (handle_ops-claimed call depth))
          ])
