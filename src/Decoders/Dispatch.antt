-- ===== src/Decoders/Dispatch.antt =====
-- `decode_call` over the table of decoders: the fuel of its model is enough.
use robinhood_chain_sequence.Prelude.{
  ℕ, zero, suc, ◌+◌, ◌-◌, ◌<◌, ◌≡◌, ◌∙◌, refl, sym, inl, inr, arith, Bool, Bool-cases, true, Option,
  Option-cases, none, some, List, [], ◌∷◌, ◌++◌, ◌||◌, ok, ◌>>=◌, All, take, ltb, ltb→lt, lt→ltb,
  ltb_false→le, if◌then◌else◌,
}
use robinhood_chain_sequence.Bytes.{Bytes, bytes_eq}
use robinhood_chain_sequence.Abi.{address, uint, dynamic}
use robinhood_chain_sequence.Intents.{
  max_depth, Call, inner, Intent, Decoder, decode_with, decode_nested, decode_call,
}
use robinhood_chain_sequence.Decoders.Erc20
use robinhood_chain_sequence.Decoders.Erc4337
use robinhood_chain_sequence.Decoders.Routers.{buy, exec, steps_swap}
use robinhood_chain_sequence.Decoders.Relay.{
  fill, sell, fill_permitted, sell_tokens, walk, executor_sweep, executor_deposit, first_token,
  or_address,
}
use robinhood_chain_sequence.Decoders.Uniswap.{single, path_call, v2, multicall, V2Layout}
use robinhood_chain_sequence.Decoders.UniversalRouter
use robinhood_chain_sequence.Decoders.Signatures.{Registration}
use robinhood_chain_sequence.Decoders.Registry.{Table, registrations, decoder_at, find, lookup}

-- The dispatch, which never looks at the depth that it is given.
abbrev at_depth : ℕ → (Call → ℕ → List Intent) → Call → ℕ → List Intent
at_depth depth again call n = again call depth

-- A decoder calls back one deeper than it is called, and no other way.
record IsLocal (d : Decoder) : Type 0 where
  local :
      (again : Call → ℕ → List Intent) (call : Call) (depth : ℕ)
      → d again call depth ≡ d (at_depth (depth + 1) again) call depth

erc20-IsLocal :
    IsLocal Erc20.transfer
    × IsLocal Erc20.transfer_from
    × IsLocal Erc20.approve
    × IsLocal Erc20.permit2_approve
unfolding Erc20.transfer Erc20.transfer_from Erc20.approve Erc20.permit2_approve
erc20-IsLocal = (
  record { local = λ again call depth. refl },
  record { local = λ again call depth. refl },
  record { local = λ again call depth. refl },
  record { local = λ again call depth. refl },
)

erc4337-IsLocal :
    IsLocal Erc4337.handle_ops
    × IsLocal Erc4337.execute
    × IsLocal Erc4337.execute_batch
    × IsLocal Erc4337.execute_batch_parallel
    × IsLocal Erc4337.execute_batch_no_values
unfolding Erc4337.handle_ops Erc4337.execute Erc4337.execute_batch Erc4337.execute_batch_parallel
    Erc4337.execute_batch_no_values
erc4337-IsLocal = (
  record { local = λ again call depth. refl },
  record { local = λ again call depth. refl },
  record { local = λ again call depth. refl },
  record { local = λ again call depth. refl },
  record { local = λ again call depth. refl },
)

walk-at_depth :
    (again : Call → ℕ → List Intent) (call : Call) (depth : ℕ) (found : List Intent)
    (named : Option Bytes) (calls : List Bytes)
    → walk again call depth found named calls
      ≡ walk (at_depth (depth + 1) again) call depth found named calls
unfolding walk
walk-at_depth again call depth found named [] = refl
walk-at_depth again call depth found named (c ∷ calls) = λ i. address c 0 >>= λ target.
    uint c 2 >>= λ value. dynamic c 3 >>= λ bs.
    let is_executor =
      bytes_eq (take 4 bs) executor_sweep || bytes_eq (take 4 bs) executor_deposit in
    let inside = again (inner call (some target) value bs none) (depth + 1) in
    (if is_executor then first_token bs else ok none) >>= λ token.
    walk-at_depth again call depth (if is_executor then found else found ++ inside)
      (or_address token named) calls i

fill_permitted_local :
    (again : Call → ℕ → List Intent) (call : Call) (depth : ℕ) (permitted : List Bytes)
    → fill_permitted again call depth permitted
      ≡ fill_permitted (at_depth (depth + 1) again) call depth permitted
unfolding fill_permitted
fill_permitted_local again call depth [] = refl
fill_permitted_local again call depth (p ∷ permitted) = simp (walk-at_depth again call depth) refl

sell_tokens_local :
    (again : Call → ℕ → List Intent) (call : Call) (depth : ℕ) (tokens amounts : List Bytes)
    → sell_tokens again call depth tokens amounts
      ≡ sell_tokens (at_depth (depth + 1) again) call depth tokens amounts
unfolding sell_tokens
sell_tokens_local again call depth (t ∷ tokens) (a ∷ amounts) =
    simp (walk-at_depth again call depth) refl
sell_tokens_local again call depth [] amounts = refl
sell_tokens_local again call depth (t ∷ tokens) [] = refl

relay-IsLocal : IsLocal fill × IsLocal sell
unfolding fill sell
relay-IsLocal = (
  record { local = λ again call depth. simp (fill_permitted_local again call depth) refl },
  record { local = λ again call depth. simp (sell_tokens_local again call depth) refl },
)

single-IsLocal : (r a b : ℕ) (exact_in : Bool) → IsLocal (single r a b exact_in)
unfolding single
single-IsLocal r a b exact_in = record { local = λ again call depth. refl }

path_call-IsLocal : (r a b : ℕ) (exact_in : Bool) → IsLocal (path_call r a b exact_in)
unfolding path_call
path_call-IsLocal r a b exact_in = record { local = λ again call depth. refl }

v2-IsLocal : (l : V2Layout) → IsLocal (v2 l)
unfolding v2
v2-IsLocal l = record { local = λ again call depth. refl }

multicall-IsLocal : (slot : ℕ) → IsLocal (multicall slot)
unfolding multicall
multicall-IsLocal slot = record { local = λ again call depth. refl }

routers-IsLocal :
    IsLocal buy
    × IsLocal steps_swap
    × IsLocal UniversalRouter.execute
    × ((settler : Bytes) → IsLocal (exec settler))
unfolding buy steps_swap UniversalRouter.execute exec
routers-IsLocal = (
  record { local = λ again call depth. refl },
  record { local = λ again call depth. refl },
  record { local = λ again call depth. refl },
  λ settler. record { local = λ again call depth. refl },
)

module _ (keccak : Bytes → Bytes) where
  registrations-IsLocal : All (λ r. IsLocal r.decoder) (registrations keccak)
  registrations-IsLocal =
      let (a1, a2, a3, a4) = erc20-IsLocal in
      let (b1, b2, b3, b4, b5) = erc4337-IsLocal in
      let (f, s) = relay-IsLocal in
      let (b, w, u, e) = routers-IsLocal in
      search (
        a1, a2, a3, a4, b1, b2, b3, b4, b5, f, s, b, w, u, e, single-IsLocal, path_call-IsLocal,
        v2-IsLocal, multicall-IsLocal,
      )

  decoder_at-IsLocal :
      (rs : List Registration) (id : ℕ) (d : Decoder)
      → All (λ r. IsLocal r.decoder) rs
      → decoder_at rs id ≡ some d
      → IsLocal d
  unfolding decoder_at
  decoder_at-IsLocal [] id d local h = absurd (cc)
  decoder_at-IsLocal (r ∷ rs) zero d (this, local) h =
      let same : r.decoder ≡ d = cc in rw (← same) this
  decoder_at-IsLocal (r ∷ rs) (suc id) d (this, local) h = decoder_at-IsLocal rs id d local h

  find-IsLocal :
      (table : Table) (selector : Bytes) (d : Decoder)
      → find keccak table selector ≡ some d
      → IsLocal d
  unfolding find
  find-IsLocal table selector d h = elim (Option-cases (lookup table selector)) [
    | inl unknown ↦ absurd (ground (arith, unknown))
    | inr (id, known) ↦
        decoder_at-IsLocal (registrations keccak) id d registrations-IsLocal (ground (arith, known))
  ]

-- Dispatches that agree one deeper decode a call alike.
decode_with-same :
    (find : Bytes → Option Decoder) (again again' : Call → ℕ → List Intent) (call : Call)
    (depth : ℕ)
    → ((d : Decoder) → find (take 4 call.calldata) ≡ some d → IsLocal d)
    → ((c : Call) → again c (depth + 1) ≡ again' c (depth + 1))
    → decode_with find again call depth ≡ decode_with find again' call depth
unfolding decode_with
decode_with-same find again again' call depth local agree =
    elim (Option-cases (find (take 4 call.calldata))) [
      | inl unknown ↦ rw unknown refl
      | inr (d, known) ↦
          let one = (local d known).local again call depth in
          let other = (local d known).local again' call depth in
          let both : d (at_depth (depth + 1) again) call depth
              ≡ d (at_depth (depth + 1) again') call depth =
            λ i. d (λ c n. agree c i) call depth in
          rw (known, one ∙ both ∙ sym other) refl
    ]

deep :
    (find : Bytes → Option Decoder) (again again' : Call → ℕ → List Intent) (call : Call)
    (depth : ℕ)
    → max_depth < depth
    → decode_with find again call depth ≡ decode_with find again' call depth
unfolding decode_with
deep find again again' call depth h =
    let past : ltb max_depth depth ≡ true = lt→ltb max_depth depth h in rw past refl

module _ (keccak : Bytes → Bytes) (table : Table) where
  -- Whatever the table, the dispatch is its own body, with itself for the calls inside.
  pub decode_call-decode_with :
      (call : Call) (depth : ℕ)
      → decode_call (find keccak table) call depth
        ≡ decode_with (find keccak table) (decode_call (find keccak table)) call depth
  unfolding decode_call decode_nested
  decode_call-decode_with call depth = elim (Bool-cases (ltb max_depth depth)) [
    | inl past ↦ deep (find keccak table) _ _ call depth (ltb→lt max_depth depth past)
    | inr within ↦
        let fuel : suc max_depth - depth ≡ suc (suc max_depth - (depth + 1)) =
          omega (arith, ltb_false→le max_depth depth within) in
        decode_with-same (find keccak table) _ _ call depth
          (find-IsLocal keccak table (take 4 call.calldata)) (λ c. rw fuel refl)
  ]
