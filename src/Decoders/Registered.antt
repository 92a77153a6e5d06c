-- ===== src/Decoders/Registered.antt =====
-- The table of decoders answers every signature that was registered.
use robinhood_chain_sequence.Prelude.{
  ℕ, suc, ◌+◌, ◌≡◌, ◌∙◌, refl, sym, ap, inl, inr, arith, Bool-cases, Option, none, some, List, [],
  ◌∷◌, ◌++◌, ok, value_error, Outcome, Outcome-bind, Outcome-map, AnyError, returns, raises,
  Outcome-eq-ok, >>=-Outcome, All, ◌==◌, ==_iff,
}
use robinhood_chain_sequence.Bytes.Equality.{bytes_eq_refl}
use robinhood_chain_sequence.Bytes.{Bytes}
use robinhood_chain_sequence.Hex.{Text}
use robinhood_chain_sequence.Intents.{Decoder}
use robinhood_chain_sequence.Decoders.Signatures.{Registration}
use robinhood_chain_sequence.Decoders.Registry.{
  Table, lookup, put, put_found, decoder_at, selector_for, register, registrations, register_all,
  load, find,
}

-- What was in the table is answered as before.
abbrev Keeps : Table → Table → Type 0
Keeps table t = (x : Bytes) (j : ℕ) → lookup table x ≡ some j → lookup t x ≡ some j

lookup-append : (table : Table) (s : Bytes) (id : ℕ) → Keeps table (table ++ (s, id) ∷ [])
unfolding lookup
lookup-append [] s id x j h = absurd (cc)
lookup-append ((s', id') ∷ table) s id x j h =
    let later = lookup-append table s id x j in ground (arith, later)

lookup_new :
    (table : Table) (s : Bytes) (id : ℕ)
    → lookup table s ≡ none
    → lookup (table ++ (s, id) ∷ []) s ≡ some id
unfolding lookup
lookup_new [] s id h = rw (bytes_eq_refl s) refl
lookup_new ((s', id') ∷ table) s id h = let later = lookup_new table s id in ground (arith, later)

-- The selector is the decoder's now, and what was there is kept.
abbrev Puts : Table → Bytes → ℕ → Table → Type 0
Puts table s id t = Keeps table t × (lookup t s ≡ some id)

put_found-Outcome :
    (table : Table) (s : Bytes) (id : ℕ) (o : Option ℕ)
    → lookup table s ≡ o
    → Outcome AnyError (Puts table s id) (put_found table s id o)
unfolding put_found
put_found-Outcome table s id none h = returns _ (lookup-append table s id, lookup_new table s id h)
put_found-Outcome table s id (some found) h = elim (Bool-cases (found == id)) [
  | inl same ↦
      let equal : found ≡ id = (==_iff found id).0 same in
      rw same (returns table (λ x j kept. kept, h ∙ ap some equal))
  | inr other ↦ rw other (raises value_error tt)
]

module _ (keccak : Bytes → Bytes) where
  abbrev Answers : Table → ℕ → Text → Type 0
  Answers t id signature =
      (s : Bytes) × (selector_for keccak signature ≡ ok s) × (lookup t s ≡ some id)

  Answers-Keeps :
      (table t : Table) (id : ℕ) (signatures : List Text)
      → Keeps table t
      → All (Answers table id) signatures
      → All (Answers t id) signatures
  Answers-Keeps table t id [] keeps h = tt
  Answers-Keeps table t id (signature ∷ signatures) keeps ((s, read, found), h) =
      ((s, read, keeps s id found), Answers-Keeps table t id signatures keeps h)

  register-Outcome :
      (signatures : List Text) (id : ℕ) (table : Table)
      → Outcome AnyError
          (λ t. Keeps table t × All (Answers t id) signatures)
          (register keccak signatures id table)
  unfolding register put
  register-Outcome [] id table = returns table (λ x j kept. kept, tt)
  register-Outcome (signature ∷ signatures) id table =
      >>=-Outcome (selector_for keccak signature) _ (λ s read.
        Outcome-bind _ _ (put_found-Outcome table s id (lookup table s) refl)
          (λ grown (keeps, found).
            Outcome-map _ (register-Outcome signatures id grown) (λ t (later, all).
              (λ x j kept. later x j (keeps x j kept), ((s, read, later s id found), all)))))

  -- The registrations, from the place `id` on.
  abbrev Placed : Table → List Registration → ℕ → Type 0
  Placed t [] id = Unit
  Placed t (r ∷ rs) id = All (Answers t id) r.signatures × Placed t rs (suc id)

  register_all-Outcome :
      (rs : List Registration) (id : ℕ) (table : Table)
      → Outcome AnyError (λ t. Keeps table t × Placed t rs id) (register_all keccak rs id table)
  unfolding register_all
  register_all-Outcome [] id table = returns table (λ x j kept. kept, tt)
  register_all-Outcome (r ∷ rs) id table =
      Outcome-bind _ _ (register-Outcome r.signatures id table) (λ grown (keeps, these).
        Outcome-map _ (register_all-Outcome rs (suc id) grown) (λ t (later, rest). (
          λ x j kept. later x j (keeps x j kept),
          (Answers-Keeps grown t id r.signatures later these, rest),
        )))

  -- Each signature of the registration finds its decoder.
  abbrev pub Finds : Table → Registration → Type 0
  Finds table r =
      All
        (λ signature.
          (s : Bytes) × (selector_for keccak signature ≡ ok s)
          × (find keccak table s ≡ some r.decoder))
        r.signatures

  Answers-Finds :
      (table : Table) (id : ℕ) (d : Decoder) (signatures : List Text)
      → decoder_at (registrations keccak) id ≡ some d
      → All (Answers table id) signatures
      → Finds table (record { signatures = signatures; decoder = d })
  unfolding find
  Answers-Finds table id d [] place h = tt
  Answers-Finds table id d (signature ∷ signatures) place ((s, read, found), h) =
      ((s, read, ground (arith, found, place)), Answers-Finds table id d signatures place h)

  Placed-Finds :
      (table : Table) (rs : List Registration) (id : ℕ)
      → ((k : ℕ) → decoder_at (registrations keccak) (id + k) ≡ decoder_at rs k)
      → Placed table rs id
      → All (Finds table) rs
  unfolding decoder_at
  Placed-Finds table [] id place h = tt
  Placed-Finds table (r ∷ rs) id place (these, rest) =
      let here : id + 0 ≡ id = omega arith in
      (
        Answers-Finds table id r.decoder r.signatures
            (ap (decoder_at (registrations keccak)) (sym here) ∙ place 0) these,
        Placed-Finds table rs (suc id)
            (λ k.
              let next : suc id + k ≡ id + suc k = omega arith in
              ap (decoder_at (registrations keccak)) next ∙ place (suc k))
            rest,
      )

  -- Where importing the decoders succeeds, every signature that a decoder was registered under
  -- has a selector, and under that selector the table has that decoder.
  pub load-Finds :
      (table : Table) → load keccak ≡ ok table → All (Finds table) (registrations keccak)
  unfolding load
  load-Finds table h =
      let (kept, placed) =
        Outcome-eq-ok (load keccak) table (register_all-Outcome (registrations keccak) 0 []) h in
      Placed-Finds table (registrations keccak) 0
        (λ k. ap (decoder_at (registrations keccak)) (omega arith)) placed
