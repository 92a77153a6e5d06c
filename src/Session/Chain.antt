-- ===== src/Session/Chain.antt =====
-- The chain that a session is on: the one that its verifier checks.
use robinhood_chain_sequence.Prelude.{
  ℕ, ◌≡◌, ◌≢◌, ◌⊎◌, refl, ap, inl, inr, arith, Bool, Bool-cases, false, Option, Option-cases, none,
  some, List, [], ◌∷◌, Result, ok, err, ◌==◌, ==_iff,
}
use robinhood_chain_sequence.Prelude.Int.{ℤ}
use robinhood_chain_sequence.Bytes.{Bytes}
use robinhood_chain_sequence.Hex.{Text}
use robinhood_chain_sequence.ParentChain.{Json}
use robinhood_chain_sequence.Frame.{Entry, FeedMessage}
use robinhood_chain_sequence.Verify.{Verifier}
use robinhood_chain_sequence.Consumer.{Consumer}
use robinhood_chain_sequence.Session.{
  Settings, Session, reading, stopped, Step, opens, receives, fails, closes, Run, here, next, begin,
  on_open, on_failure, on_close, on_result, on_frame, check_chain, announced, announces_other,
  find_chain_id, known_chain_id, arrived,
}

-- The feed's own chain is the verifier's, or no chain is known for it.
abbrev pub Compatible : Text → Verifier → Type 0
Compatible url v = (known_chain_id url ≡ none) ⊎ (known_chain_id url ≡ some v.chain_id)

-- In a connection, the chain is the verifier's; before the first one it may be unknown.
abbrev pub OnChain : Verifier → Session → Type 0
OnChain v s = ((s.chain_id ≡ none) × (s.phase ≢ reading)) ⊎ (s.chain_id ≡ some v.chain_id)

module _ (int_of : Text → Option ℕ) where
  -- When no header names another chain, the first that names one names the verifier's.
  announced-announces_other :
      (chain_id : ℕ) (values : List Text)
      → announces_other int_of chain_id values ≡ false
      → (announced int_of values ≡ none) ⊎ (announced int_of values ≡ some chain_id)
  unfolding announced announces_other
  announced-announces_other chain_id [] h = inl refl
  announced-announces_other chain_id (value ∷ values) h = elim (Option-cases (int_of value)) [
    | inl unread ↦ rw unread (announced-announces_other chain_id values (ground (arith, unread)))
    | inr (n, found) ↦ elim (Bool-cases (n == chain_id)) [
      | inl same ↦ rw found (inr (ap some ((==_iff n chain_id).0 same)))
      | inr other ↦ absurd (ground (arith, found, other))
    ]
  ]

  find_chain_id_lem :
      (settings : Settings) (v : Verifier) (values : List Text)
      → settings.verify ≡ some v
      → Compatible settings.url v
      → check_chain int_of settings.verify values ≡ false
      → find_chain_id int_of settings values ≡ some v.chain_id
  unfolding find_chain_id check_chain
  find_chain_id_lem settings v values given fits h =
      let same : announces_other int_of v.chain_id values ≡ false = rw given at h in
      elim (announced-announces_other v.chain_id values same) [
        | inr named ↦ rw named refl
        | inl silent ↦ elim fits [
          | inl unknown ↦ rw (silent, unknown, given) refl
          | inr known ↦ rw (silent, known) refl
        ]
      ]

  on_open-OnChain :
      (settings : Settings) (v : Verifier) (values : List Text) (now mono : ℕ) (s : Session)
      → settings.verify ≡ some v
      → Compatible settings.url v
      → OnChain v s
      → OnChain v (on_open int_of settings values now mono s)
  unfolding on_open
  on_open-OnChain settings v values now mono s given fits (inr set) =
      elim (Bool-cases (check_chain int_of settings.verify values)) [
        | inl other ↦ rw other (inr set)
        | inr same ↦ rw same (inr (rw set refl))
      ]
  on_open-OnChain settings v values now mono s given fits (inl (unset, outside)) =
      elim (Bool-cases (check_chain int_of settings.verify values)) [
        | inl other ↦ rw other (inl (unset, cc))
        | inr same ↦ rw same (inr (rw unset (find_chain_id_lem settings v values given fits same)))
      ]

on_failure-OnChain :
    (settings : Settings) (v : Verifier) (s : Session)
    → OnChain v s
    → OnChain v (on_failure settings s)
unfolding on_failure
on_failure-OnChain settings v s (inl (unset, outside)) = inl (unset, λ e. cc)
on_failure-OnChain settings v s (inr set) = inr set

on_result-OnChain :
    (settings : Settings) (v : Verifier) (received mono : ℕ) (s : Session)
    (m : Result (Consumer × List FeedMessage))
    → OnChain v s
    → OnChain v (on_result settings received mono s m).0
unfolding on_result
on_result-OnChain settings v received mono s (err raised) h = on_failure-OnChain settings v s h
on_result-OnChain settings v received mono s (ok (c, out)) h = h

module _ (int_of : Text → Option ℕ) (to_int : Json → Option ℤ) (keccak : Bytes → Bytes)
    (public_key : Bytes → Bytes → Option Bytes) (settings : Settings) (decode_backlog : Bool) where
  on_frame-OnChain :
      (v : Verifier) (s : Session) (raw : Option (List Entry)) (clock : ℕ → ℕ) (received mono : ℕ)
      → OnChain v s
      → OnChain v
          (on_frame to_int keccak public_key settings decode_backlog raw clock received mono s).0
  unfolding on_frame arrived
  on_frame-OnChain v s none clock received mono h = on_failure-OnChain settings v (arrived mono s) h
  on_frame-OnChain v s (some entries) clock received mono h =
      on_result-OnChain settings v received mono (arrived mono s) _ h

  -- Nothing follows a WrongChain.
  pub Step-stopped :
      {s t : Session} {out : List FeedMessage}
      → Step int_of to_int keccak public_key settings decode_backlog s out t
      → s.phase ≢ stopped
  Step-stopped (opens s values now mono p) = λ e. cc
  Step-stopped (receives s raw clock received mono p) = λ e. cc
  Step-stopped (fails s p) = p
  Step-stopped (closes s p) = λ e. cc

  module _ (v : Verifier) (given : settings.verify ≡ some v)
      (fits : Compatible settings.url v) where
    Step-OnChain :
        {s t : Session} {out : List FeedMessage}
        → Step int_of to_int keccak public_key settings decode_backlog s out t
        → OnChain v s
        → OnChain v t
    Step-OnChain (opens s values now mono p) h =
        on_open-OnChain int_of settings v values now mono s given fits h
    Step-OnChain (receives s raw clock received mono p) h =
        on_frame-OnChain v s raw clock received mono h
    Step-OnChain (fails s p) h = on_failure-OnChain settings v s h
    Step-OnChain (closes s p) (inl (unset, outside)) = absurd (outside p)
    Step-OnChain (closes s p) (inr set) = unfold on_close in inr set

    pub Run-OnChain :
        {s t : Session} {out : List FeedMessage}
        → Run int_of to_int keccak public_key settings decode_backlog s out t
        → OnChain v s
        → OnChain v t
    Run-OnChain here h = h
    Run-OnChain (next r st) h = Step-OnChain st (Run-OnChain r h)

    -- With a verifier, a URL that is not known to be of another chain, and no chain id given to
    -- the consumer, the chain for which transactions are decoded is the one that the verifier
    -- checks, whenever a connection is open.
    pub Run-chain_id :
        {t : Session} {out : List FeedMessage} (c : Consumer)
        → Run int_of to_int keccak public_key settings decode_backlog (begin settings none c) out t
        → t.phase ≡ reading
        → t.chain_id ≡ some v.chain_id
    Run-chain_id c r open_now = elim (Run-OnChain r (inl (refl, λ e. cc))) [
      | inl (unset, outside) ↦ absurd (outside open_now)
      | inr set ↦ set
    ]
