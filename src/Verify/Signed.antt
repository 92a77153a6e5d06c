-- ===== src/Verify/Signed.antt =====
-- What `Verifier.accepts` vouches for.
use robinhood_chain_sequence.Prelude.{
  ℕ, zero, suc, ◌+◌, ◌-◌, ◌≤◌, ◌≡◌, ◌⊎◌, refl, ap, ◌∙◌, arith, Bool-cases, inl, inr, true, Option,
  Option-cases, some, none, List, [], ◌∷◌, ◌++◌, ◌&&◌, Result, Result-cases, ok, err, >>=-eq-ok,
  length, take, drop, get_or, leb, ◌==◌, ==_iff,
}
use robinhood_chain_sequence.Prelude.Int.{ℤ}
use robinhood_chain_sequence.Bytes.Equality.{bytes_eq→eq}
use robinhood_chain_sequence.Bytes.{Bytes, bytes_eq}
use robinhood_chain_sequence.Hex.{Text}
use robinhood_chain_sequence.Base64.{b64decode}
use robinhood_chain_sequence.Tx.{last_20}
use robinhood_chain_sequence.ParentChain.{Json}
use robinhood_chain_sequence.Frame.{Entry}
use robinhood_chain_sequence.Verify.{
  signature_payload, signature_hash, normalised, decoded_signature, recover_from, recover_signer,
  Verifier, member, signer_of, accepts,
}

abbrev pub Listed : Bytes → List Bytes → Type 0
Listed x [] = ⊥
Listed x (s ∷ signers) = (s ≡ x) ⊎ Listed x signers

member-Listed : (x : Bytes) (signers : List Bytes) → member x signers ≡ true → Listed x signers
unfolding member
member-Listed x [] h = absurd (cc)
member-Listed x (s ∷ signers) h = elim (Bool-cases (bytes_eq s x)) [
  | inl same ↦ inl (bytes_eq→eq s x same)
  | inr differ ↦ inr (member-Listed x signers (rw differ at h))
]

-- Cutting 65 bytes behind the 64th leaves the last one.
take-64 : (n : ℕ) (sig : Bytes) → length sig ≡ suc n → sig ≡ take n sig ++ get_or sig n 0 ∷ []
take-64 n [] e = absurd (omega arith)
take-64 zero (b ∷ []) e = refl
take-64 zero (b ∷ c ∷ sig) e = absurd (omega arith)
take-64 (suc n) (b ∷ sig) e = ap (λ r. b ∷ r) (take-64 n sig (omega arith))

-- A signature of 65 bytes, and what the curve gets of it: the recovery byte is 0 to 3, written as it
-- is or with 27 added.
pub record Compact (sig s : Bytes) : Type 0 where
  pub size : length sig ≡ 65
  pub recovery : ℕ
  pub known : recovery ≤ 3
  pub read : (get_or sig 64 0 ≡ recovery) ⊎ (get_or sig 64 0 ≡ recovery + 27)
  pub passed : s ≡ take 64 sig ++ recovery ∷ []

normalised-Compact : (sig s : Bytes) → normalised sig ≡ some s → Compact sig s
unfolding normalised
normalised-Compact sig s h = elim (Bool-cases (length sig == 65)) [
  | inr other ↦ absurd (ground (arith, other))
  | inl whole ↦
      let size : length sig ≡ 65 = (==_iff _ 65).0 whole in
      let v : ℕ = get_or sig 64 0 in
      elim (Bool-cases (leb 27 v && leb v 30)) [
        | inl shifted ↦ record {
          size = size;
          recovery = v - 27;
          known = ground arith;
          read = inr (ground arith);
          passed = ground arith;
        }
        | inr plain ↦ record {
          size = size;
          recovery = v;
          known = ground arith;
          read = inl refl;
          passed = let same : s ≡ sig = ground (arith, plain) in same ∙ take-64 64 sig size;
        }
      ]
]

decoded_signature-some :
    (o : Option Text) (s : Bytes)
    → decoded_signature o ≡ some s
    → (encoded : Text) × (sig : Bytes) × (o ≡ some encoded)
      × (b64decode encoded ≡ ok sig)
      × (normalised sig ≡ some s)
unfolding decoded_signature
decoded_signature-some none s h = absurd (cc)
decoded_signature-some (some encoded) s h = elim (Bool-cases (length encoded == 0)) [
  | inl blank ↦ absurd (ground (arith, blank))
  | inr there ↦ elim (Result-cases (b64decode encoded)) [
    | inr (x, bad) ↦ absurd (ground (arith, there, bad))
    | inl (sig, read) ↦ (encoded, sig, refl, read, ground (arith, there, read))
  ]
]

module _ (to_int : Json → Option ℤ) (keccak : Bytes → Bytes)
    (public_key : Bytes → Bytes → Option Bytes) where
  -- The entry carries a signature of its own payload for the verifier's chain, by a listed signer.
  pub record IsSigned (v : Verifier) (e : Entry) : Type 0 where
    pub encoded : Text
    pub sig : Bytes
    pub compact : Bytes
    pub payload : Bytes
    pub key : Bytes
    pub carried : e.signature ≡ some encoded
    pub decoded : b64decode encoded ≡ ok sig
    pub recoverable : Compact sig compact
    pub signed : signature_payload to_int v.chain_id e ≡ ok payload
    pub recovered : public_key compact (keccak payload) ≡ some key
    pub listed : Listed (last_20 (keccak (drop 1 key))) v.signers

  recover_from-some :
      (s : Option Bytes) (digest : Result Bytes) (signer : Bytes)
      → recover_from to_int keccak public_key s digest ≡ some signer
      → (compact : Bytes) × (d : Bytes) × (key : Bytes) × (s ≡ some compact)
        × (digest ≡ ok d)
        × (public_key compact d ≡ some key)
        × (last_20 (keccak (drop 1 key)) ≡ signer)
  unfolding recover_from
  recover_from-some (some s) (ok d) signer h = elim (Option-cases (public_key s d)) [
    | inl none_found ↦ absurd (ground (arith, none_found))
    | inr (key, found) ↦ (s, d, key, refl, refl, found, ground (arith, found))
  ]
  recover_from-some (some s) (err e) signer h = absurd (cc)
  recover_from-some none digest signer h = absurd (cc)

  -- What the verifier accepts carries a signature in base64 of 65 bytes, whose last byte is 0 to
  -- 3 or 27 to 30, and from which, with the hash of the entry's own payload for the verifier's
  -- chain, the curve recovers a key whose address is one of the allowed signers.
  pub accepts-IsSigned :
      (v : Verifier) (e : Entry) → accepts to_int keccak public_key v e ≡ true → IsSigned v e
  unfolding accepts
  accepts-IsSigned v e h = elim (Option-cases (signer_of to_int keccak public_key v e)) [
    | inl nobody ↦ absurd (ground (arith, nobody))
    | inr (signer, found) ↦
        let (compact, digest, key, hs, hd, hk, address) =
          recover_from-some (decoded_signature e.signature)
            (signature_hash to_int keccak public_key v.chain_id e) signer
            (unfold signer_of recover_signer in found) in
        let (encoded, sig, carried, decoded, normal) =
          decoded_signature-some e.signature compact hs in
        let (payload, signed, hashed) =
          >>=-eq-ok (signature_payload to_int v.chain_id e) (λ p. ok (keccak p)) {b = digest}
            (unfold signature_hash in hd) in
        let vouched : member signer v.signers ≡ true = ground (arith, found) in
        record {
          encoded = encoded;
          sig = sig;
          compact = compact;
          payload = payload;
          key = key;
          carried = carried;
          decoded = decoded;
          recoverable = normalised-Compact sig compact normal;
          signed = signed;
          recovered = cc;
          listed = member-Listed _ v.signers (ap (λ a. member a v.signers) address ∙ vouched);
        }
  ]
