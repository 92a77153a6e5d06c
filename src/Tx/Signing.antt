-- ===== src/Tx/Signing.antt =====
-- `_recover` rebuilds the signed message from the offsets: it is the message of EIP-155, of the
-- older legacy scheme, or of EIP-2718, encoded anew from the fields.
use robinhood_chain_sequence.Prelude.{
  ℕ, suc, ◌+◌, ◌-◌, ◌*◌, ◌/◌, ◌%◌, ◌<◌, ◌≤◌, ◌≡◌, ◌≢◌, refl, ap, ◌∙◌, arith, List, [], ◌∷◌, ◌++◌,
  length, length-append, get_or, slice, take-append, get_or-append_at, append_assoc, le→ltb_false,
  le→leb, Option, some,
}
use robinhood_chain_sequence.Bytes.{Bytes, from_bytes, rjust}
use robinhood_chain_sequence.Rlp.{Item, rlp_list, rlp_bytes, rlp_uint}
use robinhood_chain_sequence.Rlp.Uint.{minimal, rlp_uint-minimal}
use robinhood_chain_sequence.Rlp.Fields.{
  Field, string, encode_all, payloads, list_of, head_of, places,
}
use robinhood_chain_sequence.Tx.{nth, uint, sign_with, legacy_unsigned, signing_input}
use robinhood_chain_sequence.Tx.Views.{
  field-list_of, run-list_of, uint-list_of, length-positions, encode_all-append,
}

payloads-append : (fs gs : List Field) → payloads (fs ++ gs) ≡ payloads fs ++ payloads gs
payloads-append [] gs = refl
payloads-append (f ∷ fs) gs = simp (payloads-append fs gs)

length-payloads : (fs : List Field) → length (payloads fs) ≡ length fs
length-payloads [] = refl
length-payloads (f ∷ fs) = ap suc (length-payloads fs)

-- The fields of an envelope that is signed: what is signed, then v, r and s.
abbrev pub signed_fields : List Field → Bytes → Bytes → Bytes → List Field
signed_fields front v r s = front ++ string v ∷ string r ∷ string s ∷ []

-- r and s as the curve wants them, with the parity.
abbrev pub signature : Bytes → Bytes → ℕ → Bytes
signature r s parity = rjust r 32 ++ rjust s 32 ++ parity ∷ []

pub record Signs (r s : Bytes) : Type 0 where
  pub r_some : 0 < length r
  pub s_some : 0 < length s
  pub r_fits : length r ≤ 32
  pub s_fits : length s ≤ 32

-- What `_recover` reads of a list of `n` fields.
record Reads (body : Bytes) (f : List Item) (n v : ℕ) (r s : Bytes) : Type 0 where
  count : length f ≡ n
  enough : 4 ≤ n
  v_read : uint body (nth f (n - 3)) ≡ v
  r_read : slice (nth f (n - 2)).payload_start (nth f (n - 2)).payload_end body ≡ r
  s_read : slice (nth f (n - 1)).payload_start (nth f (n - 1)).payload_end body ≡ s

module _ {body : Bytes} {f : List Item} {n v : ℕ} {r s : Bytes} (reads : Reads body f n v r s) where
  signing_input-sign_with :
      (tx_type : ℕ)
      → signing_input tx_type body f
        ≡ sign_with tx_type v r s
            (legacy_unsigned body f v)
            (slice (nth f 0).item_start (nth f (n - 4)).payload_end body)
  unfolding signing_input
  signing_input-sign_with tx_type =
      rw (reads.count, reads.v_read, reads.r_read, reads.s_read, le→ltb_false n 4 reads.enough)

module _ (v : ℕ) (r s run : Bytes) (legacy : Option (ℕ × Bytes)) (signs : Signs r s) where
  sign_with-typed :
      (t : ℕ)
      → t ≢ 0
      → v ≤ 1
      → sign_with t v r s legacy run ≡ some (signature r s v, t ∷ rlp_list run)
  unfolding sign_with
  sign_with-typed t ht hv = ground arith

sign_with-legacy :
    (v : ℕ) (r s run unsigned : Bytes) (parity : ℕ)
    → Signs r s
    → sign_with 0 v r s (some (parity, unsigned)) run
      ≡ some (signature r s parity, rlp_list unsigned)
unfolding sign_with
sign_with-legacy v r s run unsigned parity signs = ground arith

rlp_bytes_empty : rlp_bytes [] ≡ 0x80 ∷ []
unfolding rlp_bytes
rlp_bytes_empty = refl

-- The chain id and two empty fields behind a run of fields.
with_chain :
    (front : List Field) (chain : ℕ)
    → encode_all front ++ rlp_uint chain ++ 0x80 ∷ 0x80 ∷ []
      ≡ encode_all (front ++ string (minimal chain) ∷ string [] ∷ string [] ∷ [])
with_chain front chain =
    rw (encode_all-append, rlp_uint-minimal, rlp_bytes_empty)
      (append_assoc (encode_all front) (rlp_bytes (minimal chain)) (0x80 ∷ 0x80 ∷ []))

module _ (front : List Field) (v r s : Bytes) where
  abbrev fs : List Field
  fs = signed_fields front v r s

  length-fs : length fs ≡ length front + 3
  length-fs = length-append front (string v ∷ string r ∷ string s ∷ [])

  length-places : length (places fs) ≡ length front + 3
  length-places = length-positions fs (length (head_of fs)) ∙ length-fs

  -- Field `k` of the last three.
  tail_field :
      (n k : ℕ) → n ≡ length front + k → get_or (payloads fs) n [] ≡ get_or (v ∷ r ∷ s ∷ []) k []
  tail_field n k e =
      rw (e, payloads-append front (string v ∷ string r ∷ string s ∷ []), ← length-payloads front)
        (get_or-append_at (payloads front) k (v ∷ r ∷ s ∷ []) [])

  tail_slice :
      (n k : ℕ)
      → n ≡ length front + k
      → k < 3
      → slice (nth (places fs) n).payload_start (nth (places fs) n).payload_end (list_of fs)
        ≡ get_or (v ∷ r ∷ s ∷ []) k []
  tail_slice n k e h = field-list_of fs n (omega (arith, length-fs)) ∙ tail_field n k e

  tail_uint : (n : ℕ) → n ≡ length front → uint (list_of fs) (nth (places fs) n) ≡ from_bytes v
  tail_uint n e =
      uint-list_of fs n (omega (arith, length-fs)) ∙ ap from_bytes (tail_field n 0 (omega arith))

  front_run :
      (n : ℕ)
      → n + 1 ≡ length front
      → slice (nth (places fs) 0).item_start (nth (places fs) n).payload_end (list_of fs)
        ≡ encode_all front
  front_run n e =
      run-list_of fs n (omega (arith, length-fs))
      ∙ ap encode_all
          (take-append front (string v ∷ string r ∷ string s ∷ []) (suc n) (omega arith))

  reads : 0 < length front → Reads (list_of fs) (places fs) (length front + 3) (from_bytes v) r s
  reads h = record {
    count = length-places;
    enough = omega arith;
    v_read = tail_uint (length front + 3 - 3) (omega arith);
    r_read = tail_slice (length front + 3 - 2) 1 (omega arith) (omega arith);
    s_read = tail_slice (length front + 3 - 1) 2 (omega arith) (omega arith);
  }

  -- A typed envelope: what is signed is the type and the list of the fields in front of v, r and s.
  pub signing_input-typed :
      (t : ℕ)
      → t ≢ 0
      → 0 < length front
      → Signs r s
      → from_bytes v ≤ 1
      → signing_input t (list_of fs) (places fs)
        ≡ some (signature r s (from_bytes v), t ∷ list_of front)
  signing_input-typed t ht some_front signs hv =
      signing_input-sign_with (reads some_front) t
      ∙ sign_with-typed (from_bytes v) r s _ _ signs t ht hv
      ∙ ap (λ run. some (signature r s (from_bytes v), t ∷ rlp_list run))
          (front_run (length front + 3 - 4) (omega arith))

  legacy_input :
      (parity : ℕ) (unsigned : Bytes)
      → length front ≡ 6
      → Signs r s
      → legacy_unsigned (list_of fs) (places fs) (from_bytes v) ≡ some (parity, unsigned)
      → signing_input 0 (list_of fs) (places fs) ≡ some (signature r s parity, rlp_list unsigned)
  legacy_input parity unsigned six signs e =
      signing_input-sign_with (reads (omega arith)) 0
      ∙ rw e (sign_with-legacy (from_bytes v) r s _ unsigned parity signs)

  -- A legacy envelope with v = 35 + 2 * chain + parity: the six fields, the chain id and two empty
  -- fields are signed (EIP-155).
  pub signing_input-eip155 :
      (chain parity : ℕ)
      → length front ≡ 6
      → Signs r s
      → parity ≤ 1
      → from_bytes v ≡ 35 + 2 * chain + parity
      → signing_input 0 (list_of fs) (places fs)
        ≡ some (
          signature r s parity,
          list_of (front ++ string (minimal chain) ∷ string [] ∷ string [] ∷ []),
        )
  signing_input-eip155 chain parity six signs hp hv =
      let half : (from_bytes v - 35) / 2 ≡ chain = omega arith in
      let odd : (from_bytes v - 35) % 2 ≡ parity = omega arith in
      legacy_input parity (encode_all front ++ rlp_uint chain ++ 0x80 ∷ 0x80 ∷ []) six signs (
        unfold legacy_unsigned in
        rw (front_run 5 (omega arith), le→leb 35 (from_bytes v) (omega arith), half, odd))
      ∙ ap (λ c. some (signature r s parity, rlp_list c)) (with_chain front chain)

  -- For a legacy envelope with v = 27 + parity, what is signed is the list of its first six
  -- fields alone, and the signature is r, s and the parity. r and s have 1 to 32 bytes.
  signing_input-pre_eip155 :
      (parity : ℕ)
      → length front ≡ 6
      → Signs r s
      → parity ≤ 1
      → from_bytes v ≡ 27 + parity
      → signing_input 0 (list_of fs) (places fs) ≡ some (signature r s parity, list_of front)
  signing_input-pre_eip155 parity six signs hp hv =
      legacy_input parity (encode_all front) six signs
        (unfold legacy_unsigned in rw (front_run 5 (omega arith)) (ground arith))
