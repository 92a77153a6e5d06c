-- ===== src/L2/Batch.antt =====
-- `_split_batch` against the framing that it reads.
use robinhood_chain_sequence.Prelude.{
  ℕ, zero, suc, ◌+◌, ◌<◌, ◌≤◌, ◌^◌, ◌≡◌, ◌⊎◌, refl, ap, ◌∙◌, arith, List, [], ◌∷◌, ◌++◌, length,
  length-append, append_assoc, All, ltb, leb, Bool-cases, ltb_false→le, leb→le, ok, inl, inr, slice,
  slice-append, slice-append_right,
}
use robinhood_chain_sequence.Bytes.{Bytes, from_bytes, to_bytes}
use robinhood_chain_sequence.Bytes.Numbers.{length-to_bytes, from_bytes-to_bytes}
use robinhood_chain_sequence.L2.{split_from, split_batch}

-- [8-byte big-endian length][entry], repeated.
abbrev pub frame : Bytes → Bytes
frame e = to_bytes (length e) 8 ++ e

abbrev pub frames : List Bytes → Bytes
frames [] = []
frames (e ∷ es) = frame e ++ frames es

abbrev pub FrameFits : Bytes → Type 0
FrameFits e = length e < 256 ^ 8

-- Bytes that hold no whole entry: a length is missing, or the body is shorter than its length.
abbrev pub IsCut : Bytes → Type 0
IsCut t = (length t < 8) ⊎ (length t < 8 + from_bytes (slice 0 8 t))

length-frame : (e : Bytes) → length (frame e) ≡ 8 + length e
length-frame e =
    omega (arith, length-append (to_bytes (length e) 8) e, length-to_bytes (length e) 8)

split_from_step :
    (fuel : ℕ) (payload : Bytes) (offset count : ℕ) (entry : Bytes) (entries : List Bytes)
    → from_bytes (slice offset (offset + 8) payload) ≡ count
    → offset + 8 + count ≤ length payload
    → slice (offset + 8) (offset + 8 + count) payload ≡ entry
    → split_from fuel payload (offset + 8 + count) ≡ ok entries
    → split_from (suc fuel) payload offset ≡ ok (entry ∷ entries)
unfolding split_from
split_from_step fuel payload offset count entry entries hc hl he hr = rw (hc, he, hr) (ground arith)

split_from-frames :
    (es : List Bytes) (p t : Bytes) (fuel offset : ℕ)
    → All FrameFits es
    → IsCut t
    → offset ≡ length p
    → length (frames es) < fuel
    → split_from fuel (p ++ (frames es ++ t)) offset ≡ ok es
split_from-frames es p t zero offset fits cut ho hf = absurd (omega arith)
split_from-frames [] p t (suc fuel) offset fits cut ho hf =
    unfold split_from in
    ground (arith, ap from_bytes (slice-append_right p t offset 8 ho), length-append p t)
split_from-frames (e ∷ es) p t (suc fuel) offset (fit, fits) cut ho hf =
    let size : Bytes = to_bytes (length e) 8 in
    let rest : Bytes = frames es ++ t in
    let at_size : p ++ (frames (e ∷ es) ++ t) ≡ p ++ (size ++ (e ++ rest)) = simp append_assoc in
    let at_entry : p ++ (frames (e ∷ es) ++ t) ≡ (p ++ size) ++ (e ++ rest) = simp append_assoc in
    let at_rest : p ++ (frames (e ∷ es) ++ t) ≡ (p ++ frame e) ++ rest = simp append_assoc in
    split_from_step fuel (p ++ (frames (e ∷ es) ++ t)) offset (length e) e es
      (ap (λ b. from_bytes (slice offset (offset + 8) b)) at_size
        ∙ ap from_bytes (
            slice-append p size (e ++ rest) offset (offset + 8) ho
              (omega (arith, length-to_bytes (length e) 8)))
        ∙ from_bytes-to_bytes (length e) 8 fit)
      (omega (
        arith,
        length-append p (frames (e ∷ es) ++ t),
        length-append (frames (e ∷ es)) t,
        length-append (frame e) (frames es),
        length-frame e,
      ))
      (ap (slice _ _) at_entry
        ∙ slice-append (p ++ size) e rest (offset + 8) (offset + 8 + length e)
            (omega (arith, length-append p size, length-to_bytes (length e) 8))
            (omega (arith, length-append p size, length-to_bytes (length e) 8)))
      (ap (λ b. split_from fuel b (offset + 8 + length e)) at_rest
        ∙ split_from-frames es (p ++ frame e) t fuel (offset + 8 + length e) fits cut
            (omega (arith, length-append p (frame e), length-frame e))
            (omega (arith, length-append (frame e) (frames es), length-frame e)))

-- The entries of a framed batch come back in order, and a last entry whose length or body is cut
-- off ends the batch and takes nothing of what came before it. The length of every entry fits in
-- eight bytes.
pub split_batch-frames :
    (es : List Bytes) (t : Bytes)
    → All FrameFits es
    → IsCut t
    → split_batch (frames es ++ t) ≡ ok es
unfolding split_batch
split_batch-frames es t fits cut =
    split_from-frames es [] t (suc (length (frames es ++ t))) 0 fits cut refl
      (omega (arith, length-append (frames es) t))

split_from-ok :
    (fuel : ℕ) (payload : Bytes) (offset : ℕ)
    → length payload < offset + fuel
    → 0 < fuel
    → (es : List Bytes) × (split_from fuel payload offset ≡ ok es)
unfolding split_from
split_from-ok zero payload offset h p = absurd (omega arith)
split_from-ok (suc fuel) payload offset h p =
    let count : ℕ = from_bytes (slice offset (offset + 8) payload) in
    elim (Bool-cases (leb (offset + 8) (length payload))) [
      | inl more ↦ elim (Bool-cases (ltb (length payload) (offset + 8 + count))) [
        | inl cut ↦ ([], rw (more, cut))
        | inr whole ↦
            let room : offset + 8 + count ≤ length payload = ltb_false→le _ _ whole in
            let (es, e) =
              split_from-ok fuel payload (offset + 8 + count) (omega arith)
                (omega (arith, leb→le (offset + 8) (length payload) more)) in
            (slice (offset + 8) (offset + 8 + count) payload ∷ es, rw (more, whole, e))
      ]
      | inr none_left ↦ ([], rw none_left)
    ]

-- No payload makes `_split_batch` fail or run out of rounds.
pub split_batch-ok : (payload : Bytes) → (es : List Bytes) × (split_batch payload ≡ ok es)
unfolding split_batch
split_batch-ok payload = split_from-ok (suc (length payload)) payload 0 (omega arith) (omega arith)
