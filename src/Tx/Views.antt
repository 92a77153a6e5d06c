-- ===== src/Tx/Views.antt =====
-- What the offsets of a scanned list stand for: the payload of a field, and a run of encoded fields.
use robinhood_chain_sequence.Prelude.{
  ℕ, zero, suc, ◌+◌, ◌<◌, ◌≤◌, ◌≡◌, refl, sym, ap, ◌∙◌, arith, List, [], ◌∷◌, ◌++◌, length,
  length-append, append_assoc, get_or, slice, slice-append, take, drop, take-append-drop, ok,
  append-nil,
}
use robinhood_chain_sequence.Bytes.{Bytes, from_bytes}
use robinhood_chain_sequence.Rlp.{Item, scan_list, rlp_list}
use robinhood_chain_sequence.Rlp.Fields.{
  Field, encode, encode_all, payload, payloads, positions, list_of, head_of, places, ListFits,
}
use robinhood_chain_sequence.Rlp.RoundTrip.{
  encode_split, read_all, read_all-positions, scan_list-rlp_list,
}
use robinhood_chain_sequence.Tx.{nth, uint, last_end}

pub length-positions : (fs : List Field) (i : ℕ) → length (positions i fs) ≡ length fs
length-positions [] i = refl
length-positions (f ∷ fs) i = ap suc (length-positions fs (i + length (encode f)))

pub nth-read_all :
    (items : List Item) (buf : Bytes) (n : ℕ)
    → n < length items
    → slice (nth items n).payload_start (nth items n).payload_end buf
      ≡ get_or (read_all buf items) n []
nth-read_all [] buf n h = absurd (omega arith)
nth-read_all (it ∷ items) buf zero h = refl
nth-read_all (it ∷ items) buf (suc n) h = nth-read_all items buf n (omega arith)

pub length-payload-le : (f : Field) → length (payload f) ≤ length (encode f)
length-payload-le f =
    let (h, e) = encode_split f in omega (arith, ap length e, length-append h (payload f))

pub nth_width :
    (fs : List Field) (i n : ℕ)
    → n < length fs
    → ((nth (positions i fs) n).payload_end
        ≡ (nth (positions i fs) n).payload_start + length (get_or (payloads fs) n []))
nth_width [] i n h = absurd (omega arith)
nth_width (f ∷ fs) i zero h = omega (arith, length-payload-le f)
nth_width (f ∷ fs) i (suc n) h = nth_width fs (i + length (encode f)) n (omega arith)

-- Where the run of the first `n` fields ends.
pub run_end :
    (fs : List Field) (i n : ℕ)
    → n < length fs
    → (nth (positions i fs) n).payload_end ≡ i + length (encode_all (take (suc n) fs))
run_end [] i n h = absurd (omega arith)
run_end (f ∷ fs) i zero h = omega (arith, length-append (encode f) [])
run_end (f ∷ fs) i (suc n) h = omega (
  arith,
  run_end fs (i + length (encode f)) n,
  length-append (encode f) (encode_all (take (suc n) fs)),
)

pub encode_all-append :
    (fs gs : List Field) → encode_all (fs ++ gs) ≡ encode_all fs ++ encode_all gs
encode_all-append [] gs = refl
encode_all-append (f ∷ fs) gs = simp (encode_all-append fs gs, append_assoc)

pub first_start :
    (fs : List Field) (i : ℕ) → 0 < length fs → (nth (positions i fs) 0).item_start ≡ i
first_start [] i h = absurd (omega arith)
first_start (f ∷ fs) i h = refl

-- A scanned list `p ++ encode_all fs ++ q`.
module _ (fs : List Field) (p q : Bytes) where
  abbrev buf : Bytes
  buf = p ++ (encode_all fs ++ q)

  pub nth-payload :
      (n : ℕ)
      → n < length fs
      → slice
          (nth (positions (length p) fs) n).payload_start
          (nth (positions (length p) fs) n).payload_end
          buf
        ≡ get_or (payloads fs) n []
  nth-payload n h =
      nth-read_all (positions (length p) fs) buf n (omega (arith, length-positions fs (length p)))
      ∙ ap (λ xs. get_or xs n []) (read_all-positions fs p q (length p) refl)

  -- The bytes from the first item to the end of item `n` are the encoded fields, verbatim.
  pub run-encode_all :
      (n : ℕ)
      → n < length fs
      → slice
          (nth (positions (length p) fs) 0).item_start
          (nth (positions (length p) fs) n).payload_end
          buf
        ≡ encode_all (take (suc n) fs)
  run-encode_all n h =
      let k : ℕ = suc n in
      let split : encode_all fs ≡ encode_all (take k fs) ++ encode_all (drop k fs) =
        ap encode_all (sym (take-append-drop k fs)) ∙ encode_all-append (take k fs) (drop k fs) in
      let whole : buf ≡ p ++ (encode_all (take k fs) ++ (encode_all (drop k fs) ++ q)) =
        ap (λ c. p ++ (c ++ q)) split
        ∙ ap (λ c. p ++ c) (append_assoc (encode_all (take k fs)) (encode_all (drop k fs)) q) in
      ap (slice _ _) whole
      ∙ slice-append p (encode_all (take k fs)) (encode_all (drop k fs) ++ q) _ _
          (first_start fs (length p) (omega arith)) (run_end fs (length p) n h)

-- An encoded list.
module _ (fs : List Field) where
  list_of-parts : list_of fs ≡ head_of fs ++ (encode_all fs ++ [])
  unfolding rlp_list
  list_of-parts = ap (λ c. head_of fs ++ c) (sym (append-nil (encode_all fs)))

  pub scan-list_of : ListFits fs → scan_list (list_of fs) ≡ ok (places fs)
  scan-list_of fits =
      ap scan_list (sym (append-nil (list_of fs))) ∙ scan_list-rlp_list fs [] fits.each fits.whole

  pub field-list_of :
      (n : ℕ)
      → n < length fs
      → slice (nth (places fs) n).payload_start (nth (places fs) n).payload_end (list_of fs)
        ≡ get_or (payloads fs) n []
  field-list_of n h = ap (slice _ _) list_of-parts ∙ nth-payload fs (head_of fs) [] n h

  pub run-list_of :
      (n : ℕ)
      → n < length fs
      → slice (nth (places fs) 0).item_start (nth (places fs) n).payload_end (list_of fs)
        ≡ encode_all (take (suc n) fs)
  run-list_of n h = ap (slice _ _) list_of-parts ∙ run-encode_all fs (head_of fs) [] n h

  pub uint-list_of :
      (n : ℕ)
      → n < length fs
      → uint (list_of fs) (nth (places fs) n) ≡ from_bytes (get_or (payloads fs) n [])
  unfolding uint
  uint-list_of n h = ap from_bytes (field-list_of n h)

  pub length-list_of : length (list_of fs) ≡ length (head_of fs) + length (encode_all fs)
  unfolding rlp_list
  length-list_of = length-append (head_of fs) (encode_all fs)

last_end-positions :
    (fs : List Field) (i : ℕ)
    → 0 < length fs
    → last_end (positions i fs) ≡ i + length (encode_all fs)
unfolding last_end
last_end-positions [] i h = absurd (omega arith)
last_end-positions (f ∷ []) i h = omega (arith, length-append (encode f) [])
last_end-positions (f ∷ g ∷ fs) i h = omega (
  arith,
  last_end-positions (g ∷ fs) (i + length (encode f)),
  length-append (encode f) (encode_all (g ∷ fs)),
)

pub last_end-places : (fs : List Field) → 0 < length fs → last_end (places fs) ≡ length (list_of fs)
last_end-places fs h =
    omega (arith, last_end-positions fs (length (head_of fs)) h, length-list_of fs)
