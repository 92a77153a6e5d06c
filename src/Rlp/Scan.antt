-- ===== src/Rlp/Scan.antt =====
-- The scanner on any buffer, well formed or not.
use robinhood_chain_sequence.Prelude.{
  ℕ, zero, suc, ◌+◌, ◌<◌, ◌≤◌, ◌≡◌, ◌≢◌, arith, List, [], ◌∷◌, ◌==◌, ltb, length, inl, inr,
  Bool-cases, ok, err, out_of_fuel, >>=-eq-ok, ◌⊎◌,
}
use robinhood_chain_sequence.Bytes.{Bytes}
use robinhood_chain_sequence.Rlp.{Item, item_at, scan_items, list_bounds, scan_list}

-- The items stand side by side and fill the bytes from `i` to `end`.
abbrev pub Tiles : ℕ → ℕ → List Item → Type 0
Tiles i end [] = i ≡ end
Tiles i end (it ∷ items) =
    (it.item_start ≡ i)
    × (i ≤ it.payload_start)
    × (it.payload_start ≤ it.payload_end)
    × (i < it.payload_end)
    × Tiles it.payload_end end items

item_at_places :
    (buf : Bytes) (i : ℕ)
    → ((item_at buf i).item_start ≡ i)
      × (i ≤ (item_at buf i).payload_start)
      × ((item_at buf i).payload_start ≤ (item_at buf i).payload_end)
      × (i < (item_at buf i).payload_end)
unfolding item_at
item_at_places buf i = ground arith

-- What a successful scan did first.
scan_items_first :
    (fuel : ℕ) (buf : Bytes) (i end : ℕ) (items : List Item)
    → scan_items (suc fuel) buf i end ≡ ok items
    → ((i ≡ end) × (items ≡ []))
      ⊎ ((rest : List Item) × (scan_items fuel buf (item_at buf i).payload_end end ≡ ok rest)
          × (items ≡ item_at buf i ∷ rest))
unfolding scan_items
scan_items_first fuel buf i end items h = elim (Bool-cases (ltb i end)) [
  | inl inside ↦
      let (rest, found, e) =
        >>=-eq-ok (scan_items fuel buf (item_at buf i).payload_end end)
          (λ items. ok (item_at buf i ∷ items)) {b = items} (rw inside at h) in
      inr (rest, found, ground (arith, e))
  | inr outside ↦ elim (Bool-cases (i == end)) [
    | inl last ↦ inl (ground arith, ground arith)
    | inr past ↦ absurd (ground arith)
  ]
]

scan_items-Tiles :
    (fuel : ℕ) (buf : Bytes) (i end : ℕ) (items : List Item)
    → scan_items fuel buf i end ≡ ok items
    → Tiles i end items
scan_items-Tiles zero buf i end items h = absurd (unfold scan_items in ground arith)
scan_items-Tiles (suc fuel) buf i end items h = elim (scan_items_first fuel buf i end items h) [
  | inl (e, none_left) ↦ rw none_left e
  | inr (rest, found, e) ↦
      let (a, b, c, d) = item_at_places buf i in
      rw e (a, b, c, d, scan_items-Tiles fuel buf (item_at buf i).payload_end end rest found)
]

scan_items-ne-out_of_fuel :
    (fuel : ℕ) (buf : Bytes) (i end : ℕ)
    → end < i + fuel
    → 0 < fuel
    → scan_items fuel buf i end ≢ err out_of_fuel
unfolding scan_items
scan_items-ne-out_of_fuel zero buf i end h p e = absurd (omega arith)
scan_items-ne-out_of_fuel (suc zero) buf i end h p e = ground arith
scan_items-ne-out_of_fuel (suc (suc fuel)) buf i end h p e = ground (
  arith,
  (item_at_places buf i).3,
  scan_items-ne-out_of_fuel (suc fuel) buf (item_at buf i).payload_end end,
)

-- The scanner ends on every buffer: the rounds that the model gives it are enough.
scan_list-ne-out_of_fuel : (buf : Bytes) → scan_list buf ≢ err out_of_fuel
unfolding scan_list
scan_list-ne-out_of_fuel [] e = cc
scan_list-ne-out_of_fuel (head ∷ rest) e =
    let (i, end) = list_bounds (head ∷ rest) in
    ground (arith, scan_items-ne-out_of_fuel (suc (length (head ∷ rest))) (head ∷ rest) i end)

-- The items of a successful scan lie side by side, from the first byte behind the list's header
-- to the end that the header names, inside the buffer. Each item starts before its payload and is
-- not empty. This holds for any buffer.
pub scan_list-Tiles :
    (buf : Bytes) (items : List Item)
    → scan_list buf ≡ ok items
    → Tiles (list_bounds buf).0 (list_bounds buf).1 items × ((list_bounds buf).1 ≤ length buf)
unfolding scan_list
scan_list-Tiles [] items h = absurd (ground arith)
scan_list-Tiles (head ∷ rest) items h =
    let (i, end) = list_bounds (head ∷ rest) in
    (
      scan_items-Tiles (suc (length (head ∷ rest))) (head ∷ rest) i end items (ground arith),
      ground arith,
    )
