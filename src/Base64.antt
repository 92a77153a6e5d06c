-- ===== src/Base64.antt =====
-- `base64.b64decode` of Python's standard library as codec.py calls it, on a text and without
-- `validate`: characters outside the alphabet are skipped, and input after the padding is not read.
use robinhood_chain_sequence.Prelude.{
  ℕ, zero, suc, ◌+◌, ◌-◌, ◌*◌, ◌/◌, ◌%◌, Bool, true, false, Option, none, some, [], ◌∷◌, ◌++◌, ◌&&◌,
  Result, ok, err, value_error, ◌>>=◌, ltb, leb, ◌==◌, if◌then◌else◌,
}
use robinhood_chain_sequence.Bytes.{Bytes}
use robinhood_chain_sequence.Hex.{Text}

-- The six bits that a character stands for.
unfoldable pub sextet : ℕ → Option ℕ
sextet c =
    if leb b'A' c && leb c b'Z'
    then some (c - b'A')
    else if leb b'a' c && leb c b'z'
    then some (c - b'a' + 26)
    else if leb b'0' c && leb c b'9'
    then some (c - b'0' + 52)
    else if c == b'+'
    then some 62
    else if c == b'/'
    then some 63
    else none

-- The byte that a sextet completes, from the bits left over by those before it in its group of four.
unfoldable pub completed : ℕ → ℕ → ℕ → Bytes
completed zero left v = []
completed (suc zero) left v = (left * 4 + v / 16) ∷ []
completed (suc (suc zero)) left v = (left * 16 + v / 4) ∷ []
completed _ left v = (left * 64 + v) ∷ []

unfoldable pub left_over : ℕ → ℕ → ℕ
left_over zero v = v
left_over (suc zero) v = v % 16
left_over (suc (suc zero)) v = v % 4
left_over _ v = 0

-- The reader's loop: the place in a group of four, the bits left over, and the padding seen.
unfoldable pub read_quads : Text → ℕ → ℕ → ℕ → Result Bytes
unfolding sextet completed left_over
read_quads [] quad left pads = if quad == 0 then ok [] else err value_error
read_quads (c ∷ rest) quad left pads =
    let v : ℕ = elim (sextet c) [ none ↦ 0 | some v ↦ v ] in
    let is_pad = c == b'=' in
    let skips : Bool = elim (sextet c) [ none ↦ true | some v ↦ false ] in
    let after =
      read_quads rest (if is_pad then quad else if skips then quad else (quad + 1) % 4)
        (if is_pad then left else if skips then left else left_over quad v)
        (if is_pad then pads + 1 else if skips then pads else 0) in
    if is_pad
    then (if leb 2 quad && leb 4 (quad + pads + 1) then ok [] else after)
    else if skips
    then after
    else (after >>= λ bs. ok (completed quad left v ++ bs))

-- A text with a code point past ASCII is refused before it is read.
unfoldable pub is_ascii : Text → Bool
is_ascii [] = true
is_ascii (c ∷ rest) = ltb c 128 && is_ascii rest

unfoldable pub b64decode : Text → Result Bytes
unfolding read_quads is_ascii
b64decode value = if is_ascii value then read_quads value 0 0 0 else err value_error
