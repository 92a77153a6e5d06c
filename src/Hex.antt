-- ===== src/Hex.antt =====
-- codec.py, hex texts: `_unhex`, `sel`, `addr`, and `is_filtered_call`, which passes one on. A text is
-- the list of its code points.
pub mod Digits
pub mod Examples
use Prim.Native.Char.{code}
use Prim.Native.String.{String}
use robinhood_chain_sequence.Prelude.{
  ℕ, ◌+◌, ◌-◌, ◌*◌, ◌/◌, ◌%◌, Bool, Option, none, some, List, [], ◌∷◌, ◌++◌, ◌&&◌, ◌||◌, Result, ok,
  err, value_error, ◌>>=◌, ltb, leb, ◌==◌, if◌then◌else◌, length,
}
use robinhood_chain_sequence.Bytes.{Bytes}

abbrev pub Text : Type 0
Text = List ℕ

-- The code points of a literal.
abbrev pub text : String → Text
text String.[] = []
text (String.◌∷◌ c s) = code c ∷ text s

unfoldable pub is_space : ℕ → Bool
is_space c = c == 32 || leb 9 c && leb c 13

unfoldable pub digit_value : ℕ → Option ℕ
digit_value c =
    if leb b'0' c && leb c b'9'
    then some (c - b'0')
    else if leb b'a' c && leb c b'f'
    then some (c - b'a' + 10)
    else if leb b'A' c && leb c b'F'
    then some (c - b'A' + 10)
    else none

abbrev pub with_digits : Option ℕ → Option ℕ → Option Bytes → Option Bytes
with_digits (some hi) (some lo) (some bs) = some ((hi * 16 + lo) ∷ bs)
with_digits _ _ _ = none

-- bytes.fromhex, which skips white space in front of a pair of digits.
unfoldable pub from_hex : Text → Option Bytes
unfolding is_space digit_value
from_hex [] = some []
from_hex (c ∷ []) = if is_space c then some [] else none
from_hex (c ∷ d ∷ rest) =
    let skipped = from_hex (d ∷ rest) in
    let taken = with_digits (digit_value c) (digit_value d) (from_hex rest) in
    if is_space c then skipped else taken

-- value.removeprefix("0x")
unfoldable pub remove_0x : Text → Text
remove_0x (c ∷ d ∷ rest) = if c == b'0' && d == b'x' then rest else c ∷ d ∷ rest
remove_0x t = t

unfoldable pub unhex : Text → Result Bytes
unfolding remove_0x from_hex
unhex value = elim (from_hex (remove_0x value)) [ none ↦ err value_error | some bs ↦ ok bs ]

unfoldable pub sel : Text → Result Bytes
unfolding unhex
sel value = unhex value >>= λ raw. if length raw == 4 then ok raw else err value_error

unfoldable pub addr : Text → Result Bytes
unfolding unhex
addr value = unhex value >>= λ raw. if length raw == 20 then ok raw else err value_error

-- A digit of bytes.hex()
unfoldable pub hex_digit : ℕ → ℕ
hex_digit n = if ltb n 10 then b'0' + n else b'a' + (n - 10)

-- raw.hex()
unfoldable pub to_hex : Bytes → Text
unfolding hex_digit
to_hex [] = []
to_hex (b ∷ bs) = hex_digit (b / 16) ∷ hex_digit (b % 16) ∷ to_hex bs

-- FILTER_PRECOMPILE
abbrev pub filter_precompile : Text
filter_precompile = text "0x0000000000000000000000000000000000000074"

-- IS_FILTERED_SELECTOR
abbrev pub is_filtered_selector : Text
is_filtered_selector = text "0x85c733a4"

-- The object in `params`; the rest of the body is constant.
pub record EthCall : Type 0 where
  pub to : Text
  pub calldata : Text

unfoldable pub is_filtered_call : Text → Result EthCall
unfolding unhex to_hex
is_filtered_call tx_hash = unhex tx_hash >>= λ raw.
    if length raw == 32
    then ok (record { to = filter_precompile; calldata = is_filtered_selector ++ to_hex raw })
    else err value_error
