-- ===== src/Decoders/Relay.antt =====
-- decoders/relay.py: a solver's fill and a wallet's sell, one intent each.
use robinhood_chain_sequence.Prelude.{
  ℕ, ◌+◌, ◌-◌, ◌*◌, ◌/◌, List, [], ◌∷◌, ◌++◌, ◌||◌, Option, none, some, Result, ok, ◌>>=◌, take,
  drop, slice, length, ◌==◌, if◌then◌else◌,
}
use robinhood_chain_sequence.Bytes.{Bytes, bytes_eq}
use robinhood_chain_sequence.Intents.{Decoder, Intent, IntentKind, swap, Call, intent, inner}
use robinhood_chain_sequence.Abi.{
  word_size, address, uint, dynamic, tuple_at, static_array, tuple_array,
}

abbrev pub executor_sweep : Bytes
executor_sweep = 0x9b ∷ 0xb4 ∷ 0x37 ∷ 0x18 ∷ []

abbrev pub executor_deposit : Bytes
executor_deposit = 0x73 ∷ 0xb7 ∷ 0xbb ∷ 0x2f ∷ []

-- `a or b`, for an address or None.
abbrev pub or_address : Option Bytes → Option Bytes → Option Bytes
or_address none b = b
or_address (some a) b = some a

unfoldable pub first_address : List Bytes → Result (Option Bytes)
first_address [] = ok none
first_address (t ∷ ts) = address t 0 >>= λ a. ok (some a)

-- `_first_token`
unfoldable pub first_token : Bytes → Result (Option Bytes)
unfolding first_address
first_token executor_data = static_array (drop 4 executor_data) 0 1 >>= first_address

-- `_walk`: the intents inside, and the token that the executor names.
unfoldable pub walk :
    (Call → ℕ → List Intent)
    → Call
    → ℕ
    → List Intent
    → Option Bytes
    → List Bytes
    → Result (List Intent × Option Bytes)
unfolding first_token
walk again call depth found named [] = ok (found, named)
walk again call depth found named (c ∷ calls) = do
  target ← address c 0
  value ← uint c 2
  bs ← dynamic c 3
  let is_executor = bytes_eq (take 4 bs) executor_sweep || bytes_eq (take 4 bs) executor_deposit
  let inside = again (inner call (some target) value bs none) (depth + 1)
  token ← if is_executor then first_token bs else ok none
  walk again call depth (if is_executor then found else found ++ inside) (or_address token named)
      calls

-- `_trailing_word`; -(-n // 32) * 32 is `n` rounded up to whole words.
unfoldable pub trailing_word : Bytes → ℕ → Result (Option Bytes)
trailing_word d last_slot = do
  off ← uint d last_slot
  n ← uint (drop off d) 0
  let end = off + word_size + (n + (word_size - 1)) / word_size * word_size
  ok (if length d == end + word_size then some (slice end (end + word_size) d) else none)

-- `_swap_out`
unfoldable pub swap_out : List Intent → Option Bytes × Option ℕ
swap_out [] = (none, none)
swap_out (i ∷ found) =
    let rest = swap_out found in
    elim i.kind [
      | swap ↦ elim i.token_out [ none ↦ rest | some out ↦ (some out, i.amount_out) ]
      | _ ↦ rest
    ]

unfoldable pub fill_permitted :
    (Call → ℕ → List Intent) → Call → ℕ → List Bytes → Result (List Intent)
unfolding walk trailing_word swap_out
fill_permitted again call depth [] = ok []
fill_permitted again call depth (permitted ∷ more) = do
  let d = drop 4 call.calldata
  wallet ← address d 3
  calls ← tuple_array d 2
  (found, executor_token) ← walk again call depth [] none calls
  let (token_out, amount_out) = swap_out found
  payer ← address d 0
  token_in ← address permitted 0
  amount_in ← uint permitted 1
  order_id ← trailing_word d 6
  ok (
      record (intent IntentKind.relay_fill (some wallet) call.via) {
        payer = some payer;
        token_in = some token_in;
        token_out = or_address executor_token token_out;
        amount_in = some amount_in;
        amount_out = amount_out;
        recipient = some wallet;
        order_id = order_id;
      }
      ∷ [])

unfoldable pub fill : Decoder
unfolding fill_permitted
fill again call depth = do
  permit ← tuple_at (drop 4 call.calldata) 1
  permitted ← static_array permit 0 2
  fill_permitted again call depth permitted

unfoldable pub sell_tokens :
    (Call → ℕ → List Intent) → Call → ℕ → List Bytes → List Bytes → Result (List Intent)
unfolding walk trailing_word swap_out
sell_tokens again call depth (token ∷ tokens) (amount ∷ amounts) = do
  let d = drop 4 call.calldata
  calls ← tuple_array d 2
  (found, executor_token) ← walk again call depth [] none calls
  let (token_out, amount_out) = swap_out found
  token_in ← address token 0
  amount_in ← uint amount 0
  order_id ← trailing_word d 5
  ok (
      record (intent IntentKind.relay_sell call.actor call.via) {
        token_in = some token_in;
        token_out = or_address executor_token token_out;
        amount_in = some amount_in;
        amount_out = amount_out;
        order_id = order_id;
      }
      ∷ [])
sell_tokens again call depth _ _ = ok []

unfoldable pub sell : Decoder
unfolding sell_tokens
sell again call depth = do
  let d = drop 4 call.calldata
  tokens ← static_array d 0 1
  amounts ← static_array d 1 1
  sell_tokens again call depth tokens amounts
