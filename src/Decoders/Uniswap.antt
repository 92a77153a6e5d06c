-- ===== src/Decoders/Uniswap.antt =====
-- decoders/uniswap.py: the V3 routers, the V2 router and their multicall wrappers.
use robinhood_chain_sequence.Prelude.{
  ℕ, ◌+◌, ◌-◌, Bool, true, false, List, [], ◌∷◌, Option, none, some, Result, ok, ◌>>=◌, collect,
  take, drop, length, ltb, if◌then◌else◌,
}
use robinhood_chain_sequence.Bytes.{Bytes, bytes_eq}
use robinhood_chain_sequence.Intents.{Decoder, Intent, Call, intent, swap}
use robinhood_chain_sequence.Abi.{native, uint, token, dynamic, tuple_at, static_array, bytes_array}

-- None for the marker of ETH.
unfoldable pub unless_native : Bytes → Option Bytes
unless_native a = if bytes_eq a native then none else some a

-- (first token, last token) of a V3 path.
unfoldable pub v3_path_ends : Bytes → Option Bytes × Option Bytes
unfolding unless_native
v3_path_ends path =
    if ltb (length path) 20
    then (none, none)
    else (unless_native (take 20 path), unless_native (drop (length path - 20) path))

-- A swap whose two amounts come in the order of the calldata.
abbrev pub swap_of : Call → Bool → Option Bytes → Option Bytes → ℕ → ℕ → Option Bytes → Intent
swap_of call exact_in token_in token_out first second recipient =
    record (intent swap call.actor call.via) {
      token_in = token_in;
      token_out = token_out;
      amount_in = some (if exact_in then first else second);
      amount_out = some (if exact_in then second else first);
      exact_in = exact_in;
      recipient = recipient;
    }

-- `_single`, at the slots of the recipient and of the two amounts.
unfoldable pub single : ℕ → ℕ → ℕ → Bool → Decoder
single recipient_i first_i second_i exact_in again call depth = do
  let d = drop 4 call.calldata
  first ← uint d first_i
  second ← uint d second_i
  token_in ← token d 0
  token_out ← token d 1
  recipient ← token d recipient_i
  ok (swap_of call exact_in token_in token_out first second recipient ∷ [])

-- `_path_call`
unfoldable pub path_call : ℕ → ℕ → ℕ → Bool → Decoder
path_call recipient_i first_i second_i exact_in again call depth = do
  body ← tuple_at (drop 4 call.calldata) 0
  path ← dynamic body 0
  let (a, b) = v3_path_ends path
  first ← uint body first_i
  second ← uint body second_i
  recipient ← token body recipient_i
  ok (
      swap_of call exact_in (if exact_in then a else b) (if exact_in then b else a) first second
        recipient
      ∷ [])

-- The layout of a V2 function: no slot of the amount in means msg.value.
pub record V2Layout : Type 0 where
  pub in_i : Option ℕ
  pub out_i : ℕ
  pub path_i : ℕ
  pub to_i : ℕ
  pub exact_in : Bool
  pub eth_in : Bool
  pub eth_out : Bool

abbrev pub v2_layout : Option ℕ → ℕ → ℕ → ℕ → Bool → Bool → Bool → V2Layout
v2_layout in_i out_i path_i to_i exact_in eth_in eth_out = record {
  in_i = in_i;
  out_i = out_i;
  path_i = path_i;
  to_i = to_i;
  exact_in = exact_in;
  eth_in = eth_in;
  eth_out = eth_out;
}

-- hops[-1] of a list that starts with `hop`.
unfoldable pub last_hop : Bytes → List Bytes → Bytes
last_hop hop [] = hop
last_hop hop (next ∷ hops) = last_hop next hops

unfoldable pub token_unless : Bool → Bytes → Result (Option Bytes)
token_unless true hop = ok none
token_unless false hop = token hop 0

unfoldable pub amount_in_of : Call → Option ℕ → Result ℕ
amount_in_of call none = ok call.value
amount_in_of call (some i) = uint (drop 4 call.calldata) i

unfoldable pub v2_hops : V2Layout → Call → List Bytes → Result (List Intent)
unfolding last_hop token_unless amount_in_of
v2_hops l call [] = ok []
v2_hops l call (hop ∷ hops) = do
  let d = drop 4 call.calldata
  token_in ← token_unless l.eth_in hop
  token_out ← token_unless l.eth_out (last_hop hop hops)
  amount_in ← amount_in_of call l.in_i
  amount_out ← uint d l.out_i
  recipient ← token d l.to_i
  ok (
      record (intent swap call.actor call.via) {
        token_in = token_in;
        token_out = token_out;
        amount_in = some amount_in;
        amount_out = some amount_out;
        exact_in = l.exact_in;
        recipient = recipient;
      }
      ∷ [])

-- `_v2`
unfoldable pub v2 : V2Layout → Decoder
unfolding v2_hops
v2 l again call depth = static_array (drop 4 call.calldata) l.path_i 1 >>= v2_hops l call

-- `_multicall`: the same contract, value, actor and path for every blob.
unfoldable pub multicall : ℕ → Decoder
multicall blobs_slot again call depth = do
  blobs ← bytes_array (drop 4 call.calldata) blobs_slot
  collect (λ blob. ok (again (record call { calldata = blob }) (depth + 1))) blobs
