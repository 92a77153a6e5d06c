-- ===== src/Decoders/UniversalRouter.antt =====
-- decoders/universal_router.py: `execute(commands, inputs[, deadline])`, one byte and one blob for
-- each command.
use robinhood_chain_sequence.Prelude.{
  ℕ, ◌%◌, Bool, true, false, List, [], ◌∷◌, ◌++◌, ◌||◌, not, Option, none, some, Result, ok, err,
  malformed, ◌>>=◌, drop, length, ltb, ◌==◌, if◌then◌else◌,
}
use robinhood_chain_sequence.Bytes.{Bytes, bytes_eq, zeros}
use robinhood_chain_sequence.Intents.{Decoder, Intent, Call}
use robinhood_chain_sequence.Abi.{
  address, uint, token, dynamic, tuple_at, static_array, tuple_array, bytes_array,
}
use robinhood_chain_sequence.Decoders.Uniswap.{v3_path_ends, swap_of, last_hop}

abbrev pub msg_sender : Bytes
msg_sender = zeros 19 ++ 1 ∷ []

abbrev pub address_this : Bytes
address_this = zeros 19 ++ 2 ∷ []

-- `_recipient`
unfoldable pub recipient_of : Bytes → Call → Option Bytes
recipient_of raw call =
    if bytes_eq raw msg_sender
    then call.actor
    else if bytes_eq raw address_this
    then call.to
    else some raw

-- `_v3`
unfoldable pub v3_swap : Call → Bytes → Bool → Result Intent
unfolding recipient_of
v3_swap call p exact_in = do
  first ← uint p 1
  second ← uint p 2
  path ← dynamic p 3
  let (a, b) = v3_path_ends path
  to ← address p 0
  ok (
      swap_of call exact_in (if exact_in then a else b) (if exact_in then b else a) first second
        (recipient_of to call))

-- `_v2`, of which an empty path gives nothing.
unfoldable pub v2_swap : Call → Bytes → Bool → List Bytes → Result (List Intent)
unfolding recipient_of last_hop
v2_swap call p exact_in [] = ok []
v2_swap call p exact_in (hop ∷ hops) = do
  first ← uint p 1
  second ← uint p 2
  token_in ← token hop 0
  token_out ← token (last_hop hop hops) 0
  to ← address p 0
  ok (swap_of call exact_in token_in token_out first second (recipient_of to call) ∷ [])

-- `_v4_single`
unfoldable pub v4_single : Call → Bytes → Bool → Result Intent
v4_single call p exact_in = do
  body ← tuple_at p 0
  c0 ← token body 0
  c1 ← token body 1
  flag ← uint body 5
  first ← uint body 6
  second ← uint body 7
  let zero_for_one = not (flag == 0)
  ok (
      swap_of call exact_in (if zero_for_one then c0 else c1) (if zero_for_one then c1 else c0)
        first second none)

-- `_v4_multi` behind the reading of the path.
unfoldable pub v4_path : Call → Bool → Bytes → Option Bytes → List Bytes → Result (List Intent)
unfolding last_hop
v4_path call exact_in body named [] = ok []
v4_path call exact_in body named (key ∷ keys) = do
  first ← uint body 2
  second ← uint body 3
  other ← token (if exact_in then last_hop key keys else key) 0
  ok (
      swap_of call exact_in (if exact_in then named else other) (if exact_in then other else named)
        first second none
      ∷ [])

unfoldable pub v4_multi : Call → Bytes → Bool → Result (List Intent)
unfolding v4_path
v4_multi call p exact_in = do
  body ← tuple_at p 0
  named ← token body 0
  path ← tuple_array body 1
  v4_path call exact_in body named path

-- One action of `_v4`; an action of another kind gives nothing.
unfoldable pub v4_action : Call → ℕ → Bytes → Result (List Intent)
v4_action call action param =
    if action == 0x06
    then (v4_single call param true >>= λ i. ok (i ∷ []))
    else if action == 0x08
    then (v4_single call param false >>= λ i. ok (i ∷ []))
    else if action == 0x07
    then v4_multi call param true
    else if action == 0x09
    then v4_multi call param false
    else ok []

-- `for kind, p in zip(kinds, inputs): out.extend(...)`
unfoldable pub each_step :
    (ℕ → Bytes → Result (List Intent)) → Bytes → List Bytes → Result (List Intent)
each_step step (kind ∷ kinds) (p ∷ ps) = do
  found ← step kind p
  more ← each_step step kinds ps
  ok (found ++ more)
each_step step _ _ = ok []

-- `_v4`
unfoldable pub v4 : Call → Bytes → Result (List Intent)
unfolding each_step v4_action
v4 call p = do
  actions ← dynamic p 0
  params ← bytes_array p 1
  if ltb (length params) (length actions)
      then err malformed
      else each_step (v4_action call) actions params

-- One command of `_execute`; `command & 0x7f` is `command % 128`.
unfoldable pub run_command : Call → ℕ → Bytes → Result (List Intent)
unfolding v3_swap v2_swap v4
run_command call command p =
    let kind = command % 128 in
    if kind == 0x00
    then (v3_swap call p true >>= λ i. ok (i ∷ []))
    else if kind == 0x01
    then (v3_swap call p false >>= λ i. ok (i ∷ []))
    else if kind == 0x08 || kind == 0x09
    then (static_array p 3 1 >>= v2_swap call p (kind == 0x08))
    else if kind == 0x10
    then v4 call p
    else ok []

-- `_execute`
unfoldable pub execute_commands : Call → Bytes → List Bytes → Result (List Intent)
unfolding each_step run_command
execute_commands call commands inputs =
    if ltb (length inputs) (length commands)
    then err malformed
    else each_step (run_command call) commands inputs

unfoldable pub execute : Decoder
unfolding execute_commands
execute again call depth = do
  let d = drop 4 call.calldata
  commands ← dynamic d 0
  inputs ← bytes_array d 1
  execute_commands call commands inputs
