-- ===== src/Decoders/Sound/Commands.antt =====
-- decoders/universal_router.py: the promise of Decoders/Sound, command by command.
use robinhood_chain_sequence.Prelude.{
  ℕ, ◌%◌, ◌≡◌, ◌>>=◌, Bool, true, false, Option, List, [], ◌∷◌, not, ◌||◌, Result, ok, malformed,
  refl, Outcome, Outcome-bind, returns, raises, All, All-append, length, ltb, ◌==◌,
}
use robinhood_chain_sequence.Bytes.{Bytes, bytes_eq}
use robinhood_chain_sequence.Intents.{Call, Intent}
use robinhood_chain_sequence.Abi.Malformed.{
  IsMalformed, Sized, Outcome-if, uint-Malformed, address-Malformed, token-Malformed,
  dynamic-Malformed, tuple_at-Malformed, tuple_array-Malformed, static_array-Malformed,
  bytes_array-Malformed,
}
use robinhood_chain_sequence.Decoders.Uniswap.{v3_path_ends, last_hop}
use robinhood_chain_sequence.Decoders.UniversalRouter.{
  msg_sender, address_this, recipient_of, v3_swap, v2_swap, v4_single, v4_path, v4_multi, v4_action,
  each_step, v4, run_command, execute_commands, execute,
}
use robinhood_chain_sequence.Decoders.Sound.{IsCall, Sound, IsSound}
use robinhood_chain_sequence.Decoders.Sound.Swaps.{either-Sized, v3_path_ends-Sized, swap_of-Sound}

recipient_of-Sized :
    (raw : Bytes) (call : Call) → length raw ≡ 20 → IsCall call → Sized 20 (recipient_of raw call)
unfolding recipient_of
recipient_of-Sized raw call size h =
    either-Sized (bytes_eq raw msg_sender) 20 _ _ h.actor
      (either-Sized (bytes_eq raw address_this) 20 _ _ h.to size)

-- A list of one sound intent.
one-Sound :
    (call : Call) (m : Result Intent)
    → Outcome IsMalformed (Sound call) m
    → Outcome IsMalformed (All (Sound call)) (m >>= λ i. ok (i ∷ []))
one-Sound call m h = Outcome-bind _ _ h (λ i s. returns _ (s, tt))

v3_swap-Outcome :
    (call : Call) (p : Bytes) (exact_in : Bool)
    → Outcome IsMalformed (Sound call) (v3_swap call p exact_in)
unfolding v3_swap
v3_swap-Outcome call p exact_in = Outcome-bind _ _ (uint-Malformed p 1) (λ first _.
    Outcome-bind _ _ (uint-Malformed p 2) (λ second _.
      Outcome-bind _ _ (dynamic-Malformed p 3) (λ path _.
        Outcome-bind _ _ (address-Malformed p 0) (λ to size.
          let (x, y) = v3_path_ends path in
          let (hx, hy) = v3_path_ends-Sized path in
          returns _ (
            swap_of-Sound call exact_in _ _ _ _ _ (either-Sized exact_in 20 x y hx hy)
              (either-Sized exact_in 20 y x hy hx) (recipient_of-Sized to call size))))))

v2_swap-Outcome :
    (call : Call) (p : Bytes) (exact_in : Bool) (hops : List Bytes)
    → Outcome IsMalformed (All (Sound call)) (v2_swap call p exact_in hops)
unfolding v2_swap
v2_swap-Outcome call p exact_in [] = returns [] tt
v2_swap-Outcome call p exact_in (hop ∷ hops) = Outcome-bind _ _ (uint-Malformed p 1) (λ first _.
    Outcome-bind _ _ (uint-Malformed p 2) (λ second _.
      Outcome-bind _ _ (token-Malformed hop 0) (λ token_in paid.
        Outcome-bind _ _ (token-Malformed (last_hop hop hops) 0) (λ token_out got.
          Outcome-bind _ _ (address-Malformed p 0) (λ to size. returns _ (
            swap_of-Sound call exact_in _ _ _ _ _ paid got (recipient_of-Sized to call size),
            tt,
          ))))))

v4_single-Outcome :
    (call : Call) (p : Bytes) (exact_in : Bool)
    → Outcome IsMalformed (Sound call) (v4_single call p exact_in)
unfolding v4_single
v4_single-Outcome call p exact_in = Outcome-bind _ _ (tuple_at-Malformed p 0) (λ body _.
    Outcome-bind _ _ (token-Malformed body 0) (λ c0 h0.
      Outcome-bind _ _ (token-Malformed body 1) (λ c1 h1.
        Outcome-bind _ _ (uint-Malformed body 5) (λ flag _.
          Outcome-bind _ _ (uint-Malformed body 6) (λ first _.
            Outcome-bind _ _ (uint-Malformed body 7) (λ second _.
              let zero_for_one = not (flag == 0) in
              returns _ (
                swap_of-Sound call exact_in _ _ _ _ _ (either-Sized zero_for_one 20 c0 c1 h0 h1)
                  (either-Sized zero_for_one 20 c1 c0 h1 h0) (λ h. tt))))))))

v4_path-Outcome :
    (call : Call) (exact_in : Bool) (body : Bytes) (named : Option Bytes) (keys : List Bytes)
    → Sized 20 named
    → Outcome IsMalformed (All (Sound call)) (v4_path call exact_in body named keys)
unfolding v4_path
v4_path-Outcome call exact_in body named [] h = returns [] tt
v4_path-Outcome call exact_in body named (key ∷ keys) h =
    Outcome-bind _ _ (uint-Malformed body 2) (λ first _.
      Outcome-bind _ _ (uint-Malformed body 3) (λ second _.
        Outcome-bind _ _ (token-Malformed _ 0) (λ other k. returns _ (
          swap_of-Sound call exact_in _ _ _ _ _ (either-Sized exact_in 20 named other h k)
              (either-Sized exact_in 20 other named k h) (λ _. tt),
          tt,
        ))))

v4_multi-Outcome :
    (call : Call) (p : Bytes) (exact_in : Bool)
    → Outcome IsMalformed (All (Sound call)) (v4_multi call p exact_in)
unfolding v4_multi
v4_multi-Outcome call p exact_in = Outcome-bind _ _ (tuple_at-Malformed p 0) (λ body _.
    Outcome-bind _ _ (token-Malformed body 0) (λ named h.
      Outcome-bind _ _ (tuple_array-Malformed body 1)
        (λ path _. v4_path-Outcome call exact_in body named path h)))

v4_action-Outcome :
    (call : Call) (action : ℕ) (param : Bytes)
    → Outcome IsMalformed (All (Sound call)) (v4_action call action param)
unfolding v4_action
v4_action-Outcome call action param =
    Outcome-if (action == 0x06) _ _ (λ _. one-Sound call _ (v4_single-Outcome call param true))
      (λ _.
        Outcome-if (action == 0x08) _ _ (λ _. one-Sound call _ (v4_single-Outcome call param false))
          (λ _.
            Outcome-if (action == 0x07) _ _ (λ _. v4_multi-Outcome call param true)
              (λ _.
                Outcome-if (action == 0x09) _ _ (λ _. v4_multi-Outcome call param false)
                  (λ _. returns [] tt))))

each_step-Outcome :
    (call : Call) (step : ℕ → Bytes → Result (List Intent)) (kinds : Bytes) (ps : List Bytes)
    → ((kind : ℕ) (p : Bytes) → Outcome IsMalformed (All (Sound call)) (step kind p))
    → Outcome IsMalformed (All (Sound call)) (each_step step kinds ps)
unfolding each_step
each_step-Outcome call step (kind ∷ kinds) (p ∷ ps) h = Outcome-bind _ _ (h kind p) (λ found s.
    Outcome-bind _ _ (each_step-Outcome call step kinds ps h)
      (λ more t. returns _ (All-append (Sound call) found more s t)))
each_step-Outcome call step [] ps h = returns [] tt
each_step-Outcome call step (kind ∷ kinds) [] h = returns [] tt

v4-Outcome : (call : Call) (p : Bytes) → Outcome IsMalformed (All (Sound call)) (v4 call p)
unfolding v4
v4-Outcome call p = Outcome-bind _ _ (dynamic-Malformed p 0) (λ actions _.
    Outcome-bind _ _ (bytes_array-Malformed p 1) (λ params _.
      Outcome-if (ltb (length params) (length actions)) _ _ (λ short. raises malformed refl)
        (λ enough. each_step-Outcome call _ actions params (v4_action-Outcome call))))

run_command-Outcome :
    (call : Call) (command : ℕ) (p : Bytes)
    → Outcome IsMalformed (All (Sound call)) (run_command call command p)
unfolding run_command
run_command-Outcome call command p =
    let kind = command % 128 in
    Outcome-if (kind == 0x00) _ _ (λ _. one-Sound call _ (v3_swap-Outcome call p true))
      (λ _.
        Outcome-if (kind == 0x01) _ _ (λ _. one-Sound call _ (v3_swap-Outcome call p false))
          (λ _.
            Outcome-if (kind == 0x08 || kind == 0x09) _ _
              (λ _.
                Outcome-bind _ _ (static_array-Malformed p 3 1)
                  (λ hops _. v2_swap-Outcome call p (kind == 0x08) hops))
              (λ _. Outcome-if (kind == 0x10) _ _ (λ _. v4-Outcome call p) (λ _. returns [] tt))))

pub universal_router-IsSound : IsSound execute
unfolding execute execute_commands
universal_router-IsSound = record {
  sound = λ again call depth keeps. Outcome-bind _ _ (dynamic-Malformed _ 0) (λ commands _.
      Outcome-bind _ _ (bytes_array-Malformed _ 1) (λ inputs _.
        Outcome-if (ltb (length inputs) (length commands)) _ _ (λ short. raises malformed refl)
          (λ enough. each_step-Outcome call _ commands inputs (run_command-Outcome call))));
}
