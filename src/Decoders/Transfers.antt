-- ===== src/Decoders/Transfers.antt =====
-- An ERC-20 transfer, from its calldata to the intent that the dispatch returns.
use robinhood_chain_sequence.Prelude.{
  ℕ, ◌-◌, ◌^◌, ◌≤◌, ◌<◌, ◌≡◌, refl, sym, ap, ◌∙◌, arith, List, [], ◌∷◌, ◌++◌, Option, some, length,
  length-append, take, drop, take-append, drop-append, ok, le→ltb_false,
}
use robinhood_chain_sequence.Bytes.{Bytes, to_bytes, zeros}
use robinhood_chain_sequence.Abi.{address, uint}
use robinhood_chain_sequence.Abi.Readers.{address_lem, uint_lem}
use robinhood_chain_sequence.Intents.{
  Call, Intent, IntentKind, Decoder, intent, decode_call, decode_with, decode_nested, or_silent,
}
use robinhood_chain_sequence.Decoders.Erc20.{transfer}

-- selector(address to, uint256 amount), with anything behind it.
abbrev pub transfer_calldata : Bytes → Bytes → ℕ → Bytes → Bytes
transfer_calldata selector to amount rest =
    selector ++ ((zeros 12 ++ to) ++ (to_bytes amount 32 ++ rest))

abbrev pub transfer_intent : Call → Bytes → ℕ → Intent
transfer_intent call to amount = record (intent IntentKind.transfer call.actor call.via) {
  token_in = call.to;
  amount_in = some amount;
  recipient = some to;
}

decode_with-found :
    (find : Bytes → Option Decoder) (call : Call) (depth : ℕ) (decoder : Decoder)
    (intents : List Intent) (again : Call → ℕ → List Intent)
    → depth ≤ 8
    → 4 ≤ length call.calldata
    → find (take 4 call.calldata) ≡ some decoder
    → decoder again call depth ≡ ok intents
    → decode_with find again call depth ≡ intents
unfolding decode_with
decode_with-found find call depth decoder intents again shallow size key result =
    simp (le→ltb_false 8 depth shallow, le→ltb_false (length call.calldata) 4 size, key, result)
      (unfold or_silent in refl)

module _ (selector to rest : Bytes) (amount : ℕ) (call : Call) where
  transfer-arguments :
      length selector ≡ 4
      → length to ≡ 20
      → amount < 256 ^ 32
      → call.calldata ≡ transfer_calldata selector to amount rest
      → (again : Call → ℕ → List Intent) (depth : ℕ)
      → transfer again call depth ≡ ok (transfer_intent call to amount ∷ [])
  unfolding transfer
  transfer-arguments four twenty small e again depth =
      let d : Bytes = (zeros 12 ++ to) ++ (to_bytes amount 32 ++ rest) in
      let cut : drop 4 call.calldata ≡ d =
        ap (λ b. drop 4 b) e ∙ drop-append selector d 4 (sym four) in
      let recipient : address d 0 ≡ ok to =
        address_lem d 0 to twenty (record {
          before = [];
          after = to_bytes amount 32 ++ rest;
          whole = refl;
          place = refl;
        }) in
      let value : uint d 1 ≡ ok amount = uint_lem d 1 amount small (record {
        before = zeros 12 ++ to;
        after = rest;
        whole = refl;
        place = omega (arith, length-append (zeros 12) to);
      }) in
      simp (cut, recipient, value)

  -- A call of ERC-20's `transfer` down to depth 8 gives one transfer intent, whose token is the
  -- contract called, and whose recipient and amount are the arguments; bytes behind the arguments
  -- change nothing. The table of decoders has the transfer decoder under the selector.
  pub decode_call-transfer :
      (find : Bytes → Option Decoder) (depth : ℕ)
      → length selector ≡ 4
      → length to ≡ 20
      → amount < 256 ^ 32
      → call.calldata ≡ transfer_calldata selector to amount rest
      → find selector ≡ some transfer
      → depth ≤ 8
      → decode_call find call depth ≡ transfer_intent call to amount ∷ []
  unfolding decode_call
  decode_call-transfer find depth four twenty small e found shallow =
      let d : Bytes = (zeros 12 ++ to) ++ (to_bytes amount 32 ++ rest) in
      let key : find (take 4 call.calldata) ≡ some transfer =
        ap find (ap (λ b. take 4 b) e ∙ take-append selector d 4 (sym four)) ∙ found in
      let size : 4 ≤ length call.calldata = omega (arith, ap length e, length-append selector d) in
      decode_with-found find call depth transfer (transfer_intent call to amount ∷ [])
        (decode_nested find (9 - depth)) shallow size key
        (transfer-arguments four twenty small e (decode_nested find (9 - depth)) depth)
