-- ===== src/Decoders/Erc20.antt =====
-- decoders/erc20.py: transfers and approvals, and Permit2's approve.
use robinhood_chain_sequence.Prelude.{some, [], ◌∷◌, ok, ◌>>=◌, drop}
use robinhood_chain_sequence.Intents.{Decoder, IntentKind, intent}
use robinhood_chain_sequence.Abi.{address, uint}

unfoldable pub transfer : Decoder
transfer again call depth = do
  let d = drop 4 call.calldata
  amount ← uint d 1
  to ← address d 0
  ok (
      record (intent IntentKind.transfer call.actor call.via) {
        token_in = call.to;
        amount_in = some amount;
        recipient = some to;
      }
      ∷ [])

unfoldable pub transfer_from : Decoder
transfer_from again call depth = do
  let d = drop 4 call.calldata
  from ← address d 0
  amount ← uint d 2
  to ← address d 1
  ok (
      record (intent IntentKind.transfer call.actor call.via) {
        payer = some from;
        token_in = call.to;
        amount_in = some amount;
        recipient = some to;
      }
      ∷ [])

unfoldable pub approve : Decoder
approve again call depth = do
  let d = drop 4 call.calldata
  amount ← uint d 1
  spender ← address d 0
  ok (
      record (intent IntentKind.approve call.actor call.via) {
        token_in = call.to;
        amount_in = some amount;
        recipient = some spender;
      }
      ∷ [])

unfoldable pub permit2_approve : Decoder
permit2_approve again call depth = do
  let d = drop 4 call.calldata
  asset ← address d 0
  amount ← uint d 2
  spender ← address d 1
  ok (
      record (intent IntentKind.approve call.actor call.via) {
        token_in = some asset;
        amount_in = some amount;
        recipient = some spender;
      }
      ∷ [])
