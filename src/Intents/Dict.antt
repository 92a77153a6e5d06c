-- ===== src/Intents/Dict.antt =====
-- intents.py, `Intent.as_dict`: an intent with texts for its addresses.
use robinhood_chain_sequence.Prelude.{
  ℕ, Bool, Option, none, some, List, ◌++◌, Result, ok, ◌>>=◌, traverse, ◌==◌, if◌then◌else◌, length,
}
use robinhood_chain_sequence.Bytes.{Bytes}
use robinhood_chain_sequence.Hex.{Text, text, to_hex}
use robinhood_chain_sequence.Tx.Texts.{checksum, optional, nonempty}
use robinhood_chain_sequence.Intents.{Intent, IntentKind}

pub record IntentDict : Type 0 where
  pub kind : IntentKind
  pub actor : Option Text
  pub via : List Text
  pub payer : Option Text
  pub token_in : Option Text
  pub token_out : Option Text
  pub amount_in : Option ℕ
  pub amount_out : Option ℕ
  pub exact_in : Bool
  pub recipient : Option Text
  pub order_id : Option Text

-- "0x" + order_id.hex() if order_id else None
unfoldable pub order_text : Option Bytes → Option Text
order_text none = none
order_text (some id) = if length id == 0 then none else some (text "0x" ++ to_hex id)

module _ (keccak : Bytes → Bytes) where
  -- checksum(d[key]) if d[key] else None
  unfoldable pub address_or_none : Option Bytes → Result (Option Text)
  unfolding optional nonempty
  address_or_none a = optional keccak (nonempty a)

  unfoldable pub as_dict : Intent → Result IntentDict
  unfolding address_or_none order_text
  as_dict i = do
    actor ← address_or_none i.actor
    payer ← address_or_none i.payer
    token_in ← address_or_none i.token_in
    token_out ← address_or_none i.token_out
    recipient ← address_or_none i.recipient
    via ← traverse (checksum keccak) i.via
    ok (record {
      kind = i.kind;
      actor = actor;
      via = via;
      payer = payer;
      token_in = token_in;
      token_out = token_out;
      amount_in = i.amount_in;
      amount_out = i.amount_out;
      exact_in = i.exact_in;
      recipient = recipient;
      order_id = order_text i.order_id;
    })
