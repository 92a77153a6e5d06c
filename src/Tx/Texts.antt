-- ===== src/Tx/Texts.antt =====
-- codec.py, the texts of a transaction: `checksum`, and the properties of `Tx` that are printed.
pub mod Checksum
use robinhood_chain_sequence.Prelude.{
  ℕ, ◌-◌, Bool, true, false, Option, none, some, List, [], ◌∷◌, ◌++◌, ◌&&◌, Result, ok, err,
  value_error, ◌>>=◌, ltb, ◌==◌, if◌then◌else◌, length,
}
use robinhood_chain_sequence.Bytes.{Bytes}
use robinhood_chain_sequence.Hex.{Text, text, to_hex}
use robinhood_chain_sequence.Tx.{Tx, Kind, kind, sender_bytes}

-- c.upper() if c > "9" and d > "7" else c, of hex digits in lower case.
unfoldable pub recase : ℕ → ℕ → ℕ
recase c d = if ltb b'9' c && ltb b'7' d then c - 32 else c

-- The digits of an address by those of a digest; a digest that is shorter raises.
unfoldable pub mixed : Text → Text → Result Text
unfolding recase
mixed [] digest = ok []
mixed (c ∷ lower) [] = err value_error
mixed (c ∷ lower) (d ∷ digest) = mixed lower digest >>= λ rest. ok (recase c d ∷ rest)

-- Tx.selector_hex
unfoldable pub selector_hex : Tx → Option Text
selector_hex tx = elim tx.selector [
  | none ↦ none
  | some s ↦ if length s == 0 then none else some (text "0x" ++ to_hex s)
]

-- `raw if raw`
unfoldable pub nonempty : Option Bytes → Option Bytes
nonempty none = none
nonempty (some raw) = if length raw == 0 then none else some raw

-- Tx.as_dict: `sender` is absent unless it is asked for.
pub record Resolved : Type 0 where
  pub hash : Text
  pub tx_type : ℕ
  pub to : Option Text
  pub value : ℕ
  pub nonce : ℕ
  pub gas : ℕ
  pub selector : Option Text
  pub kind : Kind
  pub raw_len : ℕ
  pub sender : Option (Option Text)

module _ (keccak : Bytes → Bytes) where
  unfoldable pub checksum : Bytes → Result Text
  unfolding mixed
  checksum address =
      let lower = to_hex address in mixed lower (to_hex (keccak lower)) >>= λ t. ok (text "0x" ++ t)

  -- Tx.hash
  unfoldable pub hash : Tx → Text
  hash tx = text "0x" ++ to_hex (keccak tx.raw)

  -- `checksum` of an address, where there is one.
  unfoldable pub optional : Option Bytes → Result (Option Text)
  unfolding checksum
  optional none = ok none
  optional (some a) = checksum a >>= λ t. ok (some t)

  -- Tx.to
  unfoldable pub to_text : Tx → Result (Option Text)
  unfolding optional
  to_text tx = optional tx.to_bytes

  module _ (public_key : Bytes → Bytes → Option Bytes) where
    -- Tx.sender
    unfoldable pub sender_text : Tx → Result (Option Text)
    unfolding optional nonempty
    sender_text tx = optional (nonempty (sender_bytes keccak public_key tx).0)

    unfoldable pub asked_sender : Bool → Tx → Result (Option (Option Text))
    unfolding sender_text
    asked_sender false tx = ok none
    asked_sender true tx = sender_text tx >>= λ s. ok (some s)

    unfoldable pub as_dict : Bool → Tx → Result Resolved
    unfolding to_text hash selector_hex asked_sender
    as_dict sender tx = do
      to ← to_text tx
      who ← asked_sender sender tx
      ok (record {
        hash = hash tx;
        tx_type = tx.tx_type;
        to = to;
        value = tx.value;
        nonce = tx.nonce;
        gas = tx.gas;
        selector = selector_hex tx;
        kind = kind tx;
        raw_len = length tx.raw;
        sender = who;
      })
