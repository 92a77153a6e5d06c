-- ===== src/Decoders/Registry.antt =====
-- intents.py, `decodes`, and the registrations of decoders/: the table from a selector to its decoder,
-- as importing the decoders fills it.
use robinhood_chain_sequence.Prelude.{
  ℕ, zero, suc, Bool, true, false, Option, none, some, List, [], ◌∷◌, ◌++◌, ◌&&◌, ◌||◌, not, Result,
  ok, err, value_error, ◌>>=◌, ◌==◌, if◌then◌else◌, length, take, drop,
}
use robinhood_chain_sequence.Bytes.{Bytes, bytes_eq}
use robinhood_chain_sequence.Hex.{Text, text, digit_value, sel}
use robinhood_chain_sequence.Intents.{Decoder}
use robinhood_chain_sequence.Decoders.Routers.{buy, exec}
use robinhood_chain_sequence.Decoders.UniversalRouter
use robinhood_chain_sequence.Decoders.Signatures.{
  Registration, under, erc20, erc4337, relay, steps_router, uniswap_v3, uniswap_v2, multicalls,
}

-- RAW_SELECTOR.fullmatch
unfoldable pub are_digits : Text → Bool
are_digits [] = true
are_digits (c ∷ cs) =
    let rest = are_digits cs in elim (digit_value c) [ none ↦ false | some d ↦ rest ]

unfoldable pub is_raw_selector : Text → Bool
unfolding are_digits
is_raw_selector t = length t == 10 && bytes_eq (take 2 t) (text "0x") && are_digits (drop 2 t)

-- "(" in signature
unfoldable pub has_parenthesis : Text → Bool
has_parenthesis [] = false
has_parenthesis (c ∷ cs) = c == b'(' || has_parenthesis cs

-- DECODERS, from a selector to the place of its decoder among the registrations.
abbrev pub Table : Type 0
Table = List (Bytes × ℕ)

-- DECODERS.get(selector)
unfoldable pub lookup : Table → Bytes → Option ℕ
lookup [] selector = none
lookup ((s, id) ∷ table) selector =
    let rest = lookup table selector in if bytes_eq s selector then some id else rest

-- The check for another decoder of the selector, and DECODERS[selector] = fn.
unfoldable pub put_found : Table → Bytes → ℕ → Option ℕ → Result Table
put_found table selector id none = ok (table ++ (selector, id) ∷ [])
put_found table selector id (some found) = if found == id then ok table else err value_error

unfoldable pub put : Table → Bytes → ℕ → Result Table
unfolding put_found
put table selector id = put_found table selector id (lookup table selector)

-- The decoder of a place.
unfoldable pub decoder_at : List Registration → ℕ → Option Decoder
decoder_at [] id = none
decoder_at (r ∷ rs) zero = some r.decoder
decoder_at (r ∷ rs) (suc id) = decoder_at rs id

module _ (keccak : Bytes → Bytes) where
  unfoldable pub selector_of : Text → Bytes
  selector_of signature = take 4 (keccak signature)

  -- The selector of a registration: a raw one, or that of a signature.
  unfoldable pub selector_for : Text → Result Bytes
  unfolding is_raw_selector has_parenthesis selector_of
  selector_for signature =
      if is_raw_selector signature
      then sel signature
      else if (bytes_eq (take 2 signature) (text "0x") || bytes_eq (take 2 signature) (text "0X"))
          && not (has_parenthesis signature)
      then err value_error
      else ok (selector_of signature)

  -- `register` of `decodes`
  unfoldable pub register : List Text → ℕ → Table → Result Table
  unfolding put selector_for
  register [] id table = ok table
  register (signature ∷ signatures) id table = do
    selector ← selector_for signature
    grown ← put table selector id
    register signatures id grown

  -- All the modules of decoders/, in the order of their import.
  abbrev pub registrations : List Registration
  registrations =
      erc20
      ++ erc4337
      ++ under (text "0xc1120e3d" ∷ []) buy ∷ []
      ++ relay
      ++ steps_router
      ++ uniswap_v3
      ++ uniswap_v2
      ++ multicalls
      ++ under (text "execute(bytes,bytes[],uint256)" ∷ text "execute(bytes,bytes[])" ∷ [])
          UniversalRouter.execute
        ∷ under (text "exec(address,address,uint256,address,bytes)" ∷ [])
            (exec (selector_of (text "execute((address,address,uint256),bytes[],bytes32)")))
        ∷ []

  unfoldable pub register_all : List Registration → ℕ → Table → Result Table
  unfolding register
  register_all [] id table = ok table
  register_all (r ∷ rs) id table =
      register r.signatures id table >>= λ grown. register_all rs (suc id) grown

  -- What importing the decoders makes of the empty table.
  unfoldable pub load : Result Table
  unfolding register_all
  load = register_all registrations 0 []

  -- The decoder that `decode_call` finds.
  unfoldable pub find : Table → Bytes → Option Decoder
  unfolding lookup decoder_at
  find table selector = elim (lookup table selector) [
    | none ↦ none
    | some id ↦ decoder_at registrations id
  ]
