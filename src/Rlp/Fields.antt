-- ===== src/Rlp/Fields.antt =====
-- What an RLP list holds, as the Ethereum specification describes it: strings, and lists that the
-- scanner does not enter. `encode` is the encoding that the specification prescribes.
use robinhood_chain_sequence.Prelude.{ℕ, ◌+◌, ◌<◌, ◌^◌, List, [], ◌∷◌, ◌++◌, length, All, ◌-◌}
use robinhood_chain_sequence.Bytes.{Bytes}
use robinhood_chain_sequence.Rlp.{Item, item, rlp_header, rlp_bytes, rlp_list}

pub data Field : Type 0 where
  string : Bytes → Field
  nested : Bytes → Field

abbrev pub encode : Field → Bytes
encode (string b) = rlp_bytes b
encode (nested c) = rlp_list c

-- The bytes behind the length prefix.
abbrev pub payload : Field → Bytes
payload (string b) = b
payload (nested c) = c

abbrev pub encode_all : List Field → Bytes
encode_all [] = []
encode_all (f ∷ fs) = encode f ++ encode_all fs

abbrev pub payloads : List Field → List Bytes
payloads [] = []
payloads (f ∷ fs) = payload f ∷ payloads fs

-- RLP has no encoding for 2 ^ 64 bytes and more.
abbrev pub Fits : Bytes → Type 0
Fits b = length b < 256 ^ 8

abbrev pub FieldFits : Field → Type 0
FieldFits f = Fits (payload f)

-- Where the items stand when the first of them stands at `i`.
abbrev pub positions : ℕ → List Field → List Item
positions i [] = []
positions i (f ∷ fs) =
    let e = i + length (encode f) in item i (e - length (payload f)) e ∷ positions e fs

-- The encoded list, its header, and where its items stand.
abbrev pub list_of : List Field → Bytes
list_of fs = rlp_list (encode_all fs)

abbrev pub head_of : List Field → Bytes
head_of fs = rlp_header (length (encode_all fs)) 0xc0

abbrev pub places : List Field → List Item
places fs = positions (length (head_of fs)) fs

-- A list that RLP can encode.
pub record ListFits (fs : List Field) : Type 0 where
  pub each : All FieldFits fs
  pub whole : Fits (encode_all fs)
