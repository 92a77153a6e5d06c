-- ===== src/Cli/Examples.antt =====
-- Runs of the theorems on the filters.
use robinhood_chain_sequence.Prelude.{◌≡◌, Option, none, some, [], ◌∷◌, replicate}
use robinhood_chain_sequence.Bytes.{Bytes, bytes_eq}
use robinhood_chain_sequence.Tx.{Tx, known, hash_only, init_tx, sender_bytes}
use robinhood_chain_sequence.Intents.{Decoder, Intent, intent, transfer, decode_intents}
use robinhood_chain_sequence.Cli.{Filter, keep}
use robinhood_chain_sequence.Cli.Keep.{keep_lem}

abbrev keccak : Bytes → Bytes
keccak b = b

abbrev public_key : Bytes → Bytes → Option Bytes
public_key sig digest = none

-- An empty table.
abbrev find : Bytes → Option Decoder
find selector = none

abbrev alice : Bytes
alice = replicate 20 0xaa

abbrev bob : Bytes
bob = replicate 20 0xbb

-- A plain transfer of alice's.
abbrev gift : Tx
gift = record (hash_only [] 2) { to_bytes = some bob; value = 5; sender_memo = known (some alice) }

abbrev sent : Intent
sent = record (intent transfer none (bob ∷ [])) { amount_in = some 5; recipient = some bob }

abbrev filter : Filter
filter = record { to = some (bob ∷ []); selector = none; sender = none; actor = some (alice ∷ []) }

keep_lem_example : keep keccak public_key find filter gift ≡ some (sent ∷ [])
unfolding keep bytes_eq decode_intents init_tx sender_bytes
keep_lem_example = keep_lem keccak public_key find filter gift
