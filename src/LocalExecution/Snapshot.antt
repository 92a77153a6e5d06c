-- ===== src/LocalExecution/Snapshot.antt =====
-- examples/local_execution/execute.py, `snapshot_at` and `evm_from_snapshot`. The fork of the node and
-- the EVM that is filled are pyrevm's, parameters. The dictionaries are association lists in the order
-- of insertion; that the accounts are sorted in the file shows nowhere else. `json.dumps` and
-- `json.loads` give the snapshot back as it was.
pub mod Numerals
pub mod Filled
pub mod Gathered
pub mod Accounts
pub mod Restored
use robinhood_chain_sequence.Prelude.{
  ℕ, zero, suc, ◌+◌, ◌*◌, ◌/◌, ◌%◌, Option, none, some, List, [], ◌∷◌, ◌++◌, map, Result, ok, err,
  value_error, ◌>>=◌, ltb, ◌==◌, if◌then◌else◌, length,
}
use robinhood_chain_sequence.Bytes.{Bytes, bytes_eq}
use robinhood_chain_sequence.Hex.{Text, text, to_hex, hex_digit, digit_value, remove_0x, from_hex}

-- The digits of a number, the last one for each round.
unfoldable pub digits_from : ℕ → ℕ → ℕ → Text
digits_from base zero n = []
digits_from base (suc fuel) n =
    let front = digits_from base fuel (n / base) in
    if ltb n base then hex_digit n ∷ [] else front ++ hex_digit (n % base) ∷ []

-- str(n) and hex(n)
unfoldable pub decimal : ℕ → Text
unfolding digits_from
decimal n = digits_from 10 (suc n) n

unfoldable pub hex : ℕ → Text
unfolding digits_from
hex n = text "0x" ++ digits_from 16 (suc n) n

-- int(t, base), of the texts that str and hex write: digits, behind 0x or not in base 16.
abbrev pub with_digit : ℕ → Option ℕ → (ℕ → Option ℕ) → Option ℕ
with_digit base none next = none
with_digit base (some d) next = if ltb d base then next d else none

unfoldable pub read_digits : ℕ → ℕ → Text → Option ℕ
read_digits base acc [] = some acc
read_digits base acc (c ∷ cs) =
    with_digit base (digit_value c) (λ d. read_digits base (acc * base + d) cs)

abbrev pub or_value_error {ℓ} : {A : Type ℓ} → Option A → Result A
or_value_error none = err value_error
or_value_error (some a) = ok a

unfoldable pub int_of : ℕ → Text → Result ℕ
unfolding read_digits
int_of base [] = err value_error
int_of base (c ∷ cs) = or_value_error (read_digits base 0 (c ∷ cs))

unfoldable pub int_16 : Text → Result ℕ
unfolding int_of
int_16 t = int_of 16 (remove_0x t)

-- What the fork answers: `basic`, `get_code` and `storage`.
pub record Info : Type 0 where
  pub balance : ℕ
  pub nonce : ℕ

pub record Fork : Type 0 where
  pub basic : Text → Option Info
  pub get_code : Text → Option Bytes
  pub storage : Text → ℕ → ℕ

-- An account as it is written.
pub record Account : Type 0 where
  pub balance : Text
  pub nonce : ℕ
  pub code : Text

abbrev pub Slots : Type 0
Slots = List (Text × Text)

pub record Snapshot : Type 0 where
  pub block : ℕ
  pub accounts : List (Text × Account)
  pub storage : List (Text × Slots)

-- d[key] = value
unfoldable pub put_key {ℓ} : {A : Type ℓ} → Text → A → List (Text × A) → List (Text × A)
put_key key value [] = (key, value) ∷ []
put_key key value ((k, v) ∷ d) =
    let rest = put_key key value d in if bytes_eq k key then (k, value) ∷ d else (k, v) ∷ rest

-- storage.setdefault(address, {})[slot] = value
unfoldable pub put_slot : Text → Text → Text → List (Text × Slots) → List (Text × Slots)
unfolding put_key
put_slot address slot value [] = (address, (slot, value) ∷ []) ∷ []
put_slot address slot value ((a, slots) ∷ storage) =
    let rest = put_slot address slot value storage in
    if bytes_eq a address then (a, put_key slot value slots) ∷ storage else (a, slots) ∷ rest

unfoldable pub account_of : Option Info → Option Bytes → Account
unfolding decimal
account_of info code = record {
  balance = decimal (elim info [ none ↦ 0 | some i ↦ i.balance ]);
  nonce = elim info [ none ↦ 0 | some i ↦ i.nonce ];
  code = to_hex (elim code [ none ↦ [] | some bs ↦ bs ]);
}

module _ (fork : Fork) where
  unfoldable pub accounts_from : List Text → List (Text × Account) → List (Text × Account)
  unfolding put_key account_of
  accounts_from [] accounts = accounts
  accounts_from (a ∷ addresses) accounts =
      accounts_from addresses (put_key a (account_of (fork.basic a) (fork.get_code a)) accounts)

  unfoldable pub storage_from : List (Text × ℕ) → List (Text × Slots) → List (Text × Slots)
  unfolding put_slot hex
  storage_from [] storage = storage
  storage_from ((a, slot) ∷ slots) storage =
      storage_from slots (put_slot a (hex slot) (hex (fork.storage a slot)) storage)

  unfoldable pub snapshot_at : ℕ → List (Text × ℕ) → List Text → Snapshot
  unfolding accounts_from storage_from
  snapshot_at block slots accounts = record {
    block = block;
    accounts = accounts_from (accounts ++ map (λ (a, slot). a) slots) [];
    storage = storage_from slots [];
  }

-- AccountInfo: no code and no hash where the code is empty.
pub record AccountInfo : Type 0 where
  pub balance : ℕ
  pub nonce : ℕ
  pub code : Option Bytes
  pub code_hash : Option Bytes

-- The EVM that is filled, and its readers.
pub record Store (Evm : Type 0) : Type 0 where
  pub fresh : Evm
  pub insert_account_info : Evm → Text → AccountInfo → Evm
  pub insert_account_storage : Evm → Text → ℕ → ℕ → Evm
  pub storage : Evm → Text → ℕ → ℕ
  pub basic : Evm → Text → Option AccountInfo

-- bytes.fromhex
unfoldable pub fromhex : Text → Result Bytes
fromhex t = or_value_error (from_hex t)

module _ {Evm : Type 0} (store : Store Evm) (keccak : Bytes → Bytes) where
  unfoldable pub info_of : ℕ → ℕ → Bytes → AccountInfo
  info_of balance nonce code = record {
    balance = balance;
    nonce = nonce;
    code = if length code == 0 then none else some code;
    code_hash = if length code == 0 then none else some (keccak code);
  }

  unfoldable pub insert_accounts : List (Text × Account) → Evm → Result Evm
  unfolding info_of fromhex int_of
  insert_accounts [] evm = ok evm
  insert_accounts ((address, a) ∷ accounts) evm = do
    code ← fromhex a.code
    balance ← int_of 10 a.balance
    insert_accounts accounts (store.insert_account_info evm address (info_of balance a.nonce code))

  unfoldable pub insert_slots : Text → Slots → Evm → Result Evm
  unfolding int_16
  insert_slots address [] evm = ok evm
  insert_slots address ((slot, value) ∷ slots) evm = do
    s ← int_16 slot
    v ← int_16 value
    insert_slots address slots (store.insert_account_storage evm address s v)

  unfoldable pub insert_storage : List (Text × Slots) → Evm → Result Evm
  unfolding insert_slots
  insert_storage [] evm = ok evm
  insert_storage ((address, slots) ∷ storage) evm =
      insert_slots address slots evm >>= insert_storage storage

  unfoldable pub evm_from_snapshot : Snapshot → Result Evm
  unfolding insert_accounts insert_storage
  evm_from_snapshot snap = insert_accounts snap.accounts store.fresh >>= insert_storage snap.storage
