-- ===== src/LocalExecution/Snapshot/Accounts.antt =====
-- The accounts of a snapshot, gathered from the fork and inserted into the EVM.
use robinhood_chain_sequence.Prelude.{
  ℕ, ◌≡◌, ◌⊎◌, refl, ap, ◌∙◌, arith, false, Bool-cases, inl, inr, Option, none, some, List, [], ◌∷◌,
  ◌&&◌, ◌==◌, length, ok, All,
}
use mathlib.Core.Path.{subst}
use robinhood_chain_sequence.Bytes.{Bytes, IsByte, bytes_eq}
use robinhood_chain_sequence.Bytes.Equality.{bytes_eq→eq}
use robinhood_chain_sequence.Hex.{Text}
use robinhood_chain_sequence.Hex.Digits.{from_hex-to_hex}
use robinhood_chain_sequence.LocalExecution.Snapshot.{
  Info, Fork, Account, put_key, account_of, accounts_from, AccountInfo, Store, info_of, fromhex,
  insert_accounts,
}
use robinhood_chain_sequence.LocalExecution.Snapshot.Numerals.{int_of-decimal}
use robinhood_chain_sequence.LocalExecution.Snapshot.Filled.{
  HasKey, put_key-key, put_key-HasKey, put_key-All,
}

-- What is relied on of the EVM: a slot holds what was written to it last, and another write of a
-- slot leaves it as it is; an account is what was inserted last, another insertion leaves it as it is,
-- and so does a write of a slot.
pub record StoreLaws {Evm : Type 0} (store : Store Evm) : Type 0 where
  pub written :
      (evm : Evm) (a : Text) (slot value : ℕ)
      → store.storage (store.insert_account_storage evm a slot value) a slot ≡ value
  pub apart :
      (evm : Evm) (a b : Text) (slot other value : ℕ)
      → (bytes_eq a b && slot == other) ≡ false
      → store.storage (store.insert_account_storage evm a slot value) b other
        ≡ store.storage evm b other
  pub inserted :
      (evm : Evm) (a : Text) (info : AccountInfo)
      → store.basic (store.insert_account_info evm a info) a ≡ some info
  pub inserted_apart :
      (evm : Evm) (a b : Text) (info : AccountInfo)
      → bytes_eq a b ≡ false
      → store.basic (store.insert_account_info evm a info) b ≡ store.basic evm b
  pub inserted_stays :
      (evm : Evm) (a b : Text) (slot value : ℕ) (info : AccountInfo)
      → store.basic evm b ≡ some info
      → store.basic (store.insert_account_storage evm a slot value) b ≡ some info

-- An address of a list.
unfoldable pub Named : Text → List Text → Type 0
Named a [] = ⊥
Named a (b ∷ addresses) = (b ≡ a) ⊎ Named a addresses

-- The code of every account is a byte string.
abbrev pub HasBytes : Fork → Type 0
HasBytes fork = (a : Text) (code : Bytes) → fork.get_code a ≡ some code → All IsByte code

-- The account that a fork speaks of: without an answer its balance and its nonce are 0, and where the
-- code is empty or not there, there is no code and no hash of it.
unfoldable pub code_said : Option Bytes → Option Bytes
code_said none = none
code_said (some []) = none
code_said (some (b ∷ bs)) = some (b ∷ bs)

abbrev pub or_zero_by : (Info → ℕ) → Option Info → ℕ
or_zero_by field none = 0
or_zero_by field (some info) = field info

unfoldable pub said : (Bytes → Bytes) → Option Info → Option Bytes → AccountInfo
unfolding code_said
said keccak info code = record {
  balance = or_zero_by (λ i. i.balance) info;
  nonce = or_zero_by (λ i. i.nonce) info;
  code = code_said code;
  code_hash = elim (code_said code) [ none ↦ none | some bs ↦ some (keccak bs) ];
}

abbrev or_empty : Option Bytes → Bytes
or_empty none = []
or_empty (some bs) = bs

or_empty-IsByte :
    (code : Option Bytes)
    → ((bs : Bytes) → code ≡ some bs → All IsByte bs)
    → All IsByte (or_empty code)
or_empty-IsByte none h = tt
or_empty-IsByte (some bs) h = h bs refl

module _ {Evm : Type 0} (store : Store Evm) (keccak : Bytes → Bytes) where
  info_of-said :
      (info : Option Info) (code : Option Bytes)
      → info_of store keccak
          (or_zero_by (λ i. i.balance) info)
          (or_zero_by (λ i. i.nonce) info)
          (or_empty code)
        ≡ said keccak info code
  unfolding info_of said
  info_of-said info none = refl
  info_of-said info (some []) = refl
  info_of-said info (some (b ∷ bs)) =
      let some_bytes : (length (b ∷ bs) == 0) ≡ false = ground arith in rw some_bytes refl

  account_read :
      (info : Option Info) (code : Option Bytes) (evm : Evm) (a : Text)
      (accounts : List (Text × Account))
      → All IsByte (or_empty code)
      → insert_accounts store keccak ((a, account_of info code) ∷ accounts) evm
        ≡ insert_accounts store keccak accounts
            (store.insert_account_info evm a (said keccak info code))
  unfolding insert_accounts account_of fromhex
  account_read info code evm a accounts bytes =
      rw
        (
          int_of-decimal (or_zero_by (λ i. i.balance) info),
          from_hex-to_hex (or_empty code) bytes,
          ← info_of-said info code,
        )
        refl

module _ (fork : Fork) where
  -- An account that is written with what the fork says of it.
  abbrev pub SaidOf : Text × Account → Type 0
  SaidOf (a, account) = account ≡ account_of (fork.basic a) (fork.get_code a)

  pub record Peopled (addresses : List Text) (before after : List (Text × Account)) : Type 0 where
    pub each : All SaidOf after
    pub stays : (a : Text) → HasKey a before → HasKey a after
    pub all : (a : Text) → Named a addresses → HasKey a after

  pub accounts_from-Peopled :
      (addresses : List Text) (accounts : List (Text × Account))
      → All SaidOf accounts
      → Peopled addresses accounts (accounts_from fork addresses accounts)
  unfolding accounts_from Named
  accounts_from-Peopled [] accounts h = record {
    each = h;
    stays = λ a has. has;
    all = λ a named. elim named [ ];
  }
  accounts_from-Peopled (b ∷ addresses) accounts h =
      let account = account_of (fork.basic b) (fork.get_code b) in
      let rest = accounts_from-Peopled addresses _ (put_key-All SaidOf b account accounts refl h) in
      record {
        each = rest.each;
        stays = λ a has. rest.stays a (put_key-HasKey b account a accounts has);
        all = λ a named. elim named [
          | inl same ↦ rest.stays a (
              subst (λ c. HasKey c (put_key b account accounts)) same
                (put_key-key b account accounts))
          | inr later ↦ rest.all a later
        ];
      }

module _ {Evm : Type 0} (store : Store Evm) (keccak : Bytes → Bytes) (fork : Fork)
    (laws : StoreLaws store) where
  -- The EVM holds the account that the fork speaks of.
  abbrev pub HasAccount : Evm → Text → Type 0
  HasAccount evm a = store.basic evm a ≡ some (said keccak (fork.basic a) (fork.get_code a))

  insert-HasAccount :
      (evm : Evm) (a b : Text)
      → HasAccount evm b
      → HasAccount
          (store.insert_account_info evm a (said keccak (fork.basic a) (fork.get_code a)))
          b
  insert-HasAccount evm a b h =
      let info = said keccak (fork.basic a) (fork.get_code a) in
      elim (Bool-cases (bytes_eq a b)) [
        | inl same ↦
            subst (HasAccount (store.insert_account_info evm a info)) (bytes_eq→eq a b same)
              (laws.inserted evm a info)
        | inr other ↦ laws.inserted_apart evm a b info other ∙ h
      ]

  pub record Populated (accounts : List (Text × Account)) (before : Evm) : Type 0 where
    pub after : Evm
    pub runs : insert_accounts store keccak accounts before ≡ ok after
    pub kept : (a : Text) → HasAccount before a → HasAccount after a
    pub each : (a : Text) → HasKey a accounts → HasAccount after a

  pub insert_accounts-Populated :
      (accounts : List (Text × Account)) (evm : Evm)
      → HasBytes fork
      → All (SaidOf fork) accounts
      → Populated accounts evm
  unfolding HasKey
  insert_accounts-Populated [] evm bytes h = record {
    after = evm;
    runs = unfold insert_accounts in refl;
    kept = λ a has. has;
    each = λ a has. elim has [ ];
  }
  insert_accounts-Populated ((b, account) ∷ accounts) evm bytes (e, h) =
      let info = said keccak (fork.basic b) (fork.get_code b) in
      let grown = store.insert_account_info evm b info in
      let rest = insert_accounts-Populated accounts grown bytes h in
      let read =
        account_read store keccak (fork.basic b) (fork.get_code b) evm b accounts
          (or_empty-IsByte (fork.get_code b) (bytes b)) in
      record {
        after = rest.after;
        runs = ap (λ x. insert_accounts store keccak ((b, x) ∷ accounts) evm) e ∙ read ∙ rest.runs;
        kept = λ a has. rest.kept a (insert-HasAccount evm b a has);
        each = λ a has. elim has [
          | inl same ↦ subst (HasAccount rest.after) same (rest.kept b (laws.inserted evm b info))
          | inr later ↦ rest.each a later
        ];
      }
