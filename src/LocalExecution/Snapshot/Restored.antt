-- ===== src/LocalExecution/Snapshot/Restored.antt =====
-- What an EVM holds that is filled from a snapshot.
use robinhood_chain_sequence.Prelude.{
  ℕ, ◌≡◌, refl, sym, ap, ◌∙◌, arith, Bool-cases, inl, inr, List, [], ◌∷◌, ◌++◌, ◌&&◌, map, ok, All,
  ◌==◌, some,
}
use mathlib.Core.Path.{subst}
use robinhood_chain_sequence.Bytes.{Bytes, bytes_eq}
use robinhood_chain_sequence.Bytes.Equality.{bytes_eq→eq}
use robinhood_chain_sequence.Hex.{Text}
use robinhood_chain_sequence.LocalExecution.Snapshot.{
  hex, int_16, Fork, Slots, accounts_from, storage_from, snapshot_at, Store, AccountInfo,
  insert_slots, insert_storage, evm_from_snapshot,
}
use robinhood_chain_sequence.LocalExecution.Snapshot.Numerals.{int_16-hex}
use robinhood_chain_sequence.LocalExecution.Snapshot.Filled.{Told, AllTold, HasKey, HasSlot}
use robinhood_chain_sequence.LocalExecution.Snapshot.Gathered.{Listed, storage_from-Gathered}
use robinhood_chain_sequence.LocalExecution.Snapshot.Accounts.{
  StoreLaws, Named, HasBytes, said, accounts_from-Peopled, insert_accounts-Populated,
}

hex-injective : (m n : ℕ) → hex m ≡ hex n → m ≡ n
hex-injective m n e = let same : ok m ≡ ok n = sym (int_16-hex m) ∙ ap int_16 e ∙ int_16-hex n in cc

module _ {Evm : Type 0} (store : Store Evm) (keccak : Bytes → Bytes) (fork : Fork)
    (laws : StoreLaws store) where
  -- A slot that holds what the fork says goes on to hold it.
  abbrev Kept : Evm → Evm → Type 0
  Kept before after =
      (a : Text) (slot : ℕ)
      → store.storage before a slot ≡ fork.storage a slot
      → store.storage after a slot ≡ fork.storage a slot

  abbrev AccountsKept : Evm → Evm → Type 0
  AccountsKept before after =
      (a : Text) (info : AccountInfo)
      → store.basic before a ≡ some info
      → store.basic after a ≡ some info

  write-Kept :
      (evm : Evm) (address : Text) (slot : ℕ)
      → Kept evm (store.insert_account_storage evm address slot (fork.storage address slot))
  write-Kept evm address slot a other h = elim (Bool-cases (bytes_eq address a && slot == other)) [
    | inl both ↦
        let same : address ≡ a = bytes_eq→eq address a (ground (arith, both)) in
        let slot_same : slot ≡ other = ground (arith, both) in
        let here = laws.written evm address slot (fork.storage address slot) in
        subst
          (λ b.
            store.storage
              (store.insert_account_storage evm address slot (fork.storage address slot)) b other
            ≡ fork.storage b other)
          same
          (subst
            (λ n.
              store.storage
                (store.insert_account_storage evm address slot (fork.storage address slot)) address
                n
              ≡ fork.storage address n)
            slot_same here)
    | inr other_place ↦
        laws.apart evm address a slot other (fork.storage address slot) other_place ∙ h
  ]

  record Filled (address : Text) (slots : Slots) (before : Evm) : Type 0 where
    after : Evm
    runs : insert_slots store keccak address slots before ≡ ok after
    kept : Kept before after
    accounts_kept : AccountsKept before after
    each :
        (slot : ℕ)
        → HasKey (hex slot) slots
        → store.storage after address slot ≡ fork.storage address slot

  insert_slots-Filled :
      (address : Text) (slots : Slots) (evm : Evm)
      → All (Told fork address) slots
      → Filled address slots evm
  unfolding insert_slots HasKey
  insert_slots-Filled address [] evm told = record {
    after = evm;
    runs = refl;
    kept = λ a slot h. h;
    accounts_kept = λ a info h. h;
    each = λ slot has. elim has [ ];
  }
  insert_slots-Filled address ((k, v) ∷ slots) evm ((slot, ke, ve), told) =
      let value = fork.storage address slot in
      let rest =
        insert_slots-Filled address slots (store.insert_account_storage evm address slot value)
          told in
      let key_read : int_16 k ≡ ok slot = ap int_16 ke ∙ int_16-hex slot in
      let value_read : int_16 v ≡ ok value = ap int_16 ve ∙ int_16-hex value in
      record {
        after = rest.after;
        runs = rw (key_read, value_read) rest.runs;
        kept = λ a other h. rest.kept a other (write-Kept evm address slot a other h);
        accounts_kept = λ a info h.
            rest.accounts_kept a info (laws.inserted_stays evm address a slot value info h);
        each = λ other has. elim has [
          | inl here ↦
              let same : slot ≡ other = hex-injective slot other (sym ke ∙ here) in
              subst (λ n. store.storage rest.after address n ≡ fork.storage address n) same
                (rest.kept address slot (laws.written evm address slot value))
          | inr later ↦ rest.each other later
        ];
      }

  record Restores (storage : List (Text × Slots)) (before : Evm) : Type 0 where
    after : Evm
    runs : insert_storage store keccak storage before ≡ ok after
    kept : Kept before after
    accounts_kept : AccountsKept before after
    each :
        (a : Text) (slot : ℕ)
        → HasSlot a (hex slot) storage
        → store.storage after a slot ≡ fork.storage a slot

  insert_storage-Restores :
      (storage : List (Text × Slots)) (evm : Evm) → AllTold fork storage → Restores storage evm
  unfolding insert_storage HasSlot
  insert_storage-Restores [] evm told = record {
    after = evm;
    runs = refl;
    kept = λ a slot h. h;
    accounts_kept = λ a info h. h;
    each = λ a slot has. elim has [ ];
  }
  insert_storage-Restores ((b, slots) ∷ storage) evm (these, told) =
      let first = insert_slots-Filled b slots evm these in
      let rest = insert_storage-Restores storage first.after told in
      record {
        after = rest.after;
        runs = rw first.runs rest.runs;
        kept = λ a slot h. rest.kept a slot (first.kept a slot h);
        accounts_kept = λ a info h. rest.accounts_kept a info (first.accounts_kept a info h);
        each = λ a slot has. elim has [
          | inl (same, key) ↦
              subst (λ c. store.storage rest.after c slot ≡ fork.storage c slot) same
                (rest.kept b slot (first.each slot key))
          | inr later ↦ rest.each a slot later
        ];
      }

  -- The offline EVM starts from what the node said. For any slots and accounts, and a fork whose codes
  -- are bytes, the snapshot that is taken fills an EVM without an error. Of every slot in the list that
  -- EVM then holds what the fork holds, and every address in the list of accounts, or of a slot, has
  -- the balance, the nonce and the code that the fork gave, with the hash of the code where there is
  -- any: 0 and 0 where the fork has no account, and no code where it is empty. Of the EVM it is relied
  -- on that a slot holds what was written to it last, that an account is what was inserted last, and
  -- that neither changes by other writes.
  pub evm_from_snapshot-snapshot_at :
      (block : ℕ) (slots : List (Text × ℕ)) (accounts : List Text)
      → HasBytes fork
      → (evm : Evm) × (evm_from_snapshot store keccak (snapshot_at fork block slots accounts)
          ≡ ok evm)
        × ((a : Text) (slot : ℕ)
            → Listed a slot slots
            → store.storage evm a slot ≡ fork.storage a slot)
        × ((a : Text)
            → Named a (accounts ++ map (λ (address, slot). address) slots)
            → store.basic evm a ≡ some (said keccak (fork.basic a) (fork.get_code a)))
  unfolding evm_from_snapshot snapshot_at
  evm_from_snapshot-snapshot_at block slots accounts bytes =
      let addresses = accounts ++ map (λ (a, slot). a) slots in
      let gathered = storage_from-Gathered fork slots [] tt in
      let people = accounts_from-Peopled fork addresses [] tt in
      let begun =
        insert_accounts-Populated store keccak fork laws (accounts_from fork addresses [])
          store.fresh bytes people.each in
      let filled = insert_storage-Restores (storage_from fork slots []) begun.after gathered.told in
      (
        filled.after,
        rw begun.runs filled.runs,
        λ a slot listed. filled.each a slot (gathered.all a slot listed),
        λ a named. filled.accounts_kept a _ (begun.each a (people.all a named)),
      )
