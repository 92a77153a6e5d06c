-- ===== src/LocalExecution/Snapshot/Filled.antt =====
-- The storage of a snapshot, slot by slot.
use robinhood_chain_sequence.Prelude.{
  ℕ, ◌≡◌, ◌⊎◌, refl, sym, Bool-cases, inl, inr, List, [], ◌∷◌, All,
}
use mathlib.Core.Path.{subst}
use robinhood_chain_sequence.Bytes.{bytes_eq}
use robinhood_chain_sequence.Bytes.Equality.{bytes_eq→eq}
use robinhood_chain_sequence.Hex.{Text}
use robinhood_chain_sequence.LocalExecution.Snapshot.{hex, Fork, Slots, put_key, put_slot}

-- A slot that is written with what the fork says of it.
abbrev pub Told : Fork → Text → Text × Text → Type 0
Told fork a (k, v) = (slot : ℕ) × (k ≡ hex slot) × (v ≡ hex (fork.storage a slot))

abbrev pub AllTold : Fork → List (Text × Slots) → Type 0
AllTold fork storage = All (λ (a, slots). All (Told fork a) slots) storage

-- The dictionary has the key.
unfoldable pub HasKey {ℓ} : {A : Type ℓ} → Text → List (Text × A) → Type 0
HasKey key [] = ⊥
HasKey key ((k, v) ∷ d) = (k ≡ key) ⊎ HasKey key d

pub put_key-key {ℓ} :
    {A : Type ℓ} (key : Text) (value : A) (d : List (Text × A)) → HasKey key (put_key key value d)
unfolding put_key HasKey
put_key-key key value [] = inl refl
put_key-key key value ((k, v) ∷ d) = elim (Bool-cases (bytes_eq k key)) [
  | inl same ↦ rw same (inl (bytes_eq→eq k key same))
  | inr other ↦ rw other (inr (put_key-key key value d))
]

pub put_key-HasKey {ℓ} :
    {A : Type ℓ} (new : Text) (value : A) (key : Text) (d : List (Text × A))
    → HasKey key d
    → HasKey key (put_key new value d)
unfolding put_key HasKey
put_key-HasKey new value key [] has = elim has [ ]
put_key-HasKey new value key ((k, v) ∷ d) has = elim (Bool-cases (bytes_eq k new)) [
  | inl same ↦ rw same has
  | inr other ↦ elim has [
    | inl here ↦ rw other (inl here)
    | inr later ↦ rw other (inr (put_key-HasKey new value key d later))
  ]
]

-- What holds of every entry, and of the one that is written, holds of every entry afterwards.
pub put_key-All {ℓ κ} :
    {A : Type ℓ} (P : Text × A → Type κ) (key : Text) (value : A) (d : List (Text × A))
    → P (key, value)
    → All P d
    → All P (put_key key value d)
unfolding put_key
put_key-All P key value [] p h = (p, tt)
put_key-All P key value ((k, v) ∷ d) p (this, h) = elim (Bool-cases (bytes_eq k key)) [
  | inl same ↦
      let e : key ≡ k = sym (bytes_eq→eq k key same) in rw same (subst (λ t. P (t, value)) e p, h)
  | inr other ↦ rw other (this, put_key-All P key value d p h)
]

unfoldable pub HasSlot : Text → Text → List (Text × Slots) → Type 0
HasSlot a key [] = ⊥
HasSlot a key ((b, slots) ∷ storage) = ((b ≡ a) × HasKey key slots) ⊎ HasSlot a key storage

module _ (fork : Fork) (address : Text) (slot : ℕ) where
  told : Told fork address (hex slot, hex (fork.storage address slot))
  told = (slot, refl, refl)

  abbrev put_here : Slots → Slots
  put_here slots = put_key (hex slot) (hex (fork.storage address slot)) slots

  put_key-Told :
      (slots : Slots)
      → All (Told fork address) slots
      → All (Told fork address) (put_here slots) × HasKey (hex slot) (put_here slots)
  put_key-Told slots h = (
    put_key-All (Told fork address) (hex slot) (hex (fork.storage address slot)) slots told h,
    put_key-key (hex slot) (hex (fork.storage address slot)) slots,
  )

  abbrev pub put : List (Text × Slots) → List (Text × Slots)
  put storage = put_slot address (hex slot) (hex (fork.storage address slot)) storage

  pub put_slot-Told :
      (storage : List (Text × Slots))
      → AllTold fork storage
      → AllTold fork (put storage) × HasSlot address (hex slot) (put storage)
  unfolding put_slot HasSlot HasKey
  put_slot-Told [] h = (((told, tt), tt), inl (refl, inl refl))
  put_slot-Told ((a, slots) ∷ storage) (this, h) = elim (Bool-cases (bytes_eq a address)) [
    | inl same ↦
        let e : a ≡ address = bytes_eq→eq a address same in
        let (all, has) = put_key-Told slots (rw (← e) this) in rw same ((rw e all, h), inl (e, has))
    | inr other ↦ let (rest, has) = put_slot-Told storage h in rw other ((this, rest), inr has)
  ]

  pub put_slot-HasSlot :
      (a key : Text) (storage : List (Text × Slots))
      → HasSlot a key storage
      → HasSlot a key (put storage)
  unfolding put_slot HasSlot
  put_slot-HasSlot a key [] has = elim has [ ]
  put_slot-HasSlot a key ((b, slots) ∷ storage) has = elim (Bool-cases (bytes_eq b address)) [
    | inl same ↦ elim has [
      | inl (e, keyed) ↦
          rw same
            (inl (e, put_key-HasKey (hex slot) (hex (fork.storage address slot)) key slots keyed))
      | inr later ↦ rw same (inr later)
    ]
    | inr other ↦ elim has [
      | inl here ↦ rw other (inl here)
      | inr later ↦ rw other (inr (put_slot-HasSlot a key storage later))
    ]
  ]
