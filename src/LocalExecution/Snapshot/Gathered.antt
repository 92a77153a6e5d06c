-- ===== src/LocalExecution/Snapshot/Gathered.antt =====
-- What a snapshot has of the storage: every slot that was asked for.
use robinhood_chain_sequence.Prelude.{ℕ, ◌≡◌, ◌⊎◌, inl, inr, List, [], ◌∷◌}
use mathlib.Core.Path.{subst}
use robinhood_chain_sequence.Hex.{Text}
use robinhood_chain_sequence.LocalExecution.Snapshot.{hex, Fork, Slots, put_slot, storage_from}
use robinhood_chain_sequence.LocalExecution.Snapshot.Filled.{
  AllTold, HasSlot, put_slot-Told, put_slot-HasSlot,
}

-- A slot of a list of slots.
unfoldable pub Listed : Text → ℕ → List (Text × ℕ) → Type 0
Listed a slot [] = ⊥
Listed a slot ((b, other) ∷ slots) = ((b ≡ a) × (other ≡ slot)) ⊎ Listed a slot slots

module _ (fork : Fork) where
  pub record Gathered (slots : List (Text × ℕ)) (before after : List (Text × Slots)) : Type 0 where
    pub told : AllTold fork after
    pub stays : (a key : Text) → HasSlot a key before → HasSlot a key after
    pub all : (a : Text) (slot : ℕ) → Listed a slot slots → HasSlot a (hex slot) after

  pub storage_from-Gathered :
      (slots : List (Text × ℕ)) (storage : List (Text × Slots))
      → AllTold fork storage
      → Gathered slots storage (storage_from fork slots storage)
  unfolding storage_from Listed
  storage_from-Gathered [] storage told = record {
    told = told;
    stays = λ a key has. has;
    all = λ a slot l. elim l [ ];
  }
  storage_from-Gathered ((b, other) ∷ slots) storage told =
      let (more_told, has) = put_slot-Told fork b other storage told in
      let rest = storage_from-Gathered slots _ more_told in
      record {
        told = rest.told;
        stays = λ a key h. rest.stays a key (put_slot-HasSlot fork b other a key storage h);
        all = λ a slot l. elim l [
          | inl (same, slot_same) ↦
              let grown = put_slot b (hex other) (hex (fork.storage b other)) storage in
              rest.stays a (hex slot) (
                subst (λ c. HasSlot c (hex slot) grown) same
                  (subst (λ n. HasSlot b (hex n) grown) slot_same has))
          | inr later ↦ rest.all a slot later
        ];
      }
