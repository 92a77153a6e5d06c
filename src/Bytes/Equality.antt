-- ===== src/Bytes/Equality.antt =====
-- The comparison of byte strings, and of texts.
use robinhood_chain_sequence.Prelude.{◌≡◌, refl, arith, true, [], ◌∷◌, ==_refl}
use robinhood_chain_sequence.Bytes.{Bytes, bytes_eq}

pub bytes_eq_refl : (b : Bytes) → bytes_eq b b ≡ true
unfolding bytes_eq
bytes_eq_refl [] = refl
bytes_eq_refl (c ∷ b) = rw (==_refl c, bytes_eq_refl b)

pub bytes_eq→eq : (a b : Bytes) → bytes_eq a b ≡ true → a ≡ b
unfolding bytes_eq
bytes_eq→eq [] [] h = refl
bytes_eq→eq [] (c ∷ b) h = absurd (cc)
bytes_eq→eq (c ∷ a) [] h = absurd (cc)
bytes_eq→eq (c ∷ a) (d ∷ b) h = ground (arith, bytes_eq→eq a b)
