-- ===== src/Prelude/Lists.antt =====
-- Lists measured and indexed by native numbers, under the library's names, and Python's slices.
use Prim.Native.Nat.{ℕ, zero, suc, ◌+◌, ◌-◌, ◌≤◌, min}
use mathlib.Core.Path.{◌≡◌, refl, ap}
use mathlib.Core.List.{List, [], ◌∷◌, ◌++◌}
use mathlib.Core.Option.{Option, none, some}
use native.Mathlib.Omega.{arith}

module _ {ℓ} {A : Type ℓ} where
  abbrev pub length : List A → ℕ
  length [] = 0
  length (x ∷ xs) = suc (length xs)

  abbrev pub get_elem? : List A → ℕ → Option A
  get_elem? [] i = none
  get_elem? (x ∷ xs) zero = some x
  get_elem? (x ∷ xs) (suc i) = get_elem? xs i

  abbrev pub get_or : List A → ℕ → A → A
  get_or [] i d = d
  get_or (x ∷ xs) zero d = x
  get_or (x ∷ xs) (suc i) d = get_or xs i d

  abbrev pub take : ℕ → List A → List A
  take zero xs = []
  take (suc n) [] = []
  take (suc n) (x ∷ xs) = x ∷ take n xs

  abbrev pub drop : ℕ → List A → List A
  drop zero xs = xs
  drop (suc n) [] = []
  drop (suc n) (x ∷ xs) = drop n xs

  abbrev pub replicate : ℕ → A → List A
  replicate zero a = []
  replicate (suc n) a = a ∷ replicate n a

  abbrev pub All {κ} : (A → Type κ) → List A → Type κ
  All P [] = Unit {κ}
  All P (x ∷ xs) = P x × All P xs

module _ {ℓ} {A : Type ℓ} where
  -- xs[s:e] for bounds that are not negative.
  unfoldable pub slice : ℕ → ℕ → List A → List A
  slice s e xs = take (e - s) (drop s xs)

  pub length-append : (xs ys : List A) → length (xs ++ ys) ≡ length xs + length ys
  length-append [] ys = omega arith
  length-append (x ∷ xs) ys = omega (arith, length-append xs ys)

  pub length-take : (n : ℕ) (xs : List A) → length (take n xs) ≡ min n (length xs)
  length-take zero xs = omega arith
  length-take (suc n) [] = omega arith
  length-take (suc n) (x ∷ xs) = omega (arith, length-take n xs)

  pub length-drop : (n : ℕ) (xs : List A) → length (drop n xs) ≡ length xs - n
  length-drop zero xs = omega arith
  length-drop (suc n) [] = omega arith
  length-drop (suc n) (x ∷ xs) = omega (arith, length-drop n xs)

  pub length-replicate : (n : ℕ) (a : A) → length (replicate n a) ≡ n
  length-replicate zero a = refl
  length-replicate (suc n) a = ap suc (length-replicate n a)

  pub length-slice : (s e : ℕ) (xs : List A) → e ≤ length xs → length (slice s e xs) ≡ e - s
  unfolding slice
  length-slice s e xs h = omega (arith, length-take (e - s) (drop s xs), length-drop s xs)

  pub get_or-append :
      (p : List A) (x : A) (q : List A) (d : A) → get_or (p ++ x ∷ q) (length p) d ≡ x
  get_or-append [] x q d = refl
  get_or-append (y ∷ p) x q d = get_or-append p x q d

  pub take-append : (p q : List A) (n : ℕ) → n ≡ length p → take n (p ++ q) ≡ p
  take-append [] q zero h = refl
  take-append [] q (suc n) h = absurd (omega arith)
  take-append (x ∷ p) q zero h = absurd (omega arith)
  take-append (x ∷ p) q (suc n) h = ap (λ r. x ∷ r) (take-append p q n (omega arith))

  pub drop-append : (p q : List A) (n : ℕ) → n ≡ length p → drop n (p ++ q) ≡ q
  drop-append [] q zero h = refl
  drop-append [] q (suc n) h = absurd (omega arith)
  drop-append (x ∷ p) q zero h = absurd (omega arith)
  drop-append (x ∷ p) q (suc n) h = drop-append p q n (omega arith)

  -- The middle of three parts.
  pub slice-append :
      (p q r : List A) (s e : ℕ)
      → s ≡ length p
      → e ≡ length p + length q
      → slice s e (p ++ (q ++ r)) ≡ q
  unfolding slice
  slice-append p q r s e hs he =
      rw (drop-append p (q ++ r) s hs) (take-append q r (e - s) (omega arith))

  -- Cutting in two at any place loses nothing.
  pub take-append-drop : (n : ℕ) (xs : List A) → take n xs ++ drop n xs ≡ xs
  take-append-drop zero xs = refl
  take-append-drop (suc n) [] = refl
  take-append-drop (suc n) (x ∷ xs) = ap (λ r. x ∷ r) (take-append-drop n xs)

  pub take-take : (n m : ℕ) (xs : List A) → n ≤ m → take n (take m xs) ≡ take n xs
  take-take zero m xs h = refl
  take-take (suc n) zero xs h = absurd (omega arith)
  take-take (suc n) (suc m) [] h = refl
  take-take (suc n) (suc m) (x ∷ xs) h = ap (λ r. x ∷ r) (take-take n m xs (omega arith))

  -- The head of a slice is a shorter slice.
  pub slice_head :
      (k s e : ℕ) (xs : List A) → k ≤ e - s → slice s (s + k) xs ≡ take k (slice s e xs)
  unfolding slice
  slice_head k s e xs h =
      let width : s + k - s ≡ k = omega arith in rw (width, take-take k (e - s) (drop s xs) h)

  pub get_or-append_at :
      (p : List A) (k : ℕ) (q : List A) (d : A) → get_or (p ++ q) (length p + k) d ≡ get_or q k d
  get_or-append_at [] k q d = let e : 0 + k ≡ k = omega arith in rw e
  get_or-append_at (x ∷ p) k q d =
      let e : suc (length p) + k ≡ suc (length p + k) = omega arith in
      rw e (get_or-append_at p k q d)

  -- A slice that starts behind the first part.
  pub slice-append_right :
      (p t : List A) (s k : ℕ) → s ≡ length p → slice s (s + k) (p ++ t) ≡ slice 0 k t
  unfolding slice
  slice-append_right p t s k h =
      let width : s + k - s ≡ k - 0 = omega arith in rw (width, drop-append p t s h)

pub All-append {ℓ κ} :
    {A : Type ℓ} (P : A → Type κ) (xs ys : List A) → All P xs → All P ys → All P (xs ++ ys)
All-append P [] ys hx hy = hy
All-append P (x ∷ xs) ys (h, hx) hy = (h, All-append P xs ys hx hy)
