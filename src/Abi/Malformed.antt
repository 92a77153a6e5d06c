-- ===== src/Abi/Malformed.antt =====
-- What the readers raise, and the sizes of what they return.
use robinhood_chain_sequence.Prelude.{
  ℕ, ◌+◌, ◌*◌, ◌/◌, ◌%◌, ◌≡◌, refl, arith, Bool, true, false, Option, none, some, List, [], ◌∷◌,
  ◌++◌, ◌||◌, not, Error, malformed, Result, traverse, collect, Outcome, returns, raises,
  Outcome-bind, Outcome-map, All, All-append, ltb, ltb_false→le, if◌then◌else◌, length, drop, slice,
  length-slice, length-drop, ◌==◌,
}
use robinhood_chain_sequence.Bytes.{Bytes, from_bytes, bytes_eq, zeros}
use robinhood_chain_sequence.Abi.{
  word, uint, address, token, offset, blob_at, dynamic, tuple_at, elements, static_array,
  tuple_array, bytes_array, range_from, word_size,
}

abbrev pub IsMalformed : Error → Type 0
IsMalformed e = e ≡ malformed

abbrev pub AnyValue {ℓ} : {A : Type ℓ} → A → Type 0
AnyValue a = Unit

-- An optional byte string, of `n` bytes when it is there.
abbrev pub Sized : ℕ → Option Bytes → Type 0
Sized n none = Unit
Sized n (some b) = length b ≡ n

pub Outcome-if {ℓ κ} :
    {E : Error → Type 0} {T : Type ℓ} {P : T → Type κ} (b : Bool) (m n : Result T)
    → (b ≡ true → Outcome E P m)
    → (b ≡ false → Outcome E P n)
    → Outcome E P (if b then m else n)
Outcome-if true m n hm hn = hm refl
Outcome-if false m n hm hn = hn refl

pub Outcome-traverse {ℓ κ μ} :
    {E : Error → Type 0} {A : Type ℓ} {B : Type κ} {P : B → Type μ} (f : A → Result B) (xs : List A)
    → ((x : A) → Outcome E P (f x))
    → Outcome E (All P) (traverse f xs)
Outcome-traverse f [] h = returns [] tt
Outcome-traverse f (x ∷ xs) h =
    Outcome-bind _ _ (h x)
      (λ y p. Outcome-bind _ _ (Outcome-traverse f xs h) (λ ys ps. returns (y ∷ ys) (p, ps)))

pub Outcome-collect {ℓ κ μ} :
    {E : Error → Type 0} {A : Type ℓ} {B : Type κ} {P : B → Type μ} (f : A → Result (List B))
    (xs : List A)
    → ((x : A) → Outcome E (All P) (f x))
    → Outcome E (All P) (collect f xs)
Outcome-collect f [] h = returns [] tt
Outcome-collect {P = P} f (x ∷ xs) h = Outcome-bind _ _ (h x) (λ ys p.
    Outcome-bind _ _ (Outcome-collect f xs h)
      (λ zs ps. returns (ys ++ zs) (All-append P ys zs p ps)))

pub word-Malformed : (bs : Bytes) (i : ℕ) → Outcome IsMalformed (λ w. length w ≡ 32) (word bs i)
unfolding word
word-Malformed bs i =
    Outcome-if (ltb (length bs) (i * 32 + 32)) _ _ (λ short. raises malformed refl)
      (λ fits. returns _ (
        omega (
          arith,
          length-slice (i * 32) (i * 32 + 32) bs (ltb_false→le (length bs) (i * 32 + 32) fits),
        )))

pub uint-Malformed : (bs : Bytes) (i : ℕ) → Outcome IsMalformed AnyValue (uint bs i)
unfolding uint
uint-Malformed bs i = Outcome-bind _ _ (word-Malformed bs i) (λ w size. returns _ tt)

pub address-Malformed :
    (bs : Bytes) (i : ℕ) → Outcome IsMalformed (λ a. length a ≡ 20) (address bs i)
unfolding address
address-Malformed bs i = Outcome-bind _ _ (word-Malformed bs i) (λ w size.
    Outcome-if (bytes_eq (slice 0 12 w) (zeros 12)) _ _
      (λ padded. returns _ (omega (arith, length-drop 12 w, size)))
      (λ other. raises malformed refl))

Sized-if : (b : Bool) (n : ℕ) (a : Bytes) → length a ≡ n → Sized n (if b then none else some a)
Sized-if true n a h = tt
Sized-if false n a h = h

pub token-Malformed : (bs : Bytes) (i : ℕ) → Outcome IsMalformed (Sized 20) (token bs i)
unfolding token
token-Malformed bs i =
    Outcome-bind _ _ (address-Malformed bs i) (λ a size. returns _ (Sized-if _ 20 a size))

pub offset-Malformed : (bs : Bytes) (i : ℕ) → Outcome IsMalformed AnyValue (offset bs i)
unfolding offset
offset-Malformed bs i = Outcome-bind _ _ (uint-Malformed bs i) (λ off _.
    Outcome-if (not (off % 32 == 0) || ltb (length bs) (off + 32)) _ _
      (λ bad. raises malformed refl) (λ good. returns off tt))

pub blob_at-Malformed : (bs : Bytes) (off : ℕ) → Outcome IsMalformed AnyValue (blob_at bs off)
unfolding blob_at
blob_at-Malformed bs off =
    Outcome-if (ltb (length bs) (off + 32 + from_bytes (slice off (off + 32) bs))) _ _
      (λ short. raises malformed refl) (λ fits. returns _ tt)

pub dynamic-Malformed : (bs : Bytes) (i : ℕ) → Outcome IsMalformed AnyValue (dynamic bs i)
unfolding dynamic
dynamic-Malformed bs i =
    Outcome-bind _ _ (offset-Malformed bs i) (λ off _. blob_at-Malformed bs off)

pub tuple_at-Malformed : (bs : Bytes) (i : ℕ) → Outcome IsMalformed AnyValue (tuple_at bs i)
unfolding tuple_at
tuple_at-Malformed bs i = Outcome-bind _ _ (offset-Malformed bs i) (λ off _. returns _ tt)

elements-Malformed : (bs : Bytes) (i width : ℕ) → Outcome IsMalformed AnyValue (elements bs i width)
unfolding elements
elements-Malformed bs i width = Outcome-bind _ _ (tuple_at-Malformed bs i) (λ body _.
    Outcome-bind _ _ (uint-Malformed body 0) (λ n _.
      let area = drop word_size body in
      Outcome-if (ltb (length area / (width * word_size)) n) _ _ (λ short. raises malformed refl)
        (λ fits. returns (area, n) tt)))

pub static_array-Malformed :
    (bs : Bytes) (i width : ℕ) → Outcome IsMalformed AnyValue (static_array bs i width)
unfolding static_array
static_array-Malformed bs i width =
    Outcome-bind _ _ (elements-Malformed bs i width) (λ (area, n) _. returns _ tt)

pub tuple_array-Malformed : (bs : Bytes) (i : ℕ) → Outcome IsMalformed AnyValue (tuple_array bs i)
unfolding tuple_array
tuple_array-Malformed bs i = Outcome-bind _ _ (elements-Malformed bs i 1) (λ (area, n) _.
    Outcome-map _
      (Outcome-traverse _ (range_from 0 n)
        (λ k. Outcome-bind {Q = AnyValue} _ _ (offset-Malformed area k) (λ off _. returns _ tt)))
      (λ found _. tt))

pub bytes_array-Malformed : (bs : Bytes) (i : ℕ) → Outcome IsMalformed AnyValue (bytes_array bs i)
unfolding bytes_array
bytes_array-Malformed bs i = Outcome-bind _ _ (elements-Malformed bs i 1) (λ (area, n) _.
    Outcome-map _
      (Outcome-traverse _ (range_from 0 n) (λ k.
        Outcome-bind {Q = AnyValue} _ _ (offset-Malformed area k)
          (λ off _. blob_at-Malformed area off)))
      (λ found _. tt))
