-- ===== src/Prelude/Errors.antt =====
-- Fallible code: a value, or the exception that the source raises.
use mathlib.Core.Path.{◌≡◌, refl, subst}
use mathlib.Core.Logic.{◌⊎◌, inl, inr}
use mathlib.Core.List.{List, [], ◌∷◌, ◌++◌}

-- `attribute_error` is what reading an attribute of None raises. `out_of_fuel` is no exception of the
-- program: a loop of the model ran out of rounds.
pub data Error : Type 0 where
  value_error attribute_error malformed rejected out_of_fuel : Error

pub data Result {ℓ} (T : Type ℓ) : Type ℓ where
  err : Error → Result T
  ok : T → Result T

-- Either the code raised, or it returned.
pub Result-cases {ℓ} :
    {T : Type ℓ} (m : Result T)
    → ((value : T) × (m ≡ ok value)) ⊎ ((raised : Error) × (m ≡ err raised))
Result-cases (err raised) = inr (raised, refl)
Result-cases (ok value) = inl (value, refl)

infixl 5 ◌>>=◌
abbrev pub ◌>>=◌ {ℓ κ} : {S : Type ℓ} {T : Type κ} → Result S → (S → Result T) → Result T
err raised >>= next = err raised
ok value >>= next = next value

-- What was returned came through both steps.
pub >>=-eq-ok {ℓ κ} :
    {S : Type ℓ} {T : Type κ} (m : Result S) (next : S → Result T) {b : T}
    → (m >>= next) ≡ ok b
    → (value : S) × (m ≡ ok value) × (next value ≡ ok b)
>>=-eq-ok (err raised) next returned = cc
>>=-eq-ok (ok value) next returned = (value, refl, returned)

-- A statement that returns nothing, in front of another.
infixl 5 ◌>>◌
abbrev pub ◌>>◌ {ℓ} : {T : Type ℓ} → Result (Unit {0}) → Result T → Result T
first >> second = first >>= λ nothing. second

-- A loop that makes a value of every element, or raises at the first that fails.
module _ {ℓ κ} {A : Type ℓ} {B : Type κ} (f : A → Result B) where
  abbrev pub traverse : List A → Result (List B)
  traverse [] = ok []
  traverse (x ∷ xs) = f x >>= λ y. traverse xs >>= λ ys. ok (y ∷ ys)

-- `out.extend(f(x))` for every element.
module _ {ℓ κ} {A : Type ℓ} {B : Type κ} (f : A → Result (List B)) where
  abbrev pub collect : List A → Result (List B)
  collect [] = ok []
  collect (x ∷ xs) = f x >>= λ ys. collect xs >>= λ zs. ok (ys ++ zs)

-- What a step does: a value with `P`, or an exception with `E`.
pub data Outcome {ℓ κ} {T : Type ℓ} (E : Error → Type 0) (P : T → Type κ)
    : Result T → Type (ℓ ⊔ κ) where
  returns : (value : T) → P value → Outcome E P (ok value)
  raises : (raised : Error) → E raised → Outcome E P (err raised)

pub Outcome-bind {ℓ κ μ ν} :
    {E : Error → Type 0} {S : Type ℓ} {T : Type κ} {P : S → Type μ} {Q : T → Type ν} (m : Result S)
    (next : S → Result T)
    → Outcome E P m
    → ((value : S) → P value → Outcome E Q (next value))
    → Outcome E Q (m >>= next)
Outcome-bind m next (returns value p) h = h value p
Outcome-bind m next (raises raised e) h = raises raised e

-- A weaker statement of the value.
pub Outcome-map {ℓ κ μ} :
    {E : Error → Type 0} {T : Type ℓ} {P : T → Type κ} {Q : T → Type μ} (m : Result T)
    → Outcome E P m
    → ((value : T) → P value → Q value)
    → Outcome E Q m
Outcome-map m (returns value p) h = returns value (h value p)
Outcome-map m (raises raised e) h = raises raised e

pub Outcome-eq-ok {ℓ κ} :
    {E : Error → Type 0} {T : Type ℓ} {P : T → Type κ} (m : Result T) (value : T)
    → Outcome E P m
    → m ≡ ok value
    → P value
Outcome-eq-ok {P = P} m value (returns v p) h = subst P (cc) p
Outcome-eq-ok m value (raises raised e) h = absurd (cc)

-- Any exception.
abbrev pub AnyError : Error → Type 0
AnyError e = Unit

pub Outcome-self {ℓ} : {T : Type ℓ} (m : Result T) → Outcome AnyError (λ v. m ≡ ok v) m
Outcome-self (ok value) = returns value refl
Outcome-self (err raised) = raises raised tt

-- A step whose value is remembered by an equation.
pub >>=-Outcome {ℓ κ ν} :
    {S : Type ℓ} {T : Type κ} {Q : T → Type ν} (m : Result S) (next : S → Result T)
    → ((value : S) → m ≡ ok value → Outcome AnyError Q (next value))
    → Outcome AnyError Q (m >>= next)
>>=-Outcome m next h = Outcome-bind m next (Outcome-self m) h
