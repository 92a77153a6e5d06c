-- ===== src/LocalExecution/Snapshot/Numerals.antt =====
-- The numbers of a snapshot, written and read.
use robinhood_chain_sequence.Prelude.{
  ℕ, zero, suc, ◌+◌, ◌*◌, ◌/◌, ◌%◌, ◌≤◌, ◌<◌, ◌≡◌, refl, sym, ◌∙◌, ap, append-nil, arith, true,
  Bool-cases, inl, inr, none, some, [], ◌∷◌, ◌++◌, append_assoc, ok, ltb, ltb→lt, lt→ltb,
  ltb_false→le, if◌then◌else◌,
}
use robinhood_chain_sequence.Hex.{Text, hex_digit, remove_0x}
use robinhood_chain_sequence.Hex.Digits.{digit_value-hex_digit}
use robinhood_chain_sequence.LocalExecution.Snapshot.{
  digits_from, decimal, hex, with_digit, or_value_error, read_digits, int_of, int_16,
}

-- Division by a base of the two.
record IsBase (base : ℕ) : Type 0 where
  few : base ≤ 16
  whole : (n : ℕ) → n / base * base + n % base ≡ n
  rest : (n : ℕ) → n % base < base
  less : (n : ℕ) → base ≤ n → n / base < n

ten-IsBase : IsBase 10
ten-IsBase = record {
  few = omega arith;
  whole = λ n. omega arith;
  rest = λ n. omega arith;
  less = λ n h. omega (arith, h);
}

sixteen-IsBase : IsBase 16
sixteen-IsBase = record {
  few = omega arith;
  whole = λ n. omega arith;
  rest = λ n. omega arith;
  less = λ n h. omega (arith, h);
}

module _ (base : ℕ) (b : IsBase base) where
  read_digit :
      (acc d : ℕ) (cs : Text)
      → d < base
      → read_digits base acc (hex_digit d ∷ cs) ≡ read_digits base (acc * base + d) cs
  unfolding read_digits
  read_digit acc d cs h =
      let value = (digit_value-hex_digit d (omega (arith, h, b.few))).0 in
      let small : ltb d base ≡ true = lt→ltb d base h in
      ap (λ o. with_digit base o (λ e. read_digits base (acc * base + e) cs)) value
      ∙ ap (λ t. if t then read_digits base (acc * base + d) cs else none) small

  read_digits-digits_from :
      (fuel n : ℕ) (cs : Text)
      → n < fuel
      → read_digits base 0 (digits_from base fuel n ++ cs) ≡ read_digits base n cs
  unfolding digits_from
  read_digits-digits_from zero n cs h = absurd (omega (arith, h))
  read_digits-digits_from (suc fuel) n cs h = elim (Bool-cases (ltb n base)) [
    | inl one ↦
        rw one
          (read_digit 0 n cs (ltb→lt n base one) ∙ ap (λ m. read_digits base m cs) (omega arith))
    | inr more ↦
        let enough = ltb_false→le n base more in
        rw (more, append_assoc (digits_from base fuel (n / base)) (hex_digit (n % base) ∷ []) cs)
          (read_digits-digits_from fuel (n / base) (hex_digit (n % base) ∷ cs)
              (omega (arith, b.less n enough, h))
            ∙ read_digit (n / base) (n % base) cs (b.rest n)
            ∙ ap (λ m. read_digits base m cs) (b.whole n))
  ]

append_some : (xs : Text) (x : ℕ) (ys : Text) → (c : ℕ) × (cs : Text) × (xs ++ x ∷ ys ≡ c ∷ cs)
append_some [] x ys = (x, ys, refl)
append_some (c ∷ xs) x ys = (c, xs ++ x ∷ ys, refl)

-- A numeral has a digit.
digits_from_some :
    (base fuel n : ℕ) → (c : ℕ) × (cs : Text) × (digits_from base (suc fuel) n ≡ c ∷ cs)
unfolding digits_from
digits_from_some base fuel n = elim (Bool-cases (ltb n base)) [
  | inl one ↦ rw one (hex_digit n, [], refl)
  | inr more ↦ rw more (append_some (digits_from base fuel (n / base)) (hex_digit (n % base)) [])
]

int_of-digits_from :
    (base : ℕ) → IsBase base → (n : ℕ) → int_of base (digits_from base (suc n) n) ≡ ok n
unfolding int_of
int_of-digits_from base b n =
    let (c, cs, shape) = digits_from_some base n n in
    let reads : read_digits base 0 (digits_from base (suc n) n) ≡ some n =
      ap (read_digits base 0) (sym (append-nil (digits_from base (suc n) n)))
      ∙ read_digits-digits_from base b (suc n) n [] (omega arith)
      ∙ unfold read_digits in refl in
    let reads_shape : read_digits base 0 (c ∷ cs) ≡ some n =
      ap (read_digits base 0) (sym shape) ∙ reads in
    ap (int_of base) shape ∙ ap or_value_error reads_shape

pub int_of-decimal : (n : ℕ) → int_of 10 (decimal n) ≡ ok n
unfolding decimal
int_of-decimal n = int_of-digits_from 10 ten-IsBase n

pub int_16-hex : (n : ℕ) → int_16 (hex n) ≡ ok n
unfolding hex int_16 remove_0x
int_16-hex n = int_of-digits_from 16 sixteen-IsBase n
