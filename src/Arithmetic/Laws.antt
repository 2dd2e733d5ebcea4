-- ===== src/Arithmetic/Laws.antt =====
-- parseBashBaseDigits of pkg/gash/arithmetic.go against the number that digits stand for.
use gash.Prelude.{
  ℕ, ◌+◌, ◌-◌, ◌*◌, ◌/◌, ◌≤◌, ◌<◌, ◌||◌, [], ◌∷◌, Option, none, some, Bytes, ltb, leb,
  if◌then◌else◌, on_option, on_option_cases, if_cases, inl, inr, ◌≡◌, refl, sym, arith,
  Option-cases, Bool-cases,
}
use gash.Arithmetic.{max_int64, bash_digit_value, parse_from, parse_bash_base_digits}

-- The number that the digits stand for behind those read so far, in unbounded arithmetic; none
-- where a character is no digit of the base.
unfoldable pub value_of : ℕ → ℕ → Bytes → Option ℕ
value_of base number [] = some number
value_of base number (digit ∷ digits) = on_option (bash_digit_value digit base) none λ value.
    let rest = value_of base (number * base + value) digits in if leb base value then none else rest

-- The test by division is a test of the product.
quotient_test :
    (n b v : ℕ) → 1 ≤ b → v ≤ max_int64 → ltb ((max_int64 - v) / b) n ≡ ltb max_int64 (n * b + v)
quotient_test n b v h k = grind arith

-- A number that int64 holds, or none.
abbrev pub in_int64 : Option ℕ → Option ℕ
in_int64 o = on_option o none λ n. if ltb max_int64 n then none else some n

digit-lt : (digit base : ℕ) (v : ℕ) → bash_digit_value digit base ≡ some v → v < 64
unfolding bash_digit_value
digit-lt digit base v h = ground arith

-- Once the number is too large it stays so.
overflows :
    (base : ℕ) (digits : Bytes) (number : ℕ)
    → 1 ≤ base
    → max_int64 < number
    → in_int64 (value_of base number digits) ≡ none
unfolding value_of
overflows base [] number h k = ground arith
overflows base (digit ∷ digits) number h k =
    on_option_cases (λ o. in_int64 o ≡ none) (bash_digit_value digit base) none _ (λ _. refl)
      λ v e.
        if_cases (λ o. in_int64 o ≡ none) (leb base v) none
          (value_of base (number * base + v) digits) (λ _. refl)
          λ _. overflows base digits (number * base + v) h (larger v)
  where
    larger : (v : ℕ) → max_int64 < number * base + v
    larger v = grind arith

parse_from_lem :
    (base : ℕ) (digits : Bytes) (number : ℕ)
    → 1 ≤ base
    → number ≤ max_int64
    → parse_from base number digits ≡ in_int64 (value_of base number digits)
unfolding value_of parse_from
parse_from_lem base [] number h k = ground arith
parse_from_lem base (digit ∷ digits) number h k =
    elim (Option-cases (bash_digit_value digit base)) [
      | inl e ↦ rw e refl
      | inr (v, e) ↦ rw e (
          one v (digit-lt digit base v e)
            (λ k'. parse_from_lem base digits (number * base + v) h k'))
    ]
  where
    one :
        (v : ℕ)
        → v < 64
        → (number * base + v ≤ max_int64
            → parse_from base (number * base + v) digits
              ≡ in_int64 (value_of base (number * base + v) digits))
        → (if leb base v || ltb ((max_int64 - v) / base) number
            then none
            else parse_from base (number * base + v) digits)
          ≡ in_int64 (if leb base v then none else value_of base (number * base + v) digits)
    one v le rest = elim (Bool-cases (leb base v)) [
      | inl t ↦ rw t refl
      | inr f ↦
          rw (f, quotient_test number base v h (omega arith))
            (elim (Bool-cases (ltb max_int64 (number * base + v))) [
              | inl t ↦ rw t (sym (overflows base digits (number * base + v) h (ground arith)))
              | inr u ↦ rw u (rest (ground arith))
            ])
    ]

-- parseBashBaseDigits computes without overflow: its result is the number that the digits stand
-- for, and none exactly where a character is no digit of the base or the number exceeds
-- MaxInt64.
pub parse_bash_base_digits_lem :
    (digits : Bytes) (base : ℕ)
    → 1 ≤ base
    → parse_bash_base_digits digits base ≡ in_int64 (value_of base 0 digits)
unfolding parse_bash_base_digits
parse_bash_base_digits_lem digits base h = parse_from_lem base digits 0 h (omega arith)
