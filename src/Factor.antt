-- ===== src/Factor.antt =====
-- internal/commands/utilities/factor.go. Whether the context is done at the k-th test of a call is
-- a parameter; numbers are at most 10 ^ 12, so that none of the uint64 wraps round.
pub mod Strip
pub mod Laws
mod Samples
use gash.Prelude.{
  ℕ, zero, suc, ◌+◌, ◌-◌, ◌*◌, ◌/◌, ◌%◌, ◌^◌, Bool, true, false, not, ◌&&◌, List, [], ◌∷◌, ◌++◌,
  Option, none, some, Bytes, codes, all, is_empty, ltb, leb, ◌==◌, if◌then◌else◌, on_option, ◌⊎◌,
  inl, inr,
}
use gash.Prelude.Decimal.{itoa, read_digits}

-- maxFactorInput
abbrev pub max_factor_input : ℕ
max_factor_input = 10 ^ 12

pub data FactorError : Type 0 where
  not_decimal too_large canceled : FactorError

-- parseFactorInput(token); a number beyond 64 bits is beyond the maximum
unfoldable pub parse_factor_input : Bytes → FactorError ⊎ ℕ
parse_factor_input token =
    if is_empty token
    then inl not_decimal
    else on_option (read_digits 0 token) (inl not_decimal)
        (λ number. if ltb max_factor_input number then inl too_large else inr number)

-- for number%divisor == 0: the factors appended and the number left
unfoldable pub strip : ℕ → ℕ → ℕ → List ℕ × ℕ
strip zero divisor number = ([], number)
strip (suc fuel) divisor number =
    let rest = strip fuel divisor (number / divisor) in
    if number % divisor == 0 then (divisor ∷ rest.0, rest.1) else ([], number)

-- The loop over the odd divisors, of the number of tests of the context so far: none where the
-- context is done.
unfoldable pub trial : (ℕ → Bool) → ℕ → ℕ → ℕ → List ℕ → ℕ → Option (List ℕ × ℕ)
trial done zero divisor number factors tests = some (factors, number)
trial done (suc fuel) divisor number factors tests =
    let found = strip number divisor number in
    let tested = divisor % 1024 == 1 in
    let rest =
      trial done fuel (divisor + 2) found.1 (factors ++ found.0)
        (if tested then tests + 1 else tests) in
    if leb divisor (number / divisor)
    then (if tested && done tests then none else rest)
    else some (factors, number)

-- The end of primeFactors.
abbrev pub with_rest : List ℕ × ℕ → List ℕ
with_rest (factors, number) = if ltb 1 number then factors ++ number ∷ [] else factors

-- primeFactors(ctx, number)
unfoldable pub prime_factors : (ℕ → Bool) → ℕ → FactorError ⊎ List ℕ
prime_factors done number =
    let twos = strip number 2 number in
    if done 0
    then inl canceled
    else if ltb number 2
    then inr []
    else on_option (trial done number 3 twos.1 twos.0 1) (inl canceled) (λ r. inr (with_rest r))

abbrev listed : List ℕ → Bytes
listed [] = codes "\n"
listed (f ∷ fs) = codes " " ++ itoa f ++ listed fs

-- A line of the output.
abbrev pub factor_line : ℕ → List ℕ → Bytes
factor_line number factors = itoa number ++ codes ":" ++ listed factors

-- The loop of commandFactor over the tokens, the i-th with its own tests of the context: what is
-- printed, and the error that ends it
unfoldable pub command_factor : (ℕ → ℕ → Bool) → ℕ → List Bytes → Bytes × Option FactorError
command_factor done i [] = ([], none)
command_factor done i (token ∷ tokens) =
    let rest = command_factor done (i + 1) tokens in
    elim (parse_factor_input token) [
      | inl e ↦ ([], some e)
      | inr number ↦ elim (prime_factors (done i) number) [
        | inl e ↦ ([], some e)
        | inr factors ↦ (factor_line number factors ++ rest.0, rest.1)
      ]
    ]
