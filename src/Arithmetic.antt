-- ===== src/Arithmetic.antt =====
-- pkg/gash/arithmetic.go: numbers with a base, as 16#ff, that the shell's arithmetic is given in
-- decimal.
pub mod Laws
mod Samples
use Prim.Native.Nat.{compare}
use gash.Prelude.{
  ℕ, suc, ◌+◌, ◌-◌, ◌*◌, ◌/◌, ◌^◌, ◌≤◌, ◌<◌, Bool, true, false, not, ◌&&◌, ◌||◌, List, [], ◌∷◌,
  Option, none, some, Bytes, ltb, leb, ◌==◌, is_empty, if◌then◌else◌, on_option,
}
use gash.Prelude.Int.{ℤ, pos, negsuc}
use gash.Prelude.Decimal.{itoa, atoi}

-- math.MaxInt64
abbrev pub max_int64 : ℕ
max_int64 = 9223372036854775807

-- bashDigitValue(digit, base)
unfoldable pub bash_digit_value : ℕ → ℕ → Option ℕ
bash_digit_value digit base =
    if leb 48 digit && leb digit 57
    then some (digit - 48)
    else if leb 97 digit && leb digit 122
    then some (digit - 97 + 10)
    else if leb 65 digit && leb digit 90 && leb base 36
    then some (digit - 65 + 10)
    else if leb 65 digit && leb digit 90
    then some (digit - 65 + 36)
    else if digit == 64
    then some 62
    else if digit == 95
    then some 63
    else none

-- The loop of parseBashBaseDigits; the quotient is of a base from 2 on.
unfoldable pub parse_from : ℕ → ℕ → Bytes → Option ℕ
parse_from base number [] = some number
parse_from base number (digit ∷ digits) = on_option (bash_digit_value digit base) none λ value.
    let rest = parse_from base (number * base + value) digits in
    if leb base value || ltb ((max_int64 - value) / base) number then none else rest

-- parseBashBaseDigits(digits, base)
unfoldable pub parse_bash_base_digits : Bytes → ℕ → Option ℕ
parse_bash_base_digits digits base = parse_from base 0 digits

-- The text before the first '#' and the text behind it.
unfoldable pub cut_hash : Bytes → Option (Bytes × Bytes)
cut_hash [] = none
cut_hash (c ∷ s) =
    let rest = cut_hash s in
    if c == 35 then some ([], s) else on_option rest none λ r. some (c ∷ r.0, r.1)

-- The base that strconv.Atoi reads, if it is one.
abbrev base_of : ℤ → Option ℕ
base_of (negsuc n) = none
base_of (pos n) = if ltb n 2 || ltb 64 n then none else some n

-- parseStaticBaseNumber(value)
unfoldable pub parse_static_base_number : Bytes → Option Bytes
parse_static_base_number value = on_option (cut_hash value) none λ r.
    if is_empty r.0 || is_empty r.1
    then none
    else on_option (atoi r.0) none λ z.
      on_option (base_of z) none
        λ base. on_option (parse_bash_base_digits r.1 base) none λ number. some (itoa number)
