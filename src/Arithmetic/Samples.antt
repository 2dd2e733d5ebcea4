-- ===== src/Arithmetic/Samples.antt =====
-- Concrete numbers with a base.
use gash.Prelude.{◌≡◌, refl, some, none, codes, arith}
use gash.Prelude.Decimal.{itoa, write_digits, atoi, read_digits}
use gash.Arithmetic.{
  bash_digit_value, parse_from, parse_bash_base_digits, cut_hash, parse_static_base_number,
}
use gash.Arithmetic.Laws.{value_of, parse_bash_base_digits_lem}

parse_bash_base_digits_lem_example : parse_bash_base_digits (codes "fF") 16 ≡ some 255
unfolding value_of bash_digit_value
parse_bash_base_digits_lem_example = parse_bash_base_digits_lem (codes "fF") 16 (omega arith)

static_number : parse_static_base_number (codes "16#ff") ≡ some (codes "255")
unfolding parse_static_base_number cut_hash atoi read_digits itoa write_digits
    parse_bash_base_digits parse_from bash_digit_value
static_number = refl

too_large : parse_bash_base_digits (codes "8000000000000000") 16 ≡ none
unfolding parse_bash_base_digits parse_from bash_digit_value
too_large = refl
