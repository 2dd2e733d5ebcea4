-- ===== src/Expr/Samples.antt =====
-- Evaluations of expr, with regular expressions that find nothing.
use gash.Prelude.{
  ◌-◌, ◌^◌, true, not, List, [], ◌∷◌, none, some, Bytes, codes, beq, if◌then◌else◌, inl, inr, ◌≢◌,
  ◌≡◌, refl, arith,
}
use gash.Prelude.Decimal.{itoa, write_digits, read_digits}
use gash.Memory.Read.{text_lt}
use gash.Expr.Word.{
  format_word, parse_expr_int, trim_space_left, leading_digits, parse_signed, utf16_encode,
  utf16_decode,
}
use gash.Expr.{
  Matcher, expr_regex_match, parse_match, parse_mul_div, parse_add_sub, parse_comparison, parse_and,
  parse_or, match_call, substr_call, index_call, length_call, primary_token, parse_primary,
  evaluate_expr, command_expr,
}
use gash.Expr.Operators.{
  syntax, exhausted, is_null, operator_loop, operator_level, or_loop, multiply, add, relate,
  conjoin, expr_substring, index_from, expr_index,
}
use gash.Expr.Laws.{evaluate_expr-ne-exhausted}
use gash.Expr.Chains.{evaluate_expr-bars, is_plain}
use gash.Expr.Format.{parse_expr_int-format_word}

computing : Unit {0}
unfolding beq itoa write_digits read_digits text_lt format_word parse_expr_int trim_space_left
    leading_digits parse_signed utf16_encode utf16_decode operator_loop operator_level or_loop
    multiply add relate conjoin expr_substring index_from expr_index expr_regex_match parse_match
    parse_mul_div parse_add_sub parse_comparison parse_and parse_or match_call substr_call
    index_call length_call primary_token parse_primary evaluate_expr command_expr
computing = tt

abbrev nothing : Matcher
nothing pattern str = inr none

abbrev sum : List Bytes
sum = codes "1" ∷ codes "+" ∷ codes "2" ∷ codes "*" ∷ codes "-3" ∷ []

evaluated : command_expr nothing sum ≡ (some (codes "-5"), 0)
unfolding computing
evaluated = refl

-- The least int64 divided by -1 wraps round.
wrapped :
    evaluate_expr nothing (codes "-9223372036854775808" ∷ codes "/" ∷ codes "-1" ∷ [])
    ≡ inr (codes "-9223372036854775808")
unfolding computing
wrapped = refl

cut :
    evaluate_expr nothing (codes "substr" ∷ codes "shell" ∷ codes "2" ∷ codes "3" ∷ [])
    ≡ inr (codes "hel")
unfolding computing
cut = refl

evaluate_expr-ne-exhausted_example : evaluate_expr nothing (codes "(" ∷ sum) ≢ inl exhausted
evaluate_expr-ne-exhausted_example = evaluate_expr-ne-exhausted nothing (codes "(" ∷ sum)

plain :
    (is_plain (codes "1") ≡ true) × (is_plain (codes "2") ≡ true) × (is_plain (codes "3") ≡ true)
unfolding computing
plain = (refl, refl, refl)

evaluate_expr-bars_example :
    evaluate_expr nothing (codes "1" ∷ codes "|" ∷ codes "2" ∷ codes "|" ∷ codes "3" ∷ []) ≡ (
      if not (is_null (codes "1"))
      then inl syntax
      else if not (is_null (codes "2"))
      then inr (codes "2")
      else inr (codes "3"))
evaluate_expr-bars_example =
    evaluate_expr-bars nothing (codes "1") (codes "2") (codes "3") plain.0 plain.1 plain.2

parse_expr_int-format_word_example : parse_expr_int (format_word (2 ^ 64 - 7)) ≡ some (2 ^ 64 - 7)
parse_expr_int-format_word_example = parse_expr_int-format_word (2 ^ 64 - 7) (omega arith)
