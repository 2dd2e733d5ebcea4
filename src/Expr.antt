-- ===== src/Expr.antt =====
-- internal/commands/expr.go: the parser of expr, which evaluates as it reads. An int64 is a number
-- below 2 ^ 64 in two's complement; a parser takes the arguments that are left and returns those
-- that it leaves. Regular expressions are a parameter.
pub mod Word
pub mod Operators
pub mod Consumes
pub mod Laws
pub mod Chains
pub mod Format
mod Samples
use gash.Prelude.{
  ℕ, zero, suc, ◌+◌, ◌-◌, Bool, true, false, not, ◌&&◌, ◌||◌, List, [], ◌∷◌, ◌++◌, Option, none,
  some, Bytes, codes, beq, any, length, take, drop, is_empty, ltb, leb, ◌==◌, if◌then◌else◌,
  on_option, ◌⊎◌, inl, inr,
}
use gash.Prelude.Decimal.{itoa}
use gash.Memory.Read.{text_lt}
use gash.Expr.Word.{
  add_word, sub_word, mul_word, div_word, rem_word, less_word, is_negative_word, magnitude,
  format_word, parse_expr_int, utf16_length, utf16_encode, utf16_decode,
}
use gash.Expr.Operators.{
  ExprError, Parsed, Parser, add, bad_pattern, conjoin, division_by_zero, exhausted, expr_index,
  expr_substring, index_from, is_null, is_one_of, multiply, non_integer, operator_level,
  operator_loop, or_loop, relate, syntax, with_integers, with_parsed, with_value,
}

-- What a regular expression finds in a text: an error, or the match and its first group, if it has
-- groups.
abbrev pub Matcher : Type 0
Matcher = Bytes → Bytes → Bytes ⊎ Option (Bytes × Option Bytes)

module _ (matches : Matcher) where
  -- exprRegexMatch(str, pattern)
  unfoldable pub expr_regex_match : Bytes → Bytes → ExprError ⊎ Bytes
  expr_regex_match str pattern = elim (matches pattern str) [
    | inl e ↦ inl (bad_pattern e)
    | inr none ↦ inr (codes "0")
    | inr (some (whole, none)) ↦ inr (itoa (utf16_length whole))
    | inr (some (whole, some group)) ↦ inr group
  ]

  -- parseMatch to parseOr, over parsePrimary
  unfoldable pub parse_match : Parser → Parser
  parse_match primary =
      operator_level primary (is_one_of (codes ":" ∷ []))
        (λ _ left pattern. expr_regex_match left (codes "^" ++ pattern))

  unfoldable pub parse_mul_div : Parser → Parser
  parse_mul_div primary =
      operator_level (parse_match primary) (is_one_of (codes "*" ∷ codes "/" ∷ codes "%" ∷ []))
        multiply

  unfoldable pub parse_add_sub : Parser → Parser
  parse_add_sub primary =
      operator_level (parse_mul_div primary) (is_one_of (codes "+" ∷ codes "-" ∷ [])) add

  unfoldable pub parse_comparison : Parser → Parser
  parse_comparison primary =
      operator_level (parse_add_sub primary)
        (is_one_of (codes "=" ∷ codes "!=" ∷ codes "<" ∷ codes ">" ∷ codes "<=" ∷ codes ">=" ∷ []))
        relate

  unfoldable pub parse_and : Parser → Parser
  parse_and primary = operator_level (parse_comparison primary) (is_one_of (codes "&" ∷ [])) conjoin

  unfoldable pub parse_or : Parser → Parser
  parse_or primary ts =
      with_parsed (parse_and primary ts)
        λ left rest. or_loop (suc (length rest)) (parse_and primary) left rest

  -- Behind the parentheses' content.
  abbrev pub closed : Bytes → List Bytes → Parsed
  closed v [] = inl syntax
  closed v (t ∷ ts) = if beq t (codes ")") then inr (v, ts) else inl syntax

  -- The cases of parsePrimary, over the parser of what follows.
  unfoldable pub match_call : Parser → Parser
  match_call primary ts = with_parsed (primary ts) λ str rest.
      with_parsed (primary rest)
        λ pattern rest'. with_value (expr_regex_match str pattern) λ v. inr (v, rest')

  unfoldable pub substr_call : Parser → Parser
  substr_call primary ts = with_parsed (primary ts) λ str rest.
      with_parsed (primary rest) λ pos_text rest'. with_parsed (primary rest') λ len_text last.
        on_option (parse_expr_int pos_text) (inl non_integer) λ pos.
          on_option (parse_expr_int len_text) (inl non_integer)
            λ len. inr (expr_substring str pos len, last)

  unfoldable pub index_call : Parser → Parser
  index_call primary ts =
      with_parsed (primary ts)
        λ str rest. with_parsed (primary rest) λ chars rest'. inr (expr_index str chars, rest')

  unfoldable pub length_call : Parser → Parser
  length_call primary ts = with_parsed (primary ts) λ str rest. inr (itoa (utf16_length str), rest)

  -- The switch of parsePrimary.
  unfoldable pub primary_token : Parser → Bytes → List Bytes → Parsed
  primary_token primary t ts =
      if beq t (codes "match")
      then match_call primary ts
      else if beq t (codes "substr")
      then substr_call primary ts
      else if beq t (codes "index")
      then index_call primary ts
      else if beq t (codes "length")
      then length_call primary ts
      else if beq t (codes "(")
      then with_parsed (parse_or primary ts) closed
      else inr (t, ts)

  -- parsePrimary, over the depth left
  unfoldable pub parse_primary : ℕ → Parser
  parse_primary zero ts = inl exhausted
  parse_primary (suc depth) [] = inl syntax
  parse_primary (suc depth) (t ∷ ts) = primary_token (parse_primary depth) t ts

  abbrev pub at_end : Bytes → List Bytes → ExprError ⊎ Bytes
  at_end v [] = inr v
  at_end v (t ∷ ts) = inl syntax

  abbrev pub finished : Parsed → ExprError ⊎ Bytes
  finished (inl e) = inl e
  finished (inr (v, ts)) = at_end v ts

  -- evaluateExpr(args)
  unfoldable pub evaluate_expr : List Bytes → ExprError ⊎ Bytes
  evaluate_expr (t ∷ []) = inr t
  evaluate_expr args = finished (parse_or (parse_primary (suc (length args))) args)

  -- commandExpr: what is printed, and the status
  unfoldable pub command_expr : List Bytes → Option Bytes × ℕ
  command_expr [] = (none, 2)
  command_expr (t ∷ ts) = elim (evaluate_expr (t ∷ ts)) [
    | inl e ↦ (none, 2)
    | inr v ↦ (some v, (if is_null v then 1 else 0))
  ]
