-- ===== src/Expr/Consumes.antt =====
-- The parsers of internal/commands/expr.go end: each takes one argument at least.
use gash.Prelude.{
  ℕ, zero, suc, ◌≤◌, ◌<◌, Bool, not, ◌&&◌, ◌==◌, List, [], ◌∷◌, ◌++◌, Option, none, some, Bytes,
  codes, beq, length, if_cases, on_option_cases, ◌⊎◌, inl, inr, ◌≢◌, arith,
}
use gash.Prelude.Decimal.{itoa}
use gash.Expr.Word.{
  utf16_length, format_word, parse_expr_int, mul_word, div_word, rem_word, add_word, sub_word,
}
use gash.Expr.{
  Matcher, expr_regex_match, parse_match, parse_mul_div, parse_add_sub, parse_comparison, parse_and,
  parse_or,
}
use gash.Expr.Operators.{
  with_integers, division_by_zero, bad_pattern, ExprError, non_integer, exhausted, Parsed, Parser,
  with_parsed, with_value, is_null, is_one_of, operator_loop, operator_level, or_loop, multiply,
  add, relate, conjoin,
}

-- Fuel has not run out.
abbrev pub Returns {ℓ} : {A : Type ℓ} → ExprError ⊎ A → Type 0
Returns (inl e) = e ≢ exhausted
Returns (inr a) = Unit

-- Fuel has not run out, and fewer arguments are left.
abbrev pub LeavesLess : ℕ → Parsed → Type 0
LeavesLess n (inl e) = e ≢ exhausted
LeavesLess n (inr (v, ts)) = length ts < n

-- A parser that, of arguments up to a number, takes one at least.
abbrev pub IsConsuming : ℕ → Parser → Type 0
IsConsuming n parser = (ts : List Bytes) → length ts ≤ n → LeavesLess (length ts) (parser ts)

pub with_parsed-LeavesLess :
    (k m : ℕ) (r : Parsed) (f : Bytes → List Bytes → Parsed)
    → LeavesLess k r
    → ((v : Bytes) (ts : List Bytes) → length ts < k → LeavesLess m (f v ts))
    → LeavesLess m (with_parsed r f)
with_parsed-LeavesLess k m (inl e) f h g = h
with_parsed-LeavesLess k m (inr (v, ts)) f h g = g v ts h

pub with_value-LeavesLess :
    (m : ℕ) (r : ExprError ⊎ Bytes) (f : Bytes → Parsed)
    → Returns r
    → ((v : Bytes) → LeavesLess m (f v))
    → LeavesLess m (with_value r f)
with_value-LeavesLess m (inl e) f h g = h
with_value-LeavesLess m (inr v) f h g = g v

operator_loop-LeavesLess :
    (n m : ℕ) (operand : Parser) (test : Bytes → Bool)
    (apply : Bytes → Bytes → Bytes → ExprError ⊎ Bytes)
    → IsConsuming n operand
    → ((op left right : Bytes) → Returns (apply op left right))
    → (fuel : ℕ) (left : Bytes) (ts : List Bytes) → length ts < fuel
    → length ts ≤ n
    → length ts < m
    → LeavesLess m (operator_loop fuel operand test apply left ts)
unfolding operator_loop
operator_loop-LeavesLess n m operand test apply takes returns zero left ts hf hn hm =
    absurd (omega arith)
operator_loop-LeavesLess n m operand test apply takes returns (suc fuel) left [] hf hn hm = hm
operator_loop-LeavesLess n m operand test apply takes returns (suc fuel) left (op ∷ ts) hf hn hm =
    if_cases (LeavesLess m) (test op) _ (inr (left, op ∷ ts))
      (λ _.
        with_parsed-LeavesLess (length ts) m (operand ts) _ (takes ts (omega arith))
          λ right rest less.
            with_value-LeavesLess m (apply op left right) _ (returns op left right) λ v.
              operator_loop-LeavesLess n m operand test apply takes returns fuel v rest
                (omega arith) (omega arith) (omega arith))
      (λ _. hm)

operator_level-IsConsuming :
    (n : ℕ) (operand : Parser) (test : Bytes → Bool)
    (apply : Bytes → Bytes → Bytes → ExprError ⊎ Bytes)
    → ((op left right : Bytes) → Returns (apply op left right))
    → IsConsuming n operand
    → IsConsuming n (operator_level operand test apply)
unfolding operator_level
operator_level-IsConsuming n operand test apply returns takes ts h =
    with_parsed-LeavesLess (length ts) (length ts) (operand ts) _ (takes ts h) λ left rest less.
      operator_loop-LeavesLess n (length ts) operand test apply takes returns (suc (length rest))
        left rest (omega arith) (omega arith) less

or_loop-LeavesLess :
    (n m : ℕ) (operand : Parser)
    → IsConsuming n operand
    → (fuel : ℕ) (left : Bytes) (ts : List Bytes) → length ts < fuel
    → length ts ≤ n
    → length ts < m
    → LeavesLess m (or_loop fuel operand left ts)
unfolding or_loop
or_loop-LeavesLess n m operand takes zero left ts hf hn hm = absurd (omega arith)
or_loop-LeavesLess n m operand takes (suc fuel) left [] hf hn hm = hm
or_loop-LeavesLess n m operand takes (suc fuel) left (op ∷ ts) hf hn hm =
    if_cases (LeavesLess m) (beq op (codes "|")) _ (inr (left, op ∷ ts))
      (λ _.
        with_parsed-LeavesLess (length ts) m (operand ts) _ (takes ts (omega arith))
          λ right rest less.
            if_cases (LeavesLess m) (not (is_null left)) (inr (left, rest))
              (or_loop fuel operand right rest) (λ _. omega arith)
              (λ _.
                or_loop-LeavesLess n m operand takes fuel right rest (omega arith) (omega arith)
                  (omega arith)))
      (λ _. hm)

with_integers-Returns :
    (left right : Bytes) (f : ℕ → ℕ → ExprError ⊎ Bytes)
    → ((m n : ℕ) → Returns (f m n))
    → Returns (with_integers left right f)
with_integers-Returns left right f h =
    on_option_cases (λ (r : ExprError ⊎ Bytes). Returns r) (parse_expr_int left) (inl non_integer) _
      (λ _ e. cc)
      λ m _.
        on_option_cases (λ (r : ExprError ⊎ Bytes). Returns r) (parse_expr_int right)
          (inl non_integer) (f m) (λ _ e. cc) λ n _. h m n

multiply-Returns : (op left right : Bytes) → Returns (multiply op left right)
unfolding multiply
multiply-Returns op left right = with_integers-Returns left right _ λ m n.
    if_cases (λ (r : ExprError ⊎ Bytes). Returns r) (not (beq op (codes "*")) && n == 0)
      (inl division_by_zero) _ (λ _ e. cc)
      λ _.
        if_cases (λ (r : ExprError ⊎ Bytes). Returns r) (beq op (codes "*"))
          (inr (format_word (mul_word m n))) _ (λ _. tt)
          λ _.
            if_cases (λ (r : ExprError ⊎ Bytes). Returns r) (beq op (codes "/"))
              (inr (format_word (div_word m n))) (inr (format_word (rem_word m n))) (λ _. tt)
              (λ _. tt)

add-Returns : (op left right : Bytes) → Returns (add op left right)
unfolding add
add-Returns op left right = with_integers-Returns left right _ λ m n.
    if_cases (λ (r : ExprError ⊎ Bytes). Returns r) (beq op (codes "+"))
      (inr (format_word (add_word m n))) (inr (format_word (sub_word m n))) (λ _. tt) (λ _. tt)

relate-Returns : (op left right : Bytes) → Returns (relate op left right)
unfolding relate
relate-Returns op left right = tt

conjoin-Returns : (op left right : Bytes) → Returns (conjoin op left right)
unfolding conjoin
conjoin-Returns op left right = tt

module _ (matches : Matcher) where
  pub expr_regex_match-Returns :
      (str pattern : Bytes) → Returns (expr_regex_match matches str pattern)
  unfolding expr_regex_match
  expr_regex_match-Returns str pattern = returns (matches pattern str)
    where
      returns :
          (r : Bytes ⊎ Option (Bytes × Option Bytes))
          → Returns (elim r [
            | inl e ↦ inl (bad_pattern e)
            | inr none ↦ inr (codes "0")
            | inr (some (whole, none)) ↦ inr (itoa (utf16_length whole))
            | inr (some (whole, some group)) ↦ inr group
          ])
      returns (inl e) = λ h. cc
      returns (inr none) = tt
      returns (inr (some (whole, none))) = tt
      returns (inr (some (whole, some group))) = tt

  pub parse_or-IsConsuming :
      (n : ℕ) (primary : Parser) → IsConsuming n primary → IsConsuming n (parse_or matches primary)
  unfolding parse_or parse_and parse_comparison parse_add_sub parse_mul_div parse_match
  parse_or-IsConsuming n primary h ts hn =
      let matching =
        operator_level-IsConsuming n primary (is_one_of (codes ":" ∷ [])) _
          (λ _ l p. expr_regex_match-Returns l (codes "^" ++ p)) h in
      let multiplied =
        operator_level-IsConsuming n (parse_match matches primary) _ multiply multiply-Returns
          matching in
      let added =
        operator_level-IsConsuming n (parse_mul_div matches primary) _ add add-Returns multiplied in
      let related =
        operator_level-IsConsuming n (parse_add_sub matches primary) _ relate relate-Returns
          added in
      let joined =
        operator_level-IsConsuming n (parse_comparison matches primary) _ conjoin conjoin-Returns
          related in
      with_parsed-LeavesLess (length ts) (length ts) (parse_and matches primary ts) _ (joined ts hn)
        λ left rest less.
          or_loop-LeavesLess n (length ts) (parse_and matches primary) joined (suc (length rest))
            left rest (omega arith) (omega arith) less
