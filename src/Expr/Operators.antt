-- ===== src/Expr/Operators.antt =====
-- The operators of internal/commands/expr.go, and the loops of its parsers.
use gash.Prelude.{
  ℕ, zero, suc, ◌+◌, ◌-◌, Bool, not, ◌&&◌, ◌||◌, List, [], ◌∷◌, Bytes, codes, beq, any, length,
  take, drop, is_empty, ltb, ◌==◌, if◌then◌else◌, on_option, ◌⊎◌, inl, inr,
}
use gash.Prelude.Decimal.{itoa}
use gash.Memory.Read.{text_lt}
use gash.Expr.Word.{
  add_word, sub_word, mul_word, div_word, rem_word, less_word, is_negative_word, format_word,
  parse_expr_int, utf16_encode, utf16_decode,
}

-- `exhausted` is the model's own, for fuel that runs out.
pub data ExprError : Type 0 where
  syntax non_integer division_by_zero exhausted : ExprError
  bad_pattern : Bytes → ExprError

-- What is found, and the arguments behind it.
abbrev pub Parsed : Type 0
Parsed = ExprError ⊎ (Bytes × List Bytes)

abbrev pub Parser : Type 0
Parser = List Bytes → Parsed

-- err != nil { return "", err }
abbrev pub with_parsed : Parsed → (Bytes → List Bytes → Parsed) → Parsed
with_parsed (inl e) f = inl e
with_parsed (inr (v, ts)) f = f v ts

abbrev pub with_value : ExprError ⊎ Bytes → (Bytes → Parsed) → Parsed
with_value (inl e) f = inl e
with_value (inr v) f = f v

-- left == "0" || left == ""
abbrev pub is_null : Bytes → Bool
is_null v = beq v (codes "0") || is_empty v

abbrev pub is_one_of : List Bytes → Bytes → Bool
is_one_of ops t = any (beq t) ops

-- The loop of a parser of binary operators, over the fuel.
unfoldable pub operator_loop :
    ℕ
    → Parser
    → (Bytes → Bool)
    → (Bytes → Bytes → Bytes → ExprError ⊎ Bytes)
    → Bytes
    → List Bytes
    → Parsed
operator_loop zero operand test apply left ts = inl exhausted
operator_loop (suc fuel) operand test apply left [] = inr (left, [])
operator_loop (suc fuel) operand test apply left (op ∷ ts) =
    if test op
    then with_parsed (operand ts) (λ right rest.
      with_value (apply op left right) (λ v. operator_loop fuel operand test apply v rest))
    else inr (left, op ∷ ts)

unfoldable pub operator_level :
    Parser → (Bytes → Bool) → (Bytes → Bytes → Bytes → ExprError ⊎ Bytes) → Parser
operator_level operand test apply ts =
    with_parsed (operand ts)
      λ left rest. operator_loop (suc (length rest)) operand test apply left rest

-- Both operands as integers.
abbrev pub with_integers : Bytes → Bytes → (ℕ → ℕ → ExprError ⊎ Bytes) → ExprError ⊎ Bytes
with_integers left right f =
    on_option (parse_expr_int left) (inl non_integer)
      λ m. on_option (parse_expr_int right) (inl non_integer) λ n. f m n

-- The body of the loop of parseMulDiv.
unfoldable pub multiply : Bytes → Bytes → Bytes → ExprError ⊎ Bytes
multiply op left right = with_integers left right λ m n.
    if not (beq op (codes "*")) && n == 0
    then inl division_by_zero
    else if beq op (codes "*")
    then inr (format_word (mul_word m n))
    else if beq op (codes "/")
    then inr (format_word (div_word m n))
    else inr (format_word (rem_word m n))

-- The body of the loop of parseAddSub.
unfoldable pub add : Bytes → Bytes → Bytes → ExprError ⊎ Bytes
add op left right = with_integers left right λ m n.
    if beq op (codes "+")
    then inr (format_word (add_word m n))
    else inr (format_word (sub_word m n))

-- The switch of parseComparison, of whether the left operand is less and whether they are equal.
abbrev compares : Bytes → Bool → Bool → Bool
compares op less equal =
    if beq op (codes "=")
    then equal
    else if beq op (codes "!=")
    then not equal
    else if beq op (codes "<")
    then less
    else if beq op (codes ">")
    then not less && not equal
    else if beq op (codes "<=")
    then less || equal
    else not less

abbrev truth : Bool → Bytes
truth b = if b then codes "1" else codes "0"

-- The body of the loop of parseComparison.
unfoldable pub relate : Bytes → Bytes → Bytes → ExprError ⊎ Bytes
relate op left right =
    let texts = truth (compares op (text_lt left right) (beq left right)) in
    inr (
      on_option (parse_expr_int left) texts λ m.
        on_option (parse_expr_int right) texts λ n. truth (compares op (less_word m n) (m == n)))

-- The body of the loop of parseAnd.
unfoldable pub conjoin : Bytes → Bytes → Bytes → ExprError ⊎ Bytes
conjoin op left right = inr (if is_null left || is_null right then codes "0" else left)

-- The loop of parseOr, which returns where the left operand is not null.
unfoldable pub or_loop : ℕ → Parser → Bytes → List Bytes → Parsed
or_loop zero operand left ts = inl exhausted
or_loop (suc fuel) operand left [] = inr (left, [])
or_loop (suc fuel) operand left (op ∷ ts) =
    if beq op (codes "|")
    then with_parsed (operand ts) (λ right rest.
      if not (is_null left) then inr (left, rest) else or_loop fuel operand right rest)
    else inr (left, op ∷ ts)

-- exprSubstring(str, pos, length)
unfoldable pub expr_substring : Bytes → ℕ → ℕ → Bytes
expr_substring str pos len =
    let units = utf16_encode str in
    let start = sub_word pos 1 in
    let end = add_word start len in
    let from = if is_negative_word start then 0 else start in
    let to = if less_word end from then from else end in
    let size = length units in
    let first = if ltb size from then size else from in
    let last = if ltb size to then size else to in
    utf16_decode (take (last - first) (drop first units))

-- The search of exprIndex, from a position on.
unfoldable pub index_from : ℕ → List ℕ → List ℕ → Bytes
index_from i set [] = codes "0"
index_from i set (unit ∷ units) =
    if any (λ u. u == unit) set then itoa (i + 1) else index_from (i + 1) set units

-- exprIndex(str, chars)
unfoldable pub expr_index : Bytes → Bytes → Bytes
expr_index str chars = index_from 0 (utf16_encode chars) (utf16_encode str)
