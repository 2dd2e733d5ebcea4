-- ===== src/Expr/Chains.antt =====
-- Chains of `|` in internal/commands/expr.go.
use gash.Prelude.{
  ℕ, suc, Bool, true, false, false≢true, not, ◌||◌, List, [], ◌∷◌, Bytes, codes, beq, if◌then◌else◌,
  if_cases, ◌⊎◌, inl, inr, ◌≡◌, refl, arith,
}
use gash.Expr.{
  Matcher, parse_match, parse_mul_div, parse_add_sub, parse_comparison, parse_and, parse_or,
  primary_token, match_call, substr_call, index_call, length_call, parse_primary, evaluate_expr,
  finished,
}
use gash.Expr.Operators.{
  ExprError, syntax, Parsed, Parser, is_null, operator_loop, operator_level, or_loop, multiply, add,
  relate, conjoin,
}

-- An argument that parsePrimary takes as it is.
abbrev pub is_plain : Bytes → Bool
is_plain t = not (
    beq t (codes "match")
    || beq t (codes "substr")
    || beq t (codes "index")
    || beq t (codes "length")
    || beq t (codes "("))

abbrev bar : Bytes
bar = codes "|"

-- Where the operand of a level ends: at a bar, or at the end.
abbrev StopsAt : List Bytes → Type 0
StopsAt rest = (rest ≡ []) ⊎ ((r : List Bytes) × (rest ≡ bar ∷ r))

operator_level-stops :
    (operand : Parser) (test : Bytes → Bool) (apply : Bytes → Bytes → Bytes → ExprError ⊎ Bytes)
    (ts : List Bytes) (v : Bytes) (rest : List Bytes)
    → operand ts ≡ inr (v, rest)
    → test bar ≡ false
    → StopsAt rest
    → operator_level operand test apply ts ≡ inr (v, rest)
unfolding operator_level operator_loop
operator_level-stops operand test apply ts v rest e t (inl z) = rw e (rw z refl)
operator_level-stops operand test apply ts v rest e t (inr (r, z)) = rw e (rw z (rw t refl))

module _ (matches : Matcher) where
  parse_primary-plain :
      (depth : ℕ) (t : Bytes) (rest : List Bytes)
      → is_plain t ≡ true
      → parse_primary matches (suc depth) (t ∷ rest) ≡ inr (t, rest)
  unfolding parse_primary primary_token
  parse_primary-plain depth t rest h =
      let p = parse_primary matches depth in
      let Is : Parsed → Type 0 = λ r. r ≡ inr (t, rest) in
      if_cases Is (beq t (codes "match")) (match_call matches p rest) _
        (λ e. absurd (false≢true (ground (arith, e, h))))
        λ _.
          if_cases Is (beq t (codes "substr")) (substr_call matches p rest) _
            (λ e. absurd (false≢true (ground (arith, e, h))))
            λ _.
              if_cases Is (beq t (codes "index")) (index_call matches p rest) _
                (λ e. absurd (false≢true (ground (arith, e, h))))
                λ _.
                  if_cases Is (beq t (codes "length")) (length_call matches p rest) _
                    (λ e. absurd (false≢true (ground (arith, e, h))))
                    λ _.
                      if_cases Is (beq t (codes "(")) _ (inr (t, rest))
                        (λ e. absurd (false≢true (ground (arith, e, h)))) (λ _. refl)

  parse_and-plain :
      (depth : ℕ) (t : Bytes) (rest : List Bytes)
      → is_plain t ≡ true
      → StopsAt rest
      → parse_and matches (parse_primary matches (suc depth)) (t ∷ rest) ≡ inr (t, rest)
  unfolding parse_and parse_comparison parse_add_sub parse_mul_div parse_match beq
  parse_and-plain depth t rest h stop =
      let p = parse_primary matches (suc depth) in
      let ts = t ∷ rest in
      operator_level-stops (parse_comparison matches p) _ conjoin ts t rest
        (operator_level-stops (parse_add_sub matches p) _ relate ts t rest
          (operator_level-stops (parse_mul_div matches p) _ add ts t rest
            (operator_level-stops (parse_match matches p) _ multiply ts t rest
              (operator_level-stops p _ _ ts t rest (parse_primary-plain depth t rest h) refl stop)
              refl stop)
            refl stop)
          refl stop)
        refl stop

  finished-if :
      (n : Bool) (x y : Parsed) (v w : ExprError ⊎ Bytes)
      → finished matches x ≡ v
      → finished matches y ≡ w
      → finished matches (if not n then x else y) ≡ (if not n then v else w)
  finished-if true x y v w e f = f
  finished-if false x y v w e f = e

  -- Of three operands joined by `|`, none of them a keyword or an opening parenthesis: where the first is neither 0 nor empty the evaluation is
  -- a syntax error; where it is, the result is the first of the others that is not, or the third.
  pub evaluate_expr-bars :
      (a b c : Bytes)
      → is_plain a ≡ true
      → is_plain b ≡ true
      → is_plain c ≡ true
      → evaluate_expr matches (a ∷ codes "|" ∷ b ∷ codes "|" ∷ c ∷ [])
        ≡ (if not (is_null a) then inl syntax else if not (is_null b) then inr b else inr c)
  unfolding evaluate_expr parse_or or_loop beq
  evaluate_expr-bars a b c ha hb hc =
      rw (parse_and-plain 5 a (bar ∷ b ∷ bar ∷ c ∷ []) ha (inr (b ∷ bar ∷ c ∷ [], refl))) (
        rw (parse_and-plain 5 b (bar ∷ c ∷ []) hb (inr (c ∷ [], refl))) (
          finished-if (is_null a) (inr (a, bar ∷ c ∷ [])) _ (inl syntax) _ refl (
            rw (parse_and-plain 5 c [] hc (inl refl))
              (finished-if (is_null b) (inr (b, [])) (inr (c, [])) (inr b) (inr c) refl refl))))
