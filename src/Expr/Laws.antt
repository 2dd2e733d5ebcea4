-- ===== src/Expr/Laws.antt =====
-- Every evaluation of internal/commands/expr.go ends; what chains of `|` come to.
use gash.Prelude.{
  ℕ, zero, suc, ◌<◌, List, [], ◌∷◌, Bytes, codes, beq, length, if_cases, on_option_cases, inl, inr,
  ◌≢◌, refl, subst, arith,
}
use gash.Expr.Word.{parse_expr_int}
use gash.Expr.{
  Matcher, expr_regex_match, parse_or, closed, match_call, substr_call, index_call, length_call,
  primary_token, parse_primary, evaluate_expr, finished,
}
use gash.Expr.Operators.{syntax, non_integer, exhausted, Parsed, Parser}
use gash.Expr.Consumes.{
  Returns, LeavesLess, IsConsuming, with_parsed-LeavesLess, with_value-LeavesLess,
  expr_regex_match-Returns, parse_or-IsConsuming,
}

module _ (matches : Matcher) where
  match_call-LeavesLess :
      (m : ℕ) (p : Parser) (ts : List Bytes)
      → IsConsuming (length ts) p
      → length ts < m
      → LeavesLess m (match_call matches p ts)
  unfolding match_call
  match_call-LeavesLess m p ts takes h =
      with_parsed-LeavesLess (length ts) m (p ts) _ (takes ts (omega arith)) λ str rest less.
        with_parsed-LeavesLess (length rest) m (p rest) _ (takes rest (omega arith))
          λ pattern rest' less'.
            with_value-LeavesLess m (expr_regex_match matches str pattern) _
              (expr_regex_match-Returns matches str pattern) λ v. omega arith

  substr_call-LeavesLess :
      (m : ℕ) (p : Parser) (ts : List Bytes)
      → IsConsuming (length ts) p
      → length ts < m
      → LeavesLess m (substr_call matches p ts)
  unfolding substr_call
  substr_call-LeavesLess m p ts takes h =
      with_parsed-LeavesLess (length ts) m (p ts) _ (takes ts (omega arith)) λ str rest less.
        with_parsed-LeavesLess (length rest) m (p rest) _ (takes rest (omega arith))
          λ pos_text rest' less'.
            with_parsed-LeavesLess (length rest') m (p rest') _ (takes rest' (omega arith))
              λ len_text last less''.
                on_option_cases (LeavesLess m) (parse_expr_int pos_text) (inl non_integer) _
                  (λ _ e. cc)
                  λ pos _.
                    on_option_cases (LeavesLess m) (parse_expr_int len_text) (inl non_integer) _
                      (λ _ e. cc) λ len _. omega arith

  index_call-LeavesLess :
      (m : ℕ) (p : Parser) (ts : List Bytes)
      → IsConsuming (length ts) p
      → length ts < m
      → LeavesLess m (index_call matches p ts)
  unfolding index_call
  index_call-LeavesLess m p ts takes h =
      with_parsed-LeavesLess (length ts) m (p ts) _ (takes ts (omega arith)) λ str rest less.
        with_parsed-LeavesLess (length rest) m (p rest) _ (takes rest (omega arith))
          λ chars rest' less'. omega arith

  length_call-LeavesLess :
      (m : ℕ) (p : Parser) (ts : List Bytes)
      → IsConsuming (length ts) p
      → length ts < m
      → LeavesLess m (length_call matches p ts)
  unfolding length_call
  length_call-LeavesLess m p ts takes h =
      with_parsed-LeavesLess (length ts) m (p ts) _ (takes ts (omega arith))
        λ str rest less. omega arith

  closed-LeavesLess :
      (m : ℕ) (v : Bytes) (ts : List Bytes) → length ts < m → LeavesLess m (closed matches v ts)
  closed-LeavesLess m v [] h = λ e. cc
  closed-LeavesLess m v (t ∷ ts) h =
      if_cases (LeavesLess m) (beq t (codes ")")) (inr (v, ts)) (inl syntax) (λ _. omega arith)
        (λ _ e. cc)

  primary_token-LeavesLess :
      (p : Parser) (t : Bytes) (ts : List Bytes)
      → IsConsuming (length ts) p
      → LeavesLess (suc (length ts)) (primary_token matches p t ts)
  unfolding primary_token
  primary_token-LeavesLess p t ts takes =
      let m = suc (length ts) in
      let less : length ts < m = omega arith in
      if_cases (LeavesLess m) (beq t (codes "match")) (match_call matches p ts) _
        (λ _. match_call-LeavesLess m p ts takes less)
        λ _.
          if_cases (LeavesLess m) (beq t (codes "substr")) (substr_call matches p ts) _
            (λ _. substr_call-LeavesLess m p ts takes less)
            λ _.
              if_cases (LeavesLess m) (beq t (codes "index")) (index_call matches p ts) _
                (λ _. index_call-LeavesLess m p ts takes less)
                λ _.
                  if_cases (LeavesLess m) (beq t (codes "length")) (length_call matches p ts) _
                    (λ _. length_call-LeavesLess m p ts takes less)
                    λ _.
                      if_cases (LeavesLess m) (beq t (codes "(")) _ (inr (t, ts))
                        (λ _.
                          with_parsed-LeavesLess (length ts) m (parse_or matches p ts)
                            (closed matches)
                            (parse_or-IsConsuming matches (length ts) p takes ts (omega arith))
                            λ v rest k. closed-LeavesLess m v rest (omega arith))
                        (λ _. less)

  parse_primary-IsConsuming :
      (depth n : ℕ) → n < depth → IsConsuming n (parse_primary matches depth)
  unfolding parse_primary
  parse_primary-IsConsuming zero n h ts hn = absurd (omega arith)
  parse_primary-IsConsuming (suc depth) n h [] hn = λ e. cc
  parse_primary-IsConsuming (suc depth) n h (t ∷ ts) hn =
      primary_token-LeavesLess (parse_primary matches depth) t ts
        (parse_primary-IsConsuming depth (length ts) (omega arith))

  finished-Returns : (m : ℕ) (r : Parsed) → LeavesLess m r → Returns (finished matches r)
  finished-Returns m (inl e) h = h
  finished-Returns m (inr (v, [])) h = tt
  finished-Returns m (inr (v, t ∷ ts)) h = λ e. cc

  evaluated :
      (args : List Bytes)
      → Returns
          (finished matches (parse_or matches (parse_primary matches (suc (length args))) args))
  evaluated args =
      let p = parse_primary matches (suc (length args)) in
      finished-Returns (length args) (parse_or matches p args) (
        parse_or-IsConsuming matches (length args) p
          (parse_primary-IsConsuming (suc (length args)) (length args) (omega arith)) args
          (omega arith))

  evaluate_expr-Returns : (args : List Bytes) → Returns (evaluate_expr matches args)
  unfolding evaluate_expr
  evaluate_expr-Returns [] = evaluated []
  evaluate_expr-Returns (t ∷ []) = tt
  evaluate_expr-Returns (t ∷ u ∷ ts) = evaluated (t ∷ u ∷ ts)

  -- Whatever the arguments are and whatever a regular expression finds, the evaluation of expr ends
  -- with a value or with an error of the code: the fuel of the model, one for each argument and
  -- one more, does not run out.
  pub evaluate_expr-ne-exhausted : (args : List Bytes) → evaluate_expr matches args ≢ inl exhausted
  evaluate_expr-ne-exhausted args e = subst Returns e (evaluate_expr-Returns args) refl
