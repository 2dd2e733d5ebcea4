-- ===== src/Expr/Format.antt =====
-- What expr prints of an integer, it reads back.
use gash.Prelude.{
  ℕ, zero, suc, ◌+◌, ◌/◌, ◌%◌, ◌^◌, ◌<◌, Bool, true, false, false≢true, [], ◌∷◌, ◌++◌, Option, none,
  some, Bytes, codes, all, is_empty, ltb, leb, ◌==◌, if◌then◌else◌, if_cases, ◌≡◌, refl, ap, ◌∙◌,
  arith,
}
use gash.Prelude.Decimal.{itoa, write_digits, read_digits-itoa}
use gash.Expr.Word.{
  format_word, parse_expr_int, parse_trimmed, trim_space_left, leading_digits, parse_signed,
  signed_word, magnitude, is_negative_word, is_digit, is_space,
}

write_digits-digits :
    (fuel n : ℕ) (out : Bytes)
    → all is_digit out ≡ true
    → all is_digit (write_digits fuel n out) ≡ true
unfolding write_digits
write_digits-digits zero n out h = ground (arith, h)
write_digits-digits (suc fuel) n out h =
    if_cases (λ s. all is_digit s ≡ true) (ltb n 10) ((48 + n % 10) ∷ out)
      (write_digits fuel (n / 10) ((48 + n % 10) ∷ out)) (λ _. ground (arith, h))
      (λ _. write_digits-digits fuel (n / 10) ((48 + n % 10) ∷ out) (ground (arith, h)))

write_digits-full : (fuel n : ℕ) (out : Bytes) → is_empty (write_digits fuel n out) ≡ false
unfolding write_digits
write_digits-full zero n out = refl
write_digits-full (suc fuel) n out =
    if_cases (λ s. is_empty s ≡ false) (ltb n 10) ((48 + n % 10) ∷ out)
      (write_digits fuel (n / 10) ((48 + n % 10) ∷ out)) (λ _. refl)
      (λ _. write_digits-full fuel (n / 10) ((48 + n % 10) ∷ out))

leading_digits-digits : (s : Bytes) → all is_digit s ≡ true → leading_digits s ≡ s
unfolding leading_digits
leading_digits-digits [] h = refl
leading_digits-digits (c ∷ s) h = ground (arith, leading_digits-digits s)

-- Digits, of which there is one, are read as a number without sign.
parse_expr_int-digits :
    (s : Bytes)
    → all is_digit s ≡ true
    → is_empty s ≡ false
    → parse_expr_int s ≡ parse_signed false s
unfolding parse_expr_int trim_space_left
parse_expr_int-digits [] h k = cc
parse_expr_int-digits (c ∷ s) h k =
    if_cases (λ t. parse_trimmed t ≡ parse_signed false (c ∷ s)) (is_space c) (trim_space_left s)
      (c ∷ s) (λ e. absurd (false≢true (ground (arith, e, h))))
      (λ _.
        if_cases (λ r. r ≡ parse_signed false (c ∷ s)) (c == 43)
          (parse_signed false (leading_digits s)) _
          (λ e. absurd (false≢true (ground (arith, e, h))))
          (λ _.
            if_cases (λ r. r ≡ parse_signed false (c ∷ s)) (c == 45)
              (parse_signed true (leading_digits s)) (parse_signed false (leading_digits (c ∷ s)))
              (λ e. absurd (false≢true (ground (arith, e, h))))
              (λ _. ap (parse_signed false) (leading_digits-digits (c ∷ s) h))))

parse_expr_int-minus :
    (s : Bytes) → all is_digit s ≡ true → parse_expr_int (45 ∷ s) ≡ parse_signed true s
unfolding parse_expr_int trim_space_left
parse_expr_int-minus s h = ap (parse_signed true) (leading_digits-digits s h)

itoa-digits : (n : ℕ) → all is_digit (itoa n) ≡ true
unfolding itoa
itoa-digits n = write_digits-digits n n [] refl

itoa-full : (n : ℕ) → is_empty (itoa n) ≡ false
unfolding itoa
itoa-full n = write_digits-full n n []

-- The range of a sign.
abbrev ranged : Bool → ℕ → Option ℕ
ranged negative n =
    if negative
    then (if leb n (2 ^ 63) then some (signed_word true n) else none)
    else if ltb n (2 ^ 63)
    then some n
    else none

parse_signed-itoa : (negative : Bool) (n : ℕ) → parse_signed negative (itoa n) ≡ ranged negative n
unfolding parse_signed
parse_signed-itoa negative n = rw (itoa-full n, read_digits-itoa n) refl

ranged-magnitude :
    (w : ℕ) → w < 2 ^ 64 → is_negative_word w ≡ true → ranged true (magnitude w) ≡ some w
ranged-magnitude w h e = ground (arith, e)

ranged-positive : (w : ℕ) → is_negative_word w ≡ false → ranged false w ≡ some w
ranged-positive w e = ground (arith, e)

-- Every int64 that expr prints, in two's complement below 2 ^ 64, is read back as itself.
pub parse_expr_int-format_word : (w : ℕ) → w < 2 ^ 64 → parse_expr_int (format_word w) ≡ some w
unfolding format_word
parse_expr_int-format_word w h =
    if_cases (λ s. parse_expr_int s ≡ some w) (is_negative_word w) (codes "-" ++ itoa (magnitude w))
      (itoa w)
      (λ e.
        parse_expr_int-minus (itoa (magnitude w)) (itoa-digits (magnitude w))
        ∙ (parse_signed-itoa true (magnitude w) ∙ ranged-magnitude w h e))
      (λ e.
        parse_expr_int-digits (itoa w) (itoa-digits w) (itoa-full w)
        ∙ (parse_signed-itoa false w ∙ ranged-positive w e))
