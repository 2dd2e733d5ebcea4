-- ===== src/Expr/Word.antt =====
-- int64 as internal/commands/expr.go uses it, parseExprInt, and the code units of UTF-16.
use gash.Prelude.{
  ℕ, ◌+◌, ◌-◌, ◌*◌, ◌/◌, ◌%◌, ◌^◌, Bool, true, false, not, ◌&&◌, ◌||◌, List, [], ◌∷◌, ◌++◌, Option,
  none, some, Bytes, codes, length, is_empty, ltb, leb, ◌==◌, if◌then◌else◌, on_option,
}
use gash.Prelude.Decimal.{itoa, read_digits}

abbrev pub is_negative_word : ℕ → Bool
is_negative_word w = leb (2 ^ 63) w

abbrev pub magnitude : ℕ → ℕ
magnitude w = if is_negative_word w then 2 ^ 64 - w else w

-- A sign and a magnitude.
abbrev pub signed_word : Bool → ℕ → ℕ
signed_word negative m = if negative then (2 ^ 64 - m) % 2 ^ 64 else m

abbrev pub add_word : ℕ → ℕ → ℕ
add_word m n = (m + n) % 2 ^ 64

abbrev pub sub_word : ℕ → ℕ → ℕ
sub_word m n = (m + (2 ^ 64 - n)) % 2 ^ 64

abbrev pub mul_word : ℕ → ℕ → ℕ
mul_word m n = m * n % 2 ^ 64

abbrev differ : Bool → Bool → Bool
differ a b = if a then not b else b

-- Go's / and %, which round towards zero; the one quotient out of range wraps round.
abbrev pub div_word : ℕ → ℕ → ℕ
div_word m n =
    signed_word (differ (is_negative_word m) (is_negative_word n)) (magnitude m / magnitude n)

abbrev pub rem_word : ℕ → ℕ → ℕ
rem_word m n = signed_word (is_negative_word m) (magnitude m % magnitude n)

abbrev pub less_word : ℕ → ℕ → Bool
less_word m n = ltb ((m + 2 ^ 63) % 2 ^ 64) ((n + 2 ^ 63) % 2 ^ 64)

-- strconv.FormatInt(n, 10)
unfoldable pub format_word : ℕ → Bytes
format_word w = if is_negative_word w then codes "-" ++ itoa (magnitude w) else itoa w

-- unicode.IsSpace
abbrev pub is_space : ℕ → Bool
is_space c =
    (leb 9 c && leb c 13)
    || c == 32
    || c == 0x85
    || c == 0xa0
    || c == 0x1680
    || (leb 0x2000 c && leb c 0x200a)
    || c == 0x2028
    || c == 0x2029
    || c == 0x202f
    || c == 0x205f
    || c == 0x3000

unfoldable pub trim_space_left : Bytes → Bytes
trim_space_left [] = []
trim_space_left (c ∷ s) = if is_space c then trim_space_left s else c ∷ s

abbrev pub is_digit : ℕ → Bool
is_digit c = leb 48 c && leb c 57

-- The digits that a text begins with.
unfoldable pub leading_digits : Bytes → Bytes
leading_digits [] = []
leading_digits (c ∷ s) = let rest = leading_digits s in if is_digit c then c ∷ rest else []

-- strconv.ParseInt of a sign and digits, of which there is one at least
unfoldable pub parse_signed : Bool → Bytes → Option ℕ
parse_signed negative digits =
    if is_empty digits
    then none
    else on_option (read_digits 0 digits) none λ n.
      if negative
      then (if leb n (2 ^ 63) then some (signed_word true n) else none)
      else if ltb n (2 ^ 63)
      then some n
      else none

abbrev pub parse_trimmed : Bytes → Option ℕ
parse_trimmed [] = none
parse_trimmed (c ∷ s) =
    if c == 43
    then parse_signed false (leading_digits s)
    else if c == 45
    then parse_signed true (leading_digits s)
    else parse_signed false (leading_digits (c ∷ s))

-- parseExprInt(s)
unfoldable pub parse_expr_int : Bytes → Option ℕ
parse_expr_int s = parse_trimmed (trim_space_left s)

-- utf16.Encode of code points
unfoldable pub utf16_encode : Bytes → List ℕ
utf16_encode [] = []
utf16_encode (c ∷ s) =
    let rest = utf16_encode s in
    if leb 0x10000 c
    then (0xd800 + (c - 0x10000) / 1024) ∷ (0xdc00 + (c - 0x10000) % 1024) ∷ rest
    else c ∷ rest

abbrev pub utf16_length : Bytes → ℕ
utf16_length s = length (utf16_encode s)

abbrev is_high : ℕ → Bool
is_high u = leb 0xd800 u && ltb u 0xdc00

abbrev is_low : ℕ → Bool
is_low u = leb 0xdc00 u && ltb u 0xe000

-- utf16.Decode, which puts U+FFFD for half of a pair
unfoldable pub utf16_decode : List ℕ → Bytes
utf16_decode [] = []
utf16_decode (u ∷ []) = (if is_high u || is_low u then 0xfffd else u) ∷ []
utf16_decode (u ∷ v ∷ us) =
    let rest = utf16_decode us in
    let next = utf16_decode (v ∷ us) in
    if is_high u && is_low v
    then (0x10000 + (u - 0xd800) * 1024 + (v - 0xdc00)) ∷ rest
    else (if is_high u || is_low u then 0xfffd else u) ∷ next
