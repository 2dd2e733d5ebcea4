-- ===== src/Prelude/Base64.antt =====
-- base64.RawURLEncoding on bytes, each below 256.
use Prim.Native.Nat.{ℕ, ◌+◌, ◌-◌, ◌*◌, ◌/◌, ◌%◌, ◌<◌}
use mathlib.Core.Path.{◌≡◌, refl, ap, ◌∙◌}
use mathlib.Core.Bool.{◌&&◌, ◌||◌}
use mathlib.Core.List.{[], ◌∷◌}
use mathlib.Core.Option.{Option, none, some}
use native.Mathlib.Omega.{arith}
use gash.Prelude.Tests.{ltb, leb, ◌==◌, if◌then◌else◌, on_option}
use gash.Prelude.Lists.{All}
use gash.Prelude.Text.{Bytes}

-- The character of a digit below 64: A to Z, a to z, 0 to 9, '-' and '_'.
unfoldable pub character : ℕ → ℕ
character d =
    if ltb d 26
    then 65 + d
    else if ltb d 52
    then 97 + (d - 26)
    else if ltb d 62
    then 48 + (d - 52)
    else if d == 62
    then 45
    else 95

unfoldable pub digit : ℕ → Option ℕ
digit c =
    if leb 65 c && leb c 90
    then some (c - 65)
    else if leb 97 c && leb c 122
    then some (c - 97 + 26)
    else if leb 48 c && leb c 57
    then some (c - 48 + 52)
    else if c == 45
    then some 62
    else if c == 95
    then some 63
    else none

unfoldable pub encode : Bytes → Bytes
encode [] = []
encode (a ∷ []) = character (a / 4) ∷ character (a % 4 * 16) ∷ []
encode (a ∷ b ∷ []) =
    character (a / 4) ∷ character (a % 4 * 16 + b / 16) ∷ character (b % 16 * 4) ∷ []
encode (a ∷ b ∷ c ∷ s) =
    character (a / 4)
    ∷ character (a % 4 * 16 + b / 16)
    ∷ character (b % 16 * 4 + c / 64)
    ∷ character (c % 64)
    ∷ encode s

-- The bits of the last digit that no byte takes are not looked at, as without Strict.
unfoldable decode_digits : Bytes → Option Bytes
decode_digits [] = some []
decode_digits (w ∷ []) = none
decode_digits (w ∷ x ∷ []) =
    on_option (digit w) none λ p. on_option (digit x) none λ q. some ((p * 4 + q / 16) ∷ [])
decode_digits (w ∷ x ∷ y ∷ []) = on_option (digit w) none λ p.
    on_option (digit x) none
      λ q. on_option (digit y) none λ r. some ((p * 4 + q / 16) ∷ (q % 16 * 16 + r / 4) ∷ [])
decode_digits (w ∷ x ∷ y ∷ z ∷ s) = on_option (digit w) none λ p. on_option (digit x) none λ q.
    on_option (digit y) none λ r. on_option (digit z) none λ t.
      on_option (decode_digits s) none
        λ rest. some ((p * 4 + q / 16) ∷ (q % 16 * 16 + r / 4) ∷ (r % 4 * 64 + t) ∷ rest)

-- The decoder passes over the ends of lines.
unfoldable without_newlines : Bytes → Bytes
without_newlines [] = []
without_newlines (c ∷ s) =
    let rest = without_newlines s in if c == 10 || c == 13 then rest else c ∷ rest

unfoldable pub decode : Bytes → Option Bytes
unfolding decode_digits without_newlines
decode s = decode_digits (without_newlines s)

digit-character : (d : ℕ) → d < 64 → digit (character d) ≡ some d
unfolding digit character
digit-character d h = ground arith

abbrev pub IsByte : ℕ → Type 0
IsByte b = b < 256

decode_digits-encode : (s : Bytes) → All IsByte s → decode_digits (encode s) ≡ some s
unfolding decode_digits encode
decode_digits-encode [] h = refl
decode_digits-encode (a ∷ []) h =
    rw (digit-character (a / 4) (omega arith), digit-character (a % 4 * 16) (omega arith))
      (ground arith)
decode_digits-encode (a ∷ b ∷ []) h =
    rw
      (
        digit-character (a / 4) (omega arith),
        digit-character (a % 4 * 16 + b / 16) (omega arith),
        digit-character (b % 16 * 4) (omega arith),
      )
      (ground arith)
decode_digits-encode (a ∷ b ∷ c ∷ s) h =
    rw
      (
        digit-character (a / 4) (omega arith),
        digit-character (a % 4 * 16 + b / 16) (omega arith),
        digit-character (b % 16 * 4 + c / 64) (omega arith),
        digit-character (c % 64) (omega arith),
        decode_digits-encode s h.1.1.1,
      )
      (ground arith)

without_newlines-character :
    (d : ℕ) (s : Bytes)
    → without_newlines s ≡ s
    → without_newlines (character d ∷ s) ≡ character d ∷ s
unfolding without_newlines character
without_newlines-character d s e = ground (arith, e)

without_newlines-encode : (s : Bytes) → without_newlines (encode s) ≡ encode s
unfolding encode without_newlines
without_newlines-encode [] = refl
without_newlines-encode (a ∷ []) =
    let last = character (a % 4 * 16) ∷ [] in
    without_newlines-character (a / 4) last (without_newlines-character (a % 4 * 16) [] refl)
without_newlines-encode (a ∷ b ∷ []) =
    let third = character (b % 16 * 4) ∷ [] in
    let second = character (a % 4 * 16 + b / 16) ∷ third in
    without_newlines-character (a / 4) second (
      without_newlines-character (a % 4 * 16 + b / 16) third
        (without_newlines-character (b % 16 * 4) [] refl))
without_newlines-encode (a ∷ b ∷ c ∷ s) =
    let fourth = character (c % 64) ∷ encode s in
    let third = character (b % 16 * 4 + c / 64) ∷ fourth in
    let second = character (a % 4 * 16 + b / 16) ∷ third in
    without_newlines-character (a / 4) second (
      without_newlines-character (a % 4 * 16 + b / 16) third (
        without_newlines-character (b % 16 * 4 + c / 64) fourth
          (without_newlines-character (c % 64) (encode s) (without_newlines-encode s))))

pub decode-encode : (s : Bytes) → All IsByte s → decode (encode s) ≡ some s
unfolding decode
decode-encode s h = ap decode_digits (without_newlines-encode s) ∙ decode_digits-encode s h
