-- ===== src/Prelude/Decimal.antt =====
-- strconv.Itoa and strconv.Atoi on the numbers that the code writes and reads.
use Prim.Native.Nat.{ℕ, zero, suc, ◌+◌, ◌-◌, ◌*◌, ◌/◌, ◌%◌, ◌^◌, ◌≤◌}
use mathlib.Core.Path.{◌≡◌, sym, ◌∙◌, ap}
use mathlib.Core.Bool.{Bool, true, false, ◌&&◌}
use mathlib.Core.List.{[], ◌∷◌}
use mathlib.Core.Option.{Option, none, some}
use native.Mathlib.Omega.{arith}
use gash.Prelude.Tests.{ltb, leb, ◌==◌, if◌then◌else◌, on_option}
use gash.Prelude.Text.{Bytes}
use gash.Prelude.Int.{ℤ, pos, negsuc}

abbrev pub is_digit : ℕ → Bool
is_digit c = leb 48 c && leb c 57

-- The digits of a number before those already written; the number itself is enough fuel.
unfoldable pub write_digits : ℕ → ℕ → Bytes → Bytes
write_digits zero n out = (48 + n % 10) ∷ out
write_digits (suc fuel) n out =
    let rest = write_digits fuel (n / 10) ((48 + n % 10) ∷ out) in
    if ltb n 10 then (48 + n % 10) ∷ out else rest

-- strconv.Itoa(n) of a number that is not negative
unfoldable pub itoa : ℕ → Bytes
itoa n = write_digits n n []

-- The number that digits spell, after those read into `n`.
unfoldable pub read_digits : ℕ → Bytes → Option ℕ
read_digits n [] = some n
read_digits n (c ∷ cs) = if is_digit c then read_digits (n * 10 + (c - 48)) cs else none

-- An int of 64 bits, of that sign.
unfoldable in_range : Bool → ℕ → Option ℤ
in_range false n = if ltb n (2 ^ 63) then some (pos n) else none
in_range true zero = some (pos 0)
in_range true (suc n) = if ltb n (2 ^ 63) then some (negsuc n) else none

-- Digits, of which there is one at least.
unfoldable unsigned : Bool → Bytes → Option ℤ
unfolding in_range
unsigned negative [] = none
unsigned negative (c ∷ cs) = on_option (read_digits 0 (c ∷ cs)) none (in_range negative)

-- strconv.Atoi(s)
unfoldable pub atoi : Bytes → Option ℤ
unfolding unsigned
atoi [] = none
atoi (c ∷ cs) =
    if c == 43
    then unsigned false cs
    else if c == 45
    then unsigned true cs
    else unsigned false (c ∷ cs)

read_digits-write_digits :
    (fuel n : ℕ) (out : Bytes)
    → n ≤ fuel
    → read_digits 0 (write_digits fuel n out) ≡ read_digits n out
unfolding read_digits write_digits
read_digits-write_digits zero n out h = ground arith
read_digits-write_digits (suc fuel) n out h =
    ground (arith, read_digits-write_digits fuel (n / 10) ((48 + n % 10) ∷ out))

-- What Itoa writes reads back as the number.
pub read_digits-itoa : (n : ℕ) → read_digits 0 (itoa n) ≡ some n
unfolding itoa read_digits
read_digits-itoa n = read_digits-write_digits n n [] (omega arith)

pub itoa-injective : (m n : ℕ) → itoa m ≡ itoa n → m ≡ n
itoa-injective m n e = same (sym (read_digits-itoa m) ∙ ap (read_digits 0) e ∙ read_digits-itoa n)
  where
    same : some m ≡ some n → m ≡ n
    same h = cc
