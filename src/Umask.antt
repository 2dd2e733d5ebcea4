-- ===== src/Umask.antt =====
-- internal/commands/umask.go: the file mode mask, set by an octal number or by symbolic clauses.
-- A mask is a number below 2 ^ 9; the arguments are ASCII text.
pub mod Symbolic
pub mod Laws
mod Samples
use Prim.Native.Nat.{bit_and, bit_or}
use gash.Prelude.{
  ℕ, ◌+◌, ◌-◌, ◌*◌, ◌/◌, ◌%◌, ◌^◌, ◌≤◌, ◌<◌, Bool, true, false, not, ◌&&◌, ◌||◌, List, [], ◌∷◌,
  ◌++◌, Option, none, some, Bytes, codes, ltb, leb, ◌==◌, any, is_empty, beq, has_prefix,
  if◌then◌else◌, on_option,
}
use gash.Path.Lexical.{split}

-- (^m) & 0o777
abbrev pub complement : ℕ → ℕ
complement m = 511 - bit_and m 511

-- allowed &^ bits, of numbers below 2 ^ 9
abbrev pub without : ℕ → ℕ → ℕ
without allowed bits = bit_and allowed (511 - bits)

-- strconv.ParseUint(spec, 8, 16), with what is read so far
unfoldable pub parse_octal : ℕ → Bytes → Option ℕ
parse_octal n [] = some n
parse_octal n (c ∷ cs) =
    let rest = parse_octal (n * 8 + (c - 48)) cs in if leb 48 c && leb c 55 then rest else none

-- n <= 0o777; a number of more than 16 bits is larger.
unfoldable pub numeric_mask : Bytes → Option ℕ
numeric_mask [] = none
numeric_mask (c ∷ cs) =
    on_option (parse_octal 0 (c ∷ cs)) none λ n. if leb n 511 then some n else none

-- The clause's text before the operator, the operator, and the permissions behind it.
unfoldable pub cut_operator : Bytes → Option (Bytes × ℕ × Bytes)
cut_operator [] = none
cut_operator (c ∷ s) =
    let rest = cut_operator s in
    if c == 43 || c == 45 || c == 61
    then some ([], c, s)
    else on_option rest none λ r. some (c ∷ r.0, r.1, r.2)

-- The bits of the permissions; an invalid one is an error.
unfoldable pub permission_bits : ℕ → Bytes → Option ℕ
permission_bits bits [] = some bits
permission_bits bits (c ∷ cs) =
    let read = permission_bits (bit_or bits 4) cs in
    let write = permission_bits (bit_or bits 2) cs in
    let execute = permission_bits (bit_or bits 1) cs in
    if c == 114 then read else if c == 119 then write else if c == 120 then execute else none

-- The factor 2 ^ shift of a class: u, g, o.
unfoldable pub class_factor : ℕ → Option ℕ
class_factor class =
    if class == 117
    then some 64
    else if class == 103
    then some 8
    else if class == 111
    then some 1
    else none

-- The switch on the operator.
unfoldable pub apply_operator : ℕ → ℕ → ℕ → ℕ → ℕ
apply_operator op bits factor allowed =
    if op == 43
    then bit_or allowed (bits * factor)
    else if op == 45
    then without allowed (bits * factor)
    else bit_or (without allowed (7 * factor)) (bits * factor)

unfoldable pub apply_classes : ℕ → ℕ → Bytes → ℕ → Option ℕ
apply_classes op bits [] allowed = some allowed
apply_classes op bits (class ∷ who) allowed =
    on_option (class_factor class) none
      λ factor. apply_classes op bits who (apply_operator op bits factor allowed)

-- One clause of a symbolic mask.
unfoldable pub apply_clause : Bytes → ℕ → Option ℕ
apply_clause clause allowed = on_option (cut_operator clause) none λ r.
    let who = if is_empty r.0 || any (λ c. c == 97) r.0 then codes "ugo" else r.0 in
    if any (λ c. c == 117 || c == 103 || c == 111 || c == 88 || c == 115 || c == 116) r.2
    then none
    else on_option (permission_bits 0 r.2) none λ bits. apply_classes r.1 bits who allowed

unfoldable pub apply_clauses : List Bytes → ℕ → Option ℕ
apply_clauses [] allowed = some allowed
apply_clauses (clause ∷ clauses) allowed =
    on_option (apply_clause clause allowed) none (apply_clauses clauses)

-- parseUmask(spec, current)
unfoldable pub parse_umask : Bytes → ℕ → Option ℕ
parse_umask spec current =
    on_option (numeric_mask spec)
      (on_option (apply_clauses (split 44 spec) (complement current)) none
        λ allowed. some (complement allowed))
      (λ n. some n)

-- permissionText(bits)
unfoldable pub permission_text : ℕ → Bytes
permission_text bits =
    (if bit_and bits 4 == 0 then [] else codes "r")
    ++ (if bit_and bits 2 == 0 then [] else codes "w")
    ++ (if bit_and bits 1 == 0 then [] else codes "x")

-- formatSymbolicUmask(mask)
unfoldable pub format_symbolic_umask : ℕ → Bytes
format_symbolic_umask mask =
    let allowed = complement mask in
    codes "u="
    ++ permission_text (allowed / 64 % 8)
    ++ codes ",g="
    ++ permission_text (allowed / 8 % 8)
    ++ codes ",o="
    ++ permission_text (allowed % 8)

-- %04o of a mask
unfoldable pub octal_text : ℕ → Bytes
octal_text mask =
    let m = bit_and mask 511 in 48 ∷ (48 + m / 64) ∷ (48 + m / 8 % 8) ∷ (48 + m % 8) ∷ []

pub data UmaskOutcome : Type 0 where
  umask_error : UmaskOutcome
  printed : Bytes → UmaskOutcome

-- The options: whether -S and -p were given, and the arguments behind them.
unfoldable pub umask_options : Bool → Bool → List Bytes → Option (Bool × Bool × List Bytes)
umask_options symbolic reusable [] = some (symbolic, reusable, [])
umask_options symbolic reusable (a ∷ args) =
    let with_symbolic = umask_options true reusable args in
    let with_reusable = umask_options symbolic true args in
    if not (has_prefix a (codes "-"))
    then some (symbolic, reusable, a ∷ args)
    else if beq a (codes "-S")
    then with_symbolic
    else if beq a (codes "-p")
    then with_reusable
    else if beq a (codes "--")
    then some (symbolic, reusable, args)
    else none

-- What the command prints of the mask.
unfoldable pub umask_output : Bool → Bool → Bool → ℕ → Bytes
umask_output no_argument symbolic reusable mask =
    if not (no_argument || symbolic || reusable)
    then []
    else if symbolic
    then format_symbolic_umask mask ++ codes "\n"
    else if reusable
    then codes "umask " ++ octal_text mask ++ codes "\n"
    else octal_text mask ++ codes "\n"

unfoldable pub umask_arguments : Bool → Bool → List Bytes → ℕ → UmaskOutcome × ℕ
umask_arguments symbolic reusable [] mask =
    (printed (umask_output true symbolic reusable mask), mask)
umask_arguments symbolic reusable (spec ∷ []) mask =
    on_option (parse_umask spec mask) (umask_error, mask)
      λ mask'. (printed (umask_output false symbolic reusable mask'), mask')
umask_arguments symbolic reusable (_ ∷ _ ∷ _) mask = (umask_error, mask)

-- commandUmask(args), with the mask in c.Umask
unfoldable pub command_umask : List Bytes → ℕ → UmaskOutcome × ℕ
command_umask args mask =
    on_option (umask_options false false args) (umask_error, mask)
      λ r. umask_arguments r.0 r.1 r.2 mask
