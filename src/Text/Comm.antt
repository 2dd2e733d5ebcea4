-- ===== src/Text/Comm.antt =====
-- internal/commands/text/comm.go: the merge of the lines of two files into three columns.
use gash.Prelude.{
  ℕ, zero, suc, ◌+◌, ◌≤◌, ltb, ◌==◌, Bool, false, not, ◌&&◌, ◌||◌, List, [], ◌∷◌, ◌++◌, Option,
  none, some, on_option, has_prefix, codes, drop, Bytes, beq, beq_iff, if◌then◌else◌, if_cases, ◌≡◌,
  refl, ap, ap₂, arith, length,
}
use gash.Memory.Read.{text_lt}
use gash.Text.Uniq.{lines_of}

-- A line of output: the column that `emit` is called with, and the text.
abbrev pub Line : Type 0
Line = ℕ × Bytes

-- The loop of commandComm. Each round takes a line of one file at least, so that the number of all
-- lines is enough fuel.
unfoldable pub comm_loop : ℕ → List Bytes → List Bytes → List Line
comm_loop fuel [] [] = []
comm_loop zero left right = []
comm_loop (suc fuel) [] (r ∷ right) = (2, r) ∷ comm_loop fuel [] right
comm_loop (suc fuel) (l ∷ left) [] = (1, l) ∷ comm_loop fuel left []
comm_loop (suc fuel) (l ∷ left) (r ∷ right) =
    let both = comm_loop fuel left right in
    let first = comm_loop fuel left (r ∷ right) in
    let second = comm_loop fuel (l ∷ left) right in
    if beq l r then (3, l) ∷ both else if text_lt l r then (1, l) ∷ first else (2, r) ∷ second

unfoldable pub comm : List Bytes → List Bytes → List Line
comm left right = comm_loop (length left + length right) left right

-- The columns that are suppressed by -1, -2 and -3.
pub record Suppress : Type 0 where
  pub first : Bool
  pub second : Bool
  pub third : Bool

unfoldable pub is_suppressed : Suppress → ℕ → Bool
is_suppressed s column =
    (column == 1 && s.first) || (column == 2 && s.second) || (column == 3 && s.third)

-- emit(column, value): nothing, or the line with a tab for each column before it that is printed
unfoldable pub emit : Suppress → Line → List Bytes
emit s (column, value) =
    if is_suppressed s column
    then []
    else ((if ltb 1 column && not s.first then 9 ∷ [] else [])
        ++ (if ltb 2 column && not s.second then 9 ∷ [] else [])
        ++ value)
      ∷ []

-- suppress[r-'0'] = true for each digit from 1 to 3
unfoldable pub suppress_digits : Bytes → Suppress → Suppress
suppress_digits [] s = s
suppress_digits (c ∷ cs) s = suppress_digits cs (record {
  first = s.first || c == 49;
  second = s.second || c == 50;
  third = s.third || c == 51;
})

-- The loop over the arguments: the columns suppressed, and the files.
unfoldable pub comm_arguments : List Bytes → Suppress → Suppress × List Bytes
comm_arguments [] s = (s, [])
comm_arguments (arg ∷ args) s =
    let files = comm_arguments args s in
    let options = comm_arguments args (suppress_digits (drop 1 arg) s) in
    if has_prefix arg (codes "-") then options else (files.0, arg ∷ files.1)

unfoldable pub emit_all : Suppress → List Line → List Bytes
emit_all s [] = []
emit_all s (l ∷ ls) = emit s l ++ emit_all s ls

-- commandComm: the lines printed, or none where it reports an error. `read_file` is the reading of
-- a file.
unfoldable pub command_comm : (Bytes → Option Bytes) → List Bytes → Option (List Bytes)
command_comm read_file args =
    let r = comm_arguments args (record { first = false; second = false; third = false }) in
    elim r.1 [
      | [] ↦ none
      | left ∷ others ↦ elim others [
        | [] ↦ none
        | right ∷ more ↦ elim more [
          | _ ∷ _ ↦ none
          | [] ↦ on_option (read_file left) none λ a.
              on_option (read_file right) none
                λ b. some (emit_all r.0 (comm (lines_of a) (lines_of b)))
        ]
      ]
    ]

-- The lines of the files that a merge accounts for: columns 1 and 3 are the left file's, 2 and 3
-- the right one's.
unfoldable pub left_lines : List Line → List Bytes
left_lines [] = []
left_lines ((column, value) ∷ ls) =
    let rest = left_lines ls in if column == 2 then rest else value ∷ rest

unfoldable pub right_lines : List Line → List Bytes
right_lines [] = []
right_lines ((column, value) ∷ ls) =
    let rest = right_lines ls in if column == 1 then rest else value ∷ rest

comm_loop-lines :
    (fuel : ℕ) (left right : List Bytes)
    → length left + length right ≤ fuel
    → (left_lines (comm_loop fuel left right) ≡ left)
      × (right_lines (comm_loop fuel left right) ≡ right)
unfolding comm_loop left_lines right_lines
comm_loop-lines zero [] [] h = (refl, refl)
comm_loop-lines (suc fuel) [] [] h = (refl, refl)
comm_loop-lines zero [] (r ∷ right) h = absurd (omega (arith, h))
comm_loop-lines zero (l ∷ left) right h = absurd (omega (arith, h))
comm_loop-lines (suc fuel) [] (r ∷ right) h =
    let i = comm_loop-lines fuel [] right (omega (arith, h)) in (i.0, ap (λ s. r ∷ s) i.1)
comm_loop-lines (suc fuel) (l ∷ left) [] h =
    let i = comm_loop-lines fuel left [] (omega (arith, h)) in (ap (λ s. l ∷ s) i.0, i.1)
comm_loop-lines (suc fuel) (l ∷ left) (r ∷ right) h =
    if_cases Kept (beq l r) ((3, l) ∷ comm_loop fuel left right)
      (if text_lt l r
        then (1, l) ∷ comm_loop fuel left (r ∷ right)
        else (2, r) ∷ comm_loop fuel (l ∷ left) right)
      (λ e.
        let i = comm_loop-lines fuel left right (omega (arith, h)) in
        (ap (λ s. l ∷ s) i.0, ap₂ (λ x s. x ∷ s) ((beq_iff l r).0 e) i.1))
      λ _.
        if_cases Kept (text_lt l r) ((1, l) ∷ comm_loop fuel left (r ∷ right))
          ((2, r) ∷ comm_loop fuel (l ∷ left) right)
          (λ _.
            let i = comm_loop-lines fuel left (r ∷ right) (omega (arith, h)) in
            (ap (λ s. l ∷ s) i.0, i.1))
          (λ _.
            let i = comm_loop-lines fuel (l ∷ left) right (omega (arith, h)) in
            (i.0, ap (λ s. r ∷ s) i.1))
  where
    Kept : List Line → Type 0
    Kept out = (left_lines out ≡ l ∷ left) × (right_lines out ≡ r ∷ right)

-- Of any two lists of lines, sorted or not, columns 1 and 3 of the merge are the first list in its
-- order, and columns 2 and 3 the second.
pub comm-lines :
    (left right : List Bytes)
    → (left_lines (comm left right) ≡ left) × (right_lines (comm left right) ≡ right)
unfolding comm
comm-lines left right = comm_loop-lines (length left + length right) left right (omega arith)
