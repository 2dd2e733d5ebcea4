-- ===== src/Text/Uniq.antt =====
-- internal/commands/text/uniq.go: the options, and the loop over groups of equal lines. The
-- comparison of two lines, with strings.EqualFold or without, is a parameter of the loop.
use gash.Path.Lexical.{split}
use gash.Prelude.{
  ℕ, zero, suc, ◌+◌, ltb, ◌==◌, Bool, true, false, not, ◌&&◌, List, [], ◌∷◌, ◌++◌, Option, none,
  some, Bytes, codes, beq, has_prefix, trim_prefix, length, if◌then◌else◌, on_option, ◌≡◌,
}

-- uniqOptions
pub record UniqOptions : Type 0 where
  pub count : Bool
  pub repeated : Bool
  pub unique : Bool
  pub ignore_case : Bool
  pub positional : List Bytes

-- The options, or the one that is reported as unknown.
pub data UniqParse : Type 0 where
  parsed : UniqOptions → UniqParse
  unknown_option : Bytes → UniqParse

-- The switch on a short option.
unfoldable pub short_option : ℕ → UniqOptions → Option UniqOptions
short_option c o =
    if c == 99
    then some (record o { count = true })
    else if c == 100
    then some (record o { repeated = true })
    else if c == 117
    then some (record o { unique = true })
    else if c == 105
    then some (record o { ignore_case = true })
    else none

-- The loop over the short options of one argument.
unfoldable pub short_options : Bytes → UniqOptions → UniqParse
short_options [] o = parsed o
short_options (c ∷ cs) o = elim (short_option c o) [
  | none ↦ unknown_option (codes "-" ++ c ∷ [])
  | some o' ↦ short_options cs o'
]

-- The switch on a long option.
unfoldable pub long_option : Bytes → UniqOptions → UniqParse
long_option arg o =
    if beq arg (codes "--count")
    then parsed (record o { count = true })
    else if beq arg (codes "--repeated")
    then parsed (record o { repeated = true })
    else if beq arg (codes "--unique")
    then parsed (record o { unique = true })
    else if beq arg (codes "--ignore-case")
    then parsed (record o { ignore_case = true })
    else unknown_option arg

-- What one argument does while options are parsed, and whether they still are behind it.
unfoldable pub uniq_argument : Bytes → UniqOptions → UniqParse × Bool
uniq_argument arg o =
    if beq arg (codes "--")
    then (parsed o, false)
    else if has_prefix arg (codes "--")
    then (long_option arg o, true)
    else if has_prefix arg (codes "-") && not (beq arg (codes "-"))
    then (short_options (trim_prefix arg (codes "-")) o, true)
    else (parsed (record o { positional = o.positional ++ arg ∷ [] }), false)

unfoldable pub parse_arguments : Bool → List Bytes → UniqOptions → UniqParse
parse_arguments parsing [] o = parsed o
parse_arguments false (arg ∷ args) o =
    parse_arguments false args (record o { positional = o.positional ++ arg ∷ [] })
parse_arguments true (arg ∷ args) o =
    let r = uniq_argument arg o in
    elim r.0 [ parsed o' ↦ parse_arguments r.1 args o' | unknown_option a ↦ unknown_option a ]

-- parseUniqOptions(args)
unfoldable pub parse_uniq_options : List Bytes → UniqParse
parse_uniq_options args = parse_arguments true args (record {
  count = false;
  repeated = false;
  unique = false;
  ignore_case = false;
  positional = [];
})

-- Go's nested loop: the lines behind `start` that equal it, counted, and the lines behind them.
unfoldable pub skip_equal : (Bytes → Bytes → Bool) → Bytes → List Bytes → ℕ × List Bytes
skip_equal same start [] = (0, [])
skip_equal same start (line ∷ lines) =
    let r = skip_equal same start lines in
    if same start line then (r.0 + 1, r.1) else (0, line ∷ lines)

-- Whether a group of that many lines is included.
unfoldable pub included : UniqOptions → ℕ → Bool
included o count = if o.repeated then ltb 1 count else if o.unique then count == 1 else true

-- The loop of commandUniq: the groups that are printed, as count and first line. Each round takes
-- one line at least, so that the number of lines is enough fuel.
unfoldable pub uniq_loop : (Bytes → Bytes → Bool) → UniqOptions → ℕ → List Bytes → List (ℕ × Bytes)
uniq_loop same o fuel [] = []
uniq_loop same o zero (start ∷ lines) = []
uniq_loop same o (suc fuel) (start ∷ lines) =
    let r = skip_equal same start lines in
    let rest = uniq_loop same o fuel r.1 in
    if included o (r.0 + 1) then (r.0 + 1, start) ∷ rest else rest

unfoldable pub uniq : (Bytes → Bytes → Bool) → UniqOptions → List Bytes → List (ℕ × Bytes)
uniq same o lines = uniq_loop same o (length lines) lines

-- strings.Split(strings.TrimSuffix(data, "\n"), "\n")
unfoldable pub without_newline : Bytes → Bytes
without_newline [] = []
without_newline (c ∷ []) = if c == 10 then [] else c ∷ []
without_newline (c ∷ d ∷ s) = c ∷ without_newline (d ∷ s)

abbrev pub lines_of : Bytes → List Bytes
lines_of s = split 10 (without_newline s)

-- What commandUniq prints, the option that it reports, or a failure to read its input.
pub data UniqOutcome : Type 0 where
  printed_groups : List (ℕ × Bytes) → UniqOutcome
  bad_option : Bytes → UniqOutcome
  read_failed : UniqOutcome

-- uniqLinesEqual, where `fold_equal` is strings.EqualFold
abbrev pub uniq_lines_equal : (Bytes → Bytes → Bool) → Bool → Bytes → Bytes → Bool
uniq_lines_equal fold_equal true left right = fold_equal left right
uniq_lines_equal fold_equal false left right = beq left right

unfoldable pub uniq_data : (Bytes → Bytes → Bool) → UniqOptions → Bytes → List (ℕ × Bytes)
uniq_data fold_equal o [] = []
uniq_data fold_equal o (c ∷ s) =
    uniq (uniq_lines_equal fold_equal o.ignore_case) o (lines_of (c ∷ s))

-- commandUniq(args); `read_inputs` is the reading of its files.
unfoldable pub command_uniq :
    (Bytes → Bytes → Bool) → (List Bytes → Option Bytes) → List Bytes → UniqOutcome
command_uniq fold_equal read_inputs args = elim (parse_uniq_options args) [
  | unknown_option a ↦ bad_option a
  | parsed o ↦
      on_option (read_inputs o.positional) read_failed
        λ content. printed_groups (uniq_data fold_equal o content)
]

-- The lines that the groups stand for.
unfoldable pub repeat {ℓ} : {A : Type ℓ} → ℕ → A → List A
repeat zero a = []
repeat (suc n) a = a ∷ repeat n a

unfoldable pub expanded : List (ℕ × Bytes) → List Bytes
expanded [] = []
expanded ((n, line) ∷ groups) = repeat n line ++ expanded groups

-- No group has the same line as the next.
abbrev pub IsGrouped : List (ℕ × Bytes) → Type 0
IsGrouped [] = Unit
IsGrouped (g ∷ []) = Unit
IsGrouped (g ∷ h ∷ groups) = (beq g.1 h.1 ≡ false) × IsGrouped (h ∷ groups)

-- Without -d and -u.
abbrev pub plain : UniqOptions
plain = record {
  count = false;
  repeated = false;
  unique = false;
  ignore_case = false;
  positional = [];
}
