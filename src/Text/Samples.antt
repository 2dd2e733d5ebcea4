-- ===== src/Text/Samples.antt =====
-- Concrete lines.
use gash.Path.Lexical.{split}
use gash.Memory.Read.{text_lt}
use gash.Prelude.{
  true, List, [], ◌∷◌, ◌++◌, some, Bytes, codes, beq, has_prefix, trim_prefix, ◌≡◌, refl,
}
use gash.Text.Uniq.{
  UniqOptions, short_option, short_options, long_option, uniq_argument, parse_arguments,
  parse_uniq_options, skip_equal, included, uniq_loop, uniq, without_newline, uniq_data,
  command_uniq, printed_groups, expanded, IsGrouped, plain,
}
use gash.Text.Grouping.{uniq_lem}
use gash.Text.Comm.{
  comm_loop, comm, is_suppressed, emit, emit_all, suppress_digits, comm_arguments, command_comm,
  left_lines, right_lines, comm-lines,
}

computing : Unit {0}
unfolding split text_lt beq has_prefix trim_prefix short_option short_options long_option
    uniq_argument parse_arguments parse_uniq_options skip_equal included uniq_loop uniq
    without_newline uniq_data command_uniq comm_loop comm is_suppressed emit emit_all
    suppress_digits comm_arguments command_comm
computing = tt

abbrev some_lines : List Bytes
some_lines = codes "a" ∷ codes "a" ∷ codes "b" ∷ codes "a" ∷ []

uniq_lem_example :
    (expanded (uniq beq plain some_lines) ≡ some_lines) × IsGrouped (uniq beq plain some_lines)
uniq_lem_example = uniq_lem some_lines

abbrev repeated_only : UniqOptions
repeated_only = record plain { repeated = true }

uniq_d :
    command_uniq beq (λ files. some (codes "a\na\nb\n")) (codes "-cd" ∷ [])
    ≡ printed_groups ((2, codes "a") ∷ [])
unfolding computing
uniq_d = refl

comm-lines_example :
    (left_lines (comm some_lines (codes "b" ∷ [])) ≡ some_lines)
    × (right_lines (comm some_lines (codes "b" ∷ [])) ≡ codes "b" ∷ [])
comm-lines_example = comm-lines some_lines (codes "b" ∷ [])

comm_columns :
    command_comm (λ name. some (name ++ codes "\nz\n")) (codes "a" ∷ codes "-1" ∷ codes "b" ∷ [])
    ≡ some (codes "b" ∷ codes "\tz" ∷ [])
unfolding computing
comm_columns = refl
