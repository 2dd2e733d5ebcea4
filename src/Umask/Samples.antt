-- ===== src/Umask/Samples.antt =====
-- Concrete masks.
use gash.Prelude.{[], ◌∷◌, ◌<◌, ◌≡◌, refl, some, codes, arith, beq, has_prefix}
use gash.Path.Lexical.{split}
use gash.Umask.{
  parse_octal, numeric_mask, cut_operator, permission_bits, class_factor, apply_operator,
  apply_classes, apply_clause, apply_clauses, parse_umask, permission_text, format_symbolic_umask,
  octal_text, umask_error, printed, umask_options, umask_output, umask_arguments, command_umask,
}
use gash.Umask.Laws.{parse_umask-printed, command_umask-lt}

computing : Unit {0}
unfolding beq has_prefix split parse_octal numeric_mask cut_operator permission_bits class_factor
    apply_operator apply_classes apply_clause apply_clauses parse_umask permission_text
    format_symbolic_umask octal_text umask_options umask_output umask_arguments command_umask
computing = tt

parse_umask-printed_example :
    (parse_umask (octal_text 0o022) 0o777 ≡ some 0o022)
    × (parse_umask (format_symbolic_umask 0o022) 0o777 ≡ some 0o022)
parse_umask-printed_example = parse_umask-printed 0o022 0o777 (omega arith)

symbolic : command_umask (codes "-S" ∷ []) 0o022 ≡ (printed (codes "u=rwx,g=rx,o=rx\n"), 0o022)
unfolding computing
symbolic = refl

command_umask-lt_example :
    ((command_umask (codes "u=rwx,g-w,o=" ∷ []) 0o002).1 < 512)
    × ((command_umask (codes "u=rwx,g-w,o=" ∷ []) 0o002).0 ≡ umask_error
        → (command_umask (codes "u=rwx,g-w,o=" ∷ []) 0o002).1 ≡ 0o002)
command_umask-lt_example = command_umask-lt (codes "u=rwx,g-w,o=" ∷ []) 0o002 (omega arith)

set_symbolic : command_umask (codes "u=rwx,g-w,o=" ∷ []) 0o002 ≡ (printed [], 0o027)
unfolding computing
set_symbolic = refl
