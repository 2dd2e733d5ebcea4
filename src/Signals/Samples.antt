-- ===== src/Signals/Samples.antt =====
-- Concrete traps and signals.
use gash.Prelude.{◌≡◌, refl, [], ◌∷◌, some, codes, beq, has_prefix, trim_prefix}
use gash.Prelude.Decimal.{itoa, write_digits, atoi, read_digits}
use gash.Assoc.{lookup}
use gash.Limits.Scope.{Scope}
use gash.Jobs.{initialize_jobs}
use gash.Signals.{
  normalize_virtual_signal, normalize_trap_signal, run_virtual_trap, run_virtual_kill, runs_trap,
  signal_name, virtual_pid,
}
use gash.Signals.Laws.{kill-trap, run_virtual_trap-exit}

computing : Unit {0}
unfolding normalize_virtual_signal normalize_trap_signal signal_name lookup beq has_prefix
    trim_prefix atoi read_digits itoa write_digits
computing = tt

abbrev no_traps : Scope
no_traps = record {
  max_command_count = 10;
  max_input_bytes = 10;
  commands = 0;
  input = 0;
  traps = [];
}

kill-trap_example :
    run_virtual_kill
      (codes "-s" ∷ codes "2" ∷ virtual_pid ∷ [])
      (run_virtual_trap (codes "echo" ∷ codes "INT" ∷ []) no_traps).1
      initialize_jobs
    ≡ (runs_trap (codes "echo") (codes "INT"), initialize_jobs)
unfolding computing
kill-trap_example =
    kill-trap (codes "echo") (codes "INT") (codes "2") (codes "INT") 2 no_traps initialize_jobs refl
      refl refl

run_virtual_trap-exit_example :
    (run_virtual_trap (codes "echo" ∷ codes "EXIT" ∷ codes "INT" ∷ []) no_traps
      ≡ (record { code = 2; lines = []; invalid = some (codes "EXIT") }, no_traps))
    × ((run_virtual_trap (codes "-p" ∷ codes "EXIT" ∷ []) no_traps).0.code ≡ 0)
unfolding computing
run_virtual_trap-exit_example =
    run_virtual_trap-exit (codes "echo") (codes "INT" ∷ []) no_traps refl
