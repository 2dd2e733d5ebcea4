-- ===== src/Limits/Samples.antt =====
-- Concrete limits, scopes and budgets.
use gash.Prelude.{
  ℕ, ◌≡◌, ◌≤◌, ◌<◌, min, List, [], ◌∷◌, true, false, some, get_elem?, refl, All, codes, beq,
}
use gash.Assoc.{lookup, put, delete}
use gash.Limits.Scope.{
  Scope, charge_many, accepted, set_trap, trap, trap-set_trap, charge_command, consume_input,
}
use gash.Limits.Budget.{
  run, calls, total, given, asked, IsFinished, advance, step, System, Writer, loaded, finished,
}
use gash.Limits.Granted.{run-given}
use gash.Limits.Alone.{turns, run-IsFinished}

computing : Unit {0}
unfolding beq lookup put delete charge_many charge_command consume_input accepted run calls total
    advance step
computing = tt

abbrev scope : Scope
scope = record { max_command_count = 2; max_input_bytes = 10; commands = 0; input = 0; traps = [] }

-- Two writers that both load the counter before either swaps it.
abbrev race : List ℕ
race = 0 ∷ 1 ∷ 0 ∷ 1 ∷ 1 ∷ 1 ∷ 1 ∷ []

run-given_example :
    let y = run 10 race (calls 10 (6 ∷ 7 ∷ [])) in
    let granted = total given y.writers in
    (granted ≤ 10)
    × (All IsFinished y.writers
        → (granted ≡ min 10 (total asked (calls 10 (6 ∷ 7 ∷ [])).writers))
          × (granted < total asked (calls 10 (6 ∷ 7 ∷ [])).writers → y.shared.exceeded ≡ true))
run-given_example = run-given 10 (6 ∷ 7 ∷ []) race

race_ends : All IsFinished (run 10 race (calls 10 (6 ∷ 7 ∷ []))).writers
unfolding computing
race_ends = (tt, (tt, tt))

trap-set_trap_example :
    trap (codes "INT") (set_trap (codes "EXIT") (codes "ls") scope) ≡ trap (codes "INT") scope
unfolding beq
trap-set_trap_example = trap-set_trap (codes "EXIT") (codes "ls") (codes "INT") scope

-- The second of two writers is behind a load when the first has written.
abbrev overtaken : System
overtaken = record {
  shared = record { used = 6; exceeded = false };
  writers = finished 6 6 ∷ loaded 7 0 ∷ [];
}

run-IsFinished_example :
    (w' : Writer) × (get_elem? (run 10 (turns 4 1) overtaken).writers 1 ≡ some w') × IsFinished w'
run-IsFinished_example = run-IsFinished 10 1 overtaken (loaded 7 0) refl
