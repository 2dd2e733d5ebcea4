-- ===== src/Limits/Scope.antt =====
-- executionScope of pkg/gash/limits.go: the counters that nested shells and background jobs share,
-- and the traps.
use gash.Prelude.{
  ℕ, zero, suc, ◌+◌, ◌-◌, ◌≤◌, List, [], ◌∷◌, Option, none, some, Bytes, beq, ltb, ◌≡◌, arith,
  if◌then◌else◌, min, is_empty,
}
use gash.Assoc.{Assoc, lookup, put, delete, lookup-put, lookup-delete}

pub data ChargeError : Type 0 where
  too_many_commands input_limit : ChargeError

pub record Scope : Type 0 where
  pub max_command_count : ℕ
  pub max_input_bytes : ℕ
  pub commands : ℕ
  pub input : ℕ
  pub traps : Assoc Bytes

-- setTrap(signal, callback)
unfoldable pub set_trap : Bytes → Bytes → Scope → Scope
set_trap signal callback s =
    if is_empty callback
    then record s { traps = delete signal s.traps }
    else record s { traps = put signal callback s.traps }

-- trap(signal)
unfoldable pub trap : Bytes → Scope → Option Bytes
trap signal s = lookup signal s.traps

-- chargeCommand(): the counter is raised whether or not the command may run
unfoldable pub charge_command : Scope → Option ChargeError × Scope
charge_command s =
    let s' : Scope = record s { commands = s.commands + 1 } in
    if ltb s.max_command_count s'.commands then (some too_many_commands, s') else (none, s')

-- consumeInput(n)
unfoldable pub consume_input : ℕ → Scope → Option ChargeError × Scope
consume_input n s =
    let s' : Scope = record s { input = s.input + n } in
    if ltb s.max_input_bytes s'.input then (some input_limit, s') else (none, s')

-- What each trap is after one was set: an empty callback removes it.
pub trap-set_trap :
    (signal callback other : Bytes) (s : Scope)
    → trap other (set_trap signal callback s) ≡ (
        if beq signal other
        then (if is_empty callback then none else some callback)
        else trap other s)
unfolding trap set_trap
trap-set_trap signal [] other s = lookup-delete signal other s.traps
trap-set_trap signal (c ∷ cs) other s = lookup-put signal other (c ∷ cs) s.traps

-- The commands that may run out of `n` that are charged, and the scope afterwards.
unfoldable pub charge_many : ℕ → Scope → ℕ × Scope
charge_many zero s = (0, s)
charge_many (suc n) s =
    let (e, s') = charge_command s in
    let (runs, s'') = charge_many n s' in (elim e [ none ↦ runs + 1 | some _ ↦ runs ], s'')

charge_many-min_from :
    (n : ℕ) (s : Scope) → (charge_many n s).0 ≡ min n (s.max_command_count - s.commands)
unfolding charge_many charge_command
charge_many-min_from zero s = omega arith
charge_many-min_from (suc n) s =
    ground (arith, charge_many-min_from n (record s { commands = s.commands + 1 }))

-- Of any number of commands charged to a new scope, exactly as many run as the limit allows.
pub charge_many-min :
    (n : ℕ) (s : Scope) → s.commands ≡ 0 → (charge_many n s).0 ≡ min n s.max_command_count
charge_many-min n s h = omega (arith, charge_many-min_from n s, h)

-- The bytes of the inputs that are accepted.
unfoldable pub accepted : List ℕ → Scope → ℕ
accepted [] s = 0
accepted (n ∷ ns) s =
    let (e, s') = consume_input n s in
    let rest = accepted ns s' in elim e [ none ↦ n + rest | some _ ↦ rest ]

-- Whatever inputs are charged, those accepted fit in what the limit leaves together.
pub accepted-le : (ns : List ℕ) (s : Scope) → accepted ns s ≤ s.max_input_bytes - s.input
unfolding accepted consume_input
accepted-le [] s = omega arith
accepted-le (n ∷ ns) s = ground (arith, accepted-le ns (record s { input = s.input + n }))
