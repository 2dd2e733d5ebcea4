-- ===== src/Signals.antt =====
-- pkg/gash/signals.go: signal names, the virtual trap and kill built-ins, and the EXIT trap that is
-- observed. Signal names and options are ASCII text.
pub mod Laws
mod Samples
use gash.Prelude.{
  ℕ, zero, suc, ◌+◌, ◌-◌, ◌≤◌, ◌<◌, leb, ltb, ◌==◌, Bool, true, false, not, ◌&&◌, ◌||◌, List, [],
  ◌∷◌, ◌++◌, map, Option, none, some, ◌⊎◌, inl, inr, Bytes, codes, beq, has_prefix, trim_prefix,
  length, drop, if◌then◌else◌, on_option,
}
use gash.Prelude.Int.{ℤ, pos, negsuc}
use gash.Prelude.Decimal.{atoi}
use gash.Assoc.{Assoc, lookup}
use gash.Limits.Scope.{Scope, set_trap, trap}
use gash.Jobs.{JobState, signal_job}

-- virtualSignals
abbrev pub virtual_signals : Assoc ℕ
virtual_signals = (codes "HUP", 1) ∷ (codes "INT", 2) ∷ (codes "QUIT", 3) ∷ (codes "TERM", 15) ∷ []

-- strings.ToUpper(s)
abbrev pub upper : ℕ → ℕ
upper c = if leb 97 c && leb c 122 then c - 32 else c

-- The loop over the signals for the one of that number.
unfoldable pub signal_name : ℤ → Assoc ℕ → Option (Bytes × ℕ)
signal_name (negsuc n) m = none
signal_name (pos n) [] = none
signal_name (pos n) ((name, number) ∷ m) =
    let rest = signal_name (pos n) m in if number == n then some (name, number) else rest

-- normalizeVirtualSignal(value): the name and the number; none where ok is false
unfoldable pub normalize_virtual_signal : Bytes → Option (Bytes × ℕ)
normalize_virtual_signal value =
    let value' = map upper (trim_prefix value (codes "SIG")) in
    on_option (atoi value')
      (on_option (lookup value' virtual_signals) none λ number. some (value', number))
      (λ number. signal_name number virtual_signals)

-- isVirtualSignal(value)
unfoldable pub is_virtual_signal : Bytes → Bool
is_virtual_signal value = on_option (normalize_virtual_signal value) false λ _. true

-- normalizeTrapSignal(value)
unfoldable pub normalize_trap_signal : Bytes → Option Bytes
normalize_trap_signal value =
    let value' = map upper value in
    if beq value' (codes "EXIT") || beq value' (codes "0")
    then some (codes "EXIT")
    else on_option (normalize_virtual_signal value') none λ r. some r.0

-- callback == "-" removes the trap.
unfoldable pub set_or_reset : Bytes → Bytes → Scope → Scope
set_or_reset signal callback s =
    if beq callback (codes "-") then set_trap signal [] s else set_trap signal callback s

-- callback, signals := "-", args, or the first argument and the others when there are several
abbrev pub split_callback : List Bytes → Bytes × List Bytes
split_callback [] = (codes "-", [])
split_callback (a ∷ []) = (codes "-", a ∷ [])
split_callback (a ∷ b ∷ args) = (a, b ∷ args)

unfoldable pub observe_each : Bytes → List Bytes → Scope → Scope
observe_each callback [] s = s
observe_each callback (value ∷ signals) s =
    let is_exit : Bool =
      on_option (normalize_trap_signal value) false λ signal. beq signal (codes "EXIT") in
    observe_each callback signals (if is_exit then set_or_reset (codes "EXIT") callback s else s)

abbrev pub observe_args : List Bytes → Scope → Scope
observe_args [] s = s
observe_args (a ∷ args) s =
    let (callback, signals) = split_callback (a ∷ args) in observe_each callback signals s

-- observeExitTrap(argv)
unfoldable pub observe_exit_trap : List Bytes → Scope → Scope
observe_exit_trap [] s = s
observe_exit_trap (_ ∷ []) s = s
observe_exit_trap (name ∷ a ∷ args) s =
    if not (beq name (codes "trap")) || beq a (codes "-p")
    then s
    else if beq a (codes "--")
    then observe_args args s
    else observe_args (a ∷ args) s

-- What trap prints and returns: the traps listed, as callback and signal, and the argument that
-- is reported as an invalid signal.
pub record TrapOutcome : Type 0 where
  pub code : ℕ
  pub lines : List (Bytes × Bytes)
  pub invalid : Option Bytes

-- The signals to list, or the first argument that is none.
unfoldable pub listed_signals : List Bytes → List Bytes ⊎ Bytes
listed_signals [] = inl []
listed_signals (value ∷ values) =
    let rest = listed_signals values in
    on_option (normalize_trap_signal value) (inr value)
      λ signal. elim rest [ inl signals ↦ inl (signal ∷ signals) | inr bad ↦ inr bad ]

unfoldable pub trap_lines : List Bytes → Scope → List (Bytes × Bytes)
trap_lines [] s = []
trap_lines (signal ∷ signals) s =
    let rest = trap_lines signals s in
    on_option (trap signal s) rest λ callback. (callback, signal) ∷ rest

abbrev all_signals : List Bytes
all_signals = codes "HUP" ∷ codes "INT" ∷ codes "QUIT" ∷ codes "TERM" ∷ codes "EXIT" ∷ []

unfoldable pub list_traps : List Bytes → Scope → TrapOutcome
list_traps values s =
    let signals : List Bytes ⊎ Bytes = elim values [
      | [] ↦ inl all_signals
      | v ∷ vs ↦ listed_signals (v ∷ vs)
    ] in
    elim signals [
      | inl names ↦ record { code = 0; lines = trap_lines names s; invalid = none }
      | inr bad ↦ record { code = 2; lines = []; invalid = some bad }
    ]

-- The loop that sets the traps; those before an invalid signal stay set.
unfoldable pub set_each : Bytes → List Bytes → Scope → TrapOutcome × Scope
set_each callback [] s = (record { code = 0; lines = []; invalid = none }, s)
set_each callback (value ∷ signals) s =
    on_option (normalize_virtual_signal value)
      (record { code = 2; lines = []; invalid = some value }, s)
      λ r. set_each callback signals (set_or_reset r.0 callback s)

-- runVirtualTrap(args)
unfoldable pub run_virtual_trap : List Bytes → Scope → TrapOutcome × Scope
run_virtual_trap [] s = (list_traps [] s, s)
run_virtual_trap (a ∷ args) s =
    if beq a (codes "-p")
    then (list_traps args s, s)
    else let (callback, signals) = split_callback (a ∷ args) in set_each callback signals s

-- virtualPID
abbrev pub virtual_pid : Bytes
virtual_pid = codes "2000"

pub data KillError : Type 0 where
  kill_usage : KillError
  requires_argument : KillError
  invalid_signal : KillError
  no_such_process : Bytes → KillError

-- What kill does when it has signalled the jobs: nothing more, exit as by the signal, or run the
-- shell's trap, whose code is kill's.
pub data KillOutcome : Type 0 where
  kill_failed : ℕ → KillError → KillOutcome
  jobs_signalled : KillOutcome
  exits_by_signal : ℕ → KillOutcome
  runs_trap : Bytes → Bytes → KillOutcome

-- The option: the signal's name and the operands, or the error.
unfoldable pub kill_option : List Bytes → (Bytes × List Bytes) ⊎ KillError
kill_option [] = inr kill_usage
kill_option (a ∷ args) =
    if beq a (codes "-s")
    then elim args [
      | [] ↦ inr requires_argument
      | signal ∷ rest ↦ elim rest [
        | [] ↦ inr requires_argument
        | pid ∷ pids ↦ inl (signal, pid ∷ pids)
      ]
    ]
    else if has_prefix a (codes "-") && ltb 1 (length a)
    then inl (trim_prefix a (codes "-"), args)
    else inl (codes "TERM", a ∷ args)

-- The loop over the pids: whether the shell is among them, and the jobs afterwards.
unfoldable pub kill_each : ℕ → Bool → List Bytes → JobState → (Bool ⊎ Bytes) × JobState
kill_each number shell [] j = (inl shell, j)
kill_each number shell (pid ∷ pids) j =
    let r = signal_job pid (128 + number) j in
    if beq pid virtual_pid
    then kill_each number true pids j
    else if r.0
    then kill_each number shell pids r.1
    else (inr pid, r.1)

-- The code below the loop.
unfoldable pub kill_shell : Bytes → ℕ → Scope → Bool ⊎ Bytes → KillOutcome
kill_shell signal number s (inr pid) = kill_failed 1 (no_such_process pid)
kill_shell signal number s (inl false) = jobs_signalled
kill_shell signal number s (inl true) =
    on_option (trap signal s) (exits_by_signal (128 + number)) λ callback. runs_trap callback signal

unfoldable pub kill_operands : Bytes → ℕ → List Bytes → Scope → JobState → KillOutcome × JobState
kill_operands signal number [] s j = (kill_failed 2 kill_usage, j)
kill_operands signal number (pid ∷ pids) s j =
    let r = kill_each number false (pid ∷ pids) j in (kill_shell signal number s r.0, r.1)

-- runVirtualKill(args); the trap's execution is left to the caller.
unfoldable pub run_virtual_kill : List Bytes → Scope → JobState → KillOutcome × JobState
run_virtual_kill args s j = elim (kill_option args) [
  | inr e ↦ (kill_failed 2 e, j)
  | inl (signal, pids) ↦
      on_option (normalize_virtual_signal signal) (kill_failed 2 invalid_signal, j)
        λ r. kill_operands r.0 r.1 pids s j
]
