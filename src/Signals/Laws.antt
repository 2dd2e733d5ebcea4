-- ===== src/Signals/Laws.antt =====
-- The names of signals, and the traps, of pkg/gash/signals.go.
use gash.Prelude.{
  ℕ, ◌+◌, Bool, true, false, not, ◌||◌, List, [], ◌∷◌, ◌++◌, map, none, some, Bytes, codes, beq,
  beq_iff, is_empty, has_prefix, trim_prefix, ◌≡◌, refl, ap, ◌∙◌, subst, arith, if◌then◌else◌, ◌⊎◌,
  inl, inr, on_option, on_option_cases, if_cases, Bool-cases,
}
use gash.Prelude.Int.{ℤ, pos, negsuc}
use gash.Prelude.Decimal.{itoa, write_digits, atoi, read_digits}
use gash.Assoc.{lookup}
use gash.Limits.Scope.{Scope, trap, trap-set_trap}
use gash.Jobs.{JobState}
use gash.Signals.{
  virtual_signals, upper, signal_name, normalize_virtual_signal, normalize_trap_signal,
  set_or_reset, observe_each, observe_args, observe_exit_trap, list_traps, listed_signals, set_each,
  run_virtual_trap, virtual_pid, exits_by_signal, runs_trap, kill_option, kill_each, kill_shell,
  kill_operands, run_virtual_kill,
}

-- A name and a number that the shell knows a signal by.
abbrev pub IsSignal : Bytes → ℕ → Type 0
IsSignal n k =
    ((n ≡ codes "HUP") × (k ≡ 1))
    ⊎ (((n ≡ codes "INT") × (k ≡ 2))
        ⊎ (((n ≡ codes "QUIT") × (k ≡ 3)) ⊎ ((n ≡ codes "TERM") × (k ≡ 15))))

lookup-IsSignal : (v : Bytes) (k : ℕ) → lookup v virtual_signals ≡ some k → IsSignal v k
unfolding lookup
lookup-IsSignal v k h = ground (
  arith,
  beq_iff (codes "HUP") v,
  beq_iff (codes "INT") v,
  beq_iff (codes "QUIT") v,
  beq_iff (codes "TERM") v,
)

signal_name-IsSignal :
    (z : ℤ) (r : Bytes × ℕ) → signal_name z virtual_signals ≡ some r → IsSignal r.0 r.1
unfolding signal_name
signal_name-IsSignal (negsuc n) r h = cc
signal_name-IsSignal (pos n) r h = ground arith

normalize-IsSignal :
    (v : Bytes) (r : Bytes × ℕ) → normalize_virtual_signal v ≡ some r → IsSignal r.0 r.1
unfolding normalize_virtual_signal
normalize-IsSignal v r =
    let v' = map upper (trim_prefix v (codes "SIG")) in
    on_option_cases (λ o. o ≡ some r → IsSignal r.0 r.1) (atoi v') _ _
      (λ _.
        on_option_cases (λ o. o ≡ some r → IsSignal r.0 r.1) (lookup v' virtual_signals) none _
          (λ _ c. absurd (none_some c)) λ k e h. named k e h)
      (λ z _. signal_name-IsSignal z r)
  where
    none_some : none ≡ some r → ⊥
    none_some c = cc

    named :
        (k : ℕ)
        → lookup (map upper (trim_prefix v (codes "SIG"))) virtual_signals ≡ some k
        → some (map upper (trim_prefix v (codes "SIG")), k) ≡ some r
        → IsSignal r.0 r.1
    named k e h =
        subst (λ o. on_option o Unit (λ q. IsSignal q.0 q.1)) h
          (lookup-IsSignal (map upper (trim_prefix v (codes "SIG"))) k e)

-- What normalizeVirtualSignal accepts, it takes to one of the four signals, whose name, name
-- behind SIG and decimal number it all takes to the same.
pub normalize_virtual_signal-name :
    (v n : Bytes) (k : ℕ)
    → normalize_virtual_signal v ≡ some (n, k)
    → IsSignal n k
      × (normalize_virtual_signal n ≡ some (n, k))
      × (normalize_virtual_signal (codes "SIG" ++ n) ≡ some (n, k))
      × (normalize_virtual_signal (itoa k) ≡ some (n, k))
unfolding normalize_virtual_signal signal_name lookup beq trim_prefix has_prefix itoa write_digits
    atoi read_digits
normalize_virtual_signal-name v n k h =
    let c = normalize-IsSignal v (n, k) h in let r = named c in (c, r.0, r.1, r.2)
  where
    same :
        (n' : Bytes) (k' : ℕ)
        → (n ≡ n') × (k ≡ k')
        → normalize_virtual_signal n' ≡ some (n', k')
        → normalize_virtual_signal (codes "SIG" ++ n') ≡ some (n', k')
        → normalize_virtual_signal (itoa k') ≡ some (n', k')
        → (normalize_virtual_signal n ≡ some (n, k))
          × (normalize_virtual_signal (codes "SIG" ++ n) ≡ some (n, k))
          × (normalize_virtual_signal (itoa k) ≡ some (n, k))
    same n' k' e a b c = (rw (e.0, e.1) a, rw (e.0, e.1) b, rw (e.0, e.1) c)

    named :
        IsSignal n k
        → (normalize_virtual_signal n ≡ some (n, k))
          × (normalize_virtual_signal (codes "SIG" ++ n) ≡ some (n, k))
          × (normalize_virtual_signal (itoa k) ≡ some (n, k))
    named (inl e) = same (codes "HUP") 1 e refl refl refl
    named (inr (inl e)) = same (codes "INT") 2 e refl refl refl
    named (inr (inr (inl e))) = same (codes "QUIT") 3 e refl refl refl
    named (inr (inr (inr e))) = same (codes "TERM") 15 e refl refl refl

-- The trap of a signal after `trap callback signal`.
set_or_reset-trap :
    (n callback other : Bytes) (s : Scope)
    → trap other (set_or_reset n callback s) ≡ (
        if beq n other
        then (if beq callback (codes "-") || is_empty callback then none else some callback)
        else trap other s)
unfolding set_or_reset
set_or_reset-trap n callback other s = elim (Bool-cases (beq callback (codes "-"))) [
  | inl t ↦ rw t (trap-set_trap n [] other s)
  | inr f ↦ rw f (trap-set_trap n callback other s)
]

-- `trap callback signal` and then `kill -s signal` of the shell, where the first argument of trap
-- is not -p: the callback runs if there is one, and otherwise, where it is - or empty, kill
-- returns 128 and the signal's number. The signal may be spelled differently in the two.
pub kill-trap :
    (callback v w n : Bytes) (k : ℕ) (s : Scope) (j : JobState)
    → beq callback (codes "-p") ≡ false
    → normalize_virtual_signal v ≡ some (n, k)
    → normalize_virtual_signal w ≡ some (n, k)
    → let s' = (run_virtual_trap (callback ∷ v ∷ []) s).1 in
      run_virtual_kill (codes "-s" ∷ w ∷ virtual_pid ∷ []) s' j ≡ (
        (if beq callback (codes "-") || is_empty callback
            then exits_by_signal (128 + k)
            else runs_trap callback n),
        j,
      )
unfolding run_virtual_trap set_each run_virtual_kill kill_option kill_operands kill_each kill_shell
    beq
kill-trap callback v w n k s j p e f =
    rw (p, e, f, set_or_reset-trap n callback n s, (beq_iff n n).1 refl)
      (ap (λ o. (o, j)) (pick (beq callback (codes "-") || is_empty callback)))
  where
    pick :
        (b : Bool)
        → on_option
            (if b then none else some callback)
            (exits_by_signal (128 + k))
            (λ c. runs_trap c n)
          ≡ (if b then exits_by_signal (128 + k) else runs_trap callback n)
    pick true = refl
    pick false = refl

-- `trap callback EXIT signal ...`, which goes to the virtual trap as soon as one of the arguments
-- names a virtual signal, returns 2 and sets no trap when EXIT comes first, although EXIT is a
-- signal that `trap -p EXIT` accepts.
pub run_virtual_trap-exit :
    (callback : Bytes) (signals : List Bytes) (s : Scope)
    → beq callback (codes "-p") ≡ false
    → (run_virtual_trap (callback ∷ codes "EXIT" ∷ signals) s
        ≡ (record { code = 2; lines = []; invalid = some (codes "EXIT") }, s))
      × (((run_virtual_trap (codes "-p" ∷ codes "EXIT" ∷ []) s).0.code) ≡ 0)
unfolding run_virtual_trap set_each list_traps listed_signals normalize_trap_signal
    normalize_virtual_signal signal_name lookup beq trim_prefix has_prefix atoi read_digits
run_virtual_trap-exit callback signals s p = (rw p refl, refl)

observe_each-other :
    (callback other : Bytes) (signals : List Bytes) (s : Scope)
    → beq (codes "EXIT") other ≡ false
    → trap other (observe_each callback signals s) ≡ trap other s
unfolding observe_each
observe_each-other callback other [] s h = refl
observe_each-other callback other (v ∷ signals) s h =
    observe_each-other callback other signals _ h
    ∙ if_cases (λ s'. trap other s' ≡ trap other s)
        (on_option (normalize_trap_signal v) false λ signal. beq signal (codes "EXIT"))
        (set_or_reset (codes "EXIT") callback s) s
        (λ _. set_or_reset-trap (codes "EXIT") callback other s ∙ rw h refl) (λ _. refl)

observe_args-other :
    (other : Bytes) (args : List Bytes) (s : Scope)
    → beq (codes "EXIT") other ≡ false
    → trap other (observe_args args s) ≡ trap other s
observe_args-other other [] s h = refl
observe_args-other other (a ∷ []) s h = observe_each-other (codes "-") other (a ∷ []) s h
observe_args-other other (a ∷ b ∷ args) s h = observe_each-other a other (b ∷ args) s h

-- Whatever command line is observed, no trap but that of EXIT changes; and an observed
-- `trap callback EXIT` sets it, or removes it where the callback is - or empty, unless the
-- callback is -p or --.
pub observe_exit_trap_lem :
    (argv : List Bytes) (callback other : Bytes) (s : Scope)
    → (beq (codes "EXIT") other ≡ false → trap other (observe_exit_trap argv s) ≡ trap other s)
      × (beq callback (codes "-p") || beq callback (codes "--") ≡ false
          → trap (codes "EXIT") (observe_exit_trap (codes "trap" ∷ callback ∷ codes "EXIT" ∷ []) s)
            ≡ (if beq callback (codes "-") || is_empty callback then none else some callback))
unfolding observe_exit_trap observe_each normalize_trap_signal beq
observe_exit_trap_lem argv callback other s = (others argv, sets)
  where
    others :
        (argv : List Bytes)
        → beq (codes "EXIT") other ≡ false
        → trap other (observe_exit_trap argv s) ≡ trap other s
    others [] h = refl
    others (_ ∷ []) h = refl
    others (name ∷ a ∷ args) h =
        if_cases (λ s'. trap other s' ≡ trap other s)
          (not (beq name (codes "trap")) || beq a (codes "-p")) s _ (λ _. refl)
          λ _.
            if_cases (λ s'. trap other s' ≡ trap other s) (beq a (codes "--")) _ _
              (λ _. observe_args-other other args s h)
              (λ _. observe_args-other other (a ∷ args) s h)

    sets :
        beq callback (codes "-p") || beq callback (codes "--") ≡ false
        → trap (codes "EXIT") (observe_exit_trap (codes "trap" ∷ callback ∷ codes "EXIT" ∷ []) s)
          ≡ (if beq callback (codes "-") || is_empty callback then none else some callback)
    sets h =
        let g : (beq callback (codes "-p") ≡ false) × (beq callback (codes "--") ≡ false) =
          ground arith in
        rw (g.0, g.1) (set_or_reset-trap (codes "EXIT") callback (codes "EXIT") s)
