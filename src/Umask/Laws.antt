-- ===== src/Umask/Laws.antt =====
-- The masks that internal/commands/umask.go keeps and prints.
use gash.Prelude.{
  ℕ, ◌<◌, Bool, true, false, List, [], ◌∷◌, Option, none, some, Bytes, ◌==◌, on_option,
  on_option_cases, subst, ◌≡◌, refl, ◌∙◌, ap, arith,
}
use gash.Path.Lexical.{split}
use gash.Umask.Symbolic.{
  all_below, all_below_lem, complement-lt, apply_clauses-printed, complement_involutive,
}
use gash.Umask.{
  complement, parse_octal, numeric_mask, apply_clauses, parse_umask, UmaskOutcome, umask_error,
  umask_options, umask_arguments, command_umask, format_symbolic_umask, octal_text,
}

-- The mask comes back from its octal text.
unfoldable octal_returns : ℕ → Bool
octal_returns mask = on_option (numeric_mask (octal_text mask)) false λ m. m == mask

octal_table : all_below octal_returns 512 ≡ true
unfolding all_below octal_returns octal_text numeric_mask parse_octal
octal_table = refl

found : (o : Option ℕ) (m : ℕ) → on_option o false (λ k. k == m) ≡ true → o ≡ some m
found none m h = cc
found (some k) m h = let e : k ≡ m = ground (arith, h) in ap some e

symbolic_is_no_number : (mask : ℕ) → numeric_mask (format_symbolic_umask mask) ≡ none
unfolding numeric_mask parse_octal format_symbolic_umask
symbolic_is_no_number mask = refl

-- A mask comes back from what umask prints of it, from the octal text as from the symbolic one,
-- whatever the mask is when the text is read.
pub parse_umask-printed :
    (mask current : ℕ)
    → mask < 512
    → (parse_umask (octal_text mask) current ≡ some mask)
      × (parse_umask (format_symbolic_umask mask) current ≡ some mask)
unfolding parse_umask
parse_umask-printed mask current h =
    let octal : numeric_mask (octal_text mask) ≡ some mask =
      found (numeric_mask (octal_text mask)) mask
        (unfold octal_returns in all_below_lem octal_returns 512 mask octal_table h) in
    let clauses = apply_clauses-printed mask (complement current) h (complement-lt current) in
    (
      rw octal refl,
      rw (symbolic_is_no_number mask, clauses) (ap some (complement_involutive mask h)),
    )

numeric_mask-lt : (s : Bytes) (m : ℕ) → numeric_mask s ≡ some m → m < 512
unfolding numeric_mask
numeric_mask-lt [] m h = cc
numeric_mask-lt (c ∷ s) m h = ground arith

parse_umask-lt : (spec : Bytes) (current m : ℕ) → parse_umask spec current ≡ some m → m < 512
unfolding parse_umask
parse_umask-lt spec current m =
    on_option_cases (λ o. o ≡ some m → m < 512) (numeric_mask spec) _ (λ n. some n)
      (λ _.
        on_option_cases (λ o. o ≡ some m → m < 512)
          (apply_clauses (split 44 spec) (complement current)) none (λ a. some (complement a))
          (λ _ e. cc) λ a _ e. below a e)
      (λ n e f. numeric_mask-lt spec m (e ∙ f))
  where
    below : (a : ℕ) → some (complement a) ≡ some m → m < 512
    below a e = subst (λ o. on_option o Unit (λ k. k < 512)) e (complement-lt a)

-- Whatever the arguments, the mask stays one of nine bits, and an error leaves it as it is.
pub command_umask-lt :
    (args : List Bytes) (mask : ℕ)
    → mask < 512
    → ((command_umask args mask).1 < 512)
      × ((command_umask args mask).0 ≡ umask_error → (command_umask args mask).1 ≡ mask)
unfolding command_umask umask_arguments
command_umask-lt args mask h =
    on_option_cases (λ (r : UmaskOutcome × ℕ). (r.1 < 512) × (r.0 ≡ umask_error → r.1 ≡ mask))
      (umask_options false false args) (umask_error, mask) _ (λ _. (h, λ _. refl))
      λ r _. checked r.0 r.1 r.2
  where
    checked :
        (symbolic reusable : Bool) (operands : List Bytes)
        → let r = umask_arguments symbolic reusable operands mask in
          (r.1 < 512) × (r.0 ≡ umask_error → r.1 ≡ mask)
    checked symbolic reusable [] = (h, λ _. refl)
    checked symbolic reusable (spec ∷ []) =
        on_option_cases (λ (r : UmaskOutcome × ℕ). (r.1 < 512) × (r.0 ≡ umask_error → r.1 ≡ mask))
          (parse_umask spec mask) (umask_error, mask) _ (λ _. (h, λ _. refl))
          λ m e. (parse_umask-lt spec mask m e, λ c. cc)
    checked symbolic reusable (a ∷ b ∷ rest) = (h, λ _. refl)
