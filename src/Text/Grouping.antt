-- ===== src/Text/Grouping.antt =====
-- The groups of lines that the loop of internal/commands/text/uniq.go forms.
use gash.Prelude.{
  ℕ, zero, suc, ◌+◌, ◌≤◌, Bool, true, false, List, [], ◌∷◌, ◌++◌, Bytes, beq, beq_iff, length,
  if◌then◌else◌, if_cases, ◌≡◌, refl, ap, ap₂, ◌∙◌, arith,
}
use gash.Text.Uniq.{
  UniqOptions, skip_equal, included, uniq_loop, uniq, repeat, expanded, IsGrouped, plain,
}

-- A group's line differs from the next line.
abbrev Differs : Bytes → List Bytes → Type 0
Differs start [] = Unit
Differs start (line ∷ lines) = beq start line ≡ false

repeat-snoc : (n : ℕ) (a : Bytes) (s : List Bytes) → repeat (n + 1) a ++ s ≡ a ∷ (repeat n a ++ s)
unfolding repeat
repeat-snoc n a s = simp (add_one n) refl
  where
    add_one : (k : ℕ) → k + 1 ≡ suc k
    add_one k = omega arith

skip_equal_lem :
    (start : Bytes) (lines : List Bytes)
    → let r = skip_equal beq start lines in
      (repeat r.0 start ++ r.1 ≡ lines) × (length r.1 ≤ length lines) × Differs start r.1
unfolding skip_equal repeat
skip_equal_lem start [] = (refl, omega arith, tt)
skip_equal_lem start (line ∷ lines) =
    let i = skip_equal_lem start lines in
    if_cases Kept (beq start line)
      ((skip_equal beq start lines).0 + 1, (skip_equal beq start lines).1) (0, line ∷ lines)
      (λ e. (
        repeat-snoc (skip_equal beq start lines).0 start (skip_equal beq start lines).1
            ∙ ap₂ (λ x s. x ∷ s) ((beq_iff start line).0 e) i.0,
        omega (arith, i.1),
        i.2,
      ))
      (λ e. (refl, omega arith, e))
  where
    Kept : ℕ × List Bytes → Type 0
    Kept r =
        (repeat r.0 start ++ r.1 ≡ line ∷ lines)
        × (length r.1 ≤ length (line ∷ lines))
        × Differs start r.1

-- The first group is one of the first line.
cons-IsGrouped :
    (n fuel : ℕ) (start : Bytes) (lines : List Bytes)
    → Differs start lines
    → IsGrouped (uniq_loop beq plain fuel lines)
    → IsGrouped ((n, start) ∷ uniq_loop beq plain fuel lines)
unfolding uniq_loop included
cons-IsGrouped n fuel start [] d g = tt
cons-IsGrouped n zero start (line ∷ lines) d g = tt
cons-IsGrouped n (suc fuel) start (line ∷ lines) d g = (d, g)

uniq_loop_lem :
    (fuel : ℕ) (lines : List Bytes)
    → length lines ≤ fuel
    → (expanded (uniq_loop beq plain fuel lines) ≡ lines)
      × IsGrouped (uniq_loop beq plain fuel lines)
unfolding uniq_loop expanded included
uniq_loop_lem fuel [] h = (refl, tt)
uniq_loop_lem zero (start ∷ lines) h = absurd (omega (arith, h))
uniq_loop_lem (suc fuel) (start ∷ lines) h =
    let s = skip_equal_lem start lines in
    let r = skip_equal beq start lines in
    let i = uniq_loop_lem fuel r.1 (omega (arith, h, s.1)) in
    (
      repeat-snoc r.0 start (expanded (uniq_loop beq plain fuel r.1))
          ∙ ap (λ x. start ∷ x) (ap (λ x. repeat r.0 start ++ x) i.0 ∙ s.0),
      cons-IsGrouped (r.0 + 1) fuel start r.1 s.2 i.1,
    )

-- Without -d and -u, and with exact comparison, the groups that uniq prints stand for exactly the
-- lines of the input, each group for as many as its count, and no two that follow each other have
-- the same line.
pub uniq_lem :
    (lines : List Bytes)
    → (expanded (uniq beq plain lines) ≡ lines) × IsGrouped (uniq beq plain lines)
unfolding uniq
uniq_lem lines = uniq_loop_lem (length lines) lines (omega arith)

-- The groups that options include.
unfoldable pub only : UniqOptions → List (ℕ × Bytes) → List (ℕ × Bytes)
only o [] = []
only o (g ∷ groups) = let rest = only o groups in if included o g.0 then g ∷ rest else rest

only-uniq_loop :
    (same : Bytes → Bytes → Bool) (o : UniqOptions) (fuel : ℕ) (lines : List Bytes)
    → uniq_loop same o fuel lines ≡ only o (uniq_loop same plain fuel lines)
unfolding uniq_loop only
only-uniq_loop same o fuel [] = refl
only-uniq_loop same o zero (start ∷ lines) = refl
only-uniq_loop same o (suc fuel) (start ∷ lines) =
    let r = skip_equal same start lines in
    rw (only-uniq_loop same o fuel r.1, plain_included (r.0 + 1)) refl
  where
    plain_included : (n : ℕ) → included plain n ≡ true
    plain_included n = unfold included in refl

-- The options select among the groups and do not change them: with -d those of more than one line,
-- with -u and not -d those of one, whatever the comparison of lines.
pub only-uniq :
    (same : Bytes → Bytes → Bool) (o : UniqOptions) (lines : List Bytes)
    → uniq same o lines ≡ only o (uniq same plain lines)
unfolding uniq
only-uniq same o lines = only-uniq_loop same o (length lines) lines
