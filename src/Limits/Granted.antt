-- ===== src/Limits/Granted.antt =====
-- What the concurrent calls of outputBudget.take of pkg/gash/limits.go are given together.
use gash.Prelude.{
  ℕ, zero, suc, ◌+◌, ◌≤◌, ◌<◌, true, false, List, [], ◌∷◌, some, ◌≡◌, refl, sym, ◌∙◌, arith, min,
  get_elem?, set, on_option, inl, All, All-map, map, subst, on_option_cases, ◌⊎◌,
}
use gash.Limits.Budget.{
  Writer, start, loaded, marking, finished, Shared, step, System, advance, run, asked, given, total,
  calls, IsFinished,
}

-- A writer's part of the invariant: it saw a value below the maximum; it was given no more than it
-- asked for; if less, the budget is used up, and the flag is set once it has returned.
abbrev Fits : ℕ → Shared → Writer → Type 0
Fits maximum s (start n) = Unit
Fits maximum s (loaded n seen) = (seen < maximum) × (seen ≤ s.used)
Fits maximum s (marking n k) = (k < n) × (s.used ≡ maximum)
Fits maximum s (finished n k) = (k ≤ n) × (k < n → (s.used ≡ maximum) × (s.exceeded ≡ true))

record Inv (maximum : ℕ) (y : System) : Type 0 where
  fits : All (Fits maximum y.shared) y.writers
  bounded : y.shared.used ≤ maximum
  accounted : y.shared.used ≡ total given y.writers

total-set :
    (f : Writer → ℕ) (ws : List Writer) (i : ℕ) (w w' : Writer)
    → get_elem? ws i ≡ some w
    → total f (set ws i w') + f w ≡ total f ws + f w'
unfolding total
total-set f [] i w w' e = cc
total-set f (x ∷ ws) zero w w' e = ground arith
total-set f (x ∷ ws) (suc i) w w' e = ground (arith, total-set f ws i w w')

All-get :
    (P : Writer → Type 0) (ws : List Writer) (i : ℕ) {w : Writer}
    → All P ws
    → get_elem? ws i ≡ some w
    → P w
All-get P [] i a e = cc
All-get P (x ∷ ws) zero a e = subst (λ o. on_option o Unit P) e a.0
All-get P (x ∷ ws) (suc i) a e = All-get P ws i a.1 e

All-set :
    (P Q : Writer → Type 0) (ws : List Writer) (i : ℕ) (w' : Writer)
    → ((w : Writer) → P w → Q w)
    → All P ws
    → Q w'
    → All Q (set ws i w')
All-set P Q [] i w' k a q = tt
All-set P Q (x ∷ ws) zero w' k a q = (q, All-map P Q ws k a.1)
All-set P Q (x ∷ ws) (suc i) w' k a q = (k x a.0, All-set P Q ws i w' k a.1 q)

-- A step leaves the other writers' parts as they were, and establishes its own.
step-Fits_other :
    (maximum : ℕ) (s : Shared) (w other : Writer)
    → s.used ≤ maximum
    → Fits maximum s w
    → Fits maximum s other
    → Fits maximum (step maximum s w).0 other
unfolding step
step-Fits_other maximum s w (start n) b f g = tt
step-Fits_other maximum s (start n) (loaded m seen) b f g = ground arith
step-Fits_other maximum s (start n) (marking m k) b f g = ground arith
step-Fits_other maximum s (start n) (finished m k) b f g = ground arith
step-Fits_other maximum s (loaded n x) (loaded m seen) b f g = ground arith
step-Fits_other maximum s (loaded n x) (marking m k) b f g = ground arith
step-Fits_other maximum s (loaded n x) (finished m k) b f g = ground arith
step-Fits_other maximum s (marking n j) (loaded m seen) b f g = g
step-Fits_other maximum s (marking n j) (marking m k) b f g = g
step-Fits_other maximum s (marking n j) (finished m k) b f g = (g.0, λ h. ((g.1 h).0, refl))
step-Fits_other maximum s (finished n j) other b f g = g

step-Fits :
    (maximum : ℕ) (s : Shared) (w : Writer)
    → s.used ≤ maximum
    → Fits maximum s w
    → Fits maximum (step maximum s w).0 (step maximum s w).1
unfolding step
step-Fits maximum s (start n) b f = ground arith
step-Fits maximum s (loaded n x) b f = ground arith
step-Fits maximum s (marking n j) b f = ground arith
step-Fits maximum s (finished n j) b f = f

-- The counter stays bounded and moves by what the writer is given.
step-used :
    (maximum : ℕ) (s : Shared) (w : Writer)
    → s.used ≤ maximum
    → Fits maximum s w
    → ((step maximum s w).0.used ≤ maximum)
      × ((step maximum s w).0.used + given w ≡ s.used + given (step maximum s w).1)
unfolding step
step-used maximum s (start n) b f = ground arith
step-used maximum s (loaded n x) b f = ground arith
step-used maximum s (marking n j) b f = ground arith
step-used maximum s (finished n j) b f = ground arith

step-asked : (maximum : ℕ) (s : Shared) (w : Writer) → asked (step maximum s w).1 ≡ asked w
unfolding step
step-asked maximum s (start n) = ground arith
step-asked maximum s (loaded n x) = ground arith
step-asked maximum s (marking n j) = refl
step-asked maximum s (finished n j) = refl

total-asked :
    (maximum : ℕ) (y : System) (i : ℕ)
    → total asked (advance maximum i y).writers ≡ total asked y.writers
unfolding advance
total-asked maximum y i =
    on_option_cases (λ y'. total asked y'.writers ≡ total asked y.writers) (get_elem? y.writers i) y
      _ (λ _. refl)
      (λ w e. omega (
        arith,
        total-set asked y.writers i w (step maximum y.shared w).1 e,
        step-asked maximum y.shared w,
      ))

advance-Inv : (maximum : ℕ) (i : ℕ) (y : System) → Inv maximum y → Inv maximum (advance maximum i y)
unfolding advance
advance-Inv maximum i y inv =
    on_option_cases (Inv maximum) (get_elem? y.writers i) y _ (λ _. inv) moved
  where
    moved :
        (w : Writer)
        → get_elem? y.writers i ≡ some w
        → Inv maximum (record {
          shared = (step maximum y.shared w).0;
          writers = set y.writers i (step maximum y.shared w).1;
        })
    moved w e =
        let f = All-get (Fits maximum y.shared) y.writers i inv.fits e in
        let u = step-used maximum y.shared w inv.bounded f in
        record {
          fits =
              All-set (Fits maximum y.shared) (Fits maximum (step maximum y.shared w).0) y.writers i
                (step maximum y.shared w).1
                (λ other. step-Fits_other maximum y.shared w other inv.bounded f) inv.fits
                (step-Fits maximum y.shared w inv.bounded f);
          bounded = u.0;
          accounted = omega (
            arith,
            u.1,
            inv.accounted,
            total-set given y.writers i w (step maximum y.shared w).1 e,
          );
        }

run-Inv :
    (maximum : ℕ) (schedule : List ℕ) (y : System)
    → Inv maximum y
    → Inv maximum (run maximum schedule y)
unfolding run
run-Inv maximum [] y inv = inv
run-Inv maximum (i ∷ schedule) y inv =
    run-Inv maximum schedule (advance maximum i y) (advance-Inv maximum i y inv)

run-asked :
    (maximum : ℕ) (schedule : List ℕ) (y : System)
    → total asked (run maximum schedule y).writers ≡ total asked y.writers
unfolding run
run-asked maximum [] y = refl
run-asked maximum (i ∷ schedule) y =
    run-asked maximum schedule (advance maximum i y) ∙ total-asked maximum y i

calls-Inv : (maximum : ℕ) (sizes : List ℕ) → Inv maximum (calls maximum sizes)
unfolding calls total
calls-Inv maximum sizes = record {
  fits = fits sizes;
  bounded = omega arith;
  accounted = sym (nothing sizes);
}
  where
    fits : (ns : List ℕ) → All (Fits maximum (record { used = 0; exceeded = false })) (map start ns)
    fits [] = tt
    fits (n ∷ ns) = (tt, fits ns)

    nothing : (ns : List ℕ) → total given (map start ns) ≡ 0
    nothing [] = refl
    nothing (n ∷ ns) = omega (arith, nothing ns)

-- Among writers that have returned, either each was given what it asked for, or the budget is
-- used up and the flag is set.
finished-given :
    (maximum : ℕ) (s : Shared) (ws : List Writer)
    → All (Fits maximum s) ws
    → All IsFinished ws
    → (total given ws ≤ total asked ws)
      × ((total given ws ≡ total asked ws) ⊎ ((s.used ≡ maximum) × (s.exceeded ≡ true)))
unfolding total
finished-given maximum s [] f d = (omega arith, inl refl)
finished-given maximum s (finished n k ∷ ws) f d =
    ground (arith, f.0.0, f.0.1, finished-given maximum s ws f.1 d.1)
finished-given maximum s (start n ∷ ws) f d = absurd d.0
finished-given maximum s (loaded n x ∷ ws) f d = absurd d.0
finished-given maximum s (marking n x ∷ ws) f d = absurd d.0

-- Whatever the interleaving of concurrent calls of take, they are never given more than the
-- maximum together; and once all have returned they have been given the smaller of the maximum
-- and what they asked for, and if that is less than they asked for, `exceeded` is set.
pub run-given :
    (maximum : ℕ) (sizes schedule : List ℕ)
    → let y = run maximum schedule (calls maximum sizes) in
      let granted = total given y.writers in
      (granted ≤ maximum)
      × (All IsFinished y.writers
          → (granted ≡ min maximum (total asked (calls maximum sizes).writers))
            × (granted < total asked (calls maximum sizes).writers → y.shared.exceeded ≡ true))
run-given maximum sizes schedule =
    let inv = run-Inv maximum schedule (calls maximum sizes) (calls-Inv maximum sizes) in
    let same = run-asked maximum schedule (calls maximum sizes) in
    (
      omega (arith, inv.bounded, inv.accounted),
      λ d. ground (
        arith,
        inv.bounded,
        inv.accounted,
        same,
        finished-given maximum (run maximum schedule (calls maximum sizes)).shared
            (run maximum schedule (calls maximum sizes)).writers inv.fits d,
      ),
    )
