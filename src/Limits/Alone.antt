-- ===== src/Limits/Alone.antt =====
-- outputBudget.take of pkg/gash/limits.go retries its compare-and-swap only while others write.
use gash.Prelude.{
  ℕ, zero, suc, ◌+◌, true, false≢true, sym, ap, subst, ◌∙◌, List, [], ◌∷◌, some, ◌≡◌, refl, min,
  ◌-◌, ltb, leb, ◌==◌, ==_iff, if◌then◌else◌, if_cases, get_elem?, get_elem?-set_self, get_elem?-lt,
  set, on_option,
}
use gash.Limits.Budget.{
  Writer, start, loaded, marking, finished, Shared, step, System, advance, run, IsFinished,
}

-- A writer that makes some steps with nobody else.
abbrev alone : ℕ → ℕ → Shared → Writer → Shared × Writer
alone maximum zero s w = (s, w)
alone maximum (suc k) s w = let r = step maximum s w in alone maximum k r.0 r.1

abbrev Returns : ℕ → ℕ → Shared × Writer → Type 0
Returns maximum k r = IsFinished (alone maximum k r.0 r.1).1

finished-Returns : (maximum k : ℕ) (s : Shared) (n m : ℕ) → Returns maximum k (s, finished n m)
unfolding step
finished-Returns maximum zero s n m = tt
finished-Returns maximum (suc k) s n m = finished-Returns maximum k s n m

marking-Returns : (maximum k : ℕ) (s : Shared) (n m : ℕ) → Returns maximum (suc k) (s, marking n m)
unfolding step
marking-Returns maximum k s n m = finished-Returns maximum k (record s { exceeded = true }) n m

taken-Returns :
    (maximum k : ℕ) (s : Shared) (n m : ℕ)
    → Returns maximum (suc k) (s, (if ltb m n then marking n m else finished n m))
taken-Returns maximum k s n m =
    if_cases (λ (w : Writer). Returns maximum (suc k) (s, w)) (ltb m n) (marking n m) (finished n m)
      (λ _. marking-Returns maximum k s n m) (λ _. finished-Returns maximum (suc k) s n m)

-- Behind a load that nothing has come between.
fresh-Returns :
    (maximum k : ℕ) (s : Shared) (n : ℕ) → Returns maximum (suc (suc k)) (s, loaded n s.used)
unfolding step
fresh-Returns maximum k s n =
    let take = min n (maximum - s.used) in
    if_cases (Returns maximum (suc k)) (s.used == s.used)
      (record s { used = s.used + take }, (if ltb take n then marking n take else finished n take))
      (s, start n) (λ _. taken-Returns maximum k (record s { used = s.used + take }) n take)
      (λ e. absurd (false≢true (sym e ∙ (==_iff s.used s.used).1 refl)))

start-Returns :
    (maximum k : ℕ) (s : Shared) (n : ℕ) → Returns maximum (suc (suc (suc k))) (s, start n)
unfolding step
start-Returns maximum k s n =
    let left = suc (suc k) in
    if_cases (Returns maximum left) (n == 0) (s, finished n 0) _
      (λ _. finished-Returns maximum left s n 0)
      λ _.
        if_cases (Returns maximum left) (leb maximum s.used) (s, marking n 0) (s, loaded n s.used)
          (λ _. marking-Returns maximum (suc k) s n 0) (λ _. fresh-Returns maximum k s n)

any-Returns : (maximum : ℕ) (s : Shared) (w : Writer) → Returns maximum 4 (s, w)
unfolding step
any-Returns maximum s (start n) = start-Returns maximum 1 s n
any-Returns maximum s (loaded n seen) =
    let take = min n (maximum - seen) in
    if_cases (Returns maximum 3) (s.used == seen)
      (record s { used = seen + take }, (if ltb take n then marking n take else finished n take))
      (s, start n) (λ _. taken-Returns maximum 2 (record s { used = seen + take }) n take)
      (λ _. start-Returns maximum 0 s n)
any-Returns maximum s (marking n m) = marking-Returns maximum 3 s n m
any-Returns maximum s (finished n m) = finished-Returns maximum 4 s n m

-- A writer that has the next turns, so many of them.
abbrev pub turns : ℕ → ℕ → List ℕ
turns zero i = []
turns (suc k) i = i ∷ turns k i

-- The system behind a step of a writer.
abbrev stepped : ℕ → ℕ → System → Writer → System
stepped maximum i y w =
    let r = step maximum y.shared w in record { shared = r.0; writers = set y.writers i r.1 }

advance_lem :
    (maximum i : ℕ) (y : System) (w : Writer)
    → get_elem? y.writers i ≡ some w
    → advance maximum i y ≡ stepped maximum i y w
unfolding advance
advance_lem maximum i y w e = ap (λ o. on_option o y (stepped maximum i y)) e

run-turns :
    (maximum k i : ℕ) (y : System) (w : Writer)
    → get_elem? y.writers i ≡ some w
    → get_elem? (run maximum (turns k i) y).writers i ≡ some (alone maximum k y.shared w).1
unfolding run
run-turns maximum zero i y w e = e
run-turns maximum (suc k) i y w e =
    let r = step maximum y.shared w in
    subst (λ z. get_elem? (run maximum (turns k i) z).writers i ≡ some (alone maximum k r.0 r.1).1)
      (sym (advance_lem maximum i y w e))
      (run-turns maximum k i (stepped maximum i y w) r.1
        (get_elem?-set_self y.writers i r.1 (get_elem?-lt y.writers i e)))

-- Whatever the others have done and wherever a writer stands in take, it returns within four steps
-- of its own in which no other writer takes one.
pub run-IsFinished :
    (maximum i : ℕ) (y : System) (w : Writer)
    → get_elem? y.writers i ≡ some w
    → (w' : Writer) × (get_elem? (run maximum (turns 4 i) y).writers i ≡ some w') × IsFinished w'
run-IsFinished maximum i y w e =
    ((alone maximum 4 y.shared w).1, run-turns maximum 4 i y w e, any-Returns maximum y.shared w)
