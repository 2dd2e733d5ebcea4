-- ===== src/Limits/Budget.antt =====
-- outputBudget.take of pkg/gash/limits.go under concurrency. Writers share the counter `used` and
-- the flag `exceeded`; each atomic operation of a writer (the load, the compare-and-swap, the
-- store of the flag with the cancellation) is one step, and a schedule says whose step is next.
use gash.Prelude.{
  ℕ, ◌+◌, ◌-◌, Bool, true, false, List, [], ◌∷◌, if◌then◌else◌, min, ltb, leb, ◌==◌, get_elem?, set,
  on_option, map,
}

-- Where a writer stands in take(n): at the loop's head; behind the load, with the value read;
-- before the store of the flag, with what it will return; returned.
pub data Writer : Type 0 where
  start : ℕ → Writer
  loaded : ℕ → ℕ → Writer
  marking : ℕ → ℕ → Writer
  finished : ℕ → ℕ → Writer

pub record Shared : Type 0 where
  pub used : ℕ
  pub exceeded : Bool

-- One step of a writer.
unfoldable pub step : ℕ → Shared → Writer → Shared × Writer
step maximum s (start n) =
    if n == 0
    then (s, finished n 0)
    else if leb maximum s.used
    then (s, marking n 0)
    else (s, loaded n s.used)
step maximum s (loaded n seen) =
    let take = min n (maximum - seen) in
    if s.used == seen
    then (record s { used = seen + take }, (if ltb take n then marking n take else finished n take))
    else (s, start n)
step maximum s (marking n k) = (record s { exceeded = true }, finished n k)
step maximum s (finished n k) = (s, finished n k)

pub record System : Type 0 where
  pub shared : Shared
  pub writers : List Writer

-- The writer of that index makes its next step.
unfoldable pub advance : ℕ → ℕ → System → System
advance maximum i y = on_option (get_elem? y.writers i) y λ w.
    let (s', w') = step maximum y.shared w in record { shared = s'; writers = set y.writers i w' }

unfoldable pub run : ℕ → List ℕ → System → System
run maximum [] y = y
run maximum (i ∷ schedule) y = run maximum schedule (advance maximum i y)

-- The bytes a writer asked for, and those it was given.
abbrev pub asked : Writer → ℕ
asked (start n) = n
asked (loaded n _) = n
asked (marking n _) = n
asked (finished n _) = n

abbrev pub given : Writer → ℕ
given (start n) = 0
given (loaded n _) = 0
given (marking _ k) = k
given (finished _ k) = k

unfoldable pub total : (Writer → ℕ) → List Writer → ℕ
total f [] = 0
total f (w ∷ ws) = f w + total f ws

-- The writers that call take with these sizes, none of which has made a step.
unfoldable pub calls : ℕ → List ℕ → System
calls maximum sizes = record {
  shared = record { used = 0; exceeded = false };
  writers = map start sizes;
}

abbrev pub IsFinished : Writer → Type 0
IsFinished (finished _ _) = Unit
IsFinished _ = ⊥
