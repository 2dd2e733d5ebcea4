-- ===== src/Factor/Samples.antt =====
-- The factors of some numbers.
use gash.Prelude.{ℕ, List, [], ◌∷◌, codes, false, All, inr, none, ◌≡◌, refl, arith}
use gash.Prelude.Decimal.{itoa, write_digits, read_digits}
use gash.Factor.{parse_factor_input, prime_factors, command_factor, strip, trial}
use gash.Factor.Strip.{product, IsPrime}
use gash.Factor.Laws.{prime_factors-product}

computing : Unit {0}
unfolding itoa write_digits read_digits parse_factor_input prime_factors command_factor strip trial
computing = tt

factored : prime_factors (λ _. false) 360 ≡ inr (2 ∷ 2 ∷ 2 ∷ 3 ∷ 3 ∷ 5 ∷ [])
unfolding computing
factored = refl

printed :
    command_factor (λ _ _. false) 0 (codes "12" ∷ codes "7" ∷ [])
    ≡ (codes "12: 2 2 3\n7: 7\n", none)
unfolding computing
printed = refl

prime_factors-product_example :
    (fs : List ℕ) × (prime_factors (λ _. false) 360 ≡ inr fs) × All IsPrime fs × (product fs ≡ 360)
prime_factors-product_example = prime_factors-product (λ _. false) 360 (λ _. refl) (omega arith)
