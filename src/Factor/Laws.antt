-- ===== src/Factor/Laws.antt =====
-- primeFactors gives the prime factorisation.
use Prim.Native.Nat.{◌∣◌}
use native.Mathlib.Nat.{
  dvd_trans, dvd-mul_right, dvd_of_mod-eq-zero, div-mul_cancel, mul_assoc, mul-le-mul,
  div-lt_iff_lt-mul, div-lt_self,
}
use gash.Prelude.{
  ℕ, zero, suc, ◌+◌, ◌*◌, ◌/◌, ◌%◌, ◌≤◌, ◌<◌, Bool, false, false≢true, ◌&&◌, List, [], ◌∷◌, ◌++◌,
  Option, none, some, All, All-append, All-map, ltb, leb, ◌==◌, if◌then◌else◌, if_cases, Bool-cases,
  ==_iff, on_option, ◌⊎◌, inl, inr, ◌≡◌, refl, sym, ap, subst, ◌∙◌, arith, Bytes, is_empty,
}
use gash.Prelude.Decimal.{itoa, write_digits, read_digits-itoa}
use gash.Factor.{
  FactorError, canceled, too_large, strip, trial, prime_factors, with_rest, parse_factor_input,
  max_factor_input,
}
use gash.Factor.Strip.{product, product-append, IsPrime, IsRough, strip_lem}

-- A divisor of a rough number that is the least possible one is prime.
divisor-IsPrime : (d n : ℕ) → 2 ≤ d → IsRough d n → d ∣ n → IsPrime d
divisor-IsPrime d n hd rough divides = (hd, λ k lo hi kd. rough k lo hi (dvd_trans k kd divides))

-- Below d + 2 where d is odd: d itself is out, and d + 1 is even.
IsRough-next : (d n m : ℕ) → 3 ≤ d → d % 2 ≡ 1 → IsRough d n → m ∣ n → ¬ (d ∣ m) → IsRough (d + 2) m
IsRough-next d n m hd odd rough left free k lo hi km = elim (Bool-cases (ltb k d)) [
  | inl e ↦ rough k lo (ground (arith, e)) (dvd_trans k km left)
  | inr e ↦ elim (Bool-cases (k == d)) [
    | inl f ↦ free (subst (λ x. x ∣ m) ((==_iff k d).0 f) km)
    | inr f ↦
        rough 2 (omega arith) (omega arith)
          (dvd_trans 2 (dvd_of_mod-eq-zero 2 (ground (arith, e, f))) (dvd_trans k km left))
  ]
]

not-above : (a b : ℕ) → a < b → ¬ (b ≤ a)
not-above a b h k = omega arith

-- A divisor other than the number itself has a quotient of 2 or more.
quotient-two : (k n : ℕ) → 2 ≤ k → k < n → k ∣ n → 2 ≤ n / k
quotient-two k n lo hi kn = two (n / k) (div-mul_cancel k kn)
  where
    two : (q : ℕ) → q * k ≡ n → 2 ≤ q
    two zero e = omega (arith, e)
    two (suc zero) e = omega (arith, e)
    two (suc (suc q)) e = omega arith

quotient-divides : (k n : ℕ) → k ∣ n → (n / k) ∣ n
quotient-divides k n kn = subst (λ x. (n / k) ∣ x) (div-mul_cancel k kn) (dvd-mul_right (n / k) k)

-- A number without divisors up to its root is prime.
rough-IsPrime : (d n : ℕ) → 2 ≤ d → 2 ≤ n → n / d < d → IsRough d n → IsPrime n
rough-IsPrime d n hd hn root rough = (
  hn,
  λ k lo hi kn. elim (Bool-cases (ltb k d)) [
    | inl e ↦ rough k lo (ground (arith, e)) kn
    | inr e ↦ elim (Bool-cases (ltb (n / k) d)) [
      | inl f ↦
          rough (n / k) (quotient-two k n lo hi kn) (ground (arith, f)) (quotient-divides k n kn)
      | inr f ↦
          not-above n (d * d) ((div-lt_iff_lt-mul {k = d} {x = n} {y = d} (omega arith)).0 root) (
            subst (λ x. d * d ≤ x) (div-mul_cancel k kn)
              (mul-le-mul {n₁ = d} {m₁ = d} {n₂ = n / k} {m₂ = k} (ground (arith, f))
                (ground (arith, e))))
    ]
  ],
)

-- What the loop over the divisors ends with.
abbrev IsFactored : ℕ → List ℕ × ℕ → Type 0
IsFactored whole r =
    All IsPrime r.0 × (product r.0 * r.1 ≡ whole) × (1 ≤ r.1) × (2 ≤ r.1 → IsPrime r.1)

abbrev EndsFactored : ℕ → Option (List ℕ × ℕ) → Type 0
EndsFactored whole o = (r : List ℕ × ℕ) × (o ≡ some r) × IsFactored whole r

ended :
    (d n : ℕ) (fs : List ℕ) (whole : ℕ)
    → 2 ≤ d
    → 1 ≤ n
    → n / d < d
    → IsRough d n
    → All IsPrime fs
    → product fs * n ≡ whole
    → EndsFactored whole (some (fs, n))
ended d n fs whole hd hn root rough primes prod =
    ((fs, n), refl, (primes, prod, hn, λ two. rough-IsPrime d n hd two root rough))

taken-primes :
    (d n : ℕ) (fs : List ℕ) → 2 ≤ d → IsRough d n → All (λ f. (f ≡ d) × (d ∣ n)) fs → All IsPrime fs
taken-primes d n fs hd rough h =
    All-map (λ f. (f ≡ d) × (d ∣ n)) IsPrime fs
      (λ f k. subst IsPrime (sym k.0) (divisor-IsPrime d n hd rough k.1)) h

taken-product :
    (fs gs : List ℕ) (n m whole : ℕ)
    → product gs * m ≡ n
    → product fs * n ≡ whole
    → product (fs ++ gs) * m ≡ whole
taken-product fs gs n m whole e f =
    ap (λ x. x * m) (product-append fs gs)
    ∙ (mul_assoc (product fs) (product gs) m ∙ (ap (λ x. product fs * x) e ∙ f))

trial_lem :
    (done : ℕ → Bool) (fuel d n : ℕ) (fs : List ℕ) (tests whole : ℕ)
    → ((k : ℕ) → done k ≡ false)
    → 3 ≤ d
    → d % 2 ≡ 1
    → 1 ≤ n
    → n ≤ d + fuel
    → IsRough d n
    → All IsPrime fs
    → product fs * n ≡ whole
    → EndsFactored whole (trial done fuel d n fs tests)
unfolding trial
trial_lem done zero d n fs tests whole live hd odd hn hf rough primes prod =
    ended d n fs whole (omega arith) hn
      (omega (arith, div-lt_self {n = n} {k = d} hn (omega arith))) rough primes prod
trial_lem done (suc fuel) d n fs tests whole live hd odd hn hf rough primes prod =
    let r = strip n d n in
    let tested = d % 1024 == 1 in
    let tests' = if tested then tests + 1 else tests in
    let (left, divides, pos, small, free, taken) = strip_lem n d n (omega arith) hn (omega arith) in
    let rest =
      trial_lem done fuel (d + 2) r.1 (fs ++ r.0) tests' whole live (omega arith) (omega arith) pos
        (omega arith) (IsRough-next d n r.1 hd odd rough divides free)
        (All-append IsPrime fs r.0 primes (taken-primes d n r.0 (omega arith) rough taken))
        (taken-product fs r.0 n r.1 whole left prod) in
    if_cases (EndsFactored whole) (leb d (n / d)) _ (some (fs, n))
      (λ _.
        if_cases (EndsFactored whole) (tested && done tests) none
          (trial done fuel (d + 2) r.1 (fs ++ r.0) tests')
          (λ e. absurd (false≢true (ground (arith, e, live tests)))) (λ _. rest))
      (λ e. ended d n fs whole (omega arith) hn (ground (arith, e)) rough primes prod)

abbrev IsFactorisation : ℕ → FactorError ⊎ List ℕ → Type 0
IsFactorisation n o = (fs : List ℕ) × (o ≡ inr fs) × All IsPrime fs × (product fs ≡ n)

rest-IsFactorisation :
    (n : ℕ) (r : List ℕ × ℕ) → IsFactored n r → IsFactorisation n (inr (with_rest r))
rest-IsFactorisation n (fs, m) (primes, prod, pos, prime) =
    if_cases (λ l. IsFactorisation n (inr l)) (ltb 1 m) (fs ++ m ∷ []) fs
      (λ e. (
        fs ++ m ∷ [],
        refl,
        All-append IsPrime fs (m ∷ []) primes (prime (ground (arith, e)), tt),
        product-append fs (m ∷ []) ∙ (ap (λ x. product fs * x) (one_right m) ∙ prod),
      ))
      (λ e. (
        fs,
        refl,
        primes,
        sym (one_right (product fs)) ∙ (ap (λ x. product fs * x) (one m pos e) ∙ prod),
      ))
  where
    one_right : (x : ℕ) → x * 1 ≡ x
    one_right x = omega arith

    one : (m : ℕ) → 1 ≤ m → ltb 1 m ≡ false → 1 ≡ m
    one m pos e = ground (arith, pos, e)

trial-IsFactorisation :
    (n : ℕ) (o : Option (List ℕ × ℕ))
    → EndsFactored n o
    → IsFactorisation n (on_option o (inl canceled) (λ r. inr (with_rest r)))
trial-IsFactorisation n o (r, e, factored) =
    subst (λ x. IsFactorisation n (on_option x (inl canceled) (λ r. inr (with_rest r)))) (sym e)
      (rest-IsFactorisation n r factored)

IsRough-three : (n m : ℕ) → ¬ (2 ∣ m) → IsRough 3 m
IsRough-three n m free k lo hi km = free (subst (λ x. x ∣ m) (two k lo hi) km)
  where
    two : (k : ℕ) → 2 ≤ k → k < 3 → k ≡ 2
    two k lo hi = omega arith

-- Where the context is never done, primeFactors of a number from 1 on ends, and with a list of
-- primes whose product is the number: none is missing and none is composite.
pub prime_factors-product :
    (done : ℕ → Bool) (n : ℕ)
    → ((k : ℕ) → done k ≡ false)
    → 1 ≤ n
    → (fs : List ℕ) × (prime_factors done n ≡ inr fs) × All IsPrime fs × (product fs ≡ n)
unfolding prime_factors
prime_factors-product done n live hn =
    let r = strip n 2 n in
    let (left, divides, pos, small, free, taken) = strip_lem n 2 n (omega arith) hn (omega arith) in
    if_cases (IsFactorisation n) (done 0) (inl canceled) _
      (λ e. absurd (false≢true (sym (live 0) ∙ e)))
      (λ _.
        if_cases (IsFactorisation n) (ltb n 2) (inr []) _ (λ e. ([], refl, tt, ground (arith, e)))
          (λ _. trial-IsFactorisation n (trial done n 3 r.1 r.0 1) (
            trial_lem done n 3 r.1 r.0 1 n live (omega arith) refl pos (omega arith)
              (IsRough-three n r.1 free)
              (taken-primes 2 n r.0 (omega arith) (λ k lo hi _. omega arith) taken) left)))

write_digits-nonempty : (fuel n : ℕ) (out : Bytes) → is_empty (write_digits fuel n out) ≡ false
unfolding write_digits
write_digits-nonempty zero n out = refl
write_digits-nonempty (suc fuel) n out =
    if_cases (λ s. is_empty s ≡ false) (ltb n 10) ((48 + n % 10) ∷ out)
      (write_digits fuel (n / 10) ((48 + n % 10) ∷ out)) (λ _. refl)
      (λ _. write_digits-nonempty fuel (n / 10) ((48 + n % 10) ∷ out))

itoa-nonempty : (n : ℕ) → is_empty (itoa n) ≡ false
unfolding itoa
itoa-nonempty n = write_digits-nonempty n n []

-- A number that is printed in decimal is read back where it is at most the maximum, and refused as
-- too large where it is above.
pub parse_factor_input-itoa :
    (n : ℕ)
    → parse_factor_input (itoa n) ≡ (if ltb max_factor_input n then inl too_large else inr n)
unfolding parse_factor_input
parse_factor_input-itoa n = rw (itoa-nonempty n, read_digits-itoa n) refl
