-- ===== src/Factor/Strip.antt =====
-- The inner loop of primeFactors: it takes out every power of a divisor.
use Prim.Native.Nat.{◌∣◌}
use native.Mathlib.Nat.{
  dvd_refl, dvd_trans, dvd-mul_right, dvd_of_mod-eq-zero, mod-eq-zero_of_dvd, div-mul_cancel,
  mul_comm, mul_assoc, div-lt_self, div-le_self,
}
use gash.Prelude.{
  ℕ, zero, suc, ◌*◌, ◌/◌, ◌%◌, ◌≤◌, ◌<◌, List, [], ◌∷◌, ◌++◌, All, All-map, false≢true, ◌==◌,
  ==_iff, if_cases, ◌≡◌, refl, sym, ap, subst, ◌∙◌, arith,
}
use gash.Factor.{strip}

abbrev pub product : List ℕ → ℕ
product [] = 1
product (x ∷ xs) = x * product xs

pub product-append : (xs ys : List ℕ) → product (xs ++ ys) ≡ product xs * product ys
product-append [] ys = omega arith
product-append (x ∷ xs) ys = rw (product-append xs ys) (sym (mul_assoc x (product xs) (product ys)))

-- A number that no smaller one from 2 on divides.
abbrev pub IsPrime : ℕ → Type 0
IsPrime p = (2 ≤ p) × ((k : ℕ) → 2 ≤ k → k < p → ¬ (k ∣ p))

-- No number from 2 on and below d divides n.
abbrev pub IsRough : ℕ → ℕ → Type 0
IsRough d n = (k : ℕ) → 2 ≤ k → k < d → ¬ (k ∣ n)

-- What the loop has done.
abbrev pub IsStripped : ℕ → ℕ → List ℕ × ℕ → Type 0
IsStripped d n r =
    (product r.0 * r.1 ≡ n)
    × (r.1 ∣ n)
    × (1 ≤ r.1)
    × (r.1 ≤ n)
    × (¬ (d ∣ r.1))
    × All (λ f. (f ≡ d) × (d ∣ n)) r.0

quotient-pos : (d n : ℕ) → d ∣ n → 1 ≤ n → 1 ≤ n / d
quotient-pos d n divides h = pos (n / d) (div-mul_cancel d divides)
  where
    pos : (q : ℕ) → q * d ≡ n → 1 ≤ q
    pos zero e = omega (arith, e)
    pos (suc q) e = omega arith

quotient-small : (fuel d n : ℕ) → 2 ≤ d → 1 ≤ n → n ≤ suc fuel → n / d ≤ fuel
quotient-small fuel d n hd hn hf = omega (arith, div-lt_self {n = n} {k = d} hn hd)

-- A power of d more.
stripped :
    (d n : ℕ) (r : List ℕ × ℕ)
    → d ∣ n
    → 1 ≤ n
    → IsStripped d (n / d) r
    → IsStripped d n (d ∷ r.0, r.1)
stripped d n (fs, m) divides hn (prod, left, pos, small, free, all) =
    let whole = div-mul_cancel d divides in
    (
      mul_assoc d (product fs) m ∙ (ap (λ x. d * x) prod ∙ (mul_comm d (n / d) ∙ whole)),
      dvd_trans m left (subst (λ x. (n / d) ∣ x) whole (dvd-mul_right (n / d) d)),
      pos,
      omega (arith, div-le_self n d),
      free,
      (
        (refl, divides),
        All-map (λ f. (f ≡ d) × (d ∣ n / d)) (λ f. (f ≡ d) × (d ∣ n)) fs (λ f h. (h.0, divides))
            all,
      ),
    )

pub strip_lem : (fuel d n : ℕ) → 2 ≤ d → 1 ≤ n → n ≤ fuel → IsStripped d n (strip fuel d n)
unfolding strip
strip_lem zero d n hd hn hf = absurd (omega arith)
strip_lem (suc fuel) d n hd hn hf =
    if_cases (IsStripped d n) (n % d == 0) (d ∷ (strip fuel d (n / d)).0, (strip fuel d (n / d)).1)
      ([], n)
      (λ e.
        let divides = dvd_of_mod-eq-zero d ((==_iff (n % d) 0).0 e) in
        stripped d n (strip fuel d (n / d)) divides hn (
          strip_lem fuel d (n / d) hd (quotient-pos d n divides hn)
            (quotient-small fuel d n hd hn hf)))
      (λ e. (
        omega arith,
        dvd_refl n,
        hn,
        omega arith,
        λ divides.
            absurd (false≢true (sym e ∙ (==_iff (n % d) 0).1 (mod-eq-zero_of_dvd d divides))),
        tt,
      ))
