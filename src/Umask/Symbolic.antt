-- ===== src/Umask/Symbolic.antt =====
-- A symbolic mask of three clauses that set all the permissions, as formatSymbolicUmask of
-- internal/commands/umask.go prints it.
use gash.Prelude.{
  ℕ, suc, zero, ◌+◌, ◌*◌, ◌/◌, ◌%◌, ◌<◌, Bool, true, false, ◌&&◌, List, [], ◌∷◌, some, Bytes, beq,
  beq_iff, ◌==◌, ◌≡◌, refl, ap, ◌∙◌, arith, Bool-cases, inl, inr,
}
use gash.Path.Lexical.{split}
use gash.Umask.{
  complement, cut_operator, permission_bits, class_factor, apply_operator, apply_classes,
  apply_clause, apply_clauses, permission_text, format_symbolic_umask,
}

-- Every number below a bound passes a test.
unfoldable pub all_below : (ℕ → Bool) → ℕ → Bool
all_below p zero = true
all_below p (suc n) = p n && all_below p n

pub all_below_lem : (p : ℕ → Bool) (n k : ℕ) → all_below p n ≡ true → k < n → p k ≡ true
unfolding all_below
all_below_lem p zero k h l = absurd (omega (arith, l))
all_below_lem p (suc n) k h l = elim (Bool-cases (k == n)) [
  | inl e ↦
      let same : k ≡ n = ground (arith, e) in
      let here : p n ≡ true = ground (arith, h) in ap p same ∙ here
  | inr e ↦ all_below_lem p n k (ground (arith, h)) (ground (arith, e, l))
]

abbrev clause_of : ℕ → ℕ → Bytes
clause_of class bits = class ∷ 61 ∷ permission_text bits

-- A clause that is printed sets the permissions of its class, whatever is allowed.
ClauseSets : ℕ → ℕ → Type 0
ClauseSets a bits =
    (apply_clause (clause_of 117 bits) a ≡ some (apply_operator 61 bits 64 a))
    × (apply_clause (clause_of 103 bits) a ≡ some (apply_operator 61 bits 8 a))
    × (apply_clause (clause_of 111 bits) a ≡ some (apply_operator 61 bits 1 a))

clause_sets : (a bits : ℕ) → bits < 8 → ClauseSets a bits
unfolding ClauseSets apply_clause cut_operator permission_bits class_factor apply_classes
    permission_text
clause_sets a zero h = (refl, refl, refl)
clause_sets a (suc zero) h = (refl, refl, refl)
clause_sets a (suc (suc zero)) h = (refl, refl, refl)
clause_sets a (suc (suc (suc zero))) h = (refl, refl, refl)
clause_sets a (suc (suc (suc (suc zero)))) h = (refl, refl, refl)
clause_sets a (suc (suc (suc (suc (suc zero))))) h = (refl, refl, refl)
clause_sets a (suc (suc (suc (suc (suc (suc zero)))))) h = (refl, refl, refl)
clause_sets a (suc (suc (suc (suc (suc (suc (suc zero))))))) h = (refl, refl, refl)
clause_sets a (suc (suc (suc (suc (suc (suc (suc (suc n)))))))) h = absurd (omega (arith, h))

-- What a class's permissions are set to, the others' kept.
unfoldable sets_user : ℕ → ℕ → Bool
sets_user bits a = apply_operator 61 bits 64 a == bits * 64 + a % 64

unfoldable sets_group : ℕ → ℕ → Bool
sets_group bits a = apply_operator 61 bits 8 a == a / 64 * 64 + bits * 8 + a % 8

unfoldable sets_other : ℕ → ℕ → Bool
sets_other bits a = apply_operator 61 bits 1 a == a / 8 * 8 + bits

abbrev tabled : (ℕ → ℕ → Bool) → Bool
tabled p = all_below (λ bits. all_below (p bits) 512) 8

user_table : tabled sets_user ≡ true
unfolding all_below sets_user apply_operator
user_table = refl

group_table : tabled sets_group ≡ true
unfolding all_below sets_group apply_operator
group_table = refl

other_table : tabled sets_other ≡ true
unfolding all_below sets_other apply_operator
other_table = refl

tabled_lem :
    (p : ℕ → ℕ → Bool) (bits a : ℕ) → tabled p ≡ true → bits < 8 → a < 512 → p bits a ≡ true
tabled_lem p bits a t h k =
    all_below_lem (p bits) 512 a (all_below_lem (λ b. all_below (p b) 512) 8 bits t h) k

sets_all :
    (p q r a : ℕ)
    → p < 8
    → q < 8
    → r < 8
    → a < 512
    → apply_operator 61 r 1 (apply_operator 61 q 8 (apply_operator 61 p 64 a)) ≡ p * 64 + q * 8 + r
unfolding sets_user sets_group sets_other
sets_all p q r a hp hq hr ha =
    let b = apply_operator 61 p 64 a in
    let c = apply_operator 61 q 8 b in
    let eb : b ≡ p * 64 + a % 64 = ground (arith, tabled_lem sets_user p a user_table hp ha) in
    let hb : b < 512 = omega (arith, eb, hp) in
    let ec : c ≡ b / 64 * 64 + q * 8 + b % 8 =
      ground (arith, tabled_lem sets_group q b group_table hq hb) in
    let hc : c < 512 = omega (arith, ec, hb, hq) in
    let ed : apply_operator 61 r 1 c ≡ c / 8 * 8 + r =
      ground (arith, tabled_lem sets_other r c other_table hr hc) in
    omega (arith, ed, ec, eb, hp, hq, hr)

unfoldable same_clauses : List Bytes → List Bytes → Bool
same_clauses [] [] = true
same_clauses (x ∷ xs) (y ∷ ys) = beq x y && same_clauses xs ys
same_clauses _ _ = false

same_clauses_lem : (xs ys : List Bytes) → same_clauses xs ys ≡ true → xs ≡ ys
unfolding same_clauses
same_clauses_lem [] [] h = refl
same_clauses_lem [] (y ∷ ys) h = cc
same_clauses_lem (x ∷ xs) [] h = cc
same_clauses_lem (x ∷ xs) (y ∷ ys) h =
    let e : x ≡ y = (beq_iff x y).0 (ground (arith, h)) in
    let es : xs ≡ ys = same_clauses_lem xs ys (ground (arith, h)) in cc (e, es)

abbrev printed_clauses : ℕ → List Bytes
printed_clauses mask =
    let allowed = complement mask in
    clause_of 117 (allowed / 64 % 8)
    ∷ clause_of 103 (allowed / 8 % 8)
    ∷ clause_of 111 (allowed % 8)
    ∷ []

unfoldable splits : ℕ → Bool
splits mask = same_clauses (split 44 (format_symbolic_umask mask)) (printed_clauses mask)

splits_table : all_below splits 512 ≡ true
unfolding all_below splits same_clauses split format_symbolic_umask permission_text beq
splits_table = refl

unfoldable complement_returns : ℕ → Bool
complement_returns mask = complement (complement mask) == mask

complement_table : all_below complement_returns 512 ≡ true
unfolding all_below complement_returns
complement_table = refl

pub complement-lt : (n : ℕ) → complement n < 512
complement-lt n = omega arith

apply_printed :
    (p q r a : ℕ)
    → p < 8
    → q < 8
    → r < 8
    → apply_clauses (clause_of 117 p ∷ clause_of 103 q ∷ clause_of 111 r ∷ []) a
      ≡ some (apply_operator 61 r 1 (apply_operator 61 q 8 (apply_operator 61 p 64 a)))
unfolding apply_clauses ClauseSets
apply_printed p q r a hp hq hr =
    let b = apply_operator 61 p 64 a in
    let c = apply_operator 61 q 8 b in
    rw ((clause_sets a p hp).0, (clause_sets b q hq).1, (clause_sets c r hr).2) refl

-- The clauses that are printed of a mask allow what it allows, whatever was allowed before.
pub apply_clauses-printed :
    (mask a : ℕ)
    → mask < 512
    → a < 512
    → apply_clauses (split 44 (format_symbolic_umask mask)) a ≡ some (complement mask)
unfolding splits
apply_clauses-printed mask a h k =
    let allowed = complement mask in
    let p = allowed / 64 % 8 in
    let q = allowed / 8 % 8 in
    let r = allowed % 8 in
    let parts : split 44 (format_symbolic_umask mask) ≡ printed_clauses mask =
      same_clauses_lem (split 44 (format_symbolic_umask mask)) (printed_clauses mask)
        (all_below_lem splits 512 mask splits_table h) in
    let digits : p * 64 + q * 8 + r ≡ allowed = omega (arith, complement-lt mask) in
    ap (λ l. apply_clauses l a) parts
    ∙ apply_printed p q r a (omega arith) (omega arith) (omega arith)
    ∙ ap some (sets_all p q r a (omega arith) (omega arith) (omega arith) k ∙ digits)

pub complement_involutive : (mask : ℕ) → mask < 512 → complement (complement mask) ≡ mask
unfolding complement_returns
complement_involutive mask h =
    ground (arith, all_below_lem complement_returns 512 mask complement_table h)
