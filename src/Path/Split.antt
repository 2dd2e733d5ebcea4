-- ===== src/Path/Split.antt =====
-- Split and Join are inverse to each other.
use gash.Prelude.{
  ℕ, Bool, true, not, List, [], ◌∷◌, ◌++◌, Bytes, ◌==◌, ◌≡◌, refl, ap, ap₂, sym, ==_iff, arith, all,
  ◌∙◌, Bool-cases, inl, inr,
}
use gash.Path.Lexical.{split, join}

-- No character of the text is the separator.
abbrev pub no_sep : ℕ → Bytes → Bool
no_sep c w = all (λ x. not (x == c)) w

pub split-no_sep_text : (c : ℕ) (w : Bytes) → no_sep c w ≡ true → split c w ≡ w ∷ []
unfolding split
split-no_sep_text c [] h = refl
split-no_sep_text c (x ∷ w) h = ground (arith, split-no_sep_text c w)

pub split-append : (c : ℕ) (w s : Bytes) → no_sep c w ≡ true → split c (w ++ c ∷ s) ≡ w ∷ split c s
unfolding split
split-append c [] s h = ground arith
split-append c (x ∷ w) s h = ground (arith, split-append c w s)

-- Splitting what was joined gives the parts back, where no part holds the separator.
pub split-join :
    (c : ℕ) (p : Bytes) (ps : List Bytes)
    → all (no_sep c) (p ∷ ps) ≡ true
    → split c (join c (p ∷ ps)) ≡ p ∷ ps
unfolding join
split-join c p [] h = split-no_sep_text c p (ground arith)
split-join c p (q ∷ ps) h =
    split-append c p (join c (q ∷ ps)) (ground arith)
    ∙ ap (λ l. p ∷ l) (split-join c q ps (ground arith))

pub split-ne_nil : (c : ℕ) (s : Bytes) → (p : Bytes) × (ps : List Bytes) × (split c s ≡ p ∷ ps)
unfolding split
split-ne_nil c [] = ([], [], refl)
split-ne_nil c (x ∷ s) =
    let (p, ps, e) = split-ne_nil c s in
    elim (Bool-cases (x == c)) [ inl t ↦ ([], split c s, rw t) | inr f ↦ (x ∷ p, ps, rw (f, e)) ]

-- No part of a split text holds the separator.
pub split-no_sep : (c : ℕ) (s : Bytes) → all (no_sep c) (split c s) ≡ true
unfolding split
split-no_sep c [] = refl
split-no_sep c (x ∷ s) =
    let (p, ps, e) = split-ne_nil c s in
    elim (Bool-cases (x == c)) [
      | inl t ↦ rw t (split-no_sep c s)
      | inr f ↦ rw (f, e) (ground (arith, f, e, split-no_sep c s))
    ]

pub join-on_head :
    (c x : ℕ) (p : Bytes) (ps : List Bytes) → join c ((x ∷ p) ∷ ps) ≡ x ∷ join c (p ∷ ps)
unfolding join
join-on_head c x p [] = refl
join-on_head c x p (q ∷ ps) = refl

join-one : (c : ℕ) (p : Bytes) → join c (p ∷ []) ≡ p
unfolding join
join-one c p = refl

join-nil_head : (c : ℕ) (p : Bytes) (ps : List Bytes) → join c ([] ∷ p ∷ ps) ≡ c ∷ join c (p ∷ ps)
unfolding join
join-nil_head c p ps = refl

-- Joining what was split gives the text back.
pub join-split : (c : ℕ) (s : Bytes) → join c (split c s) ≡ s
unfolding split
join-split c [] = join-one c []
join-split c (x ∷ s) =
    let (p, ps, e) = split-ne_nil c s in
    let ih : join c (p ∷ ps) ≡ s = rw e at (join-split c s) in
    elim (Bool-cases (x == c)) [
      | inl t ↦ rw (t, e) (join-nil_head c p ps ∙ ap₂ ◌∷◌ (sym ((==_iff x c).0 t)) ih)
      | inr f ↦ rw (f, e) (join-on_head c x p ps ∙ ap (λ l. x ∷ l) ih)
    ]
