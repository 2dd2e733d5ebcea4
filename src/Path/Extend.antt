-- ===== src/Path/Extend.antt =====
-- One more element: path.Join on a clean name, as resolveLocked extends the name it walks.
use gash.Prelude.{
  is_empty, true, false, List, [], ◌∷◌, ◌++◌, Bytes, ◌≡◌, refl, ap, sym, ◌∙◌, arith, all, beq,
  beq_iff, if◌then◌else◌, append_assoc, Bool-cases, inl, inr,
}
use gash.Path.Lexical.{slash, dot, split, join, clean, is_name, path_join}
use gash.Path.Clean.{
  is_proper, name_of, all-append, clean-name_of, split-name_of, name_of-proper_head,
}

-- The name that resolveLocked gives to `part` below `cur`.
abbrev pub extend : Bytes → Bytes → Bytes
extend cur part = if beq cur dot then part else path_join cur part

pub join-snoc :
    (p : Bytes) (ps : List Bytes) (w : Bytes)
    → join slash ((p ∷ ps) ++ w ∷ []) ≡ join slash (p ∷ ps) ++ slash ∷ w
unfolding join
join-snoc p [] w = refl
join-snoc p (q ∷ ps) w =
    rw (join-snoc q ps w) (sym (append_assoc p (slash ∷ join slash (q ∷ ps)) (slash ∷ w)))

pub name_of-ne-dot :
    (p : Bytes) (ps : List Bytes)
    → all is_proper (p ∷ ps) ≡ true
    → beq (name_of (p ∷ ps)) dot ≡ false
name_of-ne-dot p ps h = elim (Bool-cases (beq (name_of (p ∷ ps)) dot)) [
  | inl e ↦
      absurd
        (dot_impossible p ps h (sym (split-name_of p ps h) ∙ ap (split slash) ((beq_iff _ _).0 e)))
  | inr e ↦ e
]
  where
    dot_impossible :
        (p : Bytes) (ps : List Bytes) → all is_proper (p ∷ ps) ≡ true → p ∷ ps ≡ split slash dot → ⊥
    dot_impossible p ps h e = unfold split is_name beq in ground (arith, h, e)

path_join-full :
    (a b : Bytes) → is_empty a ≡ false → is_empty b ≡ false → path_join a b ≡ clean (a ++ slash ∷ b)
unfolding path_join
path_join-full [] b h k = cc
path_join-full (x ∷ a) [] h k = cc
path_join-full (x ∷ a) (y ∷ b) h k = refl

proper_full : (w : Bytes) → is_proper w ≡ true → is_empty w ≡ false
unfolding is_name
proper_full [] h = cc
proper_full (x ∷ w) h = refl

pub extend-name_of :
    (ps : List Bytes) (w : Bytes)
    → all is_proper ps ≡ true
    → is_proper w ≡ true
    → extend (name_of ps) w ≡ name_of (ps ++ w ∷ [])
extend-name_of [] w h k = unfold join beq in refl
extend-name_of (p ∷ ps) w h k =
    let (rel, full) = name_of-proper_head p ps h in
    let proper : all is_proper ((p ∷ ps) ++ w ∷ []) ≡ true =
      all-append is_proper (p ∷ ps) (w ∷ []) ∙ ground (arith, h, k) in
    ap (λ b. if b then w else path_join (name_of (p ∷ ps)) w) (name_of-ne-dot p ps h)
    ∙ (path_join-full (name_of (p ∷ ps)) w full (proper_full w k)
        ∙ (ap clean (sym (join-snoc p ps w)) ∙ clean-name_of ((p ∷ ps) ++ w ∷ []) proper))
