-- ===== src/Overlay/Markers.antt =====
-- The names of markers in pkg/fs/overlay.go, and the names that its loops over the parts reach.
use gash.Prelude.{
  Bool, true, false, false≢true, ◌||◌, List, [], ◌∷◌, ◌++◌, Bytes, beq, beq_refl, has_prefix, any,
  all, if_cases, ◌≡◌, refl, sym, ap, ◌∙◌, inl, inr, arith,
}
use gash.Path.{fs_name, parent, is_valid}
use gash.Path.Lexical.{slash, dot, split, join, base, is_name}
use gash.Path.Split.{split-ne_nil}
use gash.Path.Clean.{all-append, name_of-proper_head, is_proper, name_of}
use gash.Path.Parent.{split-sep, to_snoc, parent-single, parent-name_of, base-name_of}
use gash.Path.Extend.{join-snoc, name_of-ne-dot}
use gash.Path.Laws.{name_of-is_valid, valid-parts, fs_name-is_valid}
use gash.Overlay.Names.{
  whiteout_name, is_whiteout_name, rejects_whiteout, extended, is_root_name, whiteout_prefix,
}

-- A marker's own name has a part that marks it.
any-append {ℓ} :
    {A : Type ℓ} (f : A → Bool) (xs ys : List A) → any f (xs ++ ys) ≡ (any f xs || any f ys)
any-append f [] ys = refl
any-append f (x ∷ xs) ys = ground (arith, any-append f xs ys)

rejects_whiteout-marker : (b : Bytes) → rejects_whiteout (whiteout_prefix ++ b) ≡ true
unfolding rejects_whiteout split is_whiteout_name has_prefix
rejects_whiteout-marker b = let (p, ps, e) = split-ne_nil slash b in rw e refl

rejects_whiteout-append :
    (p s : Bytes) → rejects_whiteout (p ++ slash ∷ s) ≡ (rejects_whiteout p || rejects_whiteout s)
unfolding rejects_whiteout
rejects_whiteout-append p s =
    ap (any is_whiteout_name) (split-sep slash p s)
    ∙ any-append is_whiteout_name (split slash p) (split slash s)

pub rejects_whiteout-whiteout_name :
    (name : Bytes) → is_root_name name ≡ false → rejects_whiteout (whiteout_name name) ≡ true
unfolding whiteout_name
rejects_whiteout-whiteout_name name r =
    let m = whiteout_prefix ++ base name in
    let top = rejects_whiteout-marker (base name) in
    rw r (
      if_cases (λ n. rejects_whiteout n ≡ true) (beq (parent name) dot) m (parent name ++ slash ∷ m)
        (λ _. top) (λ _. ground (arith, top, rejects_whiteout-append (parent name) m)))

-- The name that the loops have reached behind some parts.
abbrev pub current_of : List Bytes → Bytes
current_of [] = []
current_of (p ∷ ps) = name_of (p ∷ ps)

pub proper-snoc :
    (ps : List Bytes) (q : Bytes)
    → all is_proper ps ≡ true
    → is_proper q ≡ true
    → all is_proper (ps ++ q ∷ []) ≡ true
proper-snoc ps q hp hq = all-append is_proper ps (q ∷ []) ∙ ground (arith, hp, hq)

pub extended-current_of :
    (ps : List Bytes) (q : Bytes)
    → all is_proper ps ≡ true
    → is_proper q ≡ true
    → extended (current_of ps) q ≡ current_of (ps ++ q ∷ [])
unfolding join
extended-current_of [] q hp hq = refl
extended-current_of (p ∷ ps) q hp hq = rw (name_of-proper_head p ps hp).1 (sym (join-snoc p ps q))

pub current_of-is_valid :
    (ps : List Bytes) (q : Bytes)
    → all is_proper ps ≡ true
    → is_proper q ≡ true
    → is_valid (current_of (ps ++ q ∷ [])) ≡ true
current_of-is_valid [] q hp hq = name_of-is_valid (q ∷ []) (proper-snoc [] q hp hq)
current_of-is_valid (p ∷ ps) q hp hq =
    name_of-is_valid (p ∷ ps ++ q ∷ []) (proper-snoc (p ∷ ps) q hp hq)

name-ne_root :
    (p : Bytes) (ps : List Bytes)
    → all is_proper (p ∷ ps) ≡ true
    → is_root_name (name_of (p ∷ ps)) ≡ false
name-ne_root p ps h = rw (name_of-ne-dot p ps h) (name_of-proper_head p ps h).1

prefixed-proper : (w : Bytes) → is_proper w ≡ true → is_proper (whiteout_prefix ++ w) ≡ true
unfolding is_name beq
prefixed-proper w h = ground (arith, h)

-- The marker of a name stands beside it.
whiteout_name-snoc :
    (qs : List Bytes) (w : Bytes)
    → all is_proper qs ≡ true
    → is_proper w ≡ true
    → whiteout_name (name_of (qs ++ w ∷ [])) ≡ name_of (qs ++ (whiteout_prefix ++ w) ∷ [])
unfolding whiteout_name join beq
whiteout_name-snoc [] w hp hq =
    rw (name-ne_root w [] (ground arith), parent-single w (ground arith), base-name_of [] w refl hq)
      refl
whiteout_name-snoc (q ∷ qs) w hp hq =
    rw
      (
        name-ne_root q (qs ++ w ∷ []) (proper-snoc (q ∷ qs) w hp hq),
        parent-name_of q w qs hp (ground arith),
        base-name_of (q ∷ qs) w hp hq,
        name_of-ne-dot q qs hp,
      )
      (sym (join-snoc q qs (whiteout_prefix ++ w)))

pub whiteout_name-is_valid :
    (text : Bytes)
    → is_root_name (fs_name text) ≡ false
    → is_valid (whiteout_name (fs_name text)) ≡ true
whiteout_name-is_valid text r =
    let (ps, proper, e) = valid-parts (fs_name text) (fs_name-is_valid text) in
    elim (to_snoc ps) [
      | inl z ↦ absurd (false≢true (sym r ∙ rw e (rw z (ground (arith, beq_refl dot)))))
      | inr (qs, w, z) ↦
          let both = sym (all-append is_proper qs (w ∷ [])) ∙ (rw z at proper) in
          rw e (
            rw z (
              rw (whiteout_name-snoc qs w (ground (arith, both)) (ground (arith, both))) (
                name_of-is_valid (qs ++ (whiteout_prefix ++ w) ∷ []) (
                  proper-snoc qs (whiteout_prefix ++ w) (ground (arith, both))
                    (prefixed-proper w (ground (arith, both)))))))
    ]
