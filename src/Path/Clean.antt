-- ===== src/Path/Clean.antt =====
-- path.Clean on proper elements, and what it leaves of any rooted path.
use mathlib.Core.List.{foldl, reverse, reverse-append, reverse-reverse}
use gash.Prelude.{
  is_empty, Bool, true, false, ◌&&◌, List, [], ◌∷◌, ◌++◌, Bytes, ◌≡◌, refl, ap, sym, ◌∙◌, arith,
  all, append-nil, append_assoc, has_prefix,
}
use gash.Path.Lexical.{slash, dot, root, split, join, clean_step, clean_parts, clean, is_name}
use gash.Path.Split.{no_sep, split-join, split-no_sep}

-- An element that stands for itself in a path.
abbrev pub is_proper : Bytes → Bool
is_proper w = is_name w && no_sep slash w

-- The path of a list of elements, `.` for none.
abbrev pub name_of : List Bytes → Bytes
name_of [] = dot
name_of (p ∷ ps) = join slash (p ∷ ps)

pub all-append {ℓ} :
    {A : Type ℓ} (f : A → Bool) (xs ys : List A) → all f (xs ++ ys) ≡ (all f xs && all f ys)
all-append f [] ys = refl
all-append f (x ∷ xs) ys = ground (arith, all-append f xs ys)

pub all-reverse {ℓ} : {A : Type ℓ} (f : A → Bool) (xs : List A) → all f (reverse xs) ≡ all f xs
all-reverse f [] = refl
all-reverse f (x ∷ xs) =
    ap (all f) (reverse-append (x ∷ []) xs)
    ∙ (all-append f (reverse xs) (x ∷ []) ∙ ground (arith, all-reverse f xs))

pub clean_step-proper :
    (rooted : Bool) (kept : List Bytes) (w : Bytes)
    → is_proper w ≡ true
    → clean_step rooted kept w ≡ w ∷ kept
unfolding clean_step is_name
clean_step-proper rooted [] w h = ground arith
clean_step-proper rooted (top ∷ kept) w h = ground arith

foldl-proper :
    (rooted : Bool) (ps kept : List Bytes)
    → all is_proper ps ≡ true
    → foldl (clean_step rooted) kept ps ≡ reverse ps ++ kept
foldl-proper rooted [] kept h = refl
foldl-proper rooted (p ∷ ps) kept h =
    ap (λ k. foldl (clean_step rooted) k ps) (clean_step-proper rooted kept p (ground arith))
    ∙ (foldl-proper rooted ps (p ∷ kept) (ground arith)
        ∙ (sym (append_assoc (reverse ps) (p ∷ []) kept)
            ∙ ap (λ l. l ++ kept) (sym (reverse-append (p ∷ []) ps))))

pub clean_parts-proper :
    (rooted : Bool) (ps : List Bytes) → all is_proper ps ≡ true → clean_parts rooted ps ≡ ps
unfolding clean_parts
clean_parts-proper rooted ps h =
    ap reverse (foldl-proper rooted ps [] h ∙ append-nil (reverse ps)) ∙ reverse-reverse ps

proper-no_sep : (ps : List Bytes) → all is_proper ps ≡ true → all (no_sep slash) ps ≡ true
proper-no_sep [] h = refl
proper-no_sep (p ∷ ps) h = ground (arith, proper-no_sep ps)

pub split-name_of :
    (p : Bytes) (ps : List Bytes)
    → all is_proper (p ∷ ps) ≡ true
    → split slash (name_of (p ∷ ps)) ≡ p ∷ ps
split-name_of p ps h = split-join slash p ps (proper-no_sep (p ∷ ps) h)

-- From the root every step keeps the elements proper: `..` never climbs above it.
clean_step-keeps :
    (kept : List Bytes) (w : Bytes)
    → all is_proper kept ≡ true
    → no_sep slash w ≡ true
    → all is_proper (clean_step true kept w) ≡ true
unfolding clean_step is_name
clean_step-keeps [] w h k = ground arith
clean_step-keeps (top ∷ kept) w h k = ground arith

foldl-keeps :
    (ps kept : List Bytes)
    → all is_proper kept ≡ true
    → all (no_sep slash) ps ≡ true
    → all is_proper (foldl (clean_step true) kept ps) ≡ true
foldl-keeps [] kept h k = h
foldl-keeps (p ∷ ps) kept h k =
    foldl-keeps ps (clean_step true kept p) (clean_step-keeps kept p h (ground arith))
      (ground arith)

pub clean_parts-keeps : (s : Bytes) → all is_proper (clean_parts true (split slash s)) ≡ true
unfolding clean_parts
clean_parts-keeps s = rw all-reverse (foldl-keeps (split slash s) [] refl (split-no_sep slash s))

-- A proper element begins with some character other than the slash.
pub name_of-proper_head :
    (p : Bytes) (ps : List Bytes)
    → all is_proper (p ∷ ps) ≡ true
    → (has_prefix (name_of (p ∷ ps)) root ≡ false) × (is_empty (name_of (p ∷ ps)) ≡ false)
unfolding join has_prefix is_name
name_of-proper_head [] ps h = ground arith
name_of-proper_head (x ∷ p) [] h = ground arith
name_of-proper_head (x ∷ p) (q ∷ ps) h = ground arith

-- A path of proper elements is clean.
pub clean-name_of : (ps : List Bytes) → all is_proper ps ≡ true → clean (name_of ps) ≡ name_of ps
unfolding clean
clean-name_of [] h = refl
clean-name_of (p ∷ ps) h =
    let (rel, full) = name_of-proper_head p ps h in
    rw (rel, split-name_of p ps h, clean_parts-proper false (p ∷ ps) h, full)
