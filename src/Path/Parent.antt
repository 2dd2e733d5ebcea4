-- ===== src/Path/Parent.antt =====
-- The parent of a valid name is the path of its elements but the last.
use gash.Prelude.{
  ℕ, Bool, true, false, ◌&&◌, List, [], ◌∷◌, ◌++◌, Bytes, beq, all, length, is_empty, ◌==◌,
  has_prefix, if◌then◌else◌, if_cases, ◌⊎◌, inl, inr, ◌≡◌, refl, sym, ap, subst, ◌∙◌, arith,
  length-append, ◌<◌,
}
use mathlib.Core.List.{foldl, reverse}
use gash.Path.{parent}
use gash.Path.Lexical.{
  slash, dot, root, split, join, split_last, dir, base, trim_slashes, clean, clean_step,
  clean_parts, on_head, is_name,
}
use gash.Path.Split.{split-ne_nil, no_sep}
use gash.Path.Clean.{
  all-append, is_proper, name_of, split-name_of, name_of-proper_head, clean_parts-proper,
}
use gash.Path.Extend.{join-snoc}

pub split-sep : (c : ℕ) (w s : Bytes) → split c (w ++ c ∷ s) ≡ split c w ++ split c s
unfolding split
split-sep c [] s = ground arith
split-sep c (x ∷ w) s =
    let (p, ps, e) = split-ne_nil c w in
    if_cases
      (λ r. r ≡ (if x == c then [] ∷ split c w else on_head (λ v. x ∷ v) (split c w)) ++ split c s)
      (x == c) ([] ∷ split c (w ++ c ∷ s)) (on_head (λ v. x ∷ v) (split c (w ++ c ∷ s)))
      (λ t. rw (t, split-sep c w s) refl) (λ t. rw (t, split-sep c w s, e) refl)

split_last-no_sep : (w : Bytes) → no_sep slash w ≡ true → split_last w ≡ ([], w)
unfolding split_last
split_last-no_sep [] h = refl
split_last-no_sep (x ∷ w) h = ground (arith, split_last-no_sep w)

split_last-sep :
    (w s : Bytes) → no_sep slash s ≡ true → split_last (w ++ slash ∷ s) ≡ (w ++ slash ∷ [], s)
unfolding split_last
split_last-sep [] s h = rw (split_last-no_sep s h) refl
split_last-sep (x ∷ []) s h = rw (split_last-sep [] s h) refl
split_last-sep (x ∷ y ∷ w) s h = rw (split_last-sep (y ∷ w) s h) refl

foldl-empty :
    (rooted : Bool) (ps kept : List Bytes)
    → foldl (clean_step rooted) kept (ps ++ [] ∷ []) ≡ foldl (clean_step rooted) kept ps
unfolding clean_step
foldl-empty rooted [] [] = refl
foldl-empty rooted [] (top ∷ kept) = refl
foldl-empty rooted (p ∷ ps) kept = foldl-empty rooted ps (clean_step rooted kept p)

clean_parts-empty :
    (rooted : Bool) (ps : List Bytes) → clean_parts rooted (ps ++ [] ∷ []) ≡ clean_parts rooted ps
unfolding clean_parts
clean_parts-empty rooted ps = ap reverse (foldl-empty rooted ps [])

relative-append :
    (s t : Bytes)
    → has_prefix s root ≡ false
    → is_empty s ≡ false
    → has_prefix (s ++ t) root ≡ false
unfolding has_prefix
relative-append [] t h k = cc
relative-append (x ∷ s) t h k = h

relative-ne_root : (s : Bytes) → has_prefix s root ≡ false → beq s root ≡ false
unfolding has_prefix beq
relative-ne_root [] h = refl
relative-ne_root (x ∷ s) h = ground arith

clean_slash_lem :
    (p : Bytes) (ps : List Bytes)
    → all is_proper (p ∷ ps) ≡ true
    → clean (name_of (p ∷ ps) ++ slash ∷ []) ≡ name_of (p ∷ ps)
unfolding clean split
clean_slash_lem p ps h =
    let (rel, full) = name_of-proper_head p ps h in
    let name = name_of (p ∷ ps) in
    rw
      (
        relative-append name (slash ∷ []) rel full,
        split-sep slash name [],
        split-name_of p ps h,
        clean_parts-empty false (p ∷ ps),
        clean_parts-proper false (p ∷ ps) h,
        full,
      )
      refl

pub parent-name_of :
    (p w : Bytes) (ps : List Bytes)
    → all is_proper (p ∷ ps) ≡ true
    → no_sep slash w ≡ true
    → parent (name_of ((p ∷ ps) ++ w ∷ [])) ≡ name_of (p ∷ ps)
unfolding parent dir
parent-name_of p w ps h k =
    let (rel, full) = name_of-proper_head p ps h in
    rw (join-snoc p ps w, split_last-sep (name_of (p ∷ ps)) w k, clean_slash_lem p ps h)
      (rw (relative-ne_root (name_of (p ∷ ps)) rel, full) refl)

pub parent-single : (w : Bytes) → no_sep slash w ≡ true → parent w ≡ dot
unfolding parent dir clean split join clean_parts clean_step has_prefix beq
parent-single w k = rw (split_last-no_sep w k) refl

-- A list seen from its end.
abbrev pub SnocView : List Bytes → Type 0
SnocView ps = (ps ≡ []) ⊎ ((qs : List Bytes) × (w : Bytes) × (ps ≡ qs ++ w ∷ []))

pub to_snoc : (ps : List Bytes) → SnocView ps
to_snoc [] = inl refl
to_snoc (p ∷ ps) = elim (to_snoc ps) [
  | inl e ↦ inr ([], p, rw e refl)
  | inr (qs, w, e) ↦ inr (p ∷ qs, w, rw e refl)
]

-- The parent of a name is the root or shorter than the name.
abbrev pub HasShorterParent : List Bytes → Type 0
HasShorterParent ps =
    (parent (name_of ps) ≡ dot)
    ⊎ ((qs : List Bytes) × (all is_proper qs ≡ true)
        × (parent (name_of ps) ≡ name_of qs)
        × (length (name_of qs) < length (name_of ps)))

snoc-HasShorterParent :
    (qs : List Bytes) (w : Bytes)
    → all is_proper (qs ++ w ∷ []) ≡ true
    → HasShorterParent (qs ++ w ∷ [])
unfolding join
snoc-HasShorterParent [] w h = inl (parent-single w (ground arith))
snoc-HasShorterParent (q ∷ qs) w h =
    let both = sym (all-append is_proper (q ∷ qs) (w ∷ [])) ∙ h in
    let name = name_of (q ∷ qs) in
    inr (
      q ∷ qs,
      ground (arith, both),
      parent-name_of q w qs (ground (arith, both)) (ground (arith, both)),
      rw (join-snoc q qs w, length-append name (slash ∷ w)) (omega arith),
    )

pub proper-HasShorterParent : (ps : List Bytes) → all is_proper ps ≡ true → HasShorterParent ps
proper-HasShorterParent ps h = elim (to_snoc ps) [
  | inl e ↦ inl (subst (λ l. parent (name_of l) ≡ dot) (sym e) (parent-single dot refl))
  | inr (qs, w, e) ↦ subst HasShorterParent (sym e) (snoc-HasShorterParent qs w (rw e at h))
]

trim_slashes-no_sep : (w : Bytes) → no_sep slash w ≡ true → trim_slashes w ≡ w
unfolding trim_slashes
trim_slashes-no_sep [] h = refl
trim_slashes-no_sep (x ∷ w) h = ground (arith, trim_slashes-no_sep w)

trim_slashes-sep :
    (s : Bytes) (x : ℕ) (w : Bytes)
    → no_sep slash (x ∷ w) ≡ true
    → trim_slashes (s ++ slash ∷ x ∷ w) ≡ s ++ slash ∷ x ∷ w
unfolding trim_slashes
trim_slashes-sep [] x w h =
    ap (λ r. if is_empty r && true then [] else slash ∷ r) (trim_slashes-no_sep (x ∷ w) h)
trim_slashes-sep (y ∷ []) x w h = rw (trim_slashes-sep [] x w h) refl
trim_slashes-sep (y ∷ z ∷ s) x w h = rw (trim_slashes-sep (z ∷ s) x w h) refl

-- The last element of a text that has one.
abbrev last_of : Bytes → Bytes
last_of s = (split_last (trim_slashes s)).1

base-nonempty :
    (s : Bytes) → is_empty s ≡ false → base s ≡ (if is_empty (last_of s) then root else last_of s)
unfolding base
base-nonempty [] h = cc
base-nonempty (x ∷ s) h = refl

last-base :
    (s : Bytes) (x : ℕ) (w : Bytes)
    → last_of s ≡ x ∷ w
    → (if is_empty (last_of s) then root else last_of s) ≡ x ∷ w
last-base s x w e = ap (λ t. if is_empty t then root else t) e

base-last :
    (s : Bytes) (x : ℕ) (w : Bytes)
    → is_empty s ≡ false
    → no_sep slash (x ∷ w) ≡ true
    → base (s ++ slash ∷ x ∷ w) ≡ x ∷ w
base-last [] x w n h = cc
base-last (y ∷ s) x w n h =
    base-nonempty ((y ∷ s) ++ slash ∷ x ∷ w) refl
    ∙ last-base ((y ∷ s) ++ slash ∷ x ∷ w) x w (
        ap (λ t. (split_last t).1) (trim_slashes-sep (y ∷ s) x w h)
        ∙ ap (λ r. r.1) (split_last-sep (y ∷ s) (x ∷ w) h))

-- The last element of a name.
pub base-name_of :
    (qs : List Bytes) (w : Bytes)
    → all is_proper qs ≡ true
    → is_proper w ≡ true
    → base (name_of (qs ++ w ∷ [])) ≡ w
unfolding is_name join
base-name_of qs [] h k = ground arith
base-name_of [] (x ∷ w) h k =
    base-nonempty (x ∷ w) refl
    ∙ last-base (x ∷ w) x w (
        ap (λ t. (split_last t).1) (trim_slashes-no_sep (x ∷ w) (ground arith))
        ∙ ap (λ r. r.1) (split_last-no_sep (x ∷ w) (ground arith)))
base-name_of (q ∷ qs) (x ∷ w) h k =
    ap base (join-snoc q qs (x ∷ w))
    ∙ base-last (name_of (q ∷ qs)) x w (name_of-proper_head q qs h).1 (ground arith)
