-- ===== src/Path/Laws.antt =====
-- The boundary of the filesystems: what Name yields for any text a shell can write.
use gash.Prelude.{
  is_empty, Bool, true, false, List, [], ◌∷◌, Bytes, ◌≡◌, ◌↔◌, refl, ap, sym, ◌∙◌, arith, all, beq,
  beq_iff, has_prefix, trim_prefix, if◌then◌else◌, ◌||◌, Bool-cases, inl, inr,
}
use gash.Path.{fs_name, is_valid}
use gash.Path.Lexical.{
  slash, dot, root, split, join, clean_step, clean_parts, clean, is_name, valid_path,
}
use gash.Path.Split.{no_sep, split-no_sep, join-split, split-ne_nil}
use gash.Path.Clean.{
  is_proper, name_of, clean_parts-proper, split-name_of, clean_parts-keeps, name_of-proper_head,
}

-- The elements that are left of a text below the root.
abbrev pub parts_of : Bytes → List Bytes
parts_of s = clean_parts true (split slash s)

-- The leading slash adds an empty element, which Clean drops.
split-rooted : (s : Bytes) → clean_parts true (split slash (slash ∷ s)) ≡ parts_of s
unfolding split clean_parts clean_step
split-rooted s = refl

pub clean-rooted : (s : Bytes) → clean (slash ∷ s) ≡ slash ∷ join slash (parts_of s)
unfolding clean has_prefix
clean-rooted s = rw split-rooted refl

beq-root :
    (ps : List Bytes) → all is_proper ps ≡ true → beq (slash ∷ join slash ps) root ≡ is_empty ps
unfolding beq join is_name
beq-root [] h = refl
beq-root ([] ∷ ps) h = ground arith
beq-root ((x ∷ p) ∷ []) h = refl
beq-root ((x ∷ p) ∷ q ∷ ps) h = refl

fs_name_cases :
    (ps : List Bytes)
    → (if is_empty ps then dot else trim_prefix (slash ∷ join slash ps) root) ≡ name_of ps
unfolding trim_prefix has_prefix
fs_name_cases [] = refl
fs_name_cases (p ∷ ps) = refl

pub fs_name-eq : (s : Bytes) → fs_name s ≡ name_of (parts_of (trim_prefix s root))
unfolding fs_name
fs_name-eq s =
    let t = trim_prefix s root in
    ap (λ c. if beq c root then dot else trim_prefix c root) (clean-rooted t)
    ∙ (ap (λ b. if b then dot else trim_prefix (slash ∷ join slash (parts_of t)) root)
          (beq-root (parts_of t) (clean_parts-keeps t))
        ∙ fs_name_cases (parts_of t))

all-is_name : (ps : List Bytes) → all is_proper ps ≡ true → all is_name ps ≡ true
all-is_name [] h = refl
all-is_name (p ∷ ps) h = ground (arith, all-is_name ps)

or_true : (a b : Bool) → b ≡ true → (a || b) ≡ true
or_true a b h = ground arith

pub name_of-is_valid : (ps : List Bytes) → all is_proper ps ≡ true → is_valid (name_of ps) ≡ true
unfolding is_valid valid_path
name_of-is_valid [] h = unfold has_prefix beq in refl
name_of-is_valid (p ∷ ps) h =
    let (rel, full) = name_of-proper_head p ps h in
    let ok : valid_path (name_of (p ∷ ps)) ≡ true =
      or_true _ _ (ap (all is_name) (split-name_of p ps h) ∙ all-is_name (p ∷ ps) h) in
    ground (arith, rel, full, ok)

-- Whatever path the shell passes, its name is valid: relative, with no empty element, no `.` and
-- no `..` in it, so that it cannot leave the root of the filesystem.
pub fs_name-is_valid : (s : Bytes) → is_valid (fs_name s) ≡ true
fs_name-is_valid s =
    rw fs_name-eq
      (name_of-is_valid (parts_of (trim_prefix s root)) (clean_parts-keeps (trim_prefix s root)))

all-proper :
    (ps : List Bytes)
    → all is_name ps ≡ true
    → all (no_sep slash) ps ≡ true
    → all is_proper ps ≡ true
all-proper [] h k = refl
all-proper (p ∷ ps) h k = ground (arith, all-proper ps)

name_of-join : (ps : List Bytes) → is_empty ps ≡ false → name_of ps ≡ join slash ps
name_of-join [] h = cc
name_of-join (p ∷ ps) h = refl

-- A valid name is the path of proper elements.
pub valid-parts :
    (name : Bytes)
    → is_valid name ≡ true
    → (ps : List Bytes) × (all is_proper ps ≡ true) × (name ≡ name_of ps)
unfolding is_valid valid_path
valid-parts name h = elim (Bool-cases (beq name dot)) [
  | inl e ↦ ([], refl, (beq_iff name dot).0 e)
  | inr e ↦
      let (p, ps, e') = split-ne_nil slash name in
      let names : all is_name (split slash name) ≡ true = ground (arith, e, h) in
      let proper = all-proper (split slash name) names (split-no_sep slash name) in
      (p ∷ ps, rw e' at proper, sym (join-split slash name) ∙ ap (join slash) e')
]

trim-relative : (s : Bytes) → has_prefix s root ≡ false → trim_prefix s root ≡ s
unfolding trim_prefix
trim-relative s h = rw h refl

name_of-relative :
    (ps : List Bytes) → all is_proper ps ≡ true → has_prefix (name_of ps) root ≡ false
name_of-relative [] h = unfold has_prefix in refl
name_of-relative (p ∷ ps) h = (name_of-proper_head p ps h).0

parts_of-name_of : (ps : List Bytes) → all is_proper ps ≡ true → parts_of (name_of ps) ≡ ps
parts_of-name_of [] h = unfold clean_parts clean_step split beq in refl
parts_of-name_of (p ∷ ps) h =
    ap (clean_parts true) (split-name_of p ps h) ∙ clean_parts-proper true (p ∷ ps) h

pub fs_name-name_of :
    (ps : List Bytes) → all is_proper ps ≡ true → fs_name (name_of ps) ≡ name_of ps
fs_name-name_of ps h =
    fs_name-eq (name_of ps)
    ∙ (ap (λ s. name_of (parts_of s)) (trim-relative (name_of ps) (name_of-relative ps h))
        ∙ ap name_of (parts_of-name_of ps h))

-- Name leaves a valid name as it is, and so changes nothing when it is applied again.
pub fs_name-valid : (name : Bytes) → is_valid name ≡ true → fs_name name ≡ name
fs_name-valid name h =
    let (ps, proper, e) = valid-parts name h in ap fs_name e ∙ (fs_name-name_of ps proper ∙ sym e)

-- The two together: the valid names are exactly the names that Name yields.
pub is_valid_iff : (name : Bytes) → (is_valid name ≡ true) ↔ (fs_name name ≡ name)
is_valid_iff name = (fs_name-valid name, λ e. rw e at (fs_name-is_valid name))
