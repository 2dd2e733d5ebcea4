-- ===== src/Memory/Total.antt =====
-- When resolveLocked of pkg/fs/memory.go returns a nil node without an error.
use gash.Prelude.{
  is_empty, ℕ, zero, suc, Bool, true, false, not, ◌||◌, List, [], ◌∷◌, ◌++◌, none, some, Bytes, ◌≡◌,
  ◌≢◌, refl, ap, sym, ◌∙◌, arith, all, beq, if◌then◌else◌, append_assoc, append-nil, Bool-cases,
  inl, inr, Option-cases, on_option, subst,
}
use gash.Path.{is_valid}
use gash.Path.Lexical.{slash, dot, split, is_name}
use gash.Path.Clean.{is_proper, name_of, all-append, split-name_of}
use gash.Path.Laws.{valid-parts}
use gash.Path.Extend.{extend, extend-name_of}
use gash.Memory.Node.{not_dir, invalid, panic, Node, Memory, find}
use gash.Memory.Resolve.{
  Walk, finished, restart, missing, blocked, walk_node, walk, Resolved, found, absent, failed,
  resolve_loop, resolve_locked,
}

walk_node-finished :
    (follow : Bool) (cur : Bytes) (rest : List Bytes) (n : Node) (next : Walk)
    → walk_node follow cur rest n next ≡ finished
    → next ≡ finished
unfolding walk_node
walk_node-finished follow cur rest n next h = ground arith

proper_kept : (w : Bytes) → is_proper w ≡ true → (beq w dot || is_empty w) ≡ false
unfolding is_name
proper_kept w h = ground arith

-- One element that is no `.`: it is there, and the walk goes on below it.
walk-step :
    (m : Memory) (follow : Bool) (cur part : Bytes) (rest : List Bytes)
    → (beq part dot || is_empty part) ≡ false
    → walk m follow cur (part ∷ rest) ≡ finished
    → (find m (extend cur part) ≢ none) × (walk m follow (extend cur part) rest ≡ finished)
unfolding walk
walk-step m follow cur part rest k h =
    let h' : on_option (find m (extend cur part)) (missing (extend cur part)) (λ (id, n).
      walk_node follow (extend cur part) rest n (walk m follow (extend cur part) rest))
        ≡ finished =
      rw k at h in
    elim (Option-cases (find m (extend cur part))) [
      | inl e ↦ absurd (cc (h', e))
      | inr ((id, n), e) ↦ (λ e'. cc (e, e'), walk_node-finished follow _ rest n _ (rw e at h'))
    ]

walk-finished :
    (m : Memory) (follow : Bool) (rest done : List Bytes)
    → all is_proper done ≡ true
    → all is_proper rest ≡ true
    → find m (name_of done) ≢ none
    → walk m follow (name_of done) rest ≡ finished
    → find m (name_of (done ++ rest)) ≢ none
walk-finished m follow [] done d r there h =
    subst (λ l. find m (name_of l) ≢ none) (sym (append-nil done)) there
walk-finished m follow (part ∷ rest) done d r there h =
    let proper : is_proper part ≡ true = ground arith in
    let (there', h') = walk-step m follow (name_of done) part rest (proper_kept part proper) h in
    let e = extend-name_of done part d proper in
    let d' : all is_proper (done ++ part ∷ []) ≡ true =
      all-append is_proper done (part ∷ []) ∙ ground (arith, d, proper) in
    subst (λ l. find m (name_of l) ≢ none) (append_assoc done (part ∷ []) rest)
      (walk-finished m follow rest (done ++ part ∷ []) d' (ground arith)
        (subst (λ p. find m p ≢ none) e there') (subst (λ p. walk m follow p rest ≡ finished) e h'))

pub walk-dot : (m : Memory) (follow : Bool) (cur : Bytes) → walk m follow cur (dot ∷ []) ≡ finished
unfolding walk beq
walk-dot m follow cur = refl

pub walk-found :
    (m : Memory) (follow : Bool) (name : Bytes)
    → find m dot ≢ none
    → is_valid name ≡ true
    → walk m follow dot (split slash name) ≡ finished
    → find m name ≢ none
walk-found m follow name there v h = let (ps, proper, e) = valid-parts name v in go ps proper e
  where
    go : (ps : List Bytes) → all is_proper ps ≡ true → name ≡ name_of ps → find m name ≢ none
    go [] proper e = subst (λ p. find m p ≢ none) (sym e) there
    go (p ∷ ps) proper e =
        let parts = ap (split slash) e ∙ split-name_of p ps proper in
        subst (λ p. find m p ≢ none) (sym e)
          (walk-finished m follow (p ∷ ps) [] refl proper there
            (subst (λ l. walk m follow dot l ≡ finished) parts h))

resolve_loop-ne-nil :
    (rounds : ℕ) (m : Memory) (follow : Bool) (name r : Bytes)
    → find m dot ≢ none
    → resolve_loop rounds m follow name ≢ found r none
unfolding resolve_loop
resolve_loop-ne-nil zero m follow name r there h = cc
resolve_loop-ne-nil (suc rounds) m follow name r there h = elim (Bool-cases (is_valid name)) [
  | inl v ↦
      after (walk m follow dot (split slash name)) refl
        (λ name'. resolve_loop-ne-nil rounds m follow name' r there) v (rw v at h)
  | inr v ↦ cc (rw v at h)
]
  where
    after :
        (w : Walk)
        → walk m follow dot (split slash name) ≡ w
        → ((name' : Bytes) → resolve_loop rounds m follow name' ≢ found r none)
        → is_valid name ≡ true
        → (elim w [
          | finished ↦ found name (find m name)
          | restart name' ↦ resolve_loop rounds m follow name'
          | missing cur ↦ absent cur
          | blocked ↦ failed not_dir
        ])
          ≡ found r none
        → ⊥
    after finished e ih v h' = walk-found m follow name there v e (cc h')
    after (restart name') e ih v h' = ih name' h'
    after (missing cur) e ih v h' = cc h'
    after blocked e ih v h' = cc h'

-- With the root in place no lookup ends at a nil node with a nil error.
pub resolve_locked-ne-nil :
    (m : Memory) (name : Bytes) (follow : Bool) (r : Bytes)
    → find m dot ≢ none
    → resolve_locked m name follow ≢ found r none
unfolding resolve_locked
resolve_locked-ne-nil m name follow r there = resolve_loop-ne-nil 41 m follow name r there

resolve_loop-ne-panic :
    (rounds : ℕ) (m : Memory) (follow : Bool) (name : Bytes)
    → resolve_loop rounds m follow name ≢ failed panic
unfolding resolve_loop
resolve_loop-ne-panic zero m follow name h = cc
resolve_loop-ne-panic (suc rounds) m follow name h =
    after (is_valid name) (walk m follow dot (split slash name))
      (λ name'. resolve_loop-ne-panic rounds m follow name') h
  where
    after :
        (v : Bool) (w : Walk)
        → ((name' : Bytes) → resolve_loop rounds m follow name' ≢ failed panic)
        → (if not v then failed invalid else elim w [
          | finished ↦ found name (find m name)
          | restart name' ↦ resolve_loop rounds m follow name'
          | missing cur ↦ absent cur
          | blocked ↦ failed not_dir
        ])
          ≡ failed panic
        → ⊥
    after false w ih h' = cc h'
    after true finished ih h' = cc h'
    after true (restart name') ih h' = ih name' h'
    after true (missing cur) ih h' = cc h'
    after true blocked ih h' = cc h'

-- A result at which an operation would dereference nil, or report that it had.
abbrev pub is_nil : Resolved → Bool
is_nil (found r none) = true
is_nil (failed panic) = true
is_nil _ = false

pub is_nil-resolve_locked :
    (m : Memory) (name : Bytes) (follow : Bool)
    → find m dot ≢ none
    → is_nil (resolve_locked m name follow) ≡ false
unfolding resolve_locked
is_nil-resolve_locked m name follow there =
    go (resolve_locked m name follow) (λ r. resolve_locked-ne-nil m name follow r there)
      (resolve_loop-ne-panic 41 m follow name)
  where
    go : (x : Resolved) → ((r : Bytes) → x ≢ found r none) → x ≢ failed panic → is_nil x ≡ false
    go (found r none) h k = absurd (h r refl)
    go (found r (some x)) h k = refl
    go (absent cur) h k = refl
    go (failed panic) h k = absurd (k refl)
    go (failed e) h k = refl
