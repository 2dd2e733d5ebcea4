-- ===== src/Memory/Tree.antt =====
-- A state of pkg/fs/memory.go in which the nodes make a tree of files and directories, without
-- symbolic links: where a name leads is then decided by the table of names alone.
use gash.Prelude.{
  ℕ, ◌<◌, Bool, true, false, not, ◌&&◌, ◌||◌, List, [], ◌∷◌, ◌++◌, Option, none, some, Bytes, beq,
  all, is_empty, length, if◌then◌else◌, on_option, Option-cases, append_assoc, append-nil, ◌≡◌,
  refl, sym, ap, ◌∙◌, inl, inr, arith,
}
use gash.Assoc.{lookup}
use gash.Path.Lexical.{dot, is_name}
use gash.Path.Clean.{is_proper, name_of, all-append}
use gash.Path.Extend.{extend-name_of}
use gash.Memory.Node.{Kind, directory, is_directory, is_symlink, Node, Memory, find}
use gash.Memory.Resolve.{Walk, finished, restart, blocked, walk_node, walk}

abbrev pub kind_of : Option (ℕ × Node) → Option Kind
kind_of x = on_option x none λ (id, n). some n.kind

-- What stands under a name.
abbrev pub kind_at : Memory → Bytes → Option Kind
kind_at m name = kind_of (find m name)

-- The root is a directory, whatever stands under a name is no link and stands in a directory, and
-- the pointers lead to nodes.
pub record IsTree (m : Memory) : Type 0 where
  pub rooted : kind_at m dot ≡ some directory
  pub branches :
      (ps : List Bytes) (w : Bytes) (k : Kind)
      → all is_proper (ps ++ w ∷ []) ≡ true
      → kind_at m (name_of (ps ++ w ∷ [])) ≡ some k
      → (is_symlink k ≡ false) × (kind_at m (name_of ps) ≡ some directory)
  pub in_heap : (name : Bytes) (id : ℕ) → lookup name m.nodes ≡ some id → id < length m.heap

pub kind_at-find :
    (x : Option (ℕ × Node)) (k : Kind)
    → kind_of x ≡ some k
    → (id : ℕ) × (n : Node) × (x ≡ some (id, n)) × (n.kind ≡ k)
kind_at-find none k h = cc
kind_at-find (some (id, n)) k h = (id, n, refl, ground (arith, h))

pub kind_at-none : (x : Option (ℕ × Node)) → kind_of x ≡ none → x ≡ none
kind_at-none none h = refl
kind_at-none (some (id, n)) h = cc

walk_node-passes :
    (follow : Bool) (cur : Bytes) (rest : List Bytes) (n : Node) (next : Walk)
    → is_symlink n.kind ≡ false
    → is_empty rest || is_directory n.kind ≡ true
    → walk_node follow cur rest n next ≡ next
unfolding walk_node
walk_node-passes follow cur rest n next h k = ground (arith, h, k)

plain_part : (w : Bytes) → is_proper w ≡ true → (beq w dot || is_empty w) ≡ false
unfolding is_name
plain_part w h = ground arith

-- A walk that meets no link.
abbrev pub Stays : Walk → Type 0
Stays (restart name) = ⊥
Stays _ = Unit

walk_node-Stays :
    (follow : Bool) (cur : Bytes) (rest : List Bytes) (n : Node) (next : Walk)
    → is_symlink n.kind ≡ false
    → Stays next
    → Stays (walk_node follow cur rest n next)
unfolding walk_node
walk_node-Stays follow cur rest n next h k =
    rw h (ended (not (is_empty rest) && not (is_directory n.kind)))
  where
    ended : (b : Bool) → Stays (if b then blocked else next)
    ended true = tt
    ended false = k

module _ (m : Memory) (t : IsTree m) where
  -- What is above a name that is there is a directory.
  above-directory :
      (qs ps : List Bytes) (q : Bytes) (k : Kind)
      → all is_proper (ps ++ q ∷ qs) ≡ true
      → kind_at m (name_of (ps ++ q ∷ qs)) ≡ some k
      → kind_at m (name_of ps) ≡ some directory
  above-directory [] ps q k h e = (t.branches ps q k h e).1
  above-directory (r ∷ qs) ps q k h e =
      let assoc : ps ++ q ∷ r ∷ qs ≡ (ps ++ q ∷ []) ++ r ∷ qs =
        sym (append_assoc ps (q ∷ []) (r ∷ qs)) in
      let h' : all is_proper ((ps ++ q ∷ []) ++ r ∷ qs) ≡ true =
        ap (all is_proper) (sym assoc) ∙ h in
      let e' : kind_at m (name_of ((ps ++ q ∷ []) ++ r ∷ qs)) ≡ some k =
        ap (λ l. kind_at m (name_of l)) (sym assoc) ∙ e in
      let parts = all-append is_proper (ps ++ q ∷ []) (r ∷ qs) in
      (t.branches ps q directory (ground (arith, h', parts))
        (above-directory qs (ps ++ q ∷ []) r k h' e')).1

  pub walk-reaches :
      (follow : Bool) (rest done : List Bytes) (k : Kind)
      → all is_proper (done ++ rest) ≡ true
      → kind_at m (name_of (done ++ rest)) ≡ some k
      → walk m follow (name_of done) rest ≡ finished
  unfolding walk
  walk-reaches follow [] done k h e = refl
  walk-reaches follow (part ∷ rest) done k h e =
      let parts = all-append is_proper done (part ∷ rest) in
      let proper : is_proper part ≡ true = ground (arith, h, parts) in
      let cur = extend-name_of done part (ground (arith, h, parts)) proper in
      let assoc = sym (append_assoc done (part ∷ []) rest) in
      let h' : all is_proper ((done ++ part ∷ []) ++ rest) ≡ true =
        ap (all is_proper) (sym assoc) ∙ h in
      let e' : kind_at m (name_of ((done ++ part ∷ []) ++ rest)) ≡ some k =
        ap (λ l. kind_at m (name_of l)) (sym assoc) ∙ e in
      let (kind, here, inner) = step rest (done ++ part ∷ []) h' e' in
      let (id, n, f, same) = kind_at-find (find m (name_of (done ++ part ∷ []))) kind here in
      let snoc : all is_proper (done ++ part ∷ []) ≡ true =
        ground (arith, h', all-append is_proper (done ++ part ∷ []) rest) in
      let plain : is_symlink kind ≡ false = (t.branches done part kind snoc here).0 in
      rw (plain_part part proper) (
        rw (cur, f)
          (walk_node-passes follow (name_of (done ++ part ∷ [])) rest n
              (walk m follow (name_of (done ++ part ∷ [])) rest) (ap is_symlink same ∙ plain)
              (ap (λ x. is_empty rest || is_directory x) same ∙ inner)
            ∙ walk-reaches follow rest (done ++ part ∷ []) k h' e'))
    where
      step :
          (rest done : List Bytes)
          → all is_proper (done ++ rest) ≡ true
          → kind_at m (name_of (done ++ rest)) ≡ some k
          → (kind : Kind) × (kind_at m (name_of done) ≡ some kind)
            × (is_empty rest || is_directory kind ≡ true)
      step [] done h e = (k, ap (λ l. kind_at m (name_of l)) (sym (append-nil done)) ∙ e, refl)
      step (r ∷ rest) done h e = (directory, above-directory rest done r k h e, refl)

  pub walk-Stays :
      (follow : Bool) (rest done : List Bytes)
      → all is_proper (done ++ rest) ≡ true
      → Stays (walk m follow (name_of done) rest)
  unfolding walk
  walk-Stays follow [] done h = tt
  walk-Stays follow (part ∷ rest) done h =
      let parts = all-append is_proper done (part ∷ rest) in
      let proper : is_proper part ≡ true = ground (arith, h, parts) in
      let cur = extend-name_of done part (ground (arith, h, parts)) proper in
      let assoc = sym (append_assoc done (part ∷ []) rest) in
      let h' : all is_proper ((done ++ part ∷ []) ++ rest) ≡ true =
        ap (all is_proper) (sym assoc) ∙ h in
      let snoc : all is_proper (done ++ part ∷ []) ≡ true =
        ground (arith, h', all-append is_proper (done ++ part ∷ []) rest) in
      let later = walk-Stays follow rest (done ++ part ∷ []) h' in
      rw (plain_part part proper) (
        rw cur (elim (Option-cases (find m (name_of (done ++ part ∷ [])))) [
          | inl e ↦ rw e tt
          | inr ((id, n), e) ↦ rw e (
              walk_node-Stays follow (name_of (done ++ part ∷ [])) rest n _
                (t.branches done part n.kind snoc (ap kind_of e)).0 later)
        ]))
