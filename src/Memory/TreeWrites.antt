-- ===== src/Memory/TreeWrites.antt =====
-- WriteFile, Mkdir and Remove of pkg/fs/memory.go keep a tree a tree, and what they do to the table
-- of names.
use gash.Prelude.{
  ℕ, ◌+◌, ◌<◌, Bool, true, false, not, List, [], ◌∷◌, ◌++◌, none, some, Bytes, beq, beq_iff, all,
  has_prefix, length, length-append, get_elem?-append, get_elem?-last, if◌then◌else◌, if_cases,
  on_option, Option-cases, Bool-cases, ◌≡◌, refl, sym, ap, subst, ◌∙◌, inl, inr, arith,
}
use gash.Assoc.{lookup, lookup-put}
use gash.Path.{is_valid, parent}
use gash.Path.Lexical.{slash, dot, path_join, split, join, clean, clean_parts, clean_step, is_name}
use gash.Path.Split.{split-no_sep_text}
use gash.Path.Clean.{is_proper, name_of, all-append}
use gash.Path.Laws.{valid-parts, name_of-is_valid}
use gash.Path.Extend.{extend-name_of, name_of-ne-dot}
use gash.Path.Parent.{to_snoc, parent-name_of, parent-single, base-name_of}
use gash.Memory.Node.{
  not_dir, not_exist, panic, Result, ok, fail, Kind, regular, directory, symlink, is_directory,
  is_symlink, Node, Memory, find, alloc,
}
use gash.Memory.Write.{below_parent}
use gash.Memory.Tree.{IsTree, kind_of, kind_at}
use gash.Memory.TreeLookup.{tree_cases}

-- The parent of a name below the root.
pub parent-snoc :
    (ps : List Bytes) (w : Bytes)
    → all is_proper (ps ++ w ∷ []) ≡ true
    → parent (name_of (ps ++ w ∷ [])) ≡ name_of ps
unfolding join
parent-snoc [] w h = parent-single w (ground (arith, h))
parent-snoc (p ∷ ps) w h =
    let parts = all-append is_proper (p ∷ ps) (w ∷ []) in
    parent-name_of p w ps (ground (arith, h, parts)) (ground (arith, h, parts))

-- A new name with its node.
pub find-alloc :
    (m : Memory) (name j : Bytes) (n : Node)
    → ((id : ℕ) → lookup j m.nodes ≡ some id → id < length m.heap)
    → find (alloc m name n) j ≡ (if beq name j then some (length m.heap, n) else find m j)
unfolding find alloc
find-alloc m name j n held =
    let there = lookup-put name j (length m.heap) m.nodes in
    elim (Bool-cases (beq name j)) [
      | inl e ↦ ground (arith, e, there, get_elem?-last m.heap n)
      | inr e ↦ elim (Option-cases (lookup j m.nodes)) [
        | inl gone ↦ ground (arith, e, there, gone)
        | inr (id, here) ↦
            ground (arith, e, there, here, get_elem?-append m.heap id (n ∷ []) (held id here))
      ]
    ]

path_join-dot : (w : Bytes) → is_proper w ≡ true → path_join dot w ≡ w
unfolding path_join clean clean_parts clean_step split has_prefix join beq is_name
path_join-dot [] h = ground arith
path_join-dot (x ∷ w) h =
    rw (split-no_sep_text slash (x ∷ w) (ground (arith, h))) (ground (arith, h))

-- path.Join of a name and one more element.
path_join-snoc :
    (ps : List Bytes) (w : Bytes)
    → all is_proper ps ≡ true
    → is_proper w ≡ true
    → path_join (name_of ps) w ≡ name_of (ps ++ w ∷ [])
unfolding join
path_join-snoc [] w h k = path_join-dot w k
path_join-snoc (p ∷ ps) w h k =
    ap (λ b. if b then w else path_join (name_of (p ∷ ps)) w) (sym (name_of-ne-dot p ps h))
    ∙ extend-name_of (p ∷ ps) w h k

pub name_of-not_dot :
    (ps : List Bytes) (w : Bytes)
    → all is_proper (ps ++ w ∷ []) ≡ true
    → beq (name_of (ps ++ w ∷ [])) dot ≡ false
name_of-not_dot [] w h = name_of-ne-dot w [] h
name_of-not_dot (p ∷ ps) w h = name_of-ne-dot p (ps ++ w ∷ []) h

is_directory-eq : (k : Kind) → is_directory k ≡ true → k ≡ directory
is_directory-eq regular h = cc
is_directory-eq directory h = refl
is_directory-eq symlink h = cc

module _ (m : Memory) (t : IsTree m) where
  -- A node that is no link, under a name that was free in a directory.
  pub alloc-IsTree :
      (ps : List Bytes) (w : Bytes) (n : Node)
      → all is_proper (ps ++ w ∷ []) ≡ true
      → kind_at m (name_of (ps ++ w ∷ [])) ≡ none
      → kind_at m (name_of ps) ≡ some directory
      → is_symlink n.kind ≡ false
      → IsTree (alloc m (name_of (ps ++ w ∷ [])) n)
  unfolding alloc
  alloc-IsTree ps w n h free dir plain = record {
    rooted = kind_alloc dot ∙ rw (name_of-not_dot ps w h) t.rooted;
    branches = λ qs v k hq e. at qs v k hq (sym (kind_alloc (name_of (qs ++ v ∷ []))) ∙ e);
    in_heap = λ j id e.
        rw (length-append m.heap (n ∷ []))
          (bounded j id (sym (lookup-put name j (length m.heap) m.nodes) ∙ e));
  }
    where
      name : Bytes
      name = name_of (ps ++ w ∷ [])

      kind_alloc :
          (j : Bytes)
          → kind_at (alloc m name n) j ≡ (if beq name j then some n.kind else kind_at m j)
      kind_alloc j = ap kind_of (find-alloc m name j n (t.in_heap j)) ∙ split_if (beq name j)
        where
          split_if :
              (b : Bool)
              → kind_of (if b then some (length m.heap, n) else find m j)
                ≡ (if b then some n.kind else kind_at m j)
          split_if true = refl
          split_if false = refl

      -- The parent of any name that is there is not the new name, which was free.
      above :
          (qs : List Bytes)
          → kind_at m (name_of qs) ≡ some directory
          → kind_at (alloc m name n) (name_of qs) ≡ some directory
      above qs e = kind_alloc (name_of qs) ∙ (elim (Bool-cases (beq name (name_of qs))) [
        | inl same ↦ cc (free, e, ap (kind_at m) ((beq_iff name (name_of qs)).0 same))
        | inr other ↦ rw other e
      ])

      at :
          (qs : List Bytes) (v : Bytes) (k : Kind)
          → all is_proper (qs ++ v ∷ []) ≡ true
          → (if beq name (name_of (qs ++ v ∷ []))
              then some n.kind
              else kind_at m (name_of (qs ++ v ∷ [])))
            ≡ some k
          → (is_symlink k ≡ false) × (kind_at (alloc m name n) (name_of qs) ≡ some directory)
      at qs v k hq e = elim (Bool-cases (beq name (name_of (qs ++ v ∷ [])))) [
        | inl same ↦
            let here : some n.kind ≡ some k = rw same at e in
            let e' = (beq_iff name (name_of (qs ++ v ∷ []))).0 same in
            let parents : name_of ps ≡ name_of qs =
              sym (parent-snoc ps w h) ∙ ap parent e' ∙ parent-snoc qs v hq in
            (
              subst (λ o. on_option o Unit (λ x. is_symlink x ≡ false)) here plain,
              above qs (ap (kind_at m) (sym parents) ∙ dir),
            )
        | inr other ↦ let b = t.branches qs v k hq (rw other at e) in (b.0, above qs b.1)
      ]

      bounded :
          (j : Bytes) (id : ℕ)
          → (if beq name j then some (length m.heap) else lookup j m.nodes) ≡ some id
          → id < length m.heap + 1
      bounded j id e = elim (Bool-cases (beq name j)) [
        | inl same ↦
            let here : some (length m.heap) ≡ some id = rw same at e in
            subst (λ o. on_option o Unit (λ x. x < length m.heap + 1)) here (omega arith)
        | inr other ↦ let b = t.in_heap j id (rw other at e) in omega (arith, b)
      ]

  -- Where a new entry goes: under its own name, in a directory.
  pub below_parent-tree :
      (name r : Bytes)
      → is_valid name ≡ true
      → kind_at m name ≡ none
      → below_parent m name ≡ ok r
      → (ps : List Bytes) × (w : Bytes) × (all is_proper (ps ++ w ∷ []) ≡ true)
        × (name ≡ name_of (ps ++ w ∷ []))
        × (r ≡ name_of (ps ++ w ∷ []))
        × (kind_at m (name_of ps) ≡ some directory)
  unfolding below_parent
  below_parent-tree name r v free h =
      let (qs, proper, e) = valid-parts name v in
      elim (to_snoc qs) [
        | inl root ↦ cc (free, t.rooted, e ∙ ap name_of root)
        | inr (ps, w, parts) ↦
            let proper' : all is_proper (ps ++ w ∷ []) ≡ true =
              ap (all is_proper) (sym parts) ∙ proper in
            let e' : name ≡ name_of (ps ++ w ∷ []) = e ∙ ap name_of parts in
            let (joined, dir) = entered ps w proper' (ap (below_parent m) (sym e') ∙ h) in
            (ps, w, proper', e', joined, dir)
      ]
    where
      joined :
          (ps : List Bytes) (w : Bytes)
          → all is_proper ps ≡ true
          → is_proper w ≡ true
          → (id : ℕ) (n : Node) → find m (name_of ps) ≡ some (id, n)
          → (if not (is_directory n.kind) then fail not_dir else ok (path_join (name_of ps) w))
            ≡ ok r
          → (r ≡ name_of (ps ++ w ∷ [])) × (kind_at m (name_of ps) ≡ some directory)
      joined ps w h l id n f =
          if_cases
            (λ (d : Result Bytes).
              d ≡ ok r → (r ≡ name_of (ps ++ w ∷ [])) × (kind_at m (name_of ps) ≡ some directory))
            (not (is_directory n.kind)) (fail not_dir) (ok (path_join (name_of ps) w)) (λ _ k. cc k)
            (λ e k. (
              subst
                  (λ (d : Result Bytes). elim d [
                    | ok x ↦ x ≡ name_of (ps ++ w ∷ [])
                    | fail _ ↦ Unit
                  ])
                  k (path_join-snoc ps w h l),
              ap kind_of f ∙ ap some (is_directory-eq n.kind (ground (arith, e))),
            ))

      entered :
          (ps : List Bytes) (w : Bytes)
          → all is_proper (ps ++ w ∷ []) ≡ true
          → below_parent m (name_of (ps ++ w ∷ [])) ≡ ok r
          → (r ≡ name_of (ps ++ w ∷ [])) × (kind_at m (name_of ps) ≡ some directory)
      entered ps w proper =
          let parts = all-append is_proper ps (w ∷ []) in
          let above : all is_proper ps ≡ true = ground (arith, proper, parts) in
          let last : is_proper w ≡ true = ground (arith, proper, parts) in
          rw (parent-snoc ps w proper, base-name_of ps w above last)
            (tree_cases m t
              (λ (d : Result Bytes).
                d ≡ ok r → (r ≡ name_of (ps ++ w ∷ [])) × (kind_at m (name_of ps) ≡ some directory))
              (name_of ps) true
              (λ dir id n. if not (is_directory n.kind) then fail not_dir else ok (path_join dir w))
              (λ _. fail panic) (fail not_exist) (λ e. fail e) (name_of-is_valid ps above)
              (λ id n f k. joined ps w above last id n f k) (λ _ k. cc k) (λ _ _ k. cc k))
