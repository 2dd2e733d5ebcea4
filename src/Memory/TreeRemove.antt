-- ===== src/Memory/TreeRemove.antt =====
-- Remove of pkg/fs/memory.go on a tree.
use gash.Prelude.{
  ℕ, ◌-◌, ◌<◌, true, false, false≢true, ◌&&◌, List, [], ◌∷◌, ◌++◌, Option, none, some, Bytes, beq,
  beq_iff, beq_refl, ◌==◌, all, any, length, length-set, get_elem?, get_elem?-set, if◌then◌else◌,
  if_cases, Option-cases, Bool-cases, ◌≢◌, ◌≡◌, refl, sym, ap, subst, ◌∙◌, inl, inr, arith,
}
use gash.Assoc.{Assoc, lookup, delete, lookup-delete}
use gash.Path.{is_valid, parent}
use gash.Path.Lexical.{dot}
use gash.Path.Clean.{is_proper, name_of}
use gash.Memory.Node.{
  Err, not_exist, not_empty, remove_root, panic, Kind, directory, is_directory, Node, Memory, find,
  release,
}
use gash.Memory.Write.{Outcome}
use gash.Memory.Names.{has_children, drop_name, remove_node, remove}
use gash.Memory.Quota.Sound.{find-lookup}
use gash.Memory.Tree.{IsTree, kind_of, kind_at, kind_at-find}
use gash.Memory.TreeLookup.{tree_cases}
use gash.Memory.TreeWrites.{parent-snoc}

any-lookup :
    (dir j : Bytes) (id : ℕ) (nodes : Assoc ℕ)
    → lookup j nodes ≡ some id
    → beq (parent j) dir ≡ true
    → any (λ (p, i). beq (parent p) dir) nodes ≡ true
unfolding lookup
any-lookup dir j id [] e h = cc
any-lookup dir j id ((p, i) ∷ nodes) e h = elim (Bool-cases (beq p j)) [
  | inl same ↦
      let here : beq (parent p) dir ≡ true =
        ap (λ x. beq (parent x) dir) ((beq_iff p j).0 same) ∙ h in
      ground (arith, here)
  | inr other ↦ ground (arith, any-lookup dir j id nodes (rw other at e) h)
]

-- The table of names behind a removal: the name is gone, another stands where it stood, with the
-- same content and kind.
abbrev pub Kept : Memory → Bytes → Memory → Type 0
Kept m name m' =
    (j : Bytes) (i : ℕ) (x : Node)
    → name ≢ j
    → find m j ≡ some (i, x)
    → (y : Node) × (find m' j ≡ some (i, y)) × (y.content ≡ x.content) × (y.kind ≡ x.kind)

abbrev pub Removed : Memory → Bytes → Outcome → Type 0
Removed m name out = IsTree out.1 × Kept m name out.1 × (out.0 ≡ none → kind_at out.1 name ≡ none)

module _ (m : Memory) (name : Bytes) (id : ℕ) (n : Node) (f : find m name ≡ some (id, n)) where
  dropped-name : kind_at (drop_name m name id n) name ≡ none
  unfolding find drop_name release
  dropped-name = ground (arith, lookup-delete name name m.nodes, beq_refl name)

  dropped-Kept : Kept m name (drop_name m name id n)
  unfolding find drop_name release
  dropped-Kept j i x ne g =
      let other : beq name j ≡ false = ground (arith, ne, beq_iff name j) in
      let (l, here) = find-lookup m j i x g in
      let n' : Node = record n { links = n.links - 1 } in
      let same : id ≡ i → n ≡ x = λ e.
        let (_, there) = find-lookup m name id n f in
        some-injective (sym there ∙ ap (get_elem? m.heap) e ∙ here) in
      elim (Bool-cases (id == i)) [
        | inl e ↦
            let is : n ≡ x = same (ground (arith, e)) in
            (
              n',
              ground (
                arith,
                e,
                l,
                other,
                lookup-delete name j m.nodes,
                get_elem?-set m.heap id i n' n (find-lookup m name id n f).1,
              ),
              ap (λ (z : Node). z.content) is,
              ap (λ (z : Node). z.kind) is,
            )
        | inr e ↦ (
          x,
          ground (
            arith,
            e,
            l,
            here,
            other,
            lookup-delete name j m.nodes,
            get_elem?-set m.heap id i n' n (find-lookup m name id n f).1,
          ),
          refl,
          refl,
        )
      ]
    where
      some-injective : {a b : Node} → some a ≡ some b → a ≡ b
      some-injective {a} {b} e =
          subst (λ (o : Option Node). elim o [ none ↦ Unit | some z ↦ a ≡ z ]) e refl

  dropped-none : (j : Bytes) → find m j ≡ none → kind_at (drop_name m name id n) j ≡ none
  unfolding find drop_name release
  dropped-none j g =
      let n' : Node = record n { links = n.links - 1 } in
      let there = (find-lookup m name id n f).1 in
      elim (Option-cases (lookup j m.nodes)) [
        | inl l ↦ ground (arith, l, lookup-delete name j m.nodes)
        | inr (i, l) ↦
            ground (
              arith,
              l,
              g,
              there,
              lookup-delete name j m.nodes,
              get_elem?-set m.heap id i n' n there,
            )
      ]

  -- What stands under a name afterwards stood there before.
  dropped-before :
      (j : Bytes) (k : Kind)
      → kind_at (drop_name m name id n) j ≡ some k
      → (kind_at m j ≡ some k) × (name ≢ j)
  dropped-before j k e = elim (Bool-cases (beq name j)) [
    | inl same ↦
        let gone : kind_at (drop_name m name id n) j ≡ none =
          ap (kind_at (drop_name m name id n)) (sym ((beq_iff name j).0 same)) ∙ dropped-name in
        cc (gone, e)
    | inr other ↦
        let ne : name ≢ j = λ s. absurd (false≢true (sym other ∙ (beq_iff name j).1 s)) in
        (stood ne, ne)
  ]
    where
      stood : (name ≢ j) → kind_at m j ≡ some k
      stood ne = elim (Option-cases (find m j)) [
        | inl gone ↦ cc (dropped-none j gone, e)
        | inr ((i, x), g) ↦
            let (y, there, _, kind) = dropped-Kept j i x ne g in
            ap kind_of g ∙ ap some (sym kind) ∙ sym (ap kind_of there) ∙ e
      ]

dropped_fields :
    (m : Memory) (name : Bytes) (id : ℕ) (n : Node)
    → ((drop_name m name id n).nodes ≡ delete name m.nodes)
      × (length (drop_name m name id n).heap ≡ length m.heap)
unfolding drop_name release
dropped_fields m name id n = (refl, length-set m.heap id (record n { links = n.links - 1 }))

-- The directory of a name that is there has children.
child_lem :
    (m : Memory) (ps : List Bytes) (w : Bytes) (k : Kind)
    → all is_proper (ps ++ w ∷ []) ≡ true
    → kind_at m (name_of (ps ++ w ∷ [])) ≡ some k
    → has_children m (name_of ps) ≡ true
unfolding has_children
child_lem m ps w k h e =
    let name = name_of (ps ++ w ∷ []) in
    let (id, n, f, _) = kind_at-find (find m name) k e in
    any-lookup (name_of ps) name id m.nodes (find-lookup m name id n f).0
      (ap (λ p. beq p (name_of ps)) (parent-snoc ps w h) ∙ beq_refl (name_of ps))

module _ (m : Memory) (t : IsTree m) where
  dropped-IsTree :
      (name : Bytes) (id : ℕ) (n : Node)
      → find m name ≡ some (id, n)
      → beq name dot ≡ false
      → is_directory n.kind && has_children m name ≡ false
      → IsTree (drop_name m name id n)
  dropped-IsTree name id n f below leaf = record {
    rooted = still dot directory t.rooted (λ e. false≢true (sym below ∙ (beq_iff name dot).1 e));
    branches = λ ps w k h e.
        let (there, ne) = dropped-before m name id n f (name_of (ps ++ w ∷ [])) k e in
        let b = t.branches ps w k h there in
        (b.0, still (name_of ps) directory b.1 (λ same. absurd (no_child ps w k h there b.1 same)));
    in_heap = λ j i e. bounded j i e;
  }
    where
      still :
          (j : Bytes) (k : Kind)
          → kind_at m j ≡ some k
          → name ≢ j
          → kind_at (drop_name m name id n) j ≡ some k
      still j k e ne =
          let (i, x, g, same) = kind_at-find (find m j) k e in
          let (y, there, _, kind) = dropped-Kept m name id n f j i x ne g in
          ap kind_of there ∙ ap some (kind ∙ same)

      no_child :
          (ps : List Bytes) (w : Bytes) (k : Kind)
          → all is_proper (ps ++ w ∷ []) ≡ true
          → kind_at m (name_of (ps ++ w ∷ [])) ≡ some k
          → kind_at m (name_of ps) ≡ some directory
          → name ≡ name_of ps
          → ⊥
      no_child ps w k h there dir same =
          let child : has_children m name ≡ true =
            ap (has_children m) same ∙ child_lem m ps w k h there in
          let here : some n.kind ≡ some directory =
            sym (ap kind_of f) ∙ ap (kind_at m) same ∙ dir in
          let kind : is_directory n.kind ≡ true =
            subst (λ o. elim o [ none ↦ Unit | some x ↦ is_directory x ≡ true ]) (sym here) refl in
          false≢true (sym leaf ∙ rw (kind, child) refl)

      bounded :
          (j : Bytes) (i : ℕ)
          → lookup j (drop_name m name id n).nodes ≡ some i
          → i < length (drop_name m name id n).heap
      bounded j i e =
          let (l, long) = dropped_fields m name id n in
          elim (Bool-cases (beq name j)) [
            | inl same ↦ cc (e, l, lookup-delete name j m.nodes, same)
            | inr other ↦
                let there : lookup j m.nodes ≡ some i =
                  sym (ap (λ b. if b then none else lookup j m.nodes) other)
                  ∙ sym (lookup-delete name j m.nodes)
                  ∙ ap (lookup j) (sym l)
                  ∙ e in
                subst (λ x. i < x) (sym long) (t.in_heap j i there)
          ]

  failed-Removed : (name : Bytes) (e : Err) → Removed m name (some e, m)
  failed-Removed name e = (t, λ j i x _ g. (x, g, refl, refl), λ h. cc h)

  remove_node-Removed :
      (name : Bytes) (id : ℕ) (n : Node)
      → find m name ≡ some (id, n)
      → beq name dot ≡ false
      → Removed m name (remove_node m name id n)
  unfolding remove_node
  remove_node-Removed name id n f below =
      if_cases (Removed m name) (is_directory n.kind && has_children m name) (some not_empty, m)
        (none, drop_name m name id n) (λ _. failed-Removed name not_empty)
        (λ leaf. (
          dropped-IsTree name id n f below leaf,
          dropped-Kept m name id n f,
          λ _. dropped-name m name id n f,
        ))

  pub remove-Removed : (name : Bytes) → is_valid name ≡ true → Removed m name (remove name m)
  unfolding remove
  remove-Removed name v =
      if_cases (Removed m name) (beq name dot) (some remove_root, m) _
        (λ _. failed-Removed name remove_root)
        λ below. rw v (
          tree_cases m t (Removed m name) name false (λ r id n. remove_node m r id n)
            (λ _. (some panic, m)) (some not_exist, m) (λ e. (some e, m)) v
            (λ id n f. remove_node-Removed name id n f below) (λ _. failed-Removed name not_exist)
            (λ e _. failed-Removed name e))
