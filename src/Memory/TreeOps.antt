-- ===== src/Memory/TreeOps.antt =====
-- WriteFile and Mkdir of pkg/fs/memory.go on a tree.
use gash.Prelude.{
  ℕ, ◌+◌, ◌-◌, ◌<◌, Bool, true, false, List, [], ◌∷◌, ◌++◌, Option, none, some, Bytes, beq, beq_iff,
  beq_refl, ◌==◌, length, length-set, set, if◌then◌else◌, if_cases, on_option_cases, ◌≢◌, ◌≡◌, refl,
  sym, ap, subst, ◌∙◌, arith,
}
use Prim.Native.Nat.{bit_or}
use gash.Assoc.{lookup}
use gash.Path.{is_valid}
use gash.Path.Clean.{name_of}
use gash.Path.Lexical.{dot}
use gash.Memory.Node.{
  Err, exist, is_dir, quota, Result, ok, fail, Kind, directory, is_directory, Node, Memory, find,
  alloc, over_quota, perm_bits, type_bits, mode_dir, new_memory,
}
use gash.Memory.Write.{
  Outcome, below_parent, new_file, write_new, overwrite, write_file, mkdir_at, mkdir,
}
use gash.Memory.Shape.{shape, SameShape, set-SameShape, find-set}
use gash.Memory.Quota.Sound.{find-lookup}
use gash.Memory.Tree.{IsTree, kind_of, kind_at}
use gash.Memory.TreeLookup.{tree_cases}
use gash.Memory.TreeWrites.{find-alloc, name_of-not_dot, alloc-IsTree, below_parent-tree}

kind_of-shape : (x y : Option (ℕ × Node)) → shape x ≡ shape y → kind_of x ≡ kind_of y
kind_of-shape none none h = refl
kind_of-shape none (some y) h = cc
kind_of-shape (some x) none h = cc
kind_of-shape (some (i, x)) (some (j, y)) h = ground (arith, h)

-- Other nodes of the same kinds under the same names.
pub same-IsTree :
    (m : Memory) (used : ℕ) (heap : List Node)
    → let m' : Memory = record m { used = used; heap = heap } in
      ((name : Bytes) → kind_at m name ≡ kind_at m' name)
      → length m.heap ≡ length heap
      → IsTree m
      → IsTree m'
same-IsTree m used heap same long t = record {
  rooted = sym (same gash.Path.Lexical.dot) ∙ t.rooted;
  branches = λ ps w k h e.
      let b = t.branches ps w k h (same (name_of (ps ++ w ∷ [])) ∙ e) in
      (b.0, sym (same (name_of ps)) ∙ b.1);
  in_heap = λ name id e. subst (λ l. id < l) long (t.in_heap name id e);
}

pub used-IsTree : (m : Memory) (used : ℕ) → IsTree m → IsTree (record m { used = used })
unfolding find
used-IsTree m used t = same-IsTree m used m.heap (λ name. refl) refl t

-- No name but that one is new.
abbrev pub NoneElse : Memory → Bytes → Memory → Type 0
NoneElse m name m' = (j : Bytes) → name ≢ j → kind_at m j ≡ none → kind_at m' j ≡ none

-- A file of that content stands under the name.
abbrev pub HasFile : Memory → Bytes → Bytes → Type 0
HasFile m name content =
    (id : ℕ) × (n : Node) × (find m name ≡ some (id, n))
    × (n.content ≡ content)
    × (is_directory n.kind ≡ false)

-- What a write comes to.
abbrev pub Wrote : Memory → Bytes → Bytes → Outcome → Type 0
Wrote m name content out =
    IsTree out.1 × NoneElse m name out.1 × (out.0 ≡ none → HasFile out.1 name content)

module _ (m : Memory) (t : IsTree m) where
  failed-Wrote : (name content : Bytes) (e : Err) → Wrote m name content (some e, m)
  failed-Wrote name content e = (t, λ j ne h. h, λ h. cc h)

  find-alloc_used :
      (name j : Bytes) (n : Node) (used : ℕ)
      → find (record (alloc m name n) { used = used }) j
        ≡ (if beq name j then some (length m.heap, n) else find m j)
  unfolding find
  find-alloc_used name j n used = find-alloc m name j n (t.in_heap j)

  alloc-NoneElse :
      (name : Bytes) (n : Node) (used : ℕ)
      → NoneElse m name (record (alloc m name n) { used = used })
  alloc-NoneElse name n used j ne h =
      let other : beq name j ≡ false = ground (arith, ne, beq_iff name j) in
      ap kind_of (find-alloc_used name j n used)
      ∙ ap (λ b. kind_of (if b then some (length m.heap, n) else find m j)) other
      ∙ h

  alloc-HasFile :
      (name content : Bytes) (perm now used : ℕ)
      → HasFile (record (alloc m name (new_file content perm now)) { used = used }) name content
  alloc-HasFile name content perm now used =
      let n = new_file content perm now in
      (
        length m.heap,
        n,
        find-alloc_used name name n used
            ∙ ap (λ b. if b then some (length m.heap, n) else find m name) (beq_refl name),
        refl,
        refl,
      )

  write_new-Wrote :
      (name content : Bytes) (perm now : ℕ) (d : Result Bytes)
      → is_valid name ≡ true
      → kind_at m name ≡ none
      → below_parent m name ≡ d
      → Wrote m name content (write_new m d content perm now)
  unfolding write_new
  write_new-Wrote name content perm now (fail e) v free h = failed-Wrote name content e
  write_new-Wrote name content perm now (ok r) v free h =
      let (ps, w, proper, is_name, is_r, dir) = below_parent-tree m t name r v free h in
      let n = new_file content perm now in
      let used = m.used + length content in
      if_cases (Wrote m name content) (over_quota m 0 (length content)) (some quota, m) _
        (λ _. failed-Wrote name content quota)
        (λ _.
          subst (λ s. Wrote m name content (none, record (alloc m s n) { used = used }))
            (is_name ∙ sym is_r)
            (
              subst (λ s. IsTree (record (alloc m s n) { used = used })) (sym is_name)
                  (used-IsTree (alloc m (name_of (ps ++ w ∷ [])) n) used (
                    alloc-IsTree m t ps w n proper (ap (kind_at m) (sym is_name) ∙ free) dir refl)),
              alloc-NoneElse name n used,
              λ _. alloc-HasFile name content perm now used,
            ))

  overwrite-Wrote :
      (name content : Bytes) (perm now id : ℕ) (n : Node)
      → find m name ≡ some (id, n)
      → Wrote m name content (overwrite m id n content perm now)
  unfolding overwrite SameShape
  overwrite-Wrote name content perm now id n f =
      let used = m.used + length content - length n.content in
      let n' : Node = record n {
        content = content;
        mode = bit_or (type_bits n.mode) (perm_bits perm);
        mtime = now;
      } in
      let here = (find-lookup m name id n f).1 in
      let heap = set m.heap id n' in
      let itself : (id == id) ≡ true = ground arith in
      let same = set-SameShape m used id n n' here refl refl in
      let kinds : (j : Bytes) → kind_at m j ≡ kind_at (record m { used = used; heap = heap }) j =
        λ j. kind_of-shape (find m j) (find (record m { used = used; heap = heap }) j) (same j) in
      if_cases (Wrote m name content) (is_directory n.kind) (some is_dir, m) _
        (λ _. failed-Wrote name content is_dir)
        λ file.
          if_cases (Wrote m name content) (over_quota m (length n.content) (length content))
            (some quota, m) (none, record m { used = used; heap = heap })
            (λ _. failed-Wrote name content quota)
            (λ _. (
              same-IsTree m used heap kinds (sym (length-set m.heap id n')) t,
              λ j _ h. sym (kinds j) ∙ h,
              λ _. (
                id,
                n',
                find-set m used id n n' name id n here f
                    ∙ ap (λ (b : Bool). some (id, (if b then n' else n))) itself,
                refl,
                file,
              ),
            ))

  pub write_file-Wrote :
      (name content : Bytes) (perm now : ℕ)
      → is_valid name ≡ true
      → Wrote m name content (write_file name content perm now m)
  unfolding write_file
  write_file-Wrote name content perm now v =
      let new = write_new m (below_parent m name) content perm now in
      rw v (
        tree_cases m t (Wrote m name content) name true
          (λ _ id n. overwrite m id n content perm now) (λ _. new) new (λ e. (some e, m)) v
          (λ id n f. overwrite-Wrote name content perm now id n f)
          (λ free. write_new-Wrote name content perm now (below_parent m name) v free refl)
          (λ e _. failed-Wrote name content e))

  abbrev Made : Bytes → Outcome → Type 0
  Made name out = IsTree out.1 × NoneElse m name out.1

  mkdir_at-Made :
      (name : Bytes) (perm now : ℕ) (d : Result Bytes)
      → is_valid name ≡ true
      → kind_at m name ≡ none
      → below_parent m name ≡ d
      → Made name (mkdir_at m d perm now)
  unfolding mkdir_at alloc
  mkdir_at-Made name perm now (fail e) v free h = (t, λ j _ k. k)
  mkdir_at-Made name perm now (ok r) v free h =
      let (ps, w, proper, is_name, is_r, dir) = below_parent-tree m t name r v free h in
      let n : Node = record {
        kind = directory;
        content = [];
        target = [];
        mode = bit_or mode_dir (perm_bits perm);
        mtime = now;
        links = 1;
      } in
      on_option_cases (Made name) (find m r) (none, alloc m r n) (λ _. (some exist, m))
        (λ _.
          subst (λ s. Made name (none, alloc m s n)) (is_name ∙ sym is_r)
            (
              subst (λ s. IsTree (alloc m s n)) (sym is_name)
                  (alloc-IsTree m t ps w n proper (ap (kind_at m) (sym is_name) ∙ free) dir refl),
              alloc-NoneElse name n m.used,
            ))
        (λ _ _. (t, λ j _ k. k))

  pub mkdir-Made :
      (name : Bytes) (perm now : ℕ) → is_valid name ≡ true → Made name (mkdir name perm now m)
  unfolding mkdir
  mkdir-Made name perm now v = rw v (
      tree_cases m t (Made name) name true (λ _ _ _. (some exist, m)) (λ _. (some exist, m))
        (mkdir_at m (below_parent m name) perm now) (λ e. (some e, m)) v (λ id n f. (t, λ j _ k. k))
        (λ free. mkdir_at-Made name perm now (below_parent m name) v free refl)
        (λ e _. (t, λ j _ k. k)))

-- NewMemory has the root only.
pub new_memory-IsTree : (limit now : ℕ) → IsTree (new_memory limit now)
unfolding new_memory find lookup beq
new_memory-IsTree limit now = record {
  rooted = refl;
  branches = λ ps w k h e. absurd (no_other (name_of (ps ++ w ∷ [])) k (name_of-not_dot ps w h) e);
  in_heap = λ name id e. first name id e;
}
  where
    no_other :
        (j : Bytes) (k : Kind) → beq j dot ≡ false → kind_at (new_memory limit now) j ≡ some k → ⊥
    no_other j k other e = ground (arith, other, e, beq_iff j dot, beq_iff dot j)

    first : (j : Bytes) (id : ℕ) → lookup j (new_memory limit now).nodes ≡ some id → id < 1
    first j id e = ground (arith, e)
