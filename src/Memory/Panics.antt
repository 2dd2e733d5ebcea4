-- ===== src/Memory/Panics.antt =====
-- The nil pointers that pkg/fs/memory.go could dereference.
use gash.Prelude.{
  is_empty, ℕ, Bool, true, false, not, List, [], ◌∷◌, none, some, Bytes, ◌≢◌, arith, if◌then◌else◌,
  inl, inr, length, get_elem?, get_elem?-last, get_elem?-append, get_elem?-lt, Option-cases,
  if_cases, on_option_cases,
}
use gash.Assoc.{lookup, lookup-put}
use gash.Path.{is_valid, parent}
use gash.Path.Lexical.{slash, dot, split, path_join}
use gash.Memory.Node.{panic, Result, ok, fail, Node, Memory, find, alloc}
use gash.Memory.Write.{
  Outcome, below_parent, create_at, create_file, write_new, overwrite, write_file, append_to,
  append_new, append_file, mkdir_at, mkdir, symlink_at, symlink_file,
}
use gash.Memory.Names.{
  mkdir_parts, mkdir_all, remove_node, remove, remove_all, clear_target, rename_to, rename,
  link_node, link, touch_node, chmod, chtimes,
}
use gash.Memory.Read.{node_at, read_file, stat, readlink, read_dir, open_file}
use gash.Memory.History.{
  Op, apply_op, op_create, op_write, op_append, op_mkdir, op_mkdir_all, op_remove, op_remove_all,
  op_rename, op_link, op_symlink, op_chmod, op_chtimes,
}
use gash.Memory.Found.{lookup_cases}
use gash.Memory.Total.{is_nil-resolve_locked}

module _ (m : Memory) (there : find m dot ≢ none) where
  below_parent-ne-panic : (name : Bytes) → below_parent m name ≢ fail panic
  unfolding below_parent
  below_parent-ne-panic name h = ground (arith, is_nil-resolve_locked m (parent name) true there)

  create_file-ne-panic :
      (name content : Bytes) (perm now : ℕ) → (create_file name content perm now m).0 ≢ some panic
  unfolding create_file create_at
  create_file-ne-panic name content perm now h =
      ground (arith, is_nil-resolve_locked m name false there, below_parent-ne-panic name)

  write_file-ne-panic :
      (name content : Bytes) (perm now : ℕ) → (write_file name content perm now m).0 ≢ some panic
  unfolding write_file write_new overwrite
  write_file-ne-panic name content perm now h =
      ground (arith, is_nil-resolve_locked m name true there, below_parent-ne-panic name)

  append_file-ne-panic :
      (name content : Bytes) (perm now : ℕ) → (append_file name content perm now m).0 ≢ some panic
  unfolding append_file append_new append_to
  append_file-ne-panic name content perm now h =
      ground (arith, is_nil-resolve_locked m name true there, below_parent-ne-panic name)

  mkdir-ne-panic : (name : Bytes) (perm now : ℕ) → (mkdir name perm now m).0 ≢ some panic
  unfolding mkdir mkdir_at
  mkdir-ne-panic name perm now h =
      ground (arith, is_nil-resolve_locked m name true there, below_parent-ne-panic name)

  symlink_file-ne-panic :
      (target name : Bytes) (now : ℕ) → (symlink_file target name now m).0 ≢ some panic
  unfolding symlink_file symlink_at
  symlink_file-ne-panic target name now h =
      ground (arith, is_nil-resolve_locked m name false there, below_parent-ne-panic name)

  remove-ne-panic : (name : Bytes) → (remove name m).0 ≢ some panic
  unfolding remove remove_node
  remove-ne-panic name h = ground (arith, is_nil-resolve_locked m name false there)

  remove_all-ne-panic : (name : Bytes) → (remove_all name m).0 ≢ some panic
  unfolding remove_all
  remove_all-ne-panic name h = ground (arith, is_nil-resolve_locked m name false there)

  rename-ne-panic : (old new : Bytes) → (rename old new m).0 ≢ some panic
  unfolding rename rename_to clear_target
  rename-ne-panic old new h =
      ground (arith, is_nil-resolve_locked m old false there, below_parent-ne-panic new)

  link-ne-panic : (old new : Bytes) → (link old new m).0 ≢ some panic
  unfolding link link_node
  link-ne-panic old new h = ground (arith, is_nil-resolve_locked m old true there)

  touch_node-ne-panic : (f : Node → Node) (name : Bytes) → (touch_node f name m).0 ≢ some panic
  unfolding touch_node
  touch_node-ne-panic f name h = ground (arith, is_nil-resolve_locked m name true there)

  node_at-ne-panic : (name : Bytes) (follow : Bool) → node_at m name follow ≢ fail panic
  unfolding node_at
  node_at-ne-panic name follow h = ground (arith, is_nil-resolve_locked m name follow there)

  -- While the root has a node, no read of any name dereferences a nil node.
  pub reads-ne-panic :
      (name : Bytes) (follow : Bool)
      → (read_file name m ≢ fail panic)
        × (stat name follow m ≢ fail panic)
        × (readlink name m ≢ fail panic)
        × (read_dir name m ≢ fail panic)
        × (open_file name m ≢ fail panic)
  unfolding read_file stat readlink read_dir open_file
  reads-ne-panic name follow = (
    λ h. ground (arith, node_at-ne-panic name true),
    λ h. ground (arith, node_at-ne-panic name follow),
    λ h. ground (arith, node_at-ne-panic name false),
    λ h. ground (arith, node_at-ne-panic name true),
    λ h. ground (arith, node_at-ne-panic name true),
  )

-- A new entry hides no other.
find-alloc :
    (m : Memory) (name : Bytes) (n : Node) (k : Bytes)
    → find m k ≢ none
    → find (alloc m name n) k ≢ none
unfolding find alloc
find-alloc m name n k there h = elim (Option-cases (lookup k m.nodes)) [
  | inl e ↦ there (rw (e, find))
  | inr (id, e) ↦ elim (Option-cases (get_elem? m.heap id)) [
    | inl g ↦ there (rw (e, g, find))
    | inr (x, g) ↦ ground (
      arith,
      lookup-put name k (length m.heap) m.nodes,
      e,
      g,
      get_elem?-last m.heap n,
      get_elem?-append m.heap id (n ∷ []) (get_elem?-lt m.heap id g),
    )
  ]
]

mkdir-keeps :
    (m : Memory) (k name : Bytes) (perm now : ℕ)
    → find m k ≢ none
    → find (mkdir name perm now m).1 k ≢ none
unfolding mkdir
mkdir-keeps m k name perm now there =
    if_cases P (not (is_valid name)) _ _ (λ _. there)
      λ _.
        lookup_cases P m name true _ _ _ _ (λ _ _ _ _. there) (λ _. there)
          (at (below_parent m name)) (λ _. there)
  where
    P : Outcome → Type 0
    P o = find o.1 k ≢ none

    at : (r : Result Bytes) → P (mkdir_at m r perm now)
    at (fail e) = unfold mkdir_at in there
    at (ok r) =
        unfold mkdir_at in
        on_option_cases P (find m r) _ _ (λ _. find-alloc m r _ k there) (λ _ _. there)

mkdir_parts-ne-panic :
    (parts : List Bytes) (cur : Bytes) (perm now : ℕ) (m : Memory)
    → find m dot ≢ none
    → (mkdir_parts cur parts perm now m).0 ≢ some panic
unfolding mkdir_parts
mkdir_parts-ne-panic [] cur perm now m t h = cc
mkdir_parts-ne-panic (part ∷ parts) cur perm now m t h =
    let cur' = if is_empty cur then part else path_join cur part in
    let made = mkdir cur' perm now m in
    ground (
      arith,
      mkdir-ne-panic m t cur' perm now,
      mkdir_parts-ne-panic parts cur' perm now made.1 (mkdir-keeps m dot cur' perm now t),
    )

mkdir_all-ne-panic :
    (m : Memory) (t : find m dot ≢ none) (name : Bytes) (perm now : ℕ)
    → (mkdir_all name perm now m).0 ≢ some panic
unfolding mkdir_all
mkdir_all-ne-panic m t name perm now h =
    ground (arith, mkdir_parts-ne-panic (split slash name) [] perm now m t)

-- While the root has a node, no operation that changes the filesystem dereferences a nil node.
pub apply_op-ne-panic : (op : Op) (m : Memory) → find m dot ≢ none → (apply_op op m).0 ≢ some panic
unfolding apply_op
apply_op-ne-panic (op_create name content perm now) m t =
    create_file-ne-panic m t name content perm now
apply_op-ne-panic (op_write name content perm now) m t =
    write_file-ne-panic m t name content perm now
apply_op-ne-panic (op_append name content perm now) m t =
    append_file-ne-panic m t name content perm now
apply_op-ne-panic (op_mkdir name perm now) m t = mkdir-ne-panic m t name perm now
apply_op-ne-panic (op_mkdir_all name perm now) m t = mkdir_all-ne-panic m t name perm now
apply_op-ne-panic (op_remove name) m t = remove-ne-panic m t name
apply_op-ne-panic (op_remove_all name) m t = remove_all-ne-panic m t name
apply_op-ne-panic (op_rename old new) m t = rename-ne-panic m t old new
apply_op-ne-panic (op_link old new) m t = link-ne-panic m t old new
apply_op-ne-panic (op_symlink target name now) m t = symlink_file-ne-panic m t target name now
apply_op-ne-panic (op_chmod name mode now) m t = unfold chmod in touch_node-ne-panic m t _ name
apply_op-ne-panic (op_chtimes name mtime) m t = unfold chtimes in touch_node-ne-panic m t _ name
