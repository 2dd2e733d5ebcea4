-- ===== src/Memory/Quota/Limit.antt =====
-- The limit through the operations of pkg/fs/memory.go.
use gash.Prelude.{
  is_empty, ℕ, List, [], ◌∷◌, Bytes, ◌≡◌, refl, arith, ◌∙◌, if_cases, get_elem?, ◌++◌, on_option,
  if◌then◌else◌, false, beq, not,
}
use gash.Assoc.{Assoc}
use gash.Path.{is_valid}
use gash.Path.Lexical.{slash, dot, split, path_join}
use gash.Memory.Found.{lookup_cases}
use gash.Memory.Node.{Memory, alloc, release}
use gash.Memory.Write.{
  Outcome, create_at, create_file, write_new, overwrite, write_file, append_to, append_new,
  append_file, mkdir_at, mkdir, symlink_at, symlink_file,
}
use gash.Memory.Names.{
  mkdir_parts, mkdir_all, drop_name, remove_node, remove, sweep, remove_all, move_entries,
  clear_target, rename_to, rename, link_node, link, touch_node, chmod, chtimes,
}
use gash.Memory.History.{
  Op, apply_op, run, op_create, op_write, op_append, op_mkdir, op_mkdir_all, op_remove,
  op_remove_all, op_rename, op_link, op_symlink, op_chmod, op_chtimes,
}

module _ (m : Memory) where
  limit-create_file :
      (name content : Bytes) (perm now : ℕ)
      → (create_file name content perm now m).1.limit ≡ m.limit
  unfolding create_file create_at alloc
  limit-create_file name content perm now = ground arith

  limit-write_file :
      (name content : Bytes) (perm now : ℕ) → (write_file name content perm now m).1.limit ≡ m.limit
  unfolding write_file write_new overwrite alloc
  limit-write_file name content perm now = ground arith

  limit-append_file :
      (name content : Bytes) (perm now : ℕ)
      → (append_file name content perm now m).1.limit ≡ m.limit
  unfolding append_file append_new append_to alloc
  limit-append_file name content perm now = ground arith

  limit-mkdir : (name : Bytes) (perm now : ℕ) → (mkdir name perm now m).1.limit ≡ m.limit
  unfolding mkdir mkdir_at alloc
  limit-mkdir name perm now = ground arith

  limit-symlink_file :
      (target name : Bytes) (now : ℕ) → (symlink_file target name now m).1.limit ≡ m.limit
  unfolding symlink_file symlink_at alloc
  limit-symlink_file target name now = ground arith

  limit-remove : (name : Bytes) → (remove name m).1.limit ≡ m.limit
  unfolding remove remove_node drop_name release
  limit-remove name = ground arith

  limit-rename : (old new : Bytes) → (rename old new m).1.limit ≡ m.limit
  unfolding rename rename_to clear_target move_entries drop_name release
  limit-rename old new = ground arith

  limit-link : (old new : Bytes) → (link old new m).1.limit ≡ m.limit
  unfolding link link_node
  limit-link old new = ground arith

  limit-chmod : (name : Bytes) (mode now : ℕ) → (chmod name mode now m).1.limit ≡ m.limit
  unfolding chmod touch_node
  limit-chmod name mode now = ground arith

  limit-chtimes : (name : Bytes) (mtime : ℕ) → (chtimes name mtime m).1.limit ≡ m.limit
  unfolding chtimes touch_node
  limit-chtimes name mtime = ground arith

limit-sweep :
    (name : Bytes) (rest kept : Assoc ℕ) (m : Memory) → (sweep name kept rest m).limit ≡ m.limit
unfolding sweep release
limit-sweep name [] kept m = refl
limit-sweep name ((p, id) ∷ rest) kept m = ground (
  arith,
  limit-sweep name rest (kept ++ (p, id) ∷ []) m,
  limit-sweep name rest kept (on_option (get_elem? m.heap id) m (λ n. release m id n)),
)

limit-mkdir_parts :
    (parts : List Bytes) (cur : Bytes) (perm now : ℕ) (m : Memory)
    → (mkdir_parts cur parts perm now m).1.limit ≡ m.limit
unfolding mkdir_parts
limit-mkdir_parts [] cur perm now m = refl
limit-mkdir_parts (part ∷ parts) cur perm now m =
    let cur' = if is_empty cur then part else path_join cur part in
    ground (
      arith,
      limit-mkdir m cur' perm now,
      limit-mkdir_parts parts cur' perm now (mkdir cur' perm now m).1,
    )

limit-remove_all : (m : Memory) (name : Bytes) → (remove_all name m).1.limit ≡ m.limit
unfolding remove_all
limit-remove_all m name =
    let P = λ (o : Outcome). o.1.limit ≡ m.limit in
    if_cases P (beq name dot) _ _ (λ _. refl)
      λ _.
        if_cases P (not (is_valid name)) _ _ (λ _. refl)
          λ _.
            lookup_cases P m name false _ _ _ _ (λ r _ _ _. limit-sweep r m.nodes [] m)
              (λ r. limit-sweep r m.nodes [] m) refl (λ _. refl)

limit-apply_op : (op : Op) (m : Memory) → (apply_op op m).1.limit ≡ m.limit
unfolding apply_op
limit-apply_op (op_create name content perm now) m = limit-create_file m name content perm now
limit-apply_op (op_write name content perm now) m = limit-write_file m name content perm now
limit-apply_op (op_append name content perm now) m = limit-append_file m name content perm now
limit-apply_op (op_mkdir name perm now) m = limit-mkdir m name perm now
limit-apply_op (op_mkdir_all name perm now) m =
    unfold mkdir_all in ground (arith, limit-mkdir_parts (split slash name) [] perm now m)
limit-apply_op (op_remove name) m = limit-remove m name
limit-apply_op (op_remove_all name) m = limit-remove_all m name
limit-apply_op (op_rename old new) m = limit-rename m old new
limit-apply_op (op_link old new) m = limit-link m old new
limit-apply_op (op_symlink target name now) m = limit-symlink_file m target name now
limit-apply_op (op_chmod name mode now) m = limit-chmod m name mode now
limit-apply_op (op_chtimes name mtime) m = limit-chtimes m name mtime

pub limit-run : (ops : List Op) (m : Memory) → (run ops m).limit ≡ m.limit
unfolding run
limit-run [] m = refl
limit-run (op ∷ ops) m = limit-run ops (apply_op op m).1 ∙ limit-apply_op op m
