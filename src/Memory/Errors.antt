-- ===== src/Memory/Errors.antt =====
-- What an operation of pkg/fs/memory.go that fails leaves behind.
use gash.Prelude.{ℕ, Bool, [], some, Bytes, ◌⊎◌, ◌≡◌, arith, length, false, true}
use gash.Memory.Node.{Err, quota, ok, Node, Memory, alloc, over_quota}
use gash.Memory.Write.{
  Outcome, below_parent, new_file, create_at, create_file, write_new, overwrite, write_file,
  mkdir_at, mkdir, symlink_at, symlink_file,
}
use gash.Memory.Names.{
  remove_node, remove, remove_all, clear_target, rename_to, rename, link_node, link, touch_node,
  chmod, chtimes,
}
use gash.Memory.History.{
  Op, apply_op, op_create, op_write, op_append, op_mkdir, op_mkdir_all, op_remove, op_remove_all,
  op_rename, op_link, op_symlink, op_chmod, op_chtimes,
}

-- The operations that change nothing when they fail: all but AppendFile and MkdirAll.
abbrev pub is_atomic : Op → Bool
is_atomic (op_append _ _ _ _) = false
is_atomic (op_mkdir_all _ _ _) = false
is_atomic _ = true

module _ (m : Memory) (e : Err) where
  create-keeps :
      (name content : Bytes) (perm now : ℕ)
      → (create_file name content perm now m).0 ≡ some e
      → (create_file name content perm now m).1 ≡ m
  unfolding create_file create_at
  create-keeps name content perm now h = ground arith

  write-keeps :
      (name content : Bytes) (perm now : ℕ)
      → (write_file name content perm now m).0 ≡ some e
      → (write_file name content perm now m).1 ≡ m
  unfolding write_file write_new overwrite
  write-keeps name content perm now h = ground arith

  mkdir-keeps :
      (name : Bytes) (perm now : ℕ)
      → (mkdir name perm now m).0 ≡ some e
      → (mkdir name perm now m).1 ≡ m
  unfolding mkdir mkdir_at
  mkdir-keeps name perm now h = ground arith

  symlink-keeps :
      (target name : Bytes) (now : ℕ)
      → (symlink_file target name now m).0 ≡ some e
      → (symlink_file target name now m).1 ≡ m
  unfolding symlink_file symlink_at
  symlink-keeps target name now h = ground arith

  remove-keeps : (name : Bytes) → (remove name m).0 ≡ some e → (remove name m).1 ≡ m
  unfolding remove remove_node
  remove-keeps name h = ground arith

  remove_all-keeps : (name : Bytes) → (remove_all name m).0 ≡ some e → (remove_all name m).1 ≡ m
  unfolding remove_all
  remove_all-keeps name h = ground arith

  rename-keeps : (old new : Bytes) → (rename old new m).0 ≡ some e → (rename old new m).1 ≡ m
  unfolding rename rename_to clear_target
  rename-keeps old new h = ground arith

  link-keeps : (old new : Bytes) → (link old new m).0 ≡ some e → (link old new m).1 ≡ m
  unfolding link link_node
  link-keeps old new h = ground arith

  chmod-keeps :
      (name : Bytes) (mode now : ℕ)
      → (chmod name mode now m).0 ≡ some e
      → (chmod name mode now m).1 ≡ m
  unfolding chmod touch_node
  chmod-keeps name mode now h = ground arith

  chtimes-keeps :
      (name : Bytes) (mtime : ℕ) → (chtimes name mtime m).0 ≡ some e → (chtimes name mtime m).1 ≡ m
  unfolding chtimes touch_node
  chtimes-keeps name mtime h = ground arith

-- An operation other than AppendFile and MkdirAll that returns an error has changed nothing.
pub apply_op_error :
    (op : Op) (m : Memory) (e : Err)
    → is_atomic op ≡ true
    → (apply_op op m).0 ≡ some e
    → (apply_op op m).1 ≡ m
unfolding apply_op
apply_op_error (op_create name content perm now) m e a h = create-keeps m e name content perm now h
apply_op_error (op_write name content perm now) m e a h = write-keeps m e name content perm now h
apply_op_error (op_append name content perm now) m e a h = cc
apply_op_error (op_mkdir name perm now) m e a h = mkdir-keeps m e name perm now h
apply_op_error (op_mkdir_all name perm now) m e a h = cc
apply_op_error (op_remove name) m e a h = remove-keeps m e name h
apply_op_error (op_remove_all name) m e a h = remove_all-keeps m e name h
apply_op_error (op_rename old new) m e a h = rename-keeps m e old new h
apply_op_error (op_link old new) m e a h = link-keeps m e old new h
apply_op_error (op_symlink target name now) m e a h = symlink-keeps m e target name now h
apply_op_error (op_chmod name mode now) m e a h = chmod-keeps m e name mode now h
apply_op_error (op_chtimes name mtime) m e a h = chtimes-keeps m e name mtime h

-- An outcome that is an error has left the state as it was, or an empty file under a new name
-- where the data was more than the quota allows.
abbrev LeavesEmpty : Memory → Bytes → Bytes → ℕ → ℕ → Outcome → Type 0
LeavesEmpty m name content perm now out =
    (e : Err)
    → out.0 ≡ some e
    → (out.1 ≡ m)
      ⊎ ((r : Bytes) × (below_parent m name ≡ ok r)
          × (e ≡ quota)
          × (over_quota m 0 (length content) ≡ true)
          × (out.1 ≡ alloc m r (new_file [] perm now)))
