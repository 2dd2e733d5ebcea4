-- ===== src/Memory/History.antt =====
-- Histories of the in-memory filesystem: the mutating operations of pkg/fs/memory.go as data, run
-- one after the other. Each holds the lock for its whole body, so concurrent callers yield some
-- such sequence; MkdirAll locks once for each Mkdir and is given as its Mkdir calls as well.
use gash.Prelude.{ℕ, List, [], ◌∷◌, Bytes}
use gash.Memory.Node.{Memory}
use gash.Memory.Write.{Outcome, create_file, write_file, append_file, mkdir, symlink_file}
use gash.Memory.Names.{mkdir_all, remove, remove_all, rename, link, chmod, chtimes}

pub data Op : Type 0 where
  op_create op_write op_append : Bytes → Bytes → ℕ → ℕ → Op
  op_mkdir op_mkdir_all : Bytes → ℕ → ℕ → Op
  op_remove op_remove_all : Bytes → Op
  op_rename op_link : Bytes → Bytes → Op
  op_symlink : Bytes → Bytes → ℕ → Op
  op_chmod : Bytes → ℕ → ℕ → Op
  op_chtimes : Bytes → ℕ → Op

unfoldable pub apply_op : Op → Memory → Outcome
apply_op (op_create name content perm now) m = create_file name content perm now m
apply_op (op_write name content perm now) m = write_file name content perm now m
apply_op (op_append name content perm now) m = append_file name content perm now m
apply_op (op_mkdir name perm now) m = mkdir name perm now m
apply_op (op_mkdir_all name perm now) m = mkdir_all name perm now m
apply_op (op_remove name) m = remove name m
apply_op (op_remove_all name) m = remove_all name m
apply_op (op_rename old new) m = rename old new m
apply_op (op_link old new) m = link old new m
apply_op (op_symlink target name now) m = symlink_file target name now m
apply_op (op_chmod name mode now) m = chmod name mode now m
apply_op (op_chtimes name mtime) m = chtimes name mtime m

-- An operation that fails is followed by the next one all the same.
unfoldable pub run : List Op → Memory → Memory
run [] m = m
run (op ∷ ops) m = run ops (apply_op op m).1
