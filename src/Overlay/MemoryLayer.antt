-- ===== src/Overlay/MemoryLayer.antt =====
-- The filesystem of pkg/fs/memory.go as a layer of the overlay of pkg/fs/overlay.go.
use gash.Prelude.{ℕ, true, false, List, map, none, some, Bytes, length, ◌⊎◌, inl, inr}
use gash.Memory.Node.{Err, not_exist, exist, Result, ok, fail, Node, Memory}
use gash.Memory.Read
use gash.Memory.Write.{Outcome}
use gash.Memory.Write
use gash.Memory.Names
use gash.Mount.{FileSystem, Info}
use gash.Overlay.{Overlay, ErrorTests}

-- What an operation that reads returned.
abbrev pub answered {ℓ} : {A : Type ℓ} → Result A → Err ⊎ A
answered (ok a) = inr a
answered (fail e) = inl e

-- fileInfo
abbrev pub memory_info : Bytes × Node → Info
memory_info (name, n) = record {
  name = name;
  size = length n.content;
  mode = n.mode;
  mtime = n.mtime;
}

abbrev pub answered_info : Result (Bytes × Node) → Err ⊎ Info
answered_info (ok x) = inr (memory_info x)
answered_info (fail e) = inl e

abbrev pub answered_list : Result (List (Bytes × Node)) → Err ⊎ List Info
answered_list (ok xs) = inr (map memory_info xs)
answered_list (fail e) = inl e

-- The methods of *Memory, while time.Now() is `now`.
abbrev pub memory_system : ℕ → FileSystem Memory Err
memory_system now = record {
  read_file = λ name m. answered (Read.read_file name m);
  stat = λ name m. answered_info (Read.stat name true m);
  read_dir = λ name m. answered_list (Read.read_dir name m);
  lstat = some (λ name m. answered_info (Read.stat name false m));
  create_file = some (λ name content perm m. Write.create_file name content perm now m);
  write_file = some (λ name content perm m. Write.write_file name content perm now m);
  append_file = some (λ name content perm m. Write.append_file name content perm now m);
  mkdir = some (λ name perm m. Write.mkdir name perm now m);
  mkdir_all = some (λ name perm m. Names.mkdir_all name perm now m);
  remove = some Names.remove;
  remove_all = some Names.remove_all;
  rename = some Names.rename;
  link = some Names.link;
  symlink = some (λ target name m. Write.symlink_file target name now m);
  global_symlink = none;
  readlink = some (λ name m. answered (Read.readlink name m));
  virtual_readlink = none;
  scoped_virtual_readlink = none;
  chmod = some (λ name mode m. Names.chmod name mode now m);
  chtimes = some (λ name atime mtime m. Names.chtimes name mtime m);
}

-- errors.Is on the errors of memory.go.
abbrev pub memory_tests : ErrorTests Err
memory_tests = record {
  not_exist_test = λ e. elim e [ not_exist ↦ true | _ ↦ false ];
  exist_test = λ e. elim e [ exist ↦ true | _ ↦ false ];
  read_only_test = λ e. false;
}

module _ {L : Type 0} (now : ℕ) (lower : FileSystem L Err) (lower_state : L) where
  -- NewOverlay of a memory and any lower layer
  abbrev pub over_memory : Overlay Memory L Err
  over_memory = record {
    upper = memory_system now;
    lower = lower;
    lower_state = lower_state;
    tests = memory_tests;
  }
