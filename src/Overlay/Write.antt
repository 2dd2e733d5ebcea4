-- ===== src/Overlay/Write.antt =====
-- The changes of pkg/fs/overlay.go that create an entry or change one: they are made in the upper
-- layer, behind its parent directories and, where the entry is kept, behind its copy.
use gash.Prelude.{
  ℕ, Bool, true, not, Option, none, some, Bytes, has_prefix, if◌then◌else◌, on_option, ◌⊎◌, inl,
  inr,
}
use gash.Path.{fs_name}
use gash.Path.Lexical.{root}
use gash.Capabilities
use gash.Memory.Node.{perm_bits}
use gash.Overlay.{
  Overlay, OverlayError, already_exists, invalid, not_exist, is_not_exist, on_result, done, ◌>>◌,
}
use gash.Overlay.Names.{rejects_whiteout}
use gash.Overlay.View.{upper_lstat, whited_out, lstat}
use gash.Overlay.Dirs.{walk_dirs, prepare_write, clear_whiteout}
use gash.Overlay.CopyUp.{stored_target, scoped_readlink, copy_up}

module _ {U L E : Type 0} (o : Overlay U L E) where
  -- What follows where Lstat finds no entry: any of its errors is taken as that.
  abbrev pub if_absent : Bytes → (U → Option (OverlayError E) × U) → U → Option (OverlayError E) × U
  if_absent name f u = on_result (lstat o name u) (λ _. f u) (λ _. (some already_exists, u))

  -- A change that shows a hidden name again.
  abbrev pub revealed : Bytes → U → Option (OverlayError E) × U
  revealed name u = (none, clear_whiteout o name u)

  -- CreateFile(name, data, perm)
  unfoldable pub create_file : Bytes → Bytes → ℕ → U → Option (OverlayError E) × U
  create_file text content perm u =
      let name = fs_name text in
      prepare_write o name u >> λ v.
      on_result (lstat o name v)
        (λ e.
          if not (is_not_exist o.tests e)
          then (some e, v)
          else done (Capabilities.create_file o.upper name content perm v) >> revealed name)
        (λ _. (some already_exists, v))

  -- WriteFile(name, data, perm)
  unfoldable pub write_file : Bytes → Bytes → ℕ → U → Option (OverlayError E) × U
  write_file text content perm u =
      let name = fs_name text in
      prepare_write o name u >> λ v.
      done (Capabilities.write_file o.upper name content perm v) >> revealed name

  -- AppendFile(name, data, perm)
  unfoldable pub append_file : Bytes → Bytes → ℕ → U → Option (OverlayError E) × U
  append_file text content perm u =
      let name = fs_name text in
      prepare_write o name u >> copy_up o name >> λ v.
      done (Capabilities.append_file o.upper name content perm v) >> revealed name

  -- Mkdir(name, perm): a marker of the name is kept
  unfoldable pub mkdir : Bytes → ℕ → U → Option (OverlayError E) × U
  mkdir text perm u =
      let name = fs_name text in
      prepare_write o name u >> if_absent name (λ v. done (Capabilities.mkdir o.upper name perm v))

  -- MkdirAll(name, perm), with materializeDirs
  unfoldable pub mkdir_all : Bytes → ℕ → U → Option (OverlayError E) × U
  mkdir_all text perm u =
      let name = fs_name text in
      if rejects_whiteout name then (some invalid, u) else walk_dirs o name (perm_bits perm) true u

  -- Symlink(target, name)
  unfoldable pub symlink : Bytes → Bytes → U → Option (OverlayError E) × U
  symlink target text u =
      let name = fs_name text in
      prepare_write o name u
      >> if_absent name (λ v. done (Capabilities.symlink o.upper target name v) >> revealed name)

  -- GlobalSymlink(target, name)
  unfoldable pub global_symlink : Bytes → Bytes → U → Option (OverlayError E) × U
  global_symlink target text u =
      let name = fs_name text in
      if not (has_prefix target root)
      then (some invalid, u)
      else (prepare_write o name u
          >> if_absent name (λ v.
            on_option o.upper.global_symlink
              (done (Capabilities.symlink o.upper (stored_target target) name v))
              (λ f. done (Capabilities.changed (f target name v)))
            >> revealed name))

  -- ScopedVirtualReadlink(name)
  unfoldable pub scoped_virtual_readlink : Bytes → U → OverlayError E ⊎ (Bytes × Bool)
  scoped_virtual_readlink text u =
      let name = fs_name text in
      if rejects_whiteout name
      then inl invalid
      else on_result (upper_lstat o name u)
          (λ e.
            if not (is_not_exist o.tests e)
            then inl e
            else if whited_out o name u
            then inl not_exist
            else scoped_readlink o.lower name o.lower_state)
          (λ _. scoped_readlink o.upper name u)

  -- Readlink(name), VirtualReadlink(name)
  unfoldable pub readlink : Bytes → U → OverlayError E ⊎ Bytes
  readlink text u = on_result (scoped_virtual_readlink text u) inl (λ t. inr t.0)

  -- Chmod(name, mode)
  unfoldable pub chmod : Bytes → ℕ → U → Option (OverlayError E) × U
  chmod text mode u =
      let name = fs_name text in
      prepare_write o name u >> copy_up o name >> λ v. done (Capabilities.chmod o.upper name mode v)

  -- Link(oldName, newName)
  unfoldable pub link : Bytes → Bytes → U → Option (OverlayError E) × U
  link old_text new_text u =
      let old_name = fs_name old_text in
      let new_name = fs_name new_text in
      if rejects_whiteout old_name
      then (some invalid, u)
      else (prepare_write o new_name u >> copy_up o old_name >> λ v.
          done (Capabilities.link o.upper old_name new_name v) >> revealed new_name)

  -- Chtimes(name, atime, mtime)
  unfoldable pub chtimes : Bytes → ℕ → ℕ → U → Option (OverlayError E) × U
  chtimes text atime mtime u =
      let name = fs_name text in
      prepare_write o name u >> copy_up o name >> λ v.
      done (Capabilities.chtimes o.upper name atime mtime v)
