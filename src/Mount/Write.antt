-- ===== src/Mount/Write.antt =====
-- pkg/fs/mount_write.go: the operations of a combined namespace that change it, and its links.
-- Each reaches the filesystem that the name is routed to, if that has the capability.
use gash.Prelude.{
  ℕ, Bool, not, ◌&&◌, ◌||◌, ◌∷◌, Option, none, some, Bytes, beq, is_empty, drop, has_prefix,
  if◌then◌else◌, on_option, ◌⊎◌, inl, inr,
}
use gash.Path.{fs_name}
use gash.Path.Lexical.{slash, root, path_join}
use gash.Mount.{
  MountError, filesystem_error, read_only, busy, exist, cross_device, Mountable, is_mount_point,
  route, has_virtual_dir,
}

-- What a filesystem that is read returned.
abbrev pub read_from {ℓ} : {A : Type ℓ} {E : Type 0} → E ⊎ A → MountError E ⊎ A
read_from (inl e) = inl (filesystem_error e)
read_from (inr a) = inr a

-- The target of a link in the filesystem of a mount point: absolute and local, it is below the
-- mount point.
unfoldable pub rebased : Bytes → Bytes × Bool → Bytes
rebased mount_point (target, global) =
    if global || not (has_prefix target root) || is_empty mount_point
    then target
    else slash ∷ path_join mount_point (drop 1 target)

abbrev rebased_result : {E : Type 0} → Bytes → E ⊎ (Bytes × Bool) → MountError E ⊎ Bytes
rebased_result mount_point (inl e) = inl (filesystem_error e)
rebased_result mount_point (inr t) = inr (rebased mount_point t)

module _ {S E : Type 0} where
  -- The error that a filesystem returned, if any.
  abbrev pub passed_on : Option E × S → Option (MountError E) × S
  passed_on (none, s) = (none, s)
  passed_on (some e, s) = (some (filesystem_error e), s)

  -- f, ok := filesystem.(Capability); if !ok { return ErrReadOnly }
  abbrev pub through : Option (S → Option E × S) → S → Option (MountError E) × S
  through none s = (some read_only, s)
  through (some f) s = passed_on (f s)

  abbrev pub applied {ℓ} :
      {A : Type ℓ} → Option (A → S → Option E × S) → A → Option (S → Option E × S)
  applied none a = none
  applied (some f) a = some (f a)

  -- CreateFile(name, data, perm)
  unfoldable pub create_file : Bytes → Bytes → ℕ → Mountable S E → S → Option (MountError E) × S
  create_file name content perm m =
      let r = route name m in
      through (on_option r.0.create_file none λ f. some (f r.1 content perm))

  -- WriteFile(name, data, perm)
  unfoldable pub write_file : Bytes → Bytes → ℕ → Mountable S E → S → Option (MountError E) × S
  write_file name content perm m =
      let r = route name m in through (on_option r.0.write_file none λ f. some (f r.1 content perm))

  -- AppendFile(name, data, perm)
  unfoldable pub append_file : Bytes → Bytes → ℕ → Mountable S E → S → Option (MountError E) × S
  append_file name content perm m =
      let r = route name m in
      through (on_option r.0.append_file none λ f. some (f r.1 content perm))

  -- Mkdir(name, perm)
  unfoldable pub mkdir : Bytes → ℕ → Mountable S E → S → Option (MountError E) × S
  mkdir name perm m s =
      let r = route (fs_name name) m in
      if is_mount_point (fs_name name) m
      then (some exist, s)
      else through (on_option r.0.mkdir none λ f. some (f r.1 perm)) s

  -- MkdirAll(name, perm)
  unfoldable pub mkdir_all : Bytes → ℕ → Mountable S E → S → Option (MountError E) × S
  mkdir_all name perm m s =
      let r = route (fs_name name) m in
      if is_mount_point (fs_name name) m || has_virtual_dir (fs_name name) m
      then (none, s)
      else through (on_option r.0.mkdir_all none λ f. some (f r.1 perm)) s

  -- Remove(name)
  unfoldable pub remove : Bytes → Mountable S E → S → Option (MountError E) × S
  remove name m s =
      let r = route (fs_name name) m in
      if is_mount_point (fs_name name) m || has_virtual_dir (fs_name name) m
      then (some busy, s)
      else through (applied r.0.remove r.1) s

  -- RemoveAll(name)
  unfoldable pub remove_all : Bytes → Mountable S E → S → Option (MountError E) × S
  remove_all name m s =
      let r = route (fs_name name) m in
      if is_mount_point (fs_name name) m || has_virtual_dir (fs_name name) m
      then (some busy, s)
      else through (applied r.0.remove_all r.1) s

  -- Readlink(name)
  unfoldable pub readlink : Bytes → Mountable S E → S → MountError E ⊎ Bytes
  readlink name m s =
      let r = route name m in on_option r.0.readlink (inl read_only) λ f. read_from (f r.1 s)

  -- VirtualReadlink(name)
  unfoldable pub virtual_readlink : Bytes → Mountable S E → S → MountError E ⊎ Bytes
  virtual_readlink name m s =
      let r = route name m in
      on_option r.0.scoped_virtual_readlink
        (on_option r.0.virtual_readlink (readlink name m s) λ f. read_from (f r.1 s))
        (λ f. rebased_result r.2 (f r.1 s))

  -- Symlink(target, name)
  unfoldable pub symlink : Bytes → Bytes → Mountable S E → S → Option (MountError E) × S
  symlink target name m =
      let r = route name m in
      let plain : Option (S → Option E × S) = on_option r.0.symlink none λ f. some (f target r.1) in
      through (
        if not (is_empty r.2) && has_prefix target root
        then on_option r.0.global_symlink plain (λ f. some (f target r.1))
        else plain)

  -- Chmod(name, mode)
  unfoldable pub chmod : Bytes → ℕ → Mountable S E → S → Option (MountError E) × S
  chmod name mode m =
      let r = route name m in through (on_option r.0.chmod none λ f. some (f r.1 mode))

  -- Chtimes(name, atime, mtime)
  unfoldable pub chtimes : Bytes → ℕ → ℕ → Mountable S E → S → Option (MountError E) × S
  chtimes name atime mtime m =
      let r = route name m in through (on_option r.0.chtimes none λ f. some (f r.1 atime mtime))

  -- Link(oldName, newName)
  unfoldable pub link : Bytes → Bytes → Mountable S E → S → Option (MountError E) × S
  link old_name new_name m s =
      let old = route old_name m in
      let new = route new_name m in
      if not (beq old.2 new.2)
      then (some cross_device, s)
      else through (on_option old.0.link none λ f. some (f old.1 new.1)) s

  -- The part of Rename(oldName, newName) before it copies: `none` where it goes on to copy from
  -- one filesystem to another.
  unfoldable pub rename_within :
      Bytes → Bytes → Mountable S E → S → Option (Option (MountError E) × S)
  rename_within old_name new_name m s =
      let old = route (fs_name old_name) m in
      let new = route (fs_name new_name) m in
      if is_mount_point (fs_name old_name) m || has_virtual_dir (fs_name old_name) m
      then some (some busy, s)
      else if beq old.2 new.2
      then some (through (on_option old.0.rename none λ f. some (f old.1 new.1)) s)
      else none
