-- ===== src/Capabilities.antt =====
-- pkg/fs/capabilities.go: the calls that reach a filesystem under a virtual name, and /dev/null.
pub mod Laws
mod Samples
use gash.Prelude.{
  ℕ, Bool, true, false, [], ◌∷◌, Option, none, some, Bytes, codes, beq, if◌then◌else◌, on_option,
  ◌⊎◌, inl, inr, List,
}
use gash.Path.{fs_name}
use gash.Path.Lexical.{dot}
use gash.Mount.{FileSystem, Info}

pub data AccessError (E : Type 0) : Type 0 where
  filesystem_error : E → AccessError E
  read_only unsupported exist : AccessError E

abbrev pub dev_null : Bytes
dev_null = codes "dev/null"

-- What Stat reports of /dev/null.
pub data Status : Type 0 where
  null_info : Status
  file_info : Info → Status

-- An error of the filesystem, or its result.
abbrev pub answer {ℓ} : {A : Type ℓ} {E : Type 0} → E ⊎ A → AccessError E ⊎ A
answer (inl e) = inl (filesystem_error e)
answer (inr a) = inr a

abbrev pub status_of : {E : Type 0} → E ⊎ Info → AccessError E ⊎ Status
status_of (inl e) = inl (filesystem_error e)
status_of (inr i) = inr (file_info i)

module _ {S E : Type 0} where
  abbrev pub changed : Option E × S → Option (AccessError E) × S
  changed (none, s) = (none, s)
  changed (some e, s) = (some (filesystem_error e), s)

  -- ReadFile(fsys, name)
  unfoldable pub read_file : FileSystem S E → Bytes → S → AccessError E ⊎ Bytes
  read_file fs name s =
      if beq (fs_name name) dev_null then inr [] else answer (fs.read_file (fs_name name) s)

  -- ReadDir(fsys, name)
  unfoldable pub read_dir : FileSystem S E → Bytes → S → AccessError E ⊎ List Info
  read_dir fs name s = answer (fs.read_dir (fs_name name) s)

  -- Stat(fsys, name)
  unfoldable pub stat : FileSystem S E → Bytes → S → AccessError E ⊎ Status
  stat fs name s =
      if beq (fs_name name) dev_null then inr null_info else status_of (fs.stat (fs_name name) s)

  -- Lstat(fsys, name)
  unfoldable pub lstat : FileSystem S E → Bytes → S → AccessError E ⊎ Status
  lstat fs name s =
      if beq (fs_name name) dev_null
      then inr null_info
      else status_of (on_option fs.lstat (fs.stat (fs_name name) s) λ f. f (fs_name name) s)

  -- Readlink(fsys, name)
  unfoldable pub readlink : FileSystem S E → Bytes → S → AccessError E ⊎ Bytes
  readlink fs name s = on_option fs.readlink (inl unsupported) λ f. answer (f (fs_name name) s)

  -- VirtualReadlink(fsys, name)
  unfoldable pub virtual_readlink : FileSystem S E → Bytes → S → AccessError E ⊎ Bytes
  virtual_readlink fs name s =
      on_option fs.virtual_readlink (readlink fs name s) λ f. answer (f (fs_name name) s)

  -- CreateFile(fsys, name, data, perm)
  unfoldable pub create_file : FileSystem S E → Bytes → Bytes → ℕ → S → Option (AccessError E) × S
  create_file fs name content perm s =
      if beq (fs_name name) dev_null
      then (some exist, s)
      else on_option fs.create_file (some read_only, s)
          λ f. changed (f (fs_name name) content perm s)

  -- WriteFile(fsys, name, data, perm)
  unfoldable pub write_file : FileSystem S E → Bytes → Bytes → ℕ → S → Option (AccessError E) × S
  write_file fs name content perm s =
      if beq (fs_name name) dev_null
      then (none, s)
      else on_option fs.write_file (some read_only, s)
          λ f. changed (f (fs_name name) content perm s)

  -- AppendFile(fsys, name, data, perm)
  unfoldable pub append_file : FileSystem S E → Bytes → Bytes → ℕ → S → Option (AccessError E) × S
  append_file fs name content perm s =
      if beq (fs_name name) dev_null
      then (none, s)
      else on_option fs.append_file (some read_only, s)
          λ f. changed (f (fs_name name) content perm s)

  -- Mkdir(fsys, name, perm)
  unfoldable pub mkdir : FileSystem S E → Bytes → ℕ → S → Option (AccessError E) × S
  mkdir fs name perm s =
      on_option fs.mkdir (some read_only, s) λ f. changed (f (fs_name name) perm s)

  -- MkdirAll(fsys, name, perm)
  unfoldable pub mkdir_all : FileSystem S E → Bytes → ℕ → S → Option (AccessError E) × S
  mkdir_all fs name perm s =
      on_option fs.mkdir_all (if beq (fs_name name) dot then (none, s) else (some read_only, s))
        λ f. changed (f (fs_name name) perm s)

  -- Remove(fsys, name)
  unfoldable pub remove : FileSystem S E → Bytes → S → Option (AccessError E) × S
  remove fs name s = on_option fs.remove (some read_only, s) λ f. changed (f (fs_name name) s)

  -- RemoveAll(fsys, name)
  unfoldable pub remove_all : FileSystem S E → Bytes → S → Option (AccessError E) × S
  remove_all fs name s =
      on_option fs.remove_all (some read_only, s) λ f. changed (f (fs_name name) s)

  -- Rename(fsys, oldName, newName)
  unfoldable pub rename : FileSystem S E → Bytes → Bytes → S → Option (AccessError E) × S
  rename fs old_name new_name s =
      on_option fs.rename (some read_only, s)
        λ f. changed (f (fs_name old_name) (fs_name new_name) s)

  -- Symlink(fsys, target, name)
  unfoldable pub symlink : FileSystem S E → Bytes → Bytes → S → Option (AccessError E) × S
  symlink fs target name s =
      on_option fs.symlink (some read_only, s) λ f. changed (f target (fs_name name) s)

  -- Chmod(fsys, name, mode)
  unfoldable pub chmod : FileSystem S E → Bytes → ℕ → S → Option (AccessError E) × S
  chmod fs name mode s =
      on_option fs.chmod (some read_only, s) λ f. changed (f (fs_name name) mode s)

  -- Link(fsys, oldName, newName)
  unfoldable pub link : FileSystem S E → Bytes → Bytes → S → Option (AccessError E) × S
  link fs old_name new_name s =
      on_option fs.link (some read_only, s) λ f. changed (f (fs_name old_name) (fs_name new_name) s)

  -- Chtimes(fsys, name, atime, mtime)
  unfoldable pub chtimes : FileSystem S E → Bytes → ℕ → ℕ → S → Option (AccessError E) × S
  chtimes fs name atime mtime s =
      on_option fs.chtimes (some read_only, s) λ f. changed (f (fs_name name) atime mtime s)
