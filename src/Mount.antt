-- ===== src/Mount.antt =====
-- pkg/fs/mount.go: a namespace that is combined from filesystems. The capabilities of a filesystem
-- are the interfaces of pkg/fs/capabilities.go; a capability that an implementation may lack is an
-- option. All filesystems work on one state `S`, so that two mounts may share theirs; `E` are the
-- errors they return.
pub mod Route
pub mod Write
pub mod Points
pub mod Laws
pub mod Busy
mod Samples
use gash.Prelude.{
  ℕ, ◌+◌, ◌^◌, Bool, true, false, not, ◌&&◌, ◌||◌, List, [], ◌∷◌, ◌++◌, Option, none, some, Bytes,
  codes, beq, has_prefix, trim_prefix, length, any, is_empty, ltb, if◌then◌else◌, on_option, ◌⊎◌,
  inl, inr,
}
use gash.Assoc.{Assoc, lookup, put, delete}
use gash.Path.{fs_name, is_valid}
use gash.Path.Lexical.{slash, dot, dotdot, root, split, base, path_join}
use gash.Memory.Read.{text_lt}

pub record Info : Type 0 where
  pub name : Bytes
  pub size : ℕ
  pub mode : ℕ
  pub mtime : ℕ

-- A file system of io/fs with the capabilities that it has.
pub record FileSystem (S E : Type 0) : Type 0 where
  pub read_file : Bytes → S → E ⊎ Bytes
  pub stat : Bytes → S → E ⊎ Info
  pub read_dir : Bytes → S → E ⊎ List Info
  pub lstat : Option (Bytes → S → E ⊎ Info)
  pub create_file : Option (Bytes → Bytes → ℕ → S → Option E × S)
  pub write_file : Option (Bytes → Bytes → ℕ → S → Option E × S)
  pub append_file : Option (Bytes → Bytes → ℕ → S → Option E × S)
  pub mkdir : Option (Bytes → ℕ → S → Option E × S)
  pub mkdir_all : Option (Bytes → ℕ → S → Option E × S)
  pub remove : Option (Bytes → S → Option E × S)
  pub remove_all : Option (Bytes → S → Option E × S)
  pub rename : Option (Bytes → Bytes → S → Option E × S)
  pub link : Option (Bytes → Bytes → S → Option E × S)
  pub symlink : Option (Bytes → Bytes → S → Option E × S)
  pub global_symlink : Option (Bytes → Bytes → S → Option E × S)
  pub readlink : Option (Bytes → S → E ⊎ Bytes)
  pub virtual_readlink : Option (Bytes → S → E ⊎ Bytes)
  pub scoped_virtual_readlink : Option (Bytes → S → E ⊎ (Bytes × Bool))
  pub chmod : Option (Bytes → ℕ → S → Option E × S)
  pub chtimes : Option (Bytes → ℕ → ℕ → S → Option E × S)

-- A filesystem that can be read only, as those of os.DirFS and embed.FS.
abbrev pub read_only_system :
    {S E : Type 0}
    → (Bytes → S → E ⊎ Bytes)
    → (Bytes → S → E ⊎ Info)
    → (Bytes → S → E ⊎ List Info)
    → FileSystem S E
read_only_system reads stats lists = record {
  read_file = reads;
  stat = stats;
  read_dir = lists;
  lstat = none;
  create_file = none;
  write_file = none;
  append_file = none;
  mkdir = none;
  mkdir_all = none;
  remove = none;
  remove_all = none;
  rename = none;
  link = none;
  symlink = none;
  global_symlink = none;
  readlink = none;
  virtual_readlink = none;
  scoped_virtual_readlink = none;
  chmod = none;
  chtimes = none;
}

pub data MountError (E : Type 0) : Type 0 where
  filesystem_error : E → MountError E
  invalid read_only busy exist not_exist cross_device dot_segment at_root : MountError E

pub record Mountable (S E : Type 0) : Type 0 where
  pub base_fs : FileSystem S E
  pub mounts : Assoc (FileSystem S E)

-- name == point || strings.HasPrefix(name, point+"/")
unfoldable pub covers : Bytes → Bytes → Bool
covers point name = beq name point || has_prefix name (point ++ slash ∷ [])

-- The name in the filesystem of a mount point.
unfoldable pub relative_to : Bytes → Bytes → Bytes
relative_to best name =
    let relative = trim_prefix (trim_prefix name best) root in
    if is_empty relative then dot else relative

-- The set of names, in order.
unfoldable pub insert_name : Bytes → List Bytes → List Bytes
insert_name n [] = n ∷ []
insert_name n (k ∷ ks) =
    let rest = insert_name n ks in
    if beq n k then k ∷ ks else if text_lt k n then k ∷ rest else n ∷ k ∷ ks

-- strings.Split(rest, "/")[0]
abbrev pub first_part : List Bytes → Bytes
first_part [] = []
first_part (p ∷ ps) = p

-- virtualDirInfo
abbrev pub virtual_dir_info : Bytes → Info
virtual_dir_info name = record { name = name; size = 0; mode = 2 ^ 31 + 0o755; mtime = 0 }

-- byName[child] = …, for each entry of the filesystem and then for each child mount
unfoldable pub put_entries : List Info → Assoc Info → Assoc Info
put_entries [] byname = byname
put_entries (e ∷ es) byname = put_entries es (put e.name e byname)

abbrev child_info : {E : Type 0} → Bytes → E ⊎ Info → Info
child_info child (inl _) = virtual_dir_info child
child_info child (inr info) = record info { name = child }

-- sort.Slice by name; the names are distinct
unfoldable pub insert_info : Info → List Info → List Info
insert_info i [] = i ∷ []
insert_info i (j ∷ js) =
    let rest = insert_info i js in if text_lt j.name i.name then j ∷ rest else i ∷ j ∷ js

unfoldable pub sorted_infos : Assoc Info → List Info
sorted_infos [] = []
sorted_infos ((_, i) ∷ m) = insert_info i (sorted_infos m)

-- The loop of Mount over the parts of the point.
unfoldable pub has_dot_part : Bytes → Bool
has_dot_part point =
    any (λ part. beq part dot || beq part dotdot) (split slash (trim_prefix point root))

module _ {S E : Type 0} where
  -- Mount(point, filesystem), where the filesystem is not nil
  unfoldable pub mount :
      Bytes → FileSystem S E → Mountable S E → Option (MountError E) × Mountable S E
  mount point filesystem m =
      if has_dot_part point
      then (some dot_segment, m)
      else if beq (fs_name point) dot
      then (some at_root, m)
      else (none, record m { mounts = put (fs_name point) filesystem m.mounts })

  -- Unmount(point)
  unfoldable pub unmount : Bytes → Mountable S E → Option (MountError E) × Mountable S E
  unmount point m =
      on_option (lookup (fs_name point) m.mounts) (some not_exist, m)
        λ _. (none, record m { mounts = delete (fs_name point) m.mounts })

  -- IsMountPoint(name)
  unfoldable pub is_mount_point : Bytes → Mountable S E → Bool
  is_mount_point name m = on_option (lookup (fs_name name) m.mounts) false λ _. true

  unfoldable pub route_loop :
      Bytes
      → Bytes × Option (FileSystem S E)
      → Assoc (FileSystem S E)
      → Bytes × Option (FileSystem S E)
  route_loop name best [] = best
  route_loop name best ((point, fs) ∷ m) =
      let best' : Bytes × Option (FileSystem S E) =
        if covers point name && ltb (length best.0) (length point)
        then (point, some fs)
        else best in
      route_loop name best' m

  -- route(name): the filesystem, the name in it, and the mount point, "" for the base
  unfoldable pub route : Bytes → Mountable S E → FileSystem S E × Bytes × Bytes
  route name m =
      let r = route_loop name ([], none) m.mounts in
      on_option r.1 (m.base_fs, name, []) λ fs. (fs, relative_to r.0 name, r.0)

  unfoldable pub child_names : Bytes → Assoc (FileSystem S E) → List Bytes
  child_names prefix [] = []
  child_names prefix ((point, fs) ∷ m) =
      let others = child_names prefix m in
      let child = first_part (split slash (trim_prefix point prefix)) in
      if has_prefix point prefix && not (is_empty child) then insert_name child others else others

  -- childMounts(name)
  unfoldable pub child_mounts : Bytes → Mountable S E → List Bytes
  child_mounts name m = child_names (if beq name dot then [] else name ++ slash ∷ []) m.mounts

  -- hasVirtualDir(name)
  unfoldable pub has_virtual_dir : Bytes → Mountable S E → Bool
  has_virtual_dir name m = not (is_empty (child_mounts name m))

  -- ReadFile(name)
  unfoldable pub read_file : Bytes → Mountable S E → S → MountError E ⊎ Bytes
  read_file name m s =
      let r = route name m in
      if not (is_valid name) then inl invalid else elim (r.0.read_file r.1 s) [
        | inl e ↦ inl (filesystem_error e)
        | inr content ↦ inr content
      ]

  -- What Stat and Lstat make of what the filesystem returned.
  unfoldable pub named_info : Bytes → Mountable S E → E ⊎ Info → MountError E ⊎ Info
  named_info name m (inr info) =
      if not (is_empty (route name m).2) && beq name (route name m).2
      then inr (record info { name = base name })
      else inr info
  named_info name m (inl e) =
      if not (is_empty (route name m).2) && beq name (route name m).2
      then inr (virtual_dir_info (base name))
      else if has_virtual_dir name m
      then inr (virtual_dir_info (base name))
      else inl (filesystem_error e)

  -- Stat(name)
  unfoldable pub stat : Bytes → Mountable S E → S → MountError E ⊎ Info
  stat name m s =
      let r = route name m in
      if not (is_valid name) then inl invalid else named_info name m (r.0.stat r.1 s)

  -- Lstat(name)
  unfoldable pub lstat : Bytes → Mountable S E → S → MountError E ⊎ Info
  lstat name m s =
      let r = route name m in
      if not (is_valid name)
      then inl invalid
      else named_info name m (on_option r.0.lstat (r.0.stat r.1 s) λ f. f r.1 s)

  unfoldable pub put_children : Bytes → List Bytes → Mountable S E → S → Assoc Info → Assoc Info
  put_children name [] m s byname = byname
  put_children name (child ∷ children) m s byname =
      let r = route (if beq name dot then child else path_join name child) m in
      put_children name children m s (put child (child_info child (r.0.stat r.1 s)) byname)

  -- ReadDir(name)
  unfoldable pub read_dir : Bytes → Mountable S E → S → MountError E ⊎ List Info
  read_dir name m s =
      let r = route name m in
      let children = child_mounts name m in
      let merged : List Info → List Info =
        λ entries. sorted_infos (put_children name children m s (put_entries entries [])) in
      if not (is_valid name) then inl invalid else elim (r.0.read_dir r.1 s) [
        | inr entries ↦ inr (merged entries)
        | inl e ↦ if is_empty children then inl (filesystem_error e) else inr (merged [])
      ]
