-- ===== src/Overlay/Dirs.antt =====
-- The directories that pkg/fs/overlay.go copies up or creates before a write, and the markers.
use Prim.Native.Nat.{bit_or}
use gash.Prelude.{
  ℕ, Bool, false, not, ◌&&◌, List, [], ◌∷◌, Option, none, some, Bytes, is_empty, if◌then◌else◌,
}
use gash.Path.{parent}
use gash.Path.Lexical.{slash, split}
use gash.Memory.Node.{perm_bits}
use gash.Mount.{Info}
use gash.Capabilities
use gash.Overlay.{
  Overlay, OverlayError, invalid, not_dir, is_not_exist, is_exist, succeeds, on_result, raw, done,
  ◌>>◌, unless, is_dir_mode,
}
use gash.Overlay.Names.{
  whiteout_name, is_whiteout_name, join_name, extended, is_root_name, rejects_whiteout,
}
use gash.Overlay.View.{upper_lstat, stat}

-- copiedPerm(mode)
unfoldable pub copied_perm : ℕ → ℕ
copied_perm mode =
    let perm = bit_or (perm_bits mode) 0o600 in if is_dir_mode mode then bit_or perm 0o700 else perm

module _ {U L E : Type 0} (o : Overlay U L E) where
  -- Mkdir(o.upper, name, perm); that the directory exists already is no error.
  unfoldable pub make_dir : Bytes → ℕ → U → Option (OverlayError E) × U
  make_dir name perm u = unless (is_exist o.tests) (done (Capabilities.mkdir o.upper name perm u))

  -- The switch of walkDirs, for a directory that the upper layer does not have.
  unfoldable pub ensure_dir : Bytes → ℕ → Bool → U → Option (OverlayError E) × U
  ensure_dir current perm create u =
      on_result (stat o current u)
        (λ e. if create && is_not_exist o.tests e then make_dir current perm u else (some e, u))
        (λ info.
          if is_dir_mode info.mode
          then make_dir current (copied_perm info.mode) u
          else (some not_dir, u))

  -- One round of walkDirs.
  unfoldable pub walk_dir : Bytes → ℕ → Bool → U → Option (OverlayError E) × U
  walk_dir current perm create u =
      on_result (raw (o.upper.stat current u))
        (λ e.
          if not (is_not_exist o.tests e) then (some e, u) else ensure_dir current perm create u)
        (λ info. if not (is_dir_mode info.mode) then (some not_dir, u) else (none, u))

  unfoldable pub walk_parts : Bytes → List Bytes → ℕ → Bool → U → Option (OverlayError E) × U
  walk_parts current [] perm create u = (none, u)
  walk_parts current (part ∷ parts) perm create u =
      walk_dir (extended current part) perm create u
      >> walk_parts (extended current part) parts perm create

  -- walkDirs(name, perm, create)
  unfoldable pub walk_dirs : Bytes → ℕ → Bool → U → Option (OverlayError E) × U
  walk_dirs name perm create u =
      if is_root_name name then (none, u) else walk_parts [] (split slash name) perm create u

  -- materializeParents(name)
  unfoldable pub materialize_parents : Bytes → U → Option (OverlayError E) × U
  materialize_parents name = walk_dirs (parent name) 0 false

  -- prepareWrite(op, name)
  unfoldable pub prepare_write : Bytes → U → Option (OverlayError E) × U
  prepare_write name u =
      if rejects_whiteout name then (some invalid, u) else materialize_parents name u

  -- setWhiteout(name)
  unfoldable pub set_whiteout : Bytes → U → Option (OverlayError E) × U
  set_whiteout name u =
      if is_empty (whiteout_name name)
      then (some invalid, u)
      else (materialize_parents name u >> λ u'.
          if succeeds (upper_lstat o (whiteout_name name) u')
          then (none, u')
          else done (Capabilities.write_file o.upper (whiteout_name name) [] 0o600 u'))

  -- clearWhiteout(name)
  unfoldable pub clear_whiteout : Bytes → U → U
  clear_whiteout name u =
      if is_empty (whiteout_name name)
      then u
      else if succeeds (upper_lstat o (whiteout_name name) u)
      then (Capabilities.remove o.upper (whiteout_name name) u).1
      else u

  -- The loop of clearMarkers.
  unfoldable pub clear_each : Bytes → List Info → U → Option (OverlayError E) × U
  clear_each dir [] u = (none, u)
  clear_each dir (e ∷ es) u =
      (if not (is_whiteout_name e.name)
        then (none, u)
        else unless (is_not_exist o.tests)
            (done (Capabilities.remove o.upper (join_name dir e.name) u)))
      >> clear_each dir es

  -- clearMarkers(dir)
  unfoldable pub clear_markers : Bytes → U → Option (OverlayError E) × U
  clear_markers dir u =
      on_result (raw (o.upper.read_dir dir u))
        (λ e. if is_not_exist o.tests e then (none, u) else (some e, u))
        (λ entries. clear_each dir entries u)
