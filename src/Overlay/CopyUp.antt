-- ===== src/Overlay/CopyUp.antt =====
-- Copying an entry of the lower layer up before it is changed: copyUp and copyUpTree of
-- pkg/fs/overlay.go, and the links of both layers.
use gash.Prelude.{
  ℕ, zero, suc, Bool, true, false, not, List, [], ◌∷◌, ◌++◌, Option, none, some, Bytes, codes, beq,
  has_prefix, trim_prefix, if◌then◌else◌, on_option, ◌⊎◌, inl, inr,
}
use gash.Path.Lexical.{dot, root}
use gash.Prelude.Base64.{encode, decode}
use gash.Mount.{FileSystem, Info}
use gash.Capabilities.{AccessError, Status}
use gash.Capabilities
use gash.Overlay.{
  Overlay, OverlayError, permission, is_not_exist, is_read_only, on_result, raw, called, done, ◌>>◌,
  unless, is_dir_mode, is_symlink_mode, status_mode, status_time,
}
use gash.Overlay.Names.{join_name}
use gash.Overlay.View.{upper_lstat, lower_lstat, whited_out, lstat}
use gash.Overlay.Listing.{read_dir}
use gash.Overlay.Dirs.{copied_perm, make_dir, materialize_parents}

-- overlayGlobalSymlinkPrefix
abbrev pub global_prefix : Bytes
global_prefix = codes ".gash-overlay-global-symlink."

-- The text that stands for a global target in a layer without GlobalSymlinkFS.
unfoldable pub stored_target : Bytes → Bytes
stored_target target = global_prefix ++ encode target

-- What a stored target decodes to: a text that begins with a slash.
unfoldable pub decoded_target : {E : Type 0} → Bytes → OverlayError E ⊎ (Bytes × Bool)
decoded_target target =
    on_option (decode (trim_prefix target global_prefix)) (inl permission)
      λ decoded. if has_prefix decoded root then inr (decoded, true) else inl permission

-- scopedVirtualReadlink(filesystem, name): the target, and whether it is global
unfoldable pub scoped_readlink :
    {S E : Type 0} → FileSystem S E → Bytes → S → OverlayError E ⊎ (Bytes × Bool)
scoped_readlink fs name s =
    on_option fs.scoped_virtual_readlink
      (on_result (called (Capabilities.virtual_readlink fs name s)) inl (λ target.
        if has_prefix target global_prefix then decoded_target target else inr (target, false)))
      (λ f. raw (f name s))

module _ {U L E : Type 0} (o : Overlay U L E) where
  -- The symlink case of copyUp.
  unfoldable pub copy_link : Bytes → Bytes × Bool → U → Option (OverlayError E) × U
  copy_link name (target, global) u =
      if global
      then on_option o.upper.global_symlink
          (done (Capabilities.symlink o.upper (stored_target target) name u))
          (λ f. done (Capabilities.changed (f target name u)))
      else done (Capabilities.symlink o.upper target name u)

  -- The default case of copyUp.
  unfoldable pub copy_file : Bytes → Status → Bytes → U → Option (OverlayError E) × U
  copy_file name info content u =
      done (Capabilities.write_file o.upper name content (copied_perm (status_mode info)) u)
      >> λ u'.
          unless (is_read_only o.tests)
            (done (Capabilities.chtimes o.upper name (status_time info) (status_time info) u'))

  -- The switch of copyUp.
  unfoldable pub copy_entry : Bytes → Status → U → Option (OverlayError E) × U
  copy_entry name info u =
      if is_symlink_mode (status_mode info)
      then on_result (scoped_readlink o.lower name o.lower_state) (λ e. (some e, u))
          (λ t. copy_link name t u)
      else if is_dir_mode (status_mode info)
      then make_dir o name (copied_perm (status_mode info)) u
      else on_result (raw (o.lower.read_file name o.lower_state)) (λ e. (some e, u))
          (λ content. copy_file name info content u)

  -- copyUp(name)
  unfoldable pub copy_up : Bytes → U → Option (OverlayError E) × U
  copy_up name u =
      if beq name dot
      then (none, u)
      else on_result (upper_lstat o name u)
          (λ e.
            if not (is_not_exist o.tests e)
            then (some e, u)
            else if whited_out o name u
            then (none, u)
            else on_result (lower_lstat o name) (λ _. (none, u))
                (λ info. materialize_parents o name u >> copy_entry name info))
          (λ _. (none, u))

  -- The loop of copyUpTree over the entries of a directory.
  abbrev copy_each :
      (Bytes → U → Option (Option (OverlayError E) × U))
      → Bytes
      → List Info
      → Option (OverlayError E) × U
      → Option (Option (OverlayError E) × U)
  copy_each copy dir [] r = some r
  copy_each copy dir (e ∷ es) (some err, u) = some (some err, u)
  copy_each copy dir (e ∷ es) (none, u) =
      on_option (copy (join_name dir e.name) u) none λ r. copy_each copy dir es r

  -- copyUpTree(name), to a depth: none where the tree is deeper
  unfoldable pub copy_up_tree : ℕ → Bytes → U → Option (Option (OverlayError E) × U)
  copy_up_tree zero name u = none
  copy_up_tree (suc depth) name u =
      let r = copy_up name u in
      on_option r.0
        (on_result (lstat o name r.1) (λ e. some (some e, r.1))
          (λ info.
            if not (is_dir_mode (status_mode info))
            then some (none, r.1)
            else on_result (read_dir o name r.1) (λ e. some (some e, r.1))
                (λ entries. copy_each (copy_up_tree depth) name entries (none, r.1))))
        (λ e. some (some e, r.1))
