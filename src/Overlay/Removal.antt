-- ===== src/Overlay/Removal.antt =====
-- Remove, RemoveAll and Rename of pkg/fs/overlay.go: what the lower layer still has is hidden by a
-- marker in the upper one.
use gash.Prelude.{
  ℕ, Bool, true, false, not, Option, none, some, Bytes, beq, is_empty, if◌then◌else◌, on_option,
}
use gash.Path.{fs_name}
use gash.Path.Lexical.{dot}
use gash.Capabilities
use gash.Overlay.{
  Overlay, OverlayError, invalid, not_empty, is_not_exist, on_result, done, ◌>>◌, is_dir_mode,
  status_mode,
}
use gash.Overlay.Names.{rejects_whiteout}
use gash.Overlay.View.{upper_lstat, visible_in_lower, lstat}
use gash.Overlay.Listing.{read_dir}
use gash.Overlay.Dirs.{materialize_parents, set_whiteout, clear_whiteout, clear_markers}
use gash.Overlay.CopyUp.{copy_up_tree}

module _ {U L E : Type 0} (o : Overlay U L E) where
  -- What Remove does in the upper layer where that has the entry.
  unfoldable pub remove_upper : Bytes → Bool → U → Option (OverlayError E) × U
  remove_upper name is_dir u = (if is_dir then clear_markers o name u else (none, u)) >> λ v.
      done (Capabilities.remove o.upper name v)

  -- The end of Remove.
  unfoldable pub hide_lower : Bytes → U → Option (OverlayError E) × U
  hide_lower name u = if not (visible_in_lower o name u) then (none, u) else set_whiteout o name u

  unfoldable pub remove_entry : Bytes → Bool → U → Option (OverlayError E) × U
  remove_entry name is_dir u =
      on_result (upper_lstat o name u)
        (λ e. if not (is_not_exist o.tests e) then (some e, u) else (none, u))
        (λ _. remove_upper name is_dir u)
      >> hide_lower name

  -- Remove(name)
  unfoldable pub remove : Bytes → U → Option (OverlayError E) × U
  remove text u =
      let name = fs_name text in
      if beq name dot
      then (some invalid, u)
      else if rejects_whiteout name
      then (some invalid, u)
      else on_result (lstat o name u) (λ e. (some e, u))
          (λ info.
            if is_dir_mode (status_mode info)
            then on_result (read_dir o name u) (λ e. (some e, u))
                (λ entries.
                  if not (is_empty entries) then (some not_empty, u) else remove_entry name true u)
            else remove_entry name false u)

  -- RemoveAll(name)
  unfoldable pub remove_all : Bytes → U → Option (OverlayError E) × U
  remove_all text u =
      let name = fs_name text in
      let hide = visible_in_lower o name u in
      if beq name dot
      then (some invalid, u)
      else if rejects_whiteout name
      then (some invalid, u)
      else (on_result (upper_lstat o name u)
            (λ e. if not (is_not_exist o.tests e) then (some e, u) else (none, u))
            (λ _. done (Capabilities.remove_all o.upper name u))
          >> λ v. if not hide then (none, v) else set_whiteout o name v)

  -- The end of Rename, behind the upper layer's.
  unfoldable pub renamed : Bytes → Bytes → U → Option (OverlayError E) × U
  renamed old_name new_name u =
      (if visible_in_lower o old_name u then set_whiteout o old_name u else (none, u)) >> λ v. (
        none,
        on_result (upper_lstat o new_name v) (λ _. v)
            (λ info.
              if not (is_dir_mode (status_mode info)) then clear_whiteout o new_name v else v),
      )

  -- Rename(oldName, newName), copying to a depth: none where the tree is deeper
  unfoldable pub rename : ℕ → Bytes → Bytes → U → Option (Option (OverlayError E) × U)
  rename depth old_text new_text u =
      let old_name = fs_name old_text in
      let new_name = fs_name new_text in
      if rejects_whiteout old_name
      then some (some invalid, u)
      else if rejects_whiteout new_name
      then some (some invalid, u)
      else on_result (lstat o old_name u) (λ e. some (some e, u))
          (λ _. on_option (copy_up_tree o depth old_name u) none (λ r. some (
            r
            >> materialize_parents o new_name
            >> (λ v. done (Capabilities.rename o.upper old_name new_name v))
            >> renamed old_name new_name)))
