-- ===== src/Overlay/Samples.antt =====
-- Runs of an overlay of two flat filesystems.
use gash.Prelude.{
  ℕ, ◌+◌, true, false, [], ◌∷◌, Option, none, some, codes, beq, has_prefix, trim_prefix, ◌≡◌, refl,
  inr, arith,
}
use gash.Assoc.{lookup, put, delete}
use gash.Path.{fs_name, is_valid, parent}
use gash.Path.Lexical.{base, split, is_name}
use gash.Memory.Node.{mode_dir}
use gash.Mount.{Info}
use gash.Capabilities.{dev_null, AccessError, Status, null_info}
use gash.Capabilities
use gash.Overlay.{OverlayError}
use gash.Mount.{sorted_infos, insert_info}
use gash.Path.Lexical.{clean, clean_parts, clean_step, dir, join, split_last, trim_slashes}
use gash.Overlay.Names.{rejects_whiteout, is_whiteout_name, prefixes, whiteout_name, join_name}
use gash.Overlay.View.{
  upper_lstat, lower_lstat, lstat, stat, layered, whited_out, has_whiteout, visible_in_lower,
}
use gash.Overlay.Listing.{read_dir, merge_upper, merge_lower, lower_entries, merged_entries, listed}
use gash.Overlay.Dirs.{
  set_whiteout, clear_each, clear_markers, copied_perm, ensure_dir, make_dir, materialize_parents,
  walk_dir, walk_dirs, walk_parts,
}
use gash.Overlay.Removal.{remove, remove_entry, hide_lower, remove_upper}
use gash.Overlay.Flat.{Table, info_of, overlay}
use gash.Overlay.Laws.{merge_upper-last, stored_target-decoded_target}
use gash.Overlay.Opaque.{has_whiteout-visible_in_lower}
use gash.Overlay.Write.{write_file}
use gash.Overlay.Dirs.{prepare_write, clear_whiteout}
use gash.Overlay.CopyUp.{stored_target, decoded_target, global_prefix}

computing : Unit {0}
unfolding lookup put delete fs_name is_valid beq has_prefix trim_prefix remove rejects_whiteout
    is_whiteout_name lstat layered upper_lstat Capabilities.lstat whited_out prefixes has_whiteout
    whiteout_name parent base lower_lstat remove_entry hide_lower visible_in_lower set_whiteout
    Capabilities.mkdir Capabilities.remove Capabilities.write_file clear_each clear_markers
    copied_perm ensure_dir make_dir materialize_parents walk_dir walk_dirs walk_parts join_name
    remove_upper stat clean clean_parts clean_step dir join split split_last trim_slashes read_dir
    merge_upper merge_lower lower_entries merged_entries listed sorted_infos insert_info write_file
    prepare_write clear_whiteout is_name
computing = tt

-- The lower layer's file is removed: its directory is copied up and a marker written.
abbrev removed_x : Option (OverlayError ℕ) × Table
removed_x = remove overlay (codes "/a/x") []

removed_x_lem :
    removed_x ≡ (none, (codes "a", ([], mode_dir + 0o755)) ∷ (codes "a/.wh.x", ([], 0o600)) ∷ [])
unfolding computing
removed_x_lem = refl

-- The file is written again: its marker goes.
abbrev written_x : Option (OverlayError ℕ) × Table
written_x = write_file overlay (codes "/a/x") (codes "new") 0o644 removed_x.1

written_x_lem :
    written_x
    ≡ (none, (codes "a", ([], mode_dir + 0o755)) ∷ (codes "a/x", (codes "new", 0o644)) ∷ [])
unfolding computing
written_x_lem = refl

-- A directory whose name stands before its marker in the order of names, removed and made again.
abbrev git : Info
git = info_of (codes ".git") ([], mode_dir + 0o755)

abbrev git_marker : Info
git_marker = info_of (codes ".wh..git") ([], 0o600)

plain_git : is_whiteout_name (codes ".git") ≡ false
unfolding computing
plain_git = refl

merge_upper-last_example :
    ((git_marker.name ≡ codes ".git")
      → lookup (codes ".git") (merge_upper (git ∷ git_marker ∷ []) []) ≡ some git_marker)
    × ((git_marker.name ≡ codes ".wh..git")
        → lookup (codes ".git") (merge_upper (git ∷ git_marker ∷ []) []) ≡ none)
merge_upper-last_example =
    merge_upper-last (codes ".git") (git ∷ []) [] git_marker [] plain_git refl

stored_target-decoded_target_example :
    (has_prefix (stored_target (codes "/etc/hosts")) global_prefix ≡ true)
    × (decoded_target {E = ℕ} (stored_target (codes "/etc/hosts")) ≡ inr (codes "/etc/hosts", true))
unfolding has_prefix
stored_target-decoded_target_example =
    stored_target-decoded_target (codes "/etc/hosts") (omega arith) refl

-- A directory that was removed and made again: its marker is kept.
abbrev made_again : Table
made_again = (codes ".wh.a", ([], 0o600)) ∷ (codes "a", ([], mode_dir + 0o755)) ∷ []

has_whiteout-visible_in_lower_example : visible_in_lower overlay (codes "a/x") made_again ≡ false
unfolding computing
has_whiteout-visible_in_lower_example =
    has_whiteout-visible_in_lower overlay (codes "a") [] (codes "x" ∷ []) made_again refl refl
