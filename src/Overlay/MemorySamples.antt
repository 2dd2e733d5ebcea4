-- ===== src/Overlay/MemorySamples.antt =====
-- Runs of an overlay of a filesystem in memory on a flat one.
use gash.Prelude.{
  false, [], ◌∷◌, Option, none, codes, beq, has_prefix, trim_prefix, on_option, ◌≢◌, ◌≡◌, refl, ap,
  inl, inr,
}
use gash.Assoc.{lookup, put, delete}
use gash.Path.{fs_name, is_valid, parent}
use gash.Path.Lexical.{
  base, split, is_name, valid_path, clean, clean_parts, clean_step, dir, join, path_join,
  split_last, trim_slashes,
}
use gash.Memory.Node.{Err, not_exist, Memory, new_memory, find, alloc, over_quota, release}
use gash.Memory.Resolve.{walk_node, walk, resolve_loop, resolve_locked}
use gash.Memory.Write.{below_parent, write_new, overwrite}
use gash.Memory.Write
use gash.Memory.Names
use gash.Memory.Read
use gash.Memory.TreeOps.{new_memory-IsTree}
use gash.Mount.{FileSystem, read_only_system}
use gash.Capabilities.{dev_null}
use gash.Capabilities
use gash.Overlay.{Overlay, OverlayError, succeeds}
use gash.Overlay.Names.{rejects_whiteout, is_whiteout_name, prefixes, whiteout_name}
use gash.Overlay.View.{
  upper_lstat, lower_lstat, lstat, read_file, layered, whited_out, has_whiteout, visible_in_lower,
}
use gash.Overlay.Dirs.{set_whiteout, materialize_parents, walk_dirs, prepare_write, clear_whiteout}
use gash.Overlay.Removal.{remove, remove_entry, hide_lower, remove_upper}
use gash.Overlay.Write.{write_file}
use gash.Overlay.Flat.{Table, info_of}
use gash.Overlay.MemoryLayer.{over_memory}
use gash.Overlay.OverMemory.{remove-lstat_memory, write_file-read_file_memory}

computing : Unit {0}
unfolding lookup put delete fs_name is_valid beq has_prefix trim_prefix parent base split is_name
    valid_path clean clean_parts clean_step dir join path_join split_last trim_slashes new_memory
    find alloc over_quota release walk_node walk resolve_loop resolve_locked below_parent write_new
    overwrite Write.write_file Names.remove Read.stat Read.node_at rejects_whiteout is_whiteout_name
    prefixes whiteout_name upper_lstat lower_lstat lstat layered whited_out has_whiteout
    visible_in_lower set_whiteout materialize_parents walk_dirs prepare_write clear_whiteout remove
    remove_entry hide_lower remove_upper write_file Capabilities.lstat Capabilities.write_file
    Capabilities.remove
computing = tt

abbrev image : FileSystem Table Err
image =
    read_only_system (λ name t. on_option (lookup name t) (inl not_exist) (λ e. inr e.0))
      (λ name t. on_option (lookup name t) (inl not_exist) (λ e. inr (info_of name e)))
      (λ name t. inl not_exist)

abbrev over : Overlay Memory Table Err
over = over_memory 5 image ((codes "x", (codes "lower", 0o644)) ∷ [])

abbrev empty : Memory
empty = new_memory 0 1

-- The lower layer's file is removed: a marker is written in memory.
abbrev removed_x : Option (OverlayError Err) × Memory
removed_x = remove over (codes "/x") empty

removed_x_lem : removed_x.0 ≡ none
unfolding computing
removed_x_lem = refl

x-live : fs_name (codes "/x") ≢ dev_null
unfolding computing
x-live e = cc e

remove-lstat_memory_example : succeeds (lstat over (codes "/x") removed_x.1) ≡ false
remove-lstat_memory_example =
    remove-lstat_memory 5 image ((codes "x", (codes "lower", 0o644)) ∷ []) (codes "/x") empty
      removed_x.1 x-live (new_memory-IsTree 0 1) (ap (λ e. (e, removed_x.1)) removed_x_lem)

-- The file is written over the lower one's.
abbrev written_x : Option (OverlayError Err) × Memory
written_x = write_file over (codes "/x") (codes "new") 0o644 empty

written_x_lem : written_x.0 ≡ none
unfolding computing
written_x_lem = refl

write_file-read_file_memory_example : read_file over (codes "/x") written_x.1 ≡ inr (codes "new")
write_file-read_file_memory_example =
    write_file-read_file_memory 5 image ((codes "x", (codes "lower", 0o644)) ∷ []) (codes "/x")
      (codes "new") 0o644 empty written_x.1 x-live (new_memory-IsTree 0 1)
      (ap (λ e. (e, written_x.1)) written_x_lem)
