-- ===== src/Memory/Samples.antt =====
-- Runs of the in-memory filesystem on small inputs.
use gash.Prelude.{
  ◌+◌, ◌^◌, ◌≤◌, true, false, List, [], ◌∷◌, none, some, codes, ◌≡◌, ◌≢◌, ◌↔◌, refl, arith, beq,
  has_prefix, trim_prefix, if◌then◌else◌, ◌==◌, drop,
}
use gash.Assoc.{lookup, put, delete}
use gash.Path.{fs_name, is_valid, parent}
use gash.Path.Lexical.{
  dot, split, join, clean_step, clean_parts, clean, path_join, split_last, dir, trim_slashes, base,
  is_name, valid_path,
}
use gash.Path.Laws.{fs_name-is_valid, is_valid_iff}
use gash.Memory.Node.{
  quota, panic, ok, fail, regular, directory, Node, Memory, new_memory, find, alloc, over_quota,
  release,
}
use gash.Memory.Resolve.{redirect, walk_node, walk, resolve_loop, resolve_locked}
use gash.Memory.Write.{
  below_parent, create_at, create_file, write_new, overwrite, write_file, append_to, append_new,
  append_file, mkdir_at, mkdir, symlink_at, symlink_file,
}
use gash.Memory.Names.{
  mkdir_parts, mkdir_all, has_children, drop_name, remove_node, remove, is_below, sweep, remove_all,
  entries_below, enter_moved, move_entries, clear_target, rename_to, rename, link_node, link,
  touch_node, chmod, chtimes,
}
use gash.Memory.Read.{
  node_at, read_file, stat, readlink, read_dir, open_file, text_lt, insert_entry, sort_entries,
  child_entries, MemFile, file_read, file_read_dir,
}
use gash.Memory.History.{
  Op, op_create, op_write, op_mkdir, op_remove, op_rename, op_link, op_symlink, apply_op, run,
}
use gash.Memory.Quota.Sound.{IsSound}
use gash.Memory.Quota.Histories.{run-IsSound, visible, run-visible_bytes}
use gash.Memory.ReadWrite.{read-write, read-append}
use gash.Memory.Errors.{apply_op_error}
use gash.Memory.Panics.{apply_op-ne-panic, reads-ne-panic}
use gash.Memory.RootRename.{rename-dot}
use gash.Memory.Handles.{read_rest, read_rest-content}

-- What a run computes with.
computing : Unit {0}
unfolding lookup put delete beq has_prefix trim_prefix fs_name is_valid parent split join clean_step
    clean_parts clean path_join split_last dir trim_slashes base is_name valid_path new_memory find
    alloc over_quota release redirect walk_node walk resolve_loop resolve_locked below_parent
    create_at create_file write_new overwrite write_file append_to append_new append_file mkdir_at
    mkdir symlink_at symlink_file mkdir_parts mkdir_all has_children drop_name remove_node remove
    is_below sweep remove_all entries_below enter_moved move_entries clear_target rename_to rename
    link_node link touch_node chmod chtimes node_at read_file stat readlink read_dir open_file
    text_lt insert_entry sort_entries child_entries file_read file_read_dir apply_op run
computing = tt

-- d/a holds "xyz", d/b is a hard link to it, l a symbolic link to d; the limit is 8 bytes.
abbrev script : List Op
script =
    op_mkdir (codes "d") 0o755 1
    ∷ op_write (codes "d/a") (codes "xyz") 0o644 2
    ∷ op_link (codes "d/a") (codes "d/b")
    ∷ op_symlink (codes "/d") (codes "l") 3
    ∷ op_create (codes "c") (codes "hello!") 0o600 4
    ∷ []

abbrev disk : Memory
disk = run script (new_memory 8 0)

-- The file that would pass the limit is not there.
quota_holds : read_file (codes "l/b") disk ≡ ok (codes "xyz")
unfolding computing
quota_holds = refl

used_once : disk.used ≡ 3
unfolding computing
used_once = refl

removed : read_file (codes "d/b") (run (op_remove (codes "d/a") ∷ []) disk) ≡ ok (codes "xyz")
unfolding computing
removed = refl

moved :
    read_file (codes "e/a") (run (op_rename (codes "d") (codes "e") ∷ []) disk) ≡ ok (codes "xyz")
unfolding computing
moved = refl

fs_name-is_valid_example : is_valid (fs_name (codes "/../etc//passwd")) ≡ true
fs_name-is_valid_example = fs_name-is_valid (codes "/../etc//passwd")

is_valid_iff_example :
    (is_valid (codes "a/../b") ≡ true) ↔ (fs_name (codes "a/../b") ≡ codes "a/../b")
is_valid_iff_example = is_valid_iff (codes "a/../b")

run-IsSound_example : IsSound disk
run-IsSound_example = run-IsSound 8 0 script

run-visible_bytes_example : visible disk.nodes 0 disk.heap ≤ 8
run-visible_bytes_example = run-visible_bytes 8 0 script (omega arith)

abbrev file_a : Node
file_a = record {
  kind = regular;
  content = codes "xyz";
  target = [];
  mode = 0o644;
  mtime = 2;
  links = 2;
}

read-write_example :
    read_file (codes "l/b") (write_file (codes "d/a") (codes "new") 0o600 9 disk).1
    ≡ (if 2 == 2 then ok (codes "new") else read_file (codes "l/b") disk)
unfolding computing
read-write_example =
    read-write disk (codes "d/a") (codes "new") (codes "d/a") 0o600 9 2 file_a (codes "l/b")
      (codes "d/b") 2 file_a refl refl refl

read-append_example :
    read_file (codes "l/b") (append_file (codes "d/a") (codes "+") 0o600 9 disk).1
    ≡ (if 2 == 2 then ok (codes "xyz+") else read_file (codes "l/b") disk)
unfolding computing
read-append_example =
    read-append disk (codes "d/a") (codes "+") (codes "d/a") 0o600 9 2 file_a (codes "l/b")
      (codes "d/b") 2 file_a refl refl refl

apply_op_error_example : (apply_op (op_create (codes "c") (codes "hello!") 0o600 4) disk).1 ≡ disk
unfolding computing
apply_op_error_example =
    apply_op_error (op_create (codes "c") (codes "hello!") 0o600 4) disk quota refl refl

has_root : find disk dot ≢ none
unfolding computing
has_root e = cc e

apply_op-ne-panic_example : (apply_op (op_rename (codes "d") (codes "e")) disk).0 ≢ some panic
apply_op-ne-panic_example = apply_op-ne-panic (op_rename (codes "d") (codes "e")) disk has_root

reads-ne-panic_example :
    (read_file (codes "l") disk ≢ fail panic)
    × (stat (codes "l") false disk ≢ fail panic)
    × (readlink (codes "l") disk ≢ fail panic)
    × (read_dir (codes "l") disk ≢ fail panic)
    × (open_file (codes "l") disk ≢ fail panic)
reads-ne-panic_example = reads-ne-panic disk has_root (codes "l") false

abbrev root_dir : Node
root_dir = record {
  kind = directory;
  content = [];
  target = [];
  mode = 2 ^ 31 + 0o755;
  mtime = 0;
  links = 1;
}

-- `mv / /x` on an empty filesystem.
rename-dot_example :
    ((rename dot (codes "x") (new_memory 0 0)).0 ≡ none)
    × (find (rename dot (codes "x") (new_memory 0 0)).1 dot ≡ none)
    × (stat dot true (rename dot (codes "x") (new_memory 0 0)).1 ≡ fail panic)
unfolding computing
rename-dot_example =
    rename-dot (new_memory 0 0) 0 root_dir (codes "x") (codes "x") refl refl refl refl refl refl

abbrev handle : MemFile
handle = record { name = codes "d/a"; node = file_a; offset = 1; dir_offset = 0; entries = [] }

read_rest-content_example : read_rest 3 2 handle ≡ some (drop 1 (codes "xyz"))
read_rest-content_example = read_rest-content 3 2 handle (omega arith) refl (omega arith)
