-- ===== src/Memory/Write.antt =====
-- The operations of pkg/fs/memory.go that create files and write to them. Each takes the lock for
-- its whole body, so it is one step on the state; `now` is what time.Now() returns.
use Prim.Native.Nat.{bit_or}
use gash.Prelude.{
  on_option, ℕ, ◌+◌, ◌-◌, true, false, not, [], ◌++◌, Option, none, some, Bytes, length, set,
  if◌then◌else◌,
}
use gash.Path.{is_valid, parent}
use gash.Path.Lexical.{path_join, base}
use gash.Memory.Node.{
  Err, invalid, not_exist, exist, not_dir, is_dir, quota, panic, Result, ok, fail, regular,
  directory, symlink, Node, Memory, mode_dir, mode_symlink, perm_bits, type_bits, find,
  is_directory, is_regular, alloc, over_quota,
}
use gash.Memory.Resolve.{resolve_locked, by_lookup}

-- The error that an operation returns, nil as `none`, with the state that it leaves.
abbrev pub Outcome : Type 0
Outcome = Option Err × Memory

-- resolveLocked(parent(name), true), the test that it is a directory, and the name below it.
unfoldable pub below_parent : Memory → Bytes → Result Bytes
below_parent m name =
    by_lookup (resolve_locked m (parent name) true)
      (λ dir id n.
        if not (is_directory n.kind) then fail not_dir else ok (path_join dir (base name)))
      (λ _. fail panic) (fail not_exist) (λ e. fail e)

abbrev pub new_file : Bytes → ℕ → ℕ → Node
new_file content perm now = record {
  kind = regular;
  content = content;
  target = [];
  mode = perm_bits perm;
  mtime = now;
  links = 1;
}

-- The end of CreateFile, once the name is known to be free.
unfoldable pub create_at : Memory → Result Bytes → Bytes → ℕ → ℕ → Outcome
create_at m (fail e) content perm now = (some e, m)
create_at m (ok name) content perm now =
    if over_quota m 0 (length content)
    then (some quota, m)
    else on_option (find m name)
        (none, record (alloc m name (new_file content perm now)) { used = m.used + length content })
        (λ _. (some exist, m))

-- CreateFile(name, data, perm)
unfoldable pub create_file : Bytes → Bytes → ℕ → ℕ → Memory → Outcome
create_file name content perm now m =
    if not (is_valid name)
    then (some invalid, m)
    else by_lookup (resolve_locked m name false) (λ _ _ _. (some exist, m)) (λ _. (some exist, m))
        (create_at m (below_parent m name) content perm now) (λ e. (some e, m))

-- WriteFile where the file is new
unfoldable pub write_new : Memory → Result Bytes → Bytes → ℕ → ℕ → Outcome
write_new m (fail e) content perm now = (some e, m)
write_new m (ok name) content perm now =
    if over_quota m 0 (length content) then (some quota, m) else (
      none,
      record (alloc m name (new_file content perm now)) { used = m.used + length content },
    )

-- WriteFile where the name leads to a node
unfoldable pub overwrite : Memory → ℕ → Node → Bytes → ℕ → ℕ → Outcome
overwrite m id n content perm now =
    if is_directory n.kind
    then (some is_dir, m)
    else if over_quota m (length n.content) (length content)
    then (some quota, m)
    else (
      none,
      record m {
        used = m.used + length content - length n.content;
        heap = set m.heap id (record n {
          content = content;
          mode = bit_or (type_bits n.mode) (perm_bits perm);
          mtime = now;
        });
      },
    )

-- WriteFile(name, data, perm)
unfoldable pub write_file : Bytes → Bytes → ℕ → ℕ → Memory → Outcome
write_file name content perm now m =
    if not (is_valid name)
    then (some invalid, m)
    else by_lookup (resolve_locked m name true) (λ _ id n. overwrite m id n content perm now)
        (λ _. write_new m (below_parent m name) content perm now)
        (write_new m (below_parent m name) content perm now) (λ e. (some e, m))

-- AppendFile once the node is there
unfoldable pub append_to : Memory → ℕ → Node → Bytes → ℕ → Outcome
append_to m id n content now =
    if not (is_regular n.kind)
    then (some is_dir, m)
    else if over_quota m 0 (length content)
    then (some quota, m)
    else (
      none,
      record m {
        used = m.used + length content;
        heap = set m.heap id (record n { content = n.content ++ content; mtime = now });
      },
    )

-- AppendFile where the file is new: the empty file is entered before the quota is tested.
unfoldable pub append_new : Memory → Result Bytes → Bytes → ℕ → ℕ → Outcome
append_new m (fail e) content perm now = (some e, m)
append_new m (ok name) content perm now =
    append_to (alloc m name (new_file [] perm now)) (length m.heap) (new_file [] perm now) content
      now

-- AppendFile(name, data, perm)
unfoldable pub append_file : Bytes → Bytes → ℕ → ℕ → Memory → Outcome
append_file name content perm now m =
    if not (is_valid name)
    then (some invalid, m)
    else by_lookup (resolve_locked m name true) (λ _ id n. append_to m id n content now)
        (λ _. append_new m (below_parent m name) content perm now)
        (append_new m (below_parent m name) content perm now) (λ e. (some e, m))

-- Mkdir and Symlink once the place is known: the first tests that it is free.
unfoldable pub mkdir_at : Memory → Result Bytes → ℕ → ℕ → Outcome
mkdir_at m (fail e) perm now = (some e, m)
mkdir_at m (ok name) perm now =
    on_option (find m name)
      (
        none,
        alloc m name (record {
          kind = directory;
          content = [];
          target = [];
          mode = bit_or mode_dir (perm_bits perm);
          mtime = now;
          links = 1;
        }),
      )
      (λ _. (some exist, m))

-- Mkdir(name, perm)
unfoldable pub mkdir : Bytes → ℕ → ℕ → Memory → Outcome
mkdir name perm now m =
    if not (is_valid name)
    then (some invalid, m)
    else by_lookup (resolve_locked m name true) (λ _ _ _. (some exist, m)) (λ _. (some exist, m))
        (mkdir_at m (below_parent m name) perm now) (λ e. (some e, m))

unfoldable pub symlink_at : Memory → Result Bytes → Bytes → ℕ → Outcome
symlink_at m (fail e) target now = (some e, m)
symlink_at m (ok name) target now = (
  none,
  alloc m name (record {
    kind = symlink;
    content = [];
    target = target;
    mode = bit_or mode_symlink 0o777;
    mtime = now;
    links = 1;
  }),
)

-- Symlink(target, name)
unfoldable pub symlink_file : Bytes → Bytes → ℕ → Memory → Outcome
symlink_file target name now m =
    if not (is_valid name)
    then (some invalid, m)
    else by_lookup (resolve_locked m name false) (λ _ _ _. (some exist, m)) (λ _. (some exist, m))
        (symlink_at m (below_parent m name) target now) (λ e. (some e, m))
