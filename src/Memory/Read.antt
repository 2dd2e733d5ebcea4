-- ===== src/Memory/Read.antt =====
-- The operations of pkg/fs/memory.go that read: ReadFile, ReadDir, Stat, Lstat, Readlink, and the
-- open files.
use gash.Prelude.{
  ℕ, ◌+◌, ◌-◌, Bool, true, false, not, ◌&&◌, ◌||◌, List, [], ◌∷◌, none, some, Bytes, length, take,
  drop, get_elem?, beq, ltb, leb, ◌==◌, if◌then◌else◌,
}
use gash.Assoc.{Assoc}
use gash.Path.{parent}
use gash.Path.Lexical.{base}
use gash.Memory.Node.{
  not_exist, not_dir, is_dir, not_symlink, eof, panic, Result, ok, fail, Node, Memory, ◌>>=◌,
  is_directory, is_symlink,
}
use gash.Memory.Resolve.{resolve_locked, by_lookup}

-- The node that a name leads to, with its resolved name.
unfoldable pub node_at : Memory → Bytes → Bool → Result (Bytes × Node)
node_at m name follow =
    by_lookup (resolve_locked m name follow) (λ r id n. ok (r, n)) (λ _. fail panic)
      (fail not_exist) (λ e. fail e)

-- ReadFile(name)
unfoldable pub read_file : Bytes → Memory → Result Bytes
read_file name m = do
  (r, n) ← node_at m name true
  if is_directory n.kind then fail is_dir else ok n.content

-- Stat(name) and Lstat(name): the base name and a copy of the node
unfoldable pub stat : Bytes → Bool → Memory → Result (Bytes × Node)
stat name follow m = do (r, n) ← node_at m name follow; ok (base r, n)

-- Readlink(name)
unfoldable pub readlink : Bytes → Memory → Result Bytes
readlink name m = do
  (r, n) ← node_at m name false
  if not (is_symlink n.kind) then fail not_symlink else ok n.target

-- s < t on strings
unfoldable pub text_lt : Bytes → Bytes → Bool
text_lt s [] = false
text_lt [] (y ∷ t) = true
text_lt (x ∷ s) (y ∷ t) = ltb x y || (x == y && text_lt s t)

-- sort.Slice by name, as an insertion sort
unfoldable pub insert_entry {ℓ} : {A : Type ℓ} → Bytes × A → List (Bytes × A) → List (Bytes × A)
insert_entry (k, v) [] = (k, v) ∷ []
insert_entry (k, v) ((j, w) ∷ es) =
    if text_lt j k then (j, w) ∷ insert_entry (k, v) es else (k, v) ∷ (j, w) ∷ es

unfoldable pub sort_entries {ℓ} : {A : Type ℓ} → List (Bytes × A) → List (Bytes × A)
sort_entries [] = []
sort_entries (e ∷ es) = insert_entry e (sort_entries es)

-- The entries of a directory: the names whose parent it is, by their base names.
unfoldable pub child_entries : Memory → Bytes → Assoc ℕ → List (Bytes × Node)
child_entries m dir [] = []
child_entries m dir ((p, id) ∷ rest) =
    let others = child_entries m dir rest in
    if not (beq p dir) && beq (parent p) dir
    then elim (get_elem? m.heap id) [ none ↦ others | some n ↦ (base p, n) ∷ others ]
    else others

-- ReadDir(name)
unfoldable pub read_dir : Bytes → Memory → Result (List (Bytes × Node))
read_dir name m = do
  (r, n) ← node_at m name true
  if not (is_directory n.kind) then fail not_dir else ok (sort_entries (child_entries m r m.nodes))

-- memFile: a copy of the node, the sorted entries of a directory, and the two offsets
pub record MemFile : Type 0 where
  pub name : Bytes
  pub node : Node
  pub offset : ℕ
  pub dir_offset : ℕ
  pub entries : List (Bytes × Node)

-- Open(name)
unfoldable pub open_file : Bytes → Memory → Result MemFile
open_file name m = do
  (r, n) ← node_at m name true
  ok (record {
    name = r;
    node = n;
    offset = 0;
    dir_offset = 0;
    entries = if is_directory n.kind then sort_entries (child_entries m r m.nodes) else [];
  })

-- memFile.Read(p) for a buffer of `size` bytes: the bytes copied, or the error
unfoldable pub file_read : ℕ → MemFile → Result Bytes × MemFile
file_read size f =
    if is_directory f.node.kind
    then (fail is_dir, f)
    else if leb (length f.node.content) f.offset
    then (fail eof, f)
    else let chunk = take size (drop f.offset f.node.content) in
      (ok chunk, record f { offset = f.offset + length chunk })

-- memFile.ReadDir(n); 0 stands for every n ≤ 0
unfoldable pub file_read_dir : ℕ → MemFile → Result (List (Bytes × Node)) × MemFile
file_read_dir n f =
    if not (is_directory f.node.kind)
    then (fail not_dir, f)
    else if leb (length f.entries) f.dir_offset
    then ((if ltb 0 n then fail eof else ok []), f)
    else let total = length f.entries in
      let end = if ltb 0 n && ltb (f.dir_offset + n) total then f.dir_offset + n else total in
      (ok (take (end - f.dir_offset) (drop f.dir_offset f.entries)), record f { dir_offset = end })
