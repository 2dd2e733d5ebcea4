-- ===== src/Memory/Names.antt =====
-- The operations of pkg/fs/memory.go that change which name leads to which node, and MkdirAll.
use Prim.Native.Nat.{bit_or}
use gash.Prelude.{
  is_empty, on_option, ℕ, ◌+◌, Bool, true, false, not, ◌&&◌, ◌||◌, List, [], ◌∷◌, ◌++◌, none, some,
  Bytes, set, any, get_elem?, trim_prefix, beq, has_prefix, if◌then◌else◌,
}
use gash.Assoc.{Assoc, put, delete}
use gash.Path.{is_valid, parent}
use gash.Path.Lexical.{slash, dot, split, path_join}
use gash.Memory.Node.{
  invalid, not_exist, exist, not_dir, is_dir, not_empty, remove_root, into_itself, not_regular,
  panic, Result, ok, fail, Node, Memory, perm_bits, type_bits, find, is_directory, is_regular,
  release,
}
use gash.Memory.Resolve.{resolve_locked, by_lookup}
use gash.Memory.Write.{Outcome, below_parent, mkdir}

-- The loop of MkdirAll; an ErrExist of Mkdir is passed over.
unfoldable pub mkdir_parts : Bytes → List Bytes → ℕ → ℕ → Memory → Outcome
mkdir_parts cur [] perm now m = (none, m)
mkdir_parts cur (part ∷ parts) perm now m =
    let cur' = if is_empty cur then part else path_join cur part in
    let made = mkdir cur' perm now m in
    let onward = mkdir_parts cur' parts perm now made.1 in
    elim made.0 [ none ↦ onward | some exist ↦ onward | some e ↦ made ]

-- MkdirAll(name, perm)
unfoldable pub mkdir_all : Bytes → ℕ → ℕ → Memory → Outcome
mkdir_all name perm now m =
    if not (is_valid name)
    then (some invalid, m)
    else if beq name dot
    then (none, m)
    else mkdir_parts [] (split slash name) perm now m

-- Some name has `dir` for its parent.
unfoldable pub has_children : Memory → Bytes → Bool
has_children m dir = any (λ (p, id). beq (parent p) dir) m.nodes

-- delete(m.nodes, name), after the node has lost that name
unfoldable pub drop_name : Memory → Bytes → ℕ → Node → Memory
drop_name m name id n = let m' = release m id n in record m' { nodes = delete name m'.nodes }

unfoldable pub remove_node : Memory → Bytes → ℕ → Node → Outcome
remove_node m name id n =
    if is_directory n.kind && has_children m name
    then (some not_empty, m)
    else (none, drop_name m name id n)

-- Remove(name)
unfoldable pub remove : Bytes → Memory → Outcome
remove name m =
    if beq name dot
    then (some remove_root, m)
    else if not (is_valid name)
    then (some invalid, m)
    else by_lookup (resolve_locked m name false) (λ r id n. remove_node m r id n)
        (λ _. (some panic, m)) (some not_exist, m) (λ e. (some e, m))

-- p == name || strings.HasPrefix(p, name+"/")
unfoldable pub is_below : Bytes → Bytes → Bool
is_below name p = beq p name || has_prefix p (name ++ slash ∷ [])

-- The loop of RemoveAll over the entries: `kept` are those that stay.
unfoldable pub sweep : Bytes → Assoc ℕ → Assoc ℕ → Memory → Memory
sweep name kept [] m = record m { nodes = kept }
sweep name kept ((p, id) ∷ rest) m =
    let keep = sweep name (kept ++ (p, id) ∷ []) rest m in
    let m' = on_option (get_elem? m.heap id) m (λ n. release m id n) in
    let go = sweep name kept rest m' in if is_below name p then go else keep

-- RemoveAll(name)
unfoldable pub remove_all : Bytes → Memory → Outcome
remove_all name m =
    if beq name dot
    then (some remove_root, m)
    else if not (is_valid name)
    then (some invalid, m)
    else by_lookup (resolve_locked m name false) (λ r _ _. (none, sweep r [] m.nodes m))
        (λ r. (none, sweep r [] m.nodes m)) (none, m) (λ e. (some e, m))

-- The entries at or below a name, and the others.
unfoldable pub entries_below : Bool → Bytes → Assoc ℕ → Assoc ℕ
entries_below inside name [] = []
entries_below inside name ((p, id) ∷ rest) =
    let others = entries_below inside name rest in
    if (is_below name p && inside) || not (is_below name p || inside)
    then (p, id) ∷ others
    else others

-- m.nodes[newResolved+strings.TrimPrefix(p, oldResolved)] = v for each moved entry
unfoldable pub enter_moved : Bytes → Bytes → Assoc ℕ → Assoc ℕ → Assoc ℕ
enter_moved old new [] nodes = nodes
enter_moved old new ((p, id) ∷ rest) nodes =
    enter_moved old new rest (put (new ++ trim_prefix p old) id nodes)

unfoldable pub move_entries : Bytes → Bytes → Memory → Memory
move_entries old new m = record m {
  nodes = enter_moved old new (entries_below true old m.nodes) (entries_below false old m.nodes);
}

-- What stands in the way of a rename, as an error or as the state without the node it replaces.
unfoldable pub clear_target : Memory → Node → Bytes → Result Memory
clear_target m n new = on_option (find m new) (ok m) λ (id, old).
    if is_directory old.kind && not (is_directory n.kind)
    then fail is_dir
    else if not (is_directory old.kind) && is_directory n.kind
    then fail not_dir
    else if is_directory old.kind && has_children m new
    then fail not_empty
    else ok (drop_name m new id old)

unfoldable pub rename_to : Memory → Bytes → Node → Result Bytes → Outcome
rename_to m old n (fail e) = (some e, m)
rename_to m old n (ok new) =
    if has_prefix (new ++ slash ∷ []) (old ++ slash ∷ [])
    then (some into_itself, m)
    else elim (clear_target m n new) [
      | fail e ↦ (some e, m)
      | ok m' ↦ (none, move_entries old new m')
    ]

-- Rename(oldName, newName)
unfoldable pub rename : Bytes → Bytes → Memory → Outcome
rename old_name new_name m =
    if not (is_valid old_name) || not (is_valid new_name)
    then (some invalid, m)
    else by_lookup (resolve_locked m old_name false)
        (λ old id n. rename_to m old n (below_parent m new_name)) (λ _. (some panic, m))
        (some not_exist, m) (λ e. (some e, m))

-- The end of Link: newName is looked up as it is written.
unfoldable pub link_node : Memory → Bytes → ℕ → Node → Outcome
link_node m new_name id n =
    if not (is_regular n.kind)
    then (some not_regular, m)
    else on_option (find m new_name)
        (on_option (find m (parent new_name)) (some not_exist, m)
          λ (_, p). if not (is_directory p.kind) then (some not_dir, m) else (
            none,
            record m {
              nodes = put new_name id m.nodes;
              heap = set m.heap id (record n { links = n.links + 1 });
            },
          ))
        (λ _. (some exist, m))

-- Link(oldName, newName)
unfoldable pub link : Bytes → Bytes → Memory → Outcome
link old_name new_name m =
    if not (is_valid new_name)
    then (some invalid, m)
    else by_lookup (resolve_locked m old_name true) (λ _ id n. link_node m new_name id n)
        (λ _. (some panic, m)) (some not_exist, m) (λ e. (some e, m))

-- Chmod(name, mode) and Chtimes(name, _, mtime): a change of the resolved node's metadata
unfoldable pub touch_node : (Node → Node) → Bytes → Memory → Outcome
touch_node f name m =
    by_lookup (resolve_locked m name true)
      (λ _ id n. (none, record m { heap = set m.heap id (f n) })) (λ _. (some panic, m))
      (some not_exist, m) (λ e. (some e, m))

unfoldable pub chmod : Bytes → ℕ → ℕ → Memory → Outcome
chmod name mode now m =
    touch_node (λ n. record n { mode = bit_or (type_bits n.mode) (perm_bits mode); mtime = now })
      name m

unfoldable pub chtimes : Bytes → ℕ → Memory → Outcome
chtimes name mtime m = touch_node (λ n. record n { mtime = mtime }) name m
