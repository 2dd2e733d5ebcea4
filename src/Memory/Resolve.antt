-- ===== src/Memory/Resolve.antt =====
-- resolveLocked of pkg/fs/memory.go.
use gash.Prelude.{
  is_empty, on_option, ◌&&◌, ℕ, zero, suc, Bool, not, ◌&&◌, ◌||◌, List, [], ◌∷◌, Option, none, some,
  Bytes, beq, has_prefix, if◌then◌else◌,
}
use gash.Path.{fs_name, is_valid}
use gash.Path.Lexical.{slash, dot, root, split, join, clean, path_join, dir}
use gash.Memory.Node.{Err, not_dir, invalid, loop, Node, Memory, find, is_symlink, is_directory}

-- How one pass over the elements of a name ends.
pub data Walk : Type 0 where
  finished : Walk
  restart : Bytes → Walk
  missing : Bytes → Walk
  blocked : Walk

-- The name that a symbolic link met at `cur` leads to, with the elements that follow it.
unfoldable pub redirect : Bytes → Bytes → List Bytes → Bytes
redirect cur target rest = clean (
    path_join (if has_prefix target root then fs_name target else path_join (dir cur) target)
      (join slash rest))

-- The body of the inner loop at a node; `next` is the rest of the loop.
unfoldable pub walk_node : Bool → Bytes → List Bytes → Node → Walk → Walk
walk_node follow cur rest n next =
    if is_symlink n.kind && (follow || not (is_empty rest))
    then restart (redirect cur n.target rest)
    else if not (is_empty rest) && not (is_directory n.kind)
    then blocked
    else next

unfoldable pub walk : Memory → Bool → Bytes → List Bytes → Walk
walk m follow cur [] = finished
walk m follow cur (part ∷ rest) =
    let skip = walk m follow cur rest in
    let cur' = if beq cur dot then part else path_join cur part in
    let next = walk m follow cur' rest in
    if beq part dot || is_empty part
    then skip
    else on_option (find m cur') (missing cur') (λ (id, n). walk_node follow cur' rest n next)

-- What resolveLocked returns: a name and a node, which may be nil; ErrNotExist; another error.
pub data Resolved : Type 0 where
  found : Bytes → Option (ℕ × Node) → Resolved
  absent : Bytes → Resolved
  failed : Err → Resolved

-- The outer loop, with the rounds that are left.
unfoldable pub resolve_loop : ℕ → Memory → Bool → Bytes → Resolved
resolve_loop zero m follow name = failed loop
resolve_loop (suc rounds) m follow name =
    if not (is_valid name) then failed invalid else elim (walk m follow dot (split slash name)) [
      | finished ↦ found name (find m name)
      | restart name' ↦ resolve_loop rounds m follow name'
      | missing cur ↦ absent cur
      | blocked ↦ failed not_dir
    ]

-- links := 0; links <= 40
unfoldable pub resolve_locked : Memory → Bytes → Bool → Resolved
resolve_locked m name follow = resolve_loop 41 m follow name

-- What an operation does with it: at a node, at a nil node, at ErrNotExist, at another error.
abbrev pub by_lookup {ℓ} :
    {A : Type ℓ} → Resolved → (Bytes → ℕ → Node → A) → (Bytes → A) → A → (Err → A) → A
by_lookup (found r (some (id, n))) hit nil gone bad = hit r id n
by_lookup (found r none) hit nil gone bad = nil r
by_lookup (absent cur) hit nil gone bad = gone
by_lookup (failed e) hit nil gone bad = bad e
