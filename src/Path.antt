-- ===== src/Path.antt =====
-- Paths: the lexical functions, and `Name` of pkg/fs/capabilities.go, which takes a path of the
-- shell to a root-relative name; `valid` and `parent` of pkg/fs/memory.go; `Resolve` of
-- internal/commandutil/context.go.
pub mod Lexical
pub mod Split
pub mod Clean
pub mod Laws
pub mod Extend
pub mod Parent
use gash.Prelude.{
  is_empty, Bool, true, false, not, ◌||◌, [], ◌∷◌, Bytes, codes, beq, has_prefix, trim_prefix, ◌≡◌,
  refl, if◌then◌else◌,
}
use gash.Path.Lexical.{slash, dot, root, clean, path_join, dir, valid_path}

-- Name(name)
unfoldable pub fs_name : Bytes → Bytes
unfolding clean trim_prefix beq
fs_name name =
    let name' = clean (slash ∷ trim_prefix name root) in
    if beq name' root then dot else trim_prefix name' root

-- valid(name): true where Go returns nil
unfoldable pub is_valid : Bytes → Bool
unfolding valid_path has_prefix
is_valid name = not (is_empty name || has_prefix name root || not (valid_path name))

-- parent(name)
unfoldable pub parent : Bytes → Bytes
unfolding dir beq
parent name = let p = dir name in if beq p root || is_empty p then dot else p

-- Resolve(base, name)
unfoldable pub resolve : Bytes → Bytes → Bytes
unfolding has_prefix clean path_join
resolve cwd name = if has_prefix name root then clean name else clean (path_join cwd name)

fs_name_example : fs_name (codes "/../etc//passwd") ≡ codes "etc/passwd"
unfolding fs_name
fs_name_example = refl

resolve_example : resolve (codes "/home/user") (codes "../x") ≡ codes "/home/x"
unfolding resolve
resolve_example = refl
