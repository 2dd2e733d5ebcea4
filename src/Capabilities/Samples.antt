-- ===== src/Capabilities/Samples.antt =====
-- Calls of concrete filesystems.
use gash.Prelude.{ℕ, [], ◌∷◌, List, Option, none, some, Bytes, codes, beq, inl, inr, ◌≡◌, refl}
use gash.Path.{fs_name, is_valid}
use gash.Mount.{FileSystem, read_only_system}
use gash.Capabilities.{
  read_file, read_dir, stat, lstat, readlink, virtual_readlink, create_file, write_file,
  append_file, mkdir, mkdir_all, remove, remove_all, rename, symlink, chmod, link, chtimes,
}
use gash.Capabilities.Laws.{guarded, calls_valid}

computing : Unit {0}
unfolding fs_name is_valid beq
computing = tt

abbrev image : FileSystem (List Bytes) ℕ
image = read_only_system (λ name s. inr (codes "x")) (λ name s. inl 2) (λ name s. inl 2)

abbrev keep : Bytes → Bytes → ℕ → List Bytes → Option ℕ × List Bytes
keep name content perm s = (none, name ∷ s)

abbrev forget : Bytes → List Bytes → Option ℕ × List Bytes
forget name s = (some 1, s)

abbrev lax : FileSystem (List Bytes) ℕ
lax = record image { write_file = some keep; remove = some forget }

-- The call itself is refused by the filesystem under the text, and passes under the name.
calls_valid_example :
    let strict = guarded 22 lax in
    let text = codes "/../a" in
    let other = codes "b/" in
    (read_file strict text [] ≡ read_file lax text [])
    × (read_dir strict text [] ≡ read_dir lax text [])
    × (stat strict text [] ≡ stat lax text [])
    × (lstat strict text [] ≡ lstat lax text [])
    × (readlink strict text [] ≡ readlink lax text [])
    × (virtual_readlink strict text [] ≡ virtual_readlink lax text [])
    × (create_file strict text (codes "x") 0o644 [] ≡ create_file lax text (codes "x") 0o644 [])
    × (write_file strict text (codes "x") 0o644 [] ≡ write_file lax text (codes "x") 0o644 [])
    × (append_file strict text (codes "x") 0o644 [] ≡ append_file lax text (codes "x") 0o644 [])
    × (mkdir strict text 0o644 [] ≡ mkdir lax text 0o644 [])
    × (mkdir_all strict text 0o644 [] ≡ mkdir_all lax text 0o644 [])
    × (remove strict text [] ≡ remove lax text [])
    × (remove_all strict text [] ≡ remove_all lax text [])
    × (rename strict text other [] ≡ rename lax text other [])
    × (symlink strict (codes "x") text [] ≡ symlink lax (codes "x") text [])
    × (chmod strict text 0o644 [] ≡ chmod lax text 0o644 [])
    × (link strict text other [] ≡ link lax text other [])
    × (chtimes strict text 0o644 7 [] ≡ chtimes lax text 0o644 7 [])
calls_valid_example = calls_valid 22 lax (codes "/../a") (codes "b/") (codes "x") 0o644 7 []

strict_refuses : (guarded 22 lax).read_file (codes "/../a") [] ≡ inl 22
unfolding computing
strict_refuses = refl
