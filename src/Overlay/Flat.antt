-- ===== src/Overlay/Flat.antt =====
-- Flat filesystems, tables from the names to the contents and modes, and an overlay of two.
use gash.Prelude.{
  ℕ, ◌+◌, List, [], ◌∷◌, Option, none, some, Bytes, codes, beq, length, if◌then◌else◌, on_option,
  ◌⊎◌, inl, inr,
}
use gash.Assoc.{Assoc, lookup, put, delete}
use gash.Path.{parent}
use gash.Path.Lexical.{dot, base}
use gash.Memory.Node.{mode_dir}
use gash.Mount.{FileSystem, read_only_system, Info}
use gash.Overlay.{Overlay, ErrorTests}

abbrev pub Table : Type 0
Table = Assoc (Bytes × ℕ)

abbrev pub info_of : Bytes → Bytes × ℕ → Info
info_of name (content, mode) = record {
  name = base name;
  size = length content;
  mode = mode;
  mtime = 0;
}

abbrev pub flat_stat : Bytes → Table → ℕ ⊎ Info
flat_stat name t = on_option (lookup name t) (inl 2) (λ e. inr (info_of name e))

abbrev pub flat_read : Bytes → Table → ℕ ⊎ Bytes
flat_read name t = on_option (lookup name t) (inl 2) (λ e. inr e.0)

abbrev pub children : Bytes → Table → List Info
children name [] = []
children name ((n, e) ∷ t) =
    let rest = children name t in if beq (parent n) name then info_of n e ∷ rest else rest

abbrev pub flat_list : Bytes → Table → ℕ ⊎ List Info
flat_list name t =
    if beq name dot
    then inr (children name t)
    else on_option (lookup name t) (inl 2) (λ e. inr (children name t))

abbrev pub flat_write : Bytes → Bytes → ℕ → Table → Option ℕ × Table
flat_write name content perm t = (none, put name (content, perm) t)

abbrev pub flat_mkdir : Bytes → ℕ → Table → Option ℕ × Table
flat_mkdir name perm t =
    on_option (lookup name t) (none, put name ([], mode_dir + perm) t) (λ _. (some 17, t))

abbrev pub flat_remove : Bytes → Table → Option ℕ × Table
flat_remove name t = on_option (lookup name t) (some 2, t) (λ _. (none, delete name t))

abbrev pub image : FileSystem Table ℕ
image = read_only_system flat_read flat_stat flat_list

abbrev pub flat : FileSystem Table ℕ
flat = record image {
  write_file = some flat_write;
  mkdir = some flat_mkdir;
  remove = some flat_remove;
}

abbrev pub numbers : ErrorTests ℕ
numbers = record {
  not_exist_test = λ e. beq (e ∷ []) (2 ∷ []);
  exist_test = λ e. beq (e ∷ []) (17 ∷ []);
  read_only_test = λ e. beq (e ∷ []) (30 ∷ []);
}

abbrev pub below : Table
below =
    (codes "a", ([], mode_dir + 0o755))
    ∷ (codes "a/x", (codes "lower", 0o644))
    ∷ (codes "a/.wh.y", (codes "marked", 0o644))
    ∷ []

abbrev pub overlay : Overlay Table Table ℕ
overlay = record { upper = flat; lower = image; lower_state = below; tests = numbers }
