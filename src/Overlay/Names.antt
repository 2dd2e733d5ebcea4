-- ===== src/Overlay/Names.antt =====
-- The reserved names of pkg/fs/overlay.go: whiteout markers.
use gash.Prelude.{
  Bool, ◌||◌, List, [], ◌∷◌, ◌++◌, Bytes, codes, beq, has_prefix, any, is_empty, if◌then◌else◌,
}
use gash.Path.{parent}
use gash.Path.Lexical.{slash, dot, split, base}

-- whiteoutPrefix
abbrev pub whiteout_prefix : Bytes
whiteout_prefix = codes ".wh."

-- join(dir, base)
unfoldable pub join_name : Bytes → Bytes → Bytes
join_name dir name = if beq dir dot || is_empty dir then name else dir ++ slash ∷ name

-- whiteoutName(name); parentName is the same function as parent of pkg/fs/memory.go
unfoldable pub whiteout_name : Bytes → Bytes
whiteout_name name =
    if beq name dot || is_empty name
    then []
    else if beq (parent name) dot
    then whiteout_prefix ++ base name
    else parent name ++ slash ∷ (whiteout_prefix ++ base name)

-- isWhiteoutName(base)
unfoldable pub is_whiteout_name : Bytes → Bool
is_whiteout_name name = has_prefix name whiteout_prefix

-- rejectWhiteout(op, name): whether it returns an error
unfoldable pub rejects_whiteout : Bytes → Bool
rejects_whiteout name = any is_whiteout_name (split slash name)

-- current, as the loops over the parts of a name extend it
abbrev pub extended : Bytes → Bytes → Bytes
extended current part = if is_empty current then part else current ++ slash ∷ part

-- The values of `current`.
unfoldable pub prefixes : Bytes → List Bytes → List Bytes
prefixes current [] = []
prefixes current (part ∷ parts) = extended current part ∷ prefixes (extended current part) parts

-- name == "." || name == ""
abbrev pub is_root_name : Bytes → Bool
is_root_name name = beq name dot || is_empty name
