-- ===== src/Path/Lexical.antt =====
-- The functions of Go's `strings` and `path` packages that the filesystems call, on texts given as
-- their code points: Split, Join, path.Clean, path.Join, path.Dir, path.Base, io/fs.ValidPath.
use mathlib.Core.List.{foldl, reverse}
use gash.Prelude.{
  is_empty, ℕ, Bool, not, ◌&&◌, ◌||◌, List, [], ◌∷◌, ◌++◌, Bytes, codes, beq, has_prefix, ◌==◌, ◌≡◌,
  refl, if◌then◌else◌, all,
}

abbrev pub slash : ℕ
slash = b'/'

abbrev pub dot : Bytes
dot = b'.' ∷ []

abbrev pub dotdot : Bytes
dotdot = b'.' ∷ b'.' ∷ []

abbrev pub root : Bytes
root = slash ∷ []

abbrev pub on_head {ℓ} : {A : Type ℓ} → (A → A) → List A → List A
on_head f [] = []
on_head f (x ∷ xs) = f x ∷ xs

-- strings.Split(s, c) for a separator of one character
unfoldable pub split : ℕ → Bytes → List Bytes
split c [] = [] ∷ []
split c (x ∷ xs) = let rest = split c xs in if x == c then [] ∷ rest else on_head (λ w. x ∷ w) rest

-- strings.Join(parts, c)
unfoldable pub join : ℕ → List Bytes → Bytes
join c [] = []
join c (p ∷ []) = p
join c (p ∷ ps) = p ++ c ∷ join c ps

-- One element of a path against the elements kept so far, the last one first.
unfoldable pub clean_step : Bool → List Bytes → Bytes → List Bytes
clean_step rooted [] part =
    if is_empty part || beq part dot
    then []
    else if beq part dotdot
    then (if rooted then [] else part ∷ [])
    else part ∷ []
clean_step rooted (top ∷ kept) part =
    if is_empty part || beq part dot
    then top ∷ kept
    else if beq part dotdot
    then (if beq top dotdot then part ∷ top ∷ kept else kept)
    else part ∷ top ∷ kept

unfoldable pub clean_parts : Bool → List Bytes → List Bytes
clean_parts rooted parts = reverse (foldl (clean_step rooted) [] parts)

-- path.Clean(p)
unfoldable pub clean : Bytes → Bytes
unfolding has_prefix clean_parts clean_step split join beq
clean p =
    let rooted = has_prefix p root in
    let body = join slash (clean_parts rooted (split slash p)) in
    if rooted then slash ∷ body else if is_empty body then dot else body

-- path.Join(a, b)
unfoldable pub path_join : Bytes → Bytes → Bytes
unfolding clean
path_join [] [] = []
path_join [] (b ∷ bs) = clean (b ∷ bs)
path_join (a ∷ r) [] = clean (a ∷ r)
path_join (a ∷ r) (b ∷ bs) = clean ((a ∷ r) ++ slash ∷ b ∷ bs)

-- The text up to its last slash, the slash included, and the text behind it, as path.Split.
unfoldable pub split_last : Bytes → Bytes × Bytes
split_last [] = ([], [])
split_last (x ∷ xs) =
    let (dir, file) = split_last xs in
    if is_empty dir && not (x == slash) then ([], x ∷ file) else (x ∷ dir, file)

-- path.Dir(p)
unfoldable pub dir : Bytes → Bytes
unfolding split_last clean
dir p = clean (split_last p).0

unfoldable pub trim_slashes : Bytes → Bytes
trim_slashes [] = []
trim_slashes (x ∷ xs) =
    let rest = trim_slashes xs in if is_empty rest && x == slash then [] else x ∷ rest

-- path.Base(p)
unfoldable pub base : Bytes → Bytes
unfolding split_last trim_slashes
base [] = dot
base (x ∷ xs) =
    let name = (split_last (trim_slashes (x ∷ xs))).1 in if is_empty name then root else name

-- An element that ValidPath accepts.
unfoldable pub is_name : Bytes → Bool
unfolding beq
is_name part = not (is_empty part || beq part dot || beq part dotdot)

-- io/fs.ValidPath(name); the texts of the model are valid UTF-8
unfoldable pub valid_path : Bytes → Bool
unfolding is_name split beq
valid_path name = beq name dot || all is_name (split slash name)

clean_example : clean (codes "/a/../../b//c/./") ≡ codes "/b/c"
unfolding clean
clean_example = refl

clean_relative : clean (codes "../a/../../b") ≡ codes "../../b"
unfolding clean
clean_relative = refl

dir_example : dir (codes "a/b/c") ≡ codes "a/b"
unfolding dir
dir_example = refl

base_example : base (codes "a/b/c//") ≡ codes "c"
unfolding base
base_example = refl
