-- ===== src/Memory/Quota/Writes.antt =====
-- The accounting through the operations of Memory/Write.antt.
use gash.Prelude.{
  ℕ, true, false, not, [], ◌++◌, some, Bytes, length, get_elem?, ◌≡◌, refl, Bool-cases, inl, inr,
  ltb, arith, length-append, get_elem?-last, ◌≤◌, if_cases, on_option_cases, ap,
}
use gash.Path.{is_valid}
use gash.Memory.Node.{
  Result, ok, fail, is_regular, is_directory, Node, Memory, find, alloc, over_quota,
}
use gash.Memory.Write.{
  Outcome, below_parent, new_file, create_at, create_file, write_new, overwrite, write_file,
  append_to, append_new, append_file, mkdir_at, mkdir, symlink_at, symlink_file,
}
use gash.Memory.Found.{lookup_cases}
use gash.Memory.Quota.Sound.{IsSound, find-lookup, weight-found, alloc-IsSound, rewrite-IsSound}

-- The state that an operation leaves is sound, whatever it returns.
abbrev pub Leaves : Outcome → Type 0
Leaves o = IsSound o.1

fits_empty : (m : Memory) → IsSound m → over_quota m 0 0 ≡ false
unfolding over_quota
fits_empty m s = elim (Bool-cases (ltb 0 m.limit)) [
  | inl e ↦ ground (arith, e, s.bounded (ground arith))
  | inr e ↦ ground (arith, e)
]

-- An entry with no data costs nothing.
pub alloc_empty-IsSound :
    (m : Memory) (name : Bytes) (n : Node)
    → IsSound m
    → n.links ≡ 1
    → n.content ≡ []
    → IsSound (alloc m name n)
unfolding alloc
alloc_empty-IsSound m name n s one empty =
    let size : length n.content ≡ 0 = ap length empty in
    let grown = alloc-IsSound m name n s one (rw size (fits_empty m s)) in
    record { held = grown.held; counted = omega (arith, grown.counted, size); bounded = s.bounded }

fits_append :
    (m : Memory) (old new : Bytes)
    → over_quota m 0 (length new) ≡ false
    → over_quota m (length old) (length (old ++ new)) ≡ false
unfolding over_quota
fits_append m old new h = ground (arith, length-append old new)

get_elem?-alloc :
    (m : Memory) (name : Bytes) (n : Node)
    → get_elem? (alloc m name n).heap (length m.heap) ≡ some n
unfolding alloc
get_elem?-alloc m name n = get_elem?-last m.heap n

module _ (m : Memory) (s : IsSound m) where
  create_at-Leaves :
      (r : Result Bytes) (content : Bytes) (perm now : ℕ) → Leaves (create_at m r content perm now)
  unfolding create_at
  create_at-Leaves (fail e) content perm now = s
  create_at-Leaves (ok name) content perm now =
      if_cases Leaves (over_quota m 0 (length content)) _ _ (λ _. s)
        λ fits.
          on_option_cases Leaves (find m name) _ _
            (λ _. alloc-IsSound m name (new_file content perm now) s refl fits) (λ _ _. s)

  pub create_file-Leaves :
      (name content : Bytes) (perm now : ℕ) → Leaves (create_file name content perm now m)
  unfolding create_file
  create_file-Leaves name content perm now =
      if_cases Leaves (not (is_valid name)) _ _ (λ _. s)
        λ _.
          lookup_cases Leaves m name false _ _ _ _ (λ _ _ _ _. s) (λ _. s)
            (create_at-Leaves (below_parent m name) content perm now) (λ _. s)

  write_new-Leaves :
      (r : Result Bytes) (content : Bytes) (perm now : ℕ) → Leaves (write_new m r content perm now)
  unfolding write_new
  write_new-Leaves (fail e) content perm now = s
  write_new-Leaves (ok name) content perm now =
      if_cases Leaves (over_quota m 0 (length content)) _ _ (λ _. s)
        λ fits. alloc-IsSound m name (new_file content perm now) s refl fits

  overwrite-Leaves :
      (r : Bytes) (id : ℕ) (n : Node) (content : Bytes) (perm now : ℕ)
      → find m r ≡ some (id, n)
      → Leaves (overwrite m id n content perm now)
  unfolding overwrite
  overwrite-Leaves r id n content perm now h =
      if_cases Leaves (is_directory n.kind) _ _ (λ _. s)
        λ _.
          if_cases Leaves (over_quota m (length n.content) (length content)) _ _ (λ _. s)
            λ fits.
              rewrite-IsSound m id n _ s (find-lookup m r id n h).1 (weight-found m r id n s h).0
                refl fits

  pub write_file-Leaves :
      (name content : Bytes) (perm now : ℕ) → Leaves (write_file name content perm now m)
  unfolding write_file
  write_file-Leaves name content perm now =
      let new = write_new-Leaves (below_parent m name) content perm now in
      if_cases Leaves (not (is_valid name)) _ _ (λ _. s)
        λ _.
          lookup_cases Leaves m name true _ _ _ _
            (λ r id n h. overwrite-Leaves r id n content perm now h) (λ _. new) new (λ _. s)

  append_to-IsSound :
      (id : ℕ) (n : Node) (content : Bytes) (now : ℕ)
      → get_elem? m.heap id ≡ some n
      → 1 ≤ n.links
      → Leaves (append_to m id n content now)
  unfolding append_to
  append_to-IsSound id n content now g linked =
      if_cases Leaves (not (is_regular n.kind)) _ _ (λ _. s)
        λ _.
          if_cases Leaves (over_quota m 0 (length content)) _ _ (λ _. s)
            λ fits.
              let n' : Node = record n { content = n.content ++ content; mtime = now } in
              let fits' : over_quota m (length n.content) (length n'.content) ≡ false =
                fits_append m n.content content fits in
              let grown = rewrite-IsSound m id n n' s g linked refl fits' in
              record {
                held = grown.held;
                counted = omega (arith, grown.counted, length-append n.content content);
                bounded = λ l. omega (arith, grown.bounded l, length-append n.content content);
              }

append_new-Leaves :
    (m : Memory) (s : IsSound m) (r : Result Bytes) (content : Bytes) (perm now : ℕ)
    → Leaves (append_new m r content perm now)
unfolding append_new
append_new-Leaves m s (fail e) content perm now = s
append_new-Leaves m s (ok name) content perm now =
    let n = new_file [] perm now in
    append_to-IsSound (alloc m name n) (alloc_empty-IsSound m name n s refl refl) (length m.heap) n
      content now (get_elem?-alloc m name n) (omega arith)

module _ (m : Memory) (s : IsSound m) where
  pub append_file-Leaves :
      (name content : Bytes) (perm now : ℕ) → Leaves (append_file name content perm now m)
  unfolding append_file
  append_file-Leaves name content perm now =
      let new = append_new-Leaves m s (below_parent m name) content perm now in
      if_cases Leaves (not (is_valid name)) _ _ (λ _. s)
        λ _.
          lookup_cases Leaves m name true _ _ _ _
            (λ r id n h.
              append_to-IsSound m s id n content now (find-lookup m r id n h).1
                (weight-found m r id n s h).0)
            (λ _. new) new (λ _. s)

  mkdir_at-Leaves : (r : Result Bytes) (perm now : ℕ) → Leaves (mkdir_at m r perm now)
  unfolding mkdir_at
  mkdir_at-Leaves (fail e) perm now = s
  mkdir_at-Leaves (ok name) perm now =
      on_option_cases Leaves (find m name) _ _ (λ _. alloc_empty-IsSound m name _ s refl refl)
        (λ _ _. s)

  pub mkdir-Leaves : (name : Bytes) (perm now : ℕ) → Leaves (mkdir name perm now m)
  unfolding mkdir
  mkdir-Leaves name perm now =
      if_cases Leaves (not (is_valid name)) _ _ (λ _. s)
        λ _.
          lookup_cases Leaves m name true _ _ _ _ (λ _ _ _ _. s) (λ _. s)
            (mkdir_at-Leaves (below_parent m name) perm now) (λ _. s)

  symlink_at-Leaves :
      (r : Result Bytes) (target : Bytes) (now : ℕ) → Leaves (symlink_at m r target now)
  unfolding symlink_at
  symlink_at-Leaves (fail e) target now = s
  symlink_at-Leaves (ok name) target now = alloc_empty-IsSound m name _ s refl refl

  pub symlink_file-Leaves :
      (target name : Bytes) (now : ℕ) → Leaves (symlink_file target name now m)
  unfolding symlink_file
  symlink_file-Leaves target name now =
      if_cases Leaves (not (is_valid name)) _ _ (λ _. s)
        λ _.
          lookup_cases Leaves m name false _ _ _ _ (λ _ _ _ _. s) (λ _. s)
            (symlink_at-Leaves (below_parent m name) target now) (λ _. s)
