-- ===== src/Mount/Busy.antt =====
-- What is above a mount point of pkg/fs/mount.go has an entry of childMounts, and the operations of
-- pkg/fs/mount_write.go refuse to change it.
use gash.Prelude.{
  ℕ, true, false, not, ◌&&◌, ◌||◌, List, [], ◌∷◌, ◌++◌, none, some, Bytes, beq, beq_refl, all,
  is_empty, if◌then◌else◌, if_cases, has_prefix, trim_prefix, trim_prefix-append, has_prefix-append,
  append_assoc, append-nil, inl, inr, ◌≡◌, refl, sym, ap, subst, ◌∙◌, arith,
}
use gash.Assoc.{Assoc, lookup}
use gash.Path.{fs_name}
use gash.Path.Lexical.{slash, dot, split, join, is_name}
use gash.Path.Clean.{is_proper, name_of, split-name_of, all-append}
use gash.Path.Extend.{name_of-ne-dot}
use gash.Mount.{
  FileSystem, busy, Mountable, is_mount_point, insert_name, first_part, child_names, child_mounts,
  has_virtual_dir,
}
use gash.Mount.Write.{remove, remove_all, mkdir_all, rename_within}
use gash.Mount.Route.{IsMounted}
use gash.Mount.Points.{IsMounted-lookup}
use gash.Mount.Laws.{fs_name_idem}

join-append :
    (p q : Bytes) (ps qs : List Bytes)
    → join slash ((p ∷ ps) ++ q ∷ qs) ≡ join slash (p ∷ ps) ++ slash ∷ join slash (q ∷ qs)
unfolding join
join-append p q [] qs = refl
join-append p q (r ∷ ps) qs =
    ap (λ s. p ++ slash ∷ s) (join-append r q ps qs)
    ∙ sym (append_assoc p (slash ∷ join slash (r ∷ ps)) (slash ∷ join slash (q ∷ qs)))

insert_name-nonempty : (n : Bytes) (ks : List Bytes) → is_empty (insert_name n ks) ≡ false
unfolding insert_name
insert_name-nonempty n [] = refl
insert_name-nonempty n (k ∷ ks) = ground arith

-- The prefix that childMounts takes away.
abbrev child_prefix : Bytes → Bytes
child_prefix name = if beq name dot then [] else name ++ slash ∷ []

-- A mount point that has an element below a name.
abbrev HasChild : Bytes → Bytes → Type 0
HasChild prefix point =
    (has_prefix point prefix ≡ true)
    × (is_empty (first_part (split slash (trim_prefix point prefix))) ≡ false)

below-HasChild :
    (q : Bytes) (ps qs : List Bytes)
    → all is_proper (ps ++ q ∷ qs) ≡ true
    → HasChild (child_prefix (name_of ps)) (name_of (ps ++ q ∷ qs))
unfolding is_name has_prefix trim_prefix
below-HasChild q [] qs h = rw (beq_refl dot) (refl, rw (split-name_of q qs h) (ground (arith, h)))
below-HasChild q (p ∷ ps) qs h =
    let name = name_of (p ∷ ps) in
    let rest = name_of (q ∷ qs) in
    let parts = all-append is_proper (p ∷ ps) (q ∷ qs) in
    let e : name_of ((p ∷ ps) ++ q ∷ qs) ≡ (name ++ slash ∷ []) ++ rest =
      join-append p q ps qs ∙ sym (append_assoc name (slash ∷ []) rest) in
    rw
      (
        name_of-ne-dot p ps (ground (arith, h, parts)),
        e,
        trim_prefix-append (name ++ slash ∷ []) rest,
      )
      (
        has_prefix-append (name ++ slash ∷ []) rest,
        rw (split-name_of q qs (ground (arith, h, parts))) (ground (arith, h, parts)),
      )

module _ {S E : Type 0} where
  child_names-nonempty :
      (prefix point : Bytes) (f : FileSystem S E) (m : Assoc (FileSystem S E))
      → HasChild prefix point
      → IsMounted point f m
      → is_empty (child_names prefix m) ≡ false
  unfolding child_names
  child_names-nonempty prefix point f [] c i = absurd i
  child_names-nonempty prefix point f ((k, g) ∷ m) c (inl (e, _)) =
      let child = first_part (split slash (trim_prefix k prefix)) in
      let (starts, named) = subst (HasChild prefix) e c in
      if_cases (λ l. is_empty l ≡ false) (has_prefix k prefix && not (is_empty child))
        (insert_name child (child_names prefix m)) (child_names prefix m)
        (λ _. insert_name-nonempty child (child_names prefix m))
        (λ t. ground (arith, t, starts, named))
  child_names-nonempty prefix point f ((k, g) ∷ m) c (inr i) =
      let child = first_part (split slash (trim_prefix k prefix)) in
      if_cases (λ l. is_empty l ≡ false) (has_prefix k prefix && not (is_empty child))
        (insert_name child (child_names prefix m)) (child_names prefix m)
        (λ _. insert_name-nonempty child (child_names prefix m))
        (λ _. child_names-nonempty prefix point f m c i)

  -- The test of the operations.
  kept_lem :
      (ps below : List Bytes) (m : Mountable S E) (f : FileSystem S E)
      → all is_proper (ps ++ below) ≡ true
      → lookup (name_of (ps ++ below)) m.mounts ≡ some f
      → fs_name (name_of ps) ≡ name_of ps
      → is_mount_point (name_of ps) m || has_virtual_dir (name_of ps) m ≡ true
  unfolding is_mount_point has_virtual_dir child_mounts
  kept_lem ps [] m f h e k = rw (k, rw (append-nil ps) at e) refl
  kept_lem ps (q ∷ qs) m f h e k =
      let child =
        child_names-nonempty (child_prefix (name_of ps)) (name_of (ps ++ q ∷ qs)) f m.mounts
          (below-HasChild q ps qs h) (IsMounted-lookup (name_of (ps ++ q ∷ qs)) m.mounts f e) in
      ground (arith, child)

  -- Where a filesystem is mounted at a name or anywhere below it, the name cannot be removed, nor
  -- renamed; MkdirAll of it succeeds. The filesystems are not called. `ps` are the elements of the
  -- name and `below` those of the mount point below it.
  pub busy_lem :
      (text new_name : Bytes) (perm : ℕ) (ps below : List Bytes) (m : Mountable S E)
      (f : FileSystem S E) (s : S)
      → fs_name text ≡ name_of ps
      → all is_proper (ps ++ below) ≡ true
      → lookup (name_of (ps ++ below)) m.mounts ≡ some f
      → (remove text m s ≡ (some busy, s))
        × (remove_all text m s ≡ (some busy, s))
        × (rename_within text new_name m s ≡ some (some busy, s))
        × (mkdir_all text perm m s ≡ (none, s))
  unfolding remove remove_all rename_within mkdir_all
  busy_lem text new_name perm ps below m f s name proper mounted =
      let idem = ap fs_name (sym name) ∙ fs_name_idem text ∙ name in
      rw (name, kept_lem ps below m f proper mounted idem) (refl, refl, refl, refl)
