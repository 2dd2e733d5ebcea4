-- ===== src/Overlay/Absent.antt =====
-- A name that the upper layer of pkg/fs/overlay.go does not have stays so while its parents are
-- made and while its marker is written.
use gash.Prelude.{
  ℕ, Bool, true, false, false≢true, not, List, [], ◌∷◌, ◌++◌, Option, none, some, Bytes, beq, all,
  is_empty, length, length-append, if_cases, ◌≡◌, ◌≤◌, ◌<◌, refl, sym, ap, subst, ◌∙◌, inl, inr,
  arith,
}
use gash.Path.{fs_name, is_valid}
use gash.Path.Lexical.{slash, split, is_name}
use gash.Path.Clean.{is_proper, name_of, split-name_of}
use gash.Path.Parent.{proper-HasShorterParent}
use gash.Path.Laws.{name_of-is_valid, valid-parts, fs_name-is_valid}
use gash.Capabilities.{AccessError}
use gash.Capabilities
use gash.Overlay.{
  Overlay, OverlayError, invalid, not_dir, is_not_exist, is_exist, succeeds, on_result_cases, raw,
  done, ◌>>◌, is_dir_mode,
}
use gash.Overlay.Names.{whiteout_name, rejects_whiteout, extended, is_root_name}
use gash.Overlay.View.{upper_lstat, stat}
use gash.Overlay.Dirs.{
  copied_perm, make_dir, ensure_dir, walk_dir, walk_parts, walk_dirs, materialize_parents,
  set_whiteout,
}
use gash.Overlay.Markers.{
  current_of, proper-snoc, extended-current_of, current_of-is_valid, whiteout_name-is_valid,
  rejects_whiteout-whiteout_name,
}
use gash.Overlay.Keeps.{unless-state, done-state, >>-keeps}
use gash.Overlay.Hidden.{UpperLaws, Apart, whole, whole-join, marked, marker-ne_root}

length-whole :
    (current : Bytes) (parts : List Bytes) → length current ≤ length (whole current parts)
length-whole current [] = omega arith
length-whole [] (q ∷ parts) = omega arith
length-whole (x ∷ xs) (q ∷ parts) =
    omega (arith, length-whole (extended (x ∷ xs) q) parts, length-append (x ∷ xs) (slash ∷ q))

module _ {U L E : Type 0} (o : Overlay U L E) {Ordered : U → Type 0}
    (laws : UpperLaws o Ordered) where
  abbrev pub Absent : Bytes → U → Type 0
  Absent n u = Ordered u × (succeeds (upper_lstat o n u) ≡ false)

  abbrev AbsentThen : Bytes → Option (OverlayError E) × U → Type 0
  AbsentThen n r = Absent n r.1

  make_dir-Absent :
      (m n : Bytes) (perm : ℕ) (u : U) → Apart m n → Absent n u → Absent n (make_dir o m perm u).1
  unfolding make_dir
  make_dir-Absent m n perm u ne h =
      let r = Capabilities.mkdir o.upper m perm u in
      subst (Absent n) (sym (unless-state (is_exist o.tests) (done r) ∙ done-state r))
        (laws.mkdir_keeps_order m perm u h.0, laws.mkdir_keeps m n perm u ne h.0 h.1)

  ensure_dir-Absent :
      (m n : Bytes) (perm : ℕ) (create : Bool) (u : U)
      → Apart m n
      → Absent n u
      → Absent n (ensure_dir o m perm create u).1
  unfolding ensure_dir
  ensure_dir-Absent m n perm create u ne h =
      on_result_cases (AbsentThen n) (stat o m u) _ _
        (λ e _.
          if_cases (AbsentThen n) _ (make_dir o m perm u) (some e, u)
            (λ _. make_dir-Absent m n perm u ne h) (λ _. h))
        (λ info _.
          if_cases (AbsentThen n) _ (make_dir o m (copied_perm info.mode) u) (some not_dir, u)
            (λ _. make_dir-Absent m n (copied_perm info.mode) u ne h) (λ _. h))

  walk_dir-Absent :
      (m n : Bytes) (perm : ℕ) (create : Bool) (u : U)
      → Apart m n
      → Absent n u
      → Absent n (walk_dir o m perm create u).1
  unfolding walk_dir
  walk_dir-Absent m n perm create u ne h =
      on_result_cases (AbsentThen n) (raw (o.upper.stat m u)) _ _
        (λ e _.
          if_cases (AbsentThen n) (not (is_not_exist o.tests e)) (some e, u)
            (ensure_dir o m perm create u) (λ _. h) (λ _. ensure_dir-Absent m n perm create u ne h))
        (λ info _.
          if_cases (AbsentThen n) (not (is_dir_mode info.mode)) (some not_dir, u) (none, u) (λ _. h)
            (λ _. h))

  walk_parts-Absent :
      (n : Bytes) (ps parts : List Bytes) (perm : ℕ) (create : Bool) (u : U)
      → all is_proper ps ≡ true
      → all is_proper parts ≡ true
      → is_valid n ≡ true
      → length (whole (current_of ps) parts) < length n
      → Absent n u
      → Absent n (walk_parts o (current_of ps) parts perm create u).1
  unfolding walk_parts
  walk_parts-Absent n ps [] perm create u hp hq valid lt h = h
  walk_parts-Absent n ps (q ∷ parts) perm create u hp hq valid lt h =
      let next = extended (current_of ps) q in
      let e : next ≡ current_of (ps ++ q ∷ []) = extended-current_of ps q hp (ground arith) in
      let shorter : length next < length n = omega (arith, length-whole next parts) in
      >>-keeps (Absent n) (walk_dir o next perm create u) (walk_parts o next parts perm create)
        (walk_dir-Absent next n perm create u
          (
            ap is_valid e ∙ current_of-is_valid ps q hp (ground arith),
            valid,
            λ same. omega (arith, ap length same),
          )
          h)
        (λ v k.
          subst
            (λ c.
              length (whole c parts) < length n → Absent n (walk_parts o c parts perm create v).1)
            (sym e)
            (λ l.
              walk_parts-Absent n (ps ++ q ∷ []) parts perm create v
                (proper-snoc ps q hp (ground arith)) (ground arith) valid l k)
            lt)

  walk_dirs-Absent :
      (n : Bytes) (qs : List Bytes) (perm : ℕ) (create : Bool) (u : U)
      → all is_proper qs ≡ true
      → is_valid n ≡ true
      → length (name_of qs) < length n
      → Absent n u
      → Absent n (walk_dirs o (name_of qs) perm create u).1
  unfolding walk_dirs is_name
  walk_dirs-Absent n [] perm create u proper valid lt h = h
  walk_dirs-Absent n ([] ∷ qs) perm create u proper valid lt h = ground arith
  walk_dirs-Absent n ((x ∷ q) ∷ qs) perm create u proper valid lt h =
      let name = name_of ((x ∷ q) ∷ qs) in
      if_cases (AbsentThen n) (is_root_name name) (none, u)
        (walk_parts o [] (split slash name) perm create u) (λ _. h)
        (λ _. rw (split-name_of (x ∷ q) qs proper) (
          walk_parts-Absent n [] ((x ∷ q) ∷ qs) perm create u refl proper valid
            (rw (whole-join x q qs) lt) h))

  materialize_parents-Absent :
      (ps : List Bytes) (u : U)
      → all is_proper ps ≡ true
      → Absent (name_of ps) u
      → Absent (name_of ps) (materialize_parents o (name_of ps) u).1
  unfolding materialize_parents walk_dirs beq
  materialize_parents-Absent ps u proper h = elim (proper-HasShorterParent ps proper) [
    | inl e ↦ subst (λ m. Absent (name_of ps) (walk_dirs o m 0 false u).1) (sym e) h
    | inr (qs, k, e, lt) ↦
        subst (λ m. Absent (name_of ps) (walk_dirs o m 0 false u).1) (sym e)
          (walk_dirs-Absent (name_of ps) qs 0 false u k (name_of-is_valid ps proper) lt h)
  ]

  marked-Absent :
      (text : Bytes) (u : U)
      → is_root_name (fs_name text) ≡ false
      → rejects_whiteout (fs_name text) ≡ false
      → Absent (fs_name text) u
      → Absent (fs_name text) (marked o (fs_name text) u).1
  marked-Absent text u r proper h =
      let n = fs_name text in
      let m = whiteout_name n in
      let write : Option (AccessError E) × U = Capabilities.write_file o.upper m [] 0o600 u in
      if_cases (AbsentThen n) (succeeds (upper_lstat o m u)) (none, u) (done write) (λ _. h)
        (λ _. subst (Absent n) (sym (done-state write)) (
          laws.write_keeps_order m [] 0o600 u h.0,
          laws.write_keeps m n u
              (
                whiteout_name-is_valid text r,
                fs_name-is_valid text,
                λ e.
                    false≢true (
                      sym proper
                      ∙ ap rejects_whiteout (sym e)
                      ∙ rejects_whiteout-whiteout_name n r),
              )
              h.0 h.1,
        ))

  pub set_whiteout-Absent :
      (text : Bytes) (u : U)
      → rejects_whiteout (fs_name text) ≡ false
      → Absent (fs_name text) u
      → Absent (fs_name text) (set_whiteout o (fs_name text) u).1
  unfolding set_whiteout
  set_whiteout-Absent text u proper h =
      let name = fs_name text in
      let (ps, k, e) = valid-parts name (fs_name-is_valid text) in
      if_cases (AbsentThen name) (is_empty (whiteout_name name)) (some invalid, u)
        (materialize_parents o name u >> marked o name) (λ _. h)
        (λ r.
          >>-keeps (Absent name) (materialize_parents o name u) (marked o name)
            (subst (λ n. Absent n u → Absent n (materialize_parents o n u).1) (sym e)
              (materialize_parents-Absent ps u k) h)
            (λ v. marked-Absent text v (marker-ne_root name r) proper))
