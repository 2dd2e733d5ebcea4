-- ===== src/Overlay/MemoryUpper.antt =====
-- The laws of the upper layer of pkg/fs/overlay.go, for the filesystem of pkg/fs/memory.go while its
-- nodes make a tree without links.
use gash.Prelude.{
  ℕ, Bool, true, false, [], Option, none, some, Bytes, beq, beq_iff, if◌then◌else◌, if_cases,
  Bool-cases, ◌≢◌, ◌≡◌, refl, sym, ap, subst, ◌∙◌, inl, inr, arith,
}
use gash.Path.{fs_name, is_valid}
use gash.Path.Laws.{fs_name-is_valid, fs_name-valid}
use gash.Path.Lexical.{base}
use gash.Memory.Node.{Err, Result, ok, fail, ◌>>=◌, Node, Memory}
use gash.Memory.Read
use gash.Memory.Write.{Outcome}
use gash.Memory.Write
use gash.Memory.Names
use gash.Memory.Tree.{IsTree, kind_at}
use gash.Memory.TreeLookup.{is_ok, node_at-there, node_at-gone, node_at-not_ok}
use gash.Memory.TreeOps.{HasFile, write_file-Wrote, mkdir-Made}
use gash.Memory.TreeRemove.{remove-Removed}
use gash.Mount.{FileSystem}
use gash.Capabilities.{AccessError, Status, null_info, dev_null, changed, status_of}
use gash.Capabilities
use gash.Overlay.{succeeds, called}
use gash.Overlay.View.{upper_lstat}
use gash.Overlay.Hidden.{UpperLaws, Apart}
use gash.Overlay.MemoryLayer.{answered_info, memory_system, over_memory}

lstat_ok :
    (b : Bool) (x : Result (Bytes × Node))
    → succeeds (
        called
          (if b then inr null_info else status_of (answered_info (x >>= λ (r, n). ok (base r, n)))))
      ≡ (if b then true else is_ok x)
lstat_ok true x = refl
lstat_ok false (ok (r, n)) = refl
lstat_ok false (fail e) = refl

pub changed-state : (r : Outcome) → (changed r).1 ≡ r.1
changed-state (none, m) = refl
changed-state (some e, m) = refl

changed-none : (r : Outcome) (v : Memory) → changed r ≡ (none, v) → (r.0 ≡ none) × (r.1 ≡ v)
changed-none (none, m) v h = (refl, ap (λ x. x.1) h)
changed-none (some e, m) v h = cc h

-- Nothing stands under a name that is not the null device's.
abbrev Nothing : Bytes → Memory → Type 0
Nothing n m = (beq (fs_name n) dev_null ≡ false) × (kind_at m (fs_name n) ≡ none)

module _ {L : Type 0} (now : ℕ) (lower : FileSystem L Err) (lower_state : L) where
  upper_lstat-ok :
      (name : Bytes) (m : Memory)
      → succeeds (upper_lstat (over_memory now lower lower_state) name m) ≡ (
          if beq (fs_name name) dev_null then true else is_ok (Read.node_at m (fs_name name) false))
  unfolding upper_lstat Capabilities.lstat Read.stat
  upper_lstat-ok name m =
      lstat_ok (beq (fs_name name) dev_null) (Read.node_at m (fs_name name) false)

  lstat-Nothing :
      (n : Bytes) (m : Memory)
      → IsTree m
      → succeeds (upper_lstat (over_memory now lower lower_state) n m) ≡ false
      → Nothing n m
  lstat-Nothing n m t h =
      let tests : (beq (fs_name n) dev_null ≡ false)
          × (is_ok (Read.node_at m (fs_name n) false) ≡ false) =
        both (beq (fs_name n) dev_null) (is_ok (Read.node_at m (fs_name n) false))
          (sym (upper_lstat-ok n m) ∙ h) in
      (tests.0, node_at-not_ok m t (fs_name n) false (fs_name-is_valid n) tests.1)
    where
      both : (b c : Bool) → (if b then true else c) ≡ false → (b ≡ false) × (c ≡ false)
      both b c e = ground (arith, e)

  Nothing-lstat :
      (n : Bytes) (m : Memory)
      → IsTree m
      → Nothing n m
      → succeeds (upper_lstat (over_memory now lower lower_state) n m) ≡ false
  Nothing-lstat n m t (live, gone) =
      upper_lstat-ok n m
      ∙ ap (λ b. if b then true else is_ok (Read.node_at m (fs_name n) false)) live
      ∙ node_at-gone m t (fs_name n) false (fs_name-is_valid n) gone

  pub write_keeps_IsTree :
      (m content : Bytes) (perm : ℕ) (u : Memory)
      → IsTree u
      → IsTree (Capabilities.write_file (memory_system now) m content perm u).1
  unfolding Capabilities.write_file
  write_keeps_IsTree m content perm u t =
      let out = Write.write_file (fs_name m) content perm now u in
      if_cases (λ (r : Option (AccessError Err) × Memory). IsTree r.1) (beq (fs_name m) dev_null)
        (none, u) (changed out) (λ _. t)
        (λ _.
          subst IsTree (sym (changed-state out))
            (write_file-Wrote u t (fs_name m) content perm now (fs_name-is_valid m)).0)

  mkdir_keeps_IsTree :
      (m : Bytes) (perm : ℕ) (u : Memory)
      → IsTree u
      → IsTree (Capabilities.mkdir (memory_system now) m perm u).1
  unfolding Capabilities.mkdir
  mkdir_keeps_IsTree m perm u t =
      subst IsTree (sym (changed-state (Write.mkdir (fs_name m) perm now u)))
        (mkdir-Made u t (fs_name m) perm now (fs_name-is_valid m)).0

  remove_keeps_IsTree :
      (m : Bytes) (u : Memory) → IsTree u → IsTree (Capabilities.remove (memory_system now) m u).1
  unfolding Capabilities.remove
  remove_keeps_IsTree m u t =
      subst IsTree (sym (changed-state (Names.remove (fs_name m) u)))
        (remove-Removed u t (fs_name m) (fs_name-is_valid m)).0

  -- A write that succeeds, other than to the null device, has made the file.
  pub write-HasFile :
      (m content : Bytes) (perm : ℕ) (u v : Memory)
      → IsTree u
      → beq (fs_name m) dev_null ≡ false
      → Capabilities.write_file (memory_system now) m content perm u ≡ (none, v)
      → HasFile v (fs_name m) content
  unfolding Capabilities.write_file
  write-HasFile m content perm u v t live h =
      let out = Write.write_file (fs_name m) content perm now u in
      let (is_none, is_v) = changed-none out v (rw live at h) in
      subst (λ s. HasFile s (fs_name m) content) is_v
        ((write_file-Wrote u t (fs_name m) content perm now (fs_name-is_valid m)).2 is_none)

  memory_written :
      (m : Bytes) (u v : Memory)
      → IsTree u
      → Capabilities.write_file (memory_system now) m [] 0o600 u ≡ (none, v)
      → succeeds (upper_lstat (over_memory now lower lower_state) m v) ≡ true
  memory_written m u v t h = upper_lstat-ok m v ∙ (elim (Bool-cases (beq (fs_name m) dev_null)) [
    | inl null ↦ rw null refl
    | inr live ↦
        let (id, x, f, _, _) = write-HasFile m [] 0o600 u v t live h in
        let tree : IsTree v = subst IsTree (ap (λ r. r.1) h) (write_keeps_IsTree m [] 0o600 u t) in
        rw live (ap is_ok (node_at-there v tree (fs_name m) false id x (fs_name-is_valid m) f))
  ])

  pub fs_name-Apart : (m n : Bytes) → Apart m n → fs_name m ≢ fs_name n
  fs_name-Apart m n (hm, hn, ne) e = ne (sym (fs_name-valid m hm) ∙ e ∙ fs_name-valid n hn)

  memory_write_keeps :
      (m n : Bytes) (u : Memory)
      → Apart m n
      → IsTree u
      → succeeds (upper_lstat (over_memory now lower lower_state) n u) ≡ false
      → succeeds (
          upper_lstat
            (over_memory now lower lower_state)
            n
            (Capabilities.write_file (memory_system now) m [] 0o600 u).1)
        ≡ false
  unfolding Capabilities.write_file
  memory_write_keeps m n u ne t h =
      let out = Write.write_file (fs_name m) [] 0o600 now u in
      let wrote = write_file-Wrote u t (fs_name m) [] 0o600 now (fs_name-is_valid m) in
      let (live, gone) = lstat-Nothing n u t h in
      if_cases
        (λ (r : Option (AccessError Err) × Memory).
          succeeds (upper_lstat (over_memory now lower lower_state) n r.1) ≡ false)
        (beq (fs_name m) dev_null) (none, u) (changed out) (λ _. h)
        (λ _.
          subst (λ s. succeeds (upper_lstat (over_memory now lower lower_state) n s) ≡ false)
            (sym (changed-state out))
            (Nothing-lstat n out.1 wrote.0 (live, wrote.1 (fs_name n) (fs_name-Apart m n ne) gone)))

  memory_mkdir_keeps :
      (m n : Bytes) (perm : ℕ) (u : Memory)
      → Apart m n
      → IsTree u
      → succeeds (upper_lstat (over_memory now lower lower_state) n u) ≡ false
      → succeeds (
          upper_lstat
            (over_memory now lower lower_state)
            n
            (Capabilities.mkdir (memory_system now) m perm u).1)
        ≡ false
  unfolding Capabilities.mkdir
  memory_mkdir_keeps m n perm u ne t h =
      let out = Write.mkdir (fs_name m) perm now u in
      let made = mkdir-Made u t (fs_name m) perm now (fs_name-is_valid m) in
      let (live, gone) = lstat-Nothing n u t h in
      subst (λ s. succeeds (upper_lstat (over_memory now lower lower_state) n s) ≡ false)
        (sym (changed-state out))
        (Nothing-lstat n out.1 made.0 (live, made.1 (fs_name n) (fs_name-Apart m n ne) gone))

  memory_removed :
      (n : Bytes) (u v : Memory)
      → is_valid n ≡ true
      → n ≢ dev_null
      → IsTree u
      → Capabilities.remove (memory_system now) n u ≡ (none, v)
      → succeeds (upper_lstat (over_memory now lower lower_state) n v) ≡ false
  unfolding Capabilities.remove
  memory_removed n u v valid live t h =
      let out = Names.remove (fs_name n) u in
      let (is_none, is_v) = changed-none out v h in
      let gone = remove-Removed u t (fs_name n) (fs_name-is_valid n) in
      let null : beq (fs_name n) dev_null ≡ false =
        rw (fs_name-valid n valid) (ground (arith, live, beq_iff n dev_null)) in
      subst (λ s. succeeds (upper_lstat (over_memory now lower lower_state) n s) ≡ false) is_v
        (Nothing-lstat n out.1 gone.0 (null, gone.2 is_none))

  pub memory-UpperLaws : UpperLaws (over_memory now lower lower_state) IsTree
  memory-UpperLaws = record {
    write_keeps_order = write_keeps_IsTree;
    mkdir_keeps_order = mkdir_keeps_IsTree;
    remove_keeps_order = remove_keeps_IsTree;
    written = memory_written;
    write_keeps = memory_write_keeps;
    mkdir_keeps = memory_mkdir_keeps;
    removed = memory_removed;
  }
