-- ===== src/Overlay/OverMemory.antt =====
-- What is written and removed through the overlay of pkg/fs/overlay.go, with the filesystem of
-- pkg/fs/memory.go for its upper layer.
use gash.Prelude.{
  ℕ, Bool, true, false, false≢true, [], none, Bytes, beq, beq_iff, if◌then◌else◌, Option-cases, ◌≢◌,
  ◌≡◌, refl, sym, ap, subst, ◌∙◌, ◌⊎◌, inl, inr, arith,
}
use gash.Path.{fs_name, is_valid}
use gash.Path.Laws.{fs_name-is_valid, fs_name-valid}
use gash.Memory.Node.{Err, is_dir, Result, ok, fail, ◌>>=◌, Node, Memory, find, is_directory}
use gash.Memory.Read
use gash.Memory.Names
use gash.Memory.Tree.{IsTree, kind_of}
use gash.Memory.TreeLookup.{is_ok, node_at-there, node_at-gone}
use gash.Memory.TreeOps.{HasFile}
use gash.Memory.TreeRemove.{remove-Removed}
use gash.Mount.{FileSystem}
use gash.Capabilities.{AccessError, Status, null_info, dev_null, changed, status_of}
use gash.Capabilities
use gash.Overlay.{succeeds}
use gash.Overlay.View.{lstat, read_file}
use gash.Overlay.Removal.{remove}
use gash.Overlay.Write.{write_file}
use gash.Overlay.Hidden.{Apart}
use gash.Overlay.Removed.{remove-lstat}
use gash.Overlay.Written.{FileLaws, write_file-read_file}
use gash.Overlay.MemoryLayer.{answered, memory_system, over_memory}
use gash.Overlay.MemoryUpper.{
  changed-state, write_keeps_IsTree, write-HasFile, fs_name-Apart, memory-UpperLaws,
}

HasFile-read :
    (m : Memory) (n content : Bytes)
    → IsTree m
    → is_valid n ≡ true
    → HasFile m n content
    → Read.read_file n m ≡ ok content
unfolding Read.read_file
HasFile-read m n content t v (id, x, f, c, file) =
    rw (node_at-there m t n true id x v f, file) (ap ok c)

read-HasFile :
    (m : Memory) (n content : Bytes)
    → IsTree m
    → is_valid n ≡ true
    → Read.read_file n m ≡ ok content
    → HasFile m n content
unfolding Read.read_file
read-HasFile m n content t v h = elim (Option-cases (find m n)) [
  | inl gone ↦ absurd (
      false≢true
        (sym (node_at-gone m t n true v (ap kind_of gone)) ∙ from_ok (Read.node_at m n true) h))
  | inr ((id, x), f) ↦
      let h' : (if is_directory x.kind then fail is_dir else ok x.content) ≡ ok content =
        rw (node_at-there m t n true id x v f) at h in
      let (c, file) = plain_file (is_directory x.kind) x.content h' in (id, x, f, c, file)
]
  where
    from_ok :
        (r : Result (Bytes × Node))
        → (r >>= λ (p, x). if is_directory x.kind then fail is_dir else ok x.content) ≡ ok content
        → is_ok r ≡ true
    from_ok (ok a) e = refl
    from_ok (fail a) e = cc e

    plain_file :
        (b : Bool) (c : Bytes)
        → (if b then fail is_dir else ok c) ≡ ok content
        → (c ≡ content) × (b ≡ false)
    plain_file true c e = cc e
    plain_file false c e =
        (subst (λ (r : Result Bytes). elim r [ ok z ↦ c ≡ z | fail _ ↦ Unit ]) e refl, refl)

module _ {L : Type 0} (now : ℕ) (lower : FileSystem L Err) (lower_state : L) where
  memory_reads_written :
      (n content : Bytes) (perm : ℕ) (u v : Memory)
      → is_valid n ≡ true
      → n ≢ dev_null
      → IsTree u
      → Capabilities.write_file (memory_system now) n content perm u ≡ (none, v)
      → answered (Read.read_file n v) ≡ inr content
  memory_reads_written n content perm u v valid live t h =
      let null : beq (fs_name n) dev_null ≡ false =
        rw (fs_name-valid n valid) (ground (arith, live, beq_iff n dev_null)) in
      let tree : IsTree v =
        subst IsTree (ap (λ r. r.1) h)
          (write_keeps_IsTree now lower lower_state n content perm u t) in
      let file : HasFile v n content =
        subst (λ s. HasFile v s content) (fs_name-valid n valid)
          (write-HasFile now lower lower_state n content perm u v t null h) in
      ap answered (HasFile-read v n content tree valid file)

  memory_remove_reads :
      (m n content : Bytes) (u : Memory)
      → Apart m n
      → IsTree u
      → answered (Read.read_file n u) ≡ inr content
      → answered (Read.read_file n (Capabilities.remove (memory_system now) m u).1) ≡ inr content
  unfolding Capabilities.remove
  memory_remove_reads m n content u ne t h =
      let out = Names.remove (fs_name m) u in
      let gone = remove-Removed u t (fs_name m) (fs_name-is_valid m) in
      let valid : is_valid n ≡ true = ne.1 in
      let (id, x, f, c, file) =
        read-HasFile u n content t valid (answered-ok (Read.read_file n u) h) in
      let other : fs_name m ≢ n =
        λ e. fs_name-Apart now lower lower_state m n ne (e ∙ sym (fs_name-valid n valid)) in
      let (y, g, same, kind) = gone.1 n id x other f in
      subst (λ s. answered (Read.read_file n s) ≡ inr content) (sym (changed-state out))
        (ap answered (
          HasFile-read out.1 n content gone.0 valid
            (id, y, g, same ∙ c, ap is_directory kind ∙ file)))
    where
      answered-ok : (r : Result Bytes) → answered r ≡ inr content → r ≡ ok content
      answered-ok (ok a) e = ap ok (ap (λ (r : Err ⊎ Bytes). elim r [ inr z ↦ z | inl _ ↦ [] ]) e)
      answered-ok (fail a) e = cc e

  memory-FileLaws : FileLaws (over_memory now lower lower_state) IsTree
  memory-FileLaws = record {
    reads_written = memory_reads_written;
    remove_reads = memory_remove_reads;
  }

  -- Over an upper layer in memory whose nodes make a tree without links, and any lower layer:
  -- after a Remove that succeeds of a name other than dev/null, Lstat no longer finds the name,
  -- whichever layer had the entry and whatever markers there were before.
  pub remove-lstat_memory :
      (text : Bytes) (u v : Memory)
      → fs_name text ≢ dev_null
      → IsTree u
      → remove (over_memory now lower lower_state) text u ≡ (none, v)
      → succeeds (lstat (over_memory now lower lower_state) text v) ≡ false
  remove-lstat_memory =
      remove-lstat (over_memory now lower lower_state) (memory-UpperLaws now lower lower_state)

  -- Over an upper layer in memory whose nodes make a tree without links, and any lower layer:
  -- after a WriteFile that succeeds to a name other than dev/null, ReadFile gives what was written,
  -- whatever either layer had under the name and also where a marker had hidden it.
  pub write_file-read_file_memory :
      (text content : Bytes) (perm : ℕ) (u v : Memory)
      → fs_name text ≢ dev_null
      → IsTree u
      → write_file (over_memory now lower lower_state) text content perm u ≡ (none, v)
      → read_file (over_memory now lower lower_state) text v ≡ inr content
  write_file-read_file_memory =
      write_file-read_file (over_memory now lower lower_state)
        (memory-UpperLaws now lower lower_state) memory-FileLaws
