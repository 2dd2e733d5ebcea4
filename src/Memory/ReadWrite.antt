-- ===== src/Memory/ReadWrite.antt =====
-- Reading after writing, on pkg/fs/memory.go.
use gash.Prelude.{
  ℕ, ◌+◌, ◌-◌, true, false, ◌++◌, none, some, Bytes, ◌≡◌, refl, ap, ◌∙◌, arith, if◌then◌else◌,
  get_elem?, set, ◌==◌, Bool-cases, inl, inr, length,
}
use Prim.Native.Nat.{bit_or}
use gash.Memory.Node.{ok, is_directory, Node, Memory, type_bits, perm_bits}
use gash.Memory.Resolve.{found, resolve_locked}
use gash.Memory.Write.{overwrite, write_file, append_to, append_file}
use gash.Memory.Read.{node_at, read_file}
use gash.Memory.Found.{resolve_locked-find}
use gash.Memory.Shape.{refind, resolve_locked-shape, set-SameShape, find-set}
use gash.Memory.Quota.Sound.{find-lookup}

-- A file whose node has another node put in its place, and a file that leads to some node.
read_file-set :
    (m : Memory) (used id : ℕ) (n n' : Node) (k r : Bytes) (j : ℕ) (x : Node)
    → get_elem? m.heap id ≡ some n
    → n'.kind ≡ n.kind
    → n'.target ≡ n.target
    → is_directory n.kind ≡ false
    → resolve_locked m k true ≡ found r (some (j, x))
    → read_file k (record m { used = used; heap = set m.heap id n' })
      ≡ (if id == j then ok n'.content else read_file k m)
read_file-set m used id n n' k r j x g kind target file e =
    let m' : Memory = record m { used = used; heap = set m.heap id n' } in
    let same = set-SameShape m used id n n' g kind target in
    let here = resolve_locked-find m k true r (some (j, x)) e in
    let e' : resolve_locked m' k true ≡ found r (some (j, (if id == j then n' else x))) =
      resolve_locked-shape m m' true k same
      ∙ (ap (refind m') e ∙ ap (found r) (find-set m used id n n' r j x g here)) in
    unfold read_file node_at in
    elim (Bool-cases (id == j)) [ inl t ↦ rw (e', e, t, kind, file) | inr f ↦ rw (e', e, f) ]

abbrev written : Node → Bytes → ℕ → ℕ → Node
written n content perm now = record n {
  content = content;
  mode = bit_or (type_bits n.mode) (perm_bits perm);
  mtime = now;
}

-- WriteFile to an existing file that succeeds has replaced the data of its node.
write_file-done :
    (m : Memory) (name content r : Bytes) (perm now id : ℕ) (n : Node)
    → resolve_locked m name true ≡ found r (some (id, n))
    → (write_file name content perm now m).0 ≡ none
    → (is_directory n.kind ≡ false)
      × ((write_file name content perm now m).1 ≡ record m {
        used = m.used + length content - length n.content;
        heap = set m.heap id (written n content perm now);
      })
unfolding write_file overwrite
write_file-done m name content r perm now id n e h = ground (arith, e, h)

-- After WriteFile to an existing file has succeeded, every name that leads to the same node, the
-- written one and its hard and symbolic links, reads the new data, and every other name that leads
-- to a node reads what it read before.
pub read-write :
    (m : Memory) (name content r : Bytes) (perm now id : ℕ) (n : Node) (k r' : Bytes) (j : ℕ)
    (x : Node)
    → resolve_locked m name true ≡ found r (some (id, n))
    → (write_file name content perm now m).0 ≡ none
    → resolve_locked m k true ≡ found r' (some (j, x))
    → read_file k (write_file name content perm now m).1
      ≡ (if id == j then ok content else read_file k m)
read-write m name content r perm now id n k r' j x e h e' =
    let g = (find-lookup m r id n (resolve_locked-find m name true r (some (id, n)) e)).1 in
    let (file, done) = write_file-done m name content r perm now id n e h in
    rw done (
      read_file-set m (m.used + length content - length n.content) id n (written n content perm now)
        k r' j x g refl refl file e')

append_file-done :
    (m : Memory) (name content r : Bytes) (perm now id : ℕ) (n : Node)
    → resolve_locked m name true ≡ found r (some (id, n))
    → (append_file name content perm now m).0 ≡ none
    → (is_directory n.kind ≡ false)
      × ((append_file name content perm now m).1 ≡ record m {
        used = m.used + length content;
        heap = set m.heap id (record n { content = n.content ++ content; mtime = now });
      })
unfolding append_file append_to
append_file-done m name content r perm now id n e h = ground (arith, e, h)

-- After AppendFile to an existing file has succeeded, every name that leads to the same node reads
-- the old data followed by the new, and every other name that leads to a node reads what it read
-- before.
pub read-append :
    (m : Memory) (name content r : Bytes) (perm now id : ℕ) (n : Node) (k r' : Bytes) (j : ℕ)
    (x : Node)
    → resolve_locked m name true ≡ found r (some (id, n))
    → (append_file name content perm now m).0 ≡ none
    → resolve_locked m k true ≡ found r' (some (j, x))
    → read_file k (append_file name content perm now m).1
      ≡ (if id == j then ok (n.content ++ content) else read_file k m)
read-append m name content r perm now id n k r' j x e h e' =
    let g = (find-lookup m r id n (resolve_locked-find m name true r (some (id, n)) e)).1 in
    let (file, done) = append_file-done m name content r perm now id n e h in
    rw done (
      read_file-set m (m.used + length content) id n
        (record n { content = n.content ++ content; mtime = now }) k r' j x g refl refl file e')
