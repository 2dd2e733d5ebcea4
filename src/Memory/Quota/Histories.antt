-- ===== src/Memory/Quota/Histories.antt =====
-- The quota over whole histories.
use gash.Prelude.{
  ℕ, zero, suc, ◌+◌, ◌≤◌, ◌<◌, List, [], ◌∷◌, length, ◌==◌, if◌then◌else◌, ◌≡◌, refl, arith, subst,
  ◌∙◌,
}
use gash.Assoc.{Assoc}
use gash.Memory.Node.{Node, Memory, new_memory}
use gash.Memory.History.{
  Op, op_create, op_write, op_append, op_mkdir, op_mkdir_all, op_remove, op_remove_all, op_rename,
  op_link, op_symlink, op_chmod, op_chtimes, apply_op, run,
}
use gash.Memory.Quota.Weight.{stored, refs, links_at}
use gash.Memory.Quota.Sound.{IsSound}
use gash.Memory.Quota.Limit.{limit-run}
use gash.Memory.Quota.Writes.{
  create_file-Leaves, write_file-Leaves, append_file-Leaves, mkdir-Leaves, symlink_file-Leaves,
}
use gash.Memory.Quota.Moves.{
  mkdir_all-Leaves, remove-Leaves, remove_all-Leaves, rename-Leaves, link-Leaves, chmod-Leaves,
  chtimes-Leaves,
}

-- Every operation, failing or not, leaves the accounting sound.
pub apply_op-IsSound : (op : Op) (m : Memory) → IsSound m → IsSound (apply_op op m).1
unfolding apply_op
apply_op-IsSound (op_create name content perm now) m s =
    create_file-Leaves m s name content perm now
apply_op-IsSound (op_write name content perm now) m s = write_file-Leaves m s name content perm now
apply_op-IsSound (op_append name content perm now) m s =
    append_file-Leaves m s name content perm now
apply_op-IsSound (op_mkdir name perm now) m s = mkdir-Leaves m s name perm now
apply_op-IsSound (op_mkdir_all name perm now) m s = mkdir_all-Leaves m s name perm now
apply_op-IsSound (op_remove name) m s = remove-Leaves m s name
apply_op-IsSound (op_remove_all name) m s = remove_all-Leaves m s name
apply_op-IsSound (op_rename old new) m s = rename-Leaves m s old new
apply_op-IsSound (op_link old new) m s = link-Leaves m s old new
apply_op-IsSound (op_symlink target name now) m s = symlink_file-Leaves m s target name now
apply_op-IsSound (op_chmod name mode now) m s = chmod-Leaves m s name mode now
apply_op-IsSound (op_chtimes name mtime) m s = chtimes-Leaves m s name mtime

run-IsSound_from : (ops : List Op) (m : Memory) → IsSound m → IsSound (run ops m)
unfolding run
run-IsSound_from [] m s = s
run-IsSound_from (op ∷ ops) m s = run-IsSound_from ops (apply_op op m).1 (apply_op-IsSound op m s)

new_memory-IsSound : (limit now : ℕ) → IsSound (new_memory limit now)
unfolding new_memory stored refs links_at
new_memory-IsSound limit now = record {
  held = λ j. at j;
  counted = refl;
  bounded = λ l. omega arith;
}
  where
    at : (j : ℕ) → refs j (new_memory limit now).nodes ≤ links_at (new_memory limit now).heap j
    at zero = omega arith
    at (suc j) = ground arith

-- After any history of operations, failing ones included, on a new filesystem: no node has more
-- names than links, the counter is the number of bytes of the nodes that have links, and where
-- there is a limit the counter is within it.
pub run-IsSound : (limit now : ℕ) (ops : List Op) → IsSound (run ops (new_memory limit now))
run-IsSound limit now ops =
    run-IsSound_from ops (new_memory limit now) (new_memory-IsSound limit now)

-- The bytes that can be read through some name, each node counted once; `k` is the pointer of the
-- first node of the list.
unfoldable pub visible : Assoc ℕ → ℕ → List Node → ℕ
visible nodes k [] = 0
visible nodes k (n ∷ h) =
    (if refs k nodes == 0 then 0 else length n.content) + visible nodes (suc k) h

visible-le-stored :
    (nodes : Assoc ℕ) (k : ℕ) (h : List Node)
    → ((i : ℕ) → refs (i + k) nodes ≤ links_at h i)
    → visible nodes k h ≤ stored h
unfolding visible stored links_at
visible-le-stored nodes k [] held = omega arith
visible-le-stored nodes k (n ∷ h) held =
    ground (arith, visible-le-stored nodes (suc k) h (λ i. shift i), first)
  where
    first : refs k nodes ≤ n.links
    first = subst (λ t. refs t nodes ≤ n.links) (omega arith) (held 0)

    shift : (i : ℕ) → refs (i + suc k) nodes ≤ links_at h i
    shift i = subst (λ t. refs t nodes ≤ links_at h i) (omega arith) (held (suc i))

visible-le-used : (m : Memory) → IsSound m → visible m.nodes 0 m.heap ≤ m.used
visible-le-used m s = rw s.counted (
    visible-le-stored m.nodes 0 m.heap
      (λ i. subst (λ t. refs t m.nodes ≤ links_at m.heap i) (omega arith) (s.held i)))

limit-new_memory : (limit now : ℕ) → (new_memory limit now).limit ≡ limit
unfolding new_memory
limit-new_memory limit now = refl

-- With a limit, the bytes that can be read through the names of the filesystem never exceed it,
-- each node counted once however many names it has, after any history of operations.
pub run-visible_bytes :
    (limit now : ℕ) (ops : List Op)
    → 0 < limit
    → visible (run ops (new_memory limit now)).nodes 0 (run ops (new_memory limit now)).heap ≤ limit
run-visible_bytes limit now ops l =
    let m = run ops (new_memory limit now) in
    let s = run-IsSound limit now ops in
    let same = limit-run ops (new_memory limit now) ∙ limit-new_memory limit now in
    omega (arith, visible-le-used m s, same, s.bounded (omega (arith, same)))
