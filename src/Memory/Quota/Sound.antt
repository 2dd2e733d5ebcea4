-- ===== src/Memory/Quota/Sound.antt =====
-- The invariant of the accounting, and the changes of state that the operations are made of.
use gash.Prelude.{
  ℕ, ◌+◌, ◌-◌, ◌≤◌, ◌<◌, List, [], ◌∷◌, some, Bytes, length, get_elem?, set, ◌==◌, if◌then◌else◌,
  ◌≡◌, refl, arith, Bool-cases, inl, inr, false,
}
use gash.Assoc.{Assoc, lookup, put, delete}
use gash.Memory.Node.{Node, Memory, find, alloc, release, over_quota}
use gash.Memory.Names.{drop_name}
use gash.Memory.Quota.Weight.{
  weight, stored, refs, links_at, stored-append, stored-set, weight-le-stored, refs-put,
  refs-delete, refs-delete-le, links_at-append, links_at-append_self, links_at-set, links_at-beyond,
}

-- No node has more names than links, `used` counts the data of the nodes that have links, and it
-- stays within the limit.
pub record IsSound (m : Memory) : Type 0 where
  pub held : (id : ℕ) → refs id m.nodes ≤ links_at m.heap id
  pub counted : m.used ≡ stored m.heap
  pub bounded : 0 < m.limit → m.used ≤ m.limit

pub find-lookup :
    (m : Memory) (name : Bytes) (id : ℕ) (n : Node)
    → find m name ≡ some (id, n)
    → (lookup name m.nodes ≡ some id) × (get_elem? m.heap id ≡ some n)
unfolding find
find-lookup m name id n h = ground arith

pub over_quota-false :
    (m : Memory) (old size : ℕ)
    → over_quota m old size ≡ false
    → 0 < m.limit
    → m.used + size ≤ m.limit + old
unfolding over_quota
over_quota-false m old size h l = ground arith

pub links_at-some :
    (h : List Node) (id : ℕ) (n : Node) → get_elem? h id ≡ some n → links_at h id ≡ n.links
unfolding links_at
links_at-some h id n e = rw (e, links_at) refl

refs-some : (id : ℕ) (p : Bytes) (m : Assoc ℕ) → lookup p m ≡ some id → 1 ≤ refs id m
refs-some id p m e = omega (arith, refs-delete id p m e)

-- A node that some name leads to is counted.
pub weight-found :
    (m : Memory) (name : Bytes) (id : ℕ) (n : Node)
    → IsSound m
    → find m name ≡ some (id, n)
    → (1 ≤ n.links) × (length n.content ≤ m.used)
weight-found m name id n s h =
    let (l, g) = find-lookup m name id n h in
    let linked : 1 ≤ n.links =
      omega (arith, refs-some id name m.nodes l, s.held id, links_at-some m.heap id n g) in
    (linked, ground (arith, linked, weight-le-stored m.heap id n g, s.counted))

refs-put_self : (id : ℕ) (p : Bytes) (m : Assoc ℕ) → refs id (put p id m) ≤ refs id m + 1
refs-put_self id p m = ground (arith, refs-put id id p m)

stored-one : (n : Node) → stored (n ∷ []) ≡ weight n
unfolding stored
stored-one n = omega arith

pub alloc-IsSound :
    (m : Memory) (name : Bytes) (n : Node)
    → IsSound m
    → n.links ≡ 1
    → over_quota m 0 (length n.content) ≡ false
    → IsSound (record (alloc m name n) { used = m.used + length n.content })
unfolding alloc
alloc-IsSound m name n s one fits = record {
  held = λ j. elim (Bool-cases (length m.heap == j)) [
    | inl e ↦
        let same : length m.heap ≡ j = ground arith in
        rw (← same) (
          omega (
            arith,
            refs-put_self (length m.heap) name m.nodes,
            s.held (length m.heap),
            links_at-beyond m.heap (length m.heap),
            links_at-append_self m.heap n,
          ))
    | inr e ↦
        rw (links_at-append m.heap n j (ground arith))
          (ground (arith, refs-put (length m.heap) j name m.nodes, s.held j))
  ];
  counted = ground (arith, stored-append m.heap (n ∷ []), s.counted, one, stored-one n);
  bounded = λ l. omega (arith, over_quota-false m 0 (length n.content) fits l);
}

-- A node is released, and the table of names loses an entry that leads to it.
pub release-IsSound :
    (m : Memory) (nodes : Assoc ℕ) (id : ℕ) (n : Node)
    → IsSound m
    → get_elem? m.heap id ≡ some n
    → ((j : ℕ) → refs j nodes + (if id == j then 1 else 0) ≤ refs j m.nodes)
    → IsSound (record (release m id n) { nodes = nodes })
unfolding release
release-IsSound m nodes id n s g fewer =
    let n' : Node = record n { links = n.links - 1 } in
    let linked : 1 ≤ n.links = ground (arith, fewer id, s.held id, links_at-some m.heap id n g) in
    record {
      held = λ j.
          ground (
            arith,
            fewer j,
            s.held j,
            links_at-some m.heap id n g,
            links_at-set m.heap id n n' j g,
          );
      counted =
          ground
            (arith, stored-set m.heap id n n' g, s.counted, weight-le-stored m.heap id n g, linked);
      bounded = λ b. ground (arith, s.bounded b);
    }

-- A name is deleted and its node released.
pub drop_name-IsSound :
    (m : Memory) (name : Bytes) (id : ℕ) (n : Node)
    → IsSound m
    → find m name ≡ some (id, n)
    → IsSound (drop_name m name id n)
unfolding drop_name release
drop_name-IsSound m name id n s h =
    let (l, g) = find-lookup m name id n h in
    release-IsSound m (delete name m.nodes) id n s g λ j. elim (Bool-cases (id == j)) [
      | inl e ↦
          let same : id ≡ j = ground arith in
          rw (← same) (ground (arith, refs-delete id name m.nodes l))
      | inr e ↦ ground (arith, e, refs-delete-le j name m.nodes)
    ]

-- A node with a link gets new data, and keeps its links.
pub rewrite-IsSound :
    (m : Memory) (id : ℕ) (n n' : Node)
    → IsSound m
    → get_elem? m.heap id ≡ some n
    → 1 ≤ n.links
    → n'.links ≡ n.links
    → over_quota m (length n.content) (length n'.content) ≡ false
    → IsSound
        (record m { used = m.used + length n'.content - length n.content; heap = set m.heap id n' })
rewrite-IsSound m id n n' s g linked same fits = record {
  held =
      λ j. ground (arith, s.held j, links_at-set m.heap id n n' j g, links_at-some m.heap id n g);
  counted =
      ground (
        arith,
        stored-set m.heap id n n' g,
        s.counted,
        weight-le-stored m.heap id n g,
        linked,
        same,
      );
  bounded = λ b. omega (arith, over_quota-false m (length n.content) (length n'.content) fits b);
}

-- A node's metadata changes.
pub set_meta-IsSound :
    (m : Memory) (id : ℕ) (n n' : Node)
    → IsSound m
    → get_elem? m.heap id ≡ some n
    → n'.links ≡ n.links
    → n'.content ≡ n.content
    → IsSound (record m { heap = set m.heap id n' })
set_meta-IsSound m id n n' s g same kept = record {
  held =
      λ j. ground (arith, s.held j, links_at-set m.heap id n n' j g, links_at-some m.heap id n g);
  counted = ground (arith, stored-set m.heap id n n' g, s.counted, same, kept);
  bounded = s.bounded;
}

-- A node that is in use gets one more name.
pub link-IsSound :
    (m : Memory) (name : Bytes) (id : ℕ) (n : Node)
    → IsSound m
    → get_elem? m.heap id ≡ some n
    → 1 ≤ n.links
    → IsSound (record m {
      nodes = put name id m.nodes;
      heap = set m.heap id (record n { links = n.links + 1 });
    })
link-IsSound m name id n s g linked =
    let n' : Node = record n { links = n.links + 1 } in
    record {
      held = λ j. ground (
        arith,
        s.held j,
        refs-put id j name m.nodes,
        links_at-set m.heap id n n' j g,
        links_at-some m.heap id n g,
      );
      counted = ground (arith, stored-set m.heap id n n' g, s.counted, linked);
      bounded = s.bounded;
    }
