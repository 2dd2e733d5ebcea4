-- ===== src/Memory/Shape.antt =====
-- Where a name leads depends on the kinds and link targets of the nodes only: a change of data,
-- mode, time or links leaves every resolution as it is.
use gash.Prelude.{
  is_empty, ℕ, zero, suc, Bool, ◌||◌, List, [], ◌∷◌, Option, none, some, Bytes, ◌≡◌, refl, arith,
  beq, if◌then◌else◌, on_option, get_elem?, set, get_elem?-set, ◌==◌, Bool-cases, inl, inr,
  Option-cases, ap₂,
}
use gash.Assoc.{lookup}
use gash.Path.{is_valid}
use gash.Path.Lexical.{slash, dot, split, path_join}
use gash.Memory.Node.{Kind, Node, Memory, find, not_dir}
use gash.Memory.Resolve.{
  Walk, finished, restart, missing, blocked, walk_node, walk, Resolved, found, absent, failed,
  resolve_loop, resolve_locked,
}

-- What resolveLocked looks at in a node.
abbrev pub shape : Option (ℕ × Node) → Option (Kind × Bytes)
shape none = none
shape (some (id, n)) = some (n.kind, n.target)

unfoldable pub SameShape : Memory → Memory → Type 0
SameShape m m' = (name : Bytes) → shape (find m name) ≡ shape (find m' name)

walk_node-shape :
    (follow : Bool) (cur : Bytes) (rest : List Bytes) (n n' : Node) (next next' : Walk)
    → n.kind ≡ n'.kind
    → n.target ≡ n'.target
    → next ≡ next'
    → walk_node follow cur rest n next ≡ walk_node follow cur rest n' next'
unfolding walk_node
walk_node-shape follow cur rest n n' next next' k t e = rw (k, t, e)

walk_find-shape :
    (x x' : Option (ℕ × Node)) (follow : Bool) (cur : Bytes) (rest : List Bytes) (next next' : Walk)
    → shape x ≡ shape x'
    → next ≡ next'
    → on_option x (missing cur) (λ (id, n). walk_node follow cur rest n next)
      ≡ on_option x' (missing cur) (λ (id, n). walk_node follow cur rest n next')
walk_find-shape none none follow cur rest next next' h e = refl
walk_find-shape none (some x) follow cur rest next next' h e = cc
walk_find-shape (some x) none follow cur rest next next' h e = cc
walk_find-shape (some (id, n)) (some (id', n')) follow cur rest next next' h e =
    walk_node-shape follow cur rest n n' next next' (ground (arith, h)) (ground (arith, h)) e

walk-shape :
    (m m' : Memory) (follow : Bool) (cur : Bytes) (parts : List Bytes)
    → SameShape m m'
    → walk m follow cur parts ≡ walk m' follow cur parts
unfolding walk
walk-shape m m' follow cur [] h = refl
walk-shape m m' follow cur (part ∷ rest) h =
    let cur' = if beq cur dot then part else path_join cur part in
    ap₂ (λ x y. if beq part dot || is_empty part then x else y) (walk-shape m m' follow cur rest h)
      (walk_find-shape (find m cur') (find m' cur') follow cur' rest _ _
        (unfold SameShape in h cur') (walk-shape m m' follow cur' rest h))

-- The same resolution in another state: the same name, with that state's node.
abbrev pub refind : Memory → Resolved → Resolved
refind m (found r x) = found r (find m r)
refind m (absent cur) = absent cur
refind m (failed e) = failed e

refind-step :
    (m m' : Memory) (w : Walk) (name : Bytes) (next next' : Bytes → Resolved)
    → ((name' : Bytes) → next' name' ≡ refind m' (next name'))
    → (elim w [
      | finished ↦ found name (find m' name)
      | restart name' ↦ next' name'
      | missing cur ↦ absent cur
      | blocked ↦ failed not_dir
    ])
      ≡ refind m' (elim w [
        | finished ↦ found name (find m name)
        | restart name' ↦ next name'
        | missing cur ↦ absent cur
        | blocked ↦ failed not_dir
      ])
refind-step m m' finished name next next' h = refl
refind-step m m' (restart name') name next next' h = h name'
refind-step m m' (missing cur) name next next' h = refl
refind-step m m' blocked name next next' h = refl

resolve_loop-shape :
    (rounds : ℕ) (m m' : Memory) (follow : Bool) (name : Bytes)
    → SameShape m m'
    → resolve_loop rounds m' follow name ≡ refind m' (resolve_loop rounds m follow name)
unfolding resolve_loop
resolve_loop-shape zero m m' follow name h = refl
resolve_loop-shape (suc rounds) m m' follow name h = elim (Bool-cases (is_valid name)) [
  | inl v ↦
      rw (v, ← (walk-shape m m' follow dot (split slash name) h))
        (refind-step m m' (walk m follow dot (split slash name)) name _ _
          (λ name'. resolve_loop-shape rounds m m' follow name' h))
  | inr v ↦ rw v refl
]

pub resolve_locked-shape :
    (m m' : Memory) (follow : Bool) (name : Bytes)
    → SameShape m m'
    → resolve_locked m' name follow ≡ refind m' (resolve_locked m name follow)
unfolding resolve_locked
resolve_locked-shape m m' follow name h = resolve_loop-shape 41 m m' follow name h

-- A node replaced by one of the same kind and target.
pub set-SameShape :
    (m : Memory) (used : ℕ) (id : ℕ) (n n' : Node)
    → get_elem? m.heap id ≡ some n
    → n'.kind ≡ n.kind
    → n'.target ≡ n.target
    → SameShape m (record m { used = used; heap = set m.heap id n' })
unfolding SameShape find
set-SameShape m used id n n' g k t name = elim (Option-cases (lookup name m.nodes)) [
  | inl e ↦ ground (arith, e)
  | inr (j, e) ↦ ground (arith, e, g, k, t, get_elem?-set m.heap id j n' n g)
]

-- And what stands under each name afterwards.
pub find-set :
    (m : Memory) (used : ℕ) (id : ℕ) (n n' : Node) (name : Bytes) (j : ℕ) (x : Node)
    → get_elem? m.heap id ≡ some n
    → find m name ≡ some (j, x)
    → find (record m { used = used; heap = set m.heap id n' }) name
      ≡ some (j, (if id == j then n' else x))
unfolding find
find-set m used id n n' name j x g h = elim (Option-cases (lookup name m.nodes)) [
  | inl e ↦ ground (arith, e, h)
  | inr (i, e) ↦ ground (arith, e, h, g, get_elem?-set m.heap id i n' n g)
]
