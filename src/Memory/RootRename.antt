-- ===== src/Memory/RootRename.antt =====
-- Rename of the root in pkg/fs/memory.go.
use gash.Prelude.{
  is_empty, ℕ, Bool, true, false, [], ◌∷◌, ◌++◌, none, some, Bytes, ◌≡◌, refl, ap, ◌∙◌, arith, beq,
  beq_iff, has_prefix, trim_prefix, if◌then◌else◌, Bool-cases, inl, inr,
}
use gash.Assoc.{Assoc, lookup, put, lookup-put}
use gash.Path.{is_valid}
use gash.Path.Lexical.{slash, dot}
use gash.Memory.Node.{panic, ok, fail, Node, Memory, find}
use gash.Memory.Resolve.{walk, found, resolve_loop, resolve_locked}
use gash.Memory.Write.{below_parent}
use gash.Memory.Names.{
  entries_below, enter_moved, move_entries, clear_target, rename_to, rename, is_below,
}
use gash.Memory.Read.{node_at, stat}

-- `.` resolves to itself, whether there is a node or not.
pub resolve-dot :
    (m : Memory) (follow : Bool) → resolve_locked m dot follow ≡ found dot (find m dot)
unfolding resolve_locked resolve_loop walk is_valid
resolve-dot m follow = refl

valid-dot : is_valid dot ≡ true
unfolding is_valid
valid-dot = refl

-- None of the entries that stay is `.`.
lookup-stay : (nodes : Assoc ℕ) → lookup dot (entries_below false dot nodes) ≡ none
unfolding lookup entries_below is_below
lookup-stay [] = refl
lookup-stay ((p, id) ∷ rest) = elim (Bool-cases (beq p dot)) [
  | inl e ↦ ground (arith, e, lookup-stay rest)
  | inr e ↦ ground (arith, e, lookup-stay rest)
]

-- No text that begins with a proper new name is `.`.
beq-below : (r x : Bytes) → is_empty r ≡ false → beq r dot ≡ false → beq (r ++ x) dot ≡ false
unfolding beq
beq-below [] x h k = cc
beq-below (c ∷ []) x h k = ground arith
beq-below (c ∷ d ∷ r) x h k = ground arith

lookup-enter_moved :
    (r : Bytes) (moved nodes : Assoc ℕ)
    → is_empty r ≡ false
    → beq r dot ≡ false
    → lookup dot (enter_moved dot r moved nodes) ≡ lookup dot nodes
unfolding enter_moved
lookup-enter_moved r [] nodes h k = refl
lookup-enter_moved r ((p, id) ∷ rest) nodes h k =
    lookup-enter_moved r rest (put (r ++ trim_prefix p dot) id nodes) h k
    ∙ (lookup-put (r ++ trim_prefix p dot) dot id nodes
        ∙ ap (λ b. if b then some id else lookup dot nodes) (beq-below r (trim_prefix p dot) h k))

-- Where `.` may be renamed at all, to a free name other than itself, Rename reports success, the
-- root is gone, and the next Stat of the root dereferences a nil node.
pub rename-dot :
    (m : Memory) (id : ℕ) (n : Node) (new r : Bytes)
    → find m dot ≡ some (id, n)
    → is_valid new ≡ true
    → below_parent m new ≡ ok r
    → find m r ≡ none
    → is_empty r ≡ false
    → has_prefix (r ++ slash ∷ []) (dot ++ slash ∷ []) ≡ false
    → ((rename dot new m).0 ≡ none)
      × (find (rename dot new m).1 dot ≡ none)
      × (stat dot true (rename dot new m).1 ≡ fail panic)
rename-dot m id n new r root v b free full out =
    let e : rename dot new m ≡ (none, move_entries dot r m) = renamed in
    let lost : find (move_entries dot r m) dot ≡ none = gone in
    (rw e refl, rw e lost, rw e (unfold stat node_at in rw (resolve-dot, lost) refl))
  where
    ne : beq r dot ≡ false
    ne = elim (Bool-cases (beq r dot)) [
      | inl e ↦ absurd (cc ((beq_iff r dot).0 e, free, root))
      | inr e ↦ e
    ]

    renamed : rename dot new m ≡ (none, move_entries dot r m)
    renamed =
        unfold rename rename_to clear_target in
        rw (v, resolve-dot m false, root, b, out, free, valid-dot) refl

    gone : find (move_entries dot r m) dot ≡ none
    gone =
        unfold find move_entries in
        rw
          (
            lookup-enter_moved r (entries_below true dot m.nodes) (entries_below false dot m.nodes)
                  full ne
                ∙ lookup-stay m.nodes,
            find,
          )
          refl
