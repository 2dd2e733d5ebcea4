-- ===== src/Memory/Quota/Moves.antt =====
-- The accounting through the operations of Memory/Names.antt.
use gash.Prelude.{
  is_empty, ℕ, ◌+◌, ◌≤◌, true, false, not, ◌&&◌, ◌||◌, List, [], ◌∷◌, ◌++◌, Option, none, some,
  Bytes, get_elem?, if◌then◌else◌, ◌≡◌, refl, arith, if_cases, on_option, on_option_cases, ◌==◌,
  beq, has_prefix, Bool-cases, inl, inr, trim_prefix, append-nil, append_assoc, Option-cases,
}
use gash.Assoc.{Assoc, put}
use gash.Path.{is_valid, parent}
use gash.Path.Lexical.{slash, dot, split, path_join}
use gash.Memory.Node.{
  Err, exist, Result, ok, fail, is_directory, is_regular, Node, Memory, find, release,
}
use gash.Memory.Write.{Outcome, below_parent, mkdir}
use gash.Memory.Names.{
  mkdir_parts, mkdir_all, has_children, remove_node, remove, is_below, sweep, remove_all,
  entries_below, enter_moved, move_entries, clear_target, rename_to, rename, link_node, link,
  touch_node, chmod, chtimes,
}
use gash.Memory.Found.{lookup_cases}
use gash.Memory.Quota.Weight.{refs, refs-put, refs-append}
use gash.Memory.Quota.Sound.{
  IsSound, find-lookup, weight-found, drop_name-IsSound, set_meta-IsSound, link-IsSound,
  release-IsSound,
}
use gash.Memory.Quota.Writes.{Leaves, mkdir-Leaves}

mkdir_parts-Leaves :
    (parts : List Bytes) (cur : Bytes) (perm now : ℕ) (m : Memory)
    → IsSound m
    → Leaves (mkdir_parts cur parts perm now m)
unfolding mkdir_parts
mkdir_parts-Leaves [] cur perm now m s = s
mkdir_parts-Leaves (part ∷ parts) cur perm now m s =
    let cur' = if is_empty cur then part else path_join cur part in
    let made = mkdir-Leaves m s cur' perm now in
    after (mkdir cur' perm now m).0 _ _ made
      (mkdir_parts-Leaves parts cur' perm now (mkdir cur' perm now m).1 made)
  where
    after :
        (e : Option Err) (made onward : Outcome)
        → Leaves made
        → Leaves onward
        → Leaves (elim e [ none ↦ onward | some exist ↦ onward | some e ↦ made ])
    after none made onward h k = k
    after (some exist) made onward h k = k
    after (some e) made onward h k = h

pub mkdir_all-Leaves :
    (m : Memory) (s : IsSound m) (name : Bytes) (perm now : ℕ) → Leaves (mkdir_all name perm now m)
unfolding mkdir_all
mkdir_all-Leaves m s name perm now =
    if_cases Leaves (not (is_valid name)) _ _ (λ _. s)
      λ _.
        if_cases Leaves (beq name dot) _ _ (λ _. s)
          λ _. mkdir_parts-Leaves (split slash name) [] perm now m s

-- One entry fewer, its node released.
fewer_names :
    (m : Memory) (kept : Assoc ℕ) (p : Bytes) (id : ℕ) (rest : Assoc ℕ)
    → IsSound (record m { nodes = kept ++ (p, id) ∷ rest })
    → IsSound
        (record (on_option (get_elem? m.heap id) m (λ n. release m id n)) { nodes = kept ++ rest })
fewer_names m kept p id rest s = elim (Option-cases (get_elem? m.heap id)) [
  | inl e ↦ rw e (record {
    held = λ j. omega (arith, one_fewer j, s.held j);
    counted = s.counted;
    bounded = s.bounded;
  })
  | inr (n, e) ↦ rw e (
      unfold release in
      release-IsSound (record m { nodes = kept ++ (p, id) ∷ rest }) (kept ++ rest) id n s e
        one_fewer)
]
  where
    one_fewer :
        (j : ℕ)
        → refs j (kept ++ rest) + (if id == j then 1 else 0) ≤ refs j (kept ++ (p, id) ∷ rest)
    one_fewer j =
        unfold refs in ground (arith, refs-append j kept rest, refs-append j kept ((p, id) ∷ rest))

-- RemoveAll: the entries kept and those still to visit are the names of the sound state.
sweep-IsSound :
    (name : Bytes) (rest kept : Assoc ℕ) (m : Memory)
    → IsSound (record m { nodes = kept ++ rest })
    → IsSound (sweep name kept rest m)
unfolding sweep
sweep-IsSound name [] kept m s = rw append-nil at s
sweep-IsSound name ((p, id) ∷ rest) kept m s =
    if_cases IsSound (is_below name p) _ _
      (λ _.
        sweep-IsSound name rest kept (on_option (get_elem? m.heap id) m (λ n. release m id n))
          (fewer_names m kept p id rest s))
      (λ _.
        sweep-IsSound name rest (kept ++ (p, id) ∷ []) m
          (rw (append_assoc kept ((p, id) ∷ []) rest) s))

module _ (m : Memory) (s : IsSound m) where
  pub remove-Leaves : (name : Bytes) → Leaves (remove name m)
  unfolding remove remove_node
  remove-Leaves name =
      if_cases Leaves (beq name dot) _ _ (λ _. s)
        λ _.
          if_cases Leaves (not (is_valid name)) _ _ (λ _. s)
            λ _.
              lookup_cases Leaves m name false _ _ _ _
                (λ r id n h.
                  if_cases Leaves (is_directory n.kind && has_children m r) _ _ (λ _. s)
                    λ _. drop_name-IsSound m r id n s h)
                (λ _. s) s (λ _. s)

  pub remove_all-Leaves : (name : Bytes) → Leaves (remove_all name m)
  unfolding remove_all
  remove_all-Leaves name =
      let swept = λ (r : Bytes). sweep-IsSound r m.nodes [] m s in
      if_cases Leaves (beq name dot) _ _ (λ _. s)
        λ _.
          if_cases Leaves (not (is_valid name)) _ _ (λ _. s)
            λ _. lookup_cases Leaves m name false _ _ _ _ (λ r _ _ _. swept r) swept s (λ _. s)

  link_node-Leaves :
      (new_name r : Bytes) (id : ℕ) (n : Node)
      → find m r ≡ some (id, n)
      → Leaves (link_node m new_name id n)
  unfolding link_node
  link_node-Leaves new_name r id n h =
      if_cases Leaves (not (is_regular n.kind)) _ _ (λ _. s)
        λ _.
          on_option_cases Leaves (find m new_name) _ _
            (λ _.
              on_option_cases Leaves (find m (parent new_name)) _ _ (λ _. s)
                λ (_, p) _.
                  if_cases Leaves (not (is_directory p.kind)) _ _ (λ _. s)
                    λ _.
                      link-IsSound m new_name id n s (find-lookup m r id n h).1
                        (weight-found m r id n s h).0)
            (λ _ _. s)

  pub link-Leaves : (old_name new_name : Bytes) → Leaves (link old_name new_name m)
  unfolding link
  link-Leaves old_name new_name =
      if_cases Leaves (not (is_valid new_name)) _ _ (λ _. s)
        λ _.
          lookup_cases Leaves m old_name true _ _ _ _
            (λ r id n h. link_node-Leaves new_name r id n h) (λ _. s) s (λ _. s)

  pub chmod-Leaves : (name : Bytes) (mode now : ℕ) → Leaves (chmod name mode now m)
  unfolding chmod touch_node
  chmod-Leaves name mode now =
      lookup_cases Leaves m name true _ _ _ _
        (λ r id n h. set_meta-IsSound m id n _ s (find-lookup m r id n h).1 refl refl) (λ _. s) s
        (λ _. s)

  pub chtimes-Leaves : (name : Bytes) (mtime : ℕ) → Leaves (chtimes name mtime m)
  unfolding chtimes touch_node
  chtimes-Leaves name mtime =
      lookup_cases Leaves m name true _ _ _ _
        (λ r id n h. set_meta-IsSound m id n _ s (find-lookup m r id n h).1 refl refl) (λ _. s) s
        (λ _. s)

-- Rename: the entries split into those that move and those that stay, and none is doubled.
refs-entries_below :
    (j : ℕ) (name : Bytes) (nodes : Assoc ℕ)
    → refs j (entries_below true name nodes) + refs j (entries_below false name nodes)
      ≡ refs j nodes
unfolding refs entries_below
refs-entries_below j name [] = omega arith
refs-entries_below j name ((p, id) ∷ rest) = elim (Bool-cases (is_below name p)) [
  | inl e ↦ rw e (omega (arith, refs-entries_below j name rest))
  | inr e ↦ rw e (omega (arith, refs-entries_below j name rest))
]

refs-enter_moved :
    (j : ℕ) (old new : Bytes) (moved nodes : Assoc ℕ)
    → refs j (enter_moved old new moved nodes) ≤ refs j moved + refs j nodes
unfolding refs enter_moved
refs-enter_moved j old new [] nodes = omega arith
refs-enter_moved j old new ((p, id) ∷ rest) nodes = omega (
  arith,
  refs-enter_moved j old new rest (put (new ++ trim_prefix p old) id nodes),
  refs-put id j (new ++ trim_prefix p old) nodes,
)

move_entries-IsSound : (old new : Bytes) (m : Memory) → IsSound m → IsSound (move_entries old new m)
unfolding move_entries
move_entries-IsSound old new m s = record {
  held = λ j. omega (
    arith,
    s.held j,
    refs-entries_below j old m.nodes,
    refs-enter_moved j old new (entries_below true old m.nodes) (entries_below false old m.nodes),
  );
  counted = s.counted;
  bounded = s.bounded;
}

abbrev Clears : Result Memory → Type 0
Clears (ok m) = IsSound m
Clears (fail e) = Unit

clear_target-Clears :
    (m : Memory) (n : Node) (new : Bytes) → IsSound m → Clears (clear_target m n new)
unfolding clear_target
clear_target-Clears m n new s =
    on_option_cases Clears (find m new) _ _ (λ _. s)
      λ (id, old) h.
        if_cases Clears (is_directory old.kind && not (is_directory n.kind)) _ _ (λ _. tt)
          λ _.
            if_cases Clears (not (is_directory old.kind) && is_directory n.kind) _ _ (λ _. tt)
              λ _.
                if_cases Clears (is_directory old.kind && has_children m new) _ _ (λ _. tt)
                  λ _. drop_name-IsSound m new id old s h

rename_to-Leaves :
    (m : Memory) (old : Bytes) (n : Node) (r : Result Bytes)
    → IsSound m
    → Leaves (rename_to m old n r)
unfolding rename_to
rename_to-Leaves m old n (fail e) s = s
rename_to-Leaves m old n (ok new) s =
    if_cases Leaves (has_prefix (new ++ slash ∷ []) (old ++ slash ∷ [])) _ _ (λ _. s)
      λ _. cleared (clear_target m n new) (clear_target-Clears m n new s)
  where
    cleared :
        (r : Result Memory)
        → Clears r
        → Leaves (elim r [ fail e ↦ (some e, m) | ok m' ↦ (none, move_entries old new m') ])
    cleared (fail e) h = s
    cleared (ok m') h = move_entries-IsSound old new m' h

pub rename-Leaves :
    (m : Memory) (s : IsSound m) (old_name new_name : Bytes) → Leaves (rename old_name new_name m)
unfolding rename
rename-Leaves m s old_name new_name =
    if_cases Leaves (not (is_valid old_name) || not (is_valid new_name)) _ _ (λ _. s)
      λ _.
        lookup_cases Leaves m old_name false _ _ _ _
          (λ old id n h. rename_to-Leaves m old n (below_parent m new_name) s) (λ _. s) s (λ _. s)
