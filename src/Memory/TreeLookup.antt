-- ===== src/Memory/TreeLookup.antt =====
-- Where resolveLocked of pkg/fs/memory.go leads in a tree: to the name itself where something
-- stands under it, and nowhere else.
use gash.Prelude.{
  ℕ, Bool, true, false, false≢true, List, [], ◌∷◌, none, some, Bytes, all, Option-cases, ◌≢◌, ◌≡◌,
  refl, sym, ap, subst, ◌∙◌, inl, inr, arith,
}
use gash.Path.{is_valid}
use gash.Path.Lexical.{slash, dot, split}
use gash.Path.Clean.{is_proper, name_of, split-name_of}
use gash.Path.Laws.{valid-parts}
use gash.Memory.Node.{Err, not_dir, panic, Kind, directory, Node, Memory, find, Result, ok, fail}
use gash.Memory.Resolve.{
  Walk, finished, restart, missing, blocked, walk, Resolved, found, absent, failed, resolve_loop,
  resolve_locked, by_lookup,
}
use gash.Memory.Read.{node_at}
use gash.Memory.Total.{walk-found, walk-dot}
use gash.Memory.Tree.{IsTree, kind_of, kind_at, kind_at-find, Stays, walk-reaches, walk-Stays}

-- What a lookup of a name comes to.
abbrev pub Leads : Memory → Bytes → Resolved → Type 0
Leads m name (found r x) = (r ≡ name) × (find m name ≡ x) × (x ≢ none)
Leads m name (absent cur) = kind_at m name ≡ none
Leads m name (failed e) = kind_at m name ≡ none

module _ (m : Memory) (t : IsTree m) where
  root-found : find m dot ≢ none
  root-found e = absurd (cc (t.rooted, ap kind_of e))

  walk-there :
      (follow : Bool) (ps : List Bytes) (k : Kind)
      → all is_proper ps ≡ true
      → kind_at m (name_of ps) ≡ some k
      → walk m follow dot (split slash (name_of ps)) ≡ finished
  unfolding split
  walk-there follow [] k h e = walk-dot m follow dot
  walk-there follow (p ∷ ps) k h e =
      ap (walk m follow dot) (split-name_of p ps h) ∙ walk-reaches m t follow (p ∷ ps) [] k h e

  walk-plain :
      (follow : Bool) (ps : List Bytes)
      → all is_proper ps ≡ true
      → Stays (walk m follow dot (split slash (name_of ps)))
  unfolding split
  walk-plain follow [] h = subst Stays (sym (walk-dot m follow dot)) tt
  walk-plain follow (p ∷ ps) h =
      subst Stays (ap (walk m follow dot) (sym (split-name_of p ps h)))
        (walk-Stays m t follow (p ∷ ps) [] h)

  after-Leads :
      (name : Bytes) (w : Walk) (next : Bytes → Resolved)
      → Stays w
      → (w ≡ finished → find m name ≢ none)
      → (w ≢ finished → kind_at m name ≡ none)
      → Leads m name (elim w [
        | finished ↦ found name (find m name)
        | restart name' ↦ next name'
        | missing cur ↦ absent cur
        | blocked ↦ failed not_dir
      ])
  after-Leads name finished next s h k = (refl, refl, h refl)
  after-Leads name (restart name') next s h k = absurd s
  after-Leads name (missing cur) next s h k = k (λ e. cc e)
  after-Leads name blocked next s h k = k (λ e. cc e)

  pub resolve_locked-Leads :
      (name : Bytes) (follow : Bool)
      → is_valid name ≡ true
      → Leads m name (resolve_locked m name follow)
  unfolding resolve_locked resolve_loop
  resolve_locked-Leads name follow v =
      let (ps, proper, e) = valid-parts name v in
      let w = walk m follow dot (split slash name) in
      let plain : Stays w =
        subst (λ n. Stays (walk m follow dot (split slash n))) (sym e)
          (walk-plain follow ps proper) in
      let away : w ≢ finished → kind_at m name ≡ none = λ ne. elim (Option-cases (kind_at m name)) [
        | inl gone ↦ gone
        | inr (k, there) ↦ absurd (
            ne (
              ap (λ n. walk m follow dot (split slash n)) e
              ∙ walk-there follow ps k proper (ap (kind_at m) (sym e) ∙ there)))
      ] in
      rw v (
        after-Leads name w (resolve_loop 40 m follow) plain (walk-found m follow name root-found v)
          away)

  -- A property of what an operation does, from its cases: at the node that stands under the name,
  -- and where none does.
  pub tree_cases {ℓ κ} :
      {A : Type ℓ} (P : A → Type κ) (name : Bytes) (follow : Bool) (hit : Bytes → ℕ → Node → A)
      (nil : Bytes → A) (gone : A) (bad : Err → A)
      → is_valid name ≡ true
      → ((id : ℕ) (n : Node) → find m name ≡ some (id, n) → P (hit name id n))
      → (kind_at m name ≡ none → P gone)
      → ((e : Err) → kind_at m name ≡ none → P (bad e))
      → P (by_lookup (resolve_locked m name follow) hit nil gone bad)
  tree_cases P name follow hit nil gone bad v h g b =
      go (resolve_locked m name follow) (resolve_locked-Leads name follow v)
    where
      go : (r : Resolved) → Leads m name r → P (by_lookup r hit nil gone bad)
      go (found r (some (id, n))) (same, f, _) = subst (λ k. P (hit k id n)) (sym same) (h id n f)
      go (found r none) (_, _, ne) = absurd (ne refl)
      go (absent cur) e = g e
      go (failed x) e = b x e

abbrev pub is_ok {ℓ} : {A : Type ℓ} → Result A → Bool
is_ok (ok a) = true
is_ok (fail e) = false

module _ (m : Memory) (t : IsTree m) where
  -- Stat and Lstat find what stands under the name.
  pub node_at-there :
      (name : Bytes) (follow : Bool) (id : ℕ) (n : Node)
      → is_valid name ≡ true
      → find m name ≡ some (id, n)
      → node_at m name follow ≡ ok (name, n)
  unfolding node_at
  node_at-there name follow id n v f =
      tree_cases m t (λ r. r ≡ ok (name, n)) name follow (λ r id n. ok (r, n)) (λ _. fail panic)
        (fail gash.Memory.Node.not_exist) (λ e. fail e) v (λ j x f'. ground (arith, f, f'))
        (λ gone. cc (gone, ap kind_of f)) (λ e gone. cc (gone, ap kind_of f))

  pub node_at-gone :
      (name : Bytes) (follow : Bool)
      → is_valid name ≡ true
      → kind_at m name ≡ none
      → is_ok (node_at m name follow) ≡ false
  unfolding node_at
  node_at-gone name follow v gone =
      tree_cases m t (λ r. is_ok r ≡ false) name follow (λ r id n. ok (r, n)) (λ _. fail panic)
        (fail gash.Memory.Node.not_exist) (λ e. fail e) v (λ id n f. cc (gone, ap kind_of f))
        (λ _. refl) (λ e _. refl)

  pub node_at-not_ok :
      (name : Bytes) (follow : Bool)
      → is_valid name ≡ true
      → is_ok (node_at m name follow) ≡ false
      → kind_at m name ≡ none
  node_at-not_ok name follow v h = elim (Option-cases (kind_at m name)) [
    | inl gone ↦ gone
    | inr (k, there) ↦
        let (id, n, f, _) = kind_at-find (find m name) k there in
        absurd (false≢true (sym h ∙ ap is_ok (node_at-there name follow id n v f)))
  ]
