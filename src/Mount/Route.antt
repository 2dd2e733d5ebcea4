-- ===== src/Mount/Route.antt =====
-- The choice of a mount point by route of pkg/fs/mount.go.
use gash.Prelude.{
  ℕ, ◌≤◌, ◌<◌, true, false, ◌&&◌, [], ◌∷◌, ◌++◌, Option, none, some, Bytes, beq, beq_iff,
  has_prefix, trim_prefix, length, drop, ltb, is_empty, if◌then◌else◌, ◌⊎◌, inl, inr, ◌≡◌, refl,
  sym, ap, ◌∙◌, subst, arith, has_prefix→append, trim_prefix-append, Bool-cases, on_option,
  if_cases, append_assoc, append-nil,
}
use gash.Assoc.{Assoc}
use gash.Path.Lexical.{slash, dot}
use gash.Mount.{FileSystem, Mountable, covers, route_loop, relative_to, route}

module _ {S E : Type 0} where
  -- The mount of that filesystem at that point.
  abbrev pub IsMounted : Bytes → FileSystem S E → Assoc (FileSystem S E) → Type 0
  IsMounted point fs [] = ⊥
  IsMounted point fs ((p, f) ∷ m) = ((point ≡ p) × (fs ≡ f)) ⊎ IsMounted point fs m

  -- No mount point that covers the name is longer than `n`.
  abbrev pub IsLongest : ℕ → Bytes → Assoc (FileSystem S E) → Type 0
  IsLongest n name m =
      (p : Bytes) (f : FileSystem S E) → IsMounted p f m → covers p name ≡ true → length p ≤ n

  -- What the loop keeps: the best so far is nothing, or a filesystem with a point that covers.
  abbrev Candidate :
      Bytes → (Bytes → FileSystem S E → Type 0) → Bytes × Option (FileSystem S E) → Type 0
  Candidate name P (p, none) = p ≡ []
  Candidate name P (p, some f) = P p f × (covers p name ≡ true)

  Candidate-map :
      (name : Bytes) (P Q : Bytes → FileSystem S E → Type 0) (b : Bytes × Option (FileSystem S E))
      → ((p : Bytes) (f : FileSystem S E) → P p f → Q p f)
      → Candidate name P b
      → Candidate name Q b
  Candidate-map name P Q (p, none) k c = c
  Candidate-map name P Q (p, some f) k c = (k p f c.0, c.1)

  route_loop-IsLongest :
      (name : Bytes) (m : Assoc (FileSystem S E)) (b : Bytes × Option (FileSystem S E))
      (P : Bytes → FileSystem S E → Type 0)
      → Candidate name P b
      → Candidate name (λ p f. P p f ⊎ IsMounted p f m) (route_loop name b m)
        × (length b.0 ≤ length (route_loop name b m).0)
        × IsLongest (length (route_loop name b m).0) name m
  unfolding route_loop
  route_loop-IsLongest name [] b P c = (
    Candidate-map name P (λ p f. P p f ⊎ IsMounted p f []) b (λ p f h. inl h) c,
    omega arith,
    λ p f h. absurd h,
  )
  route_loop-IsLongest name ((point, fs) ∷ m) b P c =
      if_cases Kept (covers point name && ltb (length b.0) (length point)) (point, some fs) b
        (λ t.
          let tests : (covers point name ≡ true) × (length b.0 < length point) = ground arith in
          let r =
            route_loop-IsLongest name m (point, some fs) (λ p f. (p ≡ point) × (f ≡ fs))
              ((refl, refl), tests.0) in
          (
            Candidate-map name _ _ (route_loop name (point, some fs) m) (λ p f. inr_first p f) r.0,
            omega (arith, tests.1, r.1),
            longest (point, some fs) r.1 r.2 (λ _. omega arith),
          ))
        (λ t.
          let r = route_loop-IsLongest name m b P c in
          (
            Candidate-map name _ _ (route_loop name b m) regroup r.0,
            r.1,
            longest b r.1 r.2 (λ h. ground (arith, t, h)),
          ))
    where
      Kept : Bytes × Option (FileSystem S E) → Type 0
      Kept b' =
          Candidate name (λ p f. P p f ⊎ IsMounted p f ((point, fs) ∷ m)) (route_loop name b' m)
          × (length b.0 ≤ length (route_loop name b' m).0)
          × IsLongest (length (route_loop name b' m).0) name ((point, fs) ∷ m)

      inr_first :
          (p : Bytes) (f : FileSystem S E)
          → ((p ≡ point) × (f ≡ fs)) ⊎ IsMounted p f m
          → P p f ⊎ (((p ≡ point) × (f ≡ fs)) ⊎ IsMounted p f m)
      inr_first p f h = inr h

      longest :
          (b' : Bytes × Option (FileSystem S E))
          → length b'.0 ≤ length (route_loop name b' m).0
          → IsLongest (length (route_loop name b' m).0) name m
          → (covers point name ≡ true → length point ≤ length b'.0)
          → IsLongest (length (route_loop name b' m).0) name ((point, fs) ∷ m)
      longest b' le k here p f (inl e) h =
          let this = here (subst (λ q. covers q name ≡ true) e.0 h) in
          subst (λ q. length q ≤ length (route_loop name b' m).0) (sym e.0)
            (omega (arith, this, le))
      longest b' le k here p f (inr i) h = k p f i h

      regroup :
          (p : Bytes) (f : FileSystem S E)
          → P p f ⊎ IsMounted p f m
          → P p f ⊎ (((p ≡ point) × (f ≡ fs)) ⊎ IsMounted p f m)
      regroup p f (inl h) = inl h
      regroup p f (inr h) = inr (inr h)

relative_to-point : (best : Bytes) → relative_to best best ≡ dot
unfolding relative_to trim_prefix has_prefix
relative_to-point best =
    let e : trim_prefix best best ≡ [] =
      ap (λ s. trim_prefix s best) (sym (append-nil best)) ∙ trim_prefix-append best [] in
    rw e refl

relative_to-below :
    (best rest : Bytes)
    → relative_to best (best ++ slash ∷ rest) ≡ (if is_empty rest then dot else rest)
unfolding relative_to trim_prefix has_prefix
relative_to-below best rest = rw (trim_prefix-append best (slash ∷ rest)) refl

-- The name in the filesystem: what stands behind the mount point and a slash, or ".".
relative_to_lem :
    (best name : Bytes)
    → covers best name ≡ true
    → (((name ≡ best) ⊎ (name ≡ best ++ slash ∷ [])) × (relative_to best name ≡ dot))
      ⊎ (name ≡ best ++ slash ∷ relative_to best name)
unfolding covers
relative_to_lem best name h = elim (Bool-cases (beq name best)) [
  | inl t ↦
      let e = (beq_iff name best).0 t in
      inl (inl e, ap (relative_to best) e ∙ relative_to-point best)
  | inr f ↦
      let prefix : has_prefix name (best ++ slash ∷ []) ≡ true = ground (arith, f, h) in
      let rest = drop (length (best ++ slash ∷ [])) name in
      let e =
        has_prefix→append name (best ++ slash ∷ []) prefix ∙ append_assoc best (slash ∷ []) rest in
      below rest e
]
  where
    below :
        (rest : Bytes)
        → name ≡ best ++ slash ∷ rest
        → (((name ≡ best) ⊎ (name ≡ best ++ slash ∷ [])) × (relative_to best name ≡ dot))
          ⊎ (name ≡ best ++ slash ∷ relative_to best name)
    below [] e = inl (inr e, ap (relative_to best) e ∙ relative_to-below best [])
    below (c ∷ rest) e = inr (
        e
        ∙ ap (λ s. best ++ slash ∷ s)
            (sym (ap (relative_to best) e ∙ relative_to-below best (c ∷ rest))))

module _ {S E : Type 0} where
  -- route(name) on both branches: no mount point covers the name, and the base serves it as it is;
  -- or a filesystem that is mounted does, at a point that covers the name and is no shorter than
  -- any other that does, and the name is that point, or the point, a slash and the relative name.
  -- Mount points are not empty.
  pub route_lem :
      (name : Bytes) (m : Mountable S E)
      → ((p : Bytes) (f : FileSystem S E) → IsMounted p f m.mounts → is_empty p ≡ false)
      → let r = route name m in
        ((r.2 ≡ [])
          × (r.1 ≡ name)
          × (r.0 ≡ m.base_fs)
          × ((p : Bytes) (f : FileSystem S E) → IsMounted p f m.mounts → covers p name ≡ false))
        ⊎ (IsMounted r.2 r.0 m.mounts
            × (covers r.2 name ≡ true)
            × IsLongest (length r.2) name m.mounts
            × ((((name ≡ r.2) ⊎ (name ≡ r.2 ++ slash ∷ [])) × (r.1 ≡ dot))
                ⊎ (name ≡ r.2 ++ slash ∷ r.1)))
  unfolding route
  route_lem name m proper =
      let r = route_loop-IsLongest name m.mounts ([], none) (λ p f. ⊥) refl in
      found (route_loop name ([], none) m.mounts) r.0 r.2
    where
      found :
          (b : Bytes × Option (FileSystem S E))
          → Candidate name (λ p f. ⊥ ⊎ IsMounted p f m.mounts) b
          → IsLongest (length b.0) name m.mounts
          → let r : FileSystem S E × Bytes × Bytes =
              on_option b.1 (m.base_fs, name, []) (λ fs. (fs, relative_to b.0 name, b.0)) in
            ((r.2 ≡ [])
              × (r.1 ≡ name)
              × (r.0 ≡ m.base_fs)
              × ((p : Bytes) (f : FileSystem S E) → IsMounted p f m.mounts → covers p name ≡ false))
            ⊎ (IsMounted r.2 r.0 m.mounts
                × (covers r.2 name ≡ true)
                × IsLongest (length r.2) name m.mounts
                × ((((name ≡ r.2) ⊎ (name ≡ r.2 ++ slash ∷ [])) × (r.1 ≡ dot))
                    ⊎ (name ≡ r.2 ++ slash ∷ r.1)))
      found (b, none) c k = inl (refl, refl, refl, uncovered)
        where
          uncovered :
              (p : Bytes) (f : FileSystem S E) → IsMounted p f m.mounts → covers p name ≡ false
          uncovered p f i = elim (Bool-cases (covers p name)) [
            | inl t ↦ absurd (short p (k p f i t) (proper p f i))
            | inr e ↦ e
          ]
            where
              short : (q : Bytes) → length q ≤ length b → is_empty q ≡ false → ⊥
              short [] le e = cc
              short (x ∷ q) le e = omega (arith, le, ap length c)
      found (b, some f) (inl z, t) k = absurd z
      found (b, some f) (inr i, t) k = inr (i, t, k, relative_to_lem b name t)
