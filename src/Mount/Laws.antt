-- ===== src/Mount/Laws.antt =====
-- Mount points after Mount and Unmount of pkg/fs/mount.go, and the operations of
-- pkg/fs/mount_write.go on them.
use gash.Prelude.{
  ◌≤◌, Bool, true, false, not, ◌&&◌, ◌||◌, [], ◌∷◌, ◌++◌, none, some, Bytes, beq, beq_refl, length,
  is_empty, if◌then◌else◌, ◌⊎◌, inl, inr, ◌≡◌, refl, sym, ap, ◌∙◌, arith, on_option, length-append,
}
use gash.Assoc.{lookup, put, lookup-put, lookup-delete}
use gash.Path.{fs_name, is_valid}
use gash.Path.Lexical.{slash, dot, base}
use gash.Path.Laws.{fs_name-is_valid, fs_name-valid}
use gash.Mount.{
  FileSystem, Info, Mountable, mount, unmount, is_mount_point, covers, route, stat, named_info,
  virtual_dir_info,
}
use gash.Mount.Route.{route_lem}
use gash.Mount.Points.{IsProper, IsMounted-lookup}

pub fs_name_idem : (name : Bytes) → fs_name (fs_name name) ≡ fs_name name
fs_name_idem name = fs_name-valid (fs_name name) (fs_name-is_valid name)

covers_self : (name : Bytes) → covers name name ≡ true
unfolding covers
covers_self name = rw (beq_refl name) refl

longer : (b rel : Bytes) {name : Bytes} → length name ≤ length b → name ≡ b ++ slash ∷ rel → ⊥
longer b rel le e = omega (arith, le, ap length e, length-append b (slash ∷ rel))

valid-ne_empty : (p : Bytes) → is_valid p ≡ true → is_empty p ≡ false
unfolding is_valid
valid-ne_empty p v = ground arith

module _ {S E : Type 0} where
  mount-accepted :
      (point : Bytes) (fs : FileSystem S E) (m : Mountable S E)
      → (mount point fs m).0 ≡ none
      → (mount point fs m).1 ≡ record m { mounts = put (fs_name point) fs m.mounts }
  unfolding mount
  mount-accepted point fs m = ground arith

  -- Which names are mount points after a Mount that succeeds, and after an Unmount that does: the
  -- spelling of the point does not matter, and no other mount point changes.
  pub mount-is_mount_point :
      (point name : Bytes) (fs : FileSystem S E) (m : Mountable S E)
      → (mount point fs m).0 ≡ none
      → let m' = (mount point fs m).1 in
        (is_mount_point name m' ≡ (beq (fs_name point) (fs_name name) || is_mount_point name m))
        × ((unmount point m').0 ≡ none)
        × (is_mount_point name (unmount point m').1
            ≡ (not (beq (fs_name point) (fs_name name)) && is_mount_point name m))
  unfolding is_mount_point unmount
  mount-is_mount_point point name fs m h =
      let p = fs_name point in
      let n = fs_name name in
      rw
        (
          mount-accepted point fs m h,
          lookup-put p p fs m.mounts,
          beq_refl p,
          lookup-delete p n (put p fs m.mounts),
          lookup-put p n fs m.mounts,
        )
        (set (beq p n), refl, deleted (beq p n))
    where
      set :
          (b : Bool)
          → on_option (if b then some fs else lookup (fs_name name) m.mounts) false (λ _. true)
            ≡ (b || on_option (lookup (fs_name name) m.mounts) false (λ _. true))
      set true = refl
      set false = refl

      deleted :
          (b : Bool)
          → on_option
              (if b then none else if b then some fs else lookup (fs_name name) m.mounts)
              false
              (λ _. true)
            ≡ (not b && on_option (lookup (fs_name name) m.mounts) false (λ _. true))
      deleted true = refl
      deleted false = refl

  -- The mount point that a name is routed to is the name itself where that is a mount point.
  route-point :
      (name : Bytes) (m : Mountable S E) (f : FileSystem S E)
      → IsProper m
      → lookup name m.mounts ≡ some f
      → (route name m).2 ≡ name
  route-point name m f h e =
      let i = IsMounted-lookup name m.mounts f e in
      elim (route_lem name m (λ p g j. valid-ne_empty p (h p g j).0)) [
        | inl none_covers ↦ absurd (true_false (sym (covers_self name) ∙ none_covers.3 name f i))
        | inr r ↦
            sym (longest (route name m).2 (route name m).1 (r.2 name f i (covers_self name)) r.3)
      ]
    where
      true_false : true ≡ false → ⊥
      true_false c = cc

      longest :
          (b rel : Bytes)
          → length name ≤ length b
          → (((name ≡ b) ⊎ (name ≡ b ++ slash ∷ [])) × (rel ≡ dot)) ⊎ (name ≡ b ++ slash ∷ rel)
          → name ≡ b
      longest b rel le (inl (inl e, _)) = e
      longest b rel le (inl (inr e, _)) = absurd (longer b [] le e)
      longest b rel le (inr e) = absurd (longer b rel le e)

  -- Stat of a mount point succeeds and gives its base name, whatever its filesystem answers.
  pub stat-mount_point :
      (name : Bytes) (m : Mountable S E) (f : FileSystem S E) (s : S)
      → IsProper m
      → lookup name m.mounts ≡ some f
      → (info : Info) × (stat name m s ≡ inr info) × (info.name ≡ base name)
  unfolding stat named_info base
  stat-mount_point name m f s h e =
      let valid = (h name f (IsMounted-lookup name m.mounts f e)).0 in
      let r = named ((route name m).0.stat (route name m).1 s) in (r.0, rw valid r.1, r.2)
    where
      at_point : (not (is_empty (route name m).2) && beq name (route name m).2) ≡ true
      at_point =
          rw
            (
              route-point name m f h e,
              valid-ne_empty name (h name f (IsMounted-lookup name m.mounts f e)).0,
              beq_refl name,
            )
            refl

      named :
          (r : E ⊎ Info)
          → (info : Info) × (named_info name m r ≡ inr info) × (info.name ≡ base name)
      named (inl e) = (virtual_dir_info (base name), rw at_point refl, refl)
      named (inr info) = (record info { name = base name }, rw at_point refl, refl)
