-- ===== src/Mount/Points.antt =====
-- The mount points of pkg/fs/mount.go through calls of Mount and Unmount.
use gash.Prelude.{
  true, false, List, [], ◌∷◌, Option, none, some, Bytes, beq, beq_iff, if◌then◌else◌, ◌⊎◌, inl, inr,
  ◌≡◌, sym, on_option_cases, if_cases,
}
use gash.Assoc.{Assoc, lookup, put, delete}
use gash.Path.{fs_name, is_valid}
use gash.Path.Lexical.{dot}
use gash.Path.Laws.{fs_name-is_valid}
use gash.Mount.{
  FileSystem, MountError, not_exist, dot_segment, at_root, Mountable, has_dot_part, mount, unmount,
}
use gash.Mount.Route.{IsMounted}

-- Calls of Mount and Unmount.
pub data MountEvent (S E : Type 0) : Type 0 where
  mounting : Bytes → FileSystem S E → MountEvent S E
  unmounting : Bytes → MountEvent S E

module _ {S E : Type 0} where
  IsMounted-put :
      (k : Bytes) (fs : FileSystem S E) (m : Assoc (FileSystem S E)) (p : Bytes)
      (f : FileSystem S E)
      → IsMounted p f (put k fs m)
      → ((p ≡ k) × (f ≡ fs)) ⊎ IsMounted p f m
  unfolding put
  IsMounted-put k fs [] p f h = h
  IsMounted-put k fs ((j, g) ∷ m) p f h =
      if_cases (λ m'. IsMounted p f m' → ((p ≡ k) × (f ≡ fs)) ⊎ IsMounted p f ((j, g) ∷ m))
        (beq j k) _ _ (λ _ h. elim h [ inl e ↦ inl e | inr i ↦ inr (inr i) ])
        (λ _ h. elim h [
          | inl e ↦ inr (inl e)
          | inr i ↦ elim (IsMounted-put k fs m p f i) [ inl e ↦ inl e | inr i' ↦ inr (inr i') ]
        ])
        h

  IsMounted-delete :
      (k : Bytes) (m : Assoc (FileSystem S E)) (p : Bytes) (f : FileSystem S E)
      → IsMounted p f (delete k m)
      → IsMounted p f m
  unfolding delete
  IsMounted-delete k [] p f h = h
  IsMounted-delete k ((j, g) ∷ m) p f h =
      if_cases (λ m'. IsMounted p f m' → IsMounted p f ((j, g) ∷ m)) (beq j k) _ _
        (λ _ h. inr (IsMounted-delete k m p f h))
        (λ _ h. elim h [ inl e ↦ inl e | inr i ↦ inr (IsMounted-delete k m p f i) ]) h

  pub IsMounted-lookup :
      (k : Bytes) (m : Assoc (FileSystem S E)) (f : FileSystem S E)
      → lookup k m ≡ some f
      → IsMounted k f m
  unfolding lookup
  IsMounted-lookup k [] f h = cc
  IsMounted-lookup k ((j, g) ∷ m) f h =
      if_cases (λ o. o ≡ some f → IsMounted k f ((j, g) ∷ m)) (beq j k) (some g) (lookup k m)
        (λ t e. inl (sym ((beq_iff j k).0 t), same e)) (λ _ e. inr (IsMounted-lookup k m f e)) h
    where
      same : some g ≡ some f → f ≡ g
      same e = cc

  -- Every mount point is a valid name other than the root.
  abbrev pub IsProper : Mountable S E → Type 0
  IsProper m =
      (p : Bytes) (f : FileSystem S E)
      → IsMounted p f m.mounts
      → (is_valid p ≡ true) × (beq p dot ≡ false)

  mount-IsProper :
      (point : Bytes) (fs : FileSystem S E) (m : Mountable S E)
      → IsProper m
      → IsProper (mount point fs m).1
  unfolding mount
  mount-IsProper point fs m h =
      if_cases Kept (has_dot_part point) (some dot_segment, m)
        (if beq (fs_name point) dot then (some at_root, m) else mounted) (λ _. h)
        λ _.
          if_cases Kept (beq (fs_name point) dot) (some at_root, m) mounted (λ _. h)
            λ proper p f i. elim (IsMounted-put (fs_name point) fs m.mounts p f i) [
              | inl e ↦ rw e.0 (fs_name-is_valid point, proper)
              | inr i' ↦ h p f i'
            ]
    where
      Kept : Option (MountError E) × Mountable S E → Type 0
      Kept r = IsProper r.1

      mounted : Option (MountError E) × Mountable S E
      mounted = (none, record m { mounts = put (fs_name point) fs m.mounts })

  unmount-IsProper : (point : Bytes) (m : Mountable S E) → IsProper m → IsProper (unmount point m).1
  unfolding unmount
  unmount-IsProper point m h =
      on_option_cases (λ (r : Option (MountError E) × Mountable S E). IsProper r.1)
        (lookup (fs_name point) m.mounts) (some not_exist, m) _ (λ _. h)
        λ _ _ p f i. h p f (IsMounted-delete (fs_name point) m.mounts p f i)

  unfoldable pub run_mounts : List (MountEvent S E) → Mountable S E → Mountable S E
  run_mounts [] m = m
  run_mounts (mounting point fs ∷ es) m = run_mounts es (mount point fs m).1
  run_mounts (unmounting point ∷ es) m = run_mounts es (unmount point m).1

  run_mounts-IsProper_from :
      (es : List (MountEvent S E)) (m : Mountable S E) → IsProper m → IsProper (run_mounts es m)
  unfolding run_mounts
  run_mounts-IsProper_from [] m h = h
  run_mounts-IsProper_from (mounting point fs ∷ es) m h =
      run_mounts-IsProper_from es (mount point fs m).1 (mount-IsProper point fs m h)
  run_mounts-IsProper_from (unmounting point ∷ es) m h =
      run_mounts-IsProper_from es (unmount point m).1 (unmount-IsProper point m h)

  -- After any calls of Mount and Unmount on a namespace without mounts, failed ones included,
  -- every mount point is a valid name other than the root.
  pub run_mounts-IsProper :
      (es : List (MountEvent S E)) (fs : FileSystem S E)
      → IsProper (run_mounts es (record { base_fs = fs; mounts = [] }))
  run_mounts-IsProper es fs =
      run_mounts-IsProper_from es (record { base_fs = fs; mounts = [] }) (λ p f i. absurd i)
