-- ===== src/Mount/Samples.antt =====
-- A namespace of two filesystems whose state is one log of the names removed.
use gash.Prelude.{
  ℕ, true, false, List, [], ◌∷◌, ◌++◌, none, some, Bytes, codes, beq, has_prefix, trim_prefix,
  length, is_empty, ◌⊎◌, inl, inr, ◌≡◌, refl,
}
use gash.Assoc.{lookup, put, delete}
use gash.Path.{fs_name, is_valid}
use gash.Path.Lexical.{slash, dot}
use gash.Memory.Read.{text_lt}
use gash.Mount.{
  FileSystem, read_only_system, Mountable, busy, mount, unmount, is_mount_point, route, covers,
  route_loop, relative_to, child_mounts, child_names, insert_name, has_virtual_dir, has_dot_part,
}
use gash.Mount.Write.{remove, remove_all, rename_within, mkdir_all}
use gash.Mount.Route.{IsMounted, IsLongest, route_lem}
use gash.Mount.Points.{IsProper, MountEvent, mounting, unmounting, run_mounts, run_mounts-IsProper}
use gash.Mount.Busy.{busy_lem}

computing : Unit {0}
unfolding lookup put delete fs_name is_valid beq has_prefix trim_prefix text_lt mount unmount
    is_mount_point route covers route_loop relative_to child_mounts child_names insert_name
    has_virtual_dir has_dot_part run_mounts
computing = tt

abbrev logged : FileSystem (List Bytes) ℕ
logged = record (read_only_system (λ name s. inl 2) (λ name s. inl 2) (λ name s. inl 2)) {
  remove = some (λ name s. (none, name ∷ s));
}

abbrev events : List (MountEvent (List Bytes) ℕ)
events = mounting (codes "/mnt") logged ∷ mounting (codes "/mnt/a/") logged ∷ []

abbrev empty_namespace : Mountable (List Bytes) ℕ
empty_namespace = record { base_fs = logged; mounts = [] }

abbrev both : Mountable (List Bytes) ℕ
both = run_mounts events empty_namespace

both-IsProper : IsProper both
both-IsProper = run_mounts-IsProper events logged

run_mounts-IsProper_example :
    IsProper (run_mounts (unmounting (codes "mnt") ∷ events) empty_namespace)
run_mounts-IsProper_example = run_mounts-IsProper (unmounting (codes "mnt") ∷ events) logged

removed : remove (codes "mnt/a/x") both [] ≡ (none, codes "x" ∷ [])
unfolding computing remove
removed = refl

nonempty :
    (p : Bytes) (f : FileSystem (List Bytes) ℕ) → IsMounted p f both.mounts → is_empty p ≡ false
unfolding computing
nonempty p f (inl e) = rw e.0 refl
nonempty p f (inr (inl e)) = rw e.0 refl
nonempty p f (inr (inr i)) = absurd i

abbrev found : FileSystem (List Bytes) ℕ × Bytes × Bytes
found = route (codes "mnt/a/x") both

route_lem_example :
    ((found.2 ≡ [])
      × (found.1 ≡ codes "mnt/a/x")
      × (found.0 ≡ both.base_fs)
      × ((p : Bytes) (f : FileSystem (List Bytes) ℕ)
          → IsMounted p f both.mounts
          → covers p (codes "mnt/a/x") ≡ false))
    ⊎ (IsMounted found.2 found.0 both.mounts
        × (covers found.2 (codes "mnt/a/x") ≡ true)
        × IsLongest (length found.2) (codes "mnt/a/x") both.mounts
        × ((((codes "mnt/a/x" ≡ found.2) ⊎ (codes "mnt/a/x" ≡ found.2 ++ slash ∷ []))
              × (found.1 ≡ dot))
            ⊎ (codes "mnt/a/x" ≡ found.2 ++ slash ∷ found.1)))
route_lem_example = route_lem (codes "mnt/a/x") both nonempty

busy_lem_example :
    (remove (codes "mnt") both [] ≡ (some busy, []))
    × (remove_all (codes "mnt") both [] ≡ (some busy, []))
    × (rename_within (codes "mnt") (codes "x") both [] ≡ some (some busy, []))
    × (mkdir_all (codes "mnt") 0o755 both [] ≡ (none, []))
unfolding computing
busy_lem_example =
    busy_lem (codes "mnt") (codes "x") 0o755 (codes "mnt" ∷ []) (codes "a" ∷ []) both logged [] refl
      refl refl
