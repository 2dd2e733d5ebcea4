-- ===== src/Overlay/Listing.antt =====
-- ReadDir of pkg/fs/overlay.go: the merge of the two layers' entries.
use gash.Prelude.{
  true, false, List, [], ◌∷◌, Option, none, some, Bytes, is_empty, if◌then◌else◌, ◌⊎◌, inl, inr,
  on_option, trim_prefix,
}
use gash.Assoc.{Assoc, put, delete}
use gash.Path.{fs_name}
use gash.Mount.{Info, sorted_infos}
use gash.Overlay.{Overlay, OverlayError, not_exist, invalid, is_not_exist, raw}
use gash.Overlay.Names.{whiteout_prefix, is_whiteout_name, join_name, rejects_whiteout}
use gash.Overlay.View.{has_whiteout, whited_out}

-- The loop over the upper entries: a marker deletes the entry it hides, any other is entered.
unfoldable pub merge_upper : List Info → Assoc Info → Assoc Info
merge_upper [] merged = merged
merge_upper (e ∷ es) merged = merge_upper es (
    if is_whiteout_name e.name
    then delete (trim_prefix e.name whiteout_prefix) merged
    else put e.name e merged)

-- The entries of a layer, none where it has no such directory.
abbrev pub entries_of : {X : Type 0} → X ⊎ List Info → List Info
entries_of (inl e) = []
entries_of (inr entries) = entries

module _ {U L E : Type 0} (o : Overlay U L E) where
  -- The loop over the lower entries: those with a marker of their own are left out.
  unfoldable pub merge_lower : Bytes → U → List Info → Assoc Info → Assoc Info
  merge_lower name u [] merged = merged
  merge_lower name u (e ∷ es) merged =
      merge_lower name u es
        (if has_whiteout o (join_name name e.name) u then merged else put e.name e merged)

  unfoldable pub lower_entries : Bytes → U → OverlayError E ⊎ List Info
  lower_entries name u =
      if whited_out o name u then inl not_exist else raw (o.lower.read_dir name o.lower_state)

  unfoldable pub merged_entries :
      Bytes → U → OverlayError E ⊎ List Info → OverlayError E ⊎ List Info → Assoc Info
  merged_entries name u lower upper =
      merge_upper (entries_of upper) (merge_lower name u (entries_of lower) [])

  -- An error other than that the directory does not exist.
  abbrev pub fatal {ℓ} : {A : Type ℓ} → OverlayError E ⊎ A → Option (OverlayError E)
  fatal (inl e) = elim (is_not_exist o.tests e) [ true ↦ none | false ↦ some e ]
  fatal (inr a) = none

  -- What is returned behind the loops.
  unfoldable pub listed :
      Assoc Info
      → OverlayError E ⊎ List Info
      → OverlayError E ⊎ List Info
      → OverlayError E ⊎ List Info
  listed merged (inl _) (inl e) = if is_empty merged then inl e else inr (sorted_infos merged)
  listed merged lower upper = inr (sorted_infos merged)

  -- ReadDir(name)
  unfoldable pub read_dir : Bytes → U → OverlayError E ⊎ List Info
  read_dir text u =
      let name = fs_name text in
      let lower = lower_entries name u in
      let upper : OverlayError E ⊎ List Info = raw (o.upper.read_dir name u) in
      if rejects_whiteout name
      then inl invalid
      else on_option (fatal lower)
          (on_option (fatal upper) (listed (merged_entries name u lower upper) lower upper) inl) inl
