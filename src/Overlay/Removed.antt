-- ===== src/Overlay/Removed.antt =====
-- Remove of pkg/fs/overlay.go: what is left of an entry of either layer.
use gash.Prelude.{
  Bool, true, false, false≢true, not, Option, none, some, Bytes, beq, is_empty, if◌then◌else◌,
  if_cases, ◌≢◌, ◌≡◌, refl, sym, ap, subst, ◌⊎◌, inl, inr, arith,
}
use gash.Path.{fs_name, is_valid}
use gash.Path.Laws.{fs_name-is_valid}
use gash.Path.Lexical.{dot}
use gash.Capabilities.{Status, dev_null}
use gash.Capabilities
use gash.Overlay.{
  Overlay, OverlayError, invalid, not_empty, not_exist, is_not_exist, succeeds, on_result,
  on_result_cases, done, is_dir_mode, status_mode,
}
use gash.Overlay.Names.{rejects_whiteout}
use gash.Overlay.View.{upper_lstat, lower_lstat, whited_out, visible_in_lower, layered, lstat}
use gash.Overlay.Listing.{read_dir}
use gash.Overlay.Dirs.{set_whiteout, clear_markers}
use gash.Overlay.Removal.{remove_upper, hide_lower, remove_entry, remove}
use gash.Overlay.Hidden.{
  UpperLaws, >>-none, done-none, has_whiteout-whited_out, set_whiteout-has_whiteout,
}
use gash.Overlay.Keeps.{clear_markers-keeps}
use gash.Overlay.Absent.{Absent, set_whiteout-Absent}

module _ {U L E : Type 0} (o : Overlay U L E) where
  -- Neither layer shows a name.
  abbrev Gone : Bytes → U → Type 0
  Gone name v = (succeeds (upper_lstat o name v) ≡ false) × (visible_in_lower o name v ≡ false)

  layered-Gone :
      (name : Bytes) (v : U) (r : OverlayError E ⊎ Status)
      → succeeds r ≡ false
      → visible_in_lower o name v ≡ false
      → succeeds (layered o name v r (lower_lstat o name)) ≡ false
  unfolding layered visible_in_lower
  layered-Gone name v (inr a) h k = absurd (false≢true (sym h))
  layered-Gone name v (inl e) h k =
      if_cases (λ (s : OverlayError E ⊎ Status). succeeds s ≡ false) (not (is_not_exist o.tests e))
        (inl e) (if whited_out o name v then inl not_exist else lower_lstat o name) (λ _. refl)
        (λ _.
          if_cases (λ (s : OverlayError E ⊎ Status). succeeds s ≡ false) (whited_out o name v)
            (inl not_exist) (lower_lstat o name) (λ _. refl) (λ w. rw w at k))

  Gone-lstat : (text : Bytes) (v : U) → Gone (fs_name text) v → succeeds (lstat o text v) ≡ false
  unfolding lstat
  Gone-lstat text v (h, k) =
      let name = fs_name text in
      if_cases (λ (s : OverlayError E ⊎ Status). succeeds s ≡ false) (rejects_whiteout name)
        (inl invalid) (layered o name v (upper_lstat o name v) (lower_lstat o name)) (λ _. refl)
        (λ _. layered-Gone name v (upper_lstat o name v) h k)

module _ {U L E : Type 0} (o : Overlay U L E) {Ordered : U → Type 0}
    (laws : UpperLaws o Ordered) where
  hide_lower-Gone :
      (text : Bytes) (w v : U)
      → rejects_whiteout (fs_name text) ≡ false
      → Absent o laws (fs_name text) w
      → hide_lower o (fs_name text) w ≡ (none, v)
      → Gone o (fs_name text) v
  unfolding hide_lower visible_in_lower
  hide_lower-Gone text w v proper h =
      let name = fs_name text in
      if_cases (λ (r : Option (OverlayError E) × U). r ≡ (none, v) → Gone o name v)
        (not (visible_in_lower o name w)) (none, w) (set_whiteout o name w)
        (λ k e. subst (Gone o name) (ap (λ r. r.1) e) (h.1, ground (arith, k)))
        (λ k e.
          let (r, m) = set_whiteout-has_whiteout o laws name w v h.0 e in
          (
            (subst (Absent o laws name) (ap (λ r. r.1) e)
                (set_whiteout-Absent o laws text w proper h)).1,
            rw (has_whiteout-whited_out o text v r m) refl,
          ))

  -- The upper half of Remove leaves no upper entry.
  remove_upper-Absent :
      (name : Bytes) (is_dir : Bool) (u w : U)
      → is_valid name ≡ true
      → name ≢ dev_null
      → Ordered u
      → on_result
          (upper_lstat o name u)
          (λ e. if not (is_not_exist o.tests e) then (some e, u) else (none, u))
          (λ _. remove_upper o name is_dir u)
        ≡ (none, w)
      → Absent o laws name w
  unfolding remove_upper
  remove_upper-Absent name is_dir u w valid live ordered =
      on_result_cases (λ (r : Option (OverlayError E) × U). r ≡ (none, w) → Absent o laws name w)
        (upper_lstat o name u)
        (λ e. if not (is_not_exist o.tests e) then (some e, u) else (none, u))
        (λ _. remove_upper o name is_dir u)
        (λ e found.
          if_cases (λ (r : Option (OverlayError E) × U). r ≡ (none, w) → Absent o laws name w)
            (not (is_not_exist o.tests e)) (some e, u) (none, u) (λ _ h. cc)
            (λ _ h. subst (Absent o laws name) (ap (λ r. r.1) h) (ordered, rw found refl)))
        (λ _ _ h.
          let (x, before, k) =
            >>-none (if is_dir then clear_markers o name u else (none, u))
              (λ x. done (Capabilities.remove o.upper name x)) w h in
          let cleared : Ordered (if is_dir then clear_markers o name u else (none, u)).1 =
            if_cases (λ (r : Option (OverlayError E) × U). Ordered r.1) is_dir
              (clear_markers o name u) (none, u)
              (λ _. clear_markers-keeps o Ordered laws.remove_keeps_order name u ordered)
              (λ _. ordered) in
          let still : Ordered x = subst Ordered (ap (λ r. r.1) before) cleared in
          let e = done-none (Capabilities.remove o.upper name x) w k in
          (
            subst Ordered (ap (λ r. r.1) e) (laws.remove_keeps_order name x still),
            laws.removed name x w valid live still e,
          ))

  remove_entry-Gone :
      (text : Bytes) (is_dir : Bool) (u v : U)
      → rejects_whiteout (fs_name text) ≡ false
      → fs_name text ≢ dev_null
      → Ordered u
      → remove_entry o (fs_name text) is_dir u ≡ (none, v)
      → Gone o (fs_name text) v
  unfolding remove_entry
  remove_entry-Gone text is_dir u v proper live ordered e =
      let name = fs_name text in
      let (w, h, k) =
        >>-none
          (on_result (upper_lstat o name u)
            (λ e. if not (is_not_exist o.tests e) then (some e, u) else (none, u))
            (λ _. remove_upper o name is_dir u))
          (hide_lower o name) v e in
      hide_lower-Gone text w v proper
        (remove_upper-Absent name is_dir u w (fs_name-is_valid text) live ordered h) k

  abbrev Forgets : Bytes → U → Option (OverlayError E) × U → Type 0
  Forgets text v r = r ≡ (none, v) → succeeds (lstat o text v) ≡ false

  -- Over an upper layer that keeps UpperLaws and is in good order, after a Remove that succeeds of a name other than
  -- dev/null, Lstat no longer finds the name, whichever layer had the entry and whatever markers
  -- there were before.
  pub remove-lstat :
      (text : Bytes) (u v : U)
      → fs_name text ≢ dev_null
      → Ordered u
      → remove o text u ≡ (none, v)
      → succeeds (lstat o text v) ≡ false
  unfolding remove
  remove-lstat text u v live ordered =
      let name = fs_name text in
      let removes : Bool → Option (OverlayError E) × U = λ d. remove_entry o name d u in
      if_cases (Forgets text v) (beq name dot) (some invalid, u) _ (λ _ h. cc)
        λ _.
          if_cases (Forgets text v) (rejects_whiteout name) (some invalid, u) _ (λ _ h. cc)
            λ proper.
              on_result_cases (Forgets text v) (lstat o name u) (λ e. (some e, u)) _ (λ e _ h. cc)
                λ info _.
                  if_cases (Forgets text v) (is_dir_mode (status_mode info)) _ (removes false)
                    (λ _.
                      on_result_cases (Forgets text v) (read_dir o name u) (λ e. (some e, u)) _
                        (λ e _ h. cc)
                        λ entries _.
                          if_cases (Forgets text v) (not (is_empty entries)) (some not_empty, u)
                            (removes true) (λ _ h. cc)
                            (λ _ h.
                              Gone-lstat o text v
                                (remove_entry-Gone text true u v proper live ordered h)))
                    (λ _ h.
                      Gone-lstat o text v (remove_entry-Gone text false u v proper live ordered h))
