-- ===== src/Overlay/Written.antt =====
-- WriteFile and ReadFile of pkg/fs/overlay.go.
use gash.Prelude.{
  ℕ, true, false, false≢true, Option, none, some, Bytes, is_empty, if_cases, ◌≢◌, ◌≡◌, refl, sym,
  ap, subst, ◌∙◌, inr,
}
use gash.Path.{fs_name, is_valid}
use gash.Path.Laws.{fs_name-is_valid}
use gash.Capabilities.{dev_null}
use gash.Capabilities
use gash.Overlay.{Overlay, OverlayError, invalid, succeeds, done, ◌>>◌}
use gash.Overlay.Names.{rejects_whiteout, whiteout_name}
use gash.Overlay.View.{upper_lstat, read_file, layered}
use gash.Overlay.Dirs.{prepare_write, clear_whiteout, materialize_parents}
use gash.Overlay.Write.{write_file, revealed}
use gash.Overlay.Keeps.{prepare_write-keeps}
use gash.Overlay.Hidden.{UpperLaws, Apart, >>-none, done-none, marker-ne_root}
use gash.Overlay.Markers.{whiteout_name-is_valid, rejects_whiteout-whiteout_name}

module _ {U L E : Type 0} (o : Overlay U L E) where
  accepted_lem :
      (name : Bytes) (u v : U) → prepare_write o name u ≡ (none, v) → rejects_whiteout name ≡ false
  unfolding prepare_write
  accepted_lem name u v =
      if_cases (λ (r : Option (OverlayError E) × U). r ≡ (none, v) → rejects_whiteout name ≡ false)
        (rejects_whiteout name) (some invalid, u) (materialize_parents o name u) (λ _ h. cc)
        (λ e _. e)

-- In an upper layer in good order a file that was written reads as written, until a change of its
-- own name.
pub record FileLaws {U L E : Type 0} (o : Overlay U L E) (Ordered : U → Type 0) : Type 0 where
  pub reads_written :
      (n content : Bytes) (perm : ℕ) (u v : U)
      → is_valid n ≡ true
      → n ≢ dev_null
      → Ordered u
      → Capabilities.write_file o.upper n content perm u ≡ (none, v)
      → o.upper.read_file n v ≡ inr content
  pub remove_reads :
      (m n content : Bytes) (u : U)
      → Apart m n
      → Ordered u
      → o.upper.read_file n u ≡ inr content
      → o.upper.read_file n (Capabilities.remove o.upper m u).1 ≡ inr content

module _ {U L E : Type 0} (o : Overlay U L E) {Ordered : U → Type 0} (upper : UpperLaws o Ordered)
    (laws : FileLaws o Ordered) where
  clear_whiteout-read :
      (text content : Bytes) (u : U)
      → rejects_whiteout (fs_name text) ≡ false
      → Ordered u
      → o.upper.read_file (fs_name text) u ≡ inr content
      → o.upper.read_file (fs_name text) (clear_whiteout o (fs_name text) u) ≡ inr content
  unfolding clear_whiteout
  clear_whiteout-read text content u proper ordered h =
      let n = fs_name text in
      let m = whiteout_name n in
      let reads : U → Type 0 = λ v. o.upper.read_file n v ≡ inr content in
      if_cases reads (is_empty m) u _ (λ _. h)
        λ marks.
          if_cases reads (succeeds (upper_lstat o m u)) (Capabilities.remove o.upper m u).1 u
            (λ _.
              let r = marker-ne_root n marks in
              laws.remove_reads m n content u
                (
                  whiteout_name-is_valid text r,
                  fs_name-is_valid text,
                  λ e. false≢true (
                      sym proper
                      ∙ ap rejects_whiteout (sym e)
                      ∙ rejects_whiteout-whiteout_name n r),
                )
                ordered h)
            (λ _. h)

  -- Over an upper layer that keeps UpperLaws and FileLaws and is in good order, after a WriteFile that succeeds to a name other than
  -- dev/null, ReadFile gives what was written, whatever either layer had under the name and also
  -- where a marker had hidden it.
  pub write_file-read_file :
      (text content : Bytes) (perm : ℕ) (u v : U)
      → fs_name text ≢ dev_null
      → Ordered u
      → write_file o text content perm u ≡ (none, v)
      → read_file o text v ≡ inr content
  unfolding write_file read_file layered
  write_file-read_file text content perm u v live ordered h =
      let n = fs_name text in
      let writes : U → Option (OverlayError E) × U =
        λ x. done (Capabilities.write_file o.upper n content perm x) in
      let (w, prepared, k) = >>-none (prepare_write o n u) (λ x. writes x >> revealed o n) v h in
      let (x, wrote, e) = >>-none (writes w) (revealed o n) v k in
      let proper = accepted_lem o n u w prepared in
      let parents : Ordered (prepare_write o n u).1 =
        prepare_write-keeps o Ordered upper.mkdir_keeps_order n u ordered in
      let still : Ordered w = subst Ordered (ap (λ r. r.1) prepared) parents in
      let e' = done-none (Capabilities.write_file o.upper n content perm w) x wrote in
      let after : Ordered x =
        subst Ordered (ap (λ r. r.1) e') (upper.write_keeps_order n content perm w still) in
      let now = laws.reads_written n content perm w x (fs_name-is_valid text) live still e' in
      let last =
        subst (λ s. o.upper.read_file n s ≡ inr content) (ap (λ r. r.1) e)
          (clear_whiteout-read text content x proper after now) in
      rw proper (rw last refl)
