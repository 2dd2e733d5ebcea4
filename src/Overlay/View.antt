-- ===== src/Overlay/View.antt =====
-- The reads of pkg/fs/overlay.go: an upper entry first, then a lower one that no whiteout hides.
use gash.Prelude.{Bool, false, not, [], Bytes, any, is_empty, if◌then◌else◌, ◌⊎◌, inl, inr}
use gash.Path.{fs_name}
use gash.Path.Lexical.{slash, split}
use gash.Mount.{Info}
use gash.Capabilities.{AccessError, Status}
use gash.Capabilities
use gash.Overlay.{
  Overlay, OverlayError, not_exist, invalid, is_not_exist, succeeds, on_result, raw, called,
}
use gash.Overlay.Names.{whiteout_name, rejects_whiteout, prefixes, is_root_name}

module _ {U L E : Type 0} (o : Overlay U L E) where
  -- Lstat(o.upper, name), Lstat(o.lower, name)
  unfoldable pub upper_lstat : Bytes → U → OverlayError E ⊎ Status
  upper_lstat name u = called (Capabilities.lstat o.upper name u)

  unfoldable pub lower_lstat : Bytes → OverlayError E ⊎ Status
  lower_lstat name = called (Capabilities.lstat o.lower name o.lower_state)

  -- hasWhiteout(name)
  unfoldable pub has_whiteout : Bytes → U → Bool
  has_whiteout name u =
      if is_empty (whiteout_name name) then false else succeeds (upper_lstat (whiteout_name name) u)

  -- whitedOut(name)
  unfoldable pub whited_out : Bytes → U → Bool
  whited_out name u =
      if is_root_name name
      then false
      else any (λ current. has_whiteout current u) (prefixes [] (split slash name))

  -- visibleInLower(name)
  unfoldable pub visible_in_lower : Bytes → U → Bool
  visible_in_lower name u = if whited_out name u then false else succeeds (lower_lstat name)

  -- The upper layer's answer, or where it has no such entry the lower one's.
  unfoldable pub layered {ℓ} :
      {A : Type ℓ} → Bytes → U → OverlayError E ⊎ A → OverlayError E ⊎ A → OverlayError E ⊎ A
  layered name u from_upper from_lower =
      on_result from_upper
        (λ e.
          if not (is_not_exist o.tests e)
          then inl e
          else if whited_out name u
          then inl not_exist
          else from_lower)
        inr

  -- ReadFile(name)
  unfoldable pub read_file : Bytes → U → OverlayError E ⊎ Bytes
  read_file text u =
      let name = fs_name text in
      if rejects_whiteout name
      then inl invalid
      else layered name u (raw (o.upper.read_file name u))
          (raw (o.lower.read_file name o.lower_state))

  -- Stat(name)
  unfoldable pub stat : Bytes → U → OverlayError E ⊎ Info
  stat text u =
      let name = fs_name text in
      if rejects_whiteout name
      then inl invalid
      else layered name u (raw (o.upper.stat name u)) (raw (o.lower.stat name o.lower_state))

  -- Lstat(name)
  unfoldable pub lstat : Bytes → U → OverlayError E ⊎ Status
  lstat text u =
      let name = fs_name text in
      if rejects_whiteout name
      then inl invalid
      else layered name u (upper_lstat name u) (lower_lstat name)
