-- ===== src/Overlay.antt =====
-- pkg/fs/overlay.go: a writable upper filesystem over a lower one that is only read. The upper
-- one's state `U` is threaded through the operations; the lower one's state is a constant.
pub mod Names
pub mod View
pub mod Listing
pub mod Dirs
pub mod CopyUp
pub mod Write
pub mod Removal
pub mod Keeps
pub mod Hidden
pub mod Markers
pub mod Absent
pub mod Removed
pub mod Opaque
pub mod Written
pub mod Laws
pub mod MemoryLayer
pub mod MemoryUpper
pub mod OverMemory
mod Flat
mod Samples
mod MemorySamples
use gash.Prelude.{
  ℕ, ◌+◌, ◌^◌, Bool, true, false, not, ◌||◌, Option, none, some, Bytes, ◌==◌, ◌⊎◌, inl, inr, ◌≡◌,
  refl,
}
use Prim.Native.Nat.{bit_and}
use gash.Memory.Node.{mode_dir, mode_symlink}
use gash.Mount.{FileSystem, Info}
use gash.Capabilities.{
  AccessError, Status, null_info, file_info, filesystem_error, read_only, unsupported, exist,
}

-- What errors.Is says of the errors of the filesystems.
pub record ErrorTests (E : Type 0) : Type 0 where
  pub not_exist_test : E → Bool
  pub exist_test : E → Bool
  pub read_only_test : E → Bool

-- The errors of the overlay: those of the calls of a layer, and its own.
pub data OverlayError (E : Type 0) : Type 0 where
  access : AccessError E → OverlayError E
  not_exist already_exists not_dir invalid not_empty permission : OverlayError E

pub record Overlay (U L E : Type 0) : Type 0 where
  pub upper : FileSystem U E
  pub lower : FileSystem L E
  pub lower_state : L
  pub tests : ErrorTests E

module _ {E : Type 0} (t : ErrorTests E) where
  -- isNotExist(err)
  abbrev pub is_not_exist : OverlayError E → Bool
  is_not_exist (access (filesystem_error e)) = t.not_exist_test e
  is_not_exist (access _) = false
  is_not_exist not_exist = true
  is_not_exist _ = false

  -- errors.Is(err, iofs.ErrExist)
  abbrev pub is_exist : OverlayError E → Bool
  is_exist (access (filesystem_error e)) = t.exist_test e
  is_exist (access exist) = true
  is_exist (access _) = false
  is_exist already_exists = true
  is_exist _ = false

  -- errors.Is(err, ErrReadOnly)
  abbrev pub is_read_only : OverlayError E → Bool
  is_read_only (access (filesystem_error e)) = t.read_only_test e
  is_read_only (access read_only) = true
  is_read_only _ = false

-- err == nil
abbrev pub succeeds {ℓ κ} : {X : Type ℓ} {A : Type κ} → X ⊎ A → Bool
succeeds (inl _) = false
succeeds (inr _) = true

-- The error and the result of a call of a layer.
abbrev pub on_result {ℓ κ μ} :
    {X : Type ℓ} {A : Type κ} {B : Type μ} → X ⊎ A → (X → B) → (A → B) → B
on_result (inl e) f g = f e
on_result (inr a) f g = g a

pub on_result_cases {ℓ κ μ ν} :
    {X : Type ℓ} {A : Type κ} {B : Type μ} (P : B → Type ν) (r : X ⊎ A) (f : X → B) (g : A → B)
    → ((e : X) → r ≡ inl e → P (f e))
    → ((a : A) → r ≡ inr a → P (g a))
    → P (on_result r f g)
on_result_cases P (inl e) f g h k = h e refl
on_result_cases P (inr a) f g h k = k a refl

module _ {E : Type 0} where
  -- A call of io/fs on a layer.
  abbrev pub raw {ℓ} : {A : Type ℓ} → E ⊎ A → OverlayError E ⊎ A
  raw (inl e) = inl (access (filesystem_error e))
  raw (inr a) = inr a

  -- A call of pkg/fs/capabilities.go on a layer.
  abbrev pub called {ℓ} : {A : Type ℓ} → AccessError E ⊎ A → OverlayError E ⊎ A
  called (inl e) = inl (access e)
  called (inr a) = inr a

  abbrev pub done : {U : Type 0} → Option (AccessError E) × U → Option (OverlayError E) × U
  done (none, u) = (none, u)
  done (some e, u) = (some (access e), u)

-- A change, and what follows where it succeeds.
infixl 5 ◌>>◌
abbrev pub ◌>>◌ {ℓ κ} : {X : Type ℓ} {U : Type κ} → Option X × U → (U → Option X × U) → Option X × U
(none, u) >> f = f u
(some e, u) >> f = (some e, u)

-- err != nil && !test(err)
abbrev pub unless {ℓ κ} : {X : Type ℓ} {U : Type κ} → (X → Bool) → Option X × U → Option X × U
unless test (none, u) = (none, u)
unless test (some e, u) = elim (test e) [ true ↦ (none, u) | false ↦ (some e, u) ]

-- info.IsDir(), info.Mode()&ModeSymlink != 0
abbrev pub is_dir_mode : ℕ → Bool
is_dir_mode mode = not (bit_and mode mode_dir == 0)

abbrev pub is_symlink_mode : ℕ → Bool
is_symlink_mode mode = not (bit_and mode mode_symlink == 0)

-- The mode and time that Lstat reports, those of the null device included.
abbrev pub status_mode : Status → ℕ
status_mode null_info = 2 ^ 26 + 2 ^ 21 + 0o666
status_mode (file_info i) = i.mode

abbrev pub status_time : Status → ℕ
status_time null_info = 0
status_time (file_info i) = i.mtime
