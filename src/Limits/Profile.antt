-- ===== src/Limits/Profile.antt =====
-- The limit profiles of pkg/gash/limits.go and resolveLimits.
use gash.Prelude.{
  ℕ, ◌*◌, ◌^◌, Bool, false, not, ◌||◌, Option, none, some, Bytes, codes, beq, ◌≡◌, refl, arith,
  if◌then◌else◌, ◌⊎◌, inl, inr, on_option, Option-cases,
}
use gash.Prelude.Int.{ℤ, pos, negsuc, is_negative, is_zero}

-- A duration counts nanoseconds.
pub record Limits : Type 0 where
  pub max_source_bytes : ℤ
  pub max_exec_depth : ℤ
  pub max_call_depth : ℤ
  pub max_command_count : ℤ
  pub max_input_bytes : ℤ
  pub max_output_bytes : ℤ
  pub max_execution_time : ℤ
  pub max_file_system_bytes : ℤ

abbrev pub normal_profile : Bytes
normal_profile = codes "normal"

abbrev pub hardened_profile : Bytes
hardened_profile = codes "hardened"

abbrev second : ℕ
second = 1000000000

unfoldable pub normal_limits : Limits
normal_limits = record {
  max_source_bytes = pos (64 * 2 ^ 20);
  max_exec_depth = pos 64;
  max_call_depth = pos 100;
  max_command_count = pos 100000;
  max_input_bytes = pos (512 * 2 ^ 20);
  max_output_bytes = pos (256 * 2 ^ 20);
  max_execution_time = pos (3600 * second);
  max_file_system_bytes = pos (2 ^ 30);
}

unfoldable pub hardened_limits : Limits
hardened_limits = record normal_limits {
  max_source_bytes = pos (8 * 2 ^ 20);
  max_command_count = pos 10000;
  max_input_bytes = pos (32 * 2 ^ 20);
  max_output_bytes = pos (10 * 2 ^ 20);
  max_execution_time = pos (30 * second);
  max_file_system_bytes = pos (128 * 2 ^ 20);
}

pub data LimitError : Type 0 where
  unknown_profile negative_limit : LimitError

pub data Resolution : Type 0 where
  resolved : Limits → Resolution
  rejected : LimitError → Resolution

-- The switch on the profile.
unfoldable pub profile_limits : Bytes → Option Limits
unfolding beq normal_limits hardened_limits
profile_limits profile =
    if beq profile (codes "") || beq profile normal_profile
    then some normal_limits
    else if beq profile hardened_profile
    then some hardened_limits
    else none

-- if user.X != 0 { out.X = user.X }
abbrev pub override : ℤ → ℤ → ℤ
override user inherited = if not (is_zero user) then user else inherited

unfoldable pub override_limits : Limits → Limits → Limits
override_limits user out = record {
  max_source_bytes = override user.max_source_bytes out.max_source_bytes;
  max_exec_depth = override user.max_exec_depth out.max_exec_depth;
  max_call_depth = override user.max_call_depth out.max_call_depth;
  max_command_count = override user.max_command_count out.max_command_count;
  max_input_bytes = override user.max_input_bytes out.max_input_bytes;
  max_output_bytes = override user.max_output_bytes out.max_output_bytes;
  max_execution_time = override user.max_execution_time out.max_execution_time;
  max_file_system_bytes = override user.max_file_system_bytes out.max_file_system_bytes;
}

unfoldable pub has_negative : Limits → Bool
has_negative l =
    is_negative l.max_source_bytes
    || is_negative l.max_exec_depth
    || is_negative l.max_call_depth
    || is_negative l.max_command_count
    || is_negative l.max_input_bytes
    || is_negative l.max_output_bytes
    || is_negative l.max_execution_time
    || is_negative l.max_file_system_bytes

-- resolveLimits(user, profile)
unfoldable pub resolve_limits : Limits → Bytes → Resolution
resolve_limits user profile = on_option (profile_limits profile) (rejected unknown_profile) λ out.
    let out' = override_limits user out in
    if has_negative out' then rejected negative_limit else resolved out'

override-negative :
    (user inherited : ℤ)
    → is_negative inherited ≡ false
    → is_negative (override user inherited) ≡ is_negative user
override-negative (negsuc n) i h = refl
override-negative (pos n) i h = ground arith

profile-nonneg :
    (profile : Bytes) (out : Limits)
    → profile_limits profile ≡ some out
    → (out ≡ normal_limits) ⊎ (out ≡ hardened_limits)
unfolding profile_limits
profile-nonneg profile out h = ground arith

override_normal :
    (user : Limits) → has_negative (override_limits user normal_limits) ≡ has_negative user
unfolding has_negative override_limits normal_limits
override_normal user = simp override_pos refl
  where
    override_pos : (user : ℤ) (n : ℕ) → is_negative (override user (pos n)) ≡ is_negative user
    override_pos user n = override-negative user (pos n) refl

override_hardened :
    (user : Limits) → has_negative (override_limits user hardened_limits) ≡ has_negative user
unfolding has_negative override_limits hardened_limits normal_limits
override_hardened user = simp override_pos refl
  where
    override_pos : (user : ℤ) (n : ℕ) → is_negative (override user (pos n)) ≡ is_negative user
    override_pos user n = override-negative user (pos n) refl

-- The limits that an execution runs under: resolveLimits accepts exactly a known profile with no
-- negative limit given, and the result takes each limit that is given and not 0, and the
-- profile's for every other; otherwise it reports which of the two is wrong, the profile first.
pub resolve_limits_cases :
    (user : Limits) (profile : Bytes)
    → resolve_limits user profile
      ≡ on_option (profile_limits profile) (rejected unknown_profile) (λ d.
        if has_negative user then rejected negative_limit else resolved (override_limits user d))
unfolding resolve_limits
resolve_limits_cases user profile = elim (Option-cases (profile_limits profile)) [
  | inl e ↦ rw e refl
  | inr (d, e) ↦ elim (profile-nonneg profile d e) [
    | inl n ↦ rw (e, n, override_normal user) refl
    | inr h ↦ rw (e, h, override_hardened user) refl
  ]
]
