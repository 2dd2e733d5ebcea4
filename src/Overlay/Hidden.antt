-- ===== src/Overlay/Hidden.antt =====
-- What a marker of pkg/fs/overlay.go hides: the prefixes of a name end with the name itself.
use gash.Prelude.{
  ℕ, Bool, true, false, List, [], ◌∷◌, ◌++◌, Option, none, some, Bytes, any, all, is_empty,
  if◌then◌else◌, if_cases, ◌≢◌, ◌≡◌, refl, sym, ap, subst, ◌∙◌, arith, false≢true, beq_refl,
  append_assoc,
}
use gash.Path.{fs_name, is_valid}
use gash.Path.Lexical.{slash, dot, split, join, is_name}
use gash.Path.Clean.{is_proper, name_of, split-name_of}
use gash.Path.Laws.{valid-parts, fs_name-is_valid}
use gash.Capabilities.{AccessError, dev_null}
use gash.Capabilities
use gash.Overlay.{Overlay, OverlayError, invalid, succeeds, done, ◌>>◌}
use gash.Overlay.Names.{whiteout_name, extended, prefixes, is_root_name}
use gash.Overlay.View.{upper_lstat, has_whiteout, whited_out}
use gash.Overlay.Dirs.{materialize_parents, set_whiteout}
use gash.Overlay.Keeps.{materialize_parents-keeps}

-- Two names of files that are not the same.
abbrev pub Apart : Bytes → Bytes → Type 0
Apart m n = (is_valid m ≡ true) × (is_valid n ≡ true) × (m ≢ n)

-- What the overlay relies on in its upper layer while that is in good order, which the changes
-- keep: an entry that was written has an Lstat and one that was removed has none, and no change of
-- one name makes another appear.
pub record UpperLaws {U L E : Type 0} (o : Overlay U L E) (Ordered : U → Type 0) : Type 0 where
  pub write_keeps_order :
      (m content : Bytes) (perm : ℕ) (u : U)
      → Ordered u
      → Ordered (Capabilities.write_file o.upper m content perm u).1
  pub mkdir_keeps_order :
      (m : Bytes) (perm : ℕ) (u : U) → Ordered u → Ordered (Capabilities.mkdir o.upper m perm u).1
  pub remove_keeps_order :
      (m : Bytes) (u : U) → Ordered u → Ordered (Capabilities.remove o.upper m u).1
  pub written :
      (m : Bytes) (u v : U)
      → Ordered u
      → Capabilities.write_file o.upper m [] 0o600 u ≡ (none, v)
      → succeeds (upper_lstat o m v) ≡ true
  pub write_keeps :
      (m n : Bytes) (u : U)
      → Apart m n
      → Ordered u
      → succeeds (upper_lstat o n u) ≡ false
      → succeeds (upper_lstat o n (Capabilities.write_file o.upper m [] 0o600 u).1) ≡ false
  pub mkdir_keeps :
      (m n : Bytes) (perm : ℕ) (u : U)
      → Apart m n
      → Ordered u
      → succeeds (upper_lstat o n u) ≡ false
      → succeeds (upper_lstat o n (Capabilities.mkdir o.upper m perm u).1) ≡ false
  pub removed :
      (n : Bytes) (u v : U)
      → is_valid n ≡ true
      → n ≢ dev_null
      → Ordered u
      → Capabilities.remove o.upper n u ≡ (none, v)
      → succeeds (upper_lstat o n v) ≡ false

pub done-none :
    {E U : Type 0} (r : Option (AccessError E) × U) (v : U) → done r ≡ (none, v) → r ≡ (none, v)
done-none (none, w) v h = ap (λ r. (none, r.1)) h
done-none (some e, w) v h = cc

-- A chain that succeeds is two that do.
pub >>-none {ℓ κ} :
    {X : Type ℓ} {U : Type κ} (r : Option X × U) (f : U → Option X × U) (v : U)
    → (r >> f) ≡ (none, v)
    → (w : U) × (r ≡ (none, w)) × (f w ≡ (none, v))
>>-none (none, w) f v h = (w, refl, h)
>>-none (some e, w) f v h = cc

-- `current` behind the last part.
abbrev pub whole : Bytes → List Bytes → Bytes
whole current [] = current
whole current (part ∷ parts) = whole (extended current part) parts

any-prefixes :
    (f : Bytes → Bool) (current part : Bytes) (parts : List Bytes)
    → f (whole current (part ∷ parts)) ≡ true
    → any f (prefixes current (part ∷ parts)) ≡ true
unfolding prefixes
any-prefixes f current part [] h = ground arith
any-prefixes f current part (q ∷ parts) h =
    ground (arith, any-prefixes f (extended current part) q parts h)

pub whole-join :
    (x : ℕ) (xs : Bytes) (parts : List Bytes) → whole (x ∷ xs) parts ≡ join slash ((x ∷ xs) ∷ parts)
unfolding join
whole-join x xs [] = refl
whole-join x xs (q ∷ []) = refl
whole-join x xs (q ∷ r ∷ parts) =
    whole-join x (xs ++ slash ∷ q) (r ∷ parts)
    ∙ append_assoc (x ∷ xs) (slash ∷ q) (slash ∷ join slash (r ∷ parts))

any-split :
    (f : Bytes → Bool) (p : Bytes) (ps : List Bytes)
    → all is_proper (p ∷ ps) ≡ true
    → f (name_of (p ∷ ps)) ≡ true
    → any f (prefixes [] (split slash (name_of (p ∷ ps)))) ≡ true
unfolding is_name
any-split f [] ps proper h = ground arith
any-split f (x ∷ xs) ps proper h =
    rw (split-name_of (x ∷ xs) ps proper)
      (any-prefixes f [] (x ∷ xs) ps (rw (whole-join x xs ps) h))

any-name_of :
    (f : Bytes → Bool) (ps : List Bytes)
    → all is_proper ps ≡ true
    → is_root_name (name_of ps) ≡ false
    → f (name_of ps) ≡ true
    → any f (prefixes [] (split slash (name_of ps))) ≡ true
any-name_of f [] proper r h = absurd (false≢true (sym r ∙ ground (arith, beq_refl dot)))
any-name_of f (p ∷ ps) proper r h = any-split f p ps proper h

pub marker-ne_root :
    (name : Bytes) → is_empty (whiteout_name name) ≡ false → is_root_name name ≡ false
unfolding whiteout_name
marker-ne_root name e = ground arith

module _ {U L E : Type 0} (o : Overlay U L E) where
  -- The marker of a name is there where it was, and where it was written.
  abbrev pub marked : Bytes → U → Option (OverlayError E) × U
  marked name u =
      if succeeds (upper_lstat o (whiteout_name name) u)
      then (none, u)
      else done (Capabilities.write_file o.upper (whiteout_name name) [] 0o600 u)

  marked-lstat :
      {Ordered : U → Type 0}
      → UpperLaws o Ordered
      → (name : Bytes) (u v : U) → Ordered u
      → marked name u ≡ (none, v)
      → succeeds (upper_lstat o (whiteout_name name) v) ≡ true
  marked-lstat laws name u v ordered =
      if_cases
        (λ (r : Option (OverlayError E) × U).
          r ≡ (none, v) → succeeds (upper_lstat o (whiteout_name name) v) ≡ true)
        (succeeds (upper_lstat o (whiteout_name name) u)) (none, u)
        (done (Capabilities.write_file o.upper (whiteout_name name) [] 0o600 u))
        (λ e h.
          ap (λ w. succeeds (upper_lstat o (whiteout_name name) w)) (sym (ap (λ r. r.1) h)) ∙ e)
        (λ e h.
          laws.written (whiteout_name name) u v ordered
            (done-none (Capabilities.write_file o.upper (whiteout_name name) [] 0o600 u) v h))

  -- The marker of a name hides it.
  pub has_whiteout-whited_out :
      (text : Bytes) (u : U)
      → is_root_name (fs_name text) ≡ false
      → has_whiteout o (fs_name text) u ≡ true
      → whited_out o (fs_name text) u ≡ true
  unfolding whited_out
  has_whiteout-whited_out text u r h =
      let (ps, proper, e) = valid-parts (fs_name text) (fs_name-is_valid text) in
      rw r (rw e (any-name_of (λ m. has_whiteout o m u) ps proper (rw e at r) (rw e at h)))

  -- Behind a marker that is set, where a file that was written has an Lstat.
  pub set_whiteout-has_whiteout :
      {Ordered : U → Type 0}
      → UpperLaws o Ordered
      → (name : Bytes) (u v : U) → Ordered u
      → set_whiteout o name u ≡ (none, v)
      → (is_root_name name ≡ false) × (has_whiteout o name v ≡ true)
  unfolding set_whiteout has_whiteout
  set_whiteout-has_whiteout {Ordered} laws name u v ordered =
      let m = whiteout_name name in
      if_cases
        (λ (r : Option (OverlayError E) × U).
          r ≡ (none, v)
          → (is_root_name name ≡ false)
            × ((if is_empty m then false else succeeds (upper_lstat o m v)) ≡ true))
        (is_empty m) (some invalid, u) (materialize_parents o name u >> marked name) (λ e h. cc)
        (λ e h.
          let (w, before, k) = >>-none (materialize_parents o name u) (marked name) v h in
          let still : Ordered w =
            subst Ordered (ap (λ r. r.1) before)
              (materialize_parents-keeps o Ordered laws.mkdir_keeps_order name u ordered) in
          (marker-ne_root name e, rw e (marked-lstat laws name w v still k)))
