-- ===== src/Overlay/Keeps.antt =====
-- Properties of the upper layer's state that the helpers of pkg/fs/overlay.go keep, from the calls
-- of the layer that they make.
use gash.Prelude.{
  ℕ, Bool, false, not, List, [], ◌∷◌, Option, none, some, Bytes, if_cases, Bool-cases, ◌≡◌, refl,
  sym, subst, ◌∙◌, inl, inr,
}
use gash.Path.{parent}
use gash.Path.Lexical.{slash, split}
use gash.Mount.{Info}
use gash.Capabilities.{AccessError}
use gash.Capabilities
use gash.Overlay.{
  Overlay, OverlayError, invalid, not_dir, is_not_exist, is_exist, on_result_cases, raw, done, ◌>>◌,
  unless, is_dir_mode,
}
use gash.Overlay.Names.{extended, is_root_name, is_whiteout_name, join_name, rejects_whiteout}
use gash.Overlay.View.{stat}
use gash.Overlay.Dirs.{
  copied_perm, make_dir, ensure_dir, walk_dir, walk_parts, walk_dirs, materialize_parents,
  prepare_write, clear_each, clear_markers,
}

pub unless-state {ℓ κ} :
    {X : Type ℓ} {U : Type κ} (test : X → Bool) (r : Option X × U) → (unless test r).1 ≡ r.1
unless-state test (none, u) = refl
unless-state test (some e, u) = elim (Bool-cases (test e)) [
  | inl h ↦ rw (h, unless) refl
  | inr h ↦ rw (h, unless) refl
]

pub done-state : {E U : Type 0} (r : Option (AccessError E) × U) → (done r).1 ≡ r.1
done-state (none, u) = refl
done-state (some e, u) = refl

-- A property of the state that both halves of a chain keep.
pub >>-keeps {ℓ κ μ} :
    {X : Type ℓ} {U : Type κ} (P : U → Type μ) (r : Option X × U) (f : U → Option X × U)
    → P r.1
    → ((u : U) → P u → P (f u).1)
    → P (r >> f).1
>>-keeps P (none, u) f h k = k u h
>>-keeps P (some e, u) f h k = h

module _ {U L E : Type 0} (o : Overlay U L E) (P : U → Type 0) where
  abbrev PThen : Option (OverlayError E) × U → Type 0
  PThen r = P r.1

  module _
      (made : (m : Bytes) (perm : ℕ) (u : U)
        → P u
        → P (Capabilities.mkdir o.upper m perm u).1) where
    make_dir-keeps : (m : Bytes) (perm : ℕ) (u : U) → P u → P (make_dir o m perm u).1
    unfolding make_dir
    make_dir-keeps m perm u h =
        let r = Capabilities.mkdir o.upper m perm u in
        subst P (sym (unless-state (is_exist o.tests) (done r) ∙ done-state r)) (made m perm u h)

    ensure_dir-keeps :
        (m : Bytes) (perm : ℕ) (create : Bool) (u : U) → P u → P (ensure_dir o m perm create u).1
    unfolding ensure_dir
    ensure_dir-keeps m perm create u h =
        on_result_cases PThen (stat o m u) _ _
          (λ e _.
            if_cases PThen _ (make_dir o m perm u) (some e, u) (λ _. make_dir-keeps m perm u h)
              (λ _. h))
          (λ info _.
            if_cases PThen _ (make_dir o m (copied_perm info.mode) u) (some not_dir, u)
              (λ _. make_dir-keeps m (copied_perm info.mode) u h) (λ _. h))

    walk_dir-keeps :
        (m : Bytes) (perm : ℕ) (create : Bool) (u : U) → P u → P (walk_dir o m perm create u).1
    unfolding walk_dir
    walk_dir-keeps m perm create u h =
        on_result_cases PThen (raw (o.upper.stat m u)) _ _
          (λ e _.
            if_cases PThen (not (is_not_exist o.tests e)) (some e, u) (ensure_dir o m perm create u)
              (λ _. h) (λ _. ensure_dir-keeps m perm create u h))
          (λ info _.
            if_cases PThen (not (is_dir_mode info.mode)) (some not_dir, u) (none, u) (λ _. h)
              (λ _. h))

    walk_parts-keeps :
        (current : Bytes) (parts : List Bytes) (perm : ℕ) (create : Bool) (u : U)
        → P u
        → P (walk_parts o current parts perm create u).1
    unfolding walk_parts
    walk_parts-keeps current [] perm create u h = h
    walk_parts-keeps current (q ∷ parts) perm create u h =
        let next = extended current q in
        >>-keeps P (walk_dir o next perm create u) (walk_parts o next parts perm create)
          (walk_dir-keeps next perm create u h) (λ v k. walk_parts-keeps next parts perm create v k)

    pub materialize_parents-keeps :
        (name : Bytes) (u : U) → P u → P (materialize_parents o name u).1
    unfolding materialize_parents walk_dirs
    materialize_parents-keeps name u h =
        if_cases PThen (is_root_name (parent name)) (none, u)
          (walk_parts o [] (split slash (parent name)) 0 false u) (λ _. h)
          (λ _. walk_parts-keeps [] (split slash (parent name)) 0 false u h)

    pub prepare_write-keeps : (name : Bytes) (u : U) → P u → P (prepare_write o name u).1
    unfolding prepare_write
    prepare_write-keeps name u h =
        if_cases PThen (rejects_whiteout name) (some invalid, u) (materialize_parents o name u)
          (λ _. h) (λ _. materialize_parents-keeps name u h)

  module _ (removes : (m : Bytes) (u : U) → P u → P (Capabilities.remove o.upper m u).1) where
    clear_each-keeps : (dir : Bytes) (es : List Info) (u : U) → P u → P (clear_each o dir es u).1
    unfolding clear_each
    clear_each-keeps dir [] u h = h
    clear_each-keeps dir (e ∷ es) u h =
        let r = Capabilities.remove o.upper (join_name dir e.name) u in
        >>-keeps P _ (clear_each o dir es)
          (if_cases PThen (not (is_whiteout_name e.name)) (none, u)
            (unless (is_not_exist o.tests) (done r)) (λ _. h)
            (λ _.
              subst P (sym (unless-state (is_not_exist o.tests) (done r) ∙ done-state r))
                (removes (join_name dir e.name) u h)))
          (λ v k. clear_each-keeps dir es v k)

    pub clear_markers-keeps : (dir : Bytes) (u : U) → P u → P (clear_markers o dir u).1
    unfolding clear_markers
    clear_markers-keeps dir u h =
        on_result_cases PThen (raw (o.upper.read_dir dir u)) _ _
          (λ e _. if_cases PThen (is_not_exist o.tests e) (none, u) (some e, u) (λ _. h) (λ _. h))
          (λ entries _. clear_each-keeps dir entries u h)
