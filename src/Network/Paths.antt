-- ===== src/Network/Paths.antt =====
-- pathAllowed of pkg/network/policy.go, by the elements of the two paths.
use gash.Prelude.{
  ℕ, Bool, true, false, false≢true, ◌&&◌, ◌||◌, List, [], ◌∷◌, ◌++◌, Bytes, beq, append-nil,
  append_assoc, all, is_empty, has_prefix, trim_prefix, if◌then◌else◌, if_cases, ◌≡◌, refl, sym, ap,
  ap₂, subst, ◌∙◌, arith,
}
use gash.Path.Lexical.{slash, root, join, is_name}
use gash.Path.Split.{no_sep}
use gash.Path.Clean.{is_proper, clean_parts-keeps}
use gash.Path.Laws.{parts_of, clean-rooted}
use gash.Network.{rooted_clean, path_allowed}

-- A list begins with another.
abbrev pub starts_with : List Bytes → List Bytes → Bool
starts_with ps [] = true
starts_with [] (q ∷ qs) = false
starts_with (p ∷ ps) (q ∷ qs) = beq p q && starts_with ps qs

-- The elements that a path comes to when it is cleaned.
abbrev pub elements : Bytes → List Bytes
elements s = parts_of (trim_prefix s root)

rooted_clean_lem : (s : Bytes) → rooted_clean s ≡ slash ∷ join slash (elements s)
unfolding rooted_clean
rooted_clean_lem s = clean-rooted (trim_prefix s root)

-- The elements, each behind a slash.
abbrev rooted : List Bytes → Bytes
rooted [] = []
rooted (p ∷ ps) = slash ∷ (p ++ rooted ps)

rooted-join : (p : Bytes) (ps : List Bytes) → slash ∷ join slash (p ∷ ps) ≡ rooted (p ∷ ps)
unfolding join
rooted-join p [] = ap (λ s. slash ∷ s) (sym (append-nil p))
rooted-join p (q ∷ ps) = ap (λ s. slash ∷ (p ++ s)) (rooted-join q ps)

-- Two texts of rooted elements behind two elements agree where both parts do.
beq-element :
    (p q : Bytes) (ps qs : List Bytes)
    → no_sep slash p ≡ true
    → no_sep slash q ≡ true
    → beq (p ++ rooted ps) (q ++ rooted qs) ≡ (beq p q && beq (rooted ps) (rooted qs))
unfolding beq
beq-element [] [] ps qs hp hq = refl
beq-element [] (y ∷ q) [] qs hp hq = refl
beq-element [] (y ∷ q) (p ∷ ps) qs hp hq = ground arith
beq-element (x ∷ p) [] ps [] hp hq = refl
beq-element (x ∷ p) [] ps (q ∷ qs) hp hq = ground arith
beq-element (x ∷ p) (y ∷ q) ps qs hp hq =
    ground (arith, beq-element p q ps qs (ground arith) (ground arith))

prefix-element :
    (p q : Bytes) (ps qs : List Bytes)
    → no_sep slash p ≡ true
    → no_sep slash q ≡ true
    → has_prefix (p ++ rooted ps) (q ++ (rooted qs ++ root))
      ≡ (beq p q && has_prefix (rooted ps) (rooted qs ++ root))
unfolding beq has_prefix
prefix-element [] [] ps qs hp hq = refl
prefix-element [] (y ∷ q) [] qs hp hq = refl
prefix-element [] (y ∷ q) (p ∷ ps) qs hp hq = ground arith
prefix-element (x ∷ p) [] ps [] hp hq = ground arith
prefix-element (x ∷ p) [] ps (q ∷ qs) hp hq = ground arith
prefix-element (x ∷ p) (y ∷ q) ps qs hp hq =
    ground (arith, prefix-element p q ps qs (ground arith) (ground arith))

below-rooted :
    (ps qs : List Bytes)
    → all (no_sep slash) ps ≡ true
    → all (no_sep slash) qs ≡ true
    → (beq (rooted ps) (rooted qs) || has_prefix (rooted ps) (rooted qs ++ root))
      ≡ starts_with ps qs
unfolding beq has_prefix
below-rooted [] [] hp hq = refl
below-rooted (p ∷ ps) [] hp hq = refl
below-rooted [] (q ∷ qs) hp hq = refl
below-rooted (p ∷ ps) (q ∷ qs) hp hq =
    let e = beq-element p q ps qs (ground arith) (ground arith) in
    let f = prefix-element p q ps qs (ground arith) (ground arith) in
    let rest = below-rooted ps qs (ground arith) (ground arith) in
    rw (e, append_assoc q (rooted qs) root, f) (ground (arith, rest))

no_seps : (ps : List Bytes) → all is_proper ps ≡ true → all (no_sep slash) ps ≡ true
no_seps [] h = refl
no_seps (p ∷ ps) h = ground (arith, no_seps ps)

-- The comparison of two cleaned paths, the second of which is not the root.
below-clean :
    (ps : List Bytes) (q : Bytes) (qs : List Bytes)
    → all is_proper ps ≡ true
    → all is_proper (q ∷ qs) ≡ true
    → (beq (slash ∷ join slash ps) (slash ∷ join slash (q ∷ qs))
        || has_prefix (slash ∷ join slash ps) ((slash ∷ join slash (q ∷ qs)) ++ root))
      ≡ starts_with ps (q ∷ qs)
below-clean [] [] qs hp hq = unfold is_name in ground arith
below-clean [] (y ∷ q) [] hp hq = unfold join beq has_prefix in refl
below-clean [] (y ∷ q) (r ∷ qs) hp hq = unfold join beq has_prefix in refl
below-clean (p ∷ ps) q qs hp hq =
    subst
      (λ s.
        (beq s (slash ∷ join slash (q ∷ qs))
          || has_prefix s ((slash ∷ join slash (q ∷ qs)) ++ root))
        ≡ starts_with (p ∷ ps) (q ∷ qs))
      (sym (rooted-join p ps))
      (subst
        (λ t.
          (beq (rooted (p ∷ ps)) t || has_prefix (rooted (p ∷ ps)) (t ++ root))
          ≡ starts_with (p ∷ ps) (q ∷ qs))
        (sym (rooted-join q qs))
        (below-rooted (p ∷ ps) (q ∷ qs) (no_seps (p ∷ ps) hp) (no_seps (q ∷ qs) hq)))

-- What pathAllowed makes of its two arguments.
elements-requested : (s : Bytes) → elements (if is_empty s then root else s) ≡ elements s
unfolding trim_prefix has_prefix
elements-requested [] = refl
elements-requested (x ∷ s) = refl

trim-none : (s : Bytes) → has_prefix s root ≡ false → trim_prefix s root ≡ s
unfolding trim_prefix
trim-none s e = rw e refl

elements-allowed : (s : Bytes) → elements (if has_prefix s root then s else slash ∷ s) ≡ elements s
unfolding trim_prefix has_prefix
elements-allowed [] = refl
elements-allowed (x ∷ s) =
    if_cases (λ t. elements t ≡ elements (x ∷ s)) (has_prefix (x ∷ s) root) (x ∷ s) (slash ∷ x ∷ s)
      (λ _. refl) (λ e. sym (ap parts_of (trim-none (x ∷ s) e)))

join-ne_root :
    (y : ℕ) (q : Bytes) (qs : List Bytes) → beq (slash ∷ join slash ((y ∷ q) ∷ qs)) root ≡ false
unfolding join beq
join-ne_root y q [] = refl
join-ne_root y q (r ∷ qs) = refl

abbrev compared : Bytes → Bytes → Bool
compared clean_req clean_allowed =
    if beq clean_allowed root
    then true
    else beq clean_req clean_allowed || has_prefix clean_req (clean_allowed ++ root)

compared-join :
    (ps qs : List Bytes)
    → all is_proper ps ≡ true
    → all is_proper qs ≡ true
    → compared (slash ∷ join slash ps) (slash ∷ join slash qs) ≡ starts_with ps qs
compared-join ps [] hp hq = unfold join beq in refl
compared-join ps ([] ∷ qs) hp hq = unfold is_name in ground arith
compared-join ps ((y ∷ q) ∷ qs) hp hq =
    if_cases (λ b. b ≡ starts_with ps ((y ∷ q) ∷ qs)) (beq (slash ∷ join slash ((y ∷ q) ∷ qs)) root)
      true
      (beq (slash ∷ join slash ps) (slash ∷ join slash ((y ∷ q) ∷ qs))
        || has_prefix (slash ∷ join slash ps) ((slash ∷ join slash ((y ∷ q) ∷ qs)) ++ root))
      (λ e. absurd (false≢true (sym (join-ne_root y q qs) ∙ e)))
      (λ _. below-clean ps (y ∷ q) qs hp hq)

-- A rule's path allows exactly the paths that, cleaned in their escaped form, begin with the
-- elements of the rule's path, cleaned too.
pub path_allowed-elements :
    (escaped allowed : Bytes)
    → path_allowed escaped allowed ≡ starts_with (elements escaped) (elements allowed)
unfolding path_allowed
path_allowed-elements escaped allowed =
    let req = if is_empty escaped then root else escaped in
    let whole = if has_prefix allowed root then allowed else slash ∷ allowed in
    ap₂ compared
      (rooted_clean_lem req ∙ ap (λ ps. slash ∷ join slash ps) (elements-requested escaped))
      (rooted_clean_lem whole ∙ ap (λ ps. slash ∷ join slash ps) (elements-allowed allowed))
    ∙ compared-join (elements escaped) (elements allowed)
        (clean_parts-keeps (trim_prefix escaped root))
        (clean_parts-keeps (trim_prefix allowed root))
