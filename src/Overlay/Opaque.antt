-- ===== src/Overlay/Opaque.antt =====
-- What a marker of a directory hides in pkg/fs/overlay.go: all that the lower layer has below it.
use gash.Prelude.{
  Bool, true, false, List, [], ◌∷◌, ◌++◌, Bytes, any, all, ◌≡◌, refl, ap, ◌∙◌, arith,
}
use gash.Path.Lexical.{is_name}
use gash.Path.Clean.{is_proper, name_of, split-name_of, all-append, name_of-proper_head}
use gash.Path.Extend.{name_of-ne-dot}
use gash.Overlay.{Overlay}
use gash.Overlay.Names.{extended, prefixes}
use gash.Overlay.View.{has_whiteout, whited_out, visible_in_lower}
use gash.Overlay.Hidden.{whole, whole-join}

any-prefixes-above :
    (f : Bytes → Bool) (current part : Bytes) (parts below : List Bytes)
    → f (whole current (part ∷ parts)) ≡ true
    → any f (prefixes current ((part ∷ parts) ++ below)) ≡ true
unfolding prefixes
any-prefixes-above f current part [] below h = ground arith
any-prefixes-above f current part (q ∷ parts) below h =
    ground (arith, any-prefixes-above f (extended current part) q parts below h)

whole-name_of :
    (p : Bytes) (ps : List Bytes)
    → all is_proper (p ∷ ps) ≡ true
    → whole [] (p ∷ ps) ≡ name_of (p ∷ ps)
unfolding is_name
whole-name_of [] ps h = ground arith
whole-name_of (x ∷ p) ps h = whole-join x p ps

module _ {U L E : Type 0} (o : Overlay U L E) where
  -- While the upper layer has a marker of a name, the lower layer shows neither that name nor any
  -- name below it.
  pub has_whiteout-visible_in_lower :
      (p : Bytes) (ps below : List Bytes) (u : U)
      → all is_proper ((p ∷ ps) ++ below) ≡ true
      → has_whiteout o (name_of (p ∷ ps)) u ≡ true
      → visible_in_lower o (name_of ((p ∷ ps) ++ below)) u ≡ false
  unfolding visible_in_lower whited_out
  has_whiteout-visible_in_lower p ps below u proper marked =
      let above = all-append is_proper (p ∷ ps) below in
      let hidden : any (λ m. has_whiteout o m u) (prefixes [] ((p ∷ ps) ++ below)) ≡ true =
        any-prefixes-above (λ m. has_whiteout o m u) [] p ps below
          (ap (λ m. has_whiteout o m u) (whole-name_of p ps (ground (arith, proper, above)))
            ∙ marked) in
      rw (name_of-ne-dot p (ps ++ below) proper, (name_of-proper_head p (ps ++ below) proper).1)
        (rw (split-name_of p (ps ++ below) proper) (rw hidden refl))
