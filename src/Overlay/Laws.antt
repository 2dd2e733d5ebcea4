-- ===== src/Overlay/Laws.antt =====
-- What the listing, the links and the writes of pkg/fs/overlay.go come to.
use gash.Prelude.{
  Bool, true, false, false≢true, not, ◌&&◌, List, [], ◌∷◌, ◌++◌, none, some, Bytes, beq, beq_iff,
  all, All, has_prefix, trim_prefix, trim_prefix-append, has_prefix-append, if◌then◌else◌, if_cases,
  drop, length, has_prefix→append, ◌≡◌, refl, sym, ap, subst, ◌∙◌, inr, arith,
}
use gash.Prelude.Base64.{IsByte, encode, decode-encode}
use gash.Assoc.{Assoc, lookup, put, delete, lookup-put, lookup-delete}
use gash.Path.Lexical.{root}
use gash.Mount.{Info}
use gash.Overlay.Names.{whiteout_prefix, is_whiteout_name}
use gash.Overlay.Listing.{merge_upper}
use gash.Overlay.CopyUp.{global_prefix, stored_target, decoded_target}

-- An entry of a layer that neither has a name nor marks it.
abbrev pub is_apart : Bytes → Info → Bool
is_apart n e = not (beq e.name n) && not (beq e.name (whiteout_prefix ++ n))

marks_lem : (n : Bytes) → is_whiteout_name (whiteout_prefix ++ n) ≡ true
unfolding is_whiteout_name
marks_lem n = has_prefix-append whiteout_prefix n

-- One round of the loop.
abbrev entered : Info → Assoc Info → Assoc Info
entered e m =
    if is_whiteout_name e.name
    then delete (trim_prefix e.name whiteout_prefix) m
    else put e.name e m

-- What a marker deletes.
marked-trim :
    (name n : Bytes)
    → is_whiteout_name name ≡ true
    → beq (trim_prefix name whiteout_prefix) n ≡ beq name (whiteout_prefix ++ n)
unfolding is_whiteout_name beq
marked-trim name n h =
    let rest = drop (length whiteout_prefix) name in
    subst (λ s. beq (trim_prefix s whiteout_prefix) n ≡ beq s (whiteout_prefix ++ n))
      (sym (has_prefix→append name whiteout_prefix h))
      (rw (trim_prefix-append whiteout_prefix rest) refl)

entered-apart :
    (n : Bytes) (e : Info) (m : Assoc Info)
    → is_apart n e ≡ true
    → lookup n (entered e m) ≡ lookup n m
entered-apart n e m h =
    if_cases (λ r. lookup n r ≡ lookup n m) (is_whiteout_name e.name)
      (delete (trim_prefix e.name whiteout_prefix) m) (put e.name e m)
      (λ w.
        lookup-delete (trim_prefix e.name whiteout_prefix) n m
        ∙ rw (marked-trim e.name n w) (ground (arith, h)))
      (λ _. lookup-put e.name n e m ∙ ground (arith, h))

entered-same :
    (n : Bytes) (e : Info) (m : Assoc Info)
    → is_whiteout_name n ≡ false
    → e.name ≡ n
    → lookup n (entered e m) ≡ some e
entered-same n e m plain same =
    if_cases (λ r. lookup n r ≡ some e) (is_whiteout_name e.name)
      (delete (trim_prefix e.name whiteout_prefix) m) (put e.name e m)
      (λ w. absurd (false≢true (sym plain ∙ ap is_whiteout_name (sym same) ∙ w)))
      (λ _.
        lookup-put e.name n e m
        ∙ ap (λ b. if b then some e else lookup n m) ((beq_iff e.name n).1 same))

entered-marker :
    (n : Bytes) (e : Info) (m : Assoc Info)
    → e.name ≡ whiteout_prefix ++ n
    → lookup n (entered e m) ≡ none
entered-marker n e m marks =
    if_cases (λ r. lookup n r ≡ none) (is_whiteout_name e.name)
      (delete (trim_prefix e.name whiteout_prefix) m) (put e.name e m)
      (λ w.
        lookup-delete (trim_prefix e.name whiteout_prefix) n m
        ∙ ap (λ b. if b then none else lookup n m)
            (marked-trim e.name n w ∙ (beq_iff e.name (whiteout_prefix ++ n)).1 marks))
      (λ w. absurd (false≢true (sym w ∙ ap is_whiteout_name marks ∙ marks_lem n)))

merge_upper-apart :
    (n : Bytes) (es : List Info) (m : Assoc Info)
    → all (is_apart n) es ≡ true
    → lookup n (merge_upper es m) ≡ lookup n m
unfolding merge_upper
merge_upper-apart n [] m h = refl
merge_upper-apart n (e ∷ es) m h =
    merge_upper-apart n es (entered e m) (ground arith) ∙ entered-apart n e m (ground arith)

-- Of a name that is no marker's, the last of the upper entries that has the name or marks it
-- decides, whatever stood before and whatever the lower layer has: an entry of the name is listed
-- and a marker of it hides it.
pub merge_upper-last :
    (n : Bytes) (before after : List Info) (e : Info) (m : Assoc Info)
    → is_whiteout_name n ≡ false
    → all (is_apart n) after ≡ true
    → ((e.name ≡ n) → lookup n (merge_upper (before ++ e ∷ after) m) ≡ some e)
      × ((e.name ≡ whiteout_prefix ++ n) → lookup n (merge_upper (before ++ e ∷ after) m) ≡ none)
unfolding merge_upper
merge_upper-last n [] after e m plain h = (
  λ same. merge_upper-apart n after (entered e m) h ∙ entered-same n e m plain same,
  λ marks. merge_upper-apart n after (entered e m) h ∙ entered-marker n e m marks,
)
merge_upper-last n (x ∷ before) after e m plain h =
    merge_upper-last n before after e
      (if is_whiteout_name x.name
        then delete (trim_prefix x.name whiteout_prefix) m
        else put x.name x m)
      plain h

-- A global target, of bytes and beginning with a slash, that a layer stores as text is read back as
-- it was, and as global.
pub stored_target-decoded_target :
    {E : Type 0} (target : Bytes)
    → All IsByte target
    → has_prefix target root ≡ true
    → (has_prefix (stored_target target) global_prefix ≡ true)
      × (decoded_target {E = E} (stored_target target) ≡ inr (target, true))
unfolding stored_target decoded_target
stored_target-decoded_target target bytes h =
    let e = trim_prefix-append global_prefix (encode target) in
    (has_prefix-append global_prefix (encode target), rw (e, decode-encode target bytes, h) refl)
