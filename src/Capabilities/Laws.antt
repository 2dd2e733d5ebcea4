-- ===== src/Capabilities/Laws.antt =====
-- The calls of pkg/fs/capabilities.go: the null device, and the names they pass on.
use gash.Prelude.{
  ℕ, [], Option, none, some, Bytes, beq, beq_refl, ◌⊎◌, inl, inr, ◌≡◌, refl, ap, if◌then◌else◌,
  on_option,
}
use mathlib.Core.Option
use gash.Path.{fs_name, is_valid}
use gash.Path.Lexical.{dot}
use gash.Path.Laws.{fs_name-is_valid}
use gash.Mount.{FileSystem}
use gash.Capabilities.{
  AccessError, exist, read_only, unsupported, dev_null, null_info, answer, status_of, changed,
  read_file, read_dir, stat, lstat, readlink, virtual_readlink, create_file, write_file,
  append_file, mkdir, mkdir_all, remove, remove_all, rename, symlink, chmod, link, chtimes,
}

-- A capability that is there or not, and the call of it either way.
on_mapped_default :
    {F B : Type 0} (o : Option F) (g : F → F) (d d' : B) (call : F → B)
    → d ≡ d'
    → ((f : F) → call (g f) ≡ call f)
    → on_option (Option.map g o) d call ≡ on_option o d' call
on_mapped_default none g d d' call k h = k
on_mapped_default (some f) g d d' call k h = h f

on_mapped :
    {F B : Type 0} (o : Option F) (g : F → F) (d : B) (call : F → B)
    → ((f : F) → call (g f) ≡ call f)
    → on_option (Option.map g o) d call ≡ on_option o d call
on_mapped o g d call h = on_mapped_default o g d d call refl h

module _ {S E : Type 0} where
  -- Under every spelling of /dev/null a read yields nothing, what is written or appended is
  -- discarded, a new file is refused, and its status is the null device's: no filesystem is
  -- called, and its state stays as it is.
  pub null_device :
      (fs : FileSystem S E) (name content : Bytes) (perm : ℕ) (s : S)
      → fs_name name ≡ dev_null
      → (read_file fs name s ≡ inr [])
        × (write_file fs name content perm s ≡ (none, s))
        × (append_file fs name content perm s ≡ (none, s))
        × (create_file fs name content perm s ≡ (some exist, s))
        × (stat fs name s ≡ inr null_info)
        × (lstat fs name s ≡ inr null_info)
  unfolding read_file write_file append_file create_file stat lstat
  null_device fs name content perm s h =
      rw (h, beq_refl dev_null) (refl, refl, refl, refl, refl, refl)

  -- A read or a change under a name that is valid, and the error `e` under any other.
  abbrev read_if_valid {ℓ} : {A : Type ℓ} → E → (Bytes → S → E ⊎ A) → Bytes → S → E ⊎ A
  read_if_valid e f name s = if is_valid name then f name s else inl e

  abbrev change_if_valid : E → Bytes → (S → Option E × S) → S → Option E × S
  change_if_valid e name f s = if is_valid name then f s else (some e, s)

  -- The filesystem that refuses every name that is not valid.
  abbrev pub guarded : E → FileSystem S E → FileSystem S E
  guarded e fs = record fs {
    read_file = read_if_valid e fs.read_file;
    stat = read_if_valid e fs.stat;
    read_dir = read_if_valid e fs.read_dir;
    lstat = Option.map (read_if_valid e) fs.lstat;
    create_file = Option.map (λ f n c p. change_if_valid e n (f n c p)) fs.create_file;
    write_file = Option.map (λ f n c p. change_if_valid e n (f n c p)) fs.write_file;
    append_file = Option.map (λ f n c p. change_if_valid e n (f n c p)) fs.append_file;
    mkdir = Option.map (λ f n p. change_if_valid e n (f n p)) fs.mkdir;
    mkdir_all = Option.map (λ f n p. change_if_valid e n (f n p)) fs.mkdir_all;
    remove = Option.map (λ f n. change_if_valid e n (f n)) fs.remove;
    remove_all = Option.map (λ f n. change_if_valid e n (f n)) fs.remove_all;
    rename = Option.map (λ f n k. change_if_valid e n (change_if_valid e k (f n k))) fs.rename;
    link = Option.map (λ f n k. change_if_valid e n (change_if_valid e k (f n k))) fs.link;
    symlink = Option.map (λ f t n. change_if_valid e n (f t n)) fs.symlink;
    readlink = Option.map (read_if_valid e) fs.readlink;
    virtual_readlink = Option.map (read_if_valid e) fs.virtual_readlink;
    chmod = Option.map (λ f n m. change_if_valid e n (f n m)) fs.chmod;
    chtimes = Option.map (λ f n a m. change_if_valid e n (f n a m)) fs.chtimes;
  }

  -- Every call passes on valid names only: a filesystem that refuses all other names, whatever its
  -- error, answers each call under any text, and changes its state, as one that does not.
  pub calls_valid :
      (e : E) (fs : FileSystem S E) (text new_text content : Bytes) (perm mtime : ℕ) (s : S)
      → (read_file (guarded e fs) text s ≡ read_file fs text s)
        × (read_dir (guarded e fs) text s ≡ read_dir fs text s)
        × (stat (guarded e fs) text s ≡ stat fs text s)
        × (lstat (guarded e fs) text s ≡ lstat fs text s)
        × (readlink (guarded e fs) text s ≡ readlink fs text s)
        × (virtual_readlink (guarded e fs) text s ≡ virtual_readlink fs text s)
        × (create_file (guarded e fs) text content perm s ≡ create_file fs text content perm s)
        × (write_file (guarded e fs) text content perm s ≡ write_file fs text content perm s)
        × (append_file (guarded e fs) text content perm s ≡ append_file fs text content perm s)
        × (mkdir (guarded e fs) text perm s ≡ mkdir fs text perm s)
        × (mkdir_all (guarded e fs) text perm s ≡ mkdir_all fs text perm s)
        × (remove (guarded e fs) text s ≡ remove fs text s)
        × (remove_all (guarded e fs) text s ≡ remove_all fs text s)
        × (rename (guarded e fs) text new_text s ≡ rename fs text new_text s)
        × (symlink (guarded e fs) content text s ≡ symlink fs content text s)
        × (chmod (guarded e fs) text perm s ≡ chmod fs text perm s)
        × (link (guarded e fs) text new_text s ≡ link fs text new_text s)
        × (chtimes (guarded e fs) text perm mtime s ≡ chtimes fs text perm mtime s)
  unfolding read_file read_dir stat lstat readlink virtual_readlink create_file write_file
      append_file mkdir mkdir_all remove remove_all rename symlink chmod link chtimes
  calls_valid e fs text new_text content perm mtime s =
      let v = fs_name-is_valid text in
      let w = fs_name-is_valid new_text in
      (
        rw v refl,
        rw v refl,
        rw v refl,
        ap (λ r. if beq (fs_name text) dev_null then inr null_info else status_of r)
            (on_mapped_default fs.lstat (read_if_valid e)
              (if is_valid (fs_name text) then fs.stat (fs_name text) s else inl e)
              (fs.stat (fs_name text) s) (λ f. f (fs_name text) s) (rw v refl) (λ f. rw v refl)),
        on_mapped fs.readlink (read_if_valid e) (inl unsupported) (λ f. answer (f (fs_name text) s))
            (λ f. rw v refl),
        on_mapped_default fs.virtual_readlink (read_if_valid e) (readlink (guarded e fs) text s)
            (readlink fs text s) (λ f. answer (f (fs_name text) s))
            (on_mapped fs.readlink (read_if_valid e) (inl unsupported)
              (λ f. answer (f (fs_name text) s)) (λ f. rw v refl))
            (λ f. rw v refl),
        ap
            (λ (r : Option (AccessError E) × S).
              if beq (fs_name text) dev_null then (some exist, s) else r)
            (on_mapped fs.create_file (λ f n c p. change_if_valid e n (f n c p)) (some read_only, s)
              (λ f. changed (f (fs_name text) content perm s)) (λ f. rw v refl)),
        ap
            (λ (r : Option (AccessError E) × S).
              if beq (fs_name text) dev_null then (none, s) else r)
            (on_mapped fs.write_file (λ f n c p. change_if_valid e n (f n c p)) (some read_only, s)
              (λ f. changed (f (fs_name text) content perm s)) (λ f. rw v refl)),
        ap
            (λ (r : Option (AccessError E) × S).
              if beq (fs_name text) dev_null then (none, s) else r)
            (on_mapped fs.append_file (λ f n c p. change_if_valid e n (f n c p)) (some read_only, s)
              (λ f. changed (f (fs_name text) content perm s)) (λ f. rw v refl)),
        on_mapped fs.mkdir (λ f n p. change_if_valid e n (f n p)) (some read_only, s)
            (λ f. changed (f (fs_name text) perm s)) (λ f. rw v refl),
        on_mapped fs.mkdir_all (λ f n p. change_if_valid e n (f n p))
            (if beq (fs_name text) dot then (none, s) else (some read_only, s))
            (λ f. changed (f (fs_name text) perm s)) (λ f. rw v refl),
        on_mapped fs.remove (λ f n. change_if_valid e n (f n)) (some read_only, s)
            (λ f. changed (f (fs_name text) s)) (λ f. rw v refl),
        on_mapped fs.remove_all (λ f n. change_if_valid e n (f n)) (some read_only, s)
            (λ f. changed (f (fs_name text) s)) (λ f. rw v refl),
        on_mapped fs.rename (λ f n k. change_if_valid e n (change_if_valid e k (f n k)))
            (some read_only, s) (λ f. changed (f (fs_name text) (fs_name new_text) s))
            (λ f. rw (v, w) refl),
        on_mapped fs.symlink (λ f t n. change_if_valid e n (f t n)) (some read_only, s)
            (λ f. changed (f content (fs_name text) s)) (λ f. rw v refl),
        on_mapped fs.chmod (λ f n m. change_if_valid e n (f n m)) (some read_only, s)
            (λ f. changed (f (fs_name text) perm s)) (λ f. rw v refl),
        on_mapped fs.link (λ f n k. change_if_valid e n (change_if_valid e k (f n k)))
            (some read_only, s) (λ f. changed (f (fs_name text) (fs_name new_text) s))
            (λ f. rw (v, w) refl),
        on_mapped fs.chtimes (λ f n a m. change_if_valid e n (f n a m)) (some read_only, s)
            (λ f. changed (f (fs_name text) perm mtime s)) (λ f. rw v refl),
      )
