-- ===== src/Memory/Handles.antt =====
-- Reading an open file of pkg/fs/memory.go to its end, as io.ReadAll does, and a directory handle
-- in batches.
use gash.Prelude.{
  ℕ, zero, suc, ◌+◌, ◌-◌, ◌≤◌, ◌<◌, false, List, [], ◌∷◌, ◌++◌, Option, none, some, Bytes, ◌≡◌,
  refl, ap, ◌∙◌, sym, arith, length, take, drop, leb, length-take, length-drop, Bool-cases, inl,
  inr, on_option,
}
use gash.Memory.Node.{eof, Result, ok, fail, is_directory}
use gash.Memory.Read.{MemFile, file_read}

-- One round of the loop: the bytes read, then what `next` reads.
abbrev after_read : Result Bytes × MemFile → (MemFile → Option Bytes) → Option Bytes
after_read (ok chunk, f) next = on_option (next f) none (λ bytes. some (chunk ++ bytes))
after_read (fail eof, f) next = some []
after_read (fail e, f) next = none

-- The rest of a file, by reads into a buffer of `size` bytes until EOF. None is an error, or fuel
-- that ran out.
unfoldable pub read_rest : ℕ → ℕ → MemFile → Option Bytes
read_rest zero size f = none
read_rest (suc fuel) size f = after_read (file_read size f) (read_rest fuel size)

drop-nil {ℓ} : {A : Type ℓ} (n : ℕ) → drop {A = A} n [] ≡ []
drop-nil zero = refl
drop-nil (suc n) = refl

drop-drop {ℓ} : {A : Type ℓ} (a b : ℕ) (xs : List A) → drop b (drop a xs) ≡ drop (a + b) xs
drop-drop zero b xs = ap (λ n. drop n xs) (omega arith)
drop-drop (suc a) b [] = drop-nil b ∙ sym (drop-nil (suc a + b))
drop-drop (suc a) b (x ∷ xs) =
    let step : suc (a + b) ≡ suc a + b = omega arith in
    drop-drop a b xs ∙ ap (λ n. drop n (x ∷ xs)) step

take-drop {ℓ} : {A : Type ℓ} (n : ℕ) (xs : List A) → take n xs ++ drop (length (take n xs)) xs ≡ xs
take-drop zero xs = refl
take-drop (suc n) [] = refl
take-drop (suc n) (x ∷ xs) = ap (λ l. x ∷ l) (take-drop n xs)

drop-all {ℓ} : {A : Type ℓ} (n : ℕ) (xs : List A) → length xs ≤ n → drop n xs ≡ []
drop-all zero [] h = refl
drop-all (suc n) [] h = refl
drop-all zero (x ∷ xs) h = absurd (omega arith)
drop-all (suc n) (x ∷ xs) h = drop-all n xs (omega arith)

-- Reads of a file into a non-empty buffer end at EOF and yield exactly the bytes from the offset
-- on, with more fuel than there are bytes left.
pub read_rest-content :
    (fuel size : ℕ) (f : MemFile)
    → 0 < size
    → is_directory f.node.kind ≡ false
    → length f.node.content - f.offset < fuel
    → read_rest fuel size f ≡ some (drop f.offset f.node.content)
unfolding read_rest
read_rest-content zero size f s k h = absurd (omega arith)
read_rest-content (suc fuel) size f s k h =
    elim (Bool-cases (leb (length f.node.content) f.offset)) [
      | inl e ↦
          let at_end : file_read size f ≡ (fail eof, f) = unfold file_read in rw (k, e) in
          rw at_end (ap some (sym (drop-all f.offset f.node.content (ground arith))))
      | inr e ↦
          let chunk = take size (drop f.offset f.node.content) in
          let f' : MemFile = record f { offset = f.offset + length chunk } in
          let more : file_read size f ≡ (ok chunk, f') = unfold file_read in rw (k, e) in
          let left : length f.node.content - f'.offset < fuel = ground (
            arith,
            e,
            length-take size (drop f.offset f.node.content),
            length-drop f.offset f.node.content,
          ) in
          rw (more, read_rest-content fuel size f' s k left)
            (ap some (
              ap (λ l. chunk ++ l) (sym (drop-drop f.offset (length chunk) f.node.content))
              ∙ take-drop size (drop f.offset f.node.content)))
    ]
