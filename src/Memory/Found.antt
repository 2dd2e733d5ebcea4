-- ===== src/Memory/Found.antt =====
-- The node that resolveLocked returns is the one that stands under the name it returns.
use gash.Prelude.{
  ℕ, zero, suc, Bool, true, false, not, Option, none, some, Bytes, ◌≡◌, refl, if◌then◌else◌,
}
use gash.Path.{is_valid}
use gash.Path.Lexical.{slash, dot, split}
use gash.Memory.Node.{Err, Node, Memory, find}
use gash.Memory.Resolve.{
  Walk, finished, restart, missing, blocked, walk, Resolved, found, absent, failed, resolve_loop,
  resolve_locked, by_lookup,
}

abbrev IsFound : Memory → Resolved → Type 0
IsFound m (found r x) = find m r ≡ x
IsFound m _ = Unit

IsFound-if :
    (m : Memory) (b : Bool) (r s : Resolved)
    → IsFound m r
    → IsFound m s
    → IsFound m (if b then r else s)
IsFound-if m true r s h k = h
IsFound-if m false r s h k = k

IsFound-step :
    (m : Memory) (w : Walk) (name : Bytes) (next : Bytes → Resolved)
    → ((name' : Bytes) → IsFound m (next name'))
    → IsFound m (elim w [
      | finished ↦ found name (find m name)
      | restart name' ↦ next name'
      | missing cur ↦ absent cur
      | blocked ↦ failed gash.Memory.Node.not_dir
    ])
IsFound-step m finished name next h = refl
IsFound-step m (restart name') name next h = h name'
IsFound-step m (missing cur) name next h = tt
IsFound-step m blocked name next h = tt

resolve_loop-IsFound :
    (rounds : ℕ) (m : Memory) (follow : Bool) (name : Bytes)
    → IsFound m (resolve_loop rounds m follow name)
unfolding resolve_loop
resolve_loop-IsFound zero m follow name = tt
resolve_loop-IsFound (suc rounds) m follow name = IsFound-if m (not (is_valid name)) _ _ tt (
    IsFound-step m (walk m follow dot (split slash name)) name (resolve_loop rounds m follow)
      (resolve_loop-IsFound rounds m follow))

-- A property of what an operation does, from its cases: at a node, the name leads to that node.
pub lookup_cases {ℓ κ} :
    {A : Type ℓ} (P : A → Type κ) (m : Memory) (name : Bytes) (follow : Bool)
    (hit : Bytes → ℕ → Node → A) (nil : Bytes → A) (gone : A) (bad : Err → A)
    → ((r : Bytes) (id : ℕ) (n : Node) → find m r ≡ some (id, n) → P (hit r id n))
    → ((r : Bytes) → P (nil r))
    → P gone
    → ((e : Err) → P (bad e))
    → P (by_lookup (resolve_locked m name follow) hit nil gone bad)
unfolding resolve_locked
lookup_cases P m name follow hit nil gone bad h k g b =
    go (resolve_loop 41 m follow name) (resolve_loop-IsFound 41 m follow name)
  where
    go : (r : Resolved) → IsFound m r → P (by_lookup r hit nil gone bad)
    go (found r (some (id, n))) e = h r id n e
    go (found r none) e = k r
    go (absent cur) e = g
    go (failed e) _ = b e

pub resolve_locked-find :
    (m : Memory) (name : Bytes) (follow : Bool) (r : Bytes) (x : Option (ℕ × Node))
    → resolve_locked m name follow ≡ found r x
    → find m r ≡ x
unfolding resolve_locked
resolve_locked-find m name follow r x h = rw h at (resolve_loop-IsFound 41 m follow name)
