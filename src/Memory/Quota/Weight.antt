-- ===== src/Memory/Quota/Weight.antt =====
-- The bytes that the nodes of a heap hold, and how often a pointer stands in the name table.
use gash.Prelude.{
  ℕ, zero, suc, ◌+◌, ◌≤◌, List, [], ◌∷◌, ◌++◌, none, some, Bytes, length, get_elem?, set, ◌==◌,
  if◌then◌else◌, ◌≡◌, ◌≢◌, refl, arith,
}
use gash.Assoc.{Assoc, lookup, put, delete}
use gash.Memory.Node.{Node}

-- What a node counts for: its data, as long as it has a link.
abbrev pub weight : Node → ℕ
weight n = if n.links == 0 then 0 else length n.content

unfoldable pub stored : List Node → ℕ
stored [] = 0
stored (n ∷ h) = weight n + stored h

-- The names that lead to a pointer.
unfoldable pub refs : ℕ → Assoc ℕ → ℕ
refs id [] = 0
refs id ((p, j) ∷ m) = (if j == id then 1 else 0) + refs id m

-- The link count of a pointer, 0 for one that was never allocated.
unfoldable pub links_at : List Node → ℕ → ℕ
links_at h id = elim (get_elem? h id) [ none ↦ 0 | some n ↦ n.links ]

pub stored-append : (h k : List Node) → stored (h ++ k) ≡ stored h + stored k
unfolding stored
stored-append [] k = omega arith
stored-append (n ∷ h) k = omega (arith, stored-append h k)

pub stored-set :
    (h : List Node) (id : ℕ) (n n' : Node)
    → get_elem? h id ≡ some n
    → stored (set h id n') + weight n ≡ stored h + weight n'
unfolding stored
stored-set [] id n n' e = cc
stored-set (x ∷ h) zero n n' e = ground arith
stored-set (x ∷ h) (suc id) n n' e = ground (arith, stored-set h id n n')

pub weight-le-stored :
    (h : List Node) (id : ℕ) (n : Node) → get_elem? h id ≡ some n → weight n ≤ stored h
unfolding stored
weight-le-stored [] id n e = cc
weight-le-stored (x ∷ h) zero n e = ground arith
weight-le-stored (x ∷ h) (suc id) n e = omega (arith, weight-le-stored h id n e)

pub refs-put :
    (id j : ℕ) (p : Bytes) (m : Assoc ℕ)
    → refs j (put p id m) ≤ refs j m + (if id == j then 1 else 0)
unfolding refs put
refs-put id j p [] = ground arith
refs-put id j p ((q, i) ∷ m) = ground (arith, refs-put id j p m)

pub refs-delete-le : (j : ℕ) (p : Bytes) (m : Assoc ℕ) → refs j (delete p m) ≤ refs j m
unfolding refs delete
refs-delete-le j p [] = omega arith
refs-delete-le j p ((q, i) ∷ m) = ground (arith, refs-delete-le j p m)

pub refs-delete :
    (id : ℕ) (p : Bytes) (m : Assoc ℕ) → lookup p m ≡ some id → refs id (delete p m) + 1 ≤ refs id m
unfolding refs delete lookup
refs-delete id p [] e = cc
refs-delete id p ((q, i) ∷ m) e = ground (arith, refs-delete id p m, refs-delete-le id p m)

pub refs-append : (j : ℕ) (m k : Assoc ℕ) → refs j (m ++ k) ≡ refs j m + refs j k
unfolding refs
refs-append j [] k = omega arith
refs-append j ((q, i) ∷ m) k = omega (arith, refs-append j m k)

pub links_at-append :
    (h : List Node) (n : Node) (j : ℕ) → j ≢ length h → links_at (h ++ n ∷ []) j ≡ links_at h j
unfolding links_at
links_at-append [] n zero ne = absurd (ne refl)
links_at-append [] n (suc j) ne = refl
links_at-append (x ∷ h) n zero ne = refl
links_at-append (x ∷ h) n (suc j) ne = links_at-append h n j (omega arith)

pub links_at-append_self : (h : List Node) (n : Node) → links_at (h ++ n ∷ []) (length h) ≡ n.links
unfolding links_at
links_at-append_self [] n = refl
links_at-append_self (x ∷ h) n = links_at-append_self h n

pub links_at-set :
    (h : List Node) (id : ℕ) (n n' : Node) (j : ℕ)
    → get_elem? h id ≡ some n
    → links_at (set h id n') j ≡ (if id == j then n'.links else links_at h j)
unfolding links_at
links_at-set [] id n n' j e = cc
links_at-set (x ∷ h) zero n n' zero e = ground arith
links_at-set (x ∷ h) zero n n' (suc j) e = ground arith
links_at-set (x ∷ h) (suc id) n n' zero e = ground arith
links_at-set (x ∷ h) (suc id) n n' (suc j) e = ground (arith, links_at-set h id n n' j)

pub links_at-beyond : (h : List Node) (j : ℕ) → length h ≤ j → links_at h j ≡ 0
unfolding links_at
links_at-beyond [] j l = refl
links_at-beyond (x ∷ h) zero l = absurd (omega arith)
links_at-beyond (x ∷ h) (suc j) l = links_at-beyond h j (omega arith)
