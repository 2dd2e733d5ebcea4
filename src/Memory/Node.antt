-- ===== src/Memory/Node.antt =====
-- The data of pkg/fs/memory.go. `nodes` maps a name to a pointer; a pointer is an index into
-- `heap`, so that hard links share a node. A node that no name points to stays in the heap.
use Prim.Native.Nat.{bit_and, bit_or}
use gash.Prelude.{
  ℕ, ◌+◌, ◌-◌, ◌^◌, ◌<◌, Bool, true, false, ◌&&◌, List, [], ◌∷◌, ◌++◌, Option, none, some, Bytes,
  ltb, ◌==◌, if◌then◌else◌, length, get_elem?, set, ◌≡◌, refl,
}
use gash.Assoc.{Assoc, lookup, put}
use gash.Path.Lexical.{dot}

-- The errors that an operation returns. `panic` is a nil pointer that the code dereferences.
pub data Err : Type 0 where
  invalid not_exist exist not_dir is_dir not_empty quota loop : Err
  remove_root into_itself not_symlink not_regular eof panic : Err

pub data Result {ℓ} (A : Type ℓ) : Type ℓ where
  ok : A → Result A
  fail : Err → Result A

infixl 5 ◌>>=◌
abbrev pub ◌>>=◌ {ℓ κ} : {A : Type ℓ} {B : Type κ} → Result A → (A → Result B) → Result B
ok a >>= f = f a
fail e >>= f = fail e

pub data Kind : Type 0 where
  regular directory symlink : Kind

abbrev pub is_regular : Kind → Bool
is_regular regular = true
is_regular _ = false

abbrev pub is_directory : Kind → Bool
is_directory directory = true
is_directory _ = false

abbrev pub is_symlink : Kind → Bool
is_symlink symlink = true
is_symlink _ = false

pub record Node : Type 0 where
  pub kind : Kind
  pub content : Bytes
  pub target : Bytes
  pub mode : ℕ
  pub mtime : ℕ
  pub links : ℕ

-- A limit of 0 stands for none; so does a negative one in Go.
pub record Memory : Type 0 where
  pub nodes : Assoc ℕ
  pub heap : List Node
  pub used : ℕ
  pub limit : ℕ

abbrev pub mode_dir : ℕ
mode_dir = 2 ^ 31

abbrev pub mode_symlink : ℕ
mode_symlink = 2 ^ 27

-- FileMode.Perm, and FileMode.Type with the bits of ModeType
abbrev pub perm_bits : ℕ → ℕ
perm_bits mode = bit_and mode 0o777

abbrev pub type_bits : ℕ → ℕ
type_bits mode = bit_and mode (2 ^ 31 + 2 ^ 27 + 2 ^ 26 + 2 ^ 25 + 2 ^ 24 + 2 ^ 21 + 2 ^ 19)

-- NewMemory(limit)
unfoldable pub new_memory : ℕ → ℕ → Memory
new_memory limit now = record {
  nodes = (dot, 0) ∷ [];
  heap =
      record {
        kind = directory;
        content = [];
        target = [];
        mode = bit_or mode_dir 0o755;
        mtime = now;
        links = 1;
      }
      ∷ [];
  used = 0;
  limit = limit;
}

-- m.nodes[name] with the node behind the pointer
unfoldable pub find : Memory → Bytes → Option (ℕ × Node)
find m name = elim (lookup name m.nodes) [
  | none ↦ none
  | some id ↦ elim (get_elem? m.heap id) [ none ↦ none | some n ↦ some (id, n) ]
]

-- m.nodes[name] = &node{…}
unfoldable pub alloc : Memory → Bytes → Node → Memory
alloc m name n = record m { nodes = put name (length m.heap) m.nodes; heap = m.heap ++ n ∷ [] }

-- m.limit > 0 && m.used - old + size > m.limit
unfoldable pub over_quota : Memory → ℕ → ℕ → Bool
over_quota m old size = ltb 0 m.limit && ltb (m.limit + old) (m.used + size)

-- One name fewer for a node; the last one gives its bytes back.
unfoldable pub release : Memory → ℕ → Node → Memory
release m id n =
    let links = n.links - 1 in
    record m {
      heap = set m.heap id (record n { links = links });
      used = if links == 0 then m.used - length n.content else m.used;
    }

new_memory_example :
    find (new_memory 10 0) (dot)
    ≡ some (
      0,
      record {
        kind = directory;
        content = [];
        target = [];
        mode = mode_dir + 0o755;
        mtime = 0;
        links = 1;
      },
    )
unfolding find new_memory lookup gash.Prelude.beq
new_memory_example = refl
