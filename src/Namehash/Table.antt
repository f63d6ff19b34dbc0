-- ===== src/Namehash/Table.antt =====
-- The hash table of lib/naming/namehash.c. A chain stands for the entries that its pointers lead to;
-- a value is a `void *`. Entries are not released here: no freed one is reached again.
pub mod Chain
pub mod Refines
pub mod Calls
use mungi.Common.{ℕ, Bool, true, false, ◌&&◌, Option, none, some, List, [], ◌∷◌, if◌then◌else◌}
use mungi.Common.Arrays.{Array, update}
use mungi.Common.Checked.{Checked, done, panic, ◌>>=◌}
use mungi.Common.Strings.{same}
use mungi.Namehash.Path.{Name, nh_absolute}

-- `hashent_t`.
pub record Hashent : Type 0 where
  pub name : Name
  pub child : ℕ

abbrev pub Chain : Type 0
Chain = List Hashent

-- `namehash_t`, without the object that its memory comes from.
pub record Namehash : Type 0 where
  pub size : ℕ
  pub table : Array Chain

abbrev pub nh_ok : ℕ
nh_ok = 0

abbrev pub nh_fail : ℕ
nh_fail = 1

abbrev pub nh_mem : ℕ
nh_mem = 2

-- The loop computes a hash value, which is not used: the function returns before its last line.
unfoldable pub nh_hash : Name → ℕ → ℕ
nh_hash s size = 0

-- Which allocations of a call succeed: `first` and `rest` those of `nh_absolute`, `heap` those of
-- `nh_alloc`.
pub record Memory : Type 0 where
  pub first : Bool
  pub rest : Bool
  pub heap : Bool

-- `nh_insert` on the chain: the code it returns, and the chain afterwards.
unfoldable pub insert_in : Bool → Name → ℕ → Chain → ℕ × Chain
insert_in heap absolute value [] =
    if heap then (nh_ok, record { name = absolute; child = value } ∷ []) else (nh_mem, [])
insert_in heap absolute value (ent ∷ chain) =
    let (code, rest) = insert_in heap absolute value chain in
    if same ent.name absolute then (nh_fail, ent ∷ chain) else (code, ent ∷ rest)

unfoldable pub delete_in : Name → Chain → ℕ × Chain
delete_in absolute [] = (nh_fail, [])
delete_in absolute (ent ∷ chain) =
    let (code, rest) = delete_in absolute chain in
    if same ent.name absolute then (nh_ok, chain) else (code, ent ∷ rest)

-- The child of the entry, `none` for a search that ends at `NULL`.
unfoldable pub find_in : Name → Chain → Option ℕ
find_in absolute [] = none
find_in absolute (ent ∷ chain) =
    let rest = find_in absolute chain in if same ent.name absolute then some ent.child else rest

unfoldable pub modify_in : Name → ℕ → Chain → ℕ × Chain
modify_in absolute value [] = (nh_fail, [])
modify_in absolute value (ent ∷ chain) =
    let (code, rest) = modify_in absolute value chain in
    if same ent.name absolute
    then (nh_ok, record ent { child = value } ∷ chain)
    else (code, ent ∷ rest)

-- The chain of a name, and the table with another one in its place.
unfoldable pub chain_of : Namehash → Name → Chain
chain_of nhash absolute = nhash.table (nh_hash absolute nhash.size)

unfoldable pub with_chain : Namehash → Name → ℕ × Chain → ℕ × Namehash
with_chain nhash absolute (code, chain) =
    (code, record nhash { table = update nhash.table (nh_hash absolute nhash.size) chain })

-- The start of each operation: the code `NH_MEM` if there is no memory for the absolute name.
unfoldable pub with_absolute :
    {A : Type 0} → Checked (Option Name) → (Name → ℕ × A) → A → Checked (ℕ × A)
with_absolute result operation same_state = result >>= λ o. elim o [
  | none ↦ done (nh_mem, same_state)
  | some absolute ↦ done (operation absolute)
]

unfoldable pub nh_insert : Memory → Namehash → Name → ℕ → Name → Checked (ℕ × Namehash)
nh_insert m nhash name value cwd =
    with_absolute (nh_absolute m.first m.rest name cwd)
      (λ absolute.
        with_chain nhash absolute (insert_in m.heap absolute value (chain_of nhash absolute)))
      nhash

unfoldable pub nh_delete : Memory → Namehash → Name → Name → Checked (ℕ × Namehash)
nh_delete m nhash name cwd =
    with_absolute (nh_absolute m.first m.rest name cwd)
      (λ absolute. with_chain nhash absolute (delete_in absolute (chain_of nhash absolute))) nhash

-- What a search returns, and what it writes to `*value`.
unfoldable pub found : Option ℕ → ℕ × Option ℕ
found none = (nh_fail, none)
found (some child) = (nh_ok, some child)

unfoldable pub nh_find : Memory → Namehash → Name → Name → Checked (ℕ × Option ℕ)
nh_find m nhash name cwd =
    with_absolute (nh_absolute m.first m.rest name cwd)
      (λ absolute. found (find_in absolute (chain_of nhash absolute))) none

unfoldable pub nh_modify : Memory → Namehash → Name → ℕ → Name → Checked (ℕ × Namehash)
nh_modify m nhash name value cwd =
    with_absolute (nh_absolute m.first m.rest name cwd)
      (λ absolute. with_chain nhash absolute (modify_in absolute value (chain_of nhash absolute)))
      nhash

-- `nh_init`, which asserts that the object is there: whether it is, and whether the object has memory
-- for the structure and for its table.
unfoldable pub nh_init : Bool → Bool → Bool → ℕ → Checked (Option Namehash)
nh_init object structure table entries =
    if object
    then if structure && table
      then done (some (record { size = entries; table = λ i. [] }))
      else done none
    else panic
