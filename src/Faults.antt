-- ===== src/Faults.antt =====
-- kernel/src/vm/vm.c and kernel/src/vm/rpager.c: the table of page faults that wait for their page. Its
-- first half is a hash table, its second half takes the faults whose place is in use.
pub mod Slots
pub mod Unserved
use mungi.Common.{
  ℕ, zero, suc, ◌+◌, ◌*◌, ◌%◌, Bool, true, false, ◌||◌, Option, none, some, List, [], ◌∷◌, ◌==◌,
  ltb, if◌then◌else◌,
}
use mungi.Common.Arrays.{Array, update}
use mungi.Common.Int.{ℤ, pos, negsuc}

-- `MAX_PF`.
abbrev pub max_pf : ℕ
max_pf = 1024

-- `pending_pf_t`; `collision` is the index of an entry, `none` is `NULL`.
pub record PendingFault : Type 0 where
  pub faulter : ℕ
  pub faultfor : ℕ
  pub fault_page : ℕ
  pub access : ℕ
  pub valid : Bool
  pub collision : Option ℕ

-- `ppftable_init`; `nil_id` is `L4_NIL_ID`.
unfoldable pub ppftable_init : ℕ → Array PendingFault
ppftable_init nil_id i = record {
  faulter = nil_id;
  faultfor = nil_id;
  fault_page = 0;
  access = 0;
  valid = false;
  collision = none;
}

-- The search of `save_state` for an entry that is not valid, with fuel for the entries that are left:
-- the entry, and whether the page was seen. Where all are valid the source reads on behind the table.
unfoldable pub unused_entry : ℕ → Array PendingFault → ℕ → ℕ → Bool → Option (ℕ × Bool)
unused_entry zero table page i seen = none
unused_entry (suc fuel) table page i seen =
    if (table i).valid
    then unused_entry fuel table page (i + 1) (seen || ((table i).fault_page == page))
    else some (i, seen)

-- What `save_state` returns: an index, or `ALREADY_REQUESTED`.
pub data SavedAt : Type 0 where
  index : ℕ → SavedAt
  already_requested : SavedAt

abbrev pub set_collision : Array PendingFault → ℕ → ℕ → Array PendingFault
set_collision table i next = update table i (record (table i) { collision = some next })

-- The entry that is written.
abbrev pub new_fault : ℕ → ℕ → ℕ → ℕ → PendingFault
new_fault faulter faultfor page access = record {
  faulter = faulter;
  faultfor = faultfor;
  fault_page = page;
  access = access;
  valid = true;
  collision = none;
}

-- The rest of `save_state` where the place `home` of the page is in use, in a table whose first half
-- has `half` entries.
unfoldable pub save_behind :
    ℕ → Array PendingFault → ℕ → PendingFault → Option (SavedAt × Array PendingFault)
save_behind half table home fault = elim (unused_entry half table fault.fault_page half false) [
  | none ↦ none
  | some (i, seen) ↦ some (
    if seen then already_requested else index i,
    set_collision (update (set_collision table home i) i fault) home i,
  )
]

-- `save_state`; without a result where it reads behind the table.
unfoldable pub save_state :
    Array PendingFault → ℕ → ℕ → ℕ → ℕ → Option (SavedAt × Array PendingFault)
save_state table faulter faultfor page access =
    let home = page % max_pf in
    let fault = new_fault faulter faultfor page access in
    if (table home).valid
    then save_behind max_pf table home fault
    else some (index home, update table home fault)

-- The loop of `ppf_map`, with fuel for the entries of the chain: the entries whose thread gets the page.
unfoldable pub map_chain : ℕ → Array PendingFault → ℕ → Option ℕ → List ℕ
map_chain zero table page i = []
map_chain (suc fuel) table page none = []
map_chain (suc fuel) table page (some i) =
    let rest = map_chain fuel table page (table i).collision in
    if (table i).fault_page == page then i ∷ rest else rest

-- `ppf_map`: the entries for which `add_pte` and `map_page` are called, in order.
unfoldable pub ppf_map : ℕ → Array PendingFault → ℤ → ℕ → List ℕ
ppf_map fuel table (negsuc n) page = []
ppf_map fuel table (pos off) page =
    if ltb (2 * max_pf) off then [] else map_chain fuel table page (some off)
