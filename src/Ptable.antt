-- ===== src/Ptable.antt =====
-- kernel/src/vm/ptable.c: the page table, a hash table with chains in a collision table. A collision
-- table's entry is in a chain or free; the head of the free list stands behind the table in the source.
-- What is written into a bit field is cut to its width, and the lock bits are left out.
pub mod Lookup
use mungi.Common.{
  ℕ, zero, suc, ◌+◌, ◌%◌, ◌^◌, Bool, true, false, not, ◌&&◌, ◌==◌, ltb, if◌then◌else◌,
}
use mungi.Common.Arrays.{Array, update}
use mungi.Common.Checked.{Checked, done, panic, ◌>>=◌}

-- `INVALID`, `VALID` and `DELETED`.
pub data Validity : Type 0 where
  invalid valid deleted : Validity

abbrev pub is_valid : Validity → Bool
is_valid valid = true
is_valid invalid = false
is_valid deleted = false

abbrev pub is_invalid : Validity → Bool
is_invalid invalid = true
is_invalid valid = false
is_invalid deleted = false

-- `used_page_t`.
pub record UsedPage : Type 0 where
  pub validity : Validity
  pub pagenum : ℕ
  pub framenum : ℕ
  pub chain : ℕ

-- An entry of the collision table: a `used_page_t` that is valid, or a `free_page_t` with its `next`.
pub data Collision : Type 0 where
  used : UsedPage → Collision
  free_entry : ℕ → Collision

-- The tables, with the numbers of their entries, the free list, and the frames' `dirty` bits.
pub record Tables : Type 0 where
  pub max_ptable : ℕ
  pub max_ctable : ℕ
  pub ptable : Array UsedPage
  pub ctable : Array Collision
  pub free_head : ℕ
  pub dirty : Array ℕ

-- `pindex`: `HASH(vpno, MAX_PTABLE)` as an `unsigned int`.
abbrev pub pindex : Tables → ℕ → ℕ
pindex t vpno = vpno % t.max_ptable % 2 ^ 32

-- A `used_page_t` with the end of the list as its chain: the fields have 36, 20 and 15 bits.
abbrev pub filled : Tables → ℕ → ℕ → UsedPage
filled t vpno pfno = record {
  validity = valid;
  pagenum = vpno % 2 ^ 36;
  framenum = pfno % 2 ^ 20;
  chain = t.max_ctable % 2 ^ 15;
}

-- `dirty` has one bit.
abbrev pub set_dirty : Tables → ℕ → ℕ → Array ℕ
set_dirty t pfno mode = update t.dirty pfno (mode % 2)

-- What `find_pte` returns: an entry of the page table or of the collision table, or `NULL`. A chain
-- that leads to a free entry is a `fault`.
pub data FoundPte : Type 0 where
  in_ptable in_ctable : ℕ → FoundPte
  not_found fault no_fuel : FoundPte

-- `pagenum < vpno` and not at the end of the chain.
abbrev pub goes_on : Tables → ℕ → UsedPage → Bool
goes_on t vpno page = ltb page.pagenum vpno && not (page.chain == t.max_ctable)

-- The loop of `find_pte`, with fuel for its rounds.
unfoldable pub find_chain : ℕ → Tables → ℕ → UsedPage → FoundPte
find_chain zero t vpno page = if goes_on t vpno page then no_fuel else not_found
find_chain (suc fuel) t vpno page = elim (goes_on t vpno page) [
  | false ↦ not_found
  | true ↦ elim (t.ctable page.chain) [
    | free_entry next ↦ fault
    | used next ↦ elim (next.pagenum == vpno) [
      | true ↦ in_ctable page.chain
      | false ↦ find_chain fuel t vpno next
    ]
  ]
]

-- `find_pte` for a page number that is already an `unsigned int`.
unfoldable pub find_page : ℕ → Tables → ℕ → FoundPte
find_page fuel t vpno =
    let page = t.ptable (pindex t vpno) in
    if t.max_ptable == 0
    then fault
    else if is_valid page.validity && page.pagenum == vpno
    then in_ptable (pindex t vpno)
    else if is_invalid page.validity
    then not_found
    else find_chain fuel t vpno page

-- `find_pte`: its parameter is an `unsigned int`.
unfoldable pub find_pte : ℕ → Tables → ℕ → FoundPte
find_pte fuel t vpno = find_page fuel t (vpno % 2 ^ 32)

-- The entry whose chain the new one is put into: the head or an entry of the collision table.
pub data Behind : Type 0 where
  head : Behind
  entry : ℕ → Behind

-- The loop of `add_collision`: `prev` and `page`. As long as `prev` is `NULL` the source takes `page`,
-- which is the head.
unfoldable pub insertion_point : ℕ → Tables → ℕ → Behind → Behind → UsedPage → Checked Behind
insertion_point zero t vpno prev at page = if goes_on t vpno page then panic else done prev
insertion_point (suc fuel) t vpno prev at page = elim (goes_on t vpno page) [
  | false ↦ done prev
  | true ↦ elim (t.ctable page.chain) [
    | free_entry next ↦ panic
    | used next ↦ insertion_point fuel t vpno at (entry page.chain) next
  ]
]

-- The new entry, at `cindex`, goes behind the entry.
unfoldable pub link : Tables → ℕ → ℕ → UsedPage → Behind → Checked Tables
link t i cindex new head =
    let page = t.ptable i in
    done (record t {
      ctable = update t.ctable cindex (used (record new { chain = page.chain }));
      ptable = update t.ptable i (record page { chain = cindex % 2 ^ 15 });
    })
link t _ cindex new (entry i) = elim (t.ctable i) [
  | free_entry next ↦ panic
  | used page ↦ done (record t {
    ctable =
        update (update t.ctable cindex (used (record new { chain = page.chain }))) i
          (used (record page { chain = cindex % 2 ^ 15 }));
  })
]

-- `add_collision`: a full table, or an entry of the free list that is in use, fails an assert.
unfoldable pub add_collision : ℕ → Tables → ℕ → ℕ → ℕ → Checked Tables
add_collision fuel t vpno pfno mode =
    let cindex = t.free_head % 2 ^ 32 in
    if cindex == t.max_ctable then panic else elim (t.ctable cindex) [
      | used page ↦ panic
      | free_entry next ↦
          let taken = record t { free_head = next; dirty = set_dirty t pfno mode } in
          insertion_point fuel taken vpno head head (t.ptable (pindex t vpno))
          >>= link taken (pindex t vpno) cindex (filled t vpno pfno)
    ]

unfoldable pub add_pte : ℕ → Tables → ℕ → ℕ → ℕ → Checked Tables
add_pte fuel t vpno pfno mode =
    if is_valid (t.ptable (pindex t vpno)).validity
    then add_collision fuel t vpno pfno mode
    else done (record t {
      ptable = update t.ptable (pindex t vpno) (filled t vpno pfno);
      dirty = set_dirty t pfno mode;
    })

-- `invalidate_pte` marks the head, whatever page it is for.
unfoldable pub invalidate_pte : Tables → ℕ → Tables
invalidate_pte t vpno =
    let page = t.ptable (pindex t vpno) in
    record t {
      ptable =
          update t.ptable (pindex t vpno)
            (record page { validity = if page.chain == t.max_ctable then invalid else deleted });
    }
