-- ===== src/Security/Validate.antt =====
-- `do_validate_obj` of kernel/src/security.c.
use mungi.Common.{
  ℕ, zero, suc, Bool, true, not, ◌||◌, Option, none, some, List, [], ◌∷◌, ◌==◌, if◌then◌else◌,
}
use mungi.Common.Int.{negsuc}
use mungi.Common.Checked.{Checked, done, ◌>>=◌}
use mungi.Vcache.{Vcache, CapRef, Hit, Extent, in_range, vcache_check, vcache_add}
use mungi.Object.{Object, Cap}
use mungi.Security.{allowed, denied, unknown, Answer, do_validate_passwd}

-- A C-list in user memory: `n_caps` capabilities behind a header.
pub record Clist : Type 0 where
  pub type : ℕ
  pub rel_ver : ℕ
  pub caps : List Cap

-- The macro `IS_NOT_CLIST` of kernel/include/mungi/clist.h.
abbrev pub is_not_clist : ℕ → Clist → Bool
is_not_clist address c = address == 0 || (not (c.type == b'c') || not (c.rel_ver == 1))

-- What a scan of capabilities comes to: the answer and the capability that gave it.
pub data Scan : Type 0 where
  no_match : Scan
  grants : Answer → CapRef → ℕ → Scan
  refuses : CapRef → Scan

abbrev pub ends_scan : Answer → CapRef → ℕ → Checked Scan → Checked Scan
ends_scan a ref address rest = elim a.verdict [
  | allowed ↦ done (grants a ref address)
  | denied ↦ done (refuses ref)
  | unknown ↦ rest
]

-- The capabilities of one C-list from index `j` on.
unfoldable pub scan_caps : Object → ℕ → ℕ → ℕ → ℕ → List Cap → Checked Scan
scan_caps o addr access clist j [] = done no_match
scan_caps o addr access clist j (c ∷ cs) =
    let rest = scan_caps o addr access clist (suc j) cs in
    if not (in_range c.address o.base o.end) then rest else do
      a ← do_validate_passwd o c.passwd access addr (negsuc 0)
      ends_scan a (record { clist = clist; index = j }) c.address rest

abbrev pub or_scan : Scan → Checked Scan → Checked Scan
or_scan no_match rest = rest
or_scan (grants a ref address) rest = done (grants a ref address)
or_scan (refuses ref) rest = done (refuses ref)

-- The C-lists in the APD's first `n` slots.
unfoldable pub scan_slots : (ℕ → Clist) → Object → ℕ → ℕ → ℕ → List Cap → Checked Scan
unfolding scan_caps
scan_slots clist_at o addr access zero slots = done no_match
scan_slots clist_at o addr access (suc n) [] = done no_match
scan_slots clist_at o addr access (suc n) (s ∷ ss) =
    let rest = scan_slots clist_at o addr access n ss in
    if is_not_clist s.address (clist_at s.address)
    then rest
    else do r ← scan_caps o addr access s.address 0 (clist_at s.address).caps; or_scan r rest

-- The parts of an APD that validation uses.
pub record Domain : Type 0 where
  pub n_apd : ℕ
  pub clist : List Cap
  pub vcache : Vcache

-- The cache afterwards, the object that is returned, and `*rcap` if it was written.
pub record Validated : Type 0 where
  pub vcache : Vcache
  pub obj : Option ℕ
  pub rcap : Option CapRef

-- `object_find` is the search of the object table, `objects` what its pointers lead to, `clist_at`
-- the user memory at a C-list's address, and `now`, `now1`, `now2` the readings of the clock.
module _ (object_find : ℕ → Option ℕ) (objects : ℕ → Object) (clist_at : ℕ → Clist)
    (now now1 now2 : ℕ) where
  unfoldable pub finish : Vcache → ℕ → Scan → Checked Validated
  finish c r no_match = done (record { vcache = c; obj = none; rcap = none })
  finish c r (refuses ref) = done (record { vcache = c; obj = none; rcap = some ref })
  finish c r (grants a ref address) = do
    let extent : Extent = record { obj = r; base = (objects r).base; limit = (objects r).end }
    c' ← vcache_add c extent a.access ref address a.pdx_slot now1 now2
    done (record { vcache = c'; obj = some r; rcap = some ref })

  unfoldable pub search_domain : Domain → Vcache → ℕ → ℕ → Checked Validated
  unfolding finish scan_slots
  search_domain d c addr access = elim (object_find addr) [
    | none ↦ done (record { vcache = c; obj = none; rcap = none })
    | some r ↦ do s ← scan_slots clist_at (objects r) addr access d.n_apd d.clist; finish c r s
  ]

  unfoldable pub from_cache : Domain → ℕ → ℕ → Vcache → Option Hit → Checked Validated
  unfolding search_domain
  from_cache d addr access c none = search_domain d c addr access
  from_cache d addr access c (some h) =
      done (record { vcache = c; obj = some h.obj; rcap = some h.cap })

  unfoldable pub do_validate_obj : ℕ → Domain → ℕ → Checked Validated
  unfolding from_cache
  do_validate_obj addr d access = do
    (c, hit) ← vcache_check d.vcache addr access now
    from_cache d addr access c hit

  pub validate_obj_pdx : ℕ → Domain → ℕ → Checked Validated
  unfolding do_validate_obj
  validate_obj_pdx addr d access = do_validate_obj addr d access

  unfoldable pub validate_obj : ℕ → Domain → ℕ → Checked Validated
  unfolding validate_obj_pdx
  validate_obj addr d access = validate_obj_pdx addr d access

-- `validate_range` accepts every range.
unfoldable pub validate_range : Object → ℕ → ℕ → Bool
validate_range o start size = true
