-- ===== src/Object.antt =====
-- kernel/src/objects.c, kernel/include/mungi/objects.h and `objinfo_t` of include/sys/types.h: an
-- object with its passwords. Locks are held for the whole of each operation and are left out.
pub mod Passwd
pub mod Entries
pub mod Table
use mungi.Common.{
  ℕ, zero, suc, ◌+◌, ◌<◌, Bool, true, false, not, ◌&&◌, Option, none, some, ◌==◌, leb, ltb,
  if◌then◌else◌, ◌-◌,
}
use mungi.Common.Arrays.{Array, update}
use mungi.Common.Int.{ℤ}
use mungi.Common.Bits.{m_owner}
use Prim.Native.Nat.{bit_and}

pub record Cap : Type 0 where
  pub address : ℕ
  pub passwd : ℕ

-- The fields of `objinfo_t` that any holder of the object may read.
pub record Public : Type 0 where
  pub extent : ℕ
  pub creation : ℕ
  pub modification : ℕ
  pub access : ℕ
  pub accounting : ℕ
  pub userinfo : ℕ
  pub acctinfo : ℕ
  pub length : ℕ

-- `pdxdata_t`: for each PDX slot its C-list, its password and the range of its entry points, which
-- all stand in one array.
pub record Pdx : Type 0 where
  pub clist : Array Cap
  pub passwd : Array ℕ
  pub n_entry : Array ℤ
  pub x_entry : Array ℤ
  pub entry : ℤ → ℕ

pub record Object : Type 0 where
  pub base : ℕ
  pub end : ℕ
  pub info : Public
  pub n_caps : ℕ
  pub passwd : Array ℕ
  pub rights : Array ℕ
  pub n_pdx : ℕ
  pub pdx : Pdx

abbrev pub o_max_caps : ℕ
o_max_caps = 128

-- What the loop of `object_passwd` finds: a slot with the password, or the first slot without rights.
pub data Place : Type 0 where
  same : ℕ → Place
  empty : ℕ → Place
  nowhere : Place

-- The loop of `object_passwd`, with `rounds` rounds left from index `i`.
unfoldable pub find_place : Object → ℕ → ℕ → ℕ → Option ℕ → Place
find_place o p zero i none = nowhere
find_place o p zero i (some e) = empty e
find_place o p (suc rounds) i none = elim (o.rights i == 0) [
  | true ↦ find_place o p rounds (suc i) (some i)
  | false ↦ elim (o.passwd i == p) [ true ↦ same i | false ↦ find_place o p rounds (suc i) none ]
]
find_place o p (suc rounds) i (some e) = elim (o.passwd i == p) [
  | true ↦ same i
  | false ↦ find_place o p rounds (suc i) (some e)
]

-- `rights & ~M_PDX`.
abbrev pub without_pdx : ℕ → ℕ
without_pdx r = bit_and r 0xef

-- The object afterwards and whether a slot was found (`success`).
unfoldable pub object_passwd : Object → ℕ → ℕ → Object × Bool
unfolding find_place
object_passwd o p r = elim (find_place o p o_max_caps 0 none) [
  | same i ↦ (record o { rights = update o.rights i (without_pdx r) }, true)
  | nowhere ↦ (o, false)
  | empty i ↦ (
    record o {
      n_caps = if leb o.n_caps i then i + 1 else o.n_caps;
      passwd = update o.passwd i p;
      rights = update o.rights i (without_pdx r);
    },
    true,
  )
]

-- `object_info` copies the public fields one by one into the caller's buffer.
unfoldable pub object_info : Object → Public → Public
object_info o buffer = record buffer {
  extent = o.info.extent;
  creation = o.info.creation;
  modification = o.info.modification;
  access = o.info.access;
  accounting = o.info.accounting;
  userinfo = o.info.userinfo;
  acctinfo = o.info.acctinfo;
  length = o.info.length;
}
