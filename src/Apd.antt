-- ===== src/Apd.antt =====
-- kernel/src/apd.c, the C-list slots of a protection domain (`apddesc_t` of include/sys/types.h).
-- The domain's lock is held for the whole of each operation and is left out.
pub mod Slots
use mungi.Common.{
  ℕ, zero, suc, ◌+◌, ◌-◌, Bool, true, false, not, ◌&&◌, ◌||◌, Option, none, some, List, [], ◌∷◌,
  ◌==◌, leb, ltb, if◌then◌else◌, get_elem?, set,
}
use mungi.Common.Arrays.{Array, update}
use mungi.Common.Int.{ℤ, pos, negsuc, ltb_ℤ, eqb_ℤ, pos_part}
use mungi.Object.{Cap}
use mungi.Security.Validate.{Clist, is_not_clist}

pub record Apddesc : Type 0 where
  pub clist : Array Cap
  pub n_locked : ℕ
  pub n_apd : ℕ

abbrev pub apd_max_entry : ℕ
apd_max_entry = 16

abbrev pub null_cap : Cap
null_cap = record { address = 0; passwd = 0 }

-- Codes of include/status.h.
abbrev pub st_lock : ℕ
st_lock = 0x11

abbrev st_ovfl : ℕ
st_ovfl = 0x13

-- `for (i = n_apd - 1; i >= pos; i--) clist[i+1] = clist[i];` with `rounds` rounds, the next one at
-- index `p + rounds - 1`.
pub shift_up : Array Cap → ℕ → ℕ → Array Cap
shift_up f p zero = f
shift_up f p (suc rounds) = shift_up (update f (p + rounds + 1) (f (p + rounds))) p rounds

-- `for (i = pos; i < n_apd; i++) clist[i] = clist[i+1];` with `rounds` rounds from index `i`.
pub shift_down : Array Cap → ℕ → ℕ → Array Cap
shift_down f i zero = f
shift_down f i (suc rounds) = shift_down (update f i (f (i + 1))) (i + 1) rounds

-- `apd_slot_insert` at a position that is not negative; `c` is the memory at the C-list's address.
pub insert_at : Apddesc → ℕ → ℕ → ℕ → Apddesc × ℕ
insert_at d address passwd p =
    if d.n_apd == apd_max_entry || ltb p d.n_locked
    then (d, if d.n_apd == apd_max_entry then st_ovfl else st_lock)
    else (
      record d {
        clist =
            update (shift_up d.clist p (d.n_apd - p)) p
              (record { address = address; passwd = passwd });
        n_apd = if leb (p + 1) d.n_apd then d.n_apd else p + 1;
      },
      0,
    )

pub apd_slot_insert : Apddesc → ℕ → Clist → ℕ → ℤ → Apddesc × ℕ
unfolding insert_at
apd_slot_insert d address c passwd position =
    if is_not_clist address c
      || (ltb_ℤ position (pos 0) || not (ltb_ℤ position (pos apd_max_entry)))
    then (d, 1)
    else insert_at d address passwd (pos_part position)

-- `apd_slot_delete` at a position in use and not locked.
abbrev remove_slot : Apddesc → ℕ → Apddesc
remove_slot d p = record d {
  clist = update (shift_down d.clist p (d.n_apd - 1 - p)) (d.n_apd - 1) null_cap;
  n_apd = d.n_apd - 1;
}

-- `pos >= n_apd || pos < n_locked` is refused, with `ST_LOCK` if the second test holds.
pub apd_slot_delete : Apddesc → ℤ → Apddesc × ℕ
apd_slot_delete d position =
    if ltb_ℤ position (pos d.n_locked)
    then (d, st_lock)
    else if not (ltb_ℤ position (pos d.n_apd))
    then (d, 1)
    else (remove_slot d (pos_part position), 0)

pub apd_slot_lock : Apddesc → ℤ → Apddesc × ℕ
apd_slot_lock d position =
    if ltb_ℤ position (pos 0) && not (eqb_ℤ position (negsuc 0))
      || not (ltb_ℤ position (pos apd_max_entry))
    then (d, 1)
    else if eqb_ℤ position (negsuc 0)
    then (record d { n_locked = apd_max_entry }, 0)
    else if leb d.n_locked (pos_part position)
    then (record d { n_locked = pos_part position + 1 }, 0)
    else (d, 1)

-- `apd_get` copies the addresses and counts and blanks the passwords.
pub copy_slots : Array Cap → Array Cap → ℕ → Array Cap
copy_slots f buffer zero = buffer
copy_slots f buffer (suc n) =
    update (copy_slots f buffer n) n (record { address = (f n).address; passwd = 0 })

pub apd_get : Apddesc → Apddesc → Apddesc
unfolding copy_slots
apd_get d buffer = record {
  clist = copy_slots d.clist buffer.clist apd_max_entry;
  n_locked = d.n_locked;
  n_apd = d.n_apd;
}
