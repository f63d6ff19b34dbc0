-- ===== src/Pdxcache.antt =====
-- kernel/src/pdxcache.c, and the part of the PDX APD cache of kernel/src/apd.c that it consults. The
-- caches' locks are held for the whole of each operation and are left out.
pub mod Lookup
use Prim.Native.Nat.{bit_and, bit_xor}
use mungi.Common.{
  ℕ, zero, suc, ◌+◌, ◌/◌, ◌*◌, ◌^◌, Bool, true, false, not, ◌&&◌, ◌||◌, Option, none, some, ◌==◌,
  leb, ltb, if◌then◌else◌,
}
use mungi.Common.Arrays.{Array, update}
use mungi.Common.Bits.{sub64}
use mungi.Common.Checked.{Checked, done, panic, ◌>>=◌}
use mungi.Common.Int.{ℤ, pos, ltb_ℤ, pos_part}
use mungi.Object.{Cap}

-- A `struct apd_cache_id`: where an entry of the PDX APD cache stands, and its domain's number.
pub record CacheId : Type 0 where
  pub position : ℤ
  pub serial : ℕ

-- A `struct apd_pdx_cache_entry`. 0 is `NULL`.
pub record ApdEntry : Type 0 where
  pub orig : ℕ
  pub clist : Cap
  pub apd : ℕ
  pub timestamp : ℕ

abbrev pub apd_pdx_cache_size : ℕ
apd_pdx_cache_size = 20

abbrev apd_pdx_cache_timeout : ℕ
apd_pdx_cache_timeout = 60

-- The loop of `apd_pdx_cache_remove`, over the first `n` entries.
pub remove_entries : Array ApdEntry → ℕ → ℕ → Array ApdEntry
remove_entries t apd zero = t
remove_entries t apd (suc n) =
    let t' = remove_entries t apd n in
    if (t' n).apd == apd then update t' n (record (t' n) { apd = 0 }) else t'

unfoldable pub apd_pdx_cache_remove : Array ApdEntry → ℕ → Array ApdEntry
unfolding remove_entries
apd_pdx_cache_remove t apd = remove_entries t apd apd_pdx_cache_size

-- `serial_of` reads a domain's number, `apd_serial` is the next one to be given out.
pub apd_pdx_cache_check_id : (ℕ → ℕ) → ℕ → Array ApdEntry → CacheId → ℕ → Checked ℕ
apd_pdx_cache_check_id serial_of apd_serial t id now =
    if ltb_ℤ id.position (pos 0) || not (ltb_ℤ id.position (pos apd_pdx_cache_size))
    then panic
    else if not (ltb id.serial apd_serial)
    then panic
    else let e = t (pos_part id.position) in
      done (
        if e.apd == 0
          || (ltb apd_pdx_cache_timeout (sub64 now e.timestamp)
              || not (serial_of e.apd == id.serial))
        then 0
        else e.apd)

-- A `struct pdxcache_entry`.
pub record Entry : Type 0 where
  pub apd_src : ℕ
  pub proc : ℕ
  pub apd_dest : ℕ
  pub id : CacheId

-- `pdx_cache`: `none` is `NULL`.
abbrev pub Pdxcache : Type 0
Pdxcache = Option (Array Entry)

-- `BYTEN` moves the byte with the number `n` to the end, and `HASH` mixes some of the bytes.
abbrev byten : ℕ → ℕ → ℕ
byten w n = w / 2 ^ (8 * n)

pub hash : ℕ → ℕ → ℕ → ℕ
hash a b c =
    let mix = bit_xor (bit_xor (byten a 1) (byten a 2)) (byten a 5) in
    let more = bit_xor (bit_xor (bit_xor mix (byten b 1)) (byten b 2)) (byten b 5) in
    bit_and (bit_xor more c) 255

abbrev pub zero_entry : Entry
zero_entry = record {
  apd_src = 0;
  proc = 0;
  apd_dest = 0;
  id = record { position = pos 0; serial = 0 };
}

-- `bzero` of the whole cache.
pub pdxcache_flush : Pdxcache → Checked Pdxcache
pdxcache_flush none = panic
pdxcache_flush (some t) = done (some λ _. zero_entry)

-- `block` is what `kmalloc` returns. A second call changes nothing.
unfoldable pub pdxcache_init : Option (Array Entry) → Pdxcache → Checked Pdxcache
unfolding pdxcache_flush
pdxcache_init block (some t) = done (some t)
pdxcache_init none none = panic
pdxcache_init (some b) none = pdxcache_flush (some b)

pub pdxcache_add : Pdxcache → ℕ → ℕ → ℕ → CacheId → Checked Pdxcache
unfolding hash
pdxcache_add none src proc dest id = panic
pdxcache_add (some t) src proc dest id = done (
    some (
      update t (hash src proc dest)
        (record { apd_src = src; proc = proc; apd_dest = dest; id = id })))

abbrev pub is_for : Entry → ℕ → ℕ → ℕ → Bool
is_for e src proc dest = e.apd_src == src && (e.proc == proc && e.apd_dest == dest)

-- `check_id` is `apd_pdx_cache_check_id` on the PDX APD cache of the moment.
pub pdxcache_lookup : (CacheId → Checked ℕ) → Pdxcache → ℕ → ℕ → ℕ → Checked ℕ
unfolding hash
pdxcache_lookup check_id none src proc dest = panic
pdxcache_lookup check_id (some t) src proc dest =
    let e = t (hash src proc dest) in if is_for e src proc dest then check_id e.id else done 0
