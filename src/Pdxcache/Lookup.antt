-- ===== src/Pdxcache/Lookup.antt =====
-- What `pdxcache_lookup` of kernel/src/pdxcache.c returns after the other operations.
use mungi.Common.{
  ℕ, zero, suc, ◌<◌, ◌≡◌, ◌≢◌, ◌&&◌, none, some, ◌==◌, ltb, if◌then◌else◌, arith, Bool-cases, inl,
  inr, ◌⊎◌,
}
use mungi.Common.Arrays.{Array, update}
use mungi.Common.Checked.{Checked, done, ◌>>=◌}
use mungi.Common.Int.{pos_part}
use mungi.Pdxcache.{
  CacheId, ApdEntry, Entry, Pdxcache, hash, is_for, pdxcache_add, pdxcache_lookup, pdxcache_flush,
  apd_pdx_cache_remove, remove_entries, apd_pdx_cache_check_id, apd_pdx_cache_size,
}

module _ (check_id : CacheId → Checked ℕ) (t : Array Entry) (src proc dest : ℕ) (id : CacheId) where
  -- After `pdxcache_add` the lookup of the same source, procedure and destination is decided by the
  -- identity that was added.
  pdxcache_lookup-add :
      (pdxcache_add (some t) src proc dest id >>= λ c. pdxcache_lookup check_id c src proc dest)
      ≡ check_id id
  unfolding pdxcache_lookup pdxcache_add update
  pdxcache_lookup-add = ground arith

  -- After pdxcache_add the lookup of another triple is as before if it has another hash value, and
  -- finds nothing if it has the same one.
  pdxcache_lookup-add_other :
      (src' proc' dest' : ℕ)
      → (src' ≢ src) ⊎ ((proc' ≢ proc) ⊎ (dest' ≢ dest))
      → (pdxcache_add (some t) src proc dest id >>= λ c.
          pdxcache_lookup check_id c src' proc' dest')
        ≡ (if hash src' proc' dest' == hash src proc dest
            then done 0
            else pdxcache_lookup check_id (some t) src' proc' dest')
  unfolding pdxcache_lookup pdxcache_add update
  pdxcache_lookup-add_other src' proc' dest' other = ground arith

-- After `pdxcache_flush` no lookup for a domain that is not `NULL` finds anything.
pdxcache_flush-misses :
    (check_id : CacheId → Checked ℕ) (t : Array Entry) (src proc dest : ℕ)
    → src ≢ 0
    → (pdxcache_flush (some t) >>= λ c. pdxcache_lookup check_id c src proc dest) ≡ done 0
unfolding pdxcache_flush pdxcache_lookup
pdxcache_flush-misses check_id t src proc dest ne = ground arith

remove_entries_lem :
    (t : Array ApdEntry) (apd n i : ℕ)
    → (remove_entries t apd n i).apd ≡ (if ltb i n && ((t i).apd == apd) then 0 else (t i).apd)
unfolding remove_entries update
remove_entries_lem t apd zero i = ground arith
remove_entries_lem t apd (suc n) i =
    ground (arith, remove_entries_lem t apd n i, remove_entries_lem t apd n n)

remove_entries-absent :
    (t : Array ApdEntry) (apd n i : ℕ) → apd ≢ 0 → i < n → (remove_entries t apd n i).apd ≢ apd
remove_entries-absent t apd n i ne h = ground (arith, remove_entries_lem t apd n i)

check_id-absent :
    (serial_of : ℕ → ℕ) (apd_serial now apd : ℕ) (t : Array ApdEntry) (id : CacheId)
    → apd ≢ 0
    → ((i : ℕ) → i < apd_pdx_cache_size → (t i).apd ≢ apd)
    → apd_pdx_cache_check_id serial_of apd_serial t id now ≢ done apd
unfolding apd_pdx_cache_check_id
check_id-absent serial_of apd_serial now apd t id ne w h = ground (arith, w (pos_part id.position))

check_id-removed :
    (serial_of : ℕ → ℕ) (apd_serial now apd : ℕ) (t : Array ApdEntry) (id : CacheId)
    → apd ≢ 0
    → apd_pdx_cache_check_id serial_of apd_serial (apd_pdx_cache_remove t apd) id now ≢ done apd
check_id-removed serial_of apd_serial now apd t id ne =
    check_id-absent serial_of apd_serial now apd (apd_pdx_cache_remove t apd) id ne
      λ i h. unfold apd_pdx_cache_remove in remove_entries-absent t apd apd_pdx_cache_size i ne h

-- After apd_pdx_cache_remove, with which a domain's closing starts, no lookup in the PDX cache
-- returns the domain, whatever the cache holds.
pub apd_pdx_cache_remove-unfound :
    (serial_of : ℕ → ℕ) (apd_serial now apd : ℕ) (t : Array ApdEntry) (c : Pdxcache)
    (src proc dest : ℕ)
    → apd ≢ 0
    → pdxcache_lookup
        (λ id. apd_pdx_cache_check_id serial_of apd_serial (apd_pdx_cache_remove t apd) id now)
        c
        src
        proc
        dest
      ≢ done apd
unfolding pdxcache_lookup
apd_pdx_cache_remove-unfound serial_of apd_serial now apd t none src proc dest ne h = ground arith
apd_pdx_cache_remove-unfound serial_of apd_serial now apd t (some c) src proc dest ne h =
    elim (Bool-cases (is_for (c (hash src proc dest)) src proc dest)) [
      | inr other ↦ ground (arith, other)
      | inl hit ↦
          check_id-removed serial_of apd_serial now apd t (c (hash src proc dest)).id ne
            (rw (pdxcache_lookup, hit) at h)
    ]
