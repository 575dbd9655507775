-- ===== src/Hpa.antt =====
-- src/hpa.c: a batch of allocations from one hugepage, as far as it changes the hugepage's metadata.
-- The choice of the hugepage, its place in the page slab set, the lists of `edata_t` and the statistics
-- are left out.
mod Tests
pub mod Undo
pub mod Taken
pub mod Batch
pub mod Alloc
pub mod Eligible
pub mod Shard
pub mod Settle
pub mod Handlers
use jemalloc.Base.{
  ℕ, ◌+◌, Bool, true, false, not, Option, none, some, List, [], ◌∷◌, if◌then◌else◌, length, take,
}
use jemalloc.Hpdata.{Hpdata, hpdata_empty, hpdata_unreserve}
use jemalloc.Hpdata.Offsets.{
  AllocOffset, hpdata_find_alloc_offsets, hpdata_reserve_alloc_offset,
  hpdata_post_reserve_alloc_offsets,
}

-- `has_edata` says whether `edata_cache_fast_get` returns an `edata_t`, and `err` at an address whether
-- `emap_register_boundary` fails there. The result is the address, `none` out of memory.
unfoldable pub hpa_try_alloc_one_offset :
    Bool → (ℕ → Bool) → ℕ → Hpdata → AllocOffset → Hpdata × Option ℕ
hpa_try_alloc_one_offset has_edata err size ps alloc_offset =
    let (ps', addr) = hpdata_reserve_alloc_offset ps size alloc_offset in
    if not has_edata
    then (ps, none)
    else if err addr
    then (hpdata_unreserve ps' addr size, none)
    else (ps', some addr)

-- The loop over the offsets, `k` of them before; `has_edata` is asked by this number.
unfoldable pub try_alloc_from :
    (ℕ → Bool) → (ℕ → Bool) → ℕ → ℕ → List AllocOffset → Hpdata → Hpdata × List ℕ
try_alloc_from has_edata err size k [] ps = (ps, [])
try_alloc_from has_edata err size k (offset ∷ offsets) ps =
    let (ps', result) = hpa_try_alloc_one_offset (has_edata k) err size ps offset in
    let (ps'', addrs) = try_alloc_from has_edata err size (k + 1) offsets ps' in
    elim result [ none ↦ (ps', []) | some addr ↦ (ps'', addr ∷ addrs) ]

-- The part of `hpa_try_alloc_from_one_ps` from the offsets to the longest free range. `age_counter` is
-- that of the shard. The addresses are the results.
unfoldable pub alloc_at_offsets : (ℕ → Bool) → (ℕ → Bool) → ℕ → ℕ → ℕ → Hpdata → Hpdata × List ℕ
alloc_at_offsets has_edata err age_counter size max_nallocs ps =
    let offsets = hpdata_find_alloc_offsets ps size max_nallocs in
    let aged : Hpdata = (if hpdata_empty ps then record ps { h_age = age_counter } else ps) in
    let (ps', addrs) = try_alloc_from has_edata err size 0 offsets aged in
    (hpdata_post_reserve_alloc_offsets ps' size (take (length addrs) offsets), addrs)
