-- ===== src/Sec/Shards.antt =====
-- The shards of the small extent cache of src/sec.c: `sec_init`, and the operations that pick bins.
use jemalloc.Base.{
  ℕ, zero, suc, ◌+◌, ◌*◌, ◌%◌, ◌^◌, Bool, true, false, not, leb, ◌==◌, if◌then◌else◌, min, max,
  Option, none, some, List, ◌∷◌, ◌/◌, put, u64, clear_low,
}
use jemalloc.Sc.Params.{lg_page}
use jemalloc.Sz.{sz_psz2ind}
use jemalloc.Sec.{
  Edata, SecOpts, SecBin, sec_min_nallocs, sec_max_nallocs, sec_max_bytes_div, sec_bin_init,
  sec_bin_alloc_locked, sec_bin_dalloc_locked, fill_locked, flush_locked, trim_locked,
}

pub record Sec : Type 0 where
  pub opts : SecOpts
  pub bins : ℕ → SecBin
  pub npsizes : ℕ

unfoldable pub sec_is_used : SecOpts → Bool
sec_is_used opts = not (opts.nshards == 0)

unfoldable pub sec_size_supported : SecOpts → ℕ → Bool
sec_size_supported opts size = leb size opts.max_alloc

-- The loop of `sec_init` over the bins. `lock_fails j` says that the lock of bin `j` is not made.
unfoldable pub init_bins : (ℕ → Bool) → ℕ → ℕ → (ℕ → SecBin) → (ℕ → SecBin) × Bool
init_bins lock_fails zero j bins = (bins, false)
init_bins lock_fails (suc rounds) j bins =
    let bins' = put bins j sec_bin_init in
    let rest = init_bins lock_fails rounds (j + 1) bins' in
    if lock_fails j then (bins', true) else rest

-- `memory` is what the new bins hold before; `allocated` says whether `base_alloc` gave them memory.
unfoldable pub sec_init : (ℕ → Bool) → Bool → (ℕ → SecBin) → SecOpts → Sec × Bool
sec_init lock_fails allocated memory opts =
    let unused = record opts { nshards = 0; max_alloc = 0 } in
    let npsizes = sz_psz2ind (clear_low opts.max_alloc lg_page) + 1 in
    let (bins, err) = init_bins lock_fails (opts.nshards * npsizes) 0 memory in
    if opts.nshards == 0
    then (record { opts = record opts { max_alloc = 0 }; bins = memory; npsizes = 0 }, false)
    else if not allocated
    then (record { opts = unused; bins = memory; npsizes = 0 }, true)
    else if err
    then (record { opts = unused; bins = bins; npsizes = 0 }, true)
    else (record { opts = opts; bins = bins; npsizes = npsizes }, false)

-- The fewest and the most extents to allocate.
unfoldable pub sec_calc_nallocs_for_size : SecOpts → ℕ → ℕ × ℕ
sec_calc_nallocs_for_size opts size =
    let nallocs = opts.max_bytes / size / sec_max_bytes_div in
    if sec_size_supported opts size
    then (sec_min_nallocs, min (max nallocs sec_min_nallocs) sec_max_nallocs)
    else (1, 1)

-- After `sec_init`. `busy i` says that the lock of the bin tried in round `i` is held by another thread.
module _ (opts : SecOpts) (npsizes : ℕ) where
  unfoldable pub sec_bin_pick : ℕ → ℕ → ℕ
  sec_bin_pick shard pszind = shard * npsizes + pszind

  -- `cur_shard++`, and back to 0 at the end; it is a `uint8_t`.
  unfoldable pub next_shard : ℕ → ℕ
  next_shard cur_shard =
      let next = (cur_shard + 1) % 2 ^ 8 in if next == opts.nshards then 0 else next

  -- An allocation with the lock held.
  unfoldable pub alloc_at : (ℕ → SecBin) → ℕ → (ℕ → SecBin) × Option Edata
  alloc_at bins ind =
      let (bin, edata) = sec_bin_alloc_locked opts (bins ind) in (put bins ind bin, edata)

  unfoldable pub with_miss : SecBin → Option Edata → SecBin
  with_miss bin none = record bin { nmisses = u64 (bin.nmisses + 1) }
  with_miss bin (some edata) = bin

  -- With the lock waited for, a miss is counted.
  unfoldable pub alloc_or_miss : (ℕ → SecBin) → ℕ → (ℕ → SecBin) × Option Edata
  alloc_or_miss bins ind =
      let (bin, edata) = sec_bin_alloc_locked opts (bins ind) in
      (put bins ind (with_miss bin edata), edata)

  -- The loop from round `i` on, and what follows it.
  unfoldable pub trylock_alloc :
      (ℕ → Bool) → ℕ → ℕ → ℕ → ℕ → (ℕ → SecBin) → (ℕ → SecBin) × Option Edata
  trylock_alloc busy pszind zero i cur_shard bins =
      alloc_or_miss bins (sec_bin_pick cur_shard pszind)
  trylock_alloc busy pszind (suc rounds) i cur_shard bins =
      let (bins', edata) =
        (if busy i then (bins, none) else alloc_at bins (sec_bin_pick cur_shard pszind)) in
      elim edata [
        | some e ↦ (bins', some e)
        | none ↦ trylock_alloc busy pszind rounds (i + 1) (next_shard cur_shard) bins'
      ]

  unfoldable pub sec_multishard_trylock_alloc :
      (ℕ → Bool) → (ℕ → SecBin) → ℕ → ℕ → (ℕ → SecBin) × Option Edata
  sec_multishard_trylock_alloc busy bins pszind shard =
      trylock_alloc busy pszind opts.nshards 0 shard bins

  unfoldable pub sec_alloc : (ℕ → Bool) → (ℕ → SecBin) → ℕ → ℕ → (ℕ → SecBin) × Option Edata
  sec_alloc busy bins size shard =
      let pszind = sz_psz2ind size in
      if opts.nshards == 1
      then alloc_or_miss bins (sec_bin_pick 0 pszind)
      else sec_multishard_trylock_alloc busy bins pszind shard

  unfoldable pub dalloc_at : (ℕ → SecBin) → ℕ → ℕ → List Edata → (ℕ → SecBin) × List Edata
  dalloc_at bins ind size dalloc_list =
      let (bin, list) = sec_bin_dalloc_locked opts (bins ind) size dalloc_list in
      (put bins ind bin, list)

  unfoldable pub trylock_dalloc :
      (ℕ → Bool) → ℕ → ℕ → ℕ → ℕ → ℕ → (ℕ → SecBin) → List Edata → (ℕ → SecBin) × List Edata
  trylock_dalloc busy size pszind zero i cur_shard bins dalloc_list =
      dalloc_at bins (sec_bin_pick cur_shard pszind) size dalloc_list
  trylock_dalloc busy size pszind (suc rounds) i cur_shard bins dalloc_list =
      let rest =
        trylock_dalloc busy size pszind rounds (i + 1) (next_shard cur_shard) bins dalloc_list in
      if busy i then rest else dalloc_at bins (sec_bin_pick cur_shard pszind) size dalloc_list

  unfoldable pub sec_multishard_trylock_dalloc :
      (ℕ → Bool) → (ℕ → SecBin) → ℕ → ℕ → List Edata → ℕ → (ℕ → SecBin) × List Edata
  sec_multishard_trylock_dalloc busy bins size pszind dalloc_list shard =
      trylock_dalloc busy size pszind opts.nshards 0 shard bins dalloc_list

  -- The list holds an extent, its first.
  unfoldable pub sec_dalloc :
      (ℕ → Bool) → (ℕ → SecBin) → Edata → List Edata → ℕ → (ℕ → SecBin) × List Edata
  sec_dalloc busy bins edata others shard =
      let size = edata.size in
      let pszind = sz_psz2ind size in
      if opts.nshards == 1
      then dalloc_at bins (sec_bin_pick 0 pszind) size (edata ∷ others)
      else sec_multishard_trylock_dalloc busy bins size pszind (edata ∷ others) shard

  unfoldable pub sec_fill : (ℕ → SecBin) → ℕ → List Edata → ℕ → ℕ → (ℕ → SecBin) × List Edata
  sec_fill bins size result nallocs shard =
      let ind = sec_bin_pick shard (sz_psz2ind size) in
      let (bin, list) = fill_locked opts (bins ind) size result nallocs in (put bins ind bin, list)

  -- The loop of `sec_flush` from bin `i` on.
  unfoldable pub flush_bins : ℕ → ℕ → (ℕ → SecBin) → List Edata → (ℕ → SecBin) × List Edata
  flush_bins zero i bins to_flush = (bins, to_flush)
  flush_bins (suc rounds) i bins to_flush =
      let (bin, list) = flush_locked (bins i) to_flush in
      flush_bins rounds (i + 1) (put bins i bin) list

  unfoldable pub sec_flush : (ℕ → SecBin) → List Edata → (ℕ → SecBin) × List Edata
  sec_flush bins to_flush =
      if sec_is_used opts
      then flush_bins (opts.nshards * npsizes) 0 bins to_flush
      else (bins, to_flush)

  -- That of `sec_trim`.
  unfoldable pub trim_bins :
      (ℕ → Bool) → ℕ → ℕ → (ℕ → SecBin) → List Edata → (ℕ → SecBin) × List Edata
  trim_bins busy zero i bins to_flush = (bins, to_flush)
  trim_bins busy (suc rounds) i bins to_flush =
      let (bin, list) = (if busy i then (bins i, to_flush) else trim_locked (bins i) to_flush) in
      trim_bins busy rounds (i + 1) (put bins i bin) list

  unfoldable pub sec_trim : (ℕ → Bool) → (ℕ → SecBin) → List Edata → (ℕ → SecBin) × List Edata
  sec_trim busy bins to_flush =
      if opts.experimental_trim
      then trim_bins busy (opts.nshards * npsizes) 0 bins to_flush
      else (bins, to_flush)
