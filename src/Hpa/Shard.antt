-- ===== src/Hpa/Shard.antt =====
-- src/hpa.c: one allocation batch and one deallocation of a shard, on the hugepage that they touch.
use jemalloc.Base.{ℕ, Bool, List, length, take, if◌then◌else◌}
use jemalloc.Sz.Table.{Tables}
use jemalloc.Hpdata.{Hpdata, hpdata_empty, hpdata_unreserve}
use jemalloc.Hpdata.Offsets.{hpdata_find_alloc_offsets, hpdata_post_reserve_alloc_offsets}
use jemalloc.Psset.{psset_alloc_update_begin, psset_alloc_update_end}
use jemalloc.Hpa.{try_alloc_from}
use jemalloc.Hpa.Eligible.{HpaShardOpts, hpa_update_purge_hugify_eligibility}

module _ (t : Tables) (opts : HpaShardOpts) (enforce_hugify : Bool) (now : ℕ) where
  -- `ps` is the hugepage that `psset_pick_alloc` has picked.
  unfoldable pub hpa_try_alloc_from_one_ps :
      (ℕ → Bool) → (ℕ → Bool) → ℕ → ℕ → ℕ → Hpdata → Hpdata × List ℕ
  hpa_try_alloc_from_one_ps has_edata err age_counter size max_nallocs ps =
      let offsets = hpdata_find_alloc_offsets ps size max_nallocs in
      let (begun, update) = psset_alloc_update_begin t ps in
      let aged : Hpdata =
        (if hpdata_empty begun then record begun { h_age = age_counter } else begun) in
      let (allocated, addrs) = try_alloc_from has_edata err size 0 offsets aged in
      let posted = hpdata_post_reserve_alloc_offsets allocated size (take (length addrs) offsets) in
      let eligible = hpa_update_purge_hugify_eligibility opts enforce_hugify now posted in
      (psset_alloc_update_end t eligible update, addrs)

  -- The `edata_t` is given by its address and its size.
  unfoldable pub hpa_dalloc_locked : Hpdata → ℕ → ℕ → Hpdata
  hpa_dalloc_locked ps unreserve_addr unreserve_size =
      let (begun, update) = psset_alloc_update_begin t ps in
      let unreserved = hpdata_unreserve begun unreserve_addr unreserve_size in
      let eligible = hpa_update_purge_hugify_eligibility opts enforce_hugify now unreserved in
      psset_alloc_update_end t eligible update
