-- ===== src/Hpa/Handlers.antt =====
-- The allocation and deallocation handlers of src/hpa.c, from the begin of the update of the hugepage to
-- its end, where src/psset.c asserts `hpdata_consistent`.
use jemalloc.Base.{
  ◌⊎◌, ℕ, ◌+◌, ◌*◌, ◌^◌, ◌≤◌, ◌<◌, ◌≡◌, sym, ap, ◌∙◌, Bool, true, false, length, shr, sub64,
}
use jemalloc.Sc.Params.{lg_page}
use jemalloc.Fb.{fb_urange_longest}
use jemalloc.Sz.Table.{Tables}
use jemalloc.Hpdata.{Hpdata, hugepage_pages, hpdata_consistent, hpdata_unreserve}
use jemalloc.Hpdata.Counts.{IsCounted, IsUsed}
use jemalloc.Hpdata.Carve.{NoRoom}
use jemalloc.Hpdata.Keep.{unreserve-IsCounted}
use jemalloc.Hpdata.Consistent.{consistent-longest, unreserve-consistent}
use jemalloc.Hpdata.Offsets.{hpdata_find_alloc_offsets}
use jemalloc.Psset.{
  PssetAllocUpdate, psset_alloc_update_begin, psset_alloc_update_end, psset_update_begin_impl,
}
use jemalloc.Psset.Update.{begin-IsCounted, begin_consistent, end_consistent, update_nactive}
use jemalloc.Hpa.{alloc_at_offsets}
use jemalloc.Hpa.Alloc.{alloc_at_offsets-consistent, alloc_at_offsets_progress}
use jemalloc.Hpa.Eligible.{HpaShardOpts, hpa_update_purge_hugify_eligibility}
use jemalloc.Hpa.Settle.{update_purge_hugify_eligibility_lem}
use jemalloc.Hpa.Shard.{hpa_try_alloc_from_one_ps, hpa_dalloc_locked}

module _ (t : Tables) (opts : HpaShardOpts) (enforce_hugify : Bool) (now : ℕ) where
  -- How both handlers end.
  abbrev settled : Hpdata → PssetAllocUpdate → Hpdata
  settled h update =
      psset_alloc_update_end t (hpa_update_purge_hugify_eligibility opts enforce_hugify now h)
        update

  settled_consistent :
      (h : Hpdata) (update : PssetAllocUpdate)
      → IsCounted h
      → hpdata_consistent h ≡ true
      → IsCounted (settled h update)
        × (hpdata_consistent (settled h update) ≡ true)
        × ((settled h update).h_nactive ≡ h.h_nactive)
  settled_consistent h update c ok =
      let x = update_purge_hugify_eligibility_lem opts enforce_hugify now h c in
      let e = hpa_update_purge_hugify_eligibility opts enforce_hugify now h in
      let (longest, flags) = consistent-longest h ok in
      let (counted, consistent) =
        end_consistent t e update x.kept.counted
          (x.kept.longest
            ∙ longest
            ∙ ap (λ fb. fb_urange_longest fb hugepage_pages) (sym x.kept.active))
          x.calm in
      (counted, consistent, (update_nactive t h e update).1 ∙ x.kept.nactive)

  -- For a hugepage below 2 ^ 64 that is counted and that `hpdata_consistent` accepts, and a size of at
  -- least one page: whatever registrations of a batch fail and whatever the options are, the hugepage
  -- that `hpa_try_alloc_from_one_ps` leaves is counted and `hpdata_consistent` accepts it, and its
  -- active pages have grown by those of the addresses that it gives out.
  pub try_alloc_from_one_ps-consistent :
      (has_edata : ℕ → Bool) (err : ℕ → Bool) (age_counter size max_nallocs : ℕ) (h : Hpdata)
      → IsCounted h
      → hpdata_consistent h ≡ true
      → h.h_address < 2 ^ 64
      → 0 < shr size lg_page
      → IsCounted
          (hpa_try_alloc_from_one_ps t opts enforce_hugify now has_edata err age_counter size
            max_nallocs h).0
        × (hpdata_consistent
              (hpa_try_alloc_from_one_ps t opts enforce_hugify now has_edata err age_counter size
                max_nallocs h).0
            ≡ true)
        × ((hpa_try_alloc_from_one_ps t opts enforce_hugify now has_edata err age_counter size
              max_nallocs h).0.h_nactive
            ≡ h.h_nactive
              + shr size lg_page
                * length
                    (hpa_try_alloc_from_one_ps t opts enforce_hugify now has_edata err age_counter
                      size max_nallocs h).1)
  unfolding hpa_try_alloc_from_one_ps psset_alloc_update_begin psset_update_begin_impl
      alloc_at_offsets hpdata_find_alloc_offsets
  try_alloc_from_one_ps-consistent has_edata err age_counter size max_nallocs h c ok word
        some_pages =
      let (begun, update) = psset_alloc_update_begin t h in
      let (counted, consistent, more) =
        alloc_at_offsets-consistent has_edata err age_counter size max_nallocs begun
          (begin-IsCounted t h c) (begin_consistent t h c ok) word some_pages in
      let (counted', consistent', same) =
        settled_consistent (alloc_at_offsets has_edata err age_counter size max_nallocs begun).0
          update counted consistent in
      (counted', consistent', same ∙ more)

  -- For a hugepage that is counted and a size of at least one page, where no `edata_t` is missing, no
  -- registration fails and at least one address is asked for: `hpa_try_alloc_from_one_ps` gives out at
  -- most `max_nallocs` addresses, and it gives one out or no free range of the hugepage is long enough.
  pub try_alloc_from_one_ps_progress :
      (has_edata : ℕ → Bool) (err : ℕ → Bool) (age_counter size max_nallocs : ℕ) (h : Hpdata)
      → IsCounted h
      → 0 < shr size lg_page
      → ((k : ℕ) → has_edata k ≡ true)
      → ((addr : ℕ) → err addr ≡ false)
      → 0 < max_nallocs
      → (length
            (hpa_try_alloc_from_one_ps t opts enforce_hugify now has_edata err age_counter size
              max_nallocs h).1
          ≤ max_nallocs)
        × ((0
              < length
                  (hpa_try_alloc_from_one_ps t opts enforce_hugify now has_edata err age_counter
                    size max_nallocs h).1)
            ⊎ NoRoom h.active_pages (shr size lg_page) 0)
  unfolding hpa_try_alloc_from_one_ps psset_alloc_update_begin psset_update_begin_impl
      alloc_at_offsets hpdata_find_alloc_offsets
  try_alloc_from_one_ps_progress has_edata err age_counter size max_nallocs h c some_pages has good
        asked =
      alloc_at_offsets_progress has_edata err age_counter size max_nallocs
        (psset_alloc_update_begin t h).0 c.active_length some_pages has good asked

  -- For a hugepage that is counted and that `hpdata_consistent` accepts, and a range of its pages, at
  -- least one, that are all active: the hugepage that `hpa_dalloc_locked` leaves is counted,
  -- `hpdata_consistent` accepts it, and its active pages have shrunk by the range.
  pub dalloc_locked-consistent :
      (h : Hpdata) (addr size begin : ℕ)
      → IsCounted h
      → hpdata_consistent h ≡ true
      → begin ≡ shr (sub64 addr h.h_address) lg_page
      → 0 < shr size lg_page
      → begin + shr size lg_page ≤ hugepage_pages
      → IsUsed h.active_pages begin (shr size lg_page)
      → IsCounted (hpa_dalloc_locked t opts enforce_hugify now h addr size)
        × (hpdata_consistent (hpa_dalloc_locked t opts enforce_hugify now h addr size) ≡ true)
        × ((hpa_dalloc_locked t opts enforce_hugify now h addr size).h_nactive + shr size lg_page
            ≡ h.h_nactive)
  unfolding hpa_dalloc_locked psset_alloc_update_begin psset_update_begin_impl
  dalloc_locked-consistent h addr size begin c ok at some_pages fits used =
      let (begun, update) = psset_alloc_update_begin t h in
      let (counted, less) =
        unreserve-IsCounted begun addr size begin (begin-IsCounted t h c) at some_pages fits used in
      let consistent =
        unreserve-consistent begun addr size begin (begin-IsCounted t h c)
          (begin_consistent t h c ok) at some_pages fits used in
      let (counted', consistent', same) =
        settled_consistent (hpdata_unreserve begun addr size) update counted consistent in
      (counted', consistent', ap (λ x. x + shr size lg_page) same ∙ less)
