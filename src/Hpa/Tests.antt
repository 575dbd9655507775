-- ===== src/Hpa/Tests.antt =====
-- The default options of include/jemalloc/internal/hpa_opts.h; the theorems on the handlers at a fresh hugepage, where the third registration fails, and at one with
-- two pages reserved.
use jemalloc.Base.{
  List, ℕ, ◌+◌, ◌*◌, ◌<◌, ◌≤◌, ◌≡◌, ◌⊎◌, refl, arith, Bool, true, false, ◌==◌, length, shr,
}
use jemalloc.Sc.Params.{lg_page}
use jemalloc.Sc.Build.{sc_data_init}
use jemalloc.Sz.Table.{Tables, sz_boot}
use jemalloc.Hpdata.{Hpdata, hpdata_consistent}
use jemalloc.Hpdata.Counts.{IsCounted, pages_eq}
use jemalloc.Hpdata.Carve.{NoRoom}
use jemalloc.Hpdata.Samples.{
  fresh, fresh-IsCounted, fresh-consistent, fresh-address, settled, settled-IsCounted,
  settled-consistent, settled-address, settled-IsUsed,
}
use jemalloc.Psset.{psset_alloc_update_begin, psset_alloc_update_end}
use jemalloc.Psset.Update.{alloc_update_membership}
use jemalloc.Hpa.Eligible.{HpaShardOpts, hugify_style_lazy, hpa_update_purge_hugify_eligibility}
use jemalloc.Hpa.Settle.{IsEligible, update_purge_hugify_eligibility_lem}
use jemalloc.Hpa.Shard.{hpa_try_alloc_from_one_ps, hpa_dalloc_locked}
use jemalloc.Hpa.Handlers.{
  try_alloc_from_one_ps-consistent, try_alloc_from_one_ps_progress, dalloc_locked-consistent,
}

abbrev tables : Tables
tables = sz_boot sc_data_init true

abbrev opts : HpaShardOpts
opts = record {
  slab_max_alloc = 65536;
  hugification_threshold = 1992294;
  dirty_mult = 16384;
  deferral_allowed = false;
  hugify_delay_ms = 10000;
  hugify_sync = false;
  min_purge_interval_ms = 5000;
  purge_threshold = 4096;
  hugify_style = hugify_style_lazy;
}

abbrev third_fails : ℕ → Bool
third_fails addr = addr == 2 * 8192

abbrev third_failed : Hpdata × List ℕ
third_failed = hpa_try_alloc_from_one_ps tables opts false 5 (λ k. true) third_fails 9 8192 4 fresh

try_alloc_from_one_ps-consistent_example :
    IsCounted third_failed.0
    × (hpdata_consistent third_failed.0 ≡ true)
    × (third_failed.0.h_nactive ≡ fresh.h_nactive + shr 8192 lg_page * length third_failed.1)
try_alloc_from_one_ps-consistent_example =
    try_alloc_from_one_ps-consistent tables opts false 5 (λ k. true) third_fails 9 8192 4 fresh
      fresh-IsCounted fresh-consistent (omega (arith, fresh-address)) (omega arith)

abbrev none_failed : Hpdata × List ℕ
none_failed =
    hpa_try_alloc_from_one_ps tables opts false 5 (λ k. true) (λ addr. false) 9 8192 4 fresh

try_alloc_from_one_ps_progress_example :
    (length none_failed.1 ≤ 4)
    × ((0 < length none_failed.1) ⊎ NoRoom fresh.active_pages (shr 8192 lg_page) 0)
try_alloc_from_one_ps_progress_example =
    try_alloc_from_one_ps_progress tables opts false 5 (λ k. true) (λ addr. false) 9 8192 4 fresh
      fresh-IsCounted (omega arith) (λ k. refl) (λ addr. refl) (omega arith)

dalloc_locked-consistent_example :
    IsCounted (hpa_dalloc_locked tables opts false 5 settled 12288 8192)
    × (hpdata_consistent (hpa_dalloc_locked tables opts false 5 settled 12288 8192) ≡ true)
    × ((hpa_dalloc_locked tables opts false 5 settled 12288 8192).h_nactive + shr 8192 lg_page
        ≡ settled.h_nactive)
dalloc_locked-consistent_example =
    dalloc_locked-consistent tables opts false 5 settled 12288 8192 3 settled-IsCounted
      settled-consistent (omega (arith, settled-address)) (omega arith) (omega (arith, pages_eq))
      settled-IsUsed

update_purge_hugify_eligibility_lem_example :
    IsEligible settled (hpa_update_purge_hugify_eligibility opts false 5 settled)
update_purge_hugify_eligibility_lem_example =
    update_purge_hugify_eligibility_lem opts false 5 settled settled-IsCounted

alloc_update_membership_example :
    (psset_alloc_update_end tables
      (psset_alloc_update_begin tables settled).0
      (psset_alloc_update_begin tables settled).1).h_in_psset_alloc_container
    ≡ (psset_alloc_update_end tables
        (psset_alloc_update_begin tables settled).0
        (psset_alloc_update_begin tables settled).1).h_alloc_allowed
alloc_update_membership_example =
    alloc_update_membership tables settled (psset_alloc_update_begin tables settled).0 refl
