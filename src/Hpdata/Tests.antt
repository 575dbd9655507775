-- ===== src/Hpdata/Tests.antt =====
-- The theorems on hugepages at a fresh hugepage and at one with two pages reserved.
use jemalloc.Base.{◌≡◌, arith, true, shr}
use jemalloc.Sc.Params.{lg_page}
use jemalloc.Hpdata.{hpdata_init, hpdata_unreserve, hpdata_consistent}
use jemalloc.Hpdata.Offsets.{hpdata_find_alloc_offsets}
use jemalloc.Hpdata.Counts.{pages_eq}
use jemalloc.Hpdata.Keep.{init-length}
use jemalloc.Hpdata.Consistent.{init-consistent, unreserve-consistent}
use jemalloc.Hpdata.Samples.{
  memory, reserved, settled, reserved-IsCounted, settled-IsCounted, settled-consistent,
  settled-address, settled-IsUsed,
}
use jemalloc.Hpdata.Carve.{IsFinding, find_alloc_offsets-IsFinding}

find_alloc_offsets-IsFinding_example :
    IsFinding reserved.active_pages
      (shr 8192 lg_page)
      4
      0
      (hpdata_find_alloc_offsets reserved 8192 4)
find_alloc_offsets-IsFinding_example =
    find_alloc_offsets-IsFinding reserved 8192 4 reserved-IsCounted.active_length (omega arith)

unreserve-consistent_example : hpdata_consistent (hpdata_unreserve settled 12288 8192) ≡ true
unreserve-consistent_example =
    unreserve-consistent settled 12288 8192 3 settled-IsCounted settled-consistent
      (omega (arith, settled-address)) (omega arith) (omega (arith, pages_eq)) settled-IsUsed

init-consistent_example : hpdata_consistent (hpdata_init memory 0 7 true) ≡ true
init-consistent_example = init-consistent memory 0 7 true init-length
