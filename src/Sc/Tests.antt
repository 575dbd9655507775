-- ===== src/Sc/Tests.antt =====
-- The slab size theorem at a concrete class, and the table against the constants of sc.h.
use jemalloc.Base.{ℕ, ◌*◌, ◌%◌, ◌^◌, ◌≤◌, ◌<◌, ◌≡◌, ◌≢◌, refl, arith, some}
use jemalloc.BitUtil.{clz, fls_lu, fls_u64, lg_floor, lg_ceil}
use jemalloc.Sc.{reg_size_compute, slab_loop, slab_size, size_class}
use jemalloc.Sc.Build.{
  tiny_loop, first_pseudo, pseudo_loop, group_loop, regular_loop, size_classes, sc_data_init,
}
use jemalloc.Sc.Params.{
  sc_nsizes, sc_npsizes, sc_nbins, sc_ntiny, sc_lookup_maxclass, sc_small_maxclass,
  sc_large_minclass, sc_large_maxclass, sc_lg_tiny_maxclass,
}
use jemalloc.Sc.Slab.{slab_size_lem}

constants :
    (sc_data_init.nsizes ≡ sc_nsizes)
    × (sc_data_init.npsizes ≡ sc_npsizes)
    × (sc_data_init.nbins ≡ sc_nbins)
    × (sc_data_init.ntiny ≡ sc_ntiny)
    × (sc_data_init.lg_tiny_maxclass ≡ some sc_lg_tiny_maxclass)
    × (sc_data_init.lookup_maxclass ≡ sc_lookup_maxclass)
    × (sc_data_init.small_maxclass ≡ sc_small_maxclass)
    × (sc_data_init.large_minclass ≡ sc_large_minclass)
    × (sc_data_init.large_maxclass ≡ sc_large_maxclass)
unfolding sc_data_init size_classes tiny_loop first_pseudo pseudo_loop group_loop regular_loop
    size_class slab_size slab_loop reg_size_compute lg_ceil lg_floor fls_u64 fls_lu clz
constants = (refl, refl, refl, refl, refl, refl, refl, refl, refl)

-- Regions of 80 bytes: 5 pages.
slab_size_lem_example :
    (0 < 5)
    × (5 < 2 ^ 31)
    × (5 ≤ 80)
    × (5 * 4096 % 80 ≡ 0)
    × ((j : ℕ) → 0 < j → j < 5 → j * 4096 % 80 ≢ 0)
unfolding slab_size slab_loop reg_size_compute
slab_size_lem_example =
    slab_size_lem 12 6 4 1 (omega arith) (omega arith) (omega arith) (omega arith)
