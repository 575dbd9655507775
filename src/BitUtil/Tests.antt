-- ===== src/BitUtil/Tests.antt =====
-- Runs of the logarithms of bit_util.h, and its theorems at concrete words.
use jemalloc.Base.{suc, ◌^◌, ◌≤◌, ◌<◌, ◌≡◌, refl, arith}
use jemalloc.BitUtil.{clz, fls_lu, fls_u64, lg_floor, lg_ceil, pow2_ceil_u64, pow2_ceil_zu}
use jemalloc.BitUtil.Lg.{lg_floor_lem}

runs : (lg_floor 4097 ≡ 12) × (lg_ceil 4097 ≡ 13) × (lg_ceil 4096 ≡ 12) × (pow2_ceil_zu 65 ≡ 128)
unfolding lg_floor lg_ceil pow2_ceil_zu pow2_ceil_u64 fls_u64 fls_lu clz
runs = (refl, refl, refl, refl)

lg_floor_lem_example :
    (lg_floor 4097 < 64) × (2 ^ lg_floor 4097 ≤ 4097) × (4097 < 2 ^ suc (lg_floor 4097))
lg_floor_lem_example = lg_floor_lem 4097 (omega arith) (omega arith)
