-- ===== src/BitUtil.antt =====
-- include/jemalloc/internal/bit_util.h: the bit searches that the size computations use, on
-- 64-bit words.
mod Tests
pub mod Lg
use jemalloc.Base.{
  ℕ, zero, suc, ◌+◌, ◌-◌, ◌^◌, bit_and, bit_xor, leb, ltb, ◌==◌, if◌then◌else◌, shl64,
}

-- `__builtin_clzl` on `k` bits: how many zero bits stand above the highest one.
unfoldable pub clz : ℕ → ℕ → ℕ
clz zero x = 0
clz (suc k) x = if leb (2 ^ k) x then 0 else suc (clz k x)

unfoldable pub fls_lu : ℕ → ℕ
fls_lu x = bit_xor 63 (clz 64 x)

unfoldable pub fls_u64 : ℕ → ℕ
fls_u64 x = fls_lu x

unfoldable pub pow2_ceil_u64 : ℕ → ℕ
pow2_ceil_u64 x =
    if leb x 1 then x else (let msb_on_index = fls_u64 (x - 1) in shl64 1 (msb_on_index + 1))

unfoldable pub pow2_ceil_zu : ℕ → ℕ
pow2_ceil_zu x = pow2_ceil_u64 x

unfoldable pub lg_floor : ℕ → ℕ
lg_floor x = fls_u64 x

unfoldable pub lg_ceil : ℕ → ℕ
lg_ceil x = lg_floor x + (if bit_and x (x - 1) == 0 then 0 else 1)
