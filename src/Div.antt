-- ===== src/Div.antt =====
-- src/div.c and include/jemalloc/internal/div.h: exact division by a multiplication and a shift.
pub mod Exact
mod Tests
use jemalloc.Base.{ℕ, ◌+◌, ◌*◌, ◌/◌, ◌%◌, ◌^◌, ◌==◌, if◌then◌else◌, shr, u64}

-- The field `d` of debug builds is left out.
pub record DivInfo : Type 0 where
  pub magic : ℕ

-- `magic` is a `uint32_t`.
unfoldable pub div_init : ℕ → DivInfo
div_init d =
    let two_to_k = 2 ^ 32 in
    let magic = (two_to_k / d) % 2 ^ 32 in
    record { magic = if two_to_k % d == 0 then magic else (magic + 1) % 2 ^ 32 }

unfoldable pub div_compute : DivInfo → ℕ → ℕ
div_compute div_info n = shr (u64 (n * div_info.magic)) 32
