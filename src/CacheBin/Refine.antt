-- ===== src/CacheBin/Refine.antt =====
-- The bin with its 16-bit words refines the stack of `CacheBin.Spec`.
use jemalloc.Base.{ℕ, ◌+◌, ◌-◌, ◌*◌, ◌^◌, ◌≤◌, ◌<◌, ◌≡◌, arith, ◌==◌, length, u16}
use jemalloc.CacheBin.{
  cache_bin_ncached_get_internal, cache_bin_empty_position_get, cache_bin_low_bound_get,
  cache_bin_low_water_get_internal, cache_bin_nstashed_get_internal, cache_bin_full,
}
use jemalloc.CacheBin.Cells.{word, Holds}
use jemalloc.CacheBin.Steps.{State}
use jemalloc.CacheBin.Spec.{Stack, used}

-- The bin's array begins at `base`; its words are the low bits of the addresses that the lengths of
-- the stack give, and memory holds the pointers.
pub record Refines (base : ℕ) (c : State) (s : Stack) : Type 0 where
  pub room : used s ≤ s.capacity
  pub small : word * s.capacity < 2 ^ 16
  pub water_le : s.water ≤ length s.cached
  pub max_eq : c.bin.ncached_max ≡ s.capacity
  pub head_eq : c.bin.stack_head + word * length s.cached ≡ base + word * s.capacity
  pub water_eq : c.bin.low_bits_low_water ≡ u16 (base + word * s.capacity - word * s.water)
  pub full_eq : c.bin.low_bits_full ≡ u16 (base + word * length s.stashed)
  pub empty_eq : c.bin.low_bits_empty ≡ u16 (base + word * s.capacity)
  pub cached_held : Holds c.memory c.bin.stack_head s.cached
  pub stashed_held : Holds c.memory base s.stashed

module _ {base : ℕ} {c : State} {s : Stack} (r : Refines base c s) where
  -- What the 16-bit words say of the stack.
  pub ncached_lem : cache_bin_ncached_get_internal c.bin ≡ length s.cached
  ncached_lem = ground arith

  pub empty_position_lem : cache_bin_empty_position_get c.bin ≡ base + word * s.capacity
  empty_position_lem = ground arith

  pub low_bound_lem : cache_bin_low_bound_get c.bin ≡ base
  low_bound_lem = ground arith

  pub low_water_lem : cache_bin_low_water_get_internal c.bin ≡ s.water
  low_water_lem = ground arith

  pub nstashed_lem : cache_bin_nstashed_get_internal c.bin ≡ length s.stashed
  nstashed_lem = ground arith

  pub full_lem : cache_bin_full c.bin ≡ (used s == s.capacity)
  full_lem = ground arith

  pub at_low_water_lem :
      (u16 c.bin.stack_head == c.bin.low_bits_low_water) ≡ (length s.cached == s.water)
  at_low_water_lem = ground arith

  pub at_empty_lem : (u16 c.bin.stack_head == c.bin.low_bits_empty) ≡ (length s.cached == 0)
  at_empty_lem = ground arith
