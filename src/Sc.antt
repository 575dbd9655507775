-- ===== src/Sc.antt =====
-- src/sc.c and include/jemalloc/internal/sc.h: the size class table. An `int` that the C code only
-- counts up is a number, one that a `size_t` is converted to its 32 bits; sizes are 64-bit words. The
-- output parameters are results.
mod Tests
pub mod Params
pub mod Build
pub mod Slab
use jemalloc.Base.{
  ℕ, zero, suc, ◌+◌, ◌-◌, ◌*◌, ◌/◌, ◌%◌, ◌^◌, Bool, true, false, ◌||◌, ◌&&◌, Option, none, some,
  List, [], ◌∷◌, ltb, leb, ◌==◌, if◌then◌else◌, u32, u64, shl64,
}

-- `struct sc_s`.
pub record Sc : Type 0 where
  pub index : ℕ
  pub lg_base : ℕ
  pub lg_delta : ℕ
  pub ndelta : ℕ
  pub psz : Bool
  pub bin : Bool
  pub pgs : ℕ
  pub lg_delta_lookup : ℕ

unfoldable pub reg_size_compute : ℕ → ℕ → ℕ → ℕ
reg_size_compute lg_base lg_delta ndelta = u64 (shl64 1 lg_base + shl64 ndelta lg_delta)

-- The loop of `slab_size`, with fuel; `none` means that the fuel ran out. It leaves the loop in the
-- round after `try_slab_size` was a multiple of the region size.
unfoldable pub slab_loop : ℕ → ℕ → ℕ → ℕ → ℕ → Option ℕ
slab_loop zero page reg_size try_slab_size try_nregs = none
slab_loop (suc fuel) page reg_size try_slab_size try_nregs =
    let next = u64 (try_slab_size + page) in
    let rest = slab_loop fuel page reg_size next (next / reg_size) in
    if try_slab_size == u64 (try_nregs * reg_size) then some try_slab_size else rest

-- The number of pages in a slab, as an `int`. `reg_size` rounds are enough (`Sc.Slab`).
unfoldable pub slab_size : ℕ → ℕ → ℕ → ℕ → ℕ
slab_size lg_page lg_base lg_delta ndelta =
    let page = shl64 1 lg_page in
    let reg_size = reg_size_compute lg_base lg_delta ndelta in
    elim (slab_loop reg_size page reg_size page (page / reg_size)) [
      | none ↦ 0
      | some perfect_slab_size ↦ u32 (perfect_slab_size / page)
    ]

unfoldable pub size_class : ℕ → ℕ → ℕ → ℕ → ℕ → ℕ → ℕ → Sc
size_class lg_max_lookup lg_page lg_ngroup index lg_base lg_delta ndelta =
    let size = reg_size_compute lg_base lg_delta ndelta in
    let bin = ltb size (shl64 1 (lg_page + lg_ngroup)) in
    record {
      index = index;
      lg_base = lg_base;
      lg_delta = lg_delta;
      ndelta = ndelta;
      psz = size % shl64 1 lg_page == 0;
      bin = bin;
      pgs = if bin then slab_size lg_page lg_base lg_delta ndelta else 0;
      lg_delta_lookup = if leb size (shl64 1 lg_max_lookup) then lg_delta else 0;
    }

-- `struct sc_data_s`; `lg_tiny_maxclass` is `none` for -1.
pub record ScData : Type 0 where
  pub ntiny : ℕ
  pub nlbins : ℕ
  pub nbins : ℕ
  pub nsizes : ℕ
  pub lg_ceil_nsizes : ℕ
  pub npsizes : ℕ
  pub lg_tiny_maxclass : Option ℕ
  pub lookup_maxclass : ℕ
  pub small_maxclass : ℕ
  pub lg_large_minclass : ℕ
  pub large_minclass : ℕ
  pub large_maxclass : ℕ
  pub initialized : Bool
  pub sc : List Sc

-- `sc_data_update_sc_slab_size`: the page count of one class, from a guess. `bitmap_bits` is
-- BITMAP_BITS.
unfoldable pub sc_data_update_sc_slab_size : ℕ → ℕ → Sc → ℕ → ℕ → Sc
sc_data_update_sc_slab_size page bitmap_bits sc reg_size pgs_guess =
    let min_pgs = reg_size / page + (if reg_size % page == 0 then 0 else 1) in
    let max_pgs = u64 (bitmap_bits * reg_size) / page in
    if ltb pgs_guess min_pgs
    then record sc { pgs = u32 min_pgs }
    else (if ltb max_pgs pgs_guess
        then record sc { pgs = u32 max_pgs }
        else record sc { pgs = u32 pgs_guess })

-- An `int`, given by its 32 bits, converted to `size_t`.
abbrev pub size_of_int : ℕ → ℕ
size_of_int n = if ltb n (2 ^ 31) then n else n + (2 ^ 64 - 2 ^ 32)

-- The loop of `sc_data_update_slab_size`, which stops at the first class that is no bin.
unfoldable pub update_from : ℕ → ℕ → ℕ → ℕ → ℕ → List Sc → List Sc
update_from page bitmap_bits begin end pgs [] = []
update_from page bitmap_bits begin end pgs (sc ∷ rest) =
    let reg_size = reg_size_compute sc.lg_base sc.lg_delta sc.ndelta in
    let sc' =
      (if leb begin reg_size && leb reg_size end
        then sc_data_update_sc_slab_size page bitmap_bits sc reg_size (size_of_int pgs)
        else sc) in
    let rest' = update_from page bitmap_bits begin end pgs rest in
    if sc.bin then sc' ∷ rest' else sc ∷ rest

unfoldable pub sc_data_update_slab_size : ℕ → ℕ → ScData → ℕ → ℕ → ℕ → ScData
sc_data_update_slab_size page bitmap_bits d begin end pgs = record d {
  sc = update_from page bitmap_bits begin end pgs d.sc;
}
