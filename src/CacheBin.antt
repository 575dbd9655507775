-- ===== src/CacheBin.antt =====
-- include/jemalloc/internal/cache_bin.h and src/cache_bin.c: a stack of cached pointers, and below it
-- the stashed ones, in an array that grows down. Only `stack_head` is a whole address; of the others
-- the bin keeps 16 bits. Addresses count bytes; the memory is passed along.
mod Tests
pub mod Cells
pub mod Held
pub mod Steps
pub mod Spec
pub mod Refine
pub mod Take
pub mod Batch
pub mod Run
pub mod Conserve
pub mod Layout
use jemalloc.Base.{
  ℕ, zero, suc, ◌+◌, ◌-◌, ◌*◌, ◌/◌, ◌%◌, ◌^◌, Bool, true, false, not, Option, none, some, List, [],
  ◌∷◌, ltb, ◌==◌, if◌then◌else◌, u16, sub64, sub16, min,
}
use Cells.{Memory, word, store, memmove, load_all}

-- `bin_info` is its one field, `ncached_max`, and `tstats` its `nrequests`.
pub record CacheBin : Type 0 where
  pub stack_head : ℕ
  pub nrequests : ℕ
  pub low_bits_low_water : ℕ
  pub low_bits_full : ℕ
  pub low_bits_empty : ℕ
  pub ncached_max : ℕ

abbrev pub cache_bin_diff : ℕ → ℕ → ℕ
cache_bin_diff earlier later = sub16 later earlier

abbrev pub cache_bin_ncached_get_internal : CacheBin → ℕ
cache_bin_ncached_get_internal bin = cache_bin_diff (u16 bin.stack_head) bin.low_bits_empty / word

abbrev pub cache_bin_empty_position_get : CacheBin → ℕ
cache_bin_empty_position_get bin =
    bin.stack_head + cache_bin_diff (u16 bin.stack_head) bin.low_bits_empty

abbrev pub cache_bin_low_bits_low_bound_get : CacheBin → ℕ
cache_bin_low_bits_low_bound_get bin = sub16 bin.low_bits_empty (u16 (bin.ncached_max * word))

-- The array stands in memory, so the difference of the addresses is not negative.
abbrev pub cache_bin_low_bound_get : CacheBin → ℕ
cache_bin_low_bound_get bin = cache_bin_empty_position_get bin - bin.ncached_max * word

abbrev pub cache_bin_low_water_get_internal : CacheBin → ℕ
cache_bin_low_water_get_internal bin =
    cache_bin_diff bin.low_bits_low_water bin.low_bits_empty / word

abbrev pub cache_bin_nstashed_get_internal : CacheBin → ℕ
cache_bin_nstashed_get_internal bin =
    cache_bin_diff (cache_bin_low_bits_low_bound_get bin) bin.low_bits_full / word

-- The second difference is an `int`, which the division converts to `size_t`.
unfoldable pub cache_bin_nitems_get_remote : CacheBin → ℕ × ℕ
cache_bin_nitems_get_remote bin = (
  sub16 bin.low_bits_empty (u16 bin.stack_head) / word,
  u16 (sub64 bin.low_bits_full (cache_bin_low_bits_low_bound_get bin) / word),
)

unfoldable pub cache_bin_low_water_set : CacheBin → CacheBin
cache_bin_low_water_set bin = record bin { low_bits_low_water = u16 bin.stack_head }

unfoldable pub cache_bin_low_water_adjust : CacheBin → CacheBin
cache_bin_low_water_adjust bin =
    if ltb (cache_bin_ncached_get_internal bin) (cache_bin_low_water_get_internal bin)
    then cache_bin_low_water_set bin
    else bin

-- The pointer is `none` where `*success` is false.
unfoldable pub cache_bin_alloc_impl : Memory → CacheBin → Bool → CacheBin × Option ℕ
cache_bin_alloc_impl m bin adjust_low_water =
    let ret = m bin.stack_head in
    let low_bits = u16 bin.stack_head in
    let new_head = bin.stack_head + word in
    if not (low_bits == bin.low_bits_low_water)
    then (record bin { stack_head = new_head }, some ret)
    else if not adjust_low_water
    then (bin, none)
    else if not (low_bits == bin.low_bits_empty)
    then (record bin { stack_head = new_head; low_bits_low_water = u16 new_head }, some ret)
    else (bin, none)

unfoldable pub cache_bin_alloc_easy : Memory → CacheBin → CacheBin × Option ℕ
cache_bin_alloc_easy m bin = cache_bin_alloc_impl m bin false

unfoldable pub cache_bin_alloc : Memory → CacheBin → CacheBin × Option ℕ
cache_bin_alloc m bin = cache_bin_alloc_impl m bin true

abbrev pub cache_bin_full : CacheBin → Bool
cache_bin_full bin = u16 bin.stack_head == bin.low_bits_full

-- The loop of the safety check over `n` cells from `cur` on.
unfoldable pub scan : Memory → ℕ → ℕ → ℕ → Bool
scan m ptr cur zero = false
scan m ptr cur (suc n) = let rest = scan m ptr (cur + word) n in if m cur == ptr then true else rest

-- `max_scan` is `opt_debug_double_free_max_scan`, and 0 where `config_debug` is off.
unfoldable pub cache_bin_dalloc_safety_checks : ℕ → Memory → CacheBin → ℕ → Bool
cache_bin_dalloc_safety_checks max_scan m bin ptr =
    if max_scan == 0
    then false
    else scan m ptr bin.stack_head (min max_scan (cache_bin_ncached_get_internal bin))

pub data Freed : Type 0 where
  full : Freed
  double_free : Freed
  cached : Freed

-- The results `false`, and `true` with and without `safety_check_fail`.
unfoldable pub cache_bin_dalloc_easy : ℕ → Memory → CacheBin → ℕ → Memory × CacheBin × Freed
cache_bin_dalloc_easy max_scan m bin ptr =
    let head = bin.stack_head - word in
    if cache_bin_full bin
    then (m, bin, full)
    else if cache_bin_dalloc_safety_checks max_scan m bin ptr
    then (m, bin, double_free)
    else (store m head ptr, record bin { stack_head = head }, cached)

unfoldable pub cache_bin_stash : Memory → CacheBin → ℕ → Memory × CacheBin × Bool
cache_bin_stash m bin ptr =
    let diff = cache_bin_diff bin.low_bits_full (u16 bin.stack_head) in
    if cache_bin_full bin then (m, bin, false) else (
      store m (bin.stack_head - diff) ptr,
      record bin { low_bits_full = u16 (bin.low_bits_full + word) },
      true,
    )

-- The array for a fill of `nfill` pointers begins here.
unfoldable pub cache_bin_init_ptr_array_for_fill : CacheBin → ℕ → ℕ
cache_bin_init_ptr_array_for_fill bin nfill = cache_bin_empty_position_get bin - nfill * word

-- The statistics start again where `config_stats` is on.
abbrev pub merged : Bool → ℕ → ℕ
merged config_stats nrequests = if config_stats then 0 else nrequests

unfoldable pub cache_bin_finish_fill : Bool → Memory → CacheBin → ℕ → ℕ → Memory × CacheBin
cache_bin_finish_fill config_stats m bin nfill nfilled =
    let empty_position = cache_bin_empty_position_get bin in
    (
      if ltb nfilled nfill
          then memmove m (empty_position - nfilled * word) (empty_position - nfill * word) nfilled
          else m,
      record bin {
        stack_head = empty_position - nfilled * word;
        nrequests = merged config_stats bin.nrequests;
      },
    )

unfoldable pub cache_bin_init_ptr_array_for_flush : CacheBin → ℕ → ℕ
cache_bin_init_ptr_array_for_flush bin nflush = cache_bin_empty_position_get bin - nflush * word

-- The flushed pointers are at most the cached ones, so `rem` does not wrap.
unfoldable pub cache_bin_finish_flush : Bool → Memory → CacheBin → ℕ → Memory × CacheBin
cache_bin_finish_flush config_stats m bin nflushed =
    let rem = cache_bin_ncached_get_internal bin - nflushed in
    let head = bin.stack_head + nflushed * word in
    let adjusted = cache_bin_low_water_adjust (record bin { stack_head = head }) in
    (
      memmove m head bin.stack_head rem,
      record adjusted { nrequests = merged config_stats adjusted.nrequests },
    )

unfoldable pub cache_bin_init_ptr_array_for_stashed : CacheBin → ℕ
cache_bin_init_ptr_array_for_stashed bin = cache_bin_low_bound_get bin

unfoldable pub cache_bin_finish_flush_stashed : Bool → CacheBin → CacheBin
cache_bin_finish_flush_stashed config_stats bin = record bin {
  low_bits_full = u16 (cache_bin_low_bound_get bin);
  nrequests = merged config_stats bin.nrequests;
}

-- `cur_offset` is the offset of the bin's array in the block at `alloc`; the offset after it is
-- returned.
unfoldable pub cache_bin_init : CacheBin → ℕ → ℕ → ℕ → CacheBin × ℕ
cache_bin_init bin ncached_max alloc cur_offset =
    let full_position = alloc + cur_offset in
    let after = cur_offset + u16 (ncached_max * word) in
    let empty_position = alloc + after in
    (
      record bin {
        stack_head = empty_position;
        low_bits_low_water = u16 empty_position;
        low_bits_full = u16 full_position;
        low_bits_empty = u16 empty_position;
        ncached_max = ncached_max;
      },
      after,
    )
