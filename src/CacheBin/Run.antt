-- ===== src/CacheBin/Run.antt =====
-- Runs of a cache bin: it behaves as the bounded stack.
use jemalloc.Base.{ℕ, ◌+◌, ◌*◌, ◌%◌, ◌<◌, ◌≡◌, refl, ap₂, arith, Bool, List, [], ◌∷◌, ◌^◌, length}
use jemalloc.CacheBin.{CacheBin, cache_bin_init, cache_bin_nitems_get_remote}
use jemalloc.CacheBin.Cells.{Memory, word}
use jemalloc.CacheBin.Steps.{
  State, Op, alloc_easy, alloc, dalloc, stash, fill, flush, flush_stashed, set_low_water, step, run,
}
use jemalloc.CacheBin.Spec.{Stack, spec_step, spec_run, Allowed, AllAllowed}
use jemalloc.CacheBin.Refine.{Refines}
use jemalloc.CacheBin.Take.{Agrees, alloc_easy-Agrees, alloc-Agrees, dalloc-Agrees, stash-Agrees}
use jemalloc.CacheBin.Batch.{set_low_water-Agrees, flush_stashed-Agrees, fill-Agrees, flush-Agrees}

abbrev pub empty_stack : ℕ → Stack
empty_stack capacity = record { cached = []; stashed = []; water = 0; capacity = capacity }

-- For a capacity whose array takes less than `2 ^ 16` bytes: what `cache_bin_init` leaves, over any
-- memory and any bin before, is the empty stack of that capacity at `block + cur_offset`, and the
-- offset after it is the end of the array.
pub init-Refines :
    (m : Memory) (bin : CacheBin) (capacity block cur_offset : ℕ)
    → word * capacity < 2 ^ 16
    → Refines
        (block + cur_offset)
        (record { memory = m; bin = (cache_bin_init bin capacity block cur_offset).0 })
        (empty_stack capacity)
      × ((cache_bin_init bin capacity block cur_offset).1 ≡ cur_offset + word * capacity)
unfolding cache_bin_init
init-Refines m bin capacity block cur_offset h = (
  record {
    room = omega arith;
    small = h;
    water_le = omega arith;
    max_eq = refl;
    head_eq = omega arith;
    water_eq = omega arith;
    full_eq = omega arith;
    empty_eq = omega arith;
    cached_held = tt;
    stashed_held = tt;
  },
  omega arith,
)

-- `cache_bin_nitems_get_remote`, read between two operations of a bin whose array crosses no multiple of
-- `2 ^ 16`, gives the numbers of pointers cached and stashed.
pub nitems_get_remote-Refines :
    (base : ℕ) (c : State) (s : Stack)
    → base % 2 ^ 16 + word * s.capacity < 2 ^ 16
    → Refines base c s
    → cache_bin_nitems_get_remote c.bin ≡ (length s.cached, length s.stashed)
unfolding cache_bin_nitems_get_remote
nitems_get_remote-Refines base c s inside r = ground arith

module _ (max_scan : ℕ) (config_stats : Bool) (base : ℕ) where
  step-Agrees :
      (op : Op) (c : State) (s : Stack)
      → Refines base c s
      → Allowed op s
      → Agrees base (step max_scan config_stats op c) (spec_step max_scan op s)
  step-Agrees alloc_easy c s r a = alloc_easy-Agrees max_scan config_stats base c s r
  step-Agrees alloc c s r a = alloc-Agrees max_scan config_stats base c s r
  step-Agrees (dalloc ptr) c s r a = dalloc-Agrees max_scan config_stats base ptr c s r
  step-Agrees (stash ptr) c s r a = stash-Agrees max_scan config_stats base ptr c s r
  step-Agrees (fill nfill ptrs) c s r (e, le, fits) =
      fill-Agrees max_scan config_stats base nfill ptrs c s r e le fits
  step-Agrees (flush nflush) c s r a = flush-Agrees max_scan config_stats base nflush c s r a
  step-Agrees flush_stashed c s r a = flush_stashed-Agrees max_scan config_stats base c s r
  step-Agrees set_low_water c s r a = set_low_water-Agrees max_scan config_stats base c s r

-- For every sequence of operations that the assertions allow, from a bin that stands for a stack:
-- every operation returns what the stack's operation returns, refusals and reports included, and the
-- bin stands for the stack again at the end; whatever the options are.
pub run-Refines :
    (max_scan : ℕ) (config_stats : Bool) (base : ℕ) (ops : List Op) (c : State) (s : Stack)
    → Refines base c s
    → AllAllowed max_scan ops s
    → Refines base (run max_scan config_stats ops c).0 (spec_run max_scan ops s).0
      × ((run max_scan config_stats ops c).1 ≡ (spec_run max_scan ops s).1)
unfolding run spec_run
run-Refines max_scan config_stats base [] c s r a = (r, refl)
run-Refines max_scan config_stats base (op ∷ ops) c s r a =
    let (r', same) = step-Agrees max_scan config_stats base op c s r a.0 in
    let (r'', rest) =
      run-Refines max_scan config_stats base ops (step max_scan config_stats op c).0
        (spec_step max_scan op s).0 r' a.1 in
    (r'', ap₂ ◌∷◌ same rest)
