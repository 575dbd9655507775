-- ===== src/CacheBin/Steps.antt =====
-- The operations on a cache bin in one step function: what a thread does to its bin, and the fills
-- and flushes as the arena and the thread cache make them around the functions of cache_bin.h.
use jemalloc.Base.{ℕ, Bool, true, false, Option, none, some, List, [], ◌∷◌, length}
use jemalloc.CacheBin.{
  CacheBin, Freed, full, double_free, cached, cache_bin_alloc_easy, cache_bin_alloc,
  cache_bin_dalloc_easy, cache_bin_stash, cache_bin_init_ptr_array_for_fill, cache_bin_finish_fill,
  cache_bin_init_ptr_array_for_flush, cache_bin_finish_flush, cache_bin_init_ptr_array_for_stashed,
  cache_bin_nstashed_get_internal, cache_bin_finish_flush_stashed, cache_bin_low_water_set,
}
use jemalloc.CacheBin.Cells.{Memory, store_all, load_all}

pub data Op : Type 0 where
  alloc_easy : Op
  alloc : Op
  dalloc : ℕ → Op
  stash : ℕ → Op
  -- A fill for so many pointers that gets these.
  fill : ℕ → List ℕ → Op
  flush : ℕ → Op
  flush_stashed : Op
  set_low_water : Op

pub data Outcome : Type 0 where
  done : Outcome
  refused : Outcome
  reported : Outcome
  got : ℕ → Outcome
  flushed : List ℕ → Outcome

pub record State : Type 0 where
  pub memory : Memory
  pub bin : CacheBin

abbrev pub taken : Option ℕ → Outcome
taken none = refused
taken (some p) = got p

abbrev pub freed : Freed → Outcome
freed full = refused
freed double_free = reported
freed cached = done

abbrev pub stashed : Bool → Outcome
stashed true = done
stashed false = refused

-- `max_scan` and `config_stats` are the options that the code reads.
module _ (max_scan : ℕ) (config_stats : Bool) where
  unfoldable pub step : Op → State → State × Outcome
  step alloc_easy s =
      let (bin, ptr) = cache_bin_alloc_easy s.memory s.bin in (record s { bin = bin }, taken ptr)
  step alloc s =
      let (bin, ptr) = cache_bin_alloc s.memory s.bin in (record s { bin = bin }, taken ptr)
  step (dalloc ptr) s =
      let (m, bin, r) = cache_bin_dalloc_easy max_scan s.memory s.bin ptr in
      (record { memory = m; bin = bin }, freed r)
  step (stash ptr) s =
      let (m, bin, r) = cache_bin_stash s.memory s.bin ptr in
      (record { memory = m; bin = bin }, stashed r)
  step (fill nfill ptrs) s =
      let filled = store_all s.memory (cache_bin_init_ptr_array_for_fill s.bin nfill) ptrs in
      let (m, bin) = cache_bin_finish_fill config_stats filled s.bin nfill (length ptrs) in
      (record { memory = m; bin = bin }, done)
  step (flush nflush) s =
      let ptrs = load_all s.memory (cache_bin_init_ptr_array_for_flush s.bin nflush) nflush in
      let (m, bin) = cache_bin_finish_flush config_stats s.memory s.bin nflush in
      (record { memory = m; bin = bin }, flushed ptrs)
  step flush_stashed s =
      let ptrs =
        load_all s.memory (cache_bin_init_ptr_array_for_stashed s.bin)
          (cache_bin_nstashed_get_internal s.bin) in
      (record s { bin = cache_bin_finish_flush_stashed config_stats s.bin }, flushed ptrs)
  step set_low_water s = (record s { bin = cache_bin_low_water_set s.bin }, done)

  -- A run of operations, and what each returned.
  unfoldable pub run : List Op → State → State × List Outcome
  run [] s = (s, [])
  run (op ∷ ops) s =
      let (s', outcome) = step op s in let (s'', outcomes) = run ops s' in (s'', outcome ∷ outcomes)
