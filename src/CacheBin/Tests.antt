-- ===== src/CacheBin/Tests.antt =====
-- A run of a bin whose array crosses a multiple of `2 ^ 16`, and the theorems at that bin.
use jemalloc.Base.{ℕ, ◌+◌, ◌-◌, ◌*◌, ◌≡◌, refl, arith, true, List, [], ◌∷◌}
use jemalloc.CacheBin.{
  CacheBin, cache_bin_init, cache_bin_alloc, cache_bin_alloc_easy, cache_bin_alloc_impl,
  cache_bin_dalloc_easy, cache_bin_dalloc_safety_checks, scan, cache_bin_stash,
  cache_bin_finish_fill, cache_bin_init_ptr_array_for_fill, cache_bin_finish_flush,
  cache_bin_init_ptr_array_for_flush, cache_bin_low_water_adjust, cache_bin_low_water_set,
  cache_bin_finish_flush_stashed, cache_bin_init_ptr_array_for_stashed,
}
use jemalloc.CacheBin.Cells.{Memory, word, store, store_all, load_all, memmove}
use jemalloc.CacheBin.Steps.{
  State, Op, alloc_easy, alloc, dalloc, stash, fill, flush, flush_stashed, set_low_water, done,
  refused, reported, got, flushed, step, run,
}
use jemalloc.CacheBin.Spec.{AllAllowed, spec_run, spec_step}
use jemalloc.CacheBin.Refine.{Refines}
use jemalloc.CacheBin.Run.{empty_stack, init-Refines, run-Refines}
use jemalloc.CacheBin.Conserve.{inside, count, all_given, all_released, run_conserved}
use jemalloc.CacheBin.Layout.{
  AreLaid, maxima, init_stacks, cache_bin_info_compute_alloc, init_stacks-AreLaid,
}

abbrev zeroed : CacheBin
zeroed = record {
  stack_head = 0;
  nrequests = 0;
  low_bits_low_water = 0;
  low_bits_full = 0;
  low_bits_empty = 0;
  ncached_max = 0;
}

abbrev blank : Memory
blank p = 0

-- The array of three pointers at 65520 … 65543.
made : State
made = record { memory = blank; bin = (cache_bin_init zeroed 3 65512 8).0 }

abbrev ops : List Op
ops =
    dalloc 100
    ∷ dalloc 200
    ∷ stash 300
    ∷ dalloc 400
    ∷ alloc_easy
    ∷ set_low_water
    ∷ alloc_easy
    ∷ alloc
    ∷ flush_stashed
    ∷ fill 3 (7 ∷ 8 ∷ [])
    ∷ flush 1
    ∷ dalloc 7
    ∷ []

outcomes :
    (run 2 true ops made).1
    ≡ done
      ∷ done
      ∷ done
      ∷ refused
      ∷ got 200
      ∷ done
      ∷ refused
      ∷ got 100
      ∷ flushed (300 ∷ [])
      ∷ done
      ∷ flushed (8 ∷ [])
      ∷ reported
      ∷ []
unfolding made run step cache_bin_init cache_bin_alloc cache_bin_alloc_easy cache_bin_alloc_impl
    cache_bin_dalloc_easy cache_bin_dalloc_safety_checks scan cache_bin_stash cache_bin_finish_fill
    cache_bin_init_ptr_array_for_fill cache_bin_finish_flush cache_bin_init_ptr_array_for_flush
    cache_bin_low_water_adjust cache_bin_low_water_set cache_bin_finish_flush_stashed
    cache_bin_init_ptr_array_for_stashed store store_all load_all memmove
outcomes = refl

made_placed :
    Refines
      (65512 + 8)
      (record { memory = blank; bin = (cache_bin_init zeroed 3 65512 8).0 })
      (empty_stack 3)
    × ((cache_bin_init zeroed 3 65512 8).1 ≡ 8 + word * 3)
made_placed = init-Refines blank zeroed 3 65512 8 (omega arith)

made-Refines : Refines 65520 made (empty_stack 3)
unfolding made
made-Refines = made_placed.0

ops_allowed : AllAllowed 2 ops (empty_stack 3)
unfolding spec_step
ops_allowed = ground arith

run-Refines_example :
    Refines 65520 (run 2 true ops made).0 (spec_run 2 ops (empty_stack 3)).0
    × ((run 2 true ops made).1 ≡ (spec_run 2 ops (empty_stack 3)).1)
run-Refines_example = run-Refines 2 true 65520 ops made (empty_stack 3) made-Refines ops_allowed

run_conserved_example :
    inside 7 (spec_run 2 ops (empty_stack 3)).0 + count 7 (all_released (run 2 true ops made).1)
    ≡ inside 7 (empty_stack 3) + count 7 (all_given ops (run 2 true ops made).1)
run_conserved_example =
    run_conserved 2 true 65520 ops made (empty_stack 3) 7 made-Refines ops_allowed

abbrev infos : List (ℕ × CacheBin)
infos = (3, zeroed) ∷ (0, zeroed) ∷ (20, zeroed) ∷ []

init_stacks-AreLaid_example :
    AreLaid
      (init_stacks blank 9000 65536 infos infos).0
      (65536 + word)
      infos
      (init_stacks blank 9000 65536 infos infos).1
      (65536 + (cache_bin_info_compute_alloc true (maxima infos)).0 - word)
    × ((init_stacks blank 9000 65536 infos infos).3
        ≡ (cache_bin_info_compute_alloc true (maxima infos)).0)
init_stacks-AreLaid_example =
    init_stacks-AreLaid blank true 9000 65536 infos infos
      (omega arith, (omega arith, (omega arith, tt)))
