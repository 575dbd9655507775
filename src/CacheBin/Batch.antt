-- ===== src/CacheBin/Batch.antt =====
-- Filling and flushing a bin in batches follows the stack.
use jemalloc.Base.{
  ℕ, ◌+◌, ◌-◌, ◌*◌, ◌≤◌, ◌≡◌, inl, refl, subst, sym, ap, ◌∙◌, arith, Bool, min, List, [], ltb,
  if◌then◌else◌, length, take, drop, u16, length-take, length-drop, take-append-drop, dec_lt,
  lt→ltb, le→ltb,
}
use jemalloc.CacheBin.{
  CacheBin, cache_bin_init_ptr_array_for_fill, cache_bin_finish_fill,
  cache_bin_init_ptr_array_for_flush, cache_bin_finish_flush, cache_bin_low_water_adjust,
  cache_bin_low_water_set, cache_bin_init_ptr_array_for_stashed, cache_bin_finish_flush_stashed,
  cache_bin_ncached_get_internal, cache_bin_low_water_get_internal,
}
use jemalloc.CacheBin.Cells.{Memory, word, Holds, store_all, memmove, load_all}
use jemalloc.CacheBin.Held.{
  Holds-same, Holds-at, Holds-left, Holds-right, Holds-memmove, memmove-Holds, store_all-Holds,
  store_all-below, load_all-Holds,
}
use jemalloc.CacheBin.Steps.{State, fill, flush, flush_stashed, set_low_water, flushed, step}
use jemalloc.CacheBin.Spec.{Stack, spec_step}
use jemalloc.CacheBin.Refine.{
  Refines, ncached_lem, empty_position_lem, low_bound_lem, nstashed_lem, low_water_lem,
}
use jemalloc.CacheBin.Take.{Agrees}

module _ (max_scan : ℕ) (config_stats : Bool) (base : ℕ) where
  pub set_low_water-Agrees :
      (c : State) (s : Stack)
      → Refines base c s
      → Agrees base
          (step max_scan config_stats set_low_water c)
          (spec_step max_scan set_low_water s)
  unfolding step spec_step cache_bin_low_water_set
  set_low_water-Agrees c s r = (
    record {
      room = r.room;
      small = r.small;
      water_le = omega arith;
      max_eq = r.max_eq;
      head_eq = r.head_eq;
      water_eq = omega (arith, r.head_eq);
      full_eq = r.full_eq;
      empty_eq = r.empty_eq;
      cached_held = r.cached_held;
      stashed_held = r.stashed_held;
    },
    refl,
  )

  pub flush_stashed-Agrees :
      (c : State) (s : Stack)
      → Refines base c s
      → Agrees base
          (step max_scan config_stats flush_stashed c)
          (spec_step max_scan flush_stashed s)
  unfolding step spec_step cache_bin_finish_flush_stashed cache_bin_init_ptr_array_for_stashed
  flush_stashed-Agrees c s r = (
    record {
      room = omega (arith, r.room);
      small = r.small;
      water_le = r.water_le;
      max_eq = r.max_eq;
      head_eq = r.head_eq;
      water_eq = r.water_eq;
      full_eq = ap u16 (low_bound_lem r ∙ omega arith);
      empty_eq = r.empty_eq;
      cached_held = r.cached_held;
      stashed_held = tt;
    },
    rw (low_bound_lem r, nstashed_lem r)
        (ap flushed (load_all-Holds c.memory base s.stashed r.stashed_held)),
  )

  -- The pointers that the arena wrote, moved up where it wrote fewer than the fill asked for.
  filled_held :
      (m : Memory) (empty nfill : ℕ) (ptrs : List ℕ)
      → length ptrs ≤ nfill
      → nfill * word ≤ empty
      → Holds
          (if ltb (length ptrs) nfill
            then memmove
                (store_all m (empty - nfill * word) ptrs)
                (empty - length ptrs * word)
                (empty - nfill * word)
                (length ptrs)
            else store_all m (empty - nfill * word) ptrs)
          (empty - length ptrs * word)
          ptrs
  filled_held m empty nfill ptrs le fits = elim (dec_lt (length ptrs) nfill) [
    | yes fewer ↦ rw (lt→ltb _ _ fewer) (
        memmove-Holds (store_all m (empty - nfill * word) ptrs) (empty - length ptrs * word)
          (empty - nfill * word) (length ptrs) ptrs refl
          (store_all-Holds m (empty - nfill * word) ptrs))
    | no all ↦ rw (le→ltb (length ptrs) nfill (omega arith)) (
        Holds-at (store_all m (empty - nfill * word) ptrs) ptrs (omega arith)
          (store_all-Holds m (empty - nfill * word) ptrs))
  ]

  -- The stashed pointers lie below what a fill writes.
  stashed_kept :
      (m : Memory) (empty nfill : ℕ) (ptrs vs : List ℕ) (p : ℕ)
      → length ptrs ≤ nfill
      → p + word * length vs + nfill * word ≤ empty
      → Holds m p vs
      → Holds
          (if ltb (length ptrs) nfill
            then memmove
                (store_all m (empty - nfill * word) ptrs)
                (empty - length ptrs * word)
                (empty - nfill * word)
                (length ptrs)
            else store_all m (empty - nfill * word) ptrs)
          p
          vs
  stashed_kept m empty nfill ptrs vs p le fits h =
      let written : Holds (store_all m (empty - nfill * word) ptrs) p vs =
        Holds-same m (store_all m (empty - nfill * word) ptrs) p vs
          (λ q a b. store_all-below m (empty - nfill * word) ptrs q (omega arith)) h in
      elim (dec_lt (length ptrs) nfill) [
        | yes fewer ↦ rw (lt→ltb _ _ fewer) (
            Holds-memmove (store_all m (empty - nfill * word) ptrs) (empty - length ptrs * word)
              (empty - nfill * word) (length ptrs) p vs (inl (omega arith)) written)
        | no all ↦ rw (le→ltb (length ptrs) nfill (omega arith)) written
      ]

  pub fill-Agrees :
      (nfill : ℕ) (ptrs : List ℕ) (c : State) (s : Stack)
      → Refines base c s
      → s.cached ≡ []
      → length ptrs ≤ nfill
      → nfill + length s.stashed ≤ s.capacity
      → Agrees base
          (step max_scan config_stats (fill nfill ptrs) c)
          (spec_step max_scan (fill nfill ptrs) s)
  unfolding step spec_step cache_bin_finish_fill cache_bin_init_ptr_array_for_fill
  fill-Agrees nfill ptrs c s r none_cached le fits =
      let empty = base + word * s.capacity in
      let no_water : s.water ≡ 0 = omega (arith, r.water_le, ap length none_cached) in
      rw (empty_position_lem r) (
        record {
          room = omega arith;
          small = r.small;
          water_le = omega arith;
          max_eq = r.max_eq;
          head_eq = omega arith;
          water_eq = r.water_eq;
          full_eq = r.full_eq;
          empty_eq = r.empty_eq;
          cached_held = filled_held c.memory empty nfill ptrs le (omega arith);
          stashed_held =
              stashed_kept c.memory empty nfill ptrs s.stashed base le (omega arith) r.stashed_held;
        },
        refl,
      )

  ncached_moved :
      (c : State) (s : Stack) (n : ℕ)
      → Refines base c s
      → n ≤ length s.cached
      → cache_bin_ncached_get_internal (record c.bin { stack_head = c.bin.stack_head + n * word })
        ≡ length s.cached - n
  ncached_moved c s n r le = ground arith

  -- Moving the head over `n` pointers and then the low water mark, if it is now above it.
  adjusted_water :
      (c : State) (s : Stack) (n : ℕ)
      → Refines base c s
      → n ≤ length s.cached
      → (cache_bin_low_water_adjust
          (record c.bin { stack_head = c.bin.stack_head + n * word })).low_bits_low_water
        ≡ u16 (base + word * s.capacity - word * min s.water (length s.cached - n))
  unfolding cache_bin_low_water_adjust cache_bin_low_water_set
  adjusted_water c s n r le =
      let moved = record c.bin { stack_head = c.bin.stack_head + n * word } in
      let left : cache_bin_ncached_get_internal moved ≡ length s.cached - n =
        ncached_moved c s n r le in
      let water : cache_bin_low_water_get_internal moved ≡ s.water = low_water_lem r in
      elim (dec_lt (length s.cached - n) s.water) [
        | yes above ↦ rw (left, water, lt→ltb _ _ above) (omega (arith, r.head_eq))
        | no below ↦
            let same : min s.water (length s.cached - n) ≡ s.water = omega arith in
            rw (left, water, le→ltb (length s.cached - n) s.water (omega arith), same) r.water_eq
      ]

  adjust_keeps :
      (bin : CacheBin)
      → ((cache_bin_low_water_adjust bin).stack_head ≡ bin.stack_head)
        × ((cache_bin_low_water_adjust bin).low_bits_full ≡ bin.low_bits_full)
        × ((cache_bin_low_water_adjust bin).low_bits_empty ≡ bin.low_bits_empty)
        × ((cache_bin_low_water_adjust bin).ncached_max ≡ bin.ncached_max)
  unfolding cache_bin_low_water_adjust cache_bin_low_water_set
  adjust_keeps bin = ground arith

  -- The kept pointers stand at the head, the flushed ones behind them.
  kept_held :
      (c : State) (s : Stack) (k : ℕ)
      → Refines base c s
      → Holds c.memory c.bin.stack_head (take k s.cached)
  kept_held c s k r = Holds-left c.memory c.bin.stack_head (take k s.cached) (drop k s.cached) (
      subst (λ l. Holds c.memory c.bin.stack_head l) (sym (take-append-drop k s.cached))
        r.cached_held)

  flushed_held :
      (c : State) (s : Stack) (k : ℕ)
      → Refines base c s
      → k ≤ length s.cached
      → Holds c.memory (c.bin.stack_head + word * k) (drop k s.cached)
  flushed_held c s k r le =
      Holds-at c.memory (drop k s.cached) (omega (arith, length-take k s.cached)) (
        Holds-right c.memory c.bin.stack_head (take k s.cached) (drop k s.cached) (
          subst (λ l. Holds c.memory c.bin.stack_head l) (sym (take-append-drop k s.cached))
            r.cached_held))

  pub flush-Agrees :
      (nflush : ℕ) (c : State) (s : Stack)
      → Refines base c s
      → nflush ≤ length s.cached
      → Agrees base
          (step max_scan config_stats (flush nflush) c)
          (spec_step max_scan (flush nflush) s)
  unfolding step spec_step cache_bin_finish_flush cache_bin_init_ptr_array_for_flush
  flush-Agrees nflush c s r le =
      let k = length s.cached - nflush in
      let head = c.bin.stack_head + nflush * word in
      let keeps = adjust_keeps (record c.bin { stack_head = head }) in
      let n_kept : length (take k s.cached) ≡ k = omega (arith, length-take k s.cached) in
      let n_flushed : length (drop k s.cached) ≡ nflush = omega (arith, length-drop k s.cached) in
      let from : base + word * s.capacity - nflush * word ≡ c.bin.stack_head + word * k =
        omega (arith, r.head_eq) in
      (
        record {
          room = omega (arith, r.room);
          small = r.small;
          water_le = omega arith;
          max_eq = keeps.3 ∙ r.max_eq;
          head_eq = omega (arith, keeps.0, r.head_eq);
          water_eq = adjusted_water c s nflush r le;
          full_eq = keeps.1 ∙ r.full_eq;
          empty_eq = keeps.2 ∙ r.empty_eq;
          cached_held = Holds-at _ (take k s.cached) (sym keeps.0) (
              rw (ncached_lem r) (
                memmove-Holds c.memory head c.bin.stack_head k (take k s.cached) n_kept
                  (kept_held c s k r)));
          stashed_held = rw (ncached_lem r) (
              Holds-memmove c.memory head c.bin.stack_head k base s.stashed
                (inl (omega (arith, r.head_eq, r.room))) r.stashed_held);
        },
        rw (empty_position_lem r, from)
            (ap flushed (
              ap (λ n. load_all c.memory (c.bin.stack_head + word * k) n) (sym n_flushed)
              ∙ load_all-Holds c.memory (c.bin.stack_head + word * k) (drop k s.cached)
                  (flushed_held c s k r (omega arith)))),
      )
