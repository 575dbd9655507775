-- ===== src/Sec/Run.antt =====
-- Runs of the operations of the small extent cache of src/sec.c.
use jemalloc.Base.{
  ℕ, ◌+◌, ◌*◌, ◌^◌, ◌≤◌, ◌<◌, ◌≡◌, refl, arith, Bool, ◌==◌, if_cases, Option, List, [], ◌∷◌, ◌++◌,
  length,
}
use jemalloc.Sz.{sz_psz2ind}
use jemalloc.Sec.{Edata, SecOpts, SecBin}
use jemalloc.Sec.Account.{weigh-append}
use jemalloc.Sec.Bins.{IsSmall, handed}
use jemalloc.Sec.Fill.{AreOfSize, fill_locked-IsKept}
use jemalloc.Sec.Shards.{
  sec_is_used, sec_alloc, sec_multishard_trylock_alloc, sec_dalloc, sec_multishard_trylock_dalloc,
  sec_fill, sec_flush, sec_trim,
}
use jemalloc.Sec.Whole.{AreBins, AreKept, kept_as_is, put-AreKept}
use jemalloc.Sec.Picked.{
  nbins, bin_pick_lem, alloc_or_miss-AreKept, trylock_alloc-AreKept, dalloc_at-AreKept,
  trylock_dalloc-AreKept, flush_bins-AreKept, trim_bins-AreKept,
}

-- A call, with the locks that other threads hold while it tries them.
pub data SecOp : Type 0 where
  alloc : (ℕ → Bool) → ℕ → ℕ → SecOp
  dalloc : (ℕ → Bool) → Edata → ℕ → SecOp
  fill : ℕ → List Edata → ℕ → ℕ → SecOp
  flush : SecOp
  trim : (ℕ → Bool) → SecOp

-- The extents that a call brings.
abbrev pub given : SecOp → List Edata
given (dalloc busy edata shard) = edata ∷ []
given (fill size result nallocs shard) = result
given _ = []

abbrev pub all_given : List SecOp → List Edata
all_given [] = []
all_given (op ∷ ops) = given op ++ all_given ops

module _ (opts : SecOpts) (npsizes : ℕ) where
  -- The bins after a call, and the extents that it hands out.
  unfoldable pub step : SecOp → (ℕ → SecBin) → (ℕ → SecBin) × List Edata
  step (alloc busy size shard) bins =
      let (bins', edata) = sec_alloc opts npsizes busy bins size shard in (bins', handed edata)
  step (dalloc busy edata shard) bins = sec_dalloc opts npsizes busy bins edata [] shard
  step (fill size result nallocs shard) bins = sec_fill opts npsizes bins size result nallocs shard
  step flush bins = sec_flush opts npsizes bins []
  step (trim busy) bins = sec_trim opts npsizes busy bins []

  unfoldable pub run : List SecOp → (ℕ → SecBin) → (ℕ → SecBin) × List Edata
  run [] bins = (bins, [])
  run (op ∷ ops) bins =
      let (bins', out) = step op bins in let (bins'', outs) = run ops bins' in (bins'', out ++ outs)

  -- What the code asserts of a call: an existing shard and size, extents of the size that is filled, as
  -- many as said. The sums of bytes fit a word.
  unfoldable pub IsAllowed : SecOp → Type 0
  IsAllowed (alloc busy size shard) = (shard < opts.nshards) × (sz_psz2ind size < npsizes)
  IsAllowed (dalloc busy edata shard) =
      (shard < opts.nshards)
      × (sz_psz2ind edata.size < npsizes)
      × (opts.max_bytes + edata.size < 2 ^ 64)
  IsAllowed (fill size result nallocs shard) =
      (shard < opts.nshards)
      × (sz_psz2ind size < npsizes)
      × AreOfSize size result
      × (length result ≡ nallocs)
      × (opts.max_bytes + nallocs * size < 2 ^ 64)
      × (opts.max_bytes + size < 2 ^ 64)
  IsAllowed _ = Unit {0}

  unfoldable pub AreAllowed : List SecOp → Type 0
  AreAllowed [] = Unit {0}
  AreAllowed (op ∷ ops) = IsAllowed op × AreAllowed ops

  step-AreKept :
      (op : SecOp) (bins : ℕ → SecBin)
      → IsSmall opts
      → opts.nshards ≤ 255
      → AreBins opts (nbins opts npsizes) bins
      → IsAllowed op
      → AreKept opts (nbins opts npsizes) bins (given op) (step op bins).0 (step op bins).1
  unfolding step IsAllowed sec_alloc sec_multishard_trylock_alloc sec_dalloc
      sec_multishard_trylock_dalloc sec_fill sec_flush sec_trim
  step-AreKept (alloc busy size shard) bins small few ok h =
      if_cases
        (λ (r : (ℕ → SecBin) × Option Edata).
          AreKept opts (nbins opts npsizes) bins [] r.0 (handed r.1))
        (opts.nshards == 1)
        (λ yes.
          alloc_or_miss-AreKept opts npsizes bins _ small ok
            (bin_pick_lem opts npsizes 0 (sz_psz2ind size) (ground (arith, h.0)) h.1))
        (λ no.
          trylock_alloc-AreKept opts npsizes busy (sz_psz2ind size) opts.nshards 0 shard bins small
            few ok h.0 h.1)
  step-AreKept (dalloc busy edata shard) bins small few ok h =
      if_cases
        (λ (r : (ℕ → SecBin) × List Edata).
          AreKept opts (nbins opts npsizes) bins (edata ∷ []) r.0 r.1)
        (opts.nshards == 1)
        (λ yes.
          dalloc_at-AreKept opts npsizes bins _ edata.size edata [] ok
            (bin_pick_lem opts npsizes 0 (sz_psz2ind edata.size) (ground (arith, h.0)) h.1) refl
            h.2)
        (λ no.
          trylock_dalloc-AreKept opts npsizes busy (sz_psz2ind edata.size) opts.nshards 0 shard bins
            edata [] few ok h.0 h.1 h.2)
  step-AreKept (fill size result nallocs shard) bins small few ok h =
      let at = bin_pick_lem opts npsizes shard (sz_psz2ind size) h.0 h.1 in
      put-AreKept opts (nbins opts npsizes) bins _ result _ _ ok at
        (fill_locked-IsKept opts (bins _) size result nallocs (ok _ at) h.2 h.3 h.4 h.5)
  step-AreKept flush bins small few ok h =
      if_cases
        (λ (r : (ℕ → SecBin) × List Edata). AreKept opts (nbins opts npsizes) bins [] r.0 r.1)
        (sec_is_used opts)
        (λ _. flush_bins-AreKept opts npsizes (nbins opts npsizes) 0 bins [] ok (omega arith))
        (λ _. kept_as_is opts (nbins opts npsizes) bins [] ok)
  step-AreKept (trim busy) bins small few ok h =
      if_cases
        (λ (r : (ℕ → SecBin) × List Edata). AreKept opts (nbins opts npsizes) bins [] r.0 r.1)
        opts.experimental_trim
        (λ on.
          trim_bins-AreKept opts npsizes busy (nbins opts npsizes) 0 bins [] small on ok
            (omega arith))
        (λ _. kept_as_is opts (nbins opts npsizes) bins [] ok)

  -- For at most 255 shards, a limit that fits a word, sound bins and allowed calls, whichever locks are
  -- held: after any run of allocations, deallocations, fills, flushes and trims, each bin counts the
  -- bytes of its extents and of its pinned ones, within the limit and, when trimming, not below its low
  -- water mark; and every extent that was in a bin or brought by a call is, once, in a bin or handed out.
  pub run-AreKept :
      (ops : List SecOp) (bins : ℕ → SecBin)
      → IsSmall opts
      → opts.nshards ≤ 255
      → AreBins opts (nbins opts npsizes) bins
      → AreAllowed ops
      → AreKept opts (nbins opts npsizes) bins (all_given ops) (run ops bins).0 (run ops bins).1
  unfolding run AreAllowed
  run-AreKept [] bins small few ok h = kept_as_is opts (nbins opts npsizes) bins [] ok
  run-AreKept (op ∷ ops) bins small few ok h =
      let once = step-AreKept op bins small few ok h.0 in
      let rest = run-AreKept ops (step op bins).0 small few once.sound h.1 in
      record {
        sound = rest.sound;
        same = λ w. omega (
          arith,
          once.same w,
          rest.same w,
          weigh-append w (given op) (all_given ops),
          weigh-append w (step op bins).1 (run ops (step op bins).0).1,
        );
      }
