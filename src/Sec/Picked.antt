-- ===== src/Sec/Picked.antt =====
-- The bins that the operations of the small extent cache of src/sec.c pick, whichever locks other threads
-- hold.
use jemalloc.Base.{
  ℕ, zero, suc, ◌+◌, ◌*◌, ◌%◌, ◌^◌, ◌≤◌, ◌<◌, ◌≡◌, refl, arith, Bool, true, ◌==◌, if_cases, Option,
  none, some, List, [], ◌∷◌,
}
use native.Mathlib.Nat.{mul-le-mul_right}
use jemalloc.Sec.{Edata, SecOpts, SecBin, trim_locked}
use jemalloc.Sec.Account.{IsKept}
use jemalloc.Sec.Bins.{
  IsSmall, handed, bin_alloc-IsKept, bin_dalloc-IsKept, flush_locked-IsKept, trim_locked-IsKept,
}
use jemalloc.Sec.Shards.{
  sec_bin_pick, next_shard, alloc_at, with_miss, alloc_or_miss, trylock_alloc, dalloc_at,
  trylock_dalloc, flush_bins, trim_bins,
}
use jemalloc.Sec.Whole.{AreBins, AreKept, kept_as_is, kept_twice, put-AreKept}

module _ (opts : SecOpts) (npsizes : ℕ) where
  abbrev pub nbins : ℕ
  nbins = opts.nshards * npsizes

  pub bin_pick_lem :
      (shard pszind : ℕ)
      → shard < opts.nshards
      → pszind < npsizes
      → sec_bin_pick opts npsizes shard pszind < nbins
  unfolding sec_bin_pick
  bin_pick_lem shard pszind h p =
      omega
        (arith, p, mul-le-mul_right {m = suc shard} {n = opts.nshards} npsizes (omega (arith, h)))

  next_shard_lem :
      (shard : ℕ)
      → shard < opts.nshards
      → opts.nshards ≤ 255
      → next_shard opts npsizes shard < opts.nshards
  unfolding next_shard
  next_shard_lem shard h few =
      if_cases (λ (s : ℕ). s < opts.nshards) ((shard + 1) % 2 ^ 8 == opts.nshards)
        (λ _. omega (arith, h)) (λ no. ground (arith, no, h, few))

  missed-IsKept :
      (bin b : SecBin) (edata : Option Edata) (out : List Edata)
      → IsKept opts bin [] b out
      → IsKept opts bin [] (with_miss opts npsizes b edata) out
  unfolding with_miss
  missed-IsKept bin b none out k = record {
    sound = record { counts = k.sound.counts; bound = k.sound.bound; low = k.sound.low };
    same = k.same;
  }
  missed-IsKept bin b (some edata) out k = k

  pub alloc_or_miss-AreKept :
      (bins : ℕ → SecBin) (i : ℕ)
      → IsSmall opts
      → AreBins opts nbins bins
      → i < nbins
      → AreKept opts nbins bins []
          (alloc_or_miss opts npsizes bins i).0
          (handed (alloc_or_miss opts npsizes bins i).1)
  unfolding alloc_or_miss
  alloc_or_miss-AreKept bins i small ok h =
      put-AreKept opts nbins bins i [] _ _ ok h
        (missed-IsKept (bins i) _ _ _ (bin_alloc-IsKept opts (bins i) small (ok i h)))

  -- A round that is tried, and the rounds after it where it got nothing.
  abbrev tried :
      (ℕ → SecBin) → Option Edata → (ℕ → SecBin) × Option Edata → (ℕ → SecBin) × Option Edata
  tried bins' edata rest = elim edata [ some e ↦ (bins', some e) | none ↦ rest ]

  tried-AreKept :
      (bins bins' : ℕ → SecBin) (edata : Option Edata) (rest : (ℕ → SecBin) × Option Edata)
      → AreKept opts nbins bins [] bins' (handed edata)
      → AreKept opts nbins bins' [] rest.0 (handed rest.1)
      → AreKept opts nbins bins [] (tried bins' edata rest).0 (handed (tried bins' edata rest).1)
  tried-AreKept bins bins' none rest k k' =
      kept_twice opts nbins bins bins' rest.0 [] [] (handed rest.1) k k'
  tried-AreKept bins bins' (some e) rest k k' = k

  pub trylock_alloc-AreKept :
      (busy : ℕ → Bool) (pszind rounds i shard : ℕ) (bins : ℕ → SecBin)
      → IsSmall opts
      → opts.nshards ≤ 255
      → AreBins opts nbins bins
      → shard < opts.nshards
      → pszind < npsizes
      → AreKept opts nbins bins []
          (trylock_alloc opts npsizes busy pszind rounds i shard bins).0
          (handed (trylock_alloc opts npsizes busy pszind rounds i shard bins).1)
  unfolding trylock_alloc alloc_at
  trylock_alloc-AreKept busy pszind zero i shard bins small few ok h p =
      alloc_or_miss-AreKept bins (sec_bin_pick opts npsizes shard pszind) small ok
        (bin_pick_lem shard pszind h p)
  trylock_alloc-AreKept busy pszind (suc rounds) i shard bins small few ok h p =
      let ind = sec_bin_pick opts npsizes shard pszind in
      let at = bin_pick_lem shard pszind h p in
      let once =
        if_cases (λ (r : (ℕ → SecBin) × Option Edata). AreKept opts nbins bins [] r.0 (handed r.1))
          (busy i) {x = (bins, none)} {y = alloc_at opts npsizes bins ind}
          (λ _. kept_as_is opts nbins bins [] ok)
          (λ _.
            put-AreKept opts nbins bins ind [] _ _ ok at
              (bin_alloc-IsKept opts (bins ind) small (ok ind at))) in
      tried-AreKept bins _ _ _ once (
        trylock_alloc-AreKept busy pszind rounds (i + 1) (next_shard opts npsizes shard) _ small few
          once.sound (next_shard_lem shard h few) p)

  pub dalloc_at-AreKept :
      (bins : ℕ → SecBin) (i size : ℕ) (edata : Edata) (others : List Edata)
      → AreBins opts nbins bins
      → i < nbins
      → edata.size ≡ size
      → opts.max_bytes + size < 2 ^ 64
      → AreKept opts nbins bins
          (edata ∷ others)
          (dalloc_at opts npsizes bins i size (edata ∷ others)).0
          (dalloc_at opts npsizes bins i size (edata ∷ others)).1
  unfolding dalloc_at
  dalloc_at-AreKept bins i size edata others ok h e small =
      put-AreKept opts nbins bins i (edata ∷ others) _ _ ok h
        (bin_dalloc-IsKept opts (bins i) size edata others (ok i h) e small)

  pub trylock_dalloc-AreKept :
      (busy : ℕ → Bool) (pszind rounds i shard : ℕ) (bins : ℕ → SecBin) (edata : Edata)
      (others : List Edata)
      → opts.nshards ≤ 255
      → AreBins opts nbins bins
      → shard < opts.nshards
      → pszind < npsizes
      → opts.max_bytes + edata.size < 2 ^ 64
      → AreKept opts nbins bins
          (edata ∷ others)
          (trylock_dalloc opts npsizes busy edata.size pszind rounds i shard bins
            (edata ∷ others)).0
          (trylock_dalloc opts npsizes busy edata.size pszind rounds i shard bins
            (edata ∷ others)).1
  unfolding trylock_dalloc
  trylock_dalloc-AreKept busy pszind zero i shard bins edata others few ok h p small =
      dalloc_at-AreKept bins _ edata.size edata others ok (bin_pick_lem shard pszind h p) refl small
  trylock_dalloc-AreKept busy pszind (suc rounds) i shard bins edata others few ok h p small =
      let rest =
        trylock_dalloc-AreKept busy pszind rounds (i + 1) (next_shard opts npsizes shard) bins edata
          others few ok (next_shard_lem shard h few) p small in
      if_cases (λ (r : (ℕ → SecBin) × List Edata). AreKept opts nbins bins (edata ∷ others) r.0 r.1)
        (busy i) (λ _. rest)
        (λ _.
          dalloc_at-AreKept bins _ edata.size edata others ok (bin_pick_lem shard pszind h p) refl
            small)

  pub flush_bins-AreKept :
      (rounds i : ℕ) (bins : ℕ → SecBin) (to_flush : List Edata)
      → AreBins opts nbins bins
      → i + rounds ≤ nbins
      → AreKept opts nbins bins to_flush
          (flush_bins opts npsizes rounds i bins to_flush).0
          (flush_bins opts npsizes rounds i bins to_flush).1
  unfolding flush_bins
  flush_bins-AreKept zero i bins to_flush ok h = kept_as_is opts nbins bins to_flush ok
  flush_bins-AreKept (suc rounds) i bins to_flush ok h =
      let once =
        put-AreKept opts nbins bins i to_flush _ _ ok (omega (arith, h))
          (flush_locked-IsKept opts (bins i) to_flush) in
      kept_twice opts nbins bins _ _ to_flush _ _ once
        (flush_bins-AreKept rounds (i + 1) _ _ once.sound (omega (arith, h)))

  pub trim_bins-AreKept :
      (busy : ℕ → Bool) (rounds i : ℕ) (bins : ℕ → SecBin) (to_flush : List Edata)
      → IsSmall opts
      → opts.experimental_trim ≡ true
      → AreBins opts nbins bins
      → i + rounds ≤ nbins
      → AreKept opts nbins bins to_flush
          (trim_bins opts npsizes busy rounds i bins to_flush).0
          (trim_bins opts npsizes busy rounds i bins to_flush).1
  unfolding trim_bins
  trim_bins-AreKept busy zero i bins to_flush small on ok h = kept_as_is opts nbins bins to_flush ok
  trim_bins-AreKept busy (suc rounds) i bins to_flush small on ok h =
      let at : i < nbins = omega (arith, h) in
      let kept =
        if_cases (λ (r : SecBin × List Edata). IsKept opts (bins i) to_flush r.0 r.1) (busy i)
          {x = (bins i, to_flush)} {y = trim_locked (bins i) to_flush}
          (λ _. record { sound = ok i at; same = λ w. refl })
          (λ _. trim_locked-IsKept opts (bins i) to_flush small on (ok i at)) in
      let once = put-AreKept opts nbins bins i to_flush _ _ ok at kept in
      kept_twice opts nbins bins _ _ to_flush _ _ once
        (trim_bins-AreKept busy rounds (i + 1) _ _ small on once.sound (omega (arith, h)))
