-- ===== src/Sec/Tests.antt =====
-- A small extent cache of two shards, one of them locked, through a fill, an allocation, a deallocation,
-- a trim and a flush.
use jemalloc.Base.{ℕ, ◌≡◌, refl, arith, true, false, ◌==◌, List, [], ◌∷◌}
use jemalloc.BitUtil.{lg_ceil, lg_floor, fls_u64, fls_lu, clz}
use jemalloc.Sz.{sz_psz2ind}
use jemalloc.Sec.{Edata, SecOpts, sec_bin_init}
use jemalloc.Sec.Fill.{AreOfSize}
use jemalloc.Sec.Whole.{AreKept}
use jemalloc.Sec.Picked.{nbins}
use jemalloc.Sec.Run.{
  SecOp, alloc, dalloc, fill, flush, trim, run, IsAllowed, AreAllowed, all_given, run-AreKept,
}
use jemalloc.Sec.Init.{init-IsBin}

abbrev two_shards : SecOpts
two_shards = record { nshards = 2; max_alloc = 8192; max_bytes = 16384; experimental_trim = true }

abbrev extent : ℕ → Edata
extent base = record { base = base; size = 8192; pinned = base == 1 }

abbrev calls : List SecOp
calls =
    fill 8192 (extent 0 ∷ extent 1 ∷ []) 2 0
    ∷ alloc (λ i. i == 0) 8192 1
    ∷ dalloc (λ i. false) (extent 2) 0
    ∷ trim (λ i. false)
    ∷ flush
    ∷ []

size_index : sz_psz2ind 8192 ≡ 1
unfolding sz_psz2ind lg_ceil lg_floor fls_u64 fls_lu clz
size_index = refl

calls-AreAllowed : AreAllowed two_shards 2 calls
unfolding AreAllowed IsAllowed AreOfSize
calls-AreAllowed =
    let index = size_index in
    (
      (omega arith, omega (arith, index), (refl, (refl, _)), refl, omega arith, omega arith),
      (
        (omega arith, omega (arith, index)),
        ((omega arith, omega (arith, index), omega arith), (_, (_, _))),
      ),
    )

run-AreKept_example :
    AreKept two_shards
      (nbins two_shards 2)
      (λ i. sec_bin_init)
      (all_given calls)
      (run two_shards 2 calls (λ i. sec_bin_init)).0
      (run two_shards 2 calls (λ i. sec_bin_init)).1
run-AreKept_example =
    run-AreKept two_shards 2 calls (λ i. sec_bin_init) (omega arith) (omega arith)
      (λ i h. init-IsBin two_shards) calls-AreAllowed
