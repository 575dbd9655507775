-- ===== src/CacheBin/Layout.antt =====
-- src/cache_bin.c and `tcache_init` of src/tcache.c: the arrays of a thread's bins in one block, each
-- after the one before, between two words of junk. The targets for adaptive filling are left out.
use jemalloc.Base.{
  ℕ, ◌+◌, ◌-◌, ◌*◌, ◌^◌, ◌<◌, ◌≡◌, refl, subst, arith, Bool, List, [], ◌∷◌, ltb, if◌then◌else◌,
  dec_lt, lt→ltb, le→ltb,
}
use jemalloc.Sc.Params.{page, lg_quantum}
use jemalloc.CacheBin.{CacheBin, cache_bin_init}
use jemalloc.CacheBin.Cells.{Memory, word, store}
use jemalloc.CacheBin.Refine.{Refines}
use jemalloc.CacheBin.Run.{init-Refines, empty_stack}

-- `JUNK_ADDR` and the word after it.
abbrev pub cache_bin_preceding_junk : ℕ
cache_bin_preceding_junk = 0x7a7a7a7a7a7a7a7a

abbrev pub cache_bin_trailing_junk : ℕ
cache_bin_trailing_junk = cache_bin_preceding_junk + 1

unfoldable pub sum_sizes : List ℕ → ℕ
sum_sizes [] = 0
sum_sizes (ncached_max ∷ infos) = ncached_max * word + sum_sizes infos

-- The size and the alignment of the block; `use_thp` is what `metadata_thp_enabled` returns.
unfoldable pub cache_bin_info_compute_alloc : Bool → List ℕ → ℕ × ℕ
cache_bin_info_compute_alloc use_thp infos =
    (word * 2 + sum_sizes infos, if use_thp then 2 ^ lg_quantum else page)

unfoldable pub cache_bin_preincrement : Memory → ℕ → ℕ → Memory × ℕ
cache_bin_preincrement m block cur_offset =
    (store m (block + cur_offset) cache_bin_preceding_junk, cur_offset + word)

unfoldable pub cache_bin_postincrement : Memory → ℕ → ℕ → Memory × ℕ
cache_bin_postincrement m block cur_offset =
    (store m (block + cur_offset) cache_bin_trailing_junk, cur_offset + word)

-- `fake_stack` is the address of `disabled_bin`. The capacity is kept for later use.
unfoldable pub cache_bin_init_disabled : CacheBin → ℕ → ℕ → CacheBin
cache_bin_init_disabled bin fake_stack ncached_max = record (cache_bin_init bin 0 fake_stack 0).0 {
  ncached_max = ncached_max;
}

-- The loop of `tcache_init` over the bins of the thread, each with the bin that was in its place.
unfoldable pub init_bins : ℕ → ℕ → List (ℕ × CacheBin) → ℕ → List CacheBin × ℕ
init_bins fake_stack block [] cur_offset = ([], cur_offset)
init_bins fake_stack block ((ncached_max, bin) ∷ infos) cur_offset =
    let (made, after) = cache_bin_init bin ncached_max block cur_offset in
    let enabled = init_bins fake_stack block infos after in
    let disabled = init_bins fake_stack block infos cur_offset in
    if ltb 0 ncached_max
    then (made ∷ enabled.0, enabled.1)
    else (cache_bin_init_disabled bin fake_stack ncached_max ∷ disabled.0, disabled.1)

abbrev pub maxima : List (ℕ × CacheBin) → List ℕ
maxima [] = []
maxima ((ncached_max, bin) ∷ infos) = ncached_max ∷ maxima infos

-- The loop over the bins from `tcache_nbins` on.
unfoldable pub init_unused_bins : ℕ → List (ℕ × CacheBin) → List CacheBin
init_unused_bins fake_stack [] = []
init_unused_bins fake_stack ((ncached_max, bin) ∷ others) =
    cache_bin_init_disabled bin fake_stack ncached_max ∷ init_unused_bins fake_stack others

-- With the bins in use and the other ones apart.
unfoldable pub init_stacks :
    Memory
    → ℕ
    → ℕ
    → List (ℕ × CacheBin)
    → List (ℕ × CacheBin)
    → Memory × List CacheBin × List CacheBin × ℕ
init_stacks m fake_stack block infos others =
    let (m', first) = cache_bin_preincrement m block 0 in
    let (bins, last) = init_bins fake_stack block infos first in
    let unused = init_unused_bins fake_stack others in
    let (m'', after) = cache_bin_postincrement m' block last in (m'', bins, unused, after)

-- The arrays stand in order from `lo` to `hi`, each enabled bin the empty stack over its own.
abbrev pub AreLaid : Memory → ℕ → List (ℕ × CacheBin) → List CacheBin → ℕ → Type 0
AreLaid m lo [] [] hi = lo ≡ hi
AreLaid m lo ((ncached_max, old) ∷ infos) (bin ∷ bins) hi =
    ((0 < ncached_max) → Refines lo (record { memory = m; bin = bin }) (empty_stack ncached_max))
    × AreLaid m (lo + word * ncached_max) infos bins hi
AreLaid m lo [] (bin ∷ bins) hi = ⊥
AreLaid m lo (info ∷ infos) [] hi = ⊥

-- Every capacity is one that `cache_bin_info_init` accepts.
abbrev pub AreSmall : List (ℕ × CacheBin) → Type 0
AreSmall [] = Unit {0}
AreSmall ((ncached_max, bin) ∷ infos) = (word * ncached_max < 2 ^ 16) × AreSmall infos

AreLaid-at :
    (m : Memory) {lo lo' : ℕ} (infos : List (ℕ × CacheBin)) (bins : List CacheBin) (hi : ℕ)
    → lo ≡ lo'
    → AreLaid m lo infos bins hi
    → AreLaid m lo' infos bins hi
AreLaid-at m infos bins hi e h = subst (λ l. AreLaid m l infos bins hi) e h

init_bins-AreLaid :
    (m : Memory) (fake_stack block : ℕ) (infos : List (ℕ × CacheBin)) (cur_offset : ℕ)
    → AreSmall infos
    → AreLaid m
        (block + cur_offset)
        infos
        (init_bins fake_stack block infos cur_offset).0
        (block + (init_bins fake_stack block infos cur_offset).1)
      × ((init_bins fake_stack block infos cur_offset).1 ≡ cur_offset + sum_sizes (maxima infos))
unfolding init_bins sum_sizes
init_bins-AreLaid m fake_stack block [] cur_offset small = (refl, omega arith)
init_bins-AreLaid m fake_stack block ((n, bin) ∷ infos) cur_offset (h, small) = elim (dec_lt 0 n) [
  | yes p ↦
      let (placed, after) = init-Refines m bin n block cur_offset h in
      let next : block + (cur_offset + word * n) ≡ block + cur_offset + word * n = omega arith in
      let (rest, size) = init_bins-AreLaid m fake_stack block infos (cur_offset + word * n) small in
      rw (lt→ltb 0 n p, after)
        (((λ _. placed), AreLaid-at m infos _ _ next rest), omega (arith, size))
  | no z ↦
      let next : block + cur_offset ≡ block + cur_offset + word * n = omega arith in
      let (rest, size) = init_bins-AreLaid m fake_stack block infos cur_offset small in
      rw (le→ltb 0 n (omega arith))
        (((λ p. absurd (z p)), AreLaid-at m infos _ _ next rest), omega (arith, size))
]

-- For capacities that `cache_bin_info_init` accepts: the arrays of a thread's bins are laid out one
-- after the other, each enabled bin the empty stack over its own, and the offset at the end is the
-- size that `cache_bin_info_compute_alloc` asks for.
pub init_stacks-AreLaid :
    (m : Memory) (use_thp : Bool) (fake_stack block : ℕ) (infos others : List (ℕ × CacheBin))
    → AreSmall infos
    → AreLaid
        (init_stacks m fake_stack block infos others).0
        (block + word)
        infos
        (init_stacks m fake_stack block infos others).1
        (block + (cache_bin_info_compute_alloc use_thp (maxima infos)).0 - word)
      × ((init_stacks m fake_stack block infos others).3
          ≡ (cache_bin_info_compute_alloc use_thp (maxima infos)).0)
unfolding init_stacks cache_bin_info_compute_alloc cache_bin_preincrement cache_bin_postincrement
init_stacks-AreLaid m use_thp fake_stack block infos others small =
    let m' = store m (block + 0) cache_bin_preceding_junk in
    let last = (init_bins fake_stack block infos (0 + word)).1 in
    let m'' = store m' (block + last) cache_bin_trailing_junk in
    let (laid, size) = init_bins-AreLaid m'' fake_stack block infos (0 + word) small in
    let bins = (init_bins fake_stack block infos (0 + word)).0 in
    let end : block + last ≡ block + (word * 2 + sum_sizes (maxima infos)) - word =
      omega (arith, size) in
    (
      subst (λ hi. AreLaid m'' (block + word) infos bins hi) end
          (AreLaid-at m'' infos bins (block + last) (omega arith) laid),
      omega (arith, size),
    )
