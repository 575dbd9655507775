-- ===== src/Sz/Table/Agree.antt =====
-- The tables of `sz_boot`, filled from `sc_data_init`, hold what sz.h computes.
use jemalloc.Base.{
  Bool-cases, inl, inr, u64, ℕ, zero, suc, ◌+◌, ◌-◌, ◌*◌, ◌/◌, ◌%◌, ◌≤◌, ◌<◌, ◌≡◌, ◌∙◌, refl, ap,
  arith, Bool, true, List, [], ◌∷◌, leb, ◌==◌, get_or, length, every_below, every_below_at, ==_iff,
}
use jemalloc.Sz.Index.{size2index-Brackets, size2index-least}
use jemalloc.BitUtil.{lg_floor, lg_ceil, pow2_ceil_zu, pow2_ceil_u64, fls_u64, fls_lu, clz}
use jemalloc.Sc.{reg_size_compute, slab_loop, slab_size, size_class, ScData}
use jemalloc.Sc.Build.{
  tiny_loop, first_pseudo, pseudo_loop, group_loop, regular_loop, size_classes, sc_data_init,
}
use jemalloc.Sc.Params.{sc_nsizes, sc_npsizes, sc_large_maxclass}
use jemalloc.Sz.{sz_size2index_compute, sz_index2size_compute, sz_pind2sz_compute}
use jemalloc.Sz.Table.{
  class_size, page_sizes, sz_boot_pind2sz_tab, sz_boot_index2size_tab, dst_max, size2index_from,
  sz_boot_size2index_tab, sz_boot, sz_index2size, sz_index2size_lookup, sz_index2size_lookup_impl,
  sz_pind2sz, sz_pind2sz_lookup, sz_size2index, sz_size2index_lookup, sz_size2index_lookup_impl,
}

-- f 0, f 1, … as a list.
tabulate : ℕ → (ℕ → ℕ) → List ℕ
tabulate zero f = []
tabulate (suc n) f = f 0 ∷ tabulate n (λ i. f (i + 1))

get_or-tabulate :
    (n : ℕ) (f : ℕ → ℕ) (i d : ℕ)
    → i < n
    → (i < length (tabulate n f)) × (get_or (tabulate n f) i d ≡ f i)
unfolding tabulate
get_or-tabulate zero f i d h = absurd (omega arith)
get_or-tabulate (suc n) f zero d h = (omega arith, refl)
get_or-tabulate (suc n) f (suc i) d h =
    let (a, b) = get_or-tabulate n (λ j. f (j + 1)) i d (omega arith) in
    (omega (arith, a), b ∙ ap f (omega arith))

-- The class table, with all that computes it.
built : ScData
unfolding sc_data_init size_classes tiny_loop first_pseudo pseudo_loop group_loop regular_loop
    size_class slab_size slab_loop reg_size_compute lg_ceil lg_floor fls_u64 fls_lu clz class_size
    tabulate
built = sc_data_init

index2size_table : sz_boot_index2size_tab sc_data_init ≡ tabulate sc_nsizes sz_index2size_compute
unfolding built sz_boot_index2size_tab sz_index2size_compute
index2size_table = refl

pind2sz_table : sz_boot_pind2sz_tab sc_data_init ≡ tabulate (sc_npsizes + 1) sz_pind2sz_compute
unfolding built sz_boot_pind2sz_tab page_sizes sz_pind2sz_compute
pind2sz_table = refl

size2index_table :
    sz_boot_size2index_tab sc_data_init ≡ tabulate dst_max (λ i. sz_size2index_compute (8 * i))
unfolding built sz_boot_size2index_tab size2index_from sz_size2index_compute pow2_ceil_zu
    pow2_ceil_u64
size2index_table = refl

-- For every class index and either padding option: `sz_index2size` reads inside the table that
-- `sz_boot` filled from `sc_data_init`, and returns what `sz_index2size_compute` computes.
pub index2size_lookup-compute :
    (oblivious : Bool) (i : ℕ)
    → i < sc_nsizes
    → let t = sz_boot sc_data_init oblivious in
      (i < length t.index2size_tab) × (sz_index2size t i ≡ sz_index2size_compute i)
unfolding sz_boot sz_index2size sz_index2size_lookup sz_index2size_lookup_impl
index2size_lookup-compute oblivious i h =
    rw index2size_table (get_or-tabulate sc_nsizes sz_index2size_compute i 0 h)

-- For every page index up to and including `SC_NPSIZES`, and either padding option: `sz_pind2sz`
-- reads inside its table, and returns what `sz_pind2sz_compute` computes.
pub pind2sz_lookup-compute :
    (oblivious : Bool) (i : ℕ)
    → i ≤ sc_npsizes
    → let t = sz_boot sc_data_init oblivious in
      (i < length t.pind2sz_tab) × (sz_pind2sz t i ≡ sz_pind2sz_compute i)
unfolding sz_boot sz_pind2sz sz_pind2sz_lookup
pind2sz_lookup-compute oblivious i h =
    rw pind2sz_table (get_or-tabulate (sc_npsizes + 1) sz_pind2sz_compute i 0 (omega arith))

-- All classes are multiples of 8, so the table may drop the low three bits.
multiples_table : every_below sc_nsizes (λ i. sz_index2size_compute i % 8 == 0) ≡ true
unfolding every_below sz_index2size_compute
multiples_table = refl

size2index-round8 :
    (s r : ℕ) → s ≤ 4096 → r ≡ (s + 7) / 8 → sz_size2index_compute (8 * r) ≡ sz_size2index_compute s
size2index-round8 s r h e =
    let (in_k, fits, _) = size2index-Brackets s (omega arith) in
    let (in_k', fits', _) = size2index-Brackets (8 * r) (omega arith) in
    let k = sz_size2index_compute s in
    let k' = sz_size2index_compute (8 * r) in
    let by8 : sz_index2size_compute k % 8 ≡ 0 =
      (==_iff _ _).0 (every_below_at sc_nsizes _ k multiples_table in_k) in
    omega (
      arith,
      (size2index-least s k' (omega arith) in_k').0 (omega arith),
      (size2index-least (8 * r) k (omega arith) in_k).0 (omega arith),
    )

-- On every size up to the largest class, looked up or computed, `sz_size2index` over the tables of
-- `sz_boot` returns what `sz_size2index_compute` computes.
pub size2index_lookup-compute :
    (oblivious : Bool) (s : ℕ)
    → s ≤ sc_large_maxclass
    → sz_size2index (sz_boot sc_data_init oblivious) s ≡ sz_size2index_compute s
unfolding sz_boot sz_size2index sz_size2index_lookup sz_size2index_lookup_impl
size2index_lookup-compute oblivious s h = elim (Bool-cases (leb s 4096)) [
  | inl e ↦
      let r : u64 (s + 8 - 1) / 8 ≡ (s + 7) / 8 = ground arith in
      let (_, here) =
        get_or-tabulate dst_max (λ i. sz_size2index_compute (8 * i)) ((s + 7) / 8) 0
          (ground arith) in
      rw (e, size2index_table, r) (here ∙ size2index-round8 s ((s + 7) / 8) (ground arith) refl)
  | inr e ↦ rw e
]
