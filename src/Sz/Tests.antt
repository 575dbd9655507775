-- ===== src/Sz/Tests.antt =====
-- The theorems on sizes at concrete requests.
use jemalloc.Base.{ℕ, ◌+◌, ◌-◌, ◌≤◌, ◌<◌, ◌≡◌, ◌↔◌, arith, true, false}
use jemalloc.Sc.Params.{sc_npsizes}
use jemalloc.Sc.Build.{sc_data_init}
use jemalloc.Sz.{
  sz_psz2ind, sz_pind2sz_compute, sz_size2index_compute, sz_index2size_compute, sz_s2u_compute,
}
use jemalloc.Sz.Index.{size2index-least, size2index-index2size}
use jemalloc.Sz.Usable.{s2u-index2size}
use jemalloc.Sz.Page.{psz2ind-least, psz2ind-pind2sz}
use jemalloc.Sz.Table.{sz_boot, sz_size2index}
use jemalloc.Sz.Table.Agree.{size2index_lookup-compute}
use jemalloc.Sz.Align.{sz_psz_quantize_floor, sz_psz_quantize_ceil}
use jemalloc.Sz.Align.Quantize.{Padded, quantize_floor_lem, quantize_ceil_lem}

size2index-least_example : (100 ≤ sz_index2size_compute 7) ↔ (sz_size2index_compute 100 ≤ 7)
size2index-least_example = size2index-least 100 7 (omega arith) (omega arith)

size2index-index2size_example : sz_size2index_compute (sz_index2size_compute 40) ≡ 40
size2index-index2size_example = size2index-index2size 40 (omega arith)

s2u-index2size_example :
    sz_s2u_compute false 100 ≡ sz_index2size_compute (sz_size2index_compute 100)
s2u-index2size_example = s2u-index2size 100 (omega arith)

psz2ind-least_example : (20000 ≤ sz_pind2sz_compute 4) ↔ (sz_psz2ind 20000 ≤ 4)
psz2ind-least_example = psz2ind-least 20000 4 (omega arith) (omega arith) (omega arith)

psz2ind-pind2sz_example : sz_psz2ind (sz_pind2sz_compute 50) ≡ 50
psz2ind-pind2sz_example = psz2ind-pind2sz 50 (omega arith)

size2index_lookup-compute_example :
    sz_size2index (sz_boot sc_data_init true) 100 ≡ sz_size2index_compute 100
size2index_lookup-compute_example = size2index_lookup-compute true 100 (omega arith)

-- 5 pages and the padding.
five_pages-Padded : Padded true 24576
unfolding sz_boot
five_pages-Padded = record { least_page = omega arith; in_classes = omega arith }

quantize_floor_lem_example :
    let t = sz_boot sc_data_init true in
    let f = sz_psz_quantize_floor t 24576 in
    (f ≤ 24576)
    × ((i : ℕ) × (i < sc_npsizes) × (f ≡ sz_pind2sz_compute i + t.sz_large_pad))
    × ((j : ℕ)
        → j < sc_npsizes
        → sz_pind2sz_compute j + t.sz_large_pad ≤ 24576
        → sz_pind2sz_compute j + t.sz_large_pad ≤ f)
quantize_floor_lem_example = quantize_floor_lem true 24576 five_pages-Padded

quantize_ceil_lem_example :
    let t = sz_boot sc_data_init true in
    sz_psz_quantize_ceil t 24576
    ≡ sz_pind2sz_compute (sz_psz2ind (24576 - t.sz_large_pad)) + t.sz_large_pad
quantize_ceil_lem_example = quantize_ceil_lem true 24576 five_pages-Padded
