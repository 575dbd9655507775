-- ===== src/Sz/Usable.antt =====
-- `sz_s2u_compute` of sz.h: the usable size of a request is the size of its class.
use jemalloc.Base.{
  ℕ, ◌+◌, ◌-◌, ◌*◌, ◌/◌, ◌%◌, ◌^◌, ◌≤◌, ◌<◌, ◌≡◌, ◌∙◌, refl, sym, arith, Bool, true, false, sub64,
  shl64, ◌==◌, pow2-eq, pow2_pos, pow2_mono, every_below, every_below_at, dec_lt, ==_iff,
}
use jemalloc.BitUtil.{lg_floor, pow2_ceil_zu, pow2_ceil_u64, fls_u64, fls_lu, clz}
use jemalloc.Sc.Params.{sc_large_maxclass, sc_small_maxclass, page}
use jemalloc.Sz.{
  sz_size2index_compute, sz_index2size_compute, sz_s2u_compute, sz_s2u_compute_using_delta,
}
use jemalloc.Sz.Lg.{round_up}
use jemalloc.Sz.Index.{size2index-group, group_class}

small_table :
    every_below 65 (λ s. sz_s2u_compute false s == sz_index2size_compute (sz_size2index_compute s))
    ≡ true
unfolding every_below sz_s2u_compute sz_s2u_compute_using_delta sz_index2size_compute
    sz_size2index_compute lg_floor pow2_ceil_zu pow2_ceil_u64 fls_u64 fls_lu clz
small_table = refl

-- Above 64 the usable size is the size rounded up to the spacing of its group.
s2u_using_delta-large :
    (s d : ℕ)
    → 64 < s
    → s ≤ sc_large_maxclass
    → lg_floor (sub64 (shl64 s 1) 1) ≡ d + 3
    → 4 ≤ d
    → d ≤ 60
    → sz_s2u_compute_using_delta s ≡ (s + (2 ^ d - 1)) / 2 ^ d * 2 ^ d
unfolding sz_s2u_compute_using_delta
s2u_using_delta-large s d lo hi e h top = ground (
  arith,
  e,
  pow2_pos d,
  pow2_mono {a = d} {b = 60} top,
  pow2-eq {a = d + 3 - 2 - 1} {b = d} (omega arith),
)

s2u-large :
    (s : ℕ)
    → 64 < s
    → s ≤ sc_large_maxclass
    → sz_s2u_compute_using_delta s ≡ sz_index2size_compute (sz_size2index_compute s)
s2u-large s lo hi =
    let (d, q, e, h, top, q4, q8, under, over, k) = size2index-group s lo hi in
    let (this, _) = group_class d q (sz_size2index_compute s) s h top hi q4 q8 under k in
    s2u_using_delta-large s d lo hi e h top ∙ round_up (2 ^ d) q s under over ∙ sym this

enabled :
    (s : ℕ) → 8 < s → s ≤ sc_large_maxclass → sz_s2u_compute false s ≡ sz_s2u_compute_using_delta s
unfolding sz_s2u_compute
enabled s lo hi = ground arith

-- With large size classes enabled and a request up to the largest class, 0 included, the usable size
-- is the size of the class that the index of the request names.
pub s2u-index2size :
    (s : ℕ)
    → s ≤ sc_large_maxclass
    → sz_s2u_compute false s ≡ sz_index2size_compute (sz_size2index_compute s)
s2u-index2size s hi = elim (dec_lt s 65) [
  | yes p ↦ (==_iff _ _).0 (every_below_at 65 _ s small_table p)
  | no p ↦ enabled s (omega arith) hi ∙ s2u-large s (omega arith) hi
]

-- With large size classes disabled, a request above the small classes and up to the largest class
-- gets the least multiple of a page that holds it.
pub s2u-disabled :
    (s : ℕ)
    → sc_small_maxclass < s
    → s ≤ sc_large_maxclass
    → let u = sz_s2u_compute true s in (s ≤ u) × (u < s + page) × (u % page ≡ 0)
unfolding sz_s2u_compute
s2u-disabled s lo hi = ground arith

-- A request above the largest class has no usable size.
pub s2u-too_large : (b : Bool) (s : ℕ) → sc_large_maxclass < s → sz_s2u_compute b s ≡ 0
unfolding sz_s2u_compute
s2u-too_large b s h = ground arith
