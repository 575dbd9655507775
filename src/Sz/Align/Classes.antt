-- ===== src/Sz/Align/Classes.antt =====
-- Usable sizes and alignments: the class of an aligned size is aligned, and a large request gets a large
-- class. For `sz_sa2u` of include/jemalloc/internal/sz.h.
use native.Mathlib.Nat.{mul-mod_left, div-add-mod'}
use jemalloc.Sz.Search.{mono}
use jemalloc.Base.{
  subst, leb→le, le→leb, ℕ, ◌+◌, ◌-◌, ◌*◌, ◌/◌, ◌%◌, ◌^◌, ◌≤◌, ◌<◌, ◌≡◌, ◌∙◌, refl, inl, inr, ap,
  arith, Bool, true, false, leb, ◌==◌, ◌||◌, not, every_below, every_below_at, dec_lt, dec_le,
  Bool-cases, pow2-add, pow2-eq,
}
use jemalloc.BitUtil.{lg_floor, pow2_ceil_zu, pow2_ceil_u64, fls_u64, fls_lu, clz}
use jemalloc.Sc.Params.{page, sc_small_maxclass, sc_large_minclass, sc_large_maxclass, sc_nsizes}
use jemalloc.Sc.Build.{sc_data_init}
use jemalloc.Sz.{sz_size2index_compute, sz_index2size_compute, sz_s2u_compute}
use jemalloc.Sz.Index.{
  index2size-lt-next, size2index-group, group_class, size2index-Brackets, index2size-le-max,
}
use jemalloc.Sz.Usable.{s2u-index2size, s2u-disabled}
use jemalloc.Sz.Table.{
  sz_size2index_lookup, sz_boot, sz_s2u, sz_s2u_lookup, sz_index2size, sz_size2index,
}
use jemalloc.Sz.Table.Agree.{index2size_lookup-compute, size2index_lookup-compute}

-- A size that an alignment divides has a class that the alignment divides.
small_table :
    every_below 65 (λ s. every_below 13 (λ a.
      s == 0
      || (not (s % 2 ^ a == 0) || sz_index2size_compute (sz_size2index_compute s) % 2 ^ a == 0)))
    ≡ true
unfolding every_below sz_index2size_compute sz_size2index_compute lg_floor pow2_ceil_zu
    pow2_ceil_u64 fls_u64 fls_lu clz
small_table = refl

pow2-split : (a d : ℕ) → a ≤ d → 2 ^ d ≡ 2 ^ (d - a) * 2 ^ a
pow2-split a d h = pow2-eq {a = d} {b = d - a + a} (omega arith) ∙ pow2-add (d - a) a

multiple-mod : (x m c : ℕ) → x ≡ c * m → x % m ≡ 0
multiple-mod x m c e = rw e (mul-mod_left c m)

pub next_multiple : (q c e : ℕ) → q * e < c * e → c * e ≤ q * e + e → c * e ≡ q * e + e
next_multiple q c e lo hi = elim (dec_lt c (q + 1)) [
  | yes p ↦ absurd (let r : c * e ≤ q * e = grind arith in omega arith)
  | no p ↦ (let r : (q + 1) * e ≤ c * e = grind arith in omega arith)
]

-- A multiple of `2 ^ a` in the group of spacing `2 ^ d`: the class above it is one too.
group_aligned :
    (a d q s : ℕ)
    → s % 2 ^ a ≡ 0
    → q * 2 ^ d < s
    → s ≤ q * 2 ^ d + 2 ^ d
    → (q * 2 ^ d + 2 ^ d) % 2 ^ a ≡ 0
group_aligned a d q s h lo hi = elim (dec_le a d) [
  | yes p ↦
      multiple-mod (q * 2 ^ d + 2 ^ d) (2 ^ a) ((q + 1) * 2 ^ (d - a))
        (omega (arith, ap (λ t. (q + 1) * t) (pow2-split a d p)))
  | no p ↦
      let c = s / 2 ^ a * 2 ^ (a - d) in
      let e : s ≡ c * 2 ^ d =
        omega
          (arith, div-add-mod' s (2 ^ a), ap (λ t. s / 2 ^ a * t) (pow2-split d a (omega arith))) in
      let same = next_multiple q c (2 ^ d) (omega arith) (omega arith) in
      subst (λ t. t % 2 ^ a ≡ 0) (e ∙ same) h
]

small_aligned :
    (a s : ℕ)
    → 0 < s
    → s < 65
    → a < 13
    → s % 2 ^ a ≡ 0
    → sz_index2size_compute (sz_size2index_compute s) % 2 ^ a ≡ 0
small_aligned a s lo hi h e =
    ground (arith, every_below_at 13 _ a (every_below_at 65 _ s small_table hi) h)

-- The class of a multiple of `2 ^ a` is a multiple of it, for every alignment up to a page.
pub class_aligned :
    (a s : ℕ)
    → 0 < s
    → s ≤ sc_large_maxclass
    → a < 13
    → s % 2 ^ a ≡ 0
    → sz_index2size_compute (sz_size2index_compute s) % 2 ^ a ≡ 0
class_aligned a s lo hi h e = elim (dec_lt s 65) [
  | yes p ↦ small_aligned a s lo p h e
  | no p ↦
      let (d, q, _, d4, top, q4, q8, under, over, k) = size2index-group s (omega arith) hi in
      let (this, _) = group_class d q (sz_size2index_compute s) s d4 top hi q4 q8 under k in
      rw this (group_aligned a d q s e under over)
]

-- The setting of large size classes is not read for a small request.
s2u-small : (b : Bool) (s : ℕ) → s ≤ sc_small_maxclass → sz_s2u_compute b s ≡ sz_s2u_compute false s
unfolding sz_s2u_compute
s2u-small b s h = ground arith

lookup_s2u :
    (oblivious : Bool) (s : ℕ)
    → s ≤ 4096
    → sz_s2u_lookup (sz_boot sc_data_init oblivious) s
      ≡ sz_index2size_compute (sz_size2index_compute s)
unfolding sz_s2u_lookup sz_index2size sz_size2index
lookup_s2u oblivious s h =
    let k = sz_size2index_compute s in
    let t = sz_boot sc_data_init oblivious in
    let in_range = (size2index-Brackets s (omega arith)).0 in
    let same : sz_size2index_lookup t s ≡ k =
      rw (le→leb s 4096 h) at (size2index_lookup-compute oblivious s (omega arith)) in
    rw same (index2size_lookup-compute oblivious k in_range).1

-- `sz_s2u` on a small request is the class of its index, looked up or computed.
pub s2u-class :
    (oblivious disabled : Bool) (s : ℕ)
    → s ≤ sc_small_maxclass
    → sz_s2u (sz_boot sc_data_init oblivious) disabled s
      ≡ sz_index2size_compute (sz_size2index_compute s)
unfolding sz_s2u
s2u-class oblivious disabled s h = elim (Bool-cases (leb s 4096)) [
  | inl e ↦ rw e (lookup_s2u oblivious s (leb→le s 4096 e))
  | inr e ↦ rw e (s2u-small disabled s h ∙ s2u-index2size s (omega arith))
]

pub fits_class :
    (s : ℕ) → s ≤ sc_large_maxclass → s ≤ sz_index2size_compute (sz_size2index_compute s)
fits_class s h = (size2index-Brackets s h).1

pub s2u_compute-ge :
    (disabled : Bool) (s : ℕ)
    → sc_small_maxclass < s
    → s ≤ sc_large_maxclass
    → s ≤ sz_s2u_compute disabled s
s2u_compute-ge true s lo h = (s2u-disabled s lo h).0
s2u_compute-ge false s lo h = rw (s2u-index2size s h) (fits_class s h)

pub s2u-computed :
    (oblivious disabled : Bool) (s : ℕ)
    → 4096 < s
    → sz_s2u (sz_boot sc_data_init oblivious) disabled s ≡ sz_s2u_compute disabled s
unfolding sz_s2u
s2u-computed oblivious disabled s h = ground arith

-- `sz_s2u` never shrinks a request.
pub s2u-ge :
    (oblivious disabled : Bool) (s : ℕ)
    → s ≤ sc_large_maxclass
    → s ≤ sz_s2u (sz_boot sc_data_init oblivious) disabled s
s2u-ge oblivious disabled s h = elim (dec_le s sc_small_maxclass) [
  | yes p ↦ rw (s2u-class oblivious disabled s p) (fits_class s h)
  | no p ↦
      rw (s2u-computed oblivious disabled s (omega arith))
        (s2u_compute-ge disabled s (omega arith) h)
]

pub class35 :
    (sz_index2size_compute 35 ≡ sc_small_maxclass) × (sz_index2size_compute 36 ≡ sc_large_minclass)
unfolding sz_index2size_compute
class35 = (refl, refl)

-- Above the small classes the usable size is a large class.
pub s2u_compute-large :
    (disabled : Bool) (s : ℕ)
    → sc_small_maxclass < s
    → s ≤ sc_large_maxclass
    → sc_large_minclass ≤ sz_s2u_compute disabled s
s2u_compute-large true s lo h = omega (arith, s2u-disabled s lo h)
s2u_compute-large false s lo h =
    let (in_range, fits, _) = size2index-Brackets s h in
    let k = sz_size2index_compute s in
    let k36 : 36 ≤ k = above35 k in_range (omega arith) in
    omega (
      arith,
      s2u-index2size s h,
      class35.1,
      mono sz_index2size_compute sc_nsizes index2size-lt-next 36 k k36 in_range,
    )
  where
    above35 : (k : ℕ) → k < sc_nsizes → sc_small_maxclass < sz_index2size_compute k → 36 ≤ k
    above35 k h lt = elim (dec_le 36 k) [
      | yes p ↦ p
      | no p ↦ absurd (
          omega (
            arith,
            class35.0,
            mono sz_index2size_compute sc_nsizes index2size-lt-next k 35 (omega arith)
                (omega arith),
          ))
    ]

pub s2u_compute-le :
    (disabled : Bool) (s : ℕ)
    → sc_small_maxclass < s
    → s ≤ sc_large_maxclass
    → sz_s2u_compute disabled s ≤ sc_large_maxclass + page
s2u_compute-le true s lo h = omega (arith, (s2u-disabled s lo h).1)
s2u_compute-le false s lo h = omega (
  arith,
  s2u-index2size s h,
  index2size-le-max (sz_size2index_compute s) (size2index-Brackets s h).0,
)

-- The padding of `sz_boot` is at most a page.
pub large_pad-le : (oblivious : Bool) → (sz_boot sc_data_init oblivious).sz_large_pad ≤ page
unfolding sz_boot
large_pad-le oblivious = ground arith
