-- ===== src/Sz/Index.antt =====
-- `sz_size2index_compute` and `sz_index2size_compute` of sz.h: the index of a size is the least one
-- whose class holds it.
use jemalloc.Base.{
  ℕ, ◌+◌, ◌-◌, ◌*◌, ◌/◌, ◌%◌, ◌^◌, ◌≤◌, ◌<◌, ◌≡◌, ◌↔◌, refl, inr, ap, arith, Bool, true, sub64,
  shl64, ltb, leb, ◌==◌, ◌||◌, ◌&&◌, pow2-eq, every_below, every_below_at, dec_lt,
}
use jemalloc.BitUtil.{lg_floor, pow2_ceil_zu, pow2_ceil_u64, fls_u64, fls_lu, clz}
use jemalloc.Sc.Params.{sc_large_maxclass, sc_nsizes}
use jemalloc.Sz.{sz_size2index_compute, sz_index2size_compute}
use jemalloc.Sz.Search.{Brackets, least, mono, class_index}
use jemalloc.Sz.Lg.{lg_double, spacing-ge, quotient, cleared, quotient-bounds, top_offset}

size2index-large :
    (s d : ℕ)
    → 64 < s
    → s ≤ sc_large_maxclass
    → lg_floor (sub64 (shl64 s 1) 1) ≡ d + 3
    → 4 ≤ d
    → sz_size2index_compute s ≡ 1 + (d - 3) * 4 + (s - 1) / 2 ^ d % 4
unfolding sz_size2index_compute
size2index-large s d lo hi e h =
    ground (arith, e, cleared (s - 1) d, pow2-eq {a = d + 3 - 2 - 1} {b = d} (omega arith))

-- The classes of the regular groups, each with its predecessor: `(5 + m) * spacing` for offset `m`.
in_group : ℕ → Bool
in_group k =
    let g = (k - 1) / 4 in
    let m = (k - 1) % 4 in
    ltb k 5
    || (sz_index2size_compute k == (5 + m) * 2 ^ (g + 3)
        && sz_index2size_compute (k - 1) == (4 + m) * 2 ^ (g + 3))

groups_table : every_below sc_nsizes in_group ≡ true
unfolding every_below in_group sz_index2size_compute
groups_table = refl

index2size-group :
    (g m k : ℕ)
    → 1 ≤ g
    → m < 4
    → k ≡ 1 + g * 4 + m
    → k < sc_nsizes
    → (sz_index2size_compute k ≡ (5 + m) * 2 ^ (g + 3))
      × (sz_index2size_compute (k - 1) ≡ (4 + m) * 2 ^ (g + 3))
unfolding in_group
index2size-group g m k hg hm e h =
    let p : (k - 1) / 4 ≡ g = omega arith in
    let q : (k - 1) % 4 ≡ m = omega arith in
    ground (arith, p, q, every_below_at sc_nsizes in_group k groups_table h)

abbrev pub SizeBrackets : ℕ → ℕ → Type 0
SizeBrackets = Brackets sz_index2size_compute sc_nsizes

brackets? : ℕ → Bool
brackets? s =
    let k = sz_size2index_compute s in
    ltb k sc_nsizes
    && (leb s (sz_index2size_compute k) && (k == 0 || ltb (sz_index2size_compute (k - 1)) s))

small_table : every_below 65 brackets? ≡ true
unfolding every_below brackets? sz_index2size_compute sz_size2index_compute lg_floor pow2_ceil_zu
    pow2_ceil_u64 fls_u64 fls_lu clz
small_table = refl

small-Brackets : (s : ℕ) → s < 65 → SizeBrackets s (sz_size2index_compute s)
unfolding brackets?
small-Brackets s h = ground (arith, every_below_at 65 brackets? s small_table h)

pub group_class :
    (d q k s : ℕ)
    → 4 ≤ d
    → d ≤ 60
    → s ≤ sc_large_maxclass
    → 4 ≤ q
    → q < 8
    → q * 2 ^ d < s
    → k ≡ 1 + (d - 3) * 4 + (q - 4)
    → (sz_index2size_compute k ≡ q * 2 ^ d + 2 ^ d) × (sz_index2size_compute (k - 1) ≡ q * 2 ^ d)
group_class d q k s h top hi q4 q8 lo e =
    let in_range : k < sc_nsizes = omega (arith, top_offset d q s top lo hi q8) in
    let (this, prev) = index2size-group (d - 3) (q - 4) k (omega arith) (omega arith) e in_range in
    let spacing = pow2-eq {a = d - 3 + 3} {b = d} (omega arith) in
    let same : q * 2 ^ d ≡ (4 + (q - 4)) * 2 ^ d = ap (λ t. t * 2 ^ d) (omega arith) in
    let this' : sz_index2size_compute k ≡ (5 + (q - 4)) * 2 ^ d = rw (← spacing) this in
    let prev' : sz_index2size_compute (k - 1) ≡ (4 + (q - 4)) * 2 ^ d = rw (← spacing) prev in
    (omega arith, omega arith)

group_Brackets :
    (s d q k : ℕ)
    → 4 ≤ d
    → d ≤ 60
    → s ≤ sc_large_maxclass
    → 4 ≤ q
    → q < 8
    → q * 2 ^ d < s
    → s ≤ q * 2 ^ d + 2 ^ d
    → k ≡ 1 + (d - 3) * 4 + (q - 4)
    → SizeBrackets s k
group_Brackets s d q k h top hi q4 q8 lo up e =
    let in_range : k < sc_nsizes = omega (arith, top_offset d q s top lo hi q8) in
    let (this, prev) = group_class d q k s h top hi q4 q8 lo e in
    (in_range, omega arith, inr (omega arith))

-- A size above 64 in its group: its index, and the class that the index stands for.
pub size2index-group :
    (s : ℕ)
    → 64 < s
    → s ≤ sc_large_maxclass
    → (d q : ℕ) × (lg_floor (sub64 (shl64 s 1) 1) ≡ d + 3)
      × (4 ≤ d)
      × (d ≤ 60)
      × (4 ≤ q)
      × (q < 8)
      × (q * 2 ^ d < s)
      × (s ≤ q * 2 ^ d + 2 ^ d)
      × (sz_size2index_compute s ≡ 1 + (d - 3) * 4 + (q - 4))
size2index-group s lo hi =
    let (d, e, top, a, b) = lg_double s (omega arith) hi in
    let h : 4 ≤ d = spacing-ge 4 d s (omega arith) b in
    let (q4, q8) = quotient d s a b in
    let (under, over) = quotient-bounds d s (omega arith) in
    let k = size2index-large s d lo hi e h in
    (d, (s - 1) / 2 ^ d, e, h, top, q4, q8, under, over, omega (arith, k))

large-Brackets : (s : ℕ) → 64 < s → s ≤ sc_large_maxclass → SizeBrackets s (sz_size2index_compute s)
large-Brackets s lo hi =
    let (d, q, e, h, top, q4, q8, under, over, k) = size2index-group s lo hi in
    group_Brackets s d q (sz_size2index_compute s) h top hi q4 q8 under over k

pub size2index-Brackets : (s : ℕ) → s ≤ sc_large_maxclass → SizeBrackets s (sz_size2index_compute s)
size2index-Brackets s hi = elim (dec_lt s 65) [
  | yes p ↦ small-Brackets s p
  | no p ↦ large-Brackets s (omega arith) hi
]

-- The classes grow with the index.
grows_table :
    every_below 231 (λ k. ltb (sz_index2size_compute k) (sz_index2size_compute (k + 1))) ≡ true
unfolding every_below sz_index2size_compute
grows_table = refl

pub index2size-lt-next :
    (k : ℕ) → k + 1 < sc_nsizes → sz_index2size_compute k < sz_index2size_compute (k + 1)
index2size-lt-next k h = ground (arith, every_below_at 231 _ k grows_table (omega arith))

-- For a size up to the largest class and every class index: the size fits the class exactly when its
-- own index is at most the class's. So the index is the least one whose class holds the size.
pub size2index-least :
    (s i : ℕ)
    → s ≤ sc_large_maxclass
    → i < sc_nsizes
    → (s ≤ sz_index2size_compute i) ↔ (sz_size2index_compute s ≤ i)
size2index-least s i hi h =
    least sz_index2size_compute sc_nsizes index2size-lt-next s _ i (size2index-Brackets s hi) h

top_class : sz_index2size_compute 231 ≡ sc_large_maxclass
unfolding sz_index2size_compute
top_class = refl

pub index2size-le-max : (i : ℕ) → i < sc_nsizes → sz_index2size_compute i ≤ sc_large_maxclass
index2size-le-max i h = omega (
  arith,
  top_class,
  mono sz_index2size_compute sc_nsizes index2size-lt-next i 231 (omega arith) (omega arith),
)

-- Every class index is the index that `sz_size2index_compute` gives for the size of its class.
pub size2index-index2size :
    (i : ℕ) → i < sc_nsizes → sz_size2index_compute (sz_index2size_compute i) ≡ i
size2index-index2size i h =
    class_index sz_index2size_compute sc_nsizes index2size-lt-next _ i
      (size2index-Brackets (sz_index2size_compute i) (index2size-le-max i h)) h
