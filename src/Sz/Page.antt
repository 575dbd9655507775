-- ===== src/Sz/Page.antt =====
-- The page size classes of sz.h: `sz_psz2ind`, `sz_pind2sz_compute` and `sz_psz2u`.
pub mod Usable
use jemalloc.Base.{
  ℕ, suc, ◌+◌, ◌-◌, ◌*◌, ◌/◌, ◌%◌, ◌^◌, ◌≤◌, ◌<◌, ◌≡◌, ◌⊎◌, ◌↔◌, ◌∙◌, refl, inl, inr, ap, arith,
  Bool, true, ltb, ◌==◌, ◌||◌, ◌&&◌, pow2-eq, pow2_pos, pow2-suc, lt_of_pow2_lt, every_below,
  every_below_at, dec_lt, dec_le, ==_iff,
}
use jemalloc.BitUtil.{lg_floor, lg_ceil, fls_u64, fls_lu, clz}
use jemalloc.BitUtil.Lg.{lg_ceil-is}
use jemalloc.Sc.Params.{sc_large_maxclass, sc_npsizes}
use jemalloc.Sz.{sz_psz2ind, sz_pind2sz_compute}
use jemalloc.Sz.Search.{Brackets, least, mono, class_index}
use jemalloc.Sz.Lg.{spacing-ge, spacing-lt, pow2-times8, quotient, quotient-bounds, top_offset}

-- The group of a page size: its spacing is `2 ^ d`.
pub lg_ceil-group :
    (s : ℕ)
    → 4 < s
    → s ≤ sc_large_maxclass
    → (d : ℕ) × (lg_ceil s ≡ d + 3) × (d ≤ 60) × (4 * 2 ^ d < s) × (s ≤ 8 * 2 ^ d)
lg_ceil-group s lo hi = elim (lg_ceil-is s (omega arith) (omega arith)) [
  | inl (j, e, p, top) ↦
      let j3 : 2 < j = lt_of_pow2_lt 2 j (omega arith) in
      let j62 : j < 63 = lt_of_pow2_lt j 63 (omega arith) in
      let w = pow2-eq {a = j} {b = j - 3 + 3} (omega arith) ∙ pow2-times8 (j - 3) in
      (j - 3, omega arith, omega arith, omega (arith, w, pow2_pos (j - 3)), omega arith)
  | inr (j, e, p, q, top) ↦
      let j3 : 2 < suc j = lt_of_pow2_lt 2 (suc j) (omega arith) in
      let j62 : j < 63 = lt_of_pow2_lt j 63 (omega arith) in
      let w = pow2-eq {a = suc j} {b = suc j - 3 + 3} (omega arith) ∙ pow2-times8 (suc j - 3) in
      (suc j - 3, omega arith, omega arith, omega (arith, w, pow2-suc j), omega arith)
]

-- One group holds a size: any other spacing that brackets it is the same.
pub same_group :
    (s d : ℕ)
    → 4 < s
    → s ≤ sc_large_maxclass
    → 4 * 2 ^ d < s
    → s ≤ 8 * 2 ^ d
    → (lg_ceil s ≡ d + 3) × (d ≤ 60)
same_group s d lo hi a b =
    let (d', e, top, a', b') = lg_ceil-group s lo hi in
    let one = spacing-ge d d' s a b' in
    let two = spacing-ge d' d s a' b in (omega arith, omega arith)

psz2ind-large :
    (s d : ℕ)
    → s ≤ sc_large_maxclass
    → lg_ceil s ≡ d + 3
    → 12 ≤ d
    → sz_psz2ind s ≡ (d - 11) * 4 + (s - 1) / 2 ^ d % 4
unfolding sz_psz2ind
psz2ind-large s d hi e h =
    ground (arith, e, pow2-eq {a = 12 + (d + 3 - 14 - 1)} {b = d} (omega arith))

psz2ind-small :
    (s d : ℕ)
    → s ≤ sc_large_maxclass
    → lg_ceil s ≡ d + 3
    → d < 12
    → sz_psz2ind s ≡ (s - 1) / 4096 % 4
unfolding sz_psz2ind
psz2ind-small s d hi e h = ground (arith, e)

-- The page classes of the regular groups, each with its predecessor.
in_group : ℕ → Bool
in_group k =
    let g = k / 4 in
    let m = k % 4 in
    ltb k 4
    || (sz_pind2sz_compute k == (5 + m) * 2 ^ (g + 11)
        && sz_pind2sz_compute (k - 1) == (4 + m) * 2 ^ (g + 11))

groups_table : every_below sc_npsizes in_group ≡ true
unfolding every_below in_group sz_pind2sz_compute
groups_table = refl

pind2sz-group :
    (g m k : ℕ)
    → 1 ≤ g
    → m < 4
    → k ≡ g * 4 + m
    → k < sc_npsizes
    → (sz_pind2sz_compute k ≡ (5 + m) * 2 ^ (g + 11))
      × (sz_pind2sz_compute (k - 1) ≡ (4 + m) * 2 ^ (g + 11))
unfolding in_group
pind2sz-group g m k hg hm e h =
    let p : k / 4 ≡ g = omega arith in
    let q : k % 4 ≡ m = omega arith in
    ground (arith, p, q, every_below_at sc_npsizes in_group k groups_table h)

pub group_class :
    (d q k s : ℕ)
    → 12 ≤ d
    → d ≤ 60
    → s ≤ sc_large_maxclass
    → 4 ≤ q
    → q < 8
    → q * 2 ^ d < s
    → k ≡ (d - 11) * 4 + (q - 4)
    → (k < sc_npsizes)
      × (sz_pind2sz_compute k ≡ q * 2 ^ d + 2 ^ d)
      × (sz_pind2sz_compute (k - 1) ≡ q * 2 ^ d)
group_class d q k s h top hi q4 q8 lo e =
    let in_range : k < sc_npsizes = omega (arith, top_offset d q s top lo hi q8) in
    let (this, prev) = pind2sz-group (d - 11) (q - 4) k (omega arith) (omega arith) e in_range in
    let spacing = pow2-eq {a = d - 11 + 11} {b = d} (omega arith) in
    let same : q * 2 ^ d ≡ (4 + (q - 4)) * 2 ^ d = ap (λ t. t * 2 ^ d) (omega arith) in
    let this' : sz_pind2sz_compute k ≡ (5 + (q - 4)) * 2 ^ d = rw (← spacing) this in
    let prev' : sz_pind2sz_compute (k - 1) ≡ (4 + (q - 4)) * 2 ^ d = rw (← spacing) prev in
    (in_range, omega arith, omega arith)

abbrev pub PageBrackets : ℕ → ℕ → Type 0
PageBrackets = Brackets sz_pind2sz_compute sc_npsizes

-- The first four classes are the multiples of a page.
first_table : every_below 4 (λ k. sz_pind2sz_compute k == (k + 1) * 4096) ≡ true
unfolding every_below sz_pind2sz_compute
first_table = refl

first_classes : (k : ℕ) → k < 4 → sz_pind2sz_compute k ≡ (k + 1) * 4096
first_classes k h = (==_iff _ _).0 (every_below_at 4 _ k first_table h)

tiny_table : every_below 5 (λ s. s == 0 || sz_psz2ind s == 0) ≡ true
unfolding every_below sz_psz2ind lg_ceil lg_floor fls_u64 fls_lu clz
tiny_table = refl

tiny-index : (s : ℕ) → 0 < s → s < 5 → sz_psz2ind s ≡ 0
tiny-index s lo h = ground (arith, every_below_at 5 _ s tiny_table h)

pub psz2ind-first : (s : ℕ) → 0 < s → s ≤ 16384 → sz_psz2ind s ≡ (s - 1) / 4096
psz2ind-first s lo hi = elim (dec_lt s 5) [
  | yes p ↦ omega (arith, tiny-index s lo p)
  | no p ↦
      let (d, e, top, a, b) = lg_ceil-group s (omega arith) (omega arith) in
      omega (arith, psz2ind-small s d (omega arith) e (spacing-lt 12 d s hi a))
]

first-Brackets : (s k : ℕ) → 0 < s → s ≤ 16384 → k ≡ (s - 1) / 4096 → PageBrackets s k
first-Brackets s k lo hi e =
    let this = first_classes k (omega arith) in (omega arith, omega arith, before)
  where
    before : (k ≡ 0) ⊎ (sz_pind2sz_compute (k - 1) < s)
    before = elim (dec_lt 0 k) [
      | yes p ↦ inr (omega (arith, first_classes (k - 1) (omega arith)))
      | no p ↦ inl (omega arith)
    ]

-- A size above four pages in its group: its index, and the class that the index stands for.
pub psz2ind-group :
    (s : ℕ)
    → 16384 < s
    → s ≤ sc_large_maxclass
    → (d q : ℕ) × (lg_ceil s ≡ d + 3)
      × (12 ≤ d)
      × (d ≤ 60)
      × (4 ≤ q)
      × (q < 8)
      × (q * 2 ^ d < s)
      × (s ≤ q * 2 ^ d + 2 ^ d)
      × (sz_psz2ind s ≡ (d - 11) * 4 + (q - 4))
psz2ind-group s lo hi =
    let (d, e, top, a, b) = lg_ceil-group s (omega arith) hi in
    let h : 12 ≤ d = spacing-ge 12 d s (omega arith) b in
    let (q4, q8) = quotient d s a b in
    let (under, over) = quotient-bounds d s (omega arith) in
    let k = psz2ind-large s d hi e h in
    (d, (s - 1) / 2 ^ d, e, h, top, q4, q8, under, over, omega (arith, k))

large-Brackets : (s : ℕ) → 16384 < s → s ≤ sc_large_maxclass → PageBrackets s (sz_psz2ind s)
large-Brackets s lo hi =
    let (d, q, e, h, top, q4, q8, under, over, k) = psz2ind-group s lo hi in
    let (in_range, this, prev) = group_class d q (sz_psz2ind s) s h top hi q4 q8 under k in
    (in_range, omega arith, inr (omega arith))

pub psz2ind-Brackets : (s : ℕ) → 0 < s → s ≤ sc_large_maxclass → PageBrackets s (sz_psz2ind s)
psz2ind-Brackets s lo hi = elim (dec_le s 16384) [
  | yes p ↦ first-Brackets s (sz_psz2ind s) lo p (psz2ind-first s lo p)
  | no p ↦ large-Brackets s (omega arith) hi
]

grows_table : every_below 198 (λ k. ltb (sz_pind2sz_compute k) (sz_pind2sz_compute (k + 1))) ≡ true
unfolding every_below sz_pind2sz_compute
grows_table = refl

pub pind2sz-lt-next :
    (k : ℕ) → k + 1 < sc_npsizes → sz_pind2sz_compute k < sz_pind2sz_compute (k + 1)
pind2sz-lt-next k h = ground (arith, every_below_at 198 _ k grows_table (omega arith))

-- For a positive size up to the largest class and every page class index: the size fits the class
-- exactly when its own index is at most the class's.
pub psz2ind-least :
    (s i : ℕ)
    → 0 < s
    → s ≤ sc_large_maxclass
    → i < sc_npsizes
    → (s ≤ sz_pind2sz_compute i) ↔ (sz_psz2ind s ≤ i)
psz2ind-least s i lo hi h =
    least sz_pind2sz_compute sc_npsizes pind2sz-lt-next s _ i (psz2ind-Brackets s lo hi) h

top_class : sz_pind2sz_compute 198 ≡ sc_large_maxclass
unfolding sz_pind2sz_compute
top_class = refl

pub pind2sz-bounds :
    (i : ℕ)
    → i < sc_npsizes
    → (4096 ≤ sz_pind2sz_compute i) × (sz_pind2sz_compute i ≤ sc_large_maxclass)
pind2sz-bounds i h =
    let up = mono sz_pind2sz_compute sc_npsizes pind2sz-lt-next in
    (
      omega (arith, first_classes 0 (omega arith), up 0 i (omega arith) h),
      omega (arith, top_class, up i 198 (omega arith) (omega arith)),
    )

-- Every page class index is the index that `sz_psz2ind` gives for the size of its class.
pub psz2ind-pind2sz : (i : ℕ) → i < sc_npsizes → sz_psz2ind (sz_pind2sz_compute i) ≡ i
psz2ind-pind2sz i h =
    let (lo, hi) = pind2sz-bounds i h in
    class_index sz_pind2sz_compute sc_npsizes pind2sz-lt-next _ i
      (psz2ind-Brackets (sz_pind2sz_compute i) (omega arith) hi) h
