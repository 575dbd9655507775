-- ===== src/Sz/Lg.antt =====
-- The logarithm that sz.h takes of `(size << 1) - 1` finds the group of a size.
use native.Mathlib.Nat.{div-eq_of_lt-le}
use jemalloc.Base.{
  ◌/◌, ◌⊎◌, inl, inr, dec_lt, pow2_pos, shr, clear_low, ℕ, suc, ◌+◌, ◌-◌, ◌*◌, ◌^◌, ◌≤◌, ◌<◌, ◌≡◌,
  ◌∙◌, ap, arith, sub64, shl64, pow2-eq, pow2-suc, lt_of_pow2_lt, pow2-add,
}
use jemalloc.BitUtil.{lg_floor}
use jemalloc.BitUtil.Lg.{lg_floor-is}
use jemalloc.Sc.Params.{sc_large_maxclass}

pub doubled : (s : ℕ) → 0 < s → s < 2 ^ 63 → sub64 (shl64 s 1) 1 ≡ 2 * s - 1
doubled s p h = omega arith

pub pow2-times8 : (d : ℕ) → 2 ^ (d + 3) ≡ 8 * 2 ^ d
pow2-times8 d = omega (arith, pow2-add d 3)

-- Above 4, a size lies in the group whose spacing is `2 ^ d`.
pub lg_double :
    (s : ℕ)
    → 4 < s
    → s ≤ sc_large_maxclass
    → (d : ℕ) × (lg_floor (sub64 (shl64 s 1) 1) ≡ d + 3)
      × (d ≤ 60)
      × (4 * 2 ^ d < s)
      × (s ≤ 8 * 2 ^ d)
lg_double s lo hi =
    let (x, e, a, b, c) = lg_floor-is (2 * s - 1) (omega arith) (omega arith) in
    let x3 : 3 < suc x = lt_of_pow2_lt 3 (suc x) (omega arith) in
    let p : 2 ^ x ≡ 8 * 2 ^ (x - 3) =
      pow2-eq {a = x} {b = x - 3 + 3} (omega arith) ∙ pow2-times8 (x - 3) in
    (
      x - 3,
      ap lg_floor (doubled s (omega arith) (omega arith)) ∙ e ∙ omega arith,
      omega arith,
      omega arith,
      omega (arith, pow2-suc x),
    )

-- A size above `4 * 2 ^ n` has a spacing of at least `2 ^ n`, and one up to it a smaller one.
pub spacing-ge : (n d s : ℕ) → 4 * 2 ^ n < s → s ≤ 8 * 2 ^ d → n ≤ d
spacing-ge n d s lo hi =
    let h : n < suc d = lt_of_pow2_lt n (suc d) (omega (arith, pow2-suc d)) in omega arith

pub spacing-lt : (n d s : ℕ) → s ≤ 4 * 2 ^ n → 4 * 2 ^ d < s → d < n
spacing-lt n d s hi lo = lt_of_pow2_lt d n (omega arith)

-- The offset of a size in its group is the third digit of the quotient by the spacing.
pub quotient :
    (d s : ℕ) → 4 * 2 ^ d < s → s ≤ 8 * 2 ^ d → (4 ≤ (s - 1) / 2 ^ d) × ((s - 1) / 2 ^ d < 8)
quotient d s lo hi = grind (arith, pow2_pos d)

pub cleared : (x d : ℕ) → shr (clear_low x d) d ≡ shr x d
cleared x d = grind (arith, pow2_pos d)

-- `q` counts the whole spacings below the size.
pub quotient-bounds :
    (d s : ℕ) → 0 < s → let q = (s - 1) / 2 ^ d in (q * 2 ^ d < s) × (s ≤ q * 2 ^ d + 2 ^ d)
quotient-bounds d s h = grind (arith, pow2_pos d)

pub top_offset :
    (d q s : ℕ) → d ≤ 60 → q * 2 ^ d < s → s ≤ sc_large_maxclass → q < 8 → (d < 60) ⊎ (q < 7)
top_offset d q s top h hi hq = elim (dec_lt d 60) [
  | yes p ↦ inl p
  | no p ↦ let e : d ≡ 60 = omega arith in inr (omega (arith, ap (λ t. q * 2 ^ t) e))
]

-- Rounding up to the spacing `d2` gives the next multiple above `q * d2`.
pub round_up : (d2 q s : ℕ) → q * d2 < s → s ≤ q * d2 + d2 → (s + (d2 - 1)) / d2 * d2 ≡ q * d2 + d2
round_up d2 q s lo hi =
    let e : (s + (d2 - 1)) / d2 ≡ q + 1 =
      div-eq_of_lt-le {k = q + 1} d2 {m = s + (d2 - 1)} (omega arith) (omega arith) in
    omega (arith, ap (λ t. t * d2) e)
