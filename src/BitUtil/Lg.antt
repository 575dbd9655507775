-- ===== src/BitUtil/Lg.antt =====
-- The binary logarithms of bit_util.h bound their argument by powers of two.
use jemalloc.Base.{
  bit_and-pred_iff, bit_and, ◌⊎◌, ◌≢◌, sym, ℕ_discrete, true, shl64, ℕ, zero, suc, ◌+◌, ◌-◌, ◌^◌,
  ◌≤◌, ◌<◌, ◌≡◌, refl, arith, bit_xor, leb, ◌==◌, Bool-cases, inl, inr, every_below, every_below_at,
  ==_iff, pow2_pos, pow2_mono, pow2-eq, lt_of_pow2_lt,
}
use jemalloc.BitUtil.{clz, fls_lu, fls_u64, lg_floor, lg_ceil, pow2_ceil_u64, pow2_ceil_zu}

clz_lem :
    (k x : ℕ) → 0 < x → x < 2 ^ k → (j : ℕ) × (suc j + clz k x ≡ k) × (2 ^ j ≤ x) × (x < 2 ^ suc j)
unfolding clz
clz_lem zero x p h = absurd (omega arith)
clz_lem (suc k) x p h = elim (Bool-cases (leb (2 ^ k) x)) [
  | inl e ↦ (k, rw e (omega arith), ground arith, h)
  | inr e ↦ let (j, a, b, c) = clz_lem k x p (ground arith) in (j, rw e (omega (arith, a)), b, c)
]

xor63_table : every_below 64 (λ c. bit_xor 63 c == 63 - c) ≡ true
unfolding every_below
xor63_table = refl

xor63 : (c : ℕ) → c < 64 → bit_xor 63 c ≡ 63 - c
xor63 c h = (==_iff _ _).0 (every_below_at 64 _ c xor63_table h)

-- The exponent of the highest power of two that is at most `x`.
pub lg_floor-is :
    (x : ℕ)
    → 0 < x
    → x < 2 ^ 64
    → (j : ℕ) × (lg_floor x ≡ j) × (j < 64) × (2 ^ j ≤ x) × (x < 2 ^ suc j)
unfolding lg_floor fls_u64 fls_lu
lg_floor-is x p h =
    let (j, a, b, c) = clz_lem 64 x p h in
    (j, omega (arith, a, xor63 (clz 64 x) (omega (arith, a))), omega (arith, a), b, c)

-- For a positive 64-bit word, `lg_floor` is below 64, and the word lies between that power of two and
-- the next.
pub lg_floor_lem :
    (x : ℕ)
    → 0 < x
    → x < 2 ^ 64
    → (lg_floor x < 64) × (2 ^ lg_floor x ≤ x) × (x < 2 ^ suc (lg_floor x))
lg_floor_lem x p h = let (j, e, a, b, c) = lg_floor-is x p h in rw e (a, b, c)

-- No other exponent brackets `x`.
pub lg_floor_unique : (x n : ℕ) → x < 2 ^ 64 → 2 ^ n ≤ x → x < 2 ^ suc n → lg_floor x ≡ n
lg_floor_unique x n h lo hi =
    let (j, e, a, b, c) = lg_floor-is x (omega (arith, pow2_pos n)) h in
    omega (arith, e, lt_of_pow2_lt j (suc n) (omega arith), lt_of_pow2_lt n (suc j) (omega arith))

shl64_one : (j : ℕ) → j < 63 → shl64 1 (j + 1) ≡ 2 ^ suc j
shl64_one j h = omega (
  arith,
  pow2-eq {a = j + 1} {b = suc j} (omega arith),
  pow2_mono {a = suc j} {b = 63} (omega arith),
)

-- For a word above 1 and up to `2 ^ 63`, `pow2_ceil_zu` is a power of two, at least the word, and its
-- half is below the word; so it does not wrap.
pub pow2_ceil-is :
    (x : ℕ)
    → 1 < x
    → x ≤ 2 ^ 63
    → (j : ℕ) × (pow2_ceil_zu x ≡ 2 ^ suc j) × (j < 63) × (2 ^ j < x) × (x ≤ 2 ^ suc j)
unfolding pow2_ceil_zu pow2_ceil_u64 lg_floor
pow2_ceil-is x p h =
    let (j, e, a, b, c) = lg_floor-is (x - 1) (omega arith) (omega arith) in
    let b' : j < 63 = lt_of_pow2_lt j 63 (omega arith) in
    (j, ground (arith, e, shl64_one j b'), b', omega arith, omega arith)

lt_of_ne : {a b : ℕ} → a ≤ b → a ≢ b → a < b
lt_of_ne p q = omega arith

lg_ceil-pow2 : (x j : ℕ) → lg_floor x ≡ j → bit_and x (x - 1) ≡ 0 → lg_ceil x ≡ j
unfolding lg_ceil
lg_ceil-pow2 x j e z = ground arith

lg_ceil-between : (x j : ℕ) → lg_floor x ≡ j → bit_and x (x - 1) ≢ 0 → lg_ceil x ≡ suc j
unfolding lg_ceil
lg_ceil-between x j e z = ground arith

-- For a positive 64-bit word: either it is a power of two and `lg_ceil` its exponent, or it lies
-- strictly between two neighbouring powers of two and `lg_ceil` is the exponent of the upper one.
pub lg_ceil-is :
    (x : ℕ)
    → 0 < x
    → x < 2 ^ 64
    → ((j : ℕ) × (lg_ceil x ≡ j) × (x ≡ 2 ^ j) × (j < 64))
      ⊎ ((j : ℕ) × (lg_ceil x ≡ suc j) × (2 ^ j < x) × (x < 2 ^ suc j) × (j < 64))
lg_ceil-is x p h =
    let (j, e, a, b, c) = lg_floor-is x p h in
    let pred = bit_and-pred_iff j x b c in
    elim (ℕ_discrete (bit_and x (x - 1)) 0) [
      | yes z ↦ inl (j, lg_ceil-pow2 x j e z, pred.0 z, a)
      | no z ↦ inr (j, lg_ceil-between x j e z, lt_of_ne b (λ q. z (pred.1 (sym q))), c, a)
    ]
