-- ===== src/Base/Word.antt =====
-- 64-bit and 32-bit words: the operations that wrap, written out on native numbers.
use Prim.Native.Nat.{ℕ, zero, suc, ◌+◌, ◌-◌, ◌*◌, ◌/◌, ◌%◌, ◌^◌, ◌≤◌, ◌<◌}
use mathlib.Core.Path.{◌≡◌, ap}
use mathlib.Core.Bool.{Bool, true, ◌&&◌}
use native.Mathlib.Omega.{arith}
use native.Mathlib.Nat.{pow-le-pow_right, one-le-pow}
use native.Mathlib.Nat
use native.Mathlib.Decide.{dec_lt}

-- The value of a 64-bit computation, and of a 32-bit one.
abbrev pub u64 : ℕ → ℕ
u64 x = x % 2 ^ 64

abbrev pub u32 : ℕ → ℕ
u32 x = x % 2 ^ 32

-- And of a 16-bit one.
abbrev pub u16 : ℕ → ℕ
u16 x = x % 2 ^ 16

abbrev pub sub16 : ℕ → ℕ → ℕ
sub16 x y = u16 (2 ^ 16 + x - y)

-- A subtraction that wraps below 0.
abbrev pub sub64 : ℕ → ℕ → ℕ
sub64 x y = u64 (2 ^ 64 + x - y)

-- x << k on 64 bits, and x >> k.
abbrev pub shl64 : ℕ → ℕ → ℕ
shl64 x k = (x * 2 ^ k) % 2 ^ 64

abbrev pub shr : ℕ → ℕ → ℕ
shr word places = word / 2 ^ places

-- x & ((1 << k) - 1), and x & ~((1 << k) - 1).
abbrev pub low_bits : ℕ → ℕ → ℕ
low_bits word places = word % 2 ^ places

abbrev pub clear_low : ℕ → ℕ → ℕ
clear_low x k = x / 2 ^ k * 2 ^ k

pub pow2_pos : (k : ℕ) → 0 < 2 ^ k
pow2_pos k = one-le-pow k 2 (omega arith)

pub pow2-suc : (k : ℕ) → 2 ^ suc k ≡ 2 * 2 ^ k
pow2-suc k = omega (arith, Nat.pow-suc 2 k)

pub pow2-eq : {a b : ℕ} → a ≡ b → 2 ^ a ≡ 2 ^ b
pow2-eq e = ap (λ k. 2 ^ k) e

pub pow2-add : (a b : ℕ) → 2 ^ (a + b) ≡ 2 ^ a * 2 ^ b
pow2-add zero b = omega (arith, pow2-eq {a = 0 + b} {b = b} (omega arith))
pow2-add (suc a) b = omega (
  arith,
  pow2-eq {a = suc a + b} {b = suc (a + b)} (omega arith),
  pow2-suc (a + b),
  pow2-add a b,
  ap (λ k. k * 2 ^ b) (pow2-suc a),
)

pub pow2_mono : {a b : ℕ} → a ≤ b → 2 ^ a ≤ 2 ^ b
pow2_mono h = pow-le-pow_right (omega arith) h

-- A power of two below another has a smaller exponent.
pub lt_of_pow2_lt : (a b : ℕ) → 2 ^ a < 2 ^ b → a < b
lt_of_pow2_lt a b h = elim (dec_lt a b) [
  | yes p ↦ p
  | no p ↦ absurd (omega (arith, pow2_mono {a = b} {b = a} (omega arith)))
]

-- Check every value of a small range by evaluation.
unfoldable pub every_below : ℕ → (ℕ → Bool) → Bool
every_below zero test = true
every_below (suc k) test = every_below k test && test k

pub every_below_at :
    (count : ℕ) (test : ℕ → Bool) (i : ℕ)
    → every_below count test ≡ true
    → i < count
    → test i ≡ true
unfolding every_below
every_below_at zero test i passed small = absurd (omega arith)
every_below_at (suc k) test i passed small = elim (dec_lt i k) [
  | yes earlier ↦ every_below_at k test i (ground arith) earlier
  | no late ↦ let same : i ≡ k = omega arith in rw same (ground arith)
]
