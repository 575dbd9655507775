-- ===== src/Base/Bits.antt =====
-- `x & (x - 1)` at a variable: the test of bit_util.h for a power of two. The native `bit_and` is a
-- recursion on binary digits; one step of it is the equation that the rest goes by.
use Prim.Native.Nat.{
  ℕ, zero, suc, ◌+◌, ◌-◌, ◌*◌, ◌/◌, ◌%◌, ◌^◌, ◌≤◌, ◌<◌, min, bit_and, digits, bit_and-bitwise,
}
use mathlib.Core.Path.{◌≡◌, refl, ap₂, ◌∙◌}
use mathlib.Core.Logic.{◌↔◌}
use native.Mathlib.Omega.{arith}
use native.Mathlib.Decide.{ℕ_discrete}
use jemalloc.Base.Word.{pow2-suc, pow2_pos}

-- The recursion behind `bit_and`, on a number of rounds.
abbrev common_bits : ℕ → ℕ → ℕ → ℕ
common_bits = digits (λ _. zero) min

common_bits-zero : (rounds y : ℕ) → common_bits rounds 0 y ≡ 0
common_bits-zero zero y = refl
common_bits-zero (suc r) y = refl

-- As many rounds as the first number are enough.
enough_rounds :
    (bound rounds x y : ℕ)
    → x ≤ rounds
    → rounds ≤ bound
    → common_bits rounds x y ≡ common_bits x x y
enough_rounds bound r zero y h k = common_bits-zero r y
enough_rounds bound zero (suc x) y h k = absurd (omega arith)
enough_rounds zero (suc r) (suc x) y h k = absurd (omega arith)
enough_rounds (suc bound) (suc r) (suc x) y h k =
    let fewer = enough_rounds bound r (suc x / 2) (y / 2) (omega arith) (omega arith) in
    let least = enough_rounds bound x (suc x / 2) (y / 2) (omega arith) (omega arith) in
    omega (arith, fewer, least)

bit_and-digit_suc :
    (x y : ℕ) → bit_and (suc x) y ≡ min (suc x % 2) (y % 2) + 2 * bit_and (suc x / 2) (y / 2)
bit_and-digit_suc x y =
    let half = suc x / 2 in
    let same = enough_rounds x x half (y / 2) (omega arith) (omega arith) in
    omega (arith, same, bit_and-bitwise half (y / 2), bit_and-bitwise (suc x) y)

pub bit_and-digit : (x y : ℕ) → bit_and x y ≡ min (x % 2) (y % 2) + 2 * bit_and (x / 2) (y / 2)
bit_and-digit zero y = omega (arith, bit_and-bitwise 0 y, bit_and-bitwise 0 (y / 2))
bit_and-digit (suc x) y = bit_and-digit_suc x y

bit_and_self_fuel : (n a : ℕ) → a ≤ n → bit_and a a ≡ a
bit_and_self_fuel n zero h = bit_and-bitwise 0 0
bit_and_self_fuel zero (suc a) h = absurd (omega arith)
bit_and_self_fuel (suc n) (suc a) h =
    omega (arith, bit_and-digit (suc a) (suc a), bit_and_self_fuel n (suc a / 2) (omega arith))

pub bit_and_self : (a : ℕ) → bit_and a a ≡ a
bit_and_self a = bit_and_self_fuel a a (omega arith)

bit_and-eq : {a b c d : ℕ} → a ≡ c → b ≡ d → bit_and a b ≡ bit_and c d
bit_and-eq p q = ap₂ bit_and p q

odd_pred : (h : ℕ) → bit_and (2 * h + 1) (2 * h) ≡ 2 * h
odd_pred h = omega (
  arith,
  bit_and-digit (2 * h + 1) (2 * h),
  bit_and-eq {a = (2 * h + 1) / 2} {b = 2 * h / 2} {c = h} {d = h} (omega arith) (omega arith),
  bit_and_self h,
)

even_pred : (h : ℕ) → 0 < h → bit_and (2 * h) (2 * h - 1) ≡ 2 * bit_and h (h - 1)
even_pred h p = omega (
  arith,
  bit_and-digit (2 * h) (2 * h - 1),
  bit_and-eq {a = 2 * h / 2} {b = (2 * h - 1) / 2} {c = h} {d = h - 1} (omega arith) (omega arith),
)

-- Between two powers of two, `x & (x - 1)` is zero at the lower one only.
pub bit_and-pred_iff : (j x : ℕ) → 2 ^ j ≤ x → x < 2 ^ suc j → (bit_and x (x - 1) ≡ 0) ↔ (x ≡ 2 ^ j)
bit_and-pred_iff zero x lo hi = let e : x ≡ 1 = omega arith in rw e ((λ _. refl), (λ _. refl))
bit_and-pred_iff (suc j) x lo hi =
    let h = x / 2 in
    let ih : (bit_and h (h - 1) ≡ 0) ↔ (h ≡ 2 ^ j) =
      bit_and-pred_iff j (x / 2) (omega (arith, pow2-suc j))
        (omega (arith, pow2-suc j, pow2-suc (suc j))) in
    elim (ℕ_discrete (x % 2) 0) [
      | yes even ↦
          let e : x ≡ 2 * h = omega arith in
          let step : bit_and x (x - 1) ≡ 2 * bit_and h (h - 1) =
            bit_and-eq {a = x} {b = x - 1} {c = 2 * h} {d = 2 * h - 1} e (omega arith)
            ∙ even_pred h (omega (arith, pow2_pos j, pow2-suc j)) in
          (
            (λ z. omega (arith, ih.0 (omega arith), pow2-suc j)),
            (λ z. omega (arith, ih.1 (omega (arith, pow2-suc j)))),
          )
      | no odd ↦
          let step : bit_and x (x - 1) ≡ 2 * h =
            bit_and-eq {a = x} {b = x - 1} {c = 2 * h + 1} {d = 2 * h} (omega arith) (omega arith)
            ∙ odd_pred h in
          (
            (λ z. absurd (omega (arith, pow2_pos j, pow2-suc j))),
            (λ z. absurd (omega (arith, pow2-suc j))),
          )
    ]
