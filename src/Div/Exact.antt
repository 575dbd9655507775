-- ===== src/Div/Exact.antt =====
-- Dividing a multiple of the divisor by `div_compute` of include/jemalloc/internal/div.h.
use jemalloc.Base.{
  ℕ, ◌+◌, ◌-◌, ◌*◌, ◌/◌, ◌%◌, ◌^◌, ◌≤◌, ◌<◌, ◌≡◌, ap, ◌∙◌, arith, eq→==, neq→==, ℕ_discrete,
}
use native.Mathlib.Nat.{mod-add-div, mod-lt, mul-le-mul_right, mul-add, mul_right_comm, add-mul}
use jemalloc.Div.{div_init, div_compute}

-- The magic number is the ceiling of `2 ^ 32 / d`: `d` times it is `2 ^ 32` and some `r` below `d`.
ceiling : (d : ℕ) → 1 < d → (r : ℕ) × (r < d) × (d * (div_init d).magic ≡ 2 ^ 32 + r)
unfolding div_init
ceiling d h =
    let q = 2 ^ 32 / d in
    let m = 2 ^ 32 % d in
    let whole : m + d * q ≡ 2 ^ 32 = mod-add-div (2 ^ 32) d in
    let small : m < d = mod-lt (2 ^ 32) (omega arith) in
    let twice : 2 * q ≤ d * q = mul-le-mul_right q (omega arith) in
    let fits : q % 2 ^ 32 ≡ q = omega arith in
    let fits' : (q + 1) % 2 ^ 32 ≡ q + 1 = omega arith in
    elim (ℕ_discrete m 0) [
      | yes e ↦ rw (eq→== m 0 e, fits) (0, omega arith, omega arith)
      | no n ↦ rw (neq→== m 0 n, fits, fits') (d - m, omega arith, mul-add d q 1 ∙ omega arith)
    ]

exact :
    (d i r magic : ℕ)
    → 1 < d
    → d * i < 2 ^ 32
    → r < d
    → d * magic ≡ 2 ^ 32 + r
    → (d * i * magic) % 2 ^ 64 / 2 ^ 32 ≡ i
exact d i r magic h n-fits r-small e =
    let twice : 2 * i ≤ d * i = mul-le-mul_right i (omega arith) in
    let part : r * i ≤ d * i = mul-le-mul_right i (omega arith) in
    let product : d * i * magic ≡ 2 ^ 32 * i + r * i =
      mul_right_comm d i magic ∙ ap (λ x. x * i) e ∙ add-mul (2 ^ 32) r i in
    rw product (omega arith)

-- For a divisor of at least 2 and a multiple of it that has 32 bits: `div_compute` with what
-- `div_init` computes returns the quotient.
pub div_compute-div_init : (d i : ℕ) → 1 < d → d * i < 2 ^ 32 → div_compute (div_init d) (d * i) ≡ i
unfolding div_compute
div_compute-div_init d i h fits =
    let (r, small, e) = ceiling d h in exact d i r (div_init d).magic h fits small e
