-- ===== src/Sz/Search.antt =====
-- Indices into a growing table of classes: what the two index computations of sz.h share.
use jemalloc.Base.{ℕ, zero, suc, ◌+◌, ◌-◌, ◌≤◌, ◌<◌, ◌≡◌, ◌⊎◌, ◌↔◌, arith, dec_lt, dec_le}

-- `k` is the index for `s` in a table of `n` classes: `s` fits the class, and not the one before.
abbrev pub Brackets : (ℕ → ℕ) → ℕ → ℕ → ℕ → Type 0
Brackets class n s k = (k < n) × (s ≤ class k) × ((k ≡ 0) ⊎ (class (k - 1) < s))

module _ (class : ℕ → ℕ) (n : ℕ) (grows : (k : ℕ) → k + 1 < n → class k < class (k + 1)) where
  pub mono_steps : (d i j : ℕ) → i + d ≡ j → j < n → class i ≤ class j
  mono_steps zero i j e h = rw (let p : i ≡ j = omega arith in p) (omega arith)
  mono_steps (suc d) i j e h =
      omega (arith, grows i (omega arith), mono_steps d (i + 1) j (omega arith) h)

  pub mono : (i j : ℕ) → i ≤ j → j < n → class i ≤ class j
  mono i j p h = mono_steps (j - i) i j (omega arith) h

  -- The bracketing index is the least one whose class is large enough.
  pub least : (s k i : ℕ) → Brackets class n s k → i < n → (s ≤ class i) ↔ (k ≤ i)
  least s k i (in_range, fits, prev) h = (
    (λ p. elim (dec_le k i) [
      | yes q ↦ q
      | no q ↦ absurd (omega (arith, prev, mono i (k - 1) (omega arith) (omega arith)))
    ]),
    (λ q. omega (arith, mono k i q h)),
  )

  -- So the index of a class is the class's own.
  pub class_index : (k i : ℕ) → Brackets class n (class i) k → i < n → k ≡ i
  class_index k i b h = elim (dec_lt k i) [
    | yes p ↦ absurd (omega (arith, b.1, grows k (omega arith), mono (k + 1) i (omega arith) h))
    | no p ↦ omega (arith, (least (class i) k i b h).0 (omega arith))
  ]
