-- ===== src/Sz/Align/Usable.antt =====
-- What `sz_sa2u` of include/jemalloc/internal/sz.h returns: the least aligned small class, or the least
-- large class.
use jemalloc.Base.{ℕ, ◌+◌, ◌%◌, ◌^◌, ◌≤◌, ◌<◌, ◌≡◌, ◌⊎◌, Bool, true, false}
use jemalloc.Sc.Params.{page, sc_small_maxclass, sc_large_minclass, sc_nsizes}
use jemalloc.Sz.{sz_index2size_compute}

-- The least size class that holds the request and that the alignment divides, and it is small.
pub record IsSmallUsable (s alignment u : ℕ) : Type 0 where
  pub small : u < sc_large_minclass
  pub fits : s ≤ u
  pub aligned : u % alignment ≡ 0
  pub class : (i : ℕ) × (i < sc_nsizes) × (u ≡ sz_index2size_compute i)
  pub least :
      (j : ℕ)
      → j < sc_nsizes
      → s ≤ sz_index2size_compute j
      → sz_index2size_compute j % alignment ≡ 0
      → u ≤ sz_index2size_compute j

-- The least large class that holds the request; with large size classes disabled, the least large class
-- or the least multiple of a page.
pub record IsLargeUsable (disabled : Bool) (s u : ℕ) : Type 0 where
  pub large : sc_large_minclass ≤ u
  pub fits : s ≤ u
  pub class : disabled ≡ false → (i : ℕ) × (i < sc_nsizes) × (u ≡ sz_index2size_compute i)
  pub least :
      disabled ≡ false
      → (j : ℕ) → j < sc_nsizes
      → sc_large_minclass ≤ sz_index2size_compute j
      → s ≤ sz_index2size_compute j
      → u ≤ sz_index2size_compute j
  pub pages : disabled ≡ true → u % page ≡ 0
  pub near : disabled ≡ true → (u ≡ sc_large_minclass) ⊎ (u < s + page)

abbrev pub IsUsable : Bool → ℕ → ℕ → ℕ → Type 0
IsUsable disabled s a u =
    (IsSmallUsable s (2 ^ a) u × (s ≤ sc_small_maxclass) × (2 ^ a ≤ page))
    ⊎ IsLargeUsable disabled s u
