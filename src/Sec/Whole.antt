-- ===== src/Sec/Whole.antt =====
-- What an operation on the small extent cache of src/sec.c does to all of its bins.
use jemalloc.Base.{
  ℕ, zero, suc, ◌+◌, ◌≤◌, ◌<◌, ◌≡◌, refl, ap, ◌∙◌, arith, ◌==◌, if_cases, List, put, put_same,
  put_other, ℕ_discrete,
}
use jemalloc.Sec.{Edata, SecOpts, SecBin}
use jemalloc.Sec.Account.{weigh, IsBin, IsKept}

-- What the extents in the first `n` bins weigh.
unfoldable pub total : (Edata → ℕ) → (ℕ → SecBin) → ℕ → ℕ
total w bins zero = 0
total w bins (suc n) = total w bins n + weigh w (bins n).freelist

total-above :
    (w : Edata → ℕ) (bins : ℕ → SecBin) (i : ℕ) (b : SecBin) (n : ℕ)
    → n ≤ i
    → total w (put bins i b) n ≡ total w bins n
unfolding total
total-above w bins i b zero h = refl
total-above w bins i b (suc n) h = omega (
  arith,
  total-above w bins i b n (omega (arith, h)),
  ap (λ (c : SecBin). weigh w c.freelist) (put_other bins i b n (λ e. omega (arith, e, h))),
)

total-put :
    (w : Edata → ℕ) (bins : ℕ → SecBin) (i : ℕ) (b : SecBin) (n : ℕ)
    → i < n
    → total w (put bins i b) n + weigh w (bins i).freelist ≡ total w bins n + weigh w b.freelist
unfolding total
total-put w bins i b zero h = absurd (omega (arith, h))
total-put w bins i b (suc n) h = elim (ℕ_discrete i n) [
  | yes e ↦ omega (
    arith,
    total-above w bins i b n (omega (arith, e)),
    ap (λ (c : SecBin). weigh w c.freelist) (put_same bins i b n e),
    ap (λ j. weigh w (bins j).freelist) e,
  )
  | no ne ↦ omega (
    arith,
    total-put w bins i b n (omega (arith, h, ne)),
    ap (λ (c : SecBin). weigh w c.freelist) (put_other bins i b n ne),
  )
]

module _ (opts : SecOpts) (n : ℕ) where
  abbrev pub AreBins : (ℕ → SecBin) → Type 0
  AreBins bins = (i : ℕ) → i < n → IsBin opts (bins i)

  -- The bins afterwards are sound, and what was in them or given to them is in them or handed out.
  pub record AreKept (bins : ℕ → SecBin) (given : List Edata) (bins' : ℕ → SecBin)
      (out : List Edata) : Type 0 where
    pub sound : AreBins bins'
    pub same : (w : Edata → ℕ) → total w bins n + weigh w given ≡ total w bins' n + weigh w out

  pub kept_as_is :
      (bins : ℕ → SecBin) (list : List Edata) → AreBins bins → AreKept bins list bins list
  kept_as_is bins list ok = record { sound = ok; same = λ w. refl }

  pub kept_twice :
      (bins bins' bins'' : ℕ → SecBin) (given between out : List Edata)
      → AreKept bins given bins' between
      → AreKept bins' between bins'' out
      → AreKept bins given bins'' out
  kept_twice bins bins' bins'' given between out k k' = record {
    sound = k'.sound;
    same = λ w. k.same w ∙ k'.same w;
  }

  pub put-AreKept :
      (bins : ℕ → SecBin) (i : ℕ) (given : List Edata) (b : SecBin) (out : List Edata)
      → AreBins bins
      → i < n
      → IsKept opts (bins i) given b out
      → AreKept bins given (put bins i b) out
  unfolding put
  put-AreKept bins i given b out ok h kept = record {
    sound = λ j lt. if_cases (IsBin opts) (i == j) (λ _. kept.sound) (λ _. ok j lt);
    same = λ w. omega (arith, kept.same w, total-put w bins i b n h);
  }
