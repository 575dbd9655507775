-- ===== src/Hpa/Batch.antt =====
-- The loop over the offsets of a batch in `hpa_try_alloc_from_one_ps` of src/hpa.c.
use jemalloc.Base.{
  if◌then◌else◌, ℕ, suc, ◌+◌, ◌-◌, ◌^◌, ◌≤◌, ◌<◌, ◌≡◌, ◌⊎◌, inl, inr, refl, sym, subst, ap, ◌∙◌,
  arith, Bool, true, false, Option, none, some, List, [], ◌∷◌, max, length, shr,
}
use jemalloc.Sc.Params.{lg_page}
use jemalloc.Fb.{Fb, fb_get}
use jemalloc.Fb.Longest.{IsRun}
use jemalloc.Hpdata.{Hpdata, hugepage_pages}
use jemalloc.Hpdata.Offsets.{AllocOffset, hpdata_reserve_alloc_offset}
use jemalloc.Hpdata.Counts.{IsCounted, IsFree}
use jemalloc.Hpdata.Keep.{reserve-IsCounted}
use jemalloc.Hpdata.Trace.{Trace, stop, here, next}
use jemalloc.Hpdata.Progress.{At, At-next, At-here}
use jemalloc.Hpa.{hpa_try_alloc_one_offset, try_alloc_from}
use jemalloc.Hpa.Undo.{reserve-Keeps, reserve_bits, undone, undo-IsCounted, undo_bits, undo-Keeps}
use jemalloc.Hpa.Taken.{IsBatch, none_taken, here-IsBatch}

module _ (has_edata : ℕ → Bool) (err : ℕ → Bool) (size : ℕ) where
  -- What one offset does: nothing, a reservation that is undone, or one that stays.
  one_offset_cases :
      (has : Bool) (h : Hpdata) (o : AllocOffset)
      → (hpa_try_alloc_one_offset has err size h o ≡ (h, none))
        ⊎ ((hpa_try_alloc_one_offset has err size h o ≡ (undone h size o, none))
            ⊎ (hpa_try_alloc_one_offset has err size h o ≡ (
              (hpdata_reserve_alloc_offset h size o).0,
              some (hpdata_reserve_alloc_offset h size o).1,
            )))
  unfolding hpa_try_alloc_one_offset undone
  one_offset_cases false h o = inl refl
  one_offset_cases true h o = inr (failing (err (hpdata_reserve_alloc_offset h size o).1))
    where
      choice : Bool → Hpdata × Option ℕ
      choice bad = if bad then (undone h size o, none) else (
        (hpdata_reserve_alloc_offset h size o).0,
        some (hpdata_reserve_alloc_offset h size o).1,
      )

      failing : (bad : Bool) → (choice bad ≡ choice true) ⊎ (choice bad ≡ choice false)
      failing true = inl refl
      failing false = inr refl

  -- The loop after one offset.
  abbrev rest_of : ℕ → List AllocOffset → Hpdata × Option ℕ → Hpdata × List ℕ
  rest_of k os (h, none) = (h, [])
  rest_of k os (h, some addr) = (
    (try_alloc_from has_edata err size (k + 1) os h).0,
    addr ∷ (try_alloc_from has_edata err size (k + 1) os h).1,
  )

  one_and_rest :
      (k : ℕ) (h : Hpdata) (o : AllocOffset) (os : List AllocOffset)
      → try_alloc_from has_edata err size k (o ∷ os) h
        ≡ rest_of k os (hpa_try_alloc_one_offset (has_edata k) err size h o)
  unfolding try_alloc_from
  one_and_rest k h o os = refl

  no_offsets : (k : ℕ) (h : Hpdata) → try_alloc_from has_edata err size k [] h ≡ (h, [])
  unfolding try_alloc_from
  no_offsets k h = refl

  module _ (active : Fb) (some_pages : 0 < shr size lg_page) where
    pub try_alloc_from-IsBatch :
        (pos rem longest : ℕ) (offsets : List AllocOffset)
        → Trace active (shr size lg_page) pos rem longest offsets
        → (k : ℕ) (h : Hpdata) → IsCounted h
        → h.h_address < 2 ^ 64
        → ((b len : ℕ)
            → b + len ≤ hugepage_pages
            → IsRun active false b len
            → len ≤ h.h_longest_free_range)
        → At (fb_get active) (fb_get h.active_pages) pos rem longest
        → IsBatch active
            (shr size lg_page)
            h
            offsets
            (try_alloc_from has_edata err size k offsets h)
    try_alloc_from-IsBatch pos rem longest _ stop k h c word most at =
        subst (λ r. IsBatch active (shr size lg_page) h [] r) (sym (no_offsets k h))
          (none_taken active (shr size lg_page) h h [] c
            (record { address = refl; longest = refl; flags = refl }) refl (λ j. refl))
    try_alloc_from-IsBatch pos rem longest os (next b len r t) k h c word most at =
        try_alloc_from-IsBatch b len (max longest rem) os t k h c word most
          (At-next active b len at r)
    try_alloc_from-IsBatch pos rem longest (o ∷ os) (here fits t) k h c word most at =
        let fit : pos + shr size lg_page ≤ hugepage_pages = omega (arith, fits, at.within) in
        let free : IsFree h.active_pages pos (shr size lg_page) =
          λ j p q. at.free j p (omega (arith, fits)) in
        let most_now : (b len : ℕ)
            → b + len ≤ hugepage_pages
            → IsRun h.active_pages false b len
            → len ≤ h.h_longest_free_range =
          λ b len p run. most b len p (λ j x y. at.less j (run j x y)) in
        let k₁ = reserve-Keeps h size o in
        elim (one_offset_cases (has_edata k) h o) [
          | inl e ↦
              subst (λ r. IsBatch active (shr size lg_page) h (o ∷ os) r)
                (sym (one_and_rest k h o os ∙ ap (rest_of k os) e))
                (none_taken active (shr size lg_page) h h (o ∷ os) c
                  (record { address = refl; longest = refl; flags = refl }) refl (λ j. refl))
          | inr (inl e) ↦
              subst (λ r. IsBatch active (shr size lg_page) h (o ∷ os) r)
                (sym (one_and_rest k h o os ∙ ap (rest_of k os) e))
                (none_taken active (shr size lg_page) h (undone h size o) (o ∷ os)
                  (undo-IsCounted h size o c some_pages fit free word most_now).0
                  (undo-Keeps h size o c some_pages fit free word most_now)
                  (undo-IsCounted h size o c some_pages fit free word most_now).1
                  (undo_bits h size o c some_pages fit free word most_now))
          | inr (inr e) ↦
              subst (λ r. IsBatch active (shr size lg_page) h (o ∷ os) r)
                (sym (one_and_rest k h o os ∙ ap (rest_of k os) e))
                (here-IsBatch active size h o os (hpdata_reserve_alloc_offset h size o).1 _
                  some_pages fits c at
                  (try_alloc_from-IsBatch (pos + shr size lg_page) (rem - shr size lg_page) longest
                    os t (k + 1) (hpdata_reserve_alloc_offset h size o).0
                    (reserve-IsCounted h size o c some_pages fit free).0
                    (subst (λ a. a < 2 ^ 64) (sym k₁.address) word)
                    (λ b len p run. subst (λ l. len ≤ l) (sym k₁.longest) (most b len p run))
                    (At-here (shr size lg_page) some_pages fits
                      (reserve_bits h size o c some_pages fit free) at)))
        ]

one_taken :
    (has : Bool) (err : ℕ → Bool) (size : ℕ) (h : Hpdata) (o : AllocOffset)
    → has ≡ true
    → ((addr : ℕ) → err addr ≡ false)
    → hpa_try_alloc_one_offset has err size h o
      ≡ ((hpdata_reserve_alloc_offset h size o).0, some (hpdata_reserve_alloc_offset h size o).1)
unfolding hpa_try_alloc_one_offset
one_taken false err size h o has good = absurd (ground arith)
one_taken true err size h o has good = rw (good (hpdata_reserve_alloc_offset h size o).1) refl

-- Where no `edata_t` is missing and no registration fails, each offset gets an address.
pub all_taken :
    (has_edata : ℕ → Bool) (err : ℕ → Bool) (size : ℕ)
    → ((k : ℕ) → has_edata k ≡ true)
    → ((addr : ℕ) → err addr ≡ false)
    → (k : ℕ) (offsets : List AllocOffset) (h : Hpdata)
    → length (try_alloc_from has_edata err size k offsets h).1 ≡ length offsets
unfolding try_alloc_from
all_taken has_edata err size has good k [] h = refl
all_taken has_edata err size has good k (o ∷ os) h =
    ap (λ r. length (rest_of has_edata err size k os r).1)
      (one_taken (has_edata k) err size h o (has k) good)
    ∙ ap suc
        (all_taken has_edata err size has good (k + 1) os (hpdata_reserve_alloc_offset h size o).0)
