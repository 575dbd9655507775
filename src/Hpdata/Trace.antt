-- ===== src/Hpdata/Trace.antt =====
-- How the offsets of `hpdata_find_alloc_offsets` in src/hpdata.c come about, one range after another.
use jemalloc.Base.{
  ℕ, zero, suc, ◌+◌, ◌-◌, ◌*◌, ◌≤◌, ◌<◌, ◌≡◌, inl, inr, refl, sym, subst, arith, false, List, [],
  ◌∷◌, ◌++◌, max, length, take, shr, dec_le, ℕ_discrete, eq→==, neq→==, le→leb, lt→leb,
}
use mathlib.Core.List.{append-nil}
use jemalloc.Sc.Params.{lg_page}
use jemalloc.Fb.{Fb, fb_urange_iter}
use jemalloc.Fb.Forward.{IsClean}
use jemalloc.Fb.Range.{IsRange, fb_iter_range_forward-IsFirstRange}
use jemalloc.Hpdata.{Hpdata, hugepage_pages}
use jemalloc.Hpdata.Offsets.{AllocOffset, carve, offsets_from, hpdata_find_alloc_offsets}
use jemalloc.Hpdata.Counts.{pages_eq}
use jemalloc.Hpdata.Carve.{carve-IsCarving, found_cases, groups-IsClean}

-- The offsets found while `rem` free pages are left from `pos` on and `longest` is the longest range
-- left over before `pos`: none, one here, or those of the next free range.
pub data Trace (active : Fb) (npages : ℕ) : ℕ → ℕ → ℕ → List AllocOffset → Type 0 where
  stop : {pos rem longest : ℕ} → Trace active npages pos rem longest []
  here :
      {pos rem longest : ℕ} {os : List AllocOffset}
      → npages ≤ rem
      → Trace active npages (pos + npages) (rem - npages) longest os
      → Trace active npages pos rem longest
          (record { index = pos; len_before = rem; longest_len = longest } ∷ os)
  next :
      {pos rem longest : ℕ} {os : List AllocOffset} (b len : ℕ)
      → IsRange active hugepage_pages (pos + rem) false b len
      → Trace active npages b len (max longest rem) os
      → Trace active npages pos rem longest os

-- A caller may stop early.
pub Trace-take :
    {active : Fb} {npages : ℕ} (k : ℕ) {pos rem longest : ℕ} {os : List AllocOffset}
    → Trace active npages pos rem longest os
    → Trace active npages pos rem longest (take k os)
Trace-take zero t = stop
Trace-take (suc k) stop = stop
Trace-take (suc k) (here h t) = here h (Trace-take k t)
Trace-take (suc k) (next b len r t) = next b len r (Trace-take (suc k) t)

module _ (active : Fb) (npages : ℕ) (some_pages : 0 < npages) where
  carve-end :
      (left longest b len : ℕ)
      → ((carve left npages longest b len).3 < npages)
        × ((carve left npages longest b len).1 ≡ 0
            → (carve left npages longest b len).2 + (carve left npages longest b len).3
              ≡ hugepage_pages)
  unfolding carve
  carve-end zero longest b len = (some_pages, λ p. omega arith)
  carve-end (suc left) longest b len = elim (dec_le npages len) [
    | yes p ↦ rw (le→leb npages len p) (carve-end left longest (b + npages) (len - npages))
    | no p ↦ rw (lt→leb npages len (omega arith)) (omega arith, λ q. absurd (omega arith))
  ]

  carve-Trace :
      (left longest b len : ℕ) (os : List AllocOffset)
      → ((carve left npages longest b len).1 ≡ 0 → os ≡ [])
      → Trace active npages
          (carve left npages longest b len).2
          (carve left npages longest b len).3
          longest
          os
      → Trace active npages b len longest ((carve left npages longest b len).0 ++ os)
  unfolding carve
  carve-Trace zero longest b len os =
      λ none_left t. subst (λ l. Trace active npages b len longest l) (sym (none_left refl)) stop
  carve-Trace (suc left) longest b len os = elim (dec_le npages len) [
    | yes p ↦
        let rest = carve-Trace left longest (b + npages) (len - npages) os in
        rw (le→leb npages len p) (λ none_left t. here p (rest none_left t))
    | no p ↦ rw (lt→leb npages len (omega arith)) (λ none_left t. t)
  ]

  offsets_from-Trace :
      (fuel left pos rem longest : ℕ)
      → IsClean active hugepage_pages
      → pos + rem < hugepage_pages
      → Trace active npages pos rem longest
          (offsets_from fuel active npages left (pos + rem) (max longest rem))
  unfolding offsets_from fb_urange_iter
  offsets_from-Trace zero left pos rem longest clean h = stop
  offsets_from-Trace (suc fuel) left pos rem longest clean h =
      let start = pos + rem in
      let best = max longest rem in
      elim (found_cases active npages some_pages start _
        (fb_iter_range_forward-IsFirstRange active hugepage_pages start h clean false)) [
          | inl (e, packed) ↦ rw (e, offsets_from) stop
          | inr (b, len, e, r) ↦
              let c = carve left npages best b len in
              let cut = carve-IsCarving active npages some_pages left best b len r.inside in
              let (short, ends) = carve-end left best b len in
              rw (e, offsets_from)
                (next b len r (elim (ℕ_discrete (c.2 + c.3) hugepage_pages) [
                  | yes over ↦ rw (eq→== (c.2 + c.3) hugepage_pages over) (
                      subst (λ l. Trace active npages b len best l) (append-nil c.0)
                        (carve-Trace left best b len [] (λ p. refl) stop))
                  | no on ↦ rw (neq→== (c.2 + c.3) hugepage_pages on) (
                      carve-Trace left best b len _ (λ p. absurd (on (ends p)))
                        (offsets_from-Trace fuel c.1 c.2 c.3 best clean
                          (ground (arith, cut.end, r.to))))
                ]))
        ]

-- What is found from the start of a hugepage on.
pub find_alloc_offsets-Trace :
    (h : Hpdata) (sz max_nallocs : ℕ)
    → 64 * length h.active_pages ≡ hugepage_pages
    → 0 < shr sz lg_page
    → Trace h.active_pages (shr sz lg_page) 0 0 0 (hpdata_find_alloc_offsets h sz max_nallocs)
unfolding hpdata_find_alloc_offsets
find_alloc_offsets-Trace h sz max_nallocs e some_pages =
    offsets_from-Trace h.active_pages (shr sz lg_page) some_pages hugepage_pages max_nallocs 0 0 0
      (groups-IsClean h.active_pages hugepage_pages (omega arith)) (omega (arith, pages_eq))
