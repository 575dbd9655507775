-- ===== src/Hpa/Undo.antt =====
-- A reservation that is undone because its registration failed, in src/hpa.c.
use jemalloc.Base.{
  ℕ, ◌+◌, ◌-◌, ◌*◌, ◌^◌, ◌≤◌, ◌<◌, ◌≡◌, refl, sym, subst, ap, ◌∙◌, arith, Bool, false, not, ◌&&◌,
  ◌||◌, le→ltb, dec_le, dec_lt, shr, sub64, length,
}
use jemalloc.Sc.Params.{lg_page}
use jemalloc.Fb.{fb_get, fb_unset_range, fb_fls, fb_ffs}
use jemalloc.Fb.Assign.{in_range, fb_get-set_range, fb_get-unset_range}
use jemalloc.Fb.Longest.{IsRun}
use jemalloc.Hpdata.{Hpdata, hugepage_pages, hpdata_unreserve}
use jemalloc.Hpdata.Offsets.{AllocOffset, hpdata_reserve_alloc_offset}
use jemalloc.Hpdata.Counts.{IsCounted, IsFree, IsUsed, pages_eq}
use jemalloc.Hpdata.Keep.{reserve-IsCounted, unreserve-IsCounted}
use jemalloc.Hpdata.Merge.{range_begin, unset-IsMerged}
use jemalloc.Hpdata.Consistent.{flags_agree}

-- What a step of a batch leaves alone.
pub record Keeps (h h' : Hpdata) : Type 0 where
  pub address : h'.h_address ≡ h.h_address
  pub longest : h'.h_longest_free_range ≡ h.h_longest_free_range
  pub flags : flags_agree h' ≡ flags_agree h

-- Freeing, where no free range around the pages is longer than the longest.
module _ (h : Hpdata) (addr sz begin : ℕ) (e : 64 * length h.active_pages ≡ hugepage_pages)
    (at : begin ≡ shr (sub64 addr h.h_address) lg_page) (some_pages : 0 < shr sz lg_page)
    (fits : begin + shr sz lg_page ≤ hugepage_pages) where
  unreserve_bits :
      (j : ℕ)
      → fb_get (hpdata_unreserve h addr sz).active_pages j
        ≡ (not (in_range begin (shr sz lg_page) j) && fb_get h.active_pages j)
  unfolding hpdata_unreserve
  unreserve_bits j =
      rw (sym at)
        (fb_get-unset_range h.active_pages begin (shr sz lg_page) j some_pages (omega (arith, e)))

  unreserve-Keeps :
      ((b len : ℕ)
        → b + len ≤ hugepage_pages
        → IsRun (hpdata_unreserve h addr sz).active_pages false b len
        → len ≤ h.h_longest_free_range)
      → Keeps h (hpdata_unreserve h addr sz)
  unfolding hpdata_unreserve range_begin
  unreserve-Keeps =
      let n = shr sz lg_page in
      let freed = fb_unset_range h.active_pages begin n in
      let merged = unset-IsMerged h.active_pages begin n e some_pages fits in
      let nb = range_begin (fb_fls freed begin) in
      let ne = fb_ffs freed hugepage_pages (begin + n - 1) in
      let length_eq : sub64 ne nb ≡ ne - nb = omega (arith, merged.top, merged.lo, pages_eq) in
      rw (sym at) (λ most.
        let short : ne - nb ≤ h.h_longest_free_range =
          most nb (ne - nb) (omega (arith, merged.top, merged.lo, merged.hi)) merged.run in
        record { address = refl; longest = rw (length_eq, le→ltb _ _ short) refl; flags = refl })

-- A reservation and its undoing.
unfoldable pub undone : Hpdata → ℕ → AllocOffset → Hpdata
undone h sz offset =
    hpdata_unreserve (hpdata_reserve_alloc_offset h sz offset).0
      (hpdata_reserve_alloc_offset h sz offset).1 sz

pub reserve-Keeps :
    (h : Hpdata) (sz : ℕ) (offset : AllocOffset)
    → Keeps h (hpdata_reserve_alloc_offset h sz offset).0
unfolding hpdata_reserve_alloc_offset
reserve-Keeps h sz offset = record { address = refl; longest = refl; flags = refl }

module _ (h : Hpdata) (sz : ℕ) (offset : AllocOffset) (c : IsCounted h)
    (some_pages : 0 < shr sz lg_page) (fits : offset.index + shr sz lg_page ≤ hugepage_pages)
    (free : IsFree h.active_pages offset.index (shr sz lg_page)) where
  pub reserve_bits :
      (j : ℕ)
      → fb_get (hpdata_reserve_alloc_offset h sz offset).0.active_pages j
        ≡ (in_range offset.index (shr sz lg_page) j || fb_get h.active_pages j)
  unfolding hpdata_reserve_alloc_offset
  reserve_bits j =
      fb_get-set_range h.active_pages offset.index (shr sz lg_page) j some_pages
        (omega (arith, c.active_length))

  -- Freeing the reserved pages again.
  module _ (word : h.h_address < 2 ^ 64)
      (most : (b len : ℕ)
        → b + len ≤ hugepage_pages
        → IsRun h.active_pages false b len
        → len ≤ h.h_longest_free_range) where
    begin_lem :
        offset.index
        ≡ shr
            (sub64
              (hpdata_reserve_alloc_offset h sz offset).1
              (hpdata_reserve_alloc_offset h sz offset).0.h_address)
            lg_page
    unfolding hpdata_reserve_alloc_offset
    begin_lem = omega (arith, fits, pages_eq, word)

    used :
        IsUsed
          (hpdata_reserve_alloc_offset h sz offset).0.active_pages
          offset.index
          (shr sz lg_page)
    used j p q = reserve_bits j ∙ ground arith

    pub undo-IsCounted :
        IsCounted (undone h sz offset) × ((undone h sz offset).h_nactive ≡ h.h_nactive)
    unfolding undone
    undo-IsCounted =
        let (counted, more) = reserve-IsCounted h sz offset c some_pages fits free in
        let (again, less) =
          unreserve-IsCounted (hpdata_reserve_alloc_offset h sz offset).0
            (hpdata_reserve_alloc_offset h sz offset).1 sz offset.index counted begin_lem some_pages
            fits used in
        (again, omega arith)

    pub undo_bits : (j : ℕ) → fb_get (undone h sz offset).active_pages j ≡ fb_get h.active_pages j
    unfolding undone
    undo_bits j =
        unreserve_bits (hpdata_reserve_alloc_offset h sz offset).0
          (hpdata_reserve_alloc_offset h sz offset).1 sz offset.index
          (reserve-IsCounted h sz offset c some_pages fits free).0.active_length begin_lem
          some_pages fits j
        ∙ ap (λ x. not (in_range offset.index (shr sz lg_page) j) && x) (reserve_bits j)
        ∙ restored (fb_get h.active_pages j) (λ p q. free j p q)
      where
        restored :
            (x : Bool)
            → (offset.index ≤ j → j < offset.index + shr sz lg_page → x ≡ false)
            → (not (in_range offset.index (shr sz lg_page) j)
                && (in_range offset.index (shr sz lg_page) j || x))
              ≡ x
        restored x f = elim (dec_le offset.index j) [
          | yes p ↦ elim (dec_lt j (offset.index + shr sz lg_page)) [
            | yes q ↦ let e = f p q in ground arith
            | no q ↦ ground arith
          ]
          | no p ↦ ground arith
        ]

    pub undo-Keeps : Keeps h (undone h sz offset)
    unfolding undone
    undo-Keeps =
        let k =
          unreserve-Keeps (hpdata_reserve_alloc_offset h sz offset).0
            (hpdata_reserve_alloc_offset h sz offset).1 sz offset.index
            (reserve-IsCounted h sz offset c some_pages fits free).0.active_length begin_lem
            some_pages fits
            (λ b len p run.
              subst (λ l. len ≤ l) (sym (reserve-Keeps h sz offset).longest)
                (most b len p (λ j x y. sym (undo_bits j) ∙ run j x y))) in
        record {
          address = k.address ∙ (reserve-Keeps h sz offset).address;
          longest = k.longest ∙ (reserve-Keeps h sz offset).longest;
          flags = k.flags ∙ (reserve-Keeps h sz offset).flags;
        }
