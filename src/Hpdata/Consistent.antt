-- ===== src/Hpdata/Consistent.antt =====
-- `hpdata_consistent` of include/jemalloc/internal/hpdata.h, as its operations in src/hpdata.c leave
-- it.
use jemalloc.Base.{
  ℕ, ◌+◌, ◌*◌, ◌≤◌, ◌<◌, ◌≡◌, refl, sym, arith, Bool, true, false, not, ◌&&◌, ◌||◌, ◌==◌, eq→==,
  ==_iff, le→ltb, shr, sub64, length,
}
use jemalloc.Sc.Params.{lg_page}
use jemalloc.Fb.{fb_get, fb_urange_longest}
use jemalloc.Fb.Count.{fb_scount-count}
use jemalloc.Fb.Total.{count_from_mono}
use jemalloc.Hpdata.{
  Hpdata, hugepage_pages, hpdata_init, hpdata_unreserve, hpdata_consistent,
  hpdata_changing_state_get, same_bool,
}
use jemalloc.Hpdata.Counts.{IsCounted, IsUsed}
use jemalloc.Hpdata.Keep.{init-IsCounted, unreserve-IsCounted}
use jemalloc.Hpdata.Merge.{init-longest, unreserve-longest}

-- The part of the check that reads the flags only.
abbrev pub flags_agree : Hpdata → Bool
flags_agree h =
    not (hpdata_changing_state_get h && (h.h_purge_allowed || h.h_hugify_allowed))
    && same_bool h.h_hugify_allowed h.h_in_psset_hugify_container

nactive-le : (h : Hpdata) → IsCounted h → h.h_nactive ≤ h.h_ntouched
nactive-le h c = omega (
  arith,
  c.nactive,
  c.ntouched,
  fb_scount-count h.active_pages 0 hugepage_pages,
  fb_scount-count h.touched_pages 0 hugepage_pages,
  count_from_mono (fb_get h.active_pages) (fb_get h.touched_pages) 0 hugepage_pages
      c.active_touched,
)

pub counted-consistent :
    (h : Hpdata)
    → IsCounted h
    → h.h_longest_free_range ≡ fb_urange_longest h.active_pages hugepage_pages
    → flags_agree h ≡ true
    → hpdata_consistent h ≡ true
unfolding hpdata_consistent
counted-consistent h c longest flags =
    let one = eq→== _ _ (sym longest) in
    let two = eq→== _ _ (sym c.nactive) in
    let three = eq→== _ _ (sym c.ntouched) in
    let four = le→ltb _ _ (nactive-le h c) in
    let five = huge h.h_huge c.huge_touched in rw (one, two, three, four, five) flags
  where
    huge :
        (is_huge : Bool)
        → (is_huge ≡ true → h.h_ntouched ≡ hugepage_pages)
        → (is_huge && not (h.h_ntouched == hugepage_pages)) ≡ false
    huge true e = rw (eq→== _ _ (e refl)) refl
    huge false e = refl

pub consistent-longest :
    (h : Hpdata)
    → hpdata_consistent h ≡ true
    → (h.h_longest_free_range ≡ fb_urange_longest h.active_pages hugepage_pages)
      × (flags_agree h ≡ true)
unfolding hpdata_consistent
consistent-longest h e = (sym ((==_iff _ _).0 (ground arith)), ground arith)

init-flags :
    (h : Hpdata) (addr age : ℕ) (is_huge : Bool)
    → flags_agree (hpdata_init h addr age is_huge) ≡ true
unfolding hpdata_init
init-flags h addr age is_huge = refl

unreserve-flags :
    (h : Hpdata) (addr sz : ℕ)
    → flags_agree h ≡ true
    → flags_agree (hpdata_unreserve h addr sz) ≡ true
unfolding hpdata_unreserve
unreserve-flags h addr sz e = e

-- For memory whose touched bitmap has a bit for each page: `hpdata_init` leaves a hugepage that
-- `hpdata_consistent` accepts, huge or not.
pub init-consistent :
    (h : Hpdata) (addr age : ℕ) (is_huge : Bool)
    → 64 * length h.touched_pages ≡ hugepage_pages
    → hpdata_consistent (hpdata_init h addr age is_huge) ≡ true
init-consistent h addr age is_huge e =
    counted-consistent (hpdata_init h addr age is_huge) (init-IsCounted h addr age is_huge e)
      (init-longest h addr age is_huge) (init-flags h addr age is_huge)

-- For a hugepage that is counted and that `hpdata_consistent` accepts, and a range of its pages, at
-- least one, that are all active: `hpdata_consistent` accepts what `hpdata_unreserve` leaves.
pub unreserve-consistent :
    (h : Hpdata) (addr sz begin : ℕ)
    → IsCounted h
    → hpdata_consistent h ≡ true
    → begin ≡ shr (sub64 addr h.h_address) lg_page
    → 0 < shr sz lg_page
    → begin + shr sz lg_page ≤ hugepage_pages
    → IsUsed h.active_pages begin (shr sz lg_page)
    → hpdata_consistent (hpdata_unreserve h addr sz) ≡ true
unreserve-consistent h addr sz begin c ok at some_pages fits used =
    let (longest, flags) = consistent-longest h ok in
    counted-consistent (hpdata_unreserve h addr sz)
      (unreserve-IsCounted h addr sz begin c at some_pages fits used).0
      (unreserve-longest h addr sz begin c.active_length longest at some_pages fits)
      (unreserve-flags h addr sz flags)
