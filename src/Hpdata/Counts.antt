-- ===== src/Hpdata/Counts.antt =====
-- The counts beside the bitmaps of a hugepage: what src/hpdata.c keeps of `hpdata_consistent`, the
-- longest free range left aside.
use jemalloc.Base.{ℕ, ◌+◌, ◌*◌, ◌≤◌, ◌<◌, ◌≡◌, refl, arith, true, false, length}
use jemalloc.Fb.{Fb, fb_get, fb_set_range, fb_unset_range, fb_scount, fb_ucount}
use jemalloc.Fb.Count.{fb_scount-count}
use jemalloc.Fb.Total.{total, total-set_range, total-unset_range, count_from-le}
use jemalloc.Hpdata.{Hpdata, hugepage_pages}

pub pages_eq : hugepage_pages ≡ 512
unfolding hugepage_pages
pages_eq = refl

-- Both bitmaps have a bit for each page, the counts are those of their set bits, every active page is
-- touched, and a huge page is touched all over.
pub record IsCounted (h : Hpdata) : Type 0 where
  pub active_length : 64 * length h.active_pages ≡ hugepage_pages
  pub touched_length : 64 * length h.touched_pages ≡ hugepage_pages
  pub nactive : h.h_nactive ≡ fb_scount h.active_pages 0 hugepage_pages
  pub ntouched : h.h_ntouched ≡ fb_scount h.touched_pages 0 hugepage_pages
  pub active_touched : (i : ℕ) → fb_get h.active_pages i ≡ true → fb_get h.touched_pages i ≡ true
  pub huge_touched : h.h_huge ≡ true → h.h_ntouched ≡ hugepage_pages

-- `fb_scount` of all pages, as a count of the bits one by one.
scount-total : (fb : Fb) → fb_scount fb 0 hugepage_pages ≡ total fb hugepage_pages
scount-total fb = fb_scount-count fb 0 hugepage_pages

pub scount-set_range :
    (fb : Fb) (start cnt : ℕ)
    → 0 < cnt
    → start + cnt ≤ hugepage_pages
    → 64 * length fb ≡ hugepage_pages
    → fb_scount (fb_set_range fb start cnt) 0 hugepage_pages
      ≡ fb_scount fb 0 hugepage_pages + fb_ucount fb start cnt
unfolding fb_ucount
scount-set_range fb start cnt h fits e = omega (
  arith,
  scount-total fb,
  scount-total (fb_set_range fb start cnt),
  fb_scount-count fb start cnt,
  count_from-le (fb_get fb) start cnt,
  total-set_range fb start cnt hugepage_pages h fits (omega arith),
)

pub scount-unset_range :
    (fb : Fb) (start cnt : ℕ)
    → 0 < cnt
    → start + cnt ≤ hugepage_pages
    → 64 * length fb ≡ hugepage_pages
    → fb_scount (fb_unset_range fb start cnt) 0 hugepage_pages + fb_scount fb start cnt
      ≡ fb_scount fb 0 hugepage_pages
scount-unset_range fb start cnt h fits e = omega (
  arith,
  scount-total fb,
  scount-total (fb_unset_range fb start cnt),
  fb_scount-count fb start cnt,
  total-unset_range fb start cnt hugepage_pages h fits (omega arith),
)

pub scount-le : (fb : Fb) (start cnt : ℕ) → fb_scount fb start cnt ≤ cnt
scount-le fb start cnt =
    omega (arith, fb_scount-count fb start cnt, count_from-le (fb_get fb) start cnt)

-- The pages of the range are all free.
abbrev pub IsFree : Fb → ℕ → ℕ → Type 0
IsFree fb start cnt = (j : ℕ) → start ≤ j → j < start + cnt → fb_get fb j ≡ false

-- The pages of the range are all in use.
abbrev pub IsUsed : Fb → ℕ → ℕ → Type 0
IsUsed fb start cnt = (j : ℕ) → start ≤ j → j < start + cnt → fb_get fb j ≡ true

-- Only these fields count.
pub same-IsCounted :
    (h h' : Hpdata)
    → h'.active_pages ≡ h.active_pages
    → h'.touched_pages ≡ h.touched_pages
    → h'.h_nactive ≡ h.h_nactive
    → h'.h_ntouched ≡ h.h_ntouched
    → h'.h_huge ≡ h.h_huge
    → IsCounted h
    → IsCounted h'
same-IsCounted h h' active touched nactive ntouched huge c = record {
  active_length = rw active c.active_length;
  touched_length = rw touched c.touched_length;
  nactive = rw (active, nactive) c.nactive;
  ntouched = rw (touched, ntouched) c.ntouched;
  active_touched = rw (active, touched) c.active_touched;
  huge_touched = rw (huge, ntouched) c.huge_touched;
}
