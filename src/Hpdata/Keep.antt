-- ===== src/Hpdata/Keep.antt =====
-- Every operation of src/hpdata.c that moves pages keeps the counts of `IsCounted`.
use jemalloc.Base.{
  ℕ, ◌+◌, ◌*◌, ◌≤◌, ◌<◌, ◌≡◌, refl, ◌∙◌, sym, arith, Bool, true, false, not, ◌&&◌, ◌||◌, length,
  shr, sub64,
}
use jemalloc.Sc.Params.{lg_page}
use jemalloc.Fb.{Fb, fb_get, fb_init, fb_set_range, fb_scount, fb_ucount}
use jemalloc.Fb.Assign.{in_range, fb_get-set_range, fb_get-unset_range}
use jemalloc.Fb.Count.{fb_scount-count, count_from-zero, count_from-eq}
use jemalloc.Fb.Clean.{fb_get-init, length-init, length-set_range, length-unset_range}
use jemalloc.Fb.Total.{count_from-all}
use jemalloc.Hpdata.{
  Hpdata, hugepage_pages, hpdata_init, hpdata_unreserve, hpdata_hugify, hpdata_dehugify,
}
use jemalloc.Hpdata.Offsets.{AllocOffset, hpdata_reserve_alloc_offset}
use jemalloc.Hpdata.Counts.{
  pages_eq, IsCounted, IsFree, IsUsed, scount-set_range, scount-unset_range, scount-le,
}

scount-free : (fb : Fb) (start cnt : ℕ) → IsFree fb start cnt → fb_scount fb start cnt ≡ 0
scount-free fb start cnt free =
    fb_scount-count fb start cnt ∙ count_from-zero (fb_get fb) start cnt free

ucount-free : (fb : Fb) (start cnt : ℕ) → IsFree fb start cnt → fb_ucount fb start cnt ≡ cnt
unfolding fb_ucount
ucount-free fb start cnt free = omega (arith, scount-free fb start cnt free)

scount-used : (fb : Fb) (start cnt : ℕ) → IsUsed fb start cnt → fb_scount fb start cnt ≡ cnt
scount-used fb start cnt used =
    fb_scount-count fb start cnt
    ∙ count_from-eq (fb_get fb) (λ j. true) start cnt used
    ∙ count_from-all start cnt

-- Setting the same range in both bitmaps, or unsetting it in the first, keeps the first in the second.
set_both :
    (a b : Fb) (start cnt i : ℕ)
    → 0 < cnt
    → start + cnt ≤ 64 * length a
    → start + cnt ≤ 64 * length b
    → (fb_get a i ≡ true → fb_get b i ≡ true)
    → fb_get (fb_set_range a start cnt) i ≡ true
    → fb_get (fb_set_range b start cnt) i ≡ true
set_both a b start cnt i h p q sub e =
    fb_get-set_range b start cnt i h q
    ∙ either (in_range start cnt i) (fb_get a i) (fb_get b i) sub
        (sym (fb_get-set_range a start cnt i h p) ∙ e)
  where
    either : (r x y : Bool) → (x ≡ true → y ≡ true) → (r || x) ≡ true → (r || y) ≡ true
    either r x y f e = ground arith

-- All pages set: the count is the number of pages.
scount-all_set :
    (fb : Fb)
    → 64 * length fb ≡ hugepage_pages
    → fb_scount (fb_set_range fb 0 hugepage_pages) 0 hugepage_pages ≡ hugepage_pages
scount-all_set fb e = scount-used (fb_set_range fb 0 hugepage_pages) 0 hugepage_pages (λ j p q.
    fb_get-set_range fb 0 hugepage_pages j (omega (arith, pages_eq)) (omega arith)
    ∙ inside j (omega arith) (fb_get fb j))
  where
    inside : (j : ℕ) → j < hugepage_pages → (x : Bool) → (in_range 0 hugepage_pages j || x) ≡ true
    inside j h x = ground arith

scount-fresh : fb_scount (fb_init hugepage_pages) 0 hugepage_pages ≡ 0
scount-fresh =
    scount-free (fb_init hugepage_pages) 0 hugepage_pages (λ j p q. fb_get-init hugepage_pages j)

pub init-length : 64 * length (fb_init hugepage_pages) ≡ hugepage_pages
unfolding hugepage_pages
init-length = omega (arith, length-init hugepage_pages)

-- A hugepage whose touched bitmap has a bit for each page, whatever the memory held before: what
-- `hpdata_init` leaves is counted.
pub init-IsCounted :
    (h : Hpdata) (addr age : ℕ) (is_huge : Bool)
    → 64 * length h.touched_pages ≡ hugepage_pages
    → IsCounted (hpdata_init h addr age is_huge)
unfolding hpdata_init
init-IsCounted h addr age true e = record {
  active_length = init-length;
  touched_length = omega (arith, length-set_range h.touched_pages 0 hugepage_pages);
  nactive = sym scount-fresh;
  ntouched = sym (scount-all_set h.touched_pages e);
  active_touched = λ i p. absurd (ground (arith, p, fb_get-init hugepage_pages i));
  huge_touched = λ _. refl;
}
init-IsCounted h addr age false e = record {
  active_length = init-length;
  touched_length = init-length;
  nactive = sym scount-fresh;
  ntouched = sym scount-fresh;
  active_touched = λ i p. p;
  huge_touched = λ p. absurd (ground (arith, p));
}

-- For a hugepage that is counted and an offset whose pages, at least one, are free and lie in it:
-- after `hpdata_reserve_alloc_offset` the counts are right again, and `h_nactive` has grown by the
-- pages reserved.
pub reserve-IsCounted :
    (h : Hpdata) (sz : ℕ) (offset : AllocOffset)
    → IsCounted h
    → 0 < shr sz lg_page
    → offset.index + shr sz lg_page ≤ hugepage_pages
    → IsFree h.active_pages offset.index (shr sz lg_page)
    → IsCounted (hpdata_reserve_alloc_offset h sz offset).0
      × ((hpdata_reserve_alloc_offset h sz offset).0.h_nactive ≡ h.h_nactive + shr sz lg_page)
unfolding hpdata_reserve_alloc_offset
reserve-IsCounted h sz offset c some_pages fits free =
    let n = shr sz lg_page in
    let i = offset.index in
    let more = scount-set_range h.active_pages i n some_pages fits c.active_length in
    let all_new = ucount-free h.active_pages i n free in
    let dirtied = scount-set_range h.touched_pages i n some_pages fits c.touched_length in
    let active_le = scount-le (fb_set_range h.active_pages i n) 0 hugepage_pages in
    let touched_le = scount-le (fb_set_range h.touched_pages i n) 0 hugepage_pages in
    (
      record {
        active_length = omega (arith, length-set_range h.active_pages i n, c.active_length);
        touched_length = omega (arith, length-set_range h.touched_pages i n, c.touched_length);
        nactive = omega (arith, more, all_new, active_le, pages_eq, c.nactive);
        ntouched = omega (arith, dirtied, touched_le, pages_eq, c.ntouched);
        active_touched = λ j.
            set_both h.active_pages h.touched_pages i n j some_pages
              (omega (arith, c.active_length)) (omega (arith, c.touched_length))
              (c.active_touched j);
        huge_touched =
            λ p. omega (arith, dirtied, touched_le, pages_eq, c.ntouched, c.huge_touched p);
      },
      omega (arith, more, all_new, active_le, pages_eq, c.nactive),
    )

still_set : (r x : Bool) → (not r && x) ≡ true → x ≡ true
still_set r x e = ground arith

-- For a hugepage that is counted and a range of its pages that are all active: after
-- `hpdata_unreserve` the counts are right again, and `h_nactive` has shrunk by the pages freed.
pub unreserve-IsCounted :
    (h : Hpdata) (addr sz begin : ℕ)
    → IsCounted h
    → begin ≡ shr (sub64 addr h.h_address) lg_page
    → 0 < shr sz lg_page
    → begin + shr sz lg_page ≤ hugepage_pages
    → IsUsed h.active_pages begin (shr sz lg_page)
    → IsCounted (hpdata_unreserve h addr sz)
      × ((hpdata_unreserve h addr sz).h_nactive + shr sz lg_page ≡ h.h_nactive)
unfolding hpdata_unreserve
unreserve-IsCounted h addr sz begin c e some_pages fits used =
    let n = shr sz lg_page in
    let less = scount-unset_range h.active_pages begin n some_pages fits c.active_length in
    let all_used = scount-used h.active_pages begin n used in
    let active_le = scount-le h.active_pages 0 hugepage_pages in
    rw (sym e) (
      record {
        active_length = omega (arith, length-unset_range h.active_pages begin n, c.active_length);
        touched_length = c.touched_length;
        nactive = omega (arith, less, all_used, active_le, pages_eq, c.nactive);
        ntouched = c.ntouched;
        active_touched = λ j p. c.active_touched j (
            still_set (in_range begin n j) (fb_get h.active_pages j) (
              sym (
                fb_get-unset_range h.active_pages begin n j some_pages
                  (omega (arith, c.active_length)))
              ∙ p));
        huge_touched = c.huge_touched;
      },
      omega (arith, less, all_used, active_le, pages_eq, c.nactive),
    )

already : (r : Bool) {x : Bool} → x ≡ true → (r || x) ≡ true
already r e = ground arith

-- `hpdata_hugify` and `hpdata_dehugify` keep the counts of a counted hugepage.
pub hugify-IsCounted :
    (h : Hpdata) → IsCounted h → IsCounted (hpdata_hugify h) × IsCounted (hpdata_dehugify h)
unfolding hpdata_hugify hpdata_dehugify
hugify-IsCounted h c = (
  record {
    active_length = c.active_length;
    touched_length =
        omega (arith, c.touched_length, length-set_range h.touched_pages 0 hugepage_pages);
    nactive = c.nactive;
    ntouched = sym (scount-all_set h.touched_pages c.touched_length);
    active_touched = λ i p.
        fb_get-set_range h.touched_pages 0 hugepage_pages i (omega (arith, pages_eq))
          (omega (arith, c.touched_length))
        ∙ already (in_range 0 hugepage_pages i) (c.active_touched i p);
    huge_touched = λ _. refl;
  },
  record {
    active_length = c.active_length;
    touched_length = c.touched_length;
    nactive = c.nactive;
    ntouched = c.ntouched;
    active_touched = c.active_touched;
    huge_touched = λ p. absurd (ground (arith, p));
  },
)
