-- ===== src/Hpdata.antt =====
-- include/jemalloc/internal/hpdata.h and src/hpdata.c: what is known of one hugepage. The links of
-- the heap and of the lists that it stands in are left out.
mod Tests
pub mod Offsets
pub mod Purge
pub mod Counts
pub mod Keep
pub mod Carve
pub mod Merge
pub mod Consistent
pub mod Trace
pub mod Progress
pub mod Post
pub mod Samples
use jemalloc.Base.{
  ℕ, ◌+◌, ◌-◌, ◌*◌, ◌/◌, ◌%◌, ◌^◌, Bool, true, false, not, ◌&&◌, ◌||◌, Option, none, some, ltb,
  ◌==◌, if◌then◌else◌, u64, sub64, shr,
}
use jemalloc.Sc.Params.{lg_page}
use jemalloc.Fb.{
  Fb, fb_init, fb_empty, fb_set_range, fb_unset_range, fb_ucount, fb_scount, fb_ffs, fb_fls,
  fb_urange_longest,
}

-- HUGEPAGE_PAGES, for hugepages of 2 MB.
unfoldable pub hugepage_pages : ℕ
hugepage_pages = 512

pub record Hpdata : Type 0 where
  pub h_address : ℕ
  pub h_age : ℕ
  pub h_longest_free_range : ℕ
  pub h_nactive : ℕ
  pub h_ntouched : ℕ
  pub active_pages : Fb
  pub touched_pages : Fb
  pub h_huge : Bool
  pub h_alloc_allowed : Bool
  pub h_in_psset_alloc_container : Bool
  pub h_purge_allowed : Bool
  pub h_hugify_allowed : Bool
  pub h_in_psset_hugify_container : Bool
  pub h_mid_purge : Bool
  pub h_mid_hugify : Bool
  pub h_updating : Bool
  pub h_in_psset : Bool
  pub h_purged_when_empty_and_huge : Bool
  pub h_time_hugify_allowed : ℕ

-- `hpdata` is the memory before; the time of hugification is not written.
unfoldable pub hpdata_init : Hpdata → ℕ → ℕ → Bool → Hpdata
hpdata_init hpdata addr age is_huge = record hpdata {
  h_address = addr;
  h_age = age;
  h_huge = is_huge;
  h_alloc_allowed = true;
  h_in_psset_alloc_container = false;
  h_purge_allowed = false;
  h_hugify_allowed = false;
  h_in_psset_hugify_container = false;
  h_mid_purge = false;
  h_mid_hugify = false;
  h_updating = false;
  h_in_psset = false;
  h_longest_free_range = hugepage_pages;
  h_nactive = 0;
  active_pages = fb_init hugepage_pages;
  touched_pages =
      if is_huge
      then fb_set_range hpdata.touched_pages 0 hugepage_pages
      else fb_init hugepage_pages;
  h_ntouched = if is_huge then hugepage_pages else 0;
  h_purged_when_empty_and_huge = false;
}

unfoldable pub hpdata_unreserve : Hpdata → ℕ → ℕ → Hpdata
hpdata_unreserve hpdata addr sz =
    let begin = shr (sub64 addr hpdata.h_address) lg_page in
    let npages = shr sz lg_page in
    let old_longest_range = hpdata.h_longest_free_range in
    let active = fb_unset_range hpdata.active_pages begin npages in
    let new_begin : ℕ = elim (fb_fls active begin) [ none ↦ 0 | some last ↦ last + 1 ] in
    let new_end = fb_ffs active hugepage_pages (begin + npages - 1) in
    let new_range_len = sub64 new_end new_begin in
    record hpdata {
      active_pages = active;
      h_longest_free_range =
          if ltb old_longest_range new_range_len then new_range_len else old_longest_range;
      h_nactive = sub64 hpdata.h_nactive npages;
    }

unfoldable pub hpdata_hugify : Hpdata → Hpdata
hpdata_hugify hpdata = record hpdata {
  h_huge = true;
  touched_pages = fb_set_range hpdata.touched_pages 0 hugepage_pages;
  h_ntouched = hugepage_pages;
}

unfoldable pub hpdata_dehugify : Hpdata → Hpdata
hpdata_dehugify hpdata = record hpdata { h_huge = false }

unfoldable pub hpdata_allow_hugify : Hpdata → ℕ → Hpdata
hpdata_allow_hugify hpdata now = record hpdata {
  h_hugify_allowed = true;
  h_time_hugify_allowed = now;
}

unfoldable pub hpdata_disallow_hugify : Hpdata → Hpdata
hpdata_disallow_hugify hpdata = record hpdata { h_hugify_allowed = false }

abbrev pub hpdata_changing_state_get : Hpdata → Bool
hpdata_changing_state_get hpdata = hpdata.h_mid_purge || hpdata.h_mid_hugify

abbrev pub hpdata_ndirty_get : Hpdata → ℕ
hpdata_ndirty_get hpdata = sub64 hpdata.h_ntouched hpdata.h_nactive

abbrev pub hpdata_nretained_get : Hpdata → ℕ
hpdata_nretained_get hpdata = sub64 hugepage_pages hpdata.h_ntouched

abbrev pub hpdata_empty : Hpdata → Bool
hpdata_empty hpdata = hpdata.h_nactive == 0

abbrev pub hpdata_full : Hpdata → Bool
hpdata_full hpdata = hpdata.h_nactive == hugepage_pages

abbrev pub same_bool : Bool → Bool → Bool
same_bool a b = if a then b else not b

-- The check that the assertions run, its messages left out.
unfoldable pub hpdata_consistent : Hpdata → Bool
hpdata_consistent hpdata =
    (fb_urange_longest hpdata.active_pages hugepage_pages == hpdata.h_longest_free_range)
    && (fb_scount hpdata.active_pages 0 hugepage_pages == hpdata.h_nactive)
    && (fb_scount hpdata.touched_pages 0 hugepage_pages == hpdata.h_ntouched)
    && not (ltb hpdata.h_ntouched hpdata.h_nactive)
    && not (hpdata.h_huge && not (hpdata.h_ntouched == hugepage_pages))
    && not (hpdata_changing_state_get hpdata && (hpdata.h_purge_allowed || hpdata.h_hugify_allowed))
    && same_bool hpdata.h_hugify_allowed hpdata.h_in_psset_hugify_container
