-- ===== src/Hpdata/Samples.antt =====
-- Hugepages for the tests: one that is fresh, and one with two pages reserved.
use jemalloc.Base.{ℕ, ◌≡◌, refl, ◌∙◌, arith, true, false}
use jemalloc.Fb.{fb_init, fb_urange_longest}
use jemalloc.Fb.Assign.{fb_get-set_range}
use jemalloc.Fb.Clean.{fb_get-init}
use jemalloc.Hpdata.{Hpdata, hugepage_pages, hpdata_init, hpdata_consistent}
use jemalloc.Hpdata.Offsets.{AllocOffset, hpdata_reserve_alloc_offset}
use jemalloc.Hpdata.Counts.{same-IsCounted, IsCounted, IsFree, IsUsed, pages_eq}
use jemalloc.Hpdata.Keep.{init-IsCounted, reserve-IsCounted, init-length}
use jemalloc.Hpdata.Consistent.{counted-consistent, init-consistent, flags_agree}

abbrev pub memory : Hpdata
memory = record {
  h_address = 0;
  h_age = 0;
  h_longest_free_range = 0;
  h_nactive = 0;
  h_ntouched = 0;
  active_pages = fb_init hugepage_pages;
  touched_pages = fb_init hugepage_pages;
  h_huge = false;
  h_alloc_allowed = false;
  h_in_psset_alloc_container = false;
  h_purge_allowed = false;
  h_hugify_allowed = false;
  h_in_psset_hugify_container = false;
  h_mid_purge = false;
  h_mid_hugify = false;
  h_updating = false;
  h_in_psset = false;
  h_purged_when_empty_and_huge = false;
  h_time_hugify_allowed = 0;
}

unfoldable pub fresh : Hpdata
fresh = hpdata_init memory 0 7 false

abbrev pub two_pages : AllocOffset
two_pages = record { index = 3; len_before = 509; longest_len = 0 }

unfoldable pub reserved : Hpdata
reserved = (hpdata_reserve_alloc_offset fresh 8192 two_pages).0

pub fresh-IsCounted : IsCounted fresh
unfolding fresh
fresh-IsCounted = init-IsCounted memory 0 7 false init-length

pub fresh-IsFree : (start cnt : ℕ) → IsFree fresh.active_pages start cnt
unfolding fresh hpdata_init
fresh-IsFree start cnt j p q = fb_get-init hugepage_pages j

pub reserved-IsCounted : IsCounted reserved
unfolding reserved
reserved-IsCounted =
    (reserve-IsCounted fresh 8192 two_pages fresh-IsCounted (omega arith) (omega (arith, pages_eq))
      (fresh-IsFree 3 2)).0

pub reserved-IsUsed : IsUsed reserved.active_pages 3 2
unfolding reserved hpdata_reserve_alloc_offset
reserved-IsUsed j p q =
    fb_get-set_range fresh.active_pages 3 2 j (omega arith)
      (omega (arith, pages_eq, fresh-IsCounted.active_length))
    ∙ ground arith

pub reserved-address : reserved.h_address ≡ 0
unfolding reserved fresh hpdata_init hpdata_reserve_alloc_offset
reserved-address = refl

-- The reserved hugepage with its longest free range set.
unfoldable pub settled : Hpdata
settled = record reserved {
  h_longest_free_range = fb_urange_longest reserved.active_pages hugepage_pages;
}

pub settled-IsCounted : IsCounted settled
unfolding settled
settled-IsCounted = let c = reserved-IsCounted in same-IsCounted _ _ refl refl refl refl refl c

pub settled-consistent : hpdata_consistent settled ≡ true
unfolding settled reserved fresh hpdata_init hpdata_reserve_alloc_offset
settled-consistent = counted-consistent settled settled-IsCounted longest flags
  where
    longest : settled.h_longest_free_range ≡ fb_urange_longest settled.active_pages hugepage_pages
    longest = refl

    flags : flags_agree settled ≡ true
    flags = refl

pub settled-address : settled.h_address ≡ 0
unfolding settled
settled-address = reserved-address

pub settled-IsUsed : IsUsed settled.active_pages 3 2
unfolding settled
settled-IsUsed = reserved-IsUsed

pub fresh-consistent : hpdata_consistent fresh ≡ true
unfolding fresh
fresh-consistent = init-consistent memory 0 7 false init-length

pub fresh-address : fresh.h_address ≡ 0
unfolding fresh hpdata_init
fresh-address = refl
