-- ===== src/Hpdata/Purge.antt =====
-- Purging in src/hpdata.c: mark the dirty ranges, hand them out one by one, then update the counts.
use jemalloc.Base.{
  ℕ, zero, suc, ◌+◌, ◌-◌, ◌*◌, Option, none, some, ◌==◌, ltb, if◌then◌else◌, u64, sub64,
}
use jemalloc.Sc.Params.{page}
use jemalloc.Fb.{Fb, fb_init, fb_set_range, fb_ffs, fb_fls, fb_srange_iter, fb_bit_and, fb_bit_not}
use jemalloc.Hpdata.{Hpdata, hugepage_pages}

pub record PurgeState : Type 0 where
  pub npurged : ℕ
  pub ndirty_to_purge : ℕ
  pub to_purge : Fb
  pub next_purge_search_begin : ℕ

-- The loop of `hpdata_purge_begin` from `next_bit` on: the bitmap of the ranges to purge and how many
-- they are. A round moves `next_bit` up, so one round per page is enough. A dirty page stands before
-- `next_active`, as the code asserts, so `none` does not occur.
unfoldable pub purge_ranges : ℕ → Fb → Fb → ℕ → Fb → ℕ → Fb × ℕ
purge_ranges zero dirty active next_bit to_purge nranges = (to_purge, nranges)
purge_ranges (suc fuel) dirty active next_bit to_purge nranges =
    let next_dirty = fb_ffs dirty hugepage_pages next_bit in
    let next_active = fb_ffs active hugepage_pages next_dirty in
    let last_dirty : ℕ = elim (fb_fls dirty (next_active - 1)) [ none ↦ 0 | some last ↦ last ] in
    let to_purge' = fb_set_range to_purge next_dirty (last_dirty - next_dirty + 1) in
    let rest = purge_ranges fuel dirty active (next_active + 1) to_purge' (nranges + 1) in
    if ltb next_bit hugepage_pages
    then (if next_dirty == hugepage_pages then (to_purge, nranges) else rest)
    else (to_purge, nranges)

-- The dirty pages are touched and not active.
abbrev pub dirty_pages : Hpdata → Fb
dirty_pages hpdata = fb_bit_and (fb_bit_not hpdata.active_pages) hpdata.touched_pages

-- The number of dirty pages, the state and the number of ranges.
unfoldable pub hpdata_purge_begin : Hpdata → ℕ × PurgeState × ℕ
hpdata_purge_begin hpdata =
    let (to_purge, nranges) =
      purge_ranges hugepage_pages (dirty_pages hpdata) hpdata.active_pages 0
        (fb_init hugepage_pages) 0 in
    let ndirty = sub64 hpdata.h_ntouched hpdata.h_nactive in
    (
      ndirty,
      record {
        npurged = 0;
        ndirty_to_purge = ndirty;
        to_purge = to_purge;
        next_purge_search_begin = 0;
      },
      nranges,
    )

-- The address and size of the next range to purge, and the state after it.
unfoldable pub hpdata_purge_next : Hpdata → PurgeState → Option ((ℕ × ℕ) × PurgeState)
hpdata_purge_next hpdata purge_state =
    let search_begin = purge_state.next_purge_search_begin in
    if search_begin == hugepage_pages
    then none
    else elim (fb_srange_iter purge_state.to_purge hugepage_pages search_begin) [
      | none ↦ none
      | some (purge_begin, purge_len) ↦ some (
        (u64 (hpdata.h_address + purge_begin * page), purge_len * page),
        record purge_state {
          next_purge_search_begin = purge_begin + purge_len;
          npurged = purge_state.npurged + purge_len;
        },
      )
    ]

unfoldable pub hpdata_purge_end : Hpdata → PurgeState → Hpdata × PurgeState
hpdata_purge_end hpdata purge_state =
    let kept = fb_bit_not purge_state.to_purge in
    (
      record hpdata {
        touched_pages = fb_bit_and hpdata.touched_pages kept;
        h_ntouched = sub64 hpdata.h_ntouched purge_state.ndirty_to_purge;
      },
      record purge_state { to_purge = kept },
    )
