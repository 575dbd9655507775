-- ===== src/Hpdata/Offsets.antt =====
-- Batched reservation in src/hpdata.c: find the offsets, reserve each, then set the longest range.
use jemalloc.Base.{
  ℕ, zero, suc, ◌+◌, ◌-◌, max, ◌&&◌, Option, none, some, List, [], ◌∷◌, ◌++◌, ltb, leb, ◌==◌,
  if◌then◌else◌, u64, sub64, shr, shl64,
}
use jemalloc.Sc.Params.{lg_page}
use jemalloc.Fb.{Fb, fb_set_range, fb_ucount, fb_urange_iter}
use jemalloc.Hpdata.{Hpdata, hugepage_pages}

pub record AllocOffset : Type 0 where
  pub index : ℕ
  pub len_before : ℕ
  pub longest_len : ℕ

-- The inner loop of `hpdata_find_alloc_offsets`, which carves up a free range while `left` more
-- offsets are asked for. The result is the offsets, how many are still asked for, `begin` and `len`.
unfoldable pub carve : ℕ → ℕ → ℕ → ℕ → ℕ → List AllocOffset × ℕ × ℕ × ℕ
carve zero npages longest begin len = ([], 0, hugepage_pages, 0)
carve (suc left) npages longest begin len =
    let (offsets, left', begin', len') =
      carve left npages longest (begin + npages) (len - npages) in
    if leb npages len
    then (
      record { index = begin; len_before = len; longest_len = longest } ∷ offsets,
      left',
      begin',
      len',
    )
    else ([], suc left, begin, len)

-- The outer loop from `start` on. A round moves `start` up, so one round per page is enough.
unfoldable pub offsets_from : ℕ → Fb → ℕ → ℕ → ℕ → ℕ → List AllocOffset
offsets_from zero active npages left start longest = []
offsets_from (suc fuel) active npages left start longest =
    elim (fb_urange_iter active hugepage_pages start) [
      | none ↦ []
      | some (begin, len) ↦
          let (offsets, left', begin', len') = carve left npages longest begin len in
          let start' = begin' + len' in
          let rest = offsets_from fuel active npages left' start' (max longest len') in
          if start' == hugepage_pages then offsets else offsets ++ rest
    ]

unfoldable pub hpdata_find_alloc_offsets : Hpdata → ℕ → ℕ → List AllocOffset
hpdata_find_alloc_offsets hpdata sz max_nallocs =
    offsets_from hugepage_pages hpdata.active_pages (shr sz lg_page) max_nallocs 0 0

unfoldable pub hpdata_reserve_alloc_offset : Hpdata → ℕ → AllocOffset → Hpdata × ℕ
hpdata_reserve_alloc_offset hpdata sz offset =
    let npages = shr sz lg_page in
    let new_dirty = fb_ucount hpdata.touched_pages offset.index npages in
    (
      record hpdata {
        active_pages = fb_set_range hpdata.active_pages offset.index npages;
        h_nactive = u64 (hpdata.h_nactive + npages);
        touched_pages = fb_set_range hpdata.touched_pages offset.index npages;
        h_ntouched = u64 (hpdata.h_ntouched + new_dirty);
      },
      u64 (hpdata.h_address + shl64 offset.index lg_page),
    )

-- The greatest `len_before`.
unfoldable pub max_len_before : ℕ → List AllocOffset → ℕ
max_len_before max_len [] = max_len
max_len_before max_len (offset ∷ offsets) = max_len_before (max max_len offset.len_before) offsets

unfoldable pub last_offset : AllocOffset → List AllocOffset → AllocOffset
last_offset offset [] = offset
last_offset offset (next ∷ offsets) = last_offset next offsets

-- The search after the last offset. The result is `none` when a range of the old length shows up,
-- where the function returns without a write.
unfoldable pub longest_rest : ℕ → Fb → ℕ → ℕ → ℕ → Option ℕ
longest_rest zero active prev_longest start longest_len = some longest_len
longest_rest (suc fuel) active prev_longest start longest_len =
    elim (fb_urange_iter active hugepage_pages start) [
      | none ↦ some longest_len
      | some (begin, len) ↦
          let longest' : ℕ = (if ltb longest_len len then len else longest_len) in
          let rest = longest_rest fuel active prev_longest (begin + len) longest' in
          if ltb longest_len len && len == prev_longest
          then none
          else (if begin + len == hugepage_pages then some longest' else rest)
    ]

unfoldable pub hpdata_post_reserve_alloc_offsets : Hpdata → ℕ → List AllocOffset → Hpdata
hpdata_post_reserve_alloc_offsets hpdata sz [] = hpdata
hpdata_post_reserve_alloc_offsets hpdata sz (offset ∷ offsets) =
    let npages = shr sz lg_page in
    let prev_longest = hpdata.h_longest_free_range in
    let last = last_offset offset offsets in
    let start = last.index + last.len_before in
    let longest_len = max last.longest_len (sub64 last.len_before npages) in
    let found : Option ℕ =
      (if ltb longest_len (hugepage_pages - start)
        then longest_rest hugepage_pages hpdata.active_pages prev_longest start longest_len
        else some longest_len) in
    if ltb (max_len_before offset.len_before offsets) prev_longest then hpdata else elim found [
      | none ↦ hpdata
      | some longest ↦ record hpdata { h_longest_free_range = longest }
    ]
