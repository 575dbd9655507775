-- ===== src/Psset.antt =====
-- src/psset.c and include/jemalloc/internal/psset.h: what an update of one hugepage does to its
-- metadata. The heaps, the lists and the statistics of the set are left out.
pub mod Update
use jemalloc.Base.{ℕ, Bool, true, false, not, ◌&&◌, ◌||◌, ◌==◌, if◌then◌else◌, shl64}
use jemalloc.Sc.Params.{lg_page}
use jemalloc.Sz.{sz_psz2ind}
use jemalloc.Sz.Table.{Tables}
use jemalloc.Sz.Align.{sz_psz_quantize_floor}
use jemalloc.Hpdata.{Hpdata, hpdata_empty, hpdata_full}

unfoldable pub psset_hpdata_heap_index : Tables → Hpdata → ℕ
psset_hpdata_heap_index t ps =
    sz_psz2ind (sz_psz_quantize_floor t (shl64 ps.h_longest_free_range lg_page))

pub record PssetAllocUpdate : Type 0 where
  pub heap_index : ℕ
  pub retained : Bool
  pub age : ℕ

-- The heap that a hugepage belongs to, 0 for one that is empty or full.
abbrev pub heap_index_or_zero : Tables → Hpdata → ℕ
heap_index_or_zero t ps =
    if hpdata_empty ps || hpdata_full ps then 0 else psset_hpdata_heap_index t ps

unfoldable pub psset_update_begin_impl : Hpdata → Bool → Hpdata
psset_update_begin_impl ps retained = record ps {
  h_updating = true;
  h_in_psset_alloc_container =
      if ps.h_in_psset_alloc_container && not retained
      then false
      else ps.h_in_psset_alloc_container;
}

-- The last `if` is both branches on the list of hugepages to hugify.
unfoldable pub psset_update_end_impl : Hpdata → Bool → Hpdata
psset_update_end_impl ps retained = record ps {
  h_updating = false;
  h_in_psset_alloc_container =
      if ps.h_alloc_allowed && not retained then true else ps.h_in_psset_alloc_container;
  h_in_psset_hugify_container =
      if ps.h_hugify_allowed && not ps.h_in_psset_hugify_container
      then true
      else if not ps.h_hugify_allowed && ps.h_in_psset_hugify_container
      then false
      else ps.h_in_psset_hugify_container;
}

-- The age is kept also where it is not read.
unfoldable pub psset_alloc_update_begin : Tables → Hpdata → Hpdata × PssetAllocUpdate
psset_alloc_update_begin t ps =
    let retained = ps.h_in_psset_alloc_container && not (hpdata_empty ps) && not (hpdata_full ps) in
    (
      psset_update_begin_impl ps retained,
      record { heap_index = heap_index_or_zero t ps; retained = retained; age = ps.h_age },
    )

unfoldable pub psset_alloc_update_end : Tables → Hpdata → PssetAllocUpdate → Hpdata
psset_alloc_update_end t ps update =
    let pind = heap_index_or_zero t ps in
    let moves =
      update.retained
      && (not ps.h_alloc_allowed
          || hpdata_empty ps
          || hpdata_full ps
          || not (ps.h_age == update.age)
          || not (pind == update.heap_index)) in
    if moves
    then psset_update_end_impl (record ps { h_in_psset_alloc_container = false }) false
    else psset_update_end_impl ps update.retained
