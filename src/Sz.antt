-- ===== src/Sz.antt =====
-- include/jemalloc/internal/sz.h and src/sz.c: size classes by index, page size classes, usable
-- sizes, alignment, and the lookup tables that `sz_boot` fills. All sizes are 64-bit words.
mod Tests
pub mod Lg
pub mod Search
pub mod Page
pub mod Index
pub mod Usable
pub mod Table
pub mod Align
use jemalloc.Base.{
  ℕ, zero, suc, ◌+◌, ◌-◌, ◌*◌, ◌/◌, ◌%◌, ◌^◌, Bool, true, false, ◌&&◌, ◌||◌, not, ltb, leb, ◌==◌,
  if◌then◌else◌, u64, sub64, shl64, shr, low_bits, clear_low,
}
use jemalloc.BitUtil.{lg_floor, lg_ceil, pow2_ceil_zu}
use jemalloc.Sc.Params.{
  page, lg_page, lg_quantum, sc_lg_ngroup, sc_ngroup, sc_ntiny, sc_npsizes, sc_nsizes,
  sc_lg_tiny_maxclass, sc_large_maxclass, sc_small_maxclass, sc_large_minclass,
}

unfoldable pub sz_psz2ind : ℕ → ℕ
sz_psz2ind psz =
    if ltb sc_large_maxclass psz
    then sc_npsizes
    else (let x = lg_ceil psz in
        let off_to_first_ps_rg =
          (if ltb x (sc_lg_ngroup + lg_page) then 0 else x - (sc_lg_ngroup + lg_page)) in
        let lg_delta =
          (if off_to_first_ps_rg == 0 then lg_page else lg_page + (off_to_first_ps_rg - 1)) in
        let rg_inner_off = low_bits (shr (psz - 1) lg_delta) sc_lg_ngroup in
        let base_ind = off_to_first_ps_rg * 2 ^ sc_lg_ngroup in base_ind + rg_inner_off)

unfoldable pub sz_pind2sz_compute : ℕ → ℕ
sz_pind2sz_compute pind =
    if pind == sc_npsizes
    then sc_large_maxclass + page
    else (let grp = shr pind sc_lg_ngroup in
        let mod' = low_bits pind sc_lg_ngroup in
        let grp_size =
          (if grp == 0 then 0 else shl64 (shl64 1 (lg_page + (sc_lg_ngroup - 1))) grp) in
        let shift = (if grp == 0 then 1 else grp) in
        let lg_delta = shift + (lg_page - 1) in
        let mod_size = shl64 (mod' + 1) lg_delta in u64 (grp_size + mod_size))

unfoldable pub sz_psz2u : ℕ → ℕ
sz_psz2u psz =
    if ltb sc_large_maxclass psz
    then sc_large_maxclass + page
    else (let x = lg_floor (sub64 (shl64 psz 1) 1) in
        let lg_delta =
          (if ltb x (sc_lg_ngroup + lg_page + 1) then lg_page else x - sc_lg_ngroup - 1) in
        let delta = shl64 1 lg_delta in
        let delta_mask = delta - 1 in clear_low (u64 (psz + delta_mask)) lg_delta)

unfoldable pub sz_size2index_compute : ℕ → ℕ
sz_size2index_compute size =
    if ltb sc_large_maxclass size
    then sc_nsizes
    else (if size == 0
        then 0
        else (if leb size (shl64 1 sc_lg_tiny_maxclass)
            then (let lg_tmin = sc_lg_tiny_maxclass - sc_ntiny + 1 in
                let lg_ceil = lg_floor (pow2_ceil_zu size) in
                if ltb lg_ceil lg_tmin then 0 else lg_ceil - lg_tmin)
            else (let x = lg_floor (sub64 (shl64 size 1) 1) in
                let shift =
                  (if ltb x (sc_lg_ngroup + lg_quantum)
                    then 0
                    else x - (sc_lg_ngroup + lg_quantum)) in
                let grp = shift * 2 ^ sc_lg_ngroup in
                let lg_delta =
                  (if ltb x (sc_lg_ngroup + lg_quantum + 1)
                    then lg_quantum
                    else x - sc_lg_ngroup - 1) in
                let mod' = low_bits (shr (clear_low (size - 1) lg_delta) lg_delta) sc_lg_ngroup in
                sc_ntiny + grp + mod')))

unfoldable pub sz_index2size_compute : ℕ → ℕ
sz_index2size_compute index =
    if ltb index sc_ntiny
    then shl64 1 (sc_lg_tiny_maxclass - sc_ntiny + 1 + index)
    else (let reduced_index = index - sc_ntiny in
        let grp = shr reduced_index sc_lg_ngroup in
        let mod' = low_bits reduced_index sc_lg_ngroup in
        let grp_size =
          (if grp == 0 then 0 else shl64 (shl64 1 (lg_quantum + (sc_lg_ngroup - 1))) grp) in
        let shift = (if grp == 0 then 1 else grp) in
        let lg_delta = shift + (lg_quantum - 1) in
        let mod_size = shl64 (mod' + 1) lg_delta in u64 (grp_size + mod_size))

unfoldable pub sz_s2u_compute_using_delta : ℕ → ℕ
sz_s2u_compute_using_delta size =
    if ltb sc_large_maxclass size
    then 0
    else (let x = lg_floor (sub64 (shl64 size 1) 1) in
        let lg_delta =
          (if ltb x (sc_lg_ngroup + lg_quantum + 1) then lg_quantum else x - sc_lg_ngroup - 1) in
        let delta = shl64 1 lg_delta in
        let delta_mask = delta - 1 in
        let usize = u64 (size + delta_mask) in
        if ltb usize size then 0 else clear_low usize lg_delta)

-- `disabled` is `sz_large_size_classes_disabled()`.
unfoldable pub sz_s2u_compute : Bool → ℕ → ℕ
sz_s2u_compute disabled size =
    if ltb sc_large_maxclass size
    then 0
    else (let size' = (if size == 0 then size + 1 else size) in
        if leb size' (shl64 1 sc_lg_tiny_maxclass)
        then (let lg_tmin = sc_lg_tiny_maxclass - sc_ntiny + 1 in
            let lg_ceil = lg_floor (pow2_ceil_zu size') in
            if ltb lg_ceil lg_tmin then shl64 1 lg_tmin else shl64 1 lg_ceil)
        else (if leb size' sc_small_maxclass || not disabled
            then sz_s2u_compute_using_delta size'
            else (let usize = u64 (size' + (page - 1)) in
                if ltb usize size' then 0 else clear_low usize lg_page)))
