-- ===== src/Sz/Align.antt =====
-- `sz_sa2u` of sz.h (the usable size of an aligned request), and the page quantizers of src/sz.c.
pub mod Classes
pub mod Usable
pub mod Quantize
use jemalloc.Base.{
  ℕ, ◌+◌, ◌-◌, ◌*◌, ◌/◌, ◌%◌, Bool, ◌&&◌, ltb, leb, ◌==◌, if◌then◌else◌, u64, sub64, clear_low,
}
use jemalloc.Sc.Params.{page, lg_page, sc_small_maxclass, sc_large_minclass, sc_large_maxclass}
use jemalloc.Sz.{sz_psz2ind}
use jemalloc.Sz.Table.{Tables, sz_s2u, sz_pind2sz}

-- PAGE_CEILING of include/jemalloc/internal/pages.h.
abbrev pub page_ceiling : ℕ → ℕ
page_ceiling s = clear_low (u64 (s + (page - 1))) lg_page

-- The large size class part of `sz_sa2u`.
unfoldable pub sa2u_large : Tables → Bool → ℕ → ℕ → ℕ
sa2u_large t disabled size alignment =
    if ltb sc_large_maxclass alignment
    then 0
    else (let usize =
          (if leb size sc_large_minclass then sc_large_minclass else sz_s2u t disabled size) in
        if ltb sc_large_minclass size && ltb usize size
        then 0
        else (if ltb (sub64 (u64 (usize + t.sz_large_pad + page_ceiling alignment)) page) usize
            then 0
            else usize))

-- The alignment is a power of two, so `rounded & ~alignment_mask` drops the remainder by it.
unfoldable pub sz_sa2u : Tables → Bool → ℕ → ℕ → ℕ
sz_sa2u t disabled size alignment =
    if alignment == 0
    then 0
    else (let alignment_mask = alignment - 1 in
        let rounded = u64 (size + alignment_mask) in
        let usize = sz_s2u t disabled (rounded / alignment * alignment) in
        let large = sa2u_large t disabled size alignment in
        if leb size sc_small_maxclass && leb alignment page
        then (if ltb rounded size
            then 0
            else (if ltb usize sc_large_minclass then usize else large))
        else large)

unfoldable pub sz_psz_quantize_floor : Tables → ℕ → ℕ
sz_psz_quantize_floor t size =
    let pind = sz_psz2ind (u64 (sub64 size t.sz_large_pad + 1)) in
    if pind == 0 then size else u64 (sz_pind2sz t (pind - 1) + t.sz_large_pad)

unfoldable pub sz_psz_quantize_ceil : Tables → ℕ → ℕ
sz_psz_quantize_ceil t size =
    let ret = sz_psz_quantize_floor t size in
    if ltb ret size
    then u64 (sz_pind2sz t (sz_psz2ind (u64 (sub64 ret t.sz_large_pad + 1))) + t.sz_large_pad)
    else ret
