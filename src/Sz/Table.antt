-- ===== src/Sz/Table.antt =====
-- The lookup tables of src/sz.c, as `sz_boot` fills them, and the lookups of sz.h. The loops write
-- an array from its start on, so a table is the list of what they write.
pub mod Agree
use jemalloc.Base.{
  ℕ, zero, suc, ◌+◌, ◌-◌, ◌*◌, ◌/◌, ◌%◌, ◌^◌, min, Bool, true, false, List, [], ◌∷◌, ◌++◌, map, ltb,
  leb, if◌then◌else◌, u64, shl64, shr, get_or, take, replicate, length,
}
use jemalloc.Sc.{Sc, ScData}
use jemalloc.Sc.Params.{
  page, sc_npsizes, sc_nsizes, sc_lg_tiny_min, sc_lookup_maxclass, sc_large_maxclass,
}
use jemalloc.Sz.{sz_size2index_compute, sz_s2u_compute}

pub record Tables : Type 0 where
  pub pind2sz_tab : List ℕ
  pub index2size_tab : List ℕ
  pub size2index_tab : List ℕ
  pub sz_large_pad : ℕ

unfoldable pub class_size : Sc → ℕ
class_size sc = u64 (shl64 1 sc.lg_base + shl64 sc.ndelta sc.lg_delta)

-- The first loop of `sz_boot_pind2sz_tab`.
unfoldable pub page_sizes : List Sc → List ℕ
page_sizes [] = []
page_sizes (sc ∷ rest) = if sc.psz then class_size sc ∷ page_sizes rest else page_sizes rest

unfoldable pub sz_boot_pind2sz_tab : ScData → List ℕ
sz_boot_pind2sz_tab d =
    let written = page_sizes (take sc_nsizes d.sc) in
    written ++ replicate (sc_npsizes + 1 - length written) (u64 (d.large_maxclass + page))

unfoldable pub sz_boot_index2size_tab : ScData → List ℕ
sz_boot_index2size_tab d = map class_size (take sc_nsizes d.sc)

abbrev pub dst_max : ℕ
dst_max = sc_lookup_maxclass / 2 ^ sc_lg_tiny_min + 1

-- The loop of `sz_boot_size2index_tab` from class `sc_ind` and entry `dst_ind` on: a class fills the
-- entries up to its own, below `dst_max`.
unfoldable pub size2index_from : List Sc → ℕ → ℕ → List ℕ
size2index_from [] sc_ind dst_ind = []
size2index_from (sc ∷ rest) sc_ind dst_ind =
    let max_ind = u64 (class_size sc + 2 ^ sc_lg_tiny_min - 1) / 2 ^ sc_lg_tiny_min in
    let rounds = min (max_ind + 1) dst_max - dst_ind in
    let more = size2index_from rest (sc_ind + 1) (dst_ind + rounds) in
    if ltb dst_ind dst_max then replicate rounds (sc_ind % 2 ^ 8) ++ more else []

unfoldable pub sz_boot_size2index_tab : ScData → List ℕ
sz_boot_size2index_tab d = size2index_from (take sc_nsizes d.sc) 0 0

unfoldable pub sz_boot : ScData → Bool → Tables
sz_boot d cache_oblivious = record {
  sz_large_pad = if cache_oblivious then page else 0;
  pind2sz_tab = sz_boot_pind2sz_tab d;
  index2size_tab = sz_boot_index2size_tab d;
  size2index_tab = sz_boot_size2index_tab d;
}

-- The lookups; `Agree` shows that they read inside the tables.
unfoldable pub sz_pind2sz_lookup : Tables → ℕ → ℕ
sz_pind2sz_lookup t pind = get_or t.pind2sz_tab pind 0

unfoldable pub sz_pind2sz : Tables → ℕ → ℕ
sz_pind2sz t pind = sz_pind2sz_lookup t pind

unfoldable pub sz_size2index_lookup_impl : Tables → ℕ → ℕ
sz_size2index_lookup_impl t size =
    get_or t.size2index_tab (u64 (size + 2 ^ sc_lg_tiny_min - 1) / 2 ^ sc_lg_tiny_min) 0

unfoldable pub sz_size2index_lookup : Tables → ℕ → ℕ
sz_size2index_lookup t size = sz_size2index_lookup_impl t size

unfoldable pub sz_size2index : Tables → ℕ → ℕ
sz_size2index t size =
    if leb size sc_lookup_maxclass then sz_size2index_lookup t size else sz_size2index_compute size

unfoldable pub sz_index2size_lookup_impl : Tables → ℕ → ℕ
sz_index2size_lookup_impl t index = get_or t.index2size_tab index 0

unfoldable pub sz_index2size_lookup : Tables → ℕ → ℕ
sz_index2size_lookup t index = sz_index2size_lookup_impl t index

unfoldable pub sz_index2size : Tables → ℕ → ℕ
sz_index2size t index = sz_index2size_lookup t index

unfoldable pub sz_s2u_lookup : Tables → ℕ → ℕ
sz_s2u_lookup t size = sz_index2size_lookup t (sz_size2index_lookup t size)

unfoldable pub sz_s2u : Tables → Bool → ℕ → ℕ
sz_s2u t disabled size =
    if leb size sc_lookup_maxclass then sz_s2u_lookup t size else sz_s2u_compute disabled size
