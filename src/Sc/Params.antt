-- ===== src/Sc/Params.antt =====
-- The constants of include/jemalloc/internal/sc.h, at the usual 64-bit configuration: 4 KiB pages
-- (LG_PAGE 12), a 16-byte quantum (LG_QUANTUM 4), 8-byte pointers (LG_SIZEOF_PTR 3).
use jemalloc.Base.{ℕ, ◌+◌, ◌-◌, ◌*◌, ◌^◌}

abbrev pub lg_sizeof_ptr : ℕ
lg_sizeof_ptr = 3

abbrev pub lg_page : ℕ
lg_page = 12

abbrev pub page : ℕ
page = 2 ^ lg_page

abbrev pub lg_quantum : ℕ
lg_quantum = 4

abbrev pub sc_lg_ngroup : ℕ
sc_lg_ngroup = 2

abbrev pub sc_lg_tiny_min : ℕ
sc_lg_tiny_min = 3

abbrev pub sc_ngroup : ℕ
sc_ngroup = 2 ^ sc_lg_ngroup

abbrev pub sc_ptr_bits : ℕ
sc_ptr_bits = 2 ^ lg_sizeof_ptr * 8

abbrev pub sc_ntiny : ℕ
sc_ntiny = lg_quantum - sc_lg_tiny_min

abbrev pub sc_lg_tiny_maxclass : ℕ
sc_lg_tiny_maxclass = lg_quantum - 1

abbrev pub sc_lg_first_regular_base : ℕ
sc_lg_first_regular_base = lg_quantum + sc_lg_ngroup

abbrev pub sc_lg_base_max : ℕ
sc_lg_base_max = sc_ptr_bits - 2

abbrev pub sc_nregular : ℕ
sc_nregular = sc_ngroup * (sc_lg_base_max - sc_lg_first_regular_base + 1) - 1

abbrev pub sc_nsizes : ℕ
sc_nsizes = sc_ntiny + sc_ngroup + sc_nregular

abbrev pub sc_npsizes : ℕ
sc_npsizes = sc_ngroup + (sc_lg_base_max - (lg_page + sc_lg_ngroup)) * sc_ngroup + sc_ngroup - 1

abbrev pub sc_nbins : ℕ
sc_nbins =
    sc_ntiny + sc_ngroup + sc_ngroup * (lg_page + sc_lg_ngroup - sc_lg_first_regular_base) - 1

abbrev pub sc_lg_max_lookup : ℕ
sc_lg_max_lookup = 12

abbrev pub sc_lookup_maxclass : ℕ
sc_lookup_maxclass = 2 ^ sc_lg_max_lookup

abbrev pub sc_small_maxclass : ℕ
sc_small_maxclass = 2 ^ (lg_page + sc_lg_ngroup - 1) + (sc_ngroup - 1) * 2 ^ (lg_page - 1)

abbrev pub sc_large_minclass : ℕ
sc_large_minclass = 2 ^ (lg_page + sc_lg_ngroup)

abbrev pub sc_large_maxclass : ℕ
sc_large_maxclass = 0x7000000000000000
