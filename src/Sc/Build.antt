-- ===== src/Sc/Build.antt =====
-- `size_classes` and `sc_data_init` of src/sc.c: the table is written class by class, in three
-- loops. A `while` that counts one variable up to a bound recurs on the rounds that are left.
use jemalloc.Base.{
  ℕ, zero, suc, ◌+◌, ◌-◌, ◌*◌, ◌^◌, Bool, true, false, not, Option, none, some, List, [], ◌∷◌, ◌++◌,
  ltb, ◌==◌, if◌then◌else◌, u64, shl64,
}
use jemalloc.BitUtil.{lg_ceil}
use jemalloc.Sc.{Sc, ScData, size_class}
use jemalloc.Sc.Params.{
  lg_sizeof_ptr, lg_quantum, sc_lg_tiny_min, sc_lg_max_lookup, lg_page, sc_lg_ngroup,
}

-- The parameters of `size_classes`.
pub record Config : Type 0 where
  pub lg_ptr_size : ℕ
  pub lg_quantum : ℕ
  pub lg_tiny_min : ℕ
  pub lg_max_lookup : ℕ
  pub lg_page : ℕ
  pub lg_ngroup : ℕ

-- Its local variables, with the table written so far: `index` counts its entries.
pub record Locals : Type 0 where
  pub sc : List Sc
  pub ntiny : ℕ
  pub nlbins : ℕ
  pub lg_tiny_maxclass : Option ℕ
  pub nbins : ℕ
  pub npsizes : ℕ
  pub index : ℕ
  pub ndelta : ℕ
  pub lg_base : ℕ
  pub lg_delta : ℕ
  pub lookup_maxclass : ℕ
  pub small_maxclass : ℕ
  pub lg_large_minclass : ℕ
  pub large_maxclass : ℕ

abbrev pub start : Config → Locals
start c = record {
  sc = [];
  ntiny = 0;
  nlbins = 0;
  lg_tiny_maxclass = none;
  nbins = 0;
  npsizes = 0;
  index = 0;
  ndelta = 0;
  lg_base = c.lg_tiny_min;
  lg_delta = c.lg_tiny_min;
  lookup_maxclass = 0;
  small_maxclass = 0;
  lg_large_minclass = 0;
  large_maxclass = 0;
}

abbrev pub next_class : Config → Locals → Sc
next_class c s =
    size_class c.lg_max_lookup c.lg_page c.lg_ngroup s.index s.lg_base s.lg_delta s.ndelta

abbrev pub count : Bool → ℕ → ℕ
count b n = if b then n + 1 else n

-- while (lg_base < lg_quantum)
unfoldable pub tiny_loop : ℕ → Config → Locals → Locals
tiny_loop zero c s = s
tiny_loop (suc rounds) c s =
    let sc = next_class c s in
    tiny_loop rounds c (record s {
      sc = s.sc ++ sc ∷ [];
      nlbins = if sc.lg_delta_lookup == 0 then s.nlbins else s.index + 1;
      npsizes = count sc.psz s.npsizes;
      nbins = count sc.bin s.nbins;
      ntiny = s.ntiny + 1;
      lg_tiny_maxclass = some s.lg_base;
      index = s.index + 1;
      lg_delta = s.lg_base;
      lg_base = s.lg_base + 1;
    })

-- if (ntiny != 0): the first non-tiny class.
unfoldable pub first_pseudo : Config → Locals → Locals
first_pseudo c s =
    let s' = (record s { lg_base = s.lg_base - 1; ndelta = 1 }) in
    let sc = next_class c s' in
    if s.ntiny == 0 then s else record s' {
      sc = s.sc ++ sc ∷ [];
      index = s.index + 1;
      lg_base = s'.lg_base + 1;
      lg_delta = s.lg_delta + 1;
      npsizes = count sc.psz s.npsizes;
      nbins = count sc.bin s.nbins;
    }

-- while (ndelta < ngroup)
unfoldable pub pseudo_loop : ℕ → Config → Locals → Locals
pseudo_loop zero c s = s
pseudo_loop (suc rounds) c s =
    let sc = next_class c s in
    pseudo_loop rounds c (record s {
      sc = s.sc ++ sc ∷ [];
      index = s.index + 1;
      ndelta = s.ndelta + 1;
      npsizes = count sc.psz s.npsizes;
      nbins = count sc.bin s.nbins;
    })

-- while (ndelta <= ndelta_limit)
unfoldable pub group_loop : ℕ → Config → Locals → Locals
group_loop zero c s = s
group_loop (suc rounds) c s =
    let sc = next_class c s in
    let size = u64 (shl64 1 s.lg_base + shl64 s.ndelta s.lg_delta) in
    let looked_up = not (sc.lg_delta_lookup == 0) in
    group_loop rounds c (record s {
      sc = s.sc ++ sc ∷ [];
      nlbins = if looked_up then s.index + 1 else s.nlbins;
      lookup_maxclass = if looked_up then size else s.lookup_maxclass;
      npsizes = count sc.psz s.npsizes;
      nbins = count sc.bin s.nbins;
      small_maxclass = if sc.bin then size else s.small_maxclass;
      lg_large_minclass =
          if sc.bin
          then (if ltb 0 c.lg_ngroup then s.lg_base + 1 else s.lg_base + 2)
          else s.lg_large_minclass;
      large_maxclass = size;
      index = s.index + 1;
      ndelta = s.ndelta + 1;
    })

-- while (lg_base < ptr_bits - 1)
unfoldable pub regular_loop : ℕ → Config → Locals → Locals
regular_loop zero c s = s
regular_loop (suc rounds) c s =
    let ptr_bits = 2 ^ c.lg_ptr_size * 8 in
    let ngroup = 2 ^ c.lg_ngroup in
    let ndelta_limit = (if s.lg_base == ptr_bits - 2 then ngroup - 1 else ngroup) in
    let s' = group_loop ndelta_limit c (record s { ndelta = 1 }) in
    regular_loop rounds c (record s' { lg_base = s'.lg_base + 1; lg_delta = s'.lg_delta + 1 })

unfoldable pub size_classes : Config → ScData
size_classes c =
    let ptr_bits = 2 ^ c.lg_ptr_size * 8 in
    let ngroup = 2 ^ c.lg_ngroup in
    let s1 = tiny_loop (c.lg_quantum - c.lg_tiny_min) c (start c) in
    let s2 = first_pseudo c s1 in
    let s3 = pseudo_loop (ngroup - s2.ndelta) c s2 in
    let s4 = (record s3 { lg_base = s3.lg_base + c.lg_ngroup }) in
    let s = regular_loop (ptr_bits - 1 - s4.lg_base) c s4 in
    record {
      ntiny = s.ntiny;
      nlbins = s.nlbins;
      nbins = s.nbins;
      nsizes = s.index;
      lg_ceil_nsizes = lg_ceil s.index;
      npsizes = s.npsizes;
      lg_tiny_maxclass = s.lg_tiny_maxclass;
      lookup_maxclass = s.lookup_maxclass;
      small_maxclass = s.small_maxclass;
      lg_large_minclass = s.lg_large_minclass;
      large_minclass = shl64 1 s.lg_large_minclass;
      large_maxclass = s.large_maxclass;
      initialized = false;
      sc = s.sc;
    }

unfoldable pub sc_data_init : ScData
sc_data_init =
    record (size_classes (record {
      lg_ptr_size = lg_sizeof_ptr;
      lg_quantum = lg_quantum;
      lg_tiny_min = sc_lg_tiny_min;
      lg_max_lookup = sc_lg_max_lookup;
      lg_page = lg_page;
      lg_ngroup = sc_lg_ngroup;
    })) { initialized = true }

unfoldable pub sc_boot : ScData
sc_boot = sc_data_init
