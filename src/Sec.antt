-- ===== src/Sec.antt =====
-- src/sec.c and include/jemalloc/internal/sec.h: the small extent cache. A bin, under its lock. The
-- statistics that are only merged from the counters are left out.
mod Tests
pub mod Account
pub mod Bins
pub mod Fill
pub mod Shards
pub mod Whole
pub mod Picked
pub mod Run
pub mod Init
use jemalloc.Base.{
  ℕ, ◌+◌, ◌-◌, ◌*◌, ◌/◌, Bool, true, false, ltb, leb, if◌then◌else◌, min, max, Option, none, some,
  List, [], ◌∷◌, ◌++◌, u64, sub64, shr,
}

-- What the cache reads of an extent; `base` tells extents apart.
pub record Edata : Type 0 where
  pub base : ℕ
  pub size : ℕ
  pub pinned : Bool

pub record SecOpts : Type 0 where
  pub nshards : ℕ
  pub max_alloc : ℕ
  pub max_bytes : ℕ
  pub experimental_trim : Bool

pub record SecBin : Type 0 where
  pub bytes_cur : ℕ
  pub bytes_pinned_cur : ℕ
  pub freelist : List Edata
  pub nmisses : ℕ
  pub nhits : ℕ
  pub ndalloc_flush : ℕ
  pub ndalloc_noflush : ℕ
  pub noverfills : ℕ
  pub low_water_bytes : ℕ

abbrev pub sec_min_nallocs : ℕ
sec_min_nallocs = 2

abbrev pub sec_max_nallocs : ℕ
sec_max_nallocs = 8

abbrev pub sec_max_bytes_div : ℕ
sec_max_bytes_div = 4

-- The bin after it; whether its lock is made, `sec_init` is told.
unfoldable pub sec_bin_init : SecBin
sec_bin_init = record {
  bytes_cur = 0;
  bytes_pinned_cur = 0;
  freelist = [];
  nmisses = 0;
  nhits = 0;
  ndalloc_flush = 0;
  ndalloc_noflush = 0;
  noverfills = 0;
  low_water_bytes = 0;
}

-- The first extent of the list, if there is one.
unfoldable pub alloc_first : SecOpts → SecBin → List Edata → SecBin × Option Edata
alloc_first opts bin [] = (bin, none)
alloc_first opts bin (edata ∷ rest) =
    let bytes_cur = sub64 bin.bytes_cur edata.size in
    (
      record bin {
        freelist = rest;
        low_water_bytes =
            if opts.experimental_trim
            then min bin.low_water_bytes bytes_cur
            else bin.low_water_bytes;
        bytes_pinned_cur =
            if edata.pinned then sub64 bin.bytes_pinned_cur edata.size else bin.bytes_pinned_cur;
        bytes_cur = bytes_cur;
        nhits = u64 (bin.nhits + 1);
      },
      some edata,
    )

unfoldable pub sec_bin_alloc_locked : SecOpts → SecBin → SecBin × Option Edata
sec_bin_alloc_locked opts bin = alloc_first opts bin bin.freelist

-- A list from its last element on, before `acc`.
unfoldable pub rev_onto {ℓ} : {A : Type ℓ} → List A → List A → List A
rev_onto [] acc = acc
rev_onto (x ∷ xs) acc = rev_onto xs (x ∷ acc)

-- What the loops that take extents from a list's end change.
pub record Flushing : Type 0 where
  pub bytes : ℕ
  pub pinned : ℕ
  pub left : List Edata
  pub out : List Edata

-- The loop that takes extents from the end of the list, given from its end, while there are more than
-- `target` bytes.
unfoldable pub flush_from : ℕ → ℕ → ℕ → List Edata → List Edata → Flushing
flush_from target bytes pinned [] out = record {
  bytes = bytes;
  pinned = pinned;
  left = [];
  out = out;
}
flush_from target bytes pinned (cur ∷ rest) out =
    let next =
      flush_from target (sub64 bytes cur.size)
        (if cur.pinned then sub64 pinned cur.size else pinned) rest (out ++ (cur ∷ [])) in
    if ltb target bytes
    then next
    else record { bytes = bytes; pinned = pinned; left = cur ∷ rest; out = out }

-- `dalloc_list` holds the extent to cache, and those to free afterwards.
unfoldable pub sec_bin_dalloc_locked : SecOpts → SecBin → ℕ → List Edata → SecBin × List Edata
sec_bin_dalloc_locked opts bin size [] = (bin, [])
sec_bin_dalloc_locked opts bin size (edata ∷ others) =
    let bytes_cur = u64 (bin.bytes_cur + size) in
    let freelist = edata ∷ bin.freelist in
    let pinned =
      (if edata.pinned then u64 (bin.bytes_pinned_cur + size) else bin.bytes_pinned_cur) in
    let bytes_target = opts.max_bytes - shr opts.max_bytes 2 in
    let flushed = flush_from bytes_target bytes_cur pinned (rev_onto freelist []) others in
    if leb bytes_cur opts.max_bytes
    then (
      record bin {
        bytes_cur = bytes_cur;
        bytes_pinned_cur = pinned;
        freelist = freelist;
        ndalloc_noflush = u64 (bin.ndalloc_noflush + 1);
      },
      others,
    )
    else (
      record bin {
        bytes_cur = flushed.bytes;
        bytes_pinned_cur = flushed.pinned;
        freelist = rev_onto flushed.left [];
        ndalloc_flush = u64 (bin.ndalloc_flush + 1);
        low_water_bytes =
            if opts.experimental_trim
            then min bin.low_water_bytes flushed.bytes
            else bin.low_water_bytes;
      },
      flushed.out,
    )

unfoldable pub sec_list_pinned_bytes_get : List Edata → ℕ → ℕ
sec_list_pinned_bytes_get [] size = 0
sec_list_pinned_bytes_get (edata ∷ list) size =
    let rest = sec_list_pinned_bytes_get list size in
    if edata.pinned then u64 (size + rest) else rest

-- What the loop of an overfull `sec_fill` changes.
pub record Filling : Type 0 where
  pub bytes : ℕ
  pub pinned : ℕ
  pub freelist : List Edata
  pub result : List Edata

unfoldable pub fill_from : ℕ → ℕ → ℕ → ℕ → List Edata → List Edata → Filling
fill_from max_bytes size bytes pinned freelist [] = record {
  bytes = bytes;
  pinned = pinned;
  freelist = freelist;
  result = [];
}
fill_from max_bytes size bytes pinned freelist (edata ∷ result) =
    let next =
      fill_from max_bytes size (u64 (bytes + size))
        (if edata.pinned then u64 (pinned + size) else pinned) (freelist ++ (edata ∷ [])) result in
    if leb (u64 (bytes + size)) max_bytes
    then next
    else record { bytes = bytes; pinned = pinned; freelist = freelist; result = edata ∷ result }

-- `sec_fill` on its bin: what is not taken stays in `result`.
unfoldable pub fill_locked : SecOpts → SecBin → ℕ → List Edata → ℕ → SecBin × List Edata
fill_locked opts bin size result nallocs =
    let new_cached_bytes = u64 (nallocs * size) in
    let filled =
      fill_from opts.max_bytes size bin.bytes_cur bin.bytes_pinned_cur bin.freelist result in
    if leb (u64 (bin.bytes_cur + new_cached_bytes)) opts.max_bytes
    then (
      record bin {
        bytes_pinned_cur = u64 (bin.bytes_pinned_cur + sec_list_pinned_bytes_get result size);
        freelist = bin.freelist ++ result;
        bytes_cur = u64 (bin.bytes_cur + new_cached_bytes);
      },
      [],
    )
    else (
      record bin {
        bytes_cur = filled.bytes;
        bytes_pinned_cur = filled.pinned;
        freelist = filled.freelist;
        noverfills = u64 (bin.noverfills + 1);
      },
      filled.result,
    )

-- `sec_flush` and `sec_trim` on a bin.
unfoldable pub flush_locked : SecBin → List Edata → SecBin × List Edata
flush_locked bin to_flush = (
  record bin { bytes_cur = 0; bytes_pinned_cur = 0; low_water_bytes = 0; freelist = [] },
  to_flush ++ bin.freelist,
)

unfoldable pub trim_locked : SecBin → List Edata → SecBin × List Edata
trim_locked bin to_flush =
    let target = sub64 bin.bytes_cur (shr bin.low_water_bytes 1) in
    let trimmed =
      flush_from target bin.bytes_cur bin.bytes_pinned_cur (rev_onto bin.freelist []) to_flush in
    (
      record bin {
        bytes_cur = trimmed.bytes;
        bytes_pinned_cur = trimmed.pinned;
        freelist = rev_onto trimmed.left [];
        low_water_bytes = trimmed.bytes;
      },
      trimmed.out,
    )
