-- ===== src/Rtree.antt =====
-- include/jemalloc/internal/rtree.h, include/jemalloc/internal/rtree_tsd.h and src/rtree.c: the radix
-- tree from pages to the extents that own them, with the cache of leaves of a thread.
mod Tests
pub mod Packed
pub mod Coherent
pub mod View
pub mod Access
pub mod Range
use jemalloc.Base.{
  put, ℕ, zero, suc, ◌+◌, ◌-◌, ◌*◌, ◌/◌, ◌%◌, ◌^◌, Bool, true, false, not, ◌&&◌, ◌||◌, ◌==◌, ltb,
  leb, if◌then◌else◌, Option, none, some, shr, low_bits, clear_low, u64,
}
use jemalloc.Sc.Params.{lg_page, page, sc_nsizes}
use jemalloc.Rtree.Packed.{
  RtreeContents, RtreeMetadata, rtree_leaf_elm_bits_encode, rtree_leaf_elm_bits_decode,
  rtree_leaf_elm_metadata_decode,
}

-- Two levels of 18 bits for virtual addresses of 48 bits and pages of 4096 bytes.
abbrev pub rtree_level_bits : ℕ
rtree_level_bits = 18

abbrev pub rtree_leaf_maskbits : ℕ
rtree_leaf_maskbits = 30

abbrev pub rtree_ctx_ncache : ℕ
rtree_ctx_ncache = 16

abbrev pub rtree_ctx_ncache_l2 : ℕ
rtree_ctx_ncache_l2 = 8

abbrev pub rtree_leafkey_invalid : ℕ
rtree_leafkey_invalid = 1

-- The root holds the address of a leaf, 0 for none, at each subkey; a leaf has an element at each subkey.
pub record Rtree : Type 0 where
  pub root : ℕ → ℕ
  pub elms : ℕ → ℕ → ℕ

pub record RtreeCtxCacheElm : Type 0 where
  pub leafkey : ℕ
  pub leaf : ℕ

pub record RtreeCtx : Type 0 where
  pub cache : ℕ → RtreeCtxCacheElm
  pub l2_cache : ℕ → RtreeCtxCacheElm

unfoldable pub rtree_leafkey : ℕ → ℕ
rtree_leafkey key = clear_low key rtree_leaf_maskbits

unfoldable pub rtree_cache_direct_map : ℕ → ℕ
rtree_cache_direct_map key = low_bits (shr key rtree_leaf_maskbits) 4

-- The subkeys in the root and in a leaf.
unfoldable pub root_subkey : ℕ → ℕ
root_subkey key = low_bits (shr key rtree_leaf_maskbits) rtree_level_bits

unfoldable pub leaf_subkey : ℕ → ℕ
leaf_subkey key = low_bits (shr key lg_page) rtree_level_bits

-- `alloc` is what `base_alloc_rtree` returns, the address of a leaf of zeros or 0.
unfoldable pub rtree_leaf_init : ℕ → Rtree → ℕ → Rtree × ℕ
rtree_leaf_init alloc rtree subkey =
    if rtree.root subkey == 0
    then (if alloc == 0
        then (rtree, 0)
        else (record rtree { root = put rtree.root subkey alloc }, alloc))
    else (rtree, rtree.root subkey)

unfoldable pub rtree_child_leaf_read : ℕ → Rtree → ℕ → Bool → Rtree × ℕ
rtree_child_leaf_read alloc rtree subkey dependent =
    if not dependent && rtree.root subkey == 0
    then rtree_leaf_init alloc rtree subkey
    else (rtree, rtree.root subkey)

unfoldable pub rtree_ctx_data_init : RtreeCtx
rtree_ctx_data_init = record {
  cache = λ i. record { leafkey = rtree_leafkey_invalid; leaf = 0 };
  l2_cache = λ i. record { leafkey = rtree_leafkey_invalid; leaf = 0 };
}

-- The cache replacement of a hard lookup: the L2 cache moves down by one.
unfoldable pub fill_cache : RtreeCtx → ℕ → ℕ → RtreeCtx
fill_cache ctx key leaf =
    let slot = rtree_cache_direct_map key in
    record {
      cache = put ctx.cache slot (record { leafkey = rtree_leafkey key; leaf = leaf });
      l2_cache =
          put
            (λ i.
              if i == 0 || leb rtree_ctx_ncache_l2 i then ctx.l2_cache i else ctx.l2_cache (i - 1))
            0 (ctx.cache slot);
    }

-- The element is a place in a leaf, `none` for a missing one.
unfoldable pub rtree_leaf_elm_lookup_hard :
    ℕ → Rtree → RtreeCtx → ℕ → Bool → Bool → Rtree × RtreeCtx × Option (ℕ × ℕ)
rtree_leaf_elm_lookup_hard alloc rtree ctx key dependent init_missing =
    let (rtree', leaf) =
      (if init_missing
        then rtree_child_leaf_read alloc rtree (root_subkey key) dependent
        else (rtree, rtree.root (root_subkey key))) in
    if not dependent && leaf == 0
    then (rtree', ctx, none)
    else (rtree', fill_cache ctx key leaf, some (leaf, leaf_subkey key))

-- The loop of RTREE_CACHE_CHECK_L2 from `i` on: the first place that holds the leaf key.
unfoldable pub l2_search : RtreeCtx → ℕ → ℕ → ℕ → Option ℕ
l2_search ctx leafkey zero i = none
l2_search ctx leafkey (suc rounds) i =
    let rest = l2_search ctx leafkey rounds (i + 1) in
    if (ctx.l2_cache i).leafkey == leafkey then some i else rest

-- A hit there: swap the element into the L1 cache, and move the place in L2 up by one.
unfoldable pub l2_hit : RtreeCtx → ℕ → ℕ → RtreeCtx
l2_hit ctx key i =
    let slot = rtree_cache_direct_map key in
    record {
      cache =
          put ctx.cache slot (record { leafkey = rtree_leafkey key; leaf = (ctx.l2_cache i).leaf });
      l2_cache =
          if ltb 0 i
          then put (put ctx.l2_cache i (ctx.l2_cache (i - 1))) (i - 1) (ctx.cache slot)
          else put ctx.l2_cache 0 (ctx.cache slot);
    }

unfoldable pub rtree_leaf_elm_lookup_fast : RtreeCtx → ℕ → Option (ℕ × ℕ)
rtree_leaf_elm_lookup_fast ctx key =
    let slot = rtree_cache_direct_map key in
    if (ctx.cache slot).leafkey == rtree_leafkey key
    then some ((ctx.cache slot).leaf, leaf_subkey key)
    else none

unfoldable pub rtree_leaf_elm_lookup :
    ℕ → Rtree → RtreeCtx → ℕ → Bool → Bool → Rtree × RtreeCtx × Option (ℕ × ℕ)
rtree_leaf_elm_lookup alloc rtree ctx key dependent init_missing =
    let slot = rtree_cache_direct_map key in
    let hard = rtree_leaf_elm_lookup_hard alloc rtree ctx key dependent init_missing in
    if (ctx.cache slot).leafkey == rtree_leafkey key
    then (rtree, ctx, some ((ctx.cache slot).leaf, leaf_subkey key))
    else elim (l2_search ctx (rtree_leafkey key) rtree_ctx_ncache_l2 0) [
      | none ↦ hard
      | some i ↦ (rtree, l2_hit ctx key i, some ((ctx.l2_cache i).leaf, leaf_subkey key))
    ]

-- The bits of an element; a missing element is none of the readers' that ask for one.
unfoldable pub rtree_leaf_elm_bits_read : Rtree → Option (ℕ × ℕ) → ℕ
rtree_leaf_elm_bits_read rtree none = 0
rtree_leaf_elm_bits_read rtree (some (leaf, i)) = rtree.elms leaf i

unfoldable pub rtree_leaf_elm_write_commit : Rtree → ℕ × ℕ → ℕ → Rtree
rtree_leaf_elm_write_commit rtree (leaf, i) bits = record rtree {
  elms = put rtree.elms leaf (put (rtree.elms leaf) i bits);
}

unfoldable pub rtree_leaf_elm_write : Rtree → ℕ × ℕ → RtreeContents → Rtree
rtree_leaf_elm_write rtree elm contents =
    rtree_leaf_elm_write_commit rtree elm (rtree_leaf_elm_bits_encode contents)

-- `none` on a failed lookup.
unfoldable pub rtree_read_independent : Rtree → RtreeCtx → ℕ → RtreeCtx × Option RtreeContents
rtree_read_independent rtree ctx key =
    let (rtree', ctx', elm) = rtree_leaf_elm_lookup 0 rtree ctx key false false in
    elim elm [
      | none ↦ (ctx', none)
      | some e ↦
          (ctx', some (rtree_leaf_elm_bits_decode (rtree_leaf_elm_bits_read rtree' (some e))))
    ]

unfoldable pub rtree_read : Rtree → RtreeCtx → ℕ → RtreeCtx × RtreeContents
rtree_read rtree ctx key =
    let (rtree', ctx', elm) = rtree_leaf_elm_lookup 0 rtree ctx key true false in
    (ctx', rtree_leaf_elm_bits_decode (rtree_leaf_elm_bits_read rtree' elm))

-- The result is true on failure.
unfoldable pub rtree_write : ℕ → Rtree → RtreeCtx → ℕ → RtreeContents → Rtree × RtreeCtx × Bool
rtree_write alloc rtree ctx key contents =
    let (rtree', ctx', elm) = rtree_leaf_elm_lookup alloc rtree ctx key false true in
    elim elm [
      | none ↦ (rtree', ctx', true)
      | some e ↦ (rtree_leaf_elm_write rtree' e contents, ctx', false)
    ]

unfoldable pub rtree_metadata_read : Rtree → RtreeCtx → ℕ → RtreeCtx × RtreeMetadata
rtree_metadata_read rtree ctx key =
    let (rtree', ctx', elm) = rtree_leaf_elm_lookup 0 rtree ctx key true false in
    (ctx', rtree_leaf_elm_metadata_decode (rtree_leaf_elm_bits_read rtree' elm))

-- `none` where the fast path cannot answer.
unfoldable pub rtree_metadata_try_read_fast : Rtree → RtreeCtx → ℕ → Option RtreeMetadata
rtree_metadata_try_read_fast rtree ctx key = elim (rtree_leaf_elm_lookup_fast ctx key) [
  | none ↦ none
  | some e ↦ some (rtree_leaf_elm_metadata_decode (rtree_leaf_elm_bits_read rtree (some e)))
]

-- The contents that clears an element.
abbrev pub cleared : RtreeContents
cleared = record {
  edata = 0;
  metadata = record { szind = sc_nsizes; state = 0; is_head = false; slab = false };
}

unfoldable pub rtree_clear : Rtree → RtreeCtx → ℕ → Rtree × RtreeCtx
rtree_clear rtree ctx key =
    let (rtree', ctx', elm) = rtree_leaf_elm_lookup 0 rtree ctx key true false in
    elim elm [ none ↦ (rtree', ctx') | some e ↦ (rtree_leaf_elm_write rtree' e cleared, ctx') ]

-- `elm2` may be missing.
unfoldable pub rtree_leaf_elm_state_update : Rtree → ℕ × ℕ → Option (ℕ × ℕ) → ℕ → Rtree
rtree_leaf_elm_state_update rtree elm1 elm2 state =
    let bits = rtree_leaf_elm_bits_read rtree (some elm1) in
    let bits' = bits - low_bits (shr bits 2) 3 * 2 ^ 2 + state * 2 ^ 2 in
    let rtree' = rtree_leaf_elm_write_commit rtree elm1 bits' in
    elim elm2 [ none ↦ rtree' | some e ↦ rtree_leaf_elm_write_commit rtree' e bits' ]

-- The loop of `rtree_write_range_impl` from `addr` on, with so many pages to go. `elm` is NULL before
-- the first lookup, and a lookup that depends on its leaf does not fail.
unfoldable pub write_range_from : ℕ → Rtree → RtreeCtx → ℕ → ℕ → ℕ × ℕ → ℕ → Rtree × RtreeCtx
write_range_from zero rtree ctx base addr elm bits = (rtree, ctx)
write_range_from (suc pages) rtree ctx base addr elm bits =
    let (_, ctx_looked, looked) = rtree_leaf_elm_lookup 0 rtree ctx addr true false in
    let search = addr == base || low_bits addr rtree_leaf_maskbits == 0 in
    let ctx' : RtreeCtx = (if search then ctx_looked else ctx) in
    let elm' : ℕ × ℕ = (if search then elim looked [ none ↦ (0, 0) | some e ↦ e ] else elm) in
    write_range_from pages (rtree_leaf_elm_write_commit rtree elm' bits) ctx' base (addr + page)
      (elm'.0, elm'.1 + 1) bits

unfoldable pub rtree_write_range_impl : Rtree → RtreeCtx → ℕ → ℕ → RtreeContents → Rtree × RtreeCtx
rtree_write_range_impl rtree ctx base end contents =
    write_range_from ((end + page - base) / page) rtree ctx base base (0, 0)
      (rtree_leaf_elm_bits_encode contents)

unfoldable pub rtree_write_range : Rtree → RtreeCtx → ℕ → ℕ → RtreeContents → Rtree × RtreeCtx
rtree_write_range rtree ctx base end contents = rtree_write_range_impl rtree ctx base end contents

unfoldable pub rtree_clear_range : Rtree → RtreeCtx → ℕ → ℕ → Rtree × RtreeCtx
rtree_clear_range rtree ctx base end = rtree_write_range_impl rtree ctx base end cleared
