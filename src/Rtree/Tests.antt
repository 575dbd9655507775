-- ===== src/Rtree/Tests.antt =====
-- A tree with one leaf, through empty caches.
use jemalloc.Base.{
  ℕ, ◌+◌, ◌*◌, ◌-◌, ◌^◌, ◌<◌, ◌≡◌, refl, inr, arith, eq→==, ◌/◌, ◌%◌, true, false, ◌==◌,
  if◌then◌else◌, Bool,
}
use jemalloc.Rtree.{
  Rtree, RtreeCtx, root_subkey, rtree_ctx_data_init, rtree_leaf_elm_lookup, rtree_read, rtree_write,
  rtree_write_range,
}
use jemalloc.Rtree.Packed.{
  RtreeContents, IsPackable, rtree_leaf_elm_bits_encode, rtree_leaf_elm_bits_decode,
  bits_decode-bits_encode,
}
use jemalloc.Rtree.Coherent.{IsWalk, ctx_data_init-IsCoherent, leaf_elm_lookup-IsWalk}
use jemalloc.Rtree.Range.{IsRangeWritten, rtree_write_range-IsRangeWritten}
use jemalloc.Sc.Params.{page}
use jemalloc.Rtree.View.{IsTree, page_of}
use jemalloc.Rtree.Access.{IsWritten, rtree_read-rtree_write}

abbrev empty_tree : Rtree
empty_tree = record { root = λ i. 0; elms = λ leaf i. 0 }

empty_tree-IsTree : IsTree empty_tree
empty_tree-IsTree i j e there = absurd (omega arith)

abbrev slab_extent : RtreeContents
slab_extent = record {
  edata = 2 ^ 64 - 2 ^ 40;
  metadata = record { szind = 5; state = 1; is_head = false; slab = true };
}

slab_extent-IsPackable : IsPackable slab_extent
slab_extent-IsPackable = record {
  aligned = omega arith;
  canonical = inr (omega arith, omega arith);
  szind = omega arith;
  state = omega arith;
}

bits_decode-bits_encode_example :
    rtree_leaf_elm_bits_decode (rtree_leaf_elm_bits_encode slab_extent) ≡ slab_extent
bits_decode-bits_encode_example = bits_decode-bits_encode slab_extent slab_extent-IsPackable

leaf_elm_lookup-IsWalk_example :
    IsWalk 4096 empty_tree
      (2 ^ 40)
      true
      (rtree_leaf_elm_lookup 4096 empty_tree rtree_ctx_data_init (2 ^ 40) false true)
leaf_elm_lookup-IsWalk_example =
    leaf_elm_lookup-IsWalk 4096 empty_tree rtree_ctx_data_init (2 ^ 40)
      (ctx_data_init-IsCoherent empty_tree) false true (λ p. absurd (ground (arith, p)))

abbrev after_write : Rtree × RtreeCtx × Bool
after_write = rtree_write 4096 empty_tree rtree_ctx_data_init (2 ^ 40) slab_extent

rtree_read-rtree_write_example :
    IsWritten 4096 empty_tree (2 ^ 40) slab_extent after_write
    × (after_write.2 ≡ false
        → (k : ℕ) → page_of (2 ^ 40) ≡ page_of k
        → (rtree_read after_write.0 after_write.1 k).1 ≡ slab_extent)
rtree_read-rtree_write_example =
    rtree_read-rtree_write 4096 empty_tree rtree_ctx_data_init (2 ^ 40) slab_extent
      (ctx_data_init-IsCoherent empty_tree) empty_tree-IsTree
      (λ _ _. record { apart = λ i e. absurd (omega (arith, e)); zeroed = λ j. refl })
      slab_extent-IsPackable

-- Without memory for the leaf the same write fails.
write_without_memory : (rtree_write 0 empty_tree rtree_ctx_data_init (2 ^ 40) slab_extent).2 ≡ true
write_without_memory =
    (rtree_read-rtree_write 0 empty_tree rtree_ctx_data_init (2 ^ 40) slab_extent
        (ctx_data_init-IsCoherent empty_tree) empty_tree-IsTree (λ _ p. absurd (omega (arith, p)))
        slab_extent-IsPackable).0.fails.1
      (refl, refl)

abbrev one_leaf : Rtree
one_leaf = record { root = λ i. if i == 0 then 4096 else 0; elms = λ leaf i. 0 }

one_leaf-IsTree : IsTree one_leaf
one_leaf-IsTree i j e there = ground (arith, e, there)

one_leaf_there :
    (i : ℕ) → i < (12288 + page - 4096) / page → 0 < one_leaf.root (root_subkey (4096 + i * page))
unfolding root_subkey
one_leaf_there i p =
    let e : (4096 + i * page) / 2 ^ 30 % 2 ^ 18 ≡ 0 = omega arith in rw (eq→== _ _ e) (omega arith)

rtree_write_range-IsRangeWritten_example :
    IsRangeWritten one_leaf 4096
      ((12288 + page - 4096) / page)
      (rtree_leaf_elm_bits_encode slab_extent)
      (rtree_write_range one_leaf rtree_ctx_data_init 4096 12288 slab_extent)
rtree_write_range-IsRangeWritten_example =
    rtree_write_range-IsRangeWritten one_leaf rtree_ctx_data_init 4096 12288 slab_extent
      (ctx_data_init-IsCoherent one_leaf) one_leaf-IsTree (omega arith) one_leaf_there
