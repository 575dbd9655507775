-- ===== src/Rtree/Access.antt =====
-- Reading what was written, through the caches, in include/jemalloc/internal/rtree.h.
use jemalloc.Base.{
  ℕ, ◌<◌, ◌≡◌, ◌↔◌, inl, inr, refl, sym, ap, subst, ◌∙◌, arith, Bool, true, false, not, ◌&&◌, ◌==◌,
  if◌then◌else◌, Option, none, some, eq→==,
}
use jemalloc.Rtree.{
  Rtree, RtreeCtx, root_subkey, leaf_subkey, rtree_leaf_elm_lookup, rtree_leaf_elm_bits_read,
  rtree_leaf_elm_write, rtree_leaf_elm_write_commit, rtree_read, rtree_write,
}
use jemalloc.Rtree.Packed.{
  RtreeContents, IsPackable, rtree_leaf_elm_bits_encode, rtree_leaf_elm_bits_decode,
  bits_decode-bits_encode,
}
use jemalloc.Rtree.Coherent.{IsCoherent, uncached_there, leaf_elm_lookup-IsWalk}
use jemalloc.Rtree.View.{
  view, page_of, IsTree, IsNew, IsShort, same_subkeys, view_there, IsReached, uncached_found,
  view-write,
}

-- A read through coherent caches decodes the bits of the tree.
read_view :
    (rtree : Rtree) (ctx : RtreeCtx) (key : ℕ)
    → IsCoherent rtree ctx
    → 0 < rtree.root (root_subkey key)
    → (rtree_read rtree ctx key).1 ≡ rtree_leaf_elm_bits_decode (view rtree key)
unfolding rtree_read rtree_leaf_elm_bits_read
read_view rtree ctx key ok there =
    let (e, _) = leaf_elm_lookup-IsWalk 0 rtree ctx key ok true false (λ _. there) in
    ap
      (λ (p : Rtree × Option (ℕ × ℕ)).
        rtree_leaf_elm_bits_decode (rtree_leaf_elm_bits_read p.0 p.1))
      (e ∙ uncached_there 0 rtree key (rtree.root (root_subkey key)) false refl there)
    ∙ ap rtree_leaf_elm_bits_decode (sym (view_there rtree key there))

-- What a write leaves.
pub record IsWritten (alloc : ℕ) (rtree : Rtree) (key : ℕ) (contents : RtreeContents)
    (result : Rtree × RtreeCtx × Bool) : Type 0 where
  pub fails : (result.2 ≡ true) ↔ IsShort alloc rtree key
  pub unchanged : result.2 ≡ true → result.0 ≡ rtree
  pub coherent : IsCoherent result.0 result.1
  pub tree : IsTree result.0
  pub shows :
      (k : ℕ)
      → view result.0 k ≡ (
          if not result.2 && page_of key == page_of k
          then rtree_leaf_elm_bits_encode contents
          else view rtree k)
  pub there :
      result.2 ≡ false → (k : ℕ) → page_of key ≡ page_of k → 0 < result.0.root (root_subkey k)

write_failed :
    (alloc : ℕ) (rtree : Rtree) (key : ℕ) (contents : RtreeContents) (rtree' : Rtree)
    (ctx' : RtreeCtx)
    → IsShort alloc rtree key
    → IsTree rtree
    → IsCoherent rtree' ctx'
    → rtree' ≡ rtree
    → IsWritten alloc rtree key contents (rtree', ctx', true)
write_failed alloc rtree key contents rtree' ctx' short tree ok e = record {
  fails = ((λ _. short), (λ _. refl));
  unchanged = λ _. e;
  coherent = ok;
  tree = subst IsTree (sym e) tree;
  shows = λ k. ap (λ r. view r k) e;
  there = λ p. absurd (ground (arith, p));
}

write_done :
    (alloc : ℕ) (rtree : Rtree) (key : ℕ) (contents : RtreeContents) (rtree' : Rtree)
    (ctx' : RtreeCtx) (leaf : ℕ)
    → (rtree.root (root_subkey key) ≡ 0 → 0 < alloc)
    → IsCoherent rtree' ctx'
    → IsReached rtree key rtree' leaf
    → IsWritten alloc rtree key contents
        (rtree_leaf_elm_write rtree' (leaf, leaf_subkey key) contents, ctx', false)
unfolding rtree_leaf_elm_write rtree_leaf_elm_write_commit
write_done alloc rtree key contents rtree' ctx' leaf got ok found = record {
  fails = ((λ p. absurd (ground (arith, p))), (λ p. absurd (omega (arith, got p.0, p.1))));
  unchanged = λ p. absurd (ground (arith, p));
  coherent = record { cache = ok.cache; l2_cache = ok.l2_cache };
  tree = found.tree;
  shows = view-write rtree rtree' key leaf (rtree_leaf_elm_bits_encode contents) found;
  there = λ _ k e. omega (arith, ap rtree'.root (same_subkeys key k e).0, found.root, found.there);
}

abbrev finish_write : Rtree → RtreeCtx → RtreeContents → Option (ℕ × ℕ) → Rtree × RtreeCtx × Bool
finish_write rtree ctx contents none = (rtree, ctx, true)
finish_write rtree ctx contents (some e) = (rtree_leaf_elm_write rtree e contents, ctx, false)

rtree_write-IsWritten :
    (alloc : ℕ) (rtree : Rtree) (ctx : RtreeCtx) (key : ℕ) (contents : RtreeContents)
    → IsCoherent rtree ctx
    → IsTree rtree
    → (rtree.root (root_subkey key) ≡ 0 → 0 < alloc → IsNew alloc rtree)
    → IsWritten alloc rtree key contents (rtree_write alloc rtree ctx key contents)
unfolding rtree_write
rtree_write-IsWritten alloc rtree ctx key contents ok tree new =
    let looked = rtree_leaf_elm_lookup alloc rtree ctx key false true in
    let (e, ok') =
      leaf_elm_lookup-IsWalk alloc rtree ctx key ok false true (λ p. absurd (ground (arith, p))) in
    elim (uncached_found alloc rtree key tree new) [
      | inl (short, failed) ↦
          let e' = e ∙ failed in
          subst
            (λ o. IsWritten alloc rtree key contents (finish_write looked.0 looked.1 contents o))
            (sym (ap (λ (p : Rtree × Option (ℕ × ℕ)). p.1) e'))
            (write_failed alloc rtree key contents looked.0 looked.1 short tree ok'
              (ap (λ (p : Rtree × Option (ℕ × ℕ)). p.0) e'))
      | inr (rtree', leaf, got, made, found) ↦
          let e' = e ∙ made in
          let e₀ : looked.0 ≡ rtree' = ap (λ (p : Rtree × Option (ℕ × ℕ)). p.0) e' in
          subst
            (λ o. IsWritten alloc rtree key contents (finish_write looked.0 looked.1 contents o))
            (sym (ap (λ (p : Rtree × Option (ℕ × ℕ)). p.1) e'))
            (write_done alloc rtree key contents looked.0 looked.1 leaf got ok'
              (subst (λ r. IsReached rtree key r leaf) (sym e₀) found))
    ]

-- For caches that hold no wrong leaf, a tree of distinct leaves and, where the leaf is missing and there
-- is memory for one, a new leaf of zeros: a write fails exactly when the leaf is missing and there is no
-- memory, and then the tree is the one from before. After a write that does not fail, a read through
-- the caches at any key of the same page returns the packable contents that was written. The bits that
-- the tree holds for every other page are those from before; and tree and caches stay so.
pub rtree_read-rtree_write :
    (alloc : ℕ) (rtree : Rtree) (ctx : RtreeCtx) (key : ℕ) (contents : RtreeContents)
    → IsCoherent rtree ctx
    → IsTree rtree
    → (rtree.root (root_subkey key) ≡ 0 → 0 < alloc → IsNew alloc rtree)
    → IsPackable contents
    → IsWritten alloc rtree key contents (rtree_write alloc rtree ctx key contents)
      × ((rtree_write alloc rtree ctx key contents).2 ≡ false
          → (k : ℕ) → page_of key ≡ page_of k
          → (rtree_read
              (rtree_write alloc rtree ctx key contents).0
              (rtree_write alloc rtree ctx key contents).1
              k).1
            ≡ contents)
rtree_read-rtree_write alloc rtree ctx key contents ok tree new packable =
    let result = rtree_write alloc rtree ctx key contents in
    let w = rtree_write-IsWritten alloc rtree ctx key contents ok tree new in
    (
      w,
      λ good k e.
          read_view result.0 result.1 k w.coherent (w.there good k e)
          ∙ ap rtree_leaf_elm_bits_decode (w.shows k ∙ rw (good, eq→== _ _ e) refl)
          ∙ bits_decode-bits_encode contents packable,
    )
