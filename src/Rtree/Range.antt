-- ===== src/Rtree/Range.antt =====
-- Writing a range of pages, leaf by leaf, in include/jemalloc/internal/rtree.h.
use jemalloc.Base.{
  ℕ, zero, suc, ◌+◌, ◌-◌, ◌*◌, ◌/◌, ◌%◌, ◌≤◌, ◌<◌, ◌≡◌, ◌≢◌, refl, sym, ap, subst, ◌∙◌, arith, true,
  false, ◌||◌, ◌==◌, if_cases, if◌then◌else◌, Option, none, some, eq→==, neq→==, ℕ_discrete,
  low_bits,
}
use jemalloc.Sc.Params.{page}
use jemalloc.Rtree.{
  Rtree, RtreeCtx, root_subkey, leaf_subkey, rtree_leaf_elm_lookup, rtree_leaf_elm_write_commit,
  write_range_from, rtree_write_range, rtree_write_range_impl,
}
use jemalloc.Rtree.Packed.{RtreeContents, rtree_leaf_elm_bits_encode}
use jemalloc.Rtree.Coherent.{IsCoherent, uncached_there, leaf_elm_lookup-IsWalk}
use jemalloc.Rtree.View.{view, page_of, IsTree, view-write}

-- What writing `pages` pages from `addr` on leaves.
pub record IsRangeWritten (rtree : Rtree) (addr pages bits : ℕ) (result : Rtree × RtreeCtx)
    : Type 0 where
  pub coherent : IsCoherent result.0 result.1
  pub root : result.0.root ≡ rtree.root
  pub inside :
      (k i : ℕ) → i < pages → page_of k ≡ page_of (addr + i * page) → view result.0 k ≡ bits
  pub keep : (k : ℕ) → view rtree k ≡ bits → view result.0 k ≡ bits
  pub outside :
      (k : ℕ)
      → ((i : ℕ) → i < pages → page_of k ≢ page_of (addr + i * page))
      → view result.0 k ≡ view rtree k

-- The element of an address.
abbrev elm_of : Rtree → ℕ → ℕ × ℕ
elm_of rtree addr = (rtree.root (root_subkey addr), leaf_subkey addr)

next_elm :
    (rtree : Rtree) (addr : ℕ)
    → low_bits (addr + page) 30 ≢ 0
    → addr % page ≡ 0
    → ((elm_of rtree addr).0, (elm_of rtree addr).1 + 1) ≡ elm_of rtree (addr + page)
unfolding root_subkey leaf_subkey
next_elm rtree addr inner aligned =
    let p : root_subkey addr ≡ root_subkey (addr + page) = omega (arith, inner, aligned) in
    let q : leaf_subkey addr + 1 ≡ leaf_subkey (addr + page) = omega (arith, inner, aligned) in
    λ i. (rtree.root (p i), q i)

-- One page, and those after it.
page-IsRangeWritten :
    (rtree : Rtree) (addr pages bits : ℕ) (elm : ℕ × ℕ) (result : Rtree × RtreeCtx)
    → IsTree rtree
    → 0 < rtree.root (root_subkey addr)
    → elm ≡ elm_of rtree addr
    → IsRangeWritten (rtree_leaf_elm_write_commit rtree elm bits) (addr + page) pages bits result
    → IsRangeWritten rtree addr (suc pages) bits result
unfolding rtree_leaf_elm_write_commit
page-IsRangeWritten rtree addr pages bits elm result tree there e rest = record {
  coherent = rest.coherent;
  root = rest.root;
  inside = λ k i p same. elim (ℕ_discrete i 0) [
    | yes first ↦ rest.keep k (written k (same ∙ ap page_of (omega arith)))
    | no later ↦ rest.inside k (i - 1) (omega arith) (same ∙ ap page_of (omega arith))
  ];
  keep = λ k p. rest.keep k (elim (ℕ_discrete (page_of addr) (page_of k)) [
    | yes same ↦ written k (sym same)
    | no other ↦ shows k ∙ rw (neq→== _ _ other) p
  ]);
  outside = λ k none_of.
      rest.outside k (λ i p same. none_of (i + 1) (omega arith) (same ∙ ap page_of (omega arith)))
      ∙ shows k
      ∙ rw
          (neq→== (page_of addr) (page_of k)
            (λ same. none_of 0 (omega arith) (sym same ∙ ap page_of (omega arith))))
          refl;
}
  where
    shows :
        (k : ℕ)
        → view (rtree_leaf_elm_write_commit rtree elm bits) k
          ≡ (if page_of addr == page_of k then bits else view rtree k)
    shows k =
        ap (λ (x : ℕ × ℕ). view (rtree_leaf_elm_write_commit rtree x bits) k) e
        ∙ view-write rtree rtree addr (rtree.root (root_subkey addr)) bits
            (record { there = there; root = refl; tree = tree; same = λ j. refl }) k

    written :
        (k : ℕ)
        → page_of k ≡ page_of addr
        → view (rtree_leaf_elm_write_commit rtree elm bits) k ≡ bits
    written k same = shows k ∙ rw (eq→== _ _ (sym same)) refl

-- The lookup of an address whose leaf is there.
looked_at :
    (rtree : Rtree) (ctx : RtreeCtx) (addr : ℕ)
    → IsCoherent rtree ctx
    → 0 < rtree.root (root_subkey addr)
    → ((rtree_leaf_elm_lookup 0 rtree ctx addr true false).2 ≡ some (elm_of rtree addr))
      × IsCoherent rtree (rtree_leaf_elm_lookup 0 rtree ctx addr true false).1
looked_at rtree ctx addr ok there =
    let looked = rtree_leaf_elm_lookup 0 rtree ctx addr true false in
    let (e, ok') = leaf_elm_lookup-IsWalk 0 rtree ctx addr ok true false (λ _. there) in
    let e' = e ∙ uncached_there 0 rtree addr (rtree.root (root_subkey addr)) false refl there in
    (
      ap (λ (p : Rtree × Option (ℕ × ℕ)). p.1) e',
      subst (λ r. IsCoherent r looked.1) (ap (λ (p : Rtree × Option (ℕ × ℕ)). p.0) e') ok',
    )

write_range_from-IsRangeWritten :
    (pages : ℕ) (rtree : Rtree) (ctx : RtreeCtx) (base addr : ℕ) (elm : ℕ × ℕ) (bits : ℕ)
    → IsCoherent rtree ctx
    → IsTree rtree
    → addr % page ≡ 0
    → base ≤ addr
    → ((i : ℕ) → i < pages → 0 < rtree.root (root_subkey (addr + i * page)))
    → ((addr == base || low_bits addr 30 == 0) ≡ false → elm ≡ elm_of rtree addr)
    → IsRangeWritten rtree addr pages bits (write_range_from pages rtree ctx base addr elm bits)
unfolding write_range_from rtree_leaf_elm_write_commit
write_range_from-IsRangeWritten zero rtree ctx base addr elm bits ok tree aligned from there ready =
    record {
      coherent = ok;
      root = refl;
      inside = λ k i p. absurd (omega arith);
      keep = λ k p. p;
      outside = λ k p. refl;
    }
write_range_from-IsRangeWritten (suc pages) rtree ctx base addr elm bits ok tree aligned from there
      ready =
    let here = subst (λ a. 0 < rtree.root (root_subkey a)) (omega arith) (there 0 (omega arith)) in
    let (e, ok') = looked_at rtree ctx addr ok here in
    let looked = rtree_leaf_elm_lookup 0 rtree ctx addr true false in
    let search = addr == base || low_bits addr 30 == 0 in
    let first : Option (ℕ × ℕ) → ℕ × ℕ = λ o. elim o [ none ↦ (0, 0) | some x ↦ x ] in
    let elm' : ℕ × ℕ = (if search then first looked.2 else elm) in
    let ctx' : RtreeCtx = (if search then looked.1 else ctx) in
    let chosen : elm' ≡ elm_of rtree addr =
      if_cases (λ (x : ℕ × ℕ). x ≡ elm_of rtree addr) search (λ _. ap first e) ready in
    let coherent : IsCoherent rtree ctx' =
      if_cases (IsCoherent rtree) search (λ _. ok') (λ _. ok) in
    let rtree' = rtree_leaf_elm_write_commit rtree elm' bits in
    page-IsRangeWritten rtree addr pages bits elm' _ tree here chosen (
      write_range_from-IsRangeWritten pages rtree' ctx' base (addr + page) (elm'.0, elm'.1 + 1) bits
        (record { cache = coherent.cache; l2_cache = coherent.l2_cache }) tree
        (omega (arith, aligned)) (omega arith)
        (λ i p.
          subst (λ a. 0 < rtree.root (root_subkey a)) (omega arith) (there (i + 1) (omega arith)))
        (λ inner.
          ap (λ (x : ℕ × ℕ). (x.0, x.1 + 1)) chosen
          ∙ next_elm rtree addr (ground (arith, inner)) aligned))

-- For caches that hold no wrong leaf, a tree of distinct leaves, and page-aligned bounds with a leaf for
-- each page from `base` to `end`: afterwards the tree holds the packed contents for each of these pages
-- and what it held before for every other one, though the leaf is looked up only once per leaf; and the
-- caches hold no wrong leaf.
pub rtree_write_range-IsRangeWritten :
    (rtree : Rtree) (ctx : RtreeCtx) (base end : ℕ) (contents : RtreeContents)
    → IsCoherent rtree ctx
    → IsTree rtree
    → base % page ≡ 0
    → ((i : ℕ) → i < (end + page - base) / page → 0 < rtree.root (root_subkey (base + i * page)))
    → IsRangeWritten rtree base
        ((end + page - base) / page)
        (rtree_leaf_elm_bits_encode contents)
        (rtree_write_range rtree ctx base end contents)
unfolding rtree_write_range rtree_write_range_impl
rtree_write_range-IsRangeWritten rtree ctx base end contents ok tree aligned there =
    write_range_from-IsRangeWritten ((end + page - base) / page) rtree ctx base base (0, 0)
      (rtree_leaf_elm_bits_encode contents) ok tree aligned (omega arith) there
      (λ no. absurd (ground (arith, no)))
