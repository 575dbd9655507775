-- ===== src/Rtree/Coherent.antt =====
-- The caches of leaves of include/jemalloc/internal/rtree.h against the tree itself.
use jemalloc.Base.{
  put, put_same, put_other, put_all, ℕ, zero, suc, ◌+◌, ◌-◌, ◌<◌, ◌≡◌, ◌≢◌, subst, inl, inr, refl,
  sym, ap, ◌∙◌, arith, Bool, true, false, ◌||◌, ◌==◌, ltb, leb, if◌then◌else◌, if_cases, Option,
  none, some, ==_iff, eq→==, neq→==, pos→==0, ℕ_discrete, Option-cases,
}
use jemalloc.Rtree.{
  Rtree, RtreeCtx, RtreeCtxCacheElm, rtree_leafkey, rtree_cache_direct_map, root_subkey,
  leaf_subkey, rtree_leaf_init, rtree_child_leaf_read, rtree_ctx_data_init, fill_cache,
  rtree_leaf_elm_lookup_hard, l2_search, l2_hit, rtree_leaf_elm_lookup,
}

-- A cached leaf is the one that the root holds for every key with its leaf key.
abbrev pub IsCached : (ℕ → ℕ) → RtreeCtxCacheElm → Type 0
IsCached root e =
    (key : ℕ) → rtree_leafkey key ≡ e.leafkey → (root (root_subkey key) ≡ e.leaf) × (0 < e.leaf)

pub record IsCoherent (rtree : Rtree) (ctx : RtreeCtx) : Type 0 where
  pub cache : (i : ℕ) → IsCached rtree.root (ctx.cache i)
  pub l2_cache : (i : ℕ) → IsCached rtree.root (ctx.l2_cache i)

-- The empty caches know nothing that is wrong.
pub ctx_data_init-IsCoherent : (rtree : Rtree) → IsCoherent rtree rtree_ctx_data_init
unfolding rtree_ctx_data_init rtree_leafkey
ctx_data_init-IsCoherent rtree = record {
  cache = λ i key e. absurd (omega (arith, e));
  l2_cache = λ i key e. absurd (omega (arith, e));
}

root_subkey-leafkey :
    (k k' : ℕ) → rtree_leafkey k ≡ rtree_leafkey k' → root_subkey k ≡ root_subkey k'
unfolding rtree_leafkey root_subkey
root_subkey-leafkey k k' e = omega (arith, e)

-- The tree alone: the element, after a missing leaf is made where that is asked for.
unfoldable pub uncached_lookup : ℕ → Rtree → ℕ → Bool → Rtree × Option (ℕ × ℕ)
uncached_lookup alloc rtree key init_missing =
    let (rtree', leaf) =
      (if init_missing
        then rtree_leaf_init alloc rtree (root_subkey key)
        else (rtree, rtree.root (root_subkey key))) in
    (rtree', if leaf == 0 then none else some (leaf, leaf_subkey key))

-- Where the leaf is there, nothing is made.
pub uncached_there :
    (alloc : ℕ) (rtree : Rtree) (key leaf : ℕ) (init_missing : Bool)
    → rtree.root (root_subkey key) ≡ leaf
    → 0 < leaf
    → uncached_lookup alloc rtree key init_missing ≡ (rtree, some (leaf, leaf_subkey key))
unfolding uncached_lookup rtree_leaf_init
uncached_there alloc rtree key leaf false e pos = rw e (rw (pos→==0 leaf pos) refl)
uncached_there alloc rtree key leaf true e pos =
    rw e (rw (pos→==0 leaf pos) (rw (pos→==0 leaf pos) refl))

fill-IsCoherent :
    (rtree : Rtree) (ctx : RtreeCtx) (key : ℕ)
    → IsCoherent rtree ctx
    → 0 < rtree.root (root_subkey key)
    → IsCoherent rtree (fill_cache ctx key (rtree.root (root_subkey key)))
unfolding fill_cache
fill-IsCoherent rtree ctx key ok there = record {
  cache =
      put_all (IsCached rtree.root) ctx.cache (rtree_cache_direct_map key) _ ok.cache
        (λ k e. (ap rtree.root (root_subkey-leafkey k key e), there));
  l2_cache =
      put_all (IsCached rtree.root) _ 0 _
        (λ i.
          if_cases (IsCached rtree.root) (i == 0 || leb 8 i) (λ _. ok.l2_cache i)
            (λ _. ok.l2_cache (i - 1)))
        (ok.cache (rtree_cache_direct_map key));
}

hit-IsCoherent :
    (rtree : Rtree) (ctx : RtreeCtx) (key i : ℕ)
    → IsCoherent rtree ctx
    → (ctx.l2_cache i).leafkey ≡ rtree_leafkey key
    → IsCoherent rtree (l2_hit ctx key i)
unfolding l2_hit
hit-IsCoherent rtree ctx key i ok found = record {
  cache =
      put_all (IsCached rtree.root) ctx.cache (rtree_cache_direct_map key) _ ok.cache
        (λ k e. ok.l2_cache i k (e ∙ sym found));
  l2_cache =
      if_cases (λ (f : ℕ → RtreeCtxCacheElm). (j : ℕ) → IsCached rtree.root (f j)) (ltb 0 i)
        (λ _.
          put_all (IsCached rtree.root) _ (i - 1) _
            (put_all (IsCached rtree.root) ctx.l2_cache i _ ok.l2_cache (ok.l2_cache (i - 1)))
            (ok.cache (rtree_cache_direct_map key)))
        (λ _.
          put_all (IsCached rtree.root) ctx.l2_cache 0 _ ok.l2_cache
            (ok.cache (rtree_cache_direct_map key)));
}

l2_search_found :
    (ctx : RtreeCtx) (leafkey rounds i j : ℕ)
    → l2_search ctx leafkey rounds i ≡ some j
    → (ctx.l2_cache j).leafkey ≡ leafkey
unfolding l2_search
l2_search_found ctx leafkey zero i j = λ e. ground (arith, e)
l2_search_found ctx leafkey (suc rounds) i j =
    if_cases (λ (o : Option ℕ). o ≡ some j → (ctx.l2_cache j).leafkey ≡ leafkey)
      ((ctx.l2_cache i).leafkey == leafkey) (λ p q. ground (arith, p, q))
      (λ p q. l2_search_found ctx leafkey rounds (i + 1) j q)

-- A leaf that is made does not change what is cached.
init-IsCoherent :
    (rtree : Rtree) (ctx : RtreeCtx) (subkey alloc : ℕ)
    → IsCoherent rtree ctx
    → rtree.root subkey ≡ 0
    → IsCoherent (record rtree { root = put rtree.root subkey alloc }) ctx
init-IsCoherent rtree ctx subkey alloc ok missing = record {
  cache = λ i. still (ctx.cache i) (ok.cache i);
  l2_cache = λ i. still (ctx.l2_cache i) (ok.l2_cache i);
}
  where
    still :
        (e : RtreeCtxCacheElm) → IsCached rtree.root e → IsCached (put rtree.root subkey alloc) e
    still e cached key same =
        let (holds, there) = cached key same in
        let apart : subkey ≢ root_subkey key =
          λ p. omega (arith, ap rtree.root p, missing, holds, there) in
        (put_other rtree.root subkey alloc (root_subkey key) apart ∙ holds, there)

-- A lookup that agrees with the tree alone, and keeps the caches coherent.
abbrev pub IsWalk : ℕ → Rtree → ℕ → Bool → Rtree × RtreeCtx × Option (ℕ × ℕ) → Type 0
IsWalk alloc rtree key init_missing (rtree', ctx', elm) =
    ((rtree', elm) ≡ uncached_lookup alloc rtree key init_missing) × IsCoherent rtree' ctx'

module _ (alloc : ℕ) (rtree : Rtree) (ctx : RtreeCtx) (key : ℕ) (ok : IsCoherent rtree ctx) where
  hard_eq :
      (dependent init_missing : Bool)
      → 0 < rtree.root (root_subkey key)
      → rtree_leaf_elm_lookup_hard alloc rtree ctx key dependent init_missing ≡ (
        rtree,
        fill_cache ctx key (rtree.root (root_subkey key)),
        some (rtree.root (root_subkey key), leaf_subkey key),
      )
  unfolding rtree_leaf_elm_lookup_hard rtree_child_leaf_read
  hard_eq true true there = refl
  hard_eq true false there = refl
  hard_eq false true there =
      let nonzero = pos→==0 (rtree.root (root_subkey key)) there in rw nonzero (rw nonzero refl)
  hard_eq false false there =
      let nonzero = pos→==0 (rtree.root (root_subkey key)) there in rw nonzero refl

  hard_there :
      (dependent init_missing : Bool)
      → 0 < rtree.root (root_subkey key)
      → IsWalk alloc rtree key init_missing
          (rtree_leaf_elm_lookup_hard alloc rtree ctx key dependent init_missing)
  hard_there dependent init_missing there =
      subst (IsWalk alloc rtree key init_missing) (sym (hard_eq dependent init_missing there)) (
        sym (uncached_there alloc rtree key (rtree.root (root_subkey key)) init_missing refl there),
        fill-IsCoherent rtree ctx key ok there,
      )

  hard_missing :
      (init_missing : Bool)
      → rtree.root (root_subkey key) ≡ 0
      → IsWalk alloc rtree key init_missing
          (rtree_leaf_elm_lookup_hard alloc rtree ctx key false init_missing)
  unfolding rtree_leaf_elm_lookup_hard rtree_child_leaf_read uncached_lookup rtree_leaf_init
  hard_missing false missing = rw (eq→== _ _ missing) (refl, ok)
  hard_missing true missing = elim (ℕ_discrete alloc 0) [
    | yes failed ↦ rw (eq→== _ _ missing) (rw (eq→== _ _ failed) (refl, ok))
    | no made ↦ rw (eq→== _ _ missing) (
        rw (neq→== _ _ made) (
          rw (neq→== _ _ made) (
            refl,
            let there = put_same rtree.root (root_subkey key) alloc (root_subkey key) refl in
                subst
                  (λ leaf.
                    IsCoherent (record rtree { root = put rtree.root (root_subkey key) alloc })
                      (fill_cache ctx key leaf))
                  there
                  (fill-IsCoherent (record rtree { root = put rtree.root (root_subkey key) alloc })
                    ctx key (init-IsCoherent rtree ctx (root_subkey key) alloc ok missing)
                    (omega (arith, there, made))),
          )))
  ]

  hard-IsWalk :
      (dependent init_missing : Bool)
      → (dependent ≡ true → 0 < rtree.root (root_subkey key))
      → IsWalk alloc rtree key init_missing
          (rtree_leaf_elm_lookup_hard alloc rtree ctx key dependent init_missing)
  hard-IsWalk true init_missing there = hard_there true init_missing (there refl)
  hard-IsWalk false init_missing there = elim (ℕ_discrete (rtree.root (root_subkey key)) 0) [
    | yes missing ↦ hard_missing init_missing missing
    | no present ↦ hard_there false init_missing (omega arith)
  ]

  cached-IsWalk :
      (ctx' : RtreeCtx) (e : RtreeCtxCacheElm) (init_missing : Bool)
      → IsCached rtree.root e
      → e.leafkey ≡ rtree_leafkey key
      → IsCoherent rtree ctx'
      → IsWalk alloc rtree key init_missing (rtree, ctx', some (e.leaf, leaf_subkey key))
  cached-IsWalk ctx' e init_missing cached found ok' =
      let (holds, there) = cached key (sym found) in
      (sym (uncached_there alloc rtree key e.leaf init_missing holds there), ok')

  -- For caches that hold no wrong leaf, and a key whose leaf is there where the caller depends on it: a
  -- lookup finds the element, and leaves the tree, that a walk of the tree alone would, whether it hits
  -- the first cache, the second or none; and the caches hold no wrong leaf afterwards.
  pub leaf_elm_lookup-IsWalk :
      (dependent init_missing : Bool)
      → (dependent ≡ true → 0 < rtree.root (root_subkey key))
      → IsWalk alloc rtree key init_missing
          (rtree_leaf_elm_lookup alloc rtree ctx key dependent init_missing)
  unfolding rtree_leaf_elm_lookup
  leaf_elm_lookup-IsWalk dependent init_missing there =
      let slot = rtree_cache_direct_map key in
      if_cases (IsWalk alloc rtree key init_missing) ((ctx.cache slot).leafkey == rtree_leafkey key)
        (λ hit.
          cached-IsWalk ctx (ctx.cache slot) init_missing (ok.cache slot) ((==_iff _ _).0 hit) ok)
        (λ miss. elim (Option-cases (l2_search ctx (rtree_leafkey key) 8 0)) [
          | inl e ↦ rw e (hard-IsWalk dependent init_missing there)
          | inr (i, e) ↦
              let found = l2_search_found ctx (rtree_leafkey key) 8 0 i e in
              rw e (
                cached-IsWalk (l2_hit ctx key i) (ctx.l2_cache i) init_missing (ok.l2_cache i) found
                  (hit-IsCoherent rtree ctx key i ok found))
        ])
