-- ===== src/Rtree/View.antt =====
-- What a radix tree of include/jemalloc/internal/rtree.h holds for a key, and what walks and writes of it
-- change.
use jemalloc.Base.{
  put, put_same, put_other, ℕ, ◌/◌, ◌%◌, ◌^◌, ◌<◌, ◌≡◌, ◌≢◌, ◌⊎◌, inl, inr, refl, sym, ap, ◌∙◌,
  arith, true, ◌==◌, if◌then◌else◌, none, some, eq→==, neq→==, pos→==0, ℕ_discrete,
}
use jemalloc.Rtree.{Rtree, root_subkey, leaf_subkey, rtree_leaf_init, rtree_leaf_elm_write_commit}
use jemalloc.Rtree.Coherent.{uncached_lookup, uncached_there}

-- The bits that the tree holds for a key, 0 where there is no leaf.
unfoldable pub view : Rtree → ℕ → ℕ
view rtree key =
    if rtree.root (root_subkey key) == 0
    then 0
    else rtree.elms (rtree.root (root_subkey key)) (leaf_subkey key)

-- The 36 bits of a page number that the tree tells apart.
unfoldable pub page_of : ℕ → ℕ
page_of key = key / 2 ^ 12 % 2 ^ 36

-- Each leaf hangs in one place.
abbrev pub IsTree : Rtree → Type 0
IsTree rtree = (i j : ℕ) → rtree.root i ≡ rtree.root j → 0 < rtree.root i → i ≡ j

-- The memory of a leaf that `base_alloc_rtree` gave is zero, and no leaf of the tree.
pub record IsNew (alloc : ℕ) (rtree : Rtree) : Type 0 where
  pub apart : (i : ℕ) → rtree.root i ≢ alloc
  pub zeroed : (j : ℕ) → rtree.elms alloc j ≡ 0

pub same_subkeys :
    (k k' : ℕ)
    → page_of k ≡ page_of k'
    → (root_subkey k ≡ root_subkey k') × (leaf_subkey k ≡ leaf_subkey k')
unfolding page_of root_subkey leaf_subkey
same_subkeys k k' e = (omega (arith, e), omega (arith, e))

same_page :
    (k k' : ℕ)
    → root_subkey k ≡ root_subkey k'
    → leaf_subkey k ≡ leaf_subkey k'
    → page_of k ≡ page_of k'
unfolding page_of root_subkey leaf_subkey
same_page k k' p q = omega (arith, p, q)

pub view_there :
    (rtree : Rtree) (key : ℕ)
    → 0 < rtree.root (root_subkey key)
    → view rtree key ≡ rtree.elms (rtree.root (root_subkey key)) (leaf_subkey key)
unfolding view
view_there rtree key there = rw (pos→==0 _ there) refl

view_missing : (rtree : Rtree) (key : ℕ) → rtree.root (root_subkey key) ≡ 0 → view rtree key ≡ 0
unfolding view
view_missing rtree key missing = rw (eq→== _ _ missing) refl

-- What a walk that makes a missing leaf leaves, if it does not fail.
pub record IsReached (rtree : Rtree) (key : ℕ) (rtree' : Rtree) (leaf : ℕ) : Type 0 where
  pub there : 0 < leaf
  pub root : rtree'.root (root_subkey key) ≡ leaf
  pub tree : IsTree rtree'
  pub same : (k : ℕ) → view rtree' k ≡ view rtree k

with_leaf : Rtree → ℕ → ℕ → Rtree
with_leaf rtree subkey alloc = record rtree { root = put rtree.root subkey alloc }

new_leaf-IsReached :
    (alloc : ℕ) (rtree : Rtree) (key : ℕ)
    → IsTree rtree
    → IsNew alloc rtree
    → 0 < alloc
    → rtree.root (root_subkey key) ≡ 0
    → IsReached rtree key (with_leaf rtree (root_subkey key) alloc) alloc
unfolding with_leaf view
new_leaf-IsReached alloc rtree key tree new some_alloc missing = record {
  there = some_alloc;
  root = put_same rtree.root s alloc s refl;
  tree = once;
  same = λ k. elim (ℕ_discrete s (root_subkey k)) [
    | yes e ↦
        let here = put_same rtree.root s alloc (root_subkey k) e in
        view_there (with_leaf rtree s alloc) k (omega (arith, here))
        ∙ ap (λ leaf. rtree.elms leaf (leaf_subkey k)) here
        ∙ new.zeroed (leaf_subkey k)
        ∙ sym (view_missing rtree k (ap rtree.root (sym e) ∙ missing))
    | no n ↦
        ap (λ leaf. if leaf == 0 then 0 else rtree.elms leaf (leaf_subkey k))
          (put_other rtree.root s alloc (root_subkey k) n)
  ];
}
  where
    s : ℕ
    s = root_subkey key

    once : IsTree (with_leaf rtree s alloc)
    once i j e there = elim (ℕ_discrete s i) [
      | yes p ↦ elim (ℕ_discrete s j) [
        | yes q ↦ sym p ∙ q
        | no q ↦ absurd (
            new.apart j
              (sym (put_other rtree.root s alloc j q) ∙ sym e ∙ put_same rtree.root s alloc i p))
      ]
      | no p ↦ elim (ℕ_discrete s j) [
        | yes q ↦ absurd (
            new.apart i
              (sym (put_other rtree.root s alloc i p) ∙ e ∙ put_same rtree.root s alloc j q))
        | no q ↦
            tree i j (sym (put_other rtree.root s alloc i p) ∙ e ∙ put_other rtree.root s alloc j q)
              (omega (arith, put_other rtree.root s alloc i p, there))
      ]
    ]

uncached_failed :
    (alloc : ℕ) (rtree : Rtree) (key : ℕ)
    → rtree.root (root_subkey key) ≡ 0
    → alloc ≡ 0
    → uncached_lookup alloc rtree key true ≡ (rtree, none)
unfolding uncached_lookup rtree_leaf_init
uncached_failed alloc rtree key missing failed = rw (eq→== _ _ missing) (rw (eq→== _ _ failed) refl)

uncached_made :
    (alloc : ℕ) (rtree : Rtree) (key : ℕ)
    → rtree.root (root_subkey key) ≡ 0
    → alloc ≢ 0
    → uncached_lookup alloc rtree key true
      ≡ (with_leaf rtree (root_subkey key) alloc, some (alloc, leaf_subkey key))
unfolding uncached_lookup rtree_leaf_init with_leaf
uncached_made alloc rtree key missing made =
    rw (eq→== _ _ missing) (rw (neq→== _ _ made) (rw (neq→== _ _ made) refl))

-- There is no leaf for the key, and no memory for one.
abbrev pub IsShort : ℕ → Rtree → ℕ → Type 0
IsShort alloc rtree key = (rtree.root (root_subkey key) ≡ 0) × (alloc ≡ 0)

-- A walk for a write fails and changes nothing where leaf and memory are missing, and finds the leaf
-- elsewhere.
pub uncached_found :
    (alloc : ℕ) (rtree : Rtree) (key : ℕ)
    → IsTree rtree
    → (rtree.root (root_subkey key) ≡ 0 → 0 < alloc → IsNew alloc rtree)
    → (IsShort alloc rtree key × (uncached_lookup alloc rtree key true ≡ (rtree, none)))
      ⊎ ((rtree' : Rtree) × (leaf : ℕ) × (rtree.root (root_subkey key) ≡ 0 → 0 < alloc)
          × (uncached_lookup alloc rtree key true ≡ (rtree', some (leaf, leaf_subkey key)))
          × IsReached rtree key rtree' leaf)
uncached_found alloc rtree key tree new = elim (ℕ_discrete (rtree.root (root_subkey key)) 0) [
  | no there ↦ inr (
    rtree,
    rtree.root (root_subkey key),
    (λ missing. absurd (there missing)),
    uncached_there alloc rtree key (rtree.root (root_subkey key)) true refl (omega arith),
    record { there = omega arith; root = refl; tree = tree; same = λ k. refl },
  )
  | yes missing ↦ elim (ℕ_discrete alloc 0) [
    | yes failed ↦ inl ((missing, failed), uncached_failed alloc rtree key missing failed)
    | no made ↦ inr (
      with_leaf rtree (root_subkey key) alloc,
      alloc,
      (λ _. omega arith),
      uncached_made alloc rtree key missing made,
      new_leaf-IsReached alloc rtree key tree (new missing (omega arith)) (omega arith) missing,
    )
  ]
]

-- A write to an element that was found shows at its page only.
pub view-write :
    (rtree rtree' : Rtree) (key leaf bits : ℕ)
    → IsReached rtree key rtree' leaf
    → (k : ℕ)
    → view (rtree_leaf_elm_write_commit rtree' (leaf, leaf_subkey key) bits) k
      ≡ (if page_of key == page_of k then bits else view rtree k)
unfolding rtree_leaf_elm_write_commit view
view-write rtree rtree' key leaf bits found k = elim (ℕ_discrete (page_of key) (page_of k)) [
  | yes e ↦
      let (p, q) = same_subkeys key k e in
      rw (eq→== _ _ e) (
        view_there written k (omega (arith, at_leaf p, found.there))
        ∙ ap (λ l. cells l (leaf_subkey k)) (at_leaf p)
        ∙ ap (λ (f : ℕ → ℕ). f (leaf_subkey k)) (put_same rtree'.elms leaf row leaf refl)
        ∙ put_same (rtree'.elms leaf) (leaf_subkey key) bits (leaf_subkey k) q)
  | no n ↦ rw (neq→== _ _ n) (kept n ∙ found.same k)
]
  where
    row : ℕ → ℕ
    row = put (rtree'.elms leaf) (leaf_subkey key) bits

    cells : ℕ → ℕ → ℕ
    cells = put rtree'.elms leaf row

    written : Rtree
    written = record rtree' { elms = cells }

    at_leaf : root_subkey key ≡ root_subkey k → rtree'.root (root_subkey k) ≡ leaf
    at_leaf p = ap rtree'.root (sym p) ∙ found.root

    kept : page_of key ≢ page_of k → view written k ≡ view rtree' k
    kept n = elim (ℕ_discrete leaf (rtree'.root (root_subkey k))) [
      | no other ↦
          ap (λ (f : ℕ → ℕ). if rtree'.root (root_subkey k) == 0 then 0 else f (leaf_subkey k))
            (put_other rtree'.elms leaf row (rtree'.root (root_subkey k)) other)
      | yes here ↦
          let p =
            found.tree (root_subkey key) (root_subkey k) (found.root ∙ here)
              (omega (arith, found.root, found.there)) in
          let q : leaf_subkey key ≢ leaf_subkey k = λ same. n (same_page key k p same) in
          ap (λ (x : ℕ). if rtree'.root (root_subkey k) == 0 then 0 else x)
            (ap (λ l. cells l (leaf_subkey k)) (sym here)
              ∙ ap (λ (f : ℕ → ℕ). f (leaf_subkey k)) (put_same rtree'.elms leaf row leaf refl)
              ∙ put_other (rtree'.elms leaf) (leaf_subkey key) bits (leaf_subkey k) q
              ∙ ap (λ l. rtree'.elms l (leaf_subkey k)) here)
    ]
