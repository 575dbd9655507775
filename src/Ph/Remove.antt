-- ===== src/Ph/Remove.antt =====
-- Removal keeps a pairing heap, in include/jemalloc/internal/ph.h.
use jemalloc.Base.{
  ℕ, ◌+◌, ◌≡◌, ◌⊎◌, refl, sym, ap, subst, ◌∙◌, arith, Bool, true, false, Option, none, some, List,
  [], ◌∷◌, inl, inr,
}
use jemalloc.Ph.{
  Ph, Phn, null, node, elem, phn_next_get, merge_aux, ph_merge_aux, ph_merge_children, ph_empty,
  ph_remove, ph_remove_first, remove_at, replaced, integrate,
}
use jemalloc.Ph.Order.{one, tally, IsOrder, AtLeast, Ordered, IsSingle}
use jemalloc.Ph.Heap.{
  IsHeap, elem_at, some_inj, least_of, root_least, IsMerged, merge_aux-IsMerged, children_lem,
  single-IsHeap,
}

-- `ph'` is a heap of what `ph` holds but for `a`.
pub record IsWithout {ℓ} {A : Type ℓ} (before : A → A → Bool) (ph ph' : Ph A) (a : A) : Type ℓ where
  pub heap : IsHeap before ph'.root
  pub others : (p : A → Bool) → one p a + tally p ph'.root ≡ tally p ph.root

abbrev pub heap_of {ℓ} : {A : Type ℓ} → Phn A → ℕ → Ph A
heap_of root auxcount = record { root = root; auxcount = auxcount }

module _ {ℓ} {A : Type ℓ} (before : A → A → Bool) (order : IsOrder before) where
  children-IsWithout :
      (root : Phn A) (a : A) (l : Phn A) (c auxcount : ℕ)
      → IsHeap before (node a l null)
      → ((p : A → Bool) → tally p (node a l null) ≡ tally p root)
      → IsWithout before
          (heap_of root c)
          (heap_of (ph_merge_children before (node a l null)) auxcount)
          a
  unfolding tally Ordered
  children-IsWithout root a l c auxcount h same =
      let merged = children_lem before order a l null h.ordered.1 in
      record {
        heap = single-IsHeap before order (ph_merge_children before (node a l null)) merged.0;
        others = λ p. omega (arith, merged.1 p, same p);
      }

  -- What is left when the root goes, with its siblings merged under it first.
  merged-IsWithout :
      (root merged : Phn A) (m : IsMerged before order root merged) (c auxcount : ℕ)
      → IsWithout before (heap_of root c) (heap_of (ph_merge_children before merged) auxcount) m.key
  merged-IsWithout root merged m c auxcount =
      let (heap, same) =
        subst (λ t. IsHeap before t × ((p : A → Bool) → tally p t ≡ tally p root)) m.shape
          (m.heap, m.same) in
      subst
        (λ t.
          IsWithout before (heap_of root c) (heap_of (ph_merge_children before t) auxcount) m.key)
        (sym m.shape) (children-IsWithout root m.key m.lchild c auxcount heap same)

  abbrev pub IsTaken : Ph A → Ph A → Option A → Type ℓ
  IsTaken ph ph' r =
      ((ph.root ≡ null) × (ph' ≡ ph) × (r ≡ none))
      ⊎ ((a : A) × (r ≡ some a) × AtLeast before a ph.root × IsWithout before ph ph' a)

  removed_root :
      (root : Phn A) (c : ℕ)
      → IsHeap before root
      → IsTaken
          (heap_of root c)
          (ph_remove_first before (heap_of root c)).0
          (ph_remove_first before (heap_of root c)).1
  unfolding ph_remove_first ph_empty ph_merge_aux elem
  removed_root null c h = inl (refl, refl, refl)
  removed_root (node a l n) c h =
      let m = merge_aux-IsMerged before order a l n h in
      inr (
        m.key,
        ap (elem before) m.shape,
        h.least m.key m.same_key,
        merged-IsWithout (node a l n) (merge_aux before (node a l n)) m c 0,
      )

  -- With asymmetric `cmp`, transitive in not being before: from a heap that is empty `ph_remove_first`
  -- takes nothing; from another it takes an element that nothing in the heap was before, and leaves a
  -- heap of the other elements, each as often as before.
  pub remove_first-IsTaken :
      (ph : Ph A)
      → IsHeap before ph.root
      → IsTaken ph (ph_remove_first before ph).0 (ph_remove_first before ph).1
  remove_first-IsTaken ph h = removed_root ph.root ph.auxcount h

  integrate_lem :
      (s next : Phn A)
      → IsSingle before s
      → Ordered before next
      → Ordered before (integrate before s next)
        × ((p : A → Bool) → tally p (integrate before s next) ≡ tally p s + tally p next)
  unfolding integrate Ordered tally phn_next_get
  integrate_lem null next hs h = (h, λ p. omega arith)
  integrate_lem (node b l n) next hs h =
      ((hs.ordered.0, hs.ordered.1, h), λ p. omega (arith, ap (tally p) hs.alone))

  removed_at :
      (path : List Bool) (phn : Phn A) (a : A)
      → Ordered before phn
      → elem_at path phn ≡ some a
      → Ordered before (remove_at before path phn)
        × ((p : A → Bool) → one p a + tally p (remove_at before path phn) ≡ tally p phn)
  unfolding remove_at elem_at Ordered tally replaced
  removed_at path null a h e = absurd (cc e)
  removed_at [] (node b l n) a h e =
      let merged = children_lem before order b l n h.1 in
      let both = integrate_lem (ph_merge_children before (node b l n)) n merged.0 h.2 in
      let same = λ (p : A → Bool). ap (one p) (some_inj b a e) in
      (both.0, λ p. omega (arith, both.1 p, merged.1 p, same p))
  removed_at (true ∷ path) (node b l n) a h e =
      let (ordered, others) = removed_at path l a h.1 e in
      ((omega (arith, others (λ c. before c b), h.0), ordered, h.2), λ p. omega (arith, others p))
  removed_at (false ∷ path) (node b l n) a h e =
      let (ordered, others) = removed_at path n a h.2 e in
      ((h.0, h.1, ordered), λ p. omega (arith, others p))

  -- A node that is not the root.
  inner_removed :
      (step : Bool) (path : List Bool) (b : A) (l n : Phn A) (a : A)
      → IsHeap before (node b l n)
      → elem_at (step ∷ path) (node b l n) ≡ some a
      → IsHeap before (remove_at before (step ∷ path) (node b l n))
  unfolding remove_at elem_at tally Ordered
  inner_removed true path b l n a h e =
      let (ordered, others) = removed_at path l a h.ordered.1 e in
      least_of before order b (remove_at before path l) n
        (omega (arith, others (λ c. before c b), h.ordered.0), ordered, h.ordered.2)
        (omega (arith, others (λ c. before c b), root_least before order b l n h))
  inner_removed false path b l n a h e =
      let (ordered, others) = removed_at path n a h.ordered.2 e in
      least_of before order b l (remove_at before path n) (h.ordered.0, h.ordered.1, ordered)
        (omega (arith, others (λ c. before c b), root_least before order b l n h))

  removed :
      (path : List Bool) (root : Phn A) (c : ℕ) (a : A)
      → IsHeap before root
      → elem_at path root ≡ some a
      → IsWithout before (heap_of root c) (ph_remove before (heap_of root c) path) a
  unfolding ph_remove elem_at elem
  removed path null c a h e = absurd (cc e)
  removed [] (node b l n) c a h e =
      let m = merge_aux-IsMerged before order b l n h in
      subst
        (IsWithout before (heap_of (node b l n) c) (ph_remove before (heap_of (node b l n) c) []))
        (some_inj m.key b (sym m.same_key) ∙ some_inj b a e)
        (merged-IsWithout (node b l n) (merge_aux before (node b l n)) m c 0)
  removed (step ∷ path) (node b l n) c a h e = record {
    heap = inner_removed step path b l n a h e;
    others = (removed_at (step ∷ path) (node b l n) a h.ordered e).1;
  }

  -- With asymmetric `cmp`, transitive in not being before: removing the node at any path of the heap
  -- leaves a heap of the other elements, each as often as before.
  pub remove-IsWithout :
      (ph : Ph A) (path : List Bool) (a : A)
      → IsHeap before ph.root
      → elem_at path ph.root ≡ some a
      → IsWithout before ph (ph_remove before ph path) a
  remove-IsWithout ph path a h e = removed path ph.root ph.auxcount a h e
