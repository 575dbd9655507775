-- ===== src/Ph/Insert.antt =====
-- Insertion into a pairing heap, with the merges that it makes in the list of nodes not merged yet, in
-- include/jemalloc/internal/ph.h.
use jemalloc.Base.{ℕ, zero, suc, ◌+◌, ◌<◌, ◌≡◌, refl, ap₂, ◌∙◌, arith, Bool, true, if_cases, u64}
use jemalloc.Ph.{
  Ph, Phn, null, node, ffs_zu, phn_merge, ph_insert, ph_try_aux_merge_pair, try_merges,
}
use jemalloc.Ph.Order.{one, tally, IsOrder, Ordered, AtLeast-below, merge-IsBoth, single}
use jemalloc.Ph.Heap.{IsHeap, least_of, root_least, set_next_lem, siblings-IsHeap, single-IsHeap}
use jemalloc.Ph.Remove.{heap_of}

module _ {ℓ} {A : Type ℓ} (before : A → A → Bool) (order : IsOrder before) where
  abbrev IsKept : Phn A → Phn A → Type ℓ
  IsKept root root' = IsHeap before root' × ((p : A → Bool) → tally p root' ≡ tally p root)

  try_pair-IsKept :
      (root : Phn A) → IsHeap before root → IsKept root (ph_try_aux_merge_pair before root).0
  unfolding ph_try_aux_merge_pair tally Ordered
  try_pair-IsKept null h = (h, λ p. refl)
  try_pair-IsKept (node a l null) h = (h, λ p. refl)
  try_pair-IsKept (node a l (node b l' null)) h = (h, λ p. refl)
  try_pair-IsKept (node a l (node b l' (node c l'' next))) h =
      let siblings = h.ordered.2 in
      let pair =
        merge-IsBoth before order (node b l' null) (node c l'' null)
          (single before order b l' (node c l'' next) siblings)
          (single before order c l'' next siblings.2) in
      let there : 0 < tally (λ x. true) (phn_merge before (node b l' null) (node c l'' null)) =
        omega (arith, pair.1 (λ x. true)) in
      let linked =
        set_next_lem before order (phn_merge before (node b l' null) (node c l'' null)) next pair.0
          siblings.2.2 there in
      let same = λ (p : A → Bool). linked.1 p ∙ ap₂ (◌+◌) (pair.1 p) refl in
      (
        siblings-IsHeap before order a l (node b l' (node c l'' next)) _ h linked.0
            (λ p. omega (arith, same p)),
        λ p. omega (arith, same p),
      )

  try_merges-IsKept :
      (nmerges : ℕ) (root : Phn A)
      → IsHeap before root
      → IsKept root (try_merges before nmerges root)
  unfolding try_merges
  try_merges-IsKept zero root h = (h, λ p. refl)
  try_merges-IsKept (suc nmerges) root h =
      let once = try_pair-IsKept root h in
      let rest = try_merges-IsKept nmerges (ph_try_aux_merge_pair before root).0 once.0 in
      if_cases (IsKept root) (ph_try_aux_merge_pair before root).1 (λ yes. once)
        (λ no. (rest.0, λ p. rest.1 p ∙ once.1 p))

  abbrev pub IsWith : Phn A → A → Ph A → Type ℓ
  IsWith root x ph' =
      IsHeap before ph'.root × ((p : A → Bool) → tally p ph'.root ≡ one p x + tally p root)

  inserted :
      (root : Phn A) (c : ℕ) (x : A)
      → IsHeap before root
      → IsWith root x (ph_insert before (heap_of root c) x)
  unfolding ph_insert tally Ordered
  inserted null c x h = (
    single-IsHeap before order (node x null null) (single before order x null null (refl, _, _)),
    λ p. omega arith,
  )
  inserted (node a l n) c x h =
      if_cases (IsWith (node a l n) x) (before x a)
        (λ yes.
          let below =
            AtLeast-below before order x a (node a l n) (order.asym x a yes)
              (root_least before order a l n h) in
          (
            single-IsHeap before order (node x (node a l n) null)
                (single before order x (node a l n) null (below, h.ordered, _)),
            λ p. omega arith,
          ))
        (λ no.
          let listed : IsHeap before (node a l (node x null n)) =
            least_of before order a l (node x null n)
              (h.ordered.0, h.ordered.1, (refl, _, h.ordered.2))
              (rw no (omega (arith, root_least before order a l n h))) in
          let merged = try_merges-IsKept (ffs_zu (u64 (c + 1))) (node a l (node x null n)) listed in
          (merged.0, λ p. omega (arith, merged.1 p)))

  -- With asymmetric `cmp`, transitive in not being before: after an insertion, on each branch and with
  -- the merges it makes, the heap is a heap of the new element and what it held, each as often as before.
  pub insert-IsWith :
      (ph : Ph A) (x : A) → IsHeap before ph.root → IsWith ph.root x (ph_insert before ph x)
  insert-IsWith ph x h = inserted ph.root ph.auxcount x h
