-- ===== src/Ph/Heap.antt =====
-- The operations of a pairing heap keep its order and lose no element, in include/jemalloc/internal/ph.h.
use jemalloc.Base.{
  ◌+◌, ◌≤◌, ◌<◌, ◌≡◌, refl, ap, subst, arith, Bool, true, false, Bool-cases, Option, none, some,
  List, [], ◌∷◌, inl, inr,
}
use jemalloc.Ph.{
  Phn, null, node, elem, phn_next_get, phn_next_set, phn_merge_ordered, phn_merge_siblings,
  merge_aux, ph_merge_children,
}
use jemalloc.Ph.Order.{tally, IsOrder, AtLeast, Ordered, IsSingle, merge_siblings_lem}

-- Nothing is before the root.
pub record IsHeap {ℓ} {A : Type ℓ} (before : A → A → Bool) (root : Phn A) : Type ℓ where
  pub ordered : Ordered before root
  pub least : (a : A) → elem before root ≡ some a → AtLeast before a root

-- The element at a path of steps to `lchild` (true) or `next` (false).
unfoldable pub elem_at {ℓ} : {A : Type ℓ} → List Bool → Phn A → Option A
elem_at path null = none
elem_at [] (node a lchild next) = some a
elem_at (true ∷ path) (node a lchild next) = elem_at path lchild
elem_at (false ∷ path) (node a lchild next) = elem_at path next

pub some_inj {ℓ} : {A : Type ℓ} (a b : A) → some a ≡ some b → a ≡ b
some_inj a b e = ap (λ (o : Option _). elim o [ none ↦ a | some c ↦ c ]) e

module _ {ℓ} {A : Type ℓ} (before : A → A → Bool) (order : IsOrder before) where
  -- What keeps the elements of a root keeps it least.
  pub least_of :
      (a : A) (l n : Phn A)
      → Ordered before (node a l n)
      → AtLeast before a (node a l n)
      → IsHeap before (node a l n)
  unfolding elem
  least_of a l n h least = record {
    ordered = h;
    least = λ b e. subst (λ x. AtLeast before x (node a l n)) (some_inj a b e) least;
  }

  pub root_least :
      (a : A) (l n : Phn A) → IsHeap before (node a l n) → AtLeast before a (node a l n)
  unfolding elem
  root_least a l n h = h.least a refl

  -- The tree `root` with its list of siblings merged under its root.
  pub record IsMerged (root merged : Phn A) : Type ℓ where
    pub lchild : Phn A
    pub key : A
    pub shape : merged ≡ node key lchild null
    pub same_key : elem before root ≡ some key
    pub heap : IsHeap before merged
    pub same : (p : A → Bool) → tally p merged ≡ tally p root

  under-IsMerged :
      (a : A) (l n s : Phn A)
      → IsHeap before (node a l n)
      → IsSingle before s
      → ((p : A → Bool) → tally p s ≡ tally p n)
      → 0 < tally (λ b. true) n
      → IsMerged (node a l n) (phn_merge_ordered before (node a l null) s)
  unfolding tally phn_merge_ordered phn_next_set phn_next_get Ordered elem
  under-IsMerged a l n null h hs same some_sibling =
      absurd (omega (arith, same (λ b. true), some_sibling))
  under-IsMerged a l n (node c m k) h hs same some_sibling =
      let alone = λ (p : A → Bool). ap (tally p) hs.alone in
      let least = h.least a refl in
      let heaped : AtLeast before a (node a (node c m l) null) =
        omega (arith, least, same (λ b. before b a), alone (λ b. before b a)) in
      let under : AtLeast before a (node c m l) = omega (arith, heaped) in
      record {
        lchild = node c m l;
        key = a;
        shape = refl;
        same_key = refl;
        heap =
            least_of a (node c m l) null (under, (hs.ordered.0, hs.ordered.1, h.ordered.1), _)
              heaped;
        same = λ p. omega (arith, same p, alone p);
      }

  pub merge_aux-IsMerged :
      (a : A) (l n : Phn A)
      → IsHeap before (node a l n)
      → IsMerged (node a l n) (merge_aux before (node a l n))
  unfolding merge_aux elem tally Ordered
  merge_aux-IsMerged a l null h = record {
    lchild = l;
    key = a;
    shape = refl;
    same_key = refl;
    heap = h;
    same = λ p. refl;
  }
  merge_aux-IsMerged a l (node b l' n) h =
      let merged = merge_siblings_lem before order (node b l' n) h.ordered.2 in
      under-IsMerged a l (node b l' n) (phn_merge_siblings before (node b l' n)) h merged.0 merged.1
        (omega arith)

  pub children_lem :
      (a : A) (l n : Phn A)
      → Ordered before l
      → IsSingle before (ph_merge_children before (node a l n))
        × ((p : A → Bool) → tally p (ph_merge_children before (node a l n)) ≡ tally p l)
  unfolding ph_merge_children tally Ordered phn_next_get
  children_lem a null n h = (record { alone = refl; ordered = _ }, λ p. refl)
  children_lem a (node b l' n') n h = merge_siblings_lem before order (node b l' n') h

  pub single-IsHeap : (s : Phn A) → IsSingle before s → IsHeap before s
  unfolding tally Ordered phn_next_get elem
  single-IsHeap null hs = record { ordered = _; least = λ a e. refl }
  single-IsHeap (node c m k) hs =
      let irreflexive : before c c ≡ false = elim (Bool-cases (before c c)) [
        | inl e ↦ order.asym c c e
        | inr e ↦ e
      ] in
      least_of c m k hs.ordered
        (rw irreflexive (omega (arith, hs.ordered.0, ap (tally (λ b. before b c)) hs.alone)))

  pub set_next_lem :
      (s next : Phn A)
      → IsSingle before s
      → Ordered before next
      → 0 < tally (λ b. true) s
      → Ordered before (phn_next_set before s next)
        × ((p : A → Bool) → tally p (phn_next_set before s next) ≡ tally p s + tally p next)
  unfolding tally Ordered phn_next_set phn_next_get
  set_next_lem null next hs h there = absurd (omega (arith, there))
  set_next_lem (node c m k) next hs h there =
      ((hs.ordered.0, hs.ordered.1, h), λ p. omega (arith, ap (tally p) hs.alone))

  pub siblings-IsHeap :
      (a : A) (l n n' : Phn A)
      → IsHeap before (node a l n)
      → Ordered before n'
      → ((p : A → Bool) → tally p n' ≤ tally p n)
      → IsHeap before (node a l n')
  unfolding tally Ordered elem
  siblings-IsHeap a l n n' h ordered same =
      least_of a l n' (h.ordered.0, h.ordered.1, ordered)
        (omega (arith, h.least a refl, same (λ b. before b a)))
