-- ===== src/Ph.antt =====
-- include/jemalloc/internal/ph.h: the pairing heap, with its list of nodes that are not merged yet. The
-- enumeration, which only reads, is left out.
mod Tests
pub mod Order
pub mod Heap
pub mod Remove
pub mod Insert
use jemalloc.Base.{
  ℕ, zero, suc, ◌+◌, ◌-◌, ◌*◌, ◌/◌, ◌%◌, Bool, true, false, not, ◌==◌, if◌then◌else◌, Option, none,
  some, List, [], ◌∷◌, ◌++◌, length, u64,
}

-- A node and all that hangs from it by `lchild` and `next`, or NULL. The links `prev` go back along
-- these.
pub data Phn {ℓ} (A : Type ℓ) : Type ℓ where
  null : Phn A
  node : A → Phn A → Phn A → Phn A

-- The root's `next` is the list of nodes that are not merged.
pub record Ph {ℓ} (A : Type ℓ) : Type ℓ where
  pub root : Phn A
  pub auxcount : ℕ

-- The place of the first bit that is set, as `__builtin_ctzl` counts it.
unfoldable pub ctz : ℕ → ℕ → ℕ
ctz zero x = 0
ctz (suc places) x = let rest = ctz places (x / 2) in if x % 2 == 1 then 0 else suc rest

unfoldable pub ffs_zu : ℕ → ℕ
ffs_zu x = ctz 64 x

-- `before a b` says that `cmp` of the two is negative.
module _ {ℓ} {A : Type ℓ} (before : A → A → Bool) where
  unfoldable pub phn_next_set : Phn A → Phn A → Phn A
  phn_next_set null next = null
  phn_next_set (node a lchild _) next = node a lchild next

  unfoldable pub phn_next_get : Phn A → Phn A
  phn_next_get null = null
  phn_next_get (node a lchild next) = next

  -- The second becomes the first child of the first.
  unfoldable pub phn_merge_ordered : Phn A → Phn A → Phn A
  phn_merge_ordered null phn1 = phn1
  phn_merge_ordered (node a lchild next) phn1 = node a (phn_next_set phn1 lchild) next

  unfoldable pub phn_merge : Phn A → Phn A → Phn A
  phn_merge null phn1 = phn1
  phn_merge (node a l n) null = node a l n
  phn_merge (node a l n) (node b l' n') =
      if before a b
      then phn_merge_ordered (node a l n) (node b l' n')
      else phn_merge_ordered (node b l' n') (node a l n)

  -- The first pass of `phn_merge_siblings`: the FIFO of the siblings merged in pairs.
  unfoldable pub merge_pairs : Phn A → List (Phn A)
  merge_pairs null = []
  merge_pairs (node a l null) = node a l null ∷ []
  merge_pairs (node a l (node b l' rest)) =
      phn_merge (node a l null) (node b l' null) ∷ merge_pairs rest

  -- The second pass: the first two of the FIFO are merged and appended to it, until one is left. A round
  -- makes it shorter, so a round per element is enough.
  unfoldable pub merge_fifo : ℕ → List (Phn A) → Phn A
  merge_fifo rounds [] = null
  merge_fifo rounds (phn0 ∷ []) = phn0
  merge_fifo zero (phn0 ∷ phn1 ∷ head) = null
  merge_fifo (suc rounds) (phn0 ∷ phn1 ∷ head) =
      merge_fifo rounds (head ++ (phn_merge phn0 phn1 ∷ []))

  unfoldable pub phn_merge_siblings : Phn A → Phn A
  phn_merge_siblings phn = let fifo = merge_pairs phn in merge_fifo (length fifo) fifo

  -- On the root, which is not NULL.
  unfoldable pub merge_aux : Phn A → Phn A
  merge_aux null = null
  merge_aux (node a lchild null) = node a lchild null
  merge_aux (node a lchild (node b l next)) =
      phn_merge_ordered (node a lchild null) (phn_merge_siblings (node b l next))

  unfoldable pub ph_merge_aux : Ph A → Ph A
  ph_merge_aux ph = record { root = merge_aux ph.root; auxcount = 0 }

  unfoldable pub ph_merge_children : Phn A → Phn A
  ph_merge_children null = null
  ph_merge_children (node a null next) = null
  ph_merge_children (node a (node b l n) next) = phn_merge_siblings (node b l n)

  unfoldable pub ph_new : Ph A
  ph_new = record { root = null; auxcount = 0 }

  unfoldable pub ph_empty : Ph A → Bool
  ph_empty ph = elim ph.root [ null ↦ true | node a l n ↦ false ]

  -- The element of a node.
  unfoldable pub elem : Phn A → Option A
  elem null = none
  elem (node a l n) = some a

  unfoldable pub ph_first : Ph A → Ph A × Option A
  ph_first ph = if ph_empty ph then (ph, none) else (ph_merge_aux ph, elem (ph_merge_aux ph).root)

  unfoldable pub ph_any : Ph A → Option A
  ph_any ph = elim (elem (phn_next_get ph.root)) [ none ↦ elem ph.root | some a ↦ some a ]

  -- The root after it, and whether to stop.
  unfoldable pub ph_try_aux_merge_pair : Phn A → Phn A × Bool
  ph_try_aux_merge_pair (node a l (node b l' (node c l'' next))) = (
    node a l (phn_next_set (phn_merge (node b l' null) (node c l'' null)) next),
    (elim next [ null ↦ true | node d x y ↦ false ]),
  )
  ph_try_aux_merge_pair phn = (phn, true)

  -- The loop of `ph_insert`.
  unfoldable pub try_merges : ℕ → Phn A → Phn A
  try_merges zero root = root
  try_merges (suc nmerges) root =
      let (root', done) = ph_try_aux_merge_pair root in
      let rest = try_merges nmerges root' in if done then root' else rest

  unfoldable pub ph_insert : Ph A → A → Ph A
  ph_insert ph phn = elim ph.root [
    | null ↦ record ph { root = node phn null null }
    | node a lchild next ↦
        if before phn a
        then record { root = node phn (node a lchild next) null; auxcount = 0 }
        else record {
          root = try_merges (ffs_zu (u64 (ph.auxcount + 1))) (node a lchild (node phn null next));
          auxcount = u64 (ph.auxcount + 1);
        }
  ]

  unfoldable pub ph_remove_first : Ph A → Ph A × Option A
  ph_remove_first ph =
      let merged = ph_merge_aux ph in
      if ph_empty ph
      then (ph, none)
      else (record merged { root = ph_merge_children merged.root }, elem merged.root)

  -- `next` is put behind the tree that replaces a node, if there is one.
  unfoldable pub integrate : Phn A → Phn A → Phn A
  integrate null next = next
  integrate (node b lchild _) next = node b lchild next

  -- What stands for a node that is removed: its children, merged, before its `next`.
  unfoldable pub replaced : Phn A → Phn A
  replaced null = null
  replaced (node a lchild next) = integrate (ph_merge_children (node a lchild next)) next

  -- Removing the node at a path of steps to `lchild` (true) or `next` (false).
  unfoldable pub remove_at : List Bool → Phn A → Phn A
  remove_at path null = null
  remove_at [] (node a lchild next) = replaced (node a lchild next)
  remove_at (true ∷ path) (node a lchild next) = node a (remove_at path lchild) next
  remove_at (false ∷ path) (node a lchild next) = node a lchild (remove_at path next)

  -- The pointer to the node is its path from the root.
  unfoldable pub ph_remove : Ph A → List Bool → Ph A
  ph_remove ph [] = record { root = ph_merge_children (merge_aux ph.root); auxcount = 0 }
  ph_remove ph (step ∷ path) = record ph { root = remove_at (step ∷ path) ph.root }
