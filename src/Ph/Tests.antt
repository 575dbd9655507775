-- ===== src/Ph/Tests.antt =====
-- Pairing heaps of numbers.
use jemalloc.Base.{ℕ, ◌≡◌, refl, arith, false, ltb, some, [], ◌∷◌}
use jemalloc.Ph.{
  Ph, null, node, ph_new, ph_insert, ph_remove, ph_remove_first, elem, ph_empty, try_merges, ffs_zu,
  ctz, ph_merge_children, ph_merge_aux, merge_aux, phn_merge_siblings, merge_fifo, merge_pairs,
  phn_merge, phn_merge_ordered,
}
use jemalloc.Ph.Order.{IsOrder, tally, Ordered}
use jemalloc.Ph.Heap.{IsHeap, elem_at, least_of}
use jemalloc.Ph.Remove.{IsTaken, IsWithout, heap_of, remove_first-IsTaken, remove-IsWithout}
use jemalloc.Ph.Insert.{IsWith, insert-IsWith}

ltb-IsOrder : IsOrder ltb
ltb-IsOrder = record {
  asym = λ a b e. ground (arith, e);
  trans = λ a b c e f. ground (arith, e, f);
}

-- 3 with the child 5, and 4, 8 and 6 not merged.
abbrev five : Ph ℕ
five = heap_of (node 3 (node 5 null null) (node 4 null (node 8 null (node 6 null null)))) 3

five-IsHeap : IsHeap ltb five.root
unfolding Ordered tally
five-IsHeap =
    least_of ltb ltb-IsOrder 3 (node 5 null null) (node 4 null (node 8 null (node 6 null null)))
      (refl, (refl, _, _), (refl, _, (refl, _, (refl, _, _)))) refl

remove_first-IsTaken_example :
    IsTaken ltb ltb-IsOrder five (ph_remove_first ltb five).0 (ph_remove_first ltb five).1
remove_first-IsTaken_example = remove_first-IsTaken ltb ltb-IsOrder five five-IsHeap

remove-IsWithout_example : IsWithout ltb five (ph_remove ltb five (false ∷ false ∷ [])) 8
unfolding elem_at
remove-IsWithout_example =
    remove-IsWithout ltb ltb-IsOrder five (false ∷ false ∷ []) 8 five-IsHeap refl

insert-IsWith_example : IsWith ltb ltb-IsOrder five.root 7 (ph_insert ltb five 7)
insert-IsWith_example = insert-IsWith ltb ltb-IsOrder five 7 five-IsHeap

-- Four elements put into an empty heap, and the least two taken out.
two_least :
    ((ph_remove_first ltb
      (ph_remove_first ltb
        (ph_insert ltb (ph_insert ltb (ph_insert ltb (ph_insert ltb (ph_new ltb) 9) 4) 7) 2)).0).1)
    ≡ some 4
unfolding ph_remove_first ph_insert ph_new ph_empty try_merges ffs_zu ctz ph_merge_children
    ph_merge_aux merge_aux phn_merge_siblings merge_fifo merge_pairs phn_merge phn_merge_ordered
    elem
two_least = refl
