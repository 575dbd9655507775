-- ===== src/Fb/Tests.antt =====
-- Runs of the flat bitmap, and its theorems at concrete bitmaps.
use jemalloc.Base.{◌≡◌, refl, arith, true, false, ◌||◌, some, ◌∷◌, []}
use jemalloc.Fb.{
  Fb, fb_init, fb_get, fb_set_range, fb_visit_impl, fb_assign_visitor, visit_rest, fb_scount,
  fb_scount_visitor, fb_find_forward, find_up, fb_ffs, fb_ffu, fb_fls, fb_find_backward, find_down,
  fb_urange_longest, fb_range_longest_impl, longest_from, fb_iter_range_forward,
}
use jemalloc.Fb.Groups.{
  zeros, count_from, popcount_lu, first_set, last_set, is_zero, ffs_lu, fls_lu,
}
use jemalloc.Fb.Assign.{in_range, fb_get-set_range}
use jemalloc.Fb.Clean.{fb_get-init, length-init, set_range-IsClean}
use jemalloc.Fb.Range.{IsFirstRange, fb_iter_range_forward-IsFirstRange}
use jemalloc.Fb.Longest.{IsLongest, fb_range_longest_impl-IsLongest}
use jemalloc.Fb.Backward.{IsPrev, fb_find_backward-IsPrev}
use jemalloc.Fb.Count.{fb_scount-count}
use jemalloc.Fb.Forward.{IsClean, IsNext, fb_find_forward-IsNext}

-- 130 bits, with 60 … 69 set.
ten_set : Fb
unfolding fb_init fb_set_range fb_visit_impl fb_assign_visitor visit_rest
ten_set = fb_set_range (fb_init 130) 60 10

runs :
    (fb_ffs ten_set 130 0 ≡ 60)
    × (fb_ffu ten_set 130 60 ≡ 70)
    × (fb_fls ten_set 129 ≡ some 69)
    × (fb_scount ten_set 0 130 ≡ 10)
    × (fb_urange_longest ten_set 130 ≡ 60)
unfolding ten_set fb_ffs fb_ffu fb_fls fb_scount fb_urange_longest fb_find_forward fb_find_backward
    find_up find_down fb_scount_visitor fb_range_longest_impl longest_from fb_iter_range_forward
    is_zero ffs_lu fls_lu first_set last_set popcount_lu count_from fb_visit_impl visit_rest
runs = (refl, refl, refl, refl, refl)

abbrev three_groups : Fb
three_groups = zeros ∷ zeros ∷ zeros ∷ []

fb_get-set_range_example :
    fb_get (fb_set_range three_groups 60 10) 64 ≡ (in_range 60 10 64 || fb_get three_groups 64)
fb_get-set_range_example = fb_get-set_range three_groups 60 10 64 (omega arith) (omega arith)

ten_set-IsClean : IsClean ten_set 130
unfolding ten_set
ten_set-IsClean =
    set_range-IsClean (fb_init 130) 130 60 10 (λ j h. fb_get-init 130 j) (omega arith) (omega arith)
      (omega (arith, length-init 130))

fb_find_forward-IsNext_example : IsNext ten_set 130 3 true (fb_find_forward ten_set 130 3 true)
fb_find_forward-IsNext_example =
    fb_find_forward-IsNext ten_set 130 3 (omega arith) ten_set-IsClean true

fb_scount-count_example : fb_scount ten_set 50 30 ≡ count_from (fb_get ten_set) 50 30
fb_scount-count_example = fb_scount-count ten_set 50 30

fb_iter_range_forward-IsFirstRange_example :
    IsFirstRange ten_set 130 3 true (fb_iter_range_forward ten_set 130 3 true)
fb_iter_range_forward-IsFirstRange_example =
    fb_iter_range_forward-IsFirstRange ten_set 130 3 (omega arith) ten_set-IsClean true

fb_range_longest_impl-IsLongest_example :
    IsLongest ten_set 130 false (fb_range_longest_impl ten_set 130 false)
fb_range_longest_impl-IsLongest_example =
    fb_range_longest_impl-IsLongest ten_set 130 false ten_set-IsClean

fb_find_backward-IsPrev_example : IsPrev ten_set 129 true (fb_find_backward ten_set 129 true)
fb_find_backward-IsPrev_example = fb_find_backward-IsPrev ten_set 129 true
