-- ===== src/Fb.antt =====
-- include/jemalloc/internal/fb.h: the flat bitmap, an array of 64-bit groups. A bitmap is the list of
-- its groups; the functions that write it return the new list.
mod Tests
pub mod Groups
pub mod Assign
pub mod Count
pub mod Find
pub mod Forward
pub mod Clean
pub mod Range
pub mod Backward
pub mod Longest
pub mod Total
use jemalloc.Base.{
  ℕ, zero, suc, ◌+◌, ◌-◌, ◌*◌, ◌/◌, ◌%◌, Bool, true, false, not, ◌&&◌, ◌||◌, Option, none, some,
  List, [], ◌∷◌, ◌++◌, ltb, leb, ◌==◌, if◌then◌else◌, get_or, set, replicate, length, drop,
}
use Groups.{
  Group, fb_group_bits, zeros, ones, group_and, group_or, group_not, group_xor, group_shl,
  group_shr, low_mask, popcount_lu, is_zero, is_same, ffs_lu, fls_lu,
}

abbrev pub Fb : Type 0
Fb = List Group

abbrev pub fb_ngroups : ℕ → ℕ
fb_ngroups nbits = nbits / fb_group_bits + (if nbits % fb_group_bits == 0 then 0 else 1)

-- A read of the array.
abbrev pub group_at : Fb → ℕ → Group
group_at fb g = get_or fb g zeros

unfoldable pub fb_init : ℕ → Fb
fb_init nbits = replicate (fb_ngroups nbits) zeros

unfoldable pub fb_empty : Fb → Bool
fb_empty [] = true
fb_empty (g ∷ fb) = is_zero g && fb_empty fb

-- The loop of `fb_full` over the first `limit` groups.
unfoldable pub full_below : Fb → ℕ → Bool
full_below fb zero = true
full_below fb (suc limit) = full_below fb limit && is_same (group_at fb limit) ones

unfoldable pub fb_full : Fb → ℕ → Bool
fb_full fb nbits =
    let ngroups = fb_ngroups nbits in
    let trailing_bits = nbits % fb_group_bits in
    let limit = (if trailing_bits == 0 then ngroups else ngroups - 1) in
    if not (full_below fb limit)
    then false
    else (if trailing_bits == 0
        then true
        else is_same (group_at fb (ngroups - 1)) (low_mask trailing_bits))

unfoldable pub fb_get : Fb → ℕ → Bool
fb_get fb bit = group_at fb (bit / fb_group_bits) (bit % fb_group_bits)

unfoldable pub fb_set : Fb → ℕ → Fb
fb_set fb bit =
    let group_ind = bit / fb_group_bits in
    let bit_ind = bit % fb_group_bits in
    set fb group_ind (group_or (group_at fb group_ind) (group_shl (low_mask 1) bit_ind))

unfoldable pub fb_unset : Fb → ℕ → Fb
fb_unset fb bit =
    let group_ind = bit / fb_group_bits in
    let bit_ind = bit % fb_group_bits in
    set fb group_ind
      (group_and (group_at fb group_ind) (group_not (group_shl (low_mask 1) bit_ind)))

-- A visitor takes its context, a group and a mask, and returns the context and the group.
abbrev pub Visitor : Type 0 → Type 0
Visitor S = S → Group → Group → S × Group

abbrev pub visit_at : {S : Type 0} → Visitor S → S × Fb → ℕ → Group → S × Fb
visit_at visit (ctx, fb) g mask =
    let (ctx', group) = visit ctx (group_at fb g) mask in (ctx', set fb g group)

-- The middle groups and the last one, from group `g` on. A round takes 64 of `cnt`, so `cnt` rounds
-- are enough.
unfoldable pub visit_rest : {S : Type 0} → ℕ → Visitor S → S × Fb → ℕ → ℕ → S × Fb
visit_rest zero visit s g cnt = s
visit_rest (suc fuel) visit s g cnt =
    let rest = visit_rest fuel visit (visit_at visit s g ones) (g + 1) (cnt - fb_group_bits) in
    if ltb fb_group_bits cnt
    then rest
    else (if cnt == 0 then s else visit_at visit s g (group_shr ones (fb_group_bits - cnt)))

unfoldable pub fb_visit_impl : {S : Type 0} → Visitor S → S → Fb → ℕ → ℕ → S × Fb
fb_visit_impl visit ctx fb start cnt =
    let group_ind = start / fb_group_bits in
    let start_bit_ind = start % fb_group_bits in
    let first_group_cnt =
      (if ltb fb_group_bits (start_bit_ind + cnt) then fb_group_bits - start_bit_ind else cnt) in
    let mask = group_shl (group_shr ones (fb_group_bits - first_group_cnt)) start_bit_ind in
    visit_rest (cnt + 1) visit (visit_at visit (ctx, fb) group_ind mask) (group_ind + 1)
      (cnt - first_group_cnt)

unfoldable pub fb_assign_visitor : Visitor Bool
fb_assign_visitor val group mask =
    (val, if val then group_or group mask else group_and group (group_not mask))

unfoldable pub fb_set_range : Fb → ℕ → ℕ → Fb
fb_set_range fb start cnt = (fb_visit_impl fb_assign_visitor true fb start cnt).1

unfoldable pub fb_unset_range : Fb → ℕ → ℕ → Fb
fb_unset_range fb start cnt = (fb_visit_impl fb_assign_visitor false fb start cnt).1

unfoldable pub fb_scount_visitor : Visitor ℕ
fb_scount_visitor scount group mask = (scount + popcount_lu (group_and group mask), group)

unfoldable pub fb_scount : Fb → ℕ → ℕ → ℕ
fb_scount fb start cnt = (fb_visit_impl fb_scount_visitor 0 fb start cnt).0

unfoldable pub fb_ucount : Fb → ℕ → ℕ → ℕ
fb_ucount fb start cnt = cnt - fb_scount fb start cnt

-- val ? 0 : (fb_group_t)-1
abbrev pub maybe_invert : Bool → Group
maybe_invert val i = if val then zeros i else ones i

-- group ^ maybe_invert
abbrev pub view_group : Bool → Group → Group
view_group val group = group_xor group (maybe_invert val)

-- The search loop upwards, over the `rounds` groups from `g` on.
unfoldable pub find_up : ℕ → Fb → Bool → ℕ → Group → Option ℕ
find_up zero fb val g group =
    if is_zero group then none else some (g * fb_group_bits + ffs_lu group)
find_up (suc rounds) fb val g group =
    let rest = find_up rounds fb val (g + 1) (view_group val (group_at fb (g + 1))) in
    if is_zero group then rest else some (g * fb_group_bits + ffs_lu group)

-- The search loop downwards, from group `g`; `none` is -1.
unfoldable pub find_down : Fb → Bool → ℕ → Group → Option ℕ
find_down fb val zero group = if is_zero group then none else some (fls_lu group)
find_down fb val (suc g) group =
    let rest = find_down fb val g (view_group val (group_at fb g)) in
    if is_zero group then rest else some (suc g * fb_group_bits + fls_lu group)

-- `fb_find_impl` with `forward` true: `nbits` if there is no such bit.
unfoldable pub fb_find_forward : Fb → ℕ → ℕ → Bool → ℕ
fb_find_forward fb nbits start val =
    let group_ind = start / fb_group_bits in
    let bit_ind = start % fb_group_bits in
    let group = group_and (view_group val (group_at fb group_ind)) (group_not (low_mask bit_ind)) in
    elim (find_up (fb_ngroups nbits - group_ind - 1) fb val group_ind group) [
      | none ↦ nbits
      | some pos ↦ if not val && ltb nbits pos then nbits else pos
    ]

-- `fb_find_impl` with `forward` false: -1, here `none`, if there is no such bit.
unfoldable pub fb_find_backward : Fb → ℕ → Bool → Option ℕ
fb_find_backward fb start val =
    let group_ind = start / fb_group_bits in
    let bit_ind = start % fb_group_bits in
    let group = group_and (view_group val (group_at fb group_ind)) (low_mask (bit_ind + 1)) in
    find_down fb val group_ind group

unfoldable pub fb_ffu : Fb → ℕ → ℕ → ℕ
fb_ffu fb nbits min_bit = fb_find_forward fb nbits min_bit false

unfoldable pub fb_ffs : Fb → ℕ → ℕ → ℕ
fb_ffs fb nbits min_bit = fb_find_forward fb nbits min_bit true

unfoldable pub fb_flu : Fb → ℕ → Option ℕ
fb_flu fb max_bit = fb_find_backward fb max_bit false

unfoldable pub fb_fls : Fb → ℕ → Option ℕ
fb_fls fb max_bit = fb_find_backward fb max_bit true

-- `fb_iter_range_impl`: where the next range begins and how long it is. Going back, the range ends at
-- the bit found, and an unset `next_range_end` of -1 makes it begin at 0.
unfoldable pub fb_iter_range_forward : Fb → ℕ → ℕ → Bool → Option (ℕ × ℕ)
fb_iter_range_forward fb nbits start val =
    let next_range_begin = fb_find_forward fb nbits start val in
    let next_range_end = fb_find_forward fb nbits next_range_begin (not val) in
    if next_range_begin == nbits
    then none
    else some (next_range_begin, next_range_end - next_range_begin)

unfoldable pub fb_iter_range_backward : Fb → ℕ → Bool → Option (ℕ × ℕ)
fb_iter_range_backward fb start val = elim (fb_find_backward fb start val) [
  | none ↦ none
  | some next_range_begin ↦ elim (fb_find_backward fb next_range_begin (not val)) [
    | none ↦ some (0, next_range_begin + 1)
    | some next_range_end ↦ some (next_range_end + 1, next_range_begin - next_range_end)
  ]
]

unfoldable pub fb_srange_iter : Fb → ℕ → ℕ → Option (ℕ × ℕ)
fb_srange_iter fb nbits start = fb_iter_range_forward fb nbits start true

unfoldable pub fb_srange_riter : Fb → ℕ → Option (ℕ × ℕ)
fb_srange_riter fb start = fb_iter_range_backward fb start true

unfoldable pub fb_urange_iter : Fb → ℕ → ℕ → Option (ℕ × ℕ)
fb_urange_iter fb nbits start = fb_iter_range_forward fb nbits start false

unfoldable pub fb_urange_riter : Fb → ℕ → Option (ℕ × ℕ)
fb_urange_riter fb start = fb_iter_range_backward fb start false

-- The loop of `fb_range_longest_impl`. Every range found moves `begin` up, so `nbits` rounds are
-- enough.
unfoldable pub longest_from : ℕ → Fb → ℕ → Bool → ℕ → ℕ → ℕ
longest_from zero fb nbits val begin longest_len = longest_len
longest_from (suc fuel) fb nbits val begin longest_len =
    if ltb begin nbits
    then elim (fb_iter_range_forward fb nbits begin val) [
      | none ↦ longest_len
      | some (b, len) ↦
          longest_from fuel fb nbits val (b + len)
            (if ltb longest_len len then len else longest_len)
    ]
    else longest_len

unfoldable pub fb_range_longest_impl : Fb → ℕ → Bool → ℕ
fb_range_longest_impl fb nbits val = longest_from nbits fb nbits val 0 0

unfoldable pub fb_srange_longest : Fb → ℕ → ℕ
fb_srange_longest fb nbits = fb_range_longest_impl fb nbits true

unfoldable pub fb_urange_longest : Fb → ℕ → ℕ
fb_urange_longest fb nbits = fb_range_longest_impl fb nbits false

-- Both sources are bitmaps of one size.
unfoldable pub fb_bit_and : Fb → Fb → Fb
fb_bit_and (a ∷ src1) (b ∷ src2) = group_and a b ∷ fb_bit_and src1 src2
fb_bit_and _ _ = []

unfoldable pub fb_bit_or : Fb → Fb → Fb
fb_bit_or (a ∷ src1) (b ∷ src2) = group_or a b ∷ fb_bit_or src1 src2
fb_bit_or _ _ = []

unfoldable pub fb_bit_not : Fb → Fb
fb_bit_not [] = []
fb_bit_not (a ∷ src) = group_not a ∷ fb_bit_not src
