-- ===== src/Fb/Assign.antt =====
-- The range writes of fb.h set exactly the bits of the range.
use jemalloc.Base.{
  ◌⊎◌, pos→==0, dec_lt, lt→ltb, le→ltb, length-set, ℕ, zero, suc, ◌+◌, ◌-◌, ◌*◌, ◌/◌, ◌%◌, ◌≤◌, ◌<◌,
  ◌≡◌, refl, ◌∙◌, arith, Bool, true, false, not, ◌&&◌, ◌||◌, [], ◌∷◌, ltb, leb, ◌==◌, if◌then◌else◌,
  set, length, ℕ_discrete,
}
use jemalloc.Fb.{
  Fb, group_at, fb_get, visit_at, visit_rest, fb_visit_impl, fb_assign_visitor, fb_set_range,
  fb_unset_range,
}
use jemalloc.Fb.Groups.{Group, ones, group_shl, group_shr, group_or, group_and, group_not}

pub group_at-set :
    (fb : Fb) (g h : ℕ) (x : Group) (j : ℕ)
    → g < length fb
    → group_at (set fb g x) h j ≡ (if g == h then x j else group_at fb h j)
group_at-set [] g h x j p = absurd (omega arith)
group_at-set (y ∷ fb) zero zero x j p = refl
group_at-set (y ∷ fb) zero (suc h) x j p = ground arith
group_at-set (y ∷ fb) (suc g) zero x j p = ground arith
group_at-set (y ∷ fb) (suc g) (suc h) x j p = ground (arith, group_at-set fb g h x j (omega arith))

merge_set :
    (fb : Fb) (g h j : ℕ) (m : Bool)
    → (if g == h then group_at fb g j || m else group_at fb h j)
      ≡ (if g == h && m then true else group_at fb h j)
merge_set fb g h j m = elim (ℕ_discrete g h) [ yes e ↦ rw e (ground arith) | no e ↦ ground arith ]

merge_unset :
    (fb : Fb) (g h j : ℕ) (m : Bool)
    → j < 64
    → (if g == h then group_at fb g j && (ltb j 64 && not m) else group_at fb h j)
      ≡ (if g == h && m then false else group_at fb h j)
merge_unset fb g h j m lt = elim (ℕ_discrete g h) [
  | yes e ↦ rw e (ground arith)
  | no e ↦ ground arith
]

-- One visit of the assigning visitor writes the bits of the mask in its group.
pub fb_get-assign :
    (val : Bool) (fb : Fb) (g : ℕ) (mask : Group) (i : ℕ)
    → g < length fb
    → fb_get (visit_at fb_assign_visitor (val, fb) g mask).1 i
      ≡ (if g == i / 64 && mask (i % 64) then val else fb_get fb i)
unfolding fb_get fb_assign_visitor
fb_get-assign true fb g mask i h =
    group_at-set fb g (i / 64) (group_or (group_at fb g) mask) (i % 64) h
    ∙ merge_set fb g (i / 64) (i % 64) (mask (i % 64))
fb_get-assign false fb g mask i h =
    group_at-set fb g (i / 64) (group_and (group_at fb g) (group_not mask)) (i % 64) h
    ∙ merge_unset fb g (i / 64) (i % 64) (mask (i % 64)) (omega arith)

abbrev pub in_range : ℕ → ℕ → ℕ → Bool
in_range start cnt i = leb start i && ltb i (start + cnt)

-- A visit keeps the number of groups, and hands the value on.
pub length-assign :
    (val : Bool) (fb : Fb) (g : ℕ) (mask : Group)
    → length (visit_at fb_assign_visitor (val, fb) g mask).1 ≡ length fb
unfolding fb_assign_visitor
length-assign val fb g mask = length-set fb g _

assign_ctx :
    (val : Bool) (fb : Fb) (g : ℕ) (mask : Group)
    → visit_at fb_assign_visitor (val, fb) g mask
      ≡ (val, (visit_at fb_assign_visitor (val, fb) g mask).1)
unfolding fb_assign_visitor
assign_ctx val fb g mask = refl

middle :
    (old new val : Bool) (g cnt i : ℕ)
    → 64 < cnt
    → new ≡ (if g == i / 64 && ones (i % 64) then val else old)
    → (if in_range (64 * (g + 1)) (cnt - 64) i then val else new)
      ≡ (if in_range (64 * g) cnt i then val else old)
middle old new val g cnt i h e = ground arith

last :
    (old val : Bool) (g cnt i : ℕ)
    → cnt ≤ 64
    → (if g == i / 64 && group_shr ones (64 - cnt) (i % 64) then val else old)
      ≡ (if in_range (64 * g) cnt i then val else old)
last old val g cnt i h = ground arith

no_more : (g i : ℕ) → in_range (64 * g) 0 i ≡ false
no_more g i = ground arith

-- The middle groups and the last: the bits from the start of group `g` on.
fb_get-rest :
    (fuel : ℕ) (val : Bool) (fb : Fb) (g cnt i : ℕ)
    → cnt < fuel
    → 64 * g + cnt ≤ 64 * length fb
    → fb_get (visit_rest fuel fb_assign_visitor (val, fb) g cnt).1 i
      ≡ (if in_range (64 * g) cnt i then val else fb_get fb i)
unfolding visit_rest fb_assign_visitor
fb_get-rest zero val fb g cnt i h fits = absurd (omega arith)
fb_get-rest (suc fuel) val fb g cnt i h fits = elim (dec_lt 64 cnt) [
  | yes p ↦
      let fb' = (visit_at fb_assign_visitor (val, fb) g ones).1 in
      let same = length-assign val fb g ones in
      let this = fb_get-assign val fb g ones i (omega arith) in
      rw (lt→ltb 64 cnt p) (
        fb_get-rest fuel val fb' (g + 1) (cnt - 64) i (omega arith) (omega (arith, same))
        ∙ middle (fb_get fb i) (fb_get fb' i) val g cnt i p this)
  | no p ↦ elim (ℕ_discrete cnt 0) [
    | yes e ↦ rw (e, no_more g i) (ground arith)
    | no e ↦
        rw (le→ltb 64 cnt (omega arith), pos→==0 cnt (omega arith))
          (fb_get-assign val fb g (group_shr ones (64 - cnt)) i (omega arith)
            ∙ last (fb_get fb i) val g cnt i (omega arith))
  ]
]

-- The first group: the bits of the range that lie in it.
first :
    (old new val : Bool) (start cnt n i : ℕ)
    → 0 < cnt
    → n ≡ (if ltb 64 (start % 64 + cnt) then 64 - start % 64 else cnt)
    → new ≡ (
        if start / 64 == i / 64 && group_shl (group_shr ones (64 - n)) (start % 64) (i % 64)
        then val
        else old)
    → (if in_range (64 * (start / 64 + 1)) (cnt - n) i then val else new)
      ≡ (if in_range start cnt i then val else old)
first old new val start cnt n i h e f = ground arith

pub fb_get-visit :
    (val : Bool) (fb : Fb) (start cnt i : ℕ)
    → 0 < cnt
    → start + cnt ≤ 64 * length fb
    → fb_get (fb_visit_impl fb_assign_visitor val fb start cnt).1 i
      ≡ (if in_range start cnt i then val else fb_get fb i)
unfolding fb_visit_impl fb_assign_visitor
fb_get-visit val fb start cnt i h fits =
    let g = start / 64 in
    let n : ℕ = (if ltb 64 (start % 64 + cnt) then 64 - start % 64 else cnt) in
    let mask = group_shl (group_shr ones (64 - n)) (start % 64) in
    let fb' = (visit_at fb_assign_visitor (val, fb) g mask).1 in
    let same = length-assign val fb g mask in
    let n-le : (n ≤ cnt) × ((n ≡ cnt) ⊎ (start % 64 + n ≡ 64)) = ground arith in
    fb_get-rest (cnt + 1) val fb' (g + 1) (cnt - n) i (omega arith) (omega (arith, same, n-le))
    ∙ first (fb_get fb i) (fb_get fb' i) val start cnt n i h refl
        (fb_get-assign val fb g mask i (omega arith))

-- For a range that is not empty and lies in the bitmap's groups: after `fb_set_range` a bit is set
-- exactly when it lies in the range or was set.
pub fb_get-set_range :
    (fb : Fb) (start cnt i : ℕ)
    → 0 < cnt
    → start + cnt ≤ 64 * length fb
    → fb_get (fb_set_range fb start cnt) i ≡ (in_range start cnt i || fb_get fb i)
unfolding fb_set_range
fb_get-set_range fb start cnt i h fits = fb_get-visit true fb start cnt i h fits ∙ ground arith

-- For a range that is not empty and lies in the bitmap's groups: after `fb_unset_range` a bit is set
-- exactly when it was set and does not lie in the range.
pub fb_get-unset_range :
    (fb : Fb) (start cnt i : ℕ)
    → 0 < cnt
    → start + cnt ≤ 64 * length fb
    → fb_get (fb_unset_range fb start cnt) i ≡ (not (in_range start cnt i) && fb_get fb i)
unfolding fb_unset_range
fb_get-unset_range fb start cnt i h fits = fb_get-visit false fb start cnt i h fits ∙ ground arith
