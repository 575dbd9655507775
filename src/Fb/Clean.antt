-- ===== src/Fb/Clean.antt =====
-- Bitmaps with no bit set from `nbits` on, and how many groups the operations leave.
use jemalloc.Base.{
  ℕ, zero, suc, ◌+◌, ◌-◌, ◌*◌, ◌/◌, ◌%◌, ◌≤◌, ◌<◌, ◌≡◌, refl, ◌∙◌, arith, Bool, true, false, not,
  ◌&&◌, ◌||◌, length, replicate, length-replicate, dec_lt, lt→ltb, le→ltb, pos→==0, ℕ_discrete, [],
  ◌∷◌,
}
use jemalloc.Fb.{
  Fb, group_at, fb_ngroups, fb_get, fb_init, fb_set_range, fb_unset_range, fb_visit_impl,
  fb_assign_visitor, visit_rest, visit_at, fb_bit_and, fb_bit_not,
}
use jemalloc.Fb.Groups.{zeros, ones, group_shr}
use jemalloc.Fb.Assign.{in_range, length-assign, fb_get-set_range, fb_get-unset_range}
use jemalloc.Fb.Forward.{IsClean}

zeros-at : (n g i : ℕ) → group_at (replicate n zeros) g i ≡ false
zeros-at zero g i = refl
zeros-at (suc n) zero i = refl
zeros-at (suc n) (suc g) i = zeros-at n g i

-- A fresh bitmap has no bit set.
pub fb_get-init : (nbits i : ℕ) → fb_get (fb_init nbits) i ≡ false
unfolding fb_get fb_init
fb_get-init nbits i = zeros-at (fb_ngroups nbits) (i / 64) (i % 64)

pub length-init : (nbits : ℕ) → length (fb_init nbits) ≡ fb_ngroups nbits
unfolding fb_init
length-init nbits = length-replicate (fb_ngroups nbits) zeros

length-rest :
    (fuel : ℕ) (val : Bool) (fb : Fb) (g cnt : ℕ)
    → length (visit_rest fuel fb_assign_visitor (val, fb) g cnt).1 ≡ length fb
unfolding visit_rest fb_assign_visitor
length-rest zero val fb g cnt = refl
length-rest (suc fuel) val fb g cnt = elim (dec_lt 64 cnt) [
  | yes p ↦ rw (lt→ltb 64 cnt p) (
      length-rest fuel val (visit_at fb_assign_visitor (val, fb) g ones).1 (g + 1) (cnt - 64)
      ∙ length-assign val fb g ones)
  | no p ↦ elim (ℕ_discrete cnt 0) [
    | yes e ↦ rw e (ground arith)
    | no e ↦
        rw (le→ltb 64 cnt (omega arith), pos→==0 cnt (omega arith))
          (length-assign val fb g (group_shr ones (64 - cnt)))
  ]
]

length-visit :
    (val : Bool) (fb : Fb) (start cnt : ℕ)
    → length (fb_visit_impl fb_assign_visitor val fb start cnt).1 ≡ length fb
unfolding fb_visit_impl fb_assign_visitor
length-visit val fb start cnt = length-rest (cnt + 1) val _ _ _ ∙ length-assign val fb _ _

pub length-set_range : (fb : Fb) (start cnt : ℕ) → length (fb_set_range fb start cnt) ≡ length fb
unfolding fb_set_range
length-set_range fb start cnt = length-visit true fb start cnt

pub length-unset_range :
    (fb : Fb) (start cnt : ℕ) → length (fb_unset_range fb start cnt) ≡ length fb
unfolding fb_unset_range
length-unset_range fb start cnt = length-visit false fb start cnt

pub set_range-IsClean :
    (fb : Fb) (nbits start cnt : ℕ)
    → IsClean fb nbits
    → 0 < cnt
    → start + cnt ≤ nbits
    → nbits ≤ 64 * length fb
    → IsClean (fb_set_range fb start cnt) nbits
set_range-IsClean fb nbits start cnt c h p fits = λ j q.
    fb_get-set_range fb start cnt j h (omega arith)
    ∙ outside start cnt j (fb_get fb j) (omega arith) (c j q)
  where
    outside :
        (start cnt j : ℕ) (old : Bool)
        → start + cnt ≤ j
        → old ≡ false
        → (in_range start cnt j || old) ≡ false
    outside start cnt j old p e = ground arith

pub unset_range-IsClean :
    (fb : Fb) (nbits start cnt : ℕ)
    → IsClean fb nbits
    → 0 < cnt
    → start + cnt ≤ 64 * length fb
    → IsClean (fb_unset_range fb start cnt) nbits
unset_range-IsClean fb nbits start cnt c h fits = λ j q.
    fb_get-unset_range fb start cnt j h fits
    ∙ still (not (in_range start cnt j)) (fb_get fb j) (c j q)
  where
    still : (m old : Bool) → old ≡ false → (m && old) ≡ false
    still m old e = ground arith

group_at-bit_and :
    (a b : Fb) (g j : ℕ)
    → length a ≡ length b
    → group_at (fb_bit_and a b) g j ≡ (group_at a g j && group_at b g j)
unfolding fb_bit_and
group_at-bit_and [] [] g j h = refl
group_at-bit_and [] (y ∷ b) g j h = absurd (omega arith)
group_at-bit_and (x ∷ a) [] g j h = absurd (omega arith)
group_at-bit_and (x ∷ a) (y ∷ b) zero j h = refl
group_at-bit_and (x ∷ a) (y ∷ b) (suc g) j h = group_at-bit_and a b g j (omega arith)

-- The bitwise operations act on every bit of the groups.
pub fb_get-bit_and :
    (a b : Fb) (i : ℕ)
    → length a ≡ length b
    → fb_get (fb_bit_and a b) i ≡ (fb_get a i && fb_get b i)
unfolding fb_get
fb_get-bit_and a b i h = group_at-bit_and a b (i / 64) (i % 64) h

pub fb_get-bit_not :
    (a : Fb) (i : ℕ) → i < 64 * length a → fb_get (fb_bit_not a) i ≡ not (fb_get a i)
unfolding fb_get fb_bit_not
fb_get-bit_not a i h = group_at-bit_not a (i / 64) (i % 64) (omega arith) (omega arith)
  where
    group_at-bit_not :
        (a : Fb) (g j : ℕ)
        → g < length a
        → j < 64
        → group_at (fb_bit_not a) g j ≡ not (group_at a g j)
    group_at-bit_not [] g j h lt = absurd (omega arith)
    group_at-bit_not (x ∷ a) zero j h lt = ground arith
    group_at-bit_not (x ∷ a) (suc g) j h lt = group_at-bit_not a g j (omega arith) lt
