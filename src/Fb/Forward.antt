-- ===== src/Fb/Forward.antt =====
-- `fb_find_impl` searching forward: `fb_ffs` and `fb_ffu`.
use jemalloc.Base.{
  ℕ, ◌+◌, ◌-◌, ◌*◌, ◌/◌, ◌%◌, ◌≤◌, ◌<◌, ◌≡◌, refl, arith, Bool, true, false, not, ◌&&◌, Option,
  none, some, ltb, leb, if◌then◌else◌, dec_lt, lt→ltb, le→ltb,
}
use jemalloc.Fb.{Fb, group_at, fb_ngroups, fb_get, view_group, fb_find_forward}
use jemalloc.Fb.Groups.{Group, group_and, group_not, low_mask}
use jemalloc.Fb.Find.{FoundUp, find_up_lem}

-- No bit is set at `nbits` or above, as after `fb_init` and the writes below `nbits`.
abbrev pub IsClean : Fb → ℕ → Type 0
IsClean fb nbits = (j : ℕ) → nbits ≤ j → fb_get fb j ≡ false

-- `r` is the first bit from `start` on with the value `val`, or `nbits` if there is none.
pub record IsNext (fb : Fb) (nbits start : ℕ) (val : Bool) (r : ℕ) : Type 0 where
  pub from : start ≤ r
  pub to : r ≤ nbits
  pub before : (j : ℕ) → start ≤ j → j < r → fb_get fb j ≡ not val
  pub here : r < nbits → fb_get fb r ≡ val

-- The bits that the search looks for.
wanted : Fb → ℕ → Bool → Group
wanted fb start val j = leb start j && (if val then fb_get fb j else not (fb_get fb j))

pub fb_get-group : (fb : Fb) (g b : ℕ) → b < 64 → fb_get fb (64 * g + b) ≡ group_at fb g b
unfolding fb_get
fb_get-group fb g b h =
    let q : (64 * g + b) / 64 ≡ g = omega arith in
    let r : (64 * g + b) % 64 ≡ b = omega arith in rw (q, r)

view-wanted :
    (fb : Fb) (start : ℕ) (val : Bool) (g b : ℕ)
    → b < 64
    → start ≤ 64 * g + b
    → view_group val (group_at fb g) b ≡ wanted fb start val (64 * g + b)
unfolding wanted
view-wanted fb start true g b h p = ground (arith, fb_get-group fb g b h)
view-wanted fb start false g b h p = ground (arith, fb_get-group fb g b h)

first-wanted :
    (fb : Fb) (start : ℕ) (val : Bool) (b : ℕ)
    → b < 64
    → group_and (view_group val (group_at fb (start / 64))) (group_not (low_mask (start % 64))) b
      ≡ wanted fb start val (64 * (start / 64) + b)
unfolding wanted
first-wanted fb start true b h = ground (arith, fb_get-group fb (start / 64) b h)
first-wanted fb start false b h = ground (arith, fb_get-group fb (start / 64) b h)

other_value :
    (fb : Fb) (start : ℕ) (val : Bool) (j : ℕ)
    → start ≤ j
    → wanted fb start val j ≡ false
    → fb_get fb j ≡ not val
unfolding wanted
other_value fb start true j p e = ground arith
other_value fb start false j p e = ground arith

is_wanted :
    (fb : Fb) (start : ℕ) (val : Bool) (j : ℕ)
    → wanted fb start val j ≡ true
    → (start ≤ j) × (fb_get fb j ≡ val)
unfolding wanted
is_wanted fb start true j e = ground arith
is_wanted fb start false j e = ground arith

module _ (fb : Fb) (nbits start : ℕ) (lt : start < nbits) (clean : IsClean fb nbits) where
  clipped_result :
      (val : Bool) (hi : ℕ) (o : Option ℕ)
      → nbits ≤ hi
      → FoundUp (wanted fb start val) (64 * (start / 64)) hi o
      → IsNext fb nbits start val
          (elim o [ none ↦ nbits | some pos ↦ if not val && ltb nbits pos then nbits else pos ])
  clipped_result val hi none top f = record {
    from = omega arith;
    to = omega arith;
    before = λ j p q. other_value fb start val j p (f j (omega arith) (omega arith));
    here = λ p. absurd (omega arith);
  }
  clipped_result true hi (some pos) top (a, b, c, f) =
      let (from, is) = is_wanted fb start true pos c in
      let inside : pos < nbits = below clean pos is in
      record {
        from = from;
        to = omega arith;
        before = λ j p q. other_value fb start true j p (f j (omega arith) q);
        here = λ p. is;
      }
    where
      below : IsClean fb nbits → (pos : ℕ) → fb_get fb pos ≡ true → pos < nbits
      below clean pos is = elim (dec_lt pos nbits) [
        | yes p ↦ p
        | no p ↦ absurd (let e = clean pos (omega arith) in cc)
      ]
  clipped_result false hi (some pos) top (a, b, c, f) =
      let (from, is) = is_wanted fb start false pos c in
      elim (dec_lt nbits pos) [
        | yes p ↦ rw (lt→ltb nbits pos p) (record {
          from = omega arith;
          to = omega arith;
          before = λ j s q. other_value fb start false j s (f j (omega arith) (omega arith));
          here = λ s. absurd (omega arith);
        })
        | no p ↦ rw (le→ltb nbits pos (omega arith)) (record {
          from = from;
          to = omega arith;
          before = λ j s q. other_value fb start false j s (f j (omega arith) q);
          here = λ s. is;
        })
      ]

  -- For a start below `nbits` and a bitmap with no bit set at `nbits` or above: searching forward
  -- returns a position from the start on and up to `nbits`, no bit from the start up to it has the
  -- value asked for, and it has that value itself unless it is `nbits`.
  pub fb_find_forward-IsNext :
      (val : Bool) → IsNext fb nbits start val (fb_find_forward fb nbits start val)
  unfolding fb_find_forward
  fb_find_forward-IsNext val =
      let g = start / 64 in
      let hi = 64 * (g + (fb_ngroups nbits - g - 1) + 1) in
      clipped_result val hi _ (ground arith) (
        find_up_lem (fb_ngroups nbits - g - 1) fb val (wanted fb start val) _ g hi refl
          (first-wanted fb start val) (λ h b p q. view-wanted fb start val h b q (omega arith)))
