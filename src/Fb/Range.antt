-- ===== src/Fb/Range.antt =====
-- The ranges that the iteration upwards finds.
use jemalloc.Base.{
  ℕ, ◌+◌, ◌-◌, ◌≤◌, ◌<◌, ◌≡◌, ◌≢◌, eq→==, neq→==, ◌∙◌, arith, Bool, not, Option, none, some,
  ℕ_discrete,
}
use jemalloc.Fb.{Fb, fb_get, fb_find_forward, fb_iter_range_forward}
use jemalloc.Fb.Forward.{IsClean, IsNext, fb_find_forward-IsNext}

-- The first range of bits equal to `val` from `start` on, or that there is none.
pub record IsRange (fb : Fb) (nbits start : ℕ) (val : Bool) (b len : ℕ) : Type 0 where
  pub from : start ≤ b
  pub nonempty : 0 < len
  pub to : b + len ≤ nbits
  pub before : (j : ℕ) → start ≤ j → j < b → fb_get fb j ≡ not val
  pub inside : (j : ℕ) → b ≤ j → j < b + len → fb_get fb j ≡ val
  pub after : b + len < nbits → fb_get fb (b + len) ≡ not val

abbrev pub IsFirstRange : Fb → ℕ → ℕ → Bool → Option (ℕ × ℕ) → Type 0
IsFirstRange fb nbits start val none = (j : ℕ) → start ≤ j → j < nbits → fb_get fb j ≡ not val
IsFirstRange fb nbits start val (some (b, len)) = IsRange fb nbits start val b len

double_negation : (val : Bool) → not (not val) ≡ val
double_negation val = ground arith

pub both_values : (val x : Bool) → x ≡ val → x ≢ not val
both_values val x p q = ground arith

module _ (fb : Fb) (nbits start : ℕ) (below : start < nbits) (clean : IsClean fb nbits) where
  found-IsRange :
      (val : Bool) (b e : ℕ)
      → b < nbits
      → IsNext fb nbits start val b
      → IsNext fb nbits b (not val) e
      → IsRange fb nbits start val b (e - b)
  found-IsRange val b e lt p q = record {
    from = p.from;
    nonempty = elim (ℕ_discrete b e) [
      | yes same ↦
          absurd (both_values val (fb_get fb b) (p.here lt) (rw same (q.here (omega arith))))
      | no apart ↦ omega (arith, q.from)
    ];
    to = omega (arith, q.from, q.to);
    before = p.before;
    inside = λ j x y. q.before j x (omega (arith, q.from)) ∙ double_negation val;
    after = let s : b + (e - b) ≡ e = omega (arith, q.from) in rw s q.here;
  }

  -- For a start below `nbits` and a bitmap with no bit set at `nbits` or above: `fb_iter_range_impl`
  -- going forward returns the first maximal range of bits of the value asked for, not empty and
  -- clipped at the start and at `nbits`, or there is no such bit from the start on.
  pub fb_iter_range_forward-IsFirstRange :
      (val : Bool) → IsFirstRange fb nbits start val (fb_iter_range_forward fb nbits start val)
  unfolding fb_iter_range_forward
  fb_iter_range_forward-IsFirstRange val =
      let b = fb_find_forward fb nbits start val in
      let p : IsNext fb nbits start val b = fb_find_forward-IsNext fb nbits start below clean val in
      elim (ℕ_discrete b nbits) [
        | yes e ↦ rw (eq→== b nbits e) (λ j x y. p.before j x (omega arith))
        | no n ↦
            let lt : b < nbits = omega (arith, p.to) in
            rw (neq→== b nbits n)
              (found-IsRange val b _ lt p (fb_find_forward-IsNext fb nbits b lt clean (not val)))
      ]
