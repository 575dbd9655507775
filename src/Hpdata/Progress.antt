-- ===== src/Hpdata/Progress.antt =====
-- What holds of the active pages while a batch of offsets is reserved.
use jemalloc.Base.{
  ℕ, ◌+◌, ◌-◌, ◌≤◌, ◌<◌, ◌≡◌, ◌⊎◌, inl, inr, refl, sym, ap, ◌∙◌, arith, Bool, true, false, ◌||◌,
  max, dec_lt, dec_le,
}
use jemalloc.Fb.{Fb, fb_get}
use jemalloc.Fb.Range.{IsRange}
use jemalloc.Fb.Assign.{in_range}
use jemalloc.Hpdata.{hugepage_pages}

-- The bits from `b` on, `len` of them, are not set.
abbrev pub IsUnset : (ℕ → Bool) → ℕ → ℕ → Type 0
IsUnset f b len = (j : ℕ) → b ≤ j → j < b + len → f j ≡ false

-- No unset run that begins below `pos` is longer than `longest`.
abbrev pub IsCovered : (ℕ → Bool) → ℕ → ℕ → Type 0
IsCovered f pos longest = (c n : ℕ) → c < pos → c + n ≤ hugepage_pages → IsUnset f c n → n ≤ longest

-- The bits `now` after some reservations, against those `before` them: `rem` free pages are left from
-- `pos` on, nothing behind them has changed, and the longest free range below `pos` is `longest`.
pub record At (before now : ℕ → Bool) (pos rem longest : ℕ) : Type 0 where
  pub within : pos + rem ≤ hugepage_pages
  pub free : IsUnset now pos rem
  pub edge : (pos + rem ≡ 0) ⊎ (pos + rem < hugepage_pages → now (pos + rem) ≡ true)
  pub left : 0 < pos → now (pos - 1) ≡ true
  pub covered : IsCovered now pos longest
  pub reached : (place : ℕ) × (place + longest ≤ pos) × IsUnset now place longest
  pub same : (j : ℕ) → pos ≤ j → now j ≡ before j
  pub less : (j : ℕ) → now j ≡ false → before j ≡ false

pub clash : {x : Bool} {A : Type 0} → x ≡ true → x ≡ false → A
clash p q = absurd (ground arith)

pub unchanged_At : (f : ℕ → Bool) → At f f 0 0 0
unchanged_At f = record {
  within = omega arith;
  free = λ j p q. absurd (omega arith);
  edge = inl (omega arith);
  left = λ p. absurd (omega arith);
  covered = λ c n p q r. absurd (omega arith);
  reached = (0, omega arith, λ j p q. absurd (omega arith));
  same = λ j p. refl;
  less = λ j p. p;
}

-- With the range that is left, all runs that begin before its end.
pub At-end :
    {before now : ℕ → Bool} {pos rem longest : ℕ}
    → At before now pos rem longest
    → IsCovered now (pos + rem) (max longest rem)
      × ((place : ℕ) × (place + max longest rem ≤ pos + rem) × IsUnset now place (max longest rem))
At-end {before} {now} {pos} {rem} {longest} a = (covered, reached)
  where
    covered : IsCovered now (pos + rem) (max longest rem)
    covered c n h fits run = elim (dec_lt c pos) [
      | yes early ↦ omega (arith, a.covered c n early fits run)
      | no late ↦ elim (dec_le (c + n) (pos + rem)) [
        | yes fit ↦ omega arith
        | no across ↦ elim a.edge [
          | inl zero_end ↦ absurd (omega arith)
          | inr set ↦ clash (set (omega arith)) (run (pos + rem) (omega arith) (omega arith))
        ]
      ]
    ]

    reached :
        (place : ℕ) × (place + max longest rem ≤ pos + rem) × IsUnset now place (max longest rem)
    reached = elim (dec_lt longest rem) [
      | yes more ↦ let e : max longest rem ≡ rem = omega arith in rw e (pos, omega arith, a.free)
      | no less ↦
          let e : max longest rem ≡ longest = omega arith in
          rw e (a.reached.0, omega (arith, a.reached.1), a.reached.2)
    ]

-- Passing on to the next free range.
pub At-next :
    (fb : Fb) {now : ℕ → Bool} {pos rem longest : ℕ} (b len : ℕ)
    → At (fb_get fb) now pos rem longest
    → IsRange fb hugepage_pages (pos + rem) false b len
    → At (fb_get fb) now b len (max longest rem)
At-next fb {now} {pos} {rem} {longest} b len a r = record {
  within = r.to;
  free = λ j p q. a.same j (omega (arith, r.from)) ∙ r.inside j p q;
  edge = inr (λ p. a.same (b + len) (omega (arith, r.from)) ∙ r.after p);
  left = left;
  covered = covered;
  reached = reached;
  same = λ j p. a.same j (omega (arith, r.from));
  less = a.less;
}
  where
    left : 0 < b → now (b - 1) ≡ true
    left h = elim (dec_lt (pos + rem) b) [
      | yes apart ↦ a.same (b - 1) (omega arith) ∙ r.before (b - 1) (omega arith) (omega arith)
      | no joined ↦ elim a.edge [
        | inl zero_end ↦ absurd (omega (arith, r.from))
        | inr set ↦
            let e : pos + rem ≡ b = omega (arith, r.from) in
            clash (ap now (sym e) ∙ set (omega (arith, r.to, r.nonempty)))
              (a.same b (omega arith) ∙ r.inside b (omega arith) (omega (arith, r.nonempty)))
      ]
    ]

    covered : IsCovered now b (max longest rem)
    covered c n h fits run = elim (dec_lt c (pos + rem)) [
      | yes early ↦ (At-end a).0 c n early fits run
      | no late ↦ elim (dec_le n 0) [
        | yes nothing ↦ omega arith
        | no something ↦
            clash (a.same c (omega arith) ∙ r.before c (omega arith) h)
              (run c (omega arith) (omega arith))
      ]
    ]

    reached : (place : ℕ) × (place + max longest rem ≤ b) × IsUnset now place (max longest rem)
    reached = let (place, le, run) = (At-end a).1 in (place, omega (arith, r.from), run)

-- Reserving `npages` pages at `pos`.
pub At-here :
    {before now now' : ℕ → Bool} {pos rem longest : ℕ} (npages : ℕ)
    → 0 < npages
    → npages ≤ rem
    → ((j : ℕ) → now' j ≡ (in_range pos npages j || now j))
    → At before now pos rem longest
    → At before now' (pos + npages) (rem - npages) longest
At-here {before} {now} {now'} {pos} {rem} {longest} npages some_pages fits bits a = record {
  within = omega (arith, a.within);
  free = λ j p q. outside j (inr p) ∙ a.free j (omega arith) (omega arith);
  edge = inr (λ p. elim a.edge [
    | inl zero_end ↦ absurd (omega arith)
    | inr set ↦
        let e : pos + npages + (rem - npages) ≡ pos + rem = omega arith in
        ap now' e ∙ outside (pos + rem) (inr (omega arith)) ∙ set (omega arith)
  ]);
  left = λ p. inside (pos + npages - 1) (omega arith) (omega arith);
  covered = λ c n h end run. elim (dec_lt c pos) [
    | yes early ↦ a.covered c n early end (λ j p q. was_unset j (run j p q))
    | no late ↦ elim (dec_le n 0) [
      | yes nothing ↦ omega arith
      | no something ↦ clash (inside c (omega arith) h) (run c (omega arith) (omega arith))
    ]
  ];
  reached = (
    a.reached.0,
    omega (arith, a.reached.1),
    λ j p q. outside j (inl (omega (arith, a.reached.1))) ∙ a.reached.2 j p q,
  );
  same = λ j p. outside j (inr p) ∙ a.same j (omega arith);
  less = λ j p. a.less j (was_unset j p);
}
  where
    outside : (j : ℕ) → (j < pos) ⊎ (pos + npages ≤ j) → now' j ≡ now j
    outside j out = bits j ∙ drop_range j out (now j)
      where
        drop_range :
            (j : ℕ) → (j < pos) ⊎ (pos + npages ≤ j) → (x : Bool) → (in_range pos npages j || x) ≡ x
        drop_range j out x = ground arith

    inside : (j : ℕ) → pos ≤ j → j < pos + npages → now' j ≡ true
    inside j p q = bits j ∙ keep_range (now j)
      where
        keep_range : (x : Bool) → (in_range pos npages j || x) ≡ true
        keep_range x = ground arith

    was_unset : (j : ℕ) → now' j ≡ false → now j ≡ false
    was_unset j p = second (in_range pos npages j) (now j) (sym (bits j) ∙ p)
      where
        second : (r x : Bool) → (r || x) ≡ false → x ≡ false
        second r x e = ground arith
