-- ===== src/Fb/Longest.antt =====
-- `fb_range_longest_impl`: the longest range of bits of one value.
use jemalloc.Base.{
  ℕ, zero, suc, ◌+◌, ◌≤◌, ◌<◌, ◌≡◌, ◌⊎◌, inl, inr, refl, arith, Bool, not, Option, none, some, ltb,
  if◌then◌else◌, dec_lt, dec_le, lt→ltb, le→ltb,
}
use jemalloc.Fb.{Fb, fb_get, longest_from, fb_range_longest_impl}
use jemalloc.Fb.Forward.{IsClean}
use jemalloc.Fb.Range.{IsRange, IsFirstRange, fb_iter_range_forward-IsFirstRange, both_values}

-- The `len` bits from `b` on all have the value.
abbrev pub IsRun : Fb → Bool → ℕ → ℕ → Type 0
IsRun fb val b len = (j : ℕ) → b ≤ j → j < b + len → fb_get fb j ≡ val

-- No run of the value below `nbits` is longer than `longest`, and one is that long.
pub record IsLongest (fb : Fb) (nbits : ℕ) (val : Bool) (longest : ℕ) : Type 0 where
  pub most : (b len : ℕ) → b + len ≤ nbits → IsRun fb val b len → len ≤ longest
  pub place : ℕ
  pub reached : (place + longest ≤ nbits) × IsRun fb val place longest

module _ (fb : Fb) (nbits : ℕ) (val : Bool) where
  -- What the loop knows at `begin`: no run that begins below it is longer than `cur`.
  abbrev pub Covered : ℕ → ℕ → Type 0
  Covered begin cur = (b len : ℕ) → b < begin → b + len ≤ nbits → IsRun fb val b len → len ≤ cur

  abbrev pub Reached : ℕ → Type 0
  Reached cur = (place : ℕ) × (place + cur ≤ nbits) × IsRun fb val place cur

  pub next-Covered :
      (begin b len cur : ℕ)
      → IsRange fb nbits begin val b len
      → Covered begin cur
      → Covered (b + len) (if ltb cur len then len else cur)
  next-Covered begin b len cur r known c n below fits run = elim (dec_lt c begin) [
    | yes early ↦ ground (arith, known c n early fits run)
    | no late ↦ elim (dec_le n 0) [
      | yes nothing ↦ omega arith
      | no something ↦ elim (dec_lt c b) [
        | yes between ↦ absurd (
            both_values val (fb_get fb c) (run c (omega arith) (omega arith))
              (r.before c (omega arith) between))
        | no inside ↦ elim (dec_le (c + n) (b + len)) [
          | yes within ↦ let short : n ≤ len = omega arith in ground arith
          | no across ↦ absurd (
              both_values val (fb_get fb (b + len)) (run (b + len) (omega arith) (omega arith))
                (r.after (omega arith)))
        ]
      ]
    ]
  ]

  pub next-Reached :
      (begin b len cur : ℕ)
      → IsRange fb nbits begin val b len
      → Reached cur
      → Reached (if ltb cur len then len else cur)
  next-Reached begin b len cur r old = elim (dec_lt cur len) [
    | yes longer ↦ rw (lt→ltb cur len longer) (b, r.to, r.inside)
    | no not_longer ↦ rw (le→ltb cur len (omega arith)) old
  ]

  pub no_more_ranges :
      (begin cur : ℕ)
      → Covered begin cur
      → ((c : ℕ) → begin ≤ c → c < nbits → fb_get fb c ≡ not val)
      → Reached cur
      → IsLongest fb nbits val cur
  no_more_ranges begin cur known others (place, fits, run) = record {
    most = λ c n p all. elim (dec_lt c begin) [
      | yes early ↦ known c n early p all
      | no late ↦ elim (dec_le n 0) [
        | yes nothing ↦ omega arith
        | no something ↦ absurd (
            both_values val (fb_get fb c) (all c (omega arith) (omega arith))
              (others c (omega arith) (omega arith)))
      ]
    ];
    place = place;
    reached = (fits, run);
  }

  pub none_or_some :
      (start : ℕ) (o : Option (ℕ × ℕ))
      → IsFirstRange fb nbits start val o
      → ((o ≡ none) × IsFirstRange fb nbits start val none)
        ⊎ ((b : ℕ) × (len : ℕ) × (o ≡ some (b, len)) × IsRange fb nbits start val b len)
  none_or_some start none all = inl (refl, all)
  none_or_some start (some (b, len)) r = inr (b, len, refl, r)

  longest_from-IsLongest :
      (fuel begin cur : ℕ)
      → IsClean fb nbits
      → nbits ≤ begin + fuel
      → Covered begin cur
      → Reached cur
      → IsLongest fb nbits val (longest_from fuel fb nbits val begin cur)
  unfolding longest_from
  longest_from-IsLongest zero begin cur clean enough known old =
      no_more_ranges begin cur known (λ c p q. absurd (omega arith)) old
  longest_from-IsLongest (suc fuel) begin cur clean enough known old = elim (dec_lt begin nbits) [
    | no over ↦
        rw (le→ltb begin nbits (omega arith))
          (no_more_ranges begin cur known (λ c p q. absurd (omega arith)) old)
    | yes below ↦
        elim (none_or_some begin _
          (fb_iter_range_forward-IsFirstRange fb nbits begin below clean val)) [
            | inl (e, others) ↦
                rw (lt→ltb begin nbits below, e, longest_from)
                  (no_more_ranges begin cur known others old)
            | inr (b, len, e, r) ↦
                rw (lt→ltb begin nbits below, e, longest_from)
                  (longest_from-IsLongest fuel (b + len) (if ltb cur len then len else cur) clean
                    (omega (arith, r.from, r.nonempty)) (next-Covered begin b len cur r known)
                    (next-Reached begin b len cur r old))
          ]
  ]

  -- For a bitmap with no bit set at `nbits` or above: `fb_range_longest_impl` returns the length of
  -- a longest run of bits of the value below `nbits`, 0 if there are none; so its loop, on one round
  -- per bit, comes to its end.
  pub fb_range_longest_impl-IsLongest :
      IsClean fb nbits → IsLongest fb nbits val (fb_range_longest_impl fb nbits val)
  unfolding fb_range_longest_impl
  fb_range_longest_impl-IsLongest clean =
      longest_from-IsLongest nbits 0 0 clean (omega arith) (λ c n p. absurd (omega arith))
        (0, omega arith, λ j p q. absurd (omega arith))
