-- ===== src/Hpdata/Post.antt =====
-- The search of `hpdata_post_reserve_alloc_offsets` in src/hpdata.c.
use jemalloc.Base.{
  ℕ, zero, suc, ◌+◌, ◌-◌, ◌≤◌, ◌<◌, ◌≡◌, inl, inr, subst, arith, false, ◌&&◌, Option, none, some,
  ltb, ◌==◌, if◌then◌else◌, dec_lt, ℕ_discrete, lt→ltb, le→ltb, eq→==, neq→==, Bool-cases,
}
use jemalloc.Fb.{Fb, fb_urange_iter}
use jemalloc.Fb.Forward.{IsClean}
use jemalloc.Fb.Range.{fb_iter_range_forward-IsFirstRange}
use jemalloc.Fb.Longest.{
  IsLongest, IsRun, Covered, Reached, next-Covered, next-Reached, no_more_ranges, none_or_some,
}
use jemalloc.Hpdata.{hugepage_pages}
use jemalloc.Hpdata.Offsets.{longest_rest}

-- The length found, where `none` stands for the old one.
abbrev pub length_found : ℕ → Option ℕ → ℕ
length_found prev none = prev
length_found prev (some longest) = longest

module _ (fb : Fb) (prev : ℕ)
    (most : (c n : ℕ) → c + n ≤ hugepage_pages → IsRun fb false c n → n ≤ prev) where
  longest_rest-IsLongest :
      (fuel start cur : ℕ)
      → IsClean fb hugepage_pages
      → start < hugepage_pages
      → hugepage_pages ≤ start + fuel
      → Covered fb hugepage_pages false start cur
      → Reached fb hugepage_pages false cur
      → IsLongest fb hugepage_pages false (length_found prev (longest_rest fuel fb prev start cur))
  unfolding longest_rest fb_urange_iter
  longest_rest-IsLongest zero start cur clean below enough known old = absurd (omega arith)
  longest_rest-IsLongest (suc fuel) start cur clean below enough known old =
      elim (none_or_some fb hugepage_pages false start _
        (fb_iter_range_forward-IsFirstRange fb hugepage_pages start below clean false)) [
          | inl (e, others) ↦
              rw (e, longest_rest)
                (no_more_ranges fb hugepage_pages false start cur known others old)
          | inr (b, len, e, r) ↦
              let next : ℕ = (if ltb cur len then len else cur) in
              let known' = next-Covered fb hugepage_pages false start b len cur r known in
              let old' = next-Reached fb hugepage_pages false start b len cur r old in
              elim (Bool-cases (ltb cur len && len == prev)) [
                | inl again ↦
                    let same : len ≡ prev = ground arith in
                    rw (e, longest_rest, again)
                      record {
                        most = most;
                        place = b;
                        reached =
                            subst (λ l. (b + l ≤ hugepage_pages) × IsRun fb false b l) same
                              (r.to, r.inside);
                      }
                | inr other ↦ elim (ℕ_discrete (b + len) hugepage_pages) [
                  | yes over ↦
                      rw (e, longest_rest, other, eq→== _ _ over)
                        (no_more_ranges fb hugepage_pages false (b + len) next known'
                          (λ c p q. absurd (omega arith)) old')
                  | no on ↦
                      rw (e, longest_rest, other, neq→== _ _ on)
                        (longest_rest-IsLongest fuel (b + len) next clean (omega (arith, r.to))
                          (omega (arith, r.from, r.nonempty)) known' old')
                ]
              ]
        ]

  -- Where the rest is too short for a longer range, it is not searched.
  pub post-IsLongest :
      (start cur : ℕ)
      → IsClean fb hugepage_pages
      → Covered fb hugepage_pages false start cur
      → Reached fb hugepage_pages false cur
      → IsLongest fb hugepage_pages false (
          length_found prev (
            if ltb cur (hugepage_pages - start)
            then longest_rest hugepage_pages fb prev start cur
            else some cur))
  post-IsLongest start cur clean known old = elim (dec_lt cur (hugepage_pages - start)) [
    | yes room ↦ rw (lt→ltb _ _ room) (
        longest_rest-IsLongest hugepage_pages start cur clean (omega arith) (omega arith) known old)
    | no short ↦ rw (le→ltb cur (hugepage_pages - start) (omega arith)) record {
      most = λ c n p run. elim (dec_lt c start) [
        | yes early ↦ known c n early p run
        | no late ↦ omega arith
      ];
      place = old.0;
      reached = (old.1, old.2);
    }
  ]
