-- ===== src/Hpdata/Merge.antt =====
-- Freeing pages merges free ranges: `hpdata_unreserve` of src/hpdata.c keeps the longest free range.
use jemalloc.Base.{
  ℕ, ◌+◌, ◌-◌, ◌*◌, ◌≤◌, ◌<◌, ◌≡◌, ◌⊎◌, inl, inr, sym, subst, ap, ◌∙◌, arith, Bool, true, false,
  not, ◌&&◌, Option, none, some, ltb, if◌then◌else◌, dec_lt, dec_le, ℕ_discrete, lt→ltb, le→ltb,
  length, shr, sub64,
}
use jemalloc.Sc.Params.{lg_page}
use jemalloc.Fb.{Fb, fb_get, fb_init, fb_unset_range, fb_fls, fb_ffs, fb_urange_longest}
use jemalloc.Fb.Assign.{in_range, fb_get-unset_range}
use jemalloc.Fb.Clean.{length-unset_range, fb_get-init}
use jemalloc.Fb.Forward.{IsNext, fb_find_forward-IsNext}
use jemalloc.Fb.Backward.{IsPrev, fb_find_backward-IsPrev}
use jemalloc.Fb.Longest.{IsLongest, IsRun, fb_range_longest_impl-IsLongest}
use jemalloc.Hpdata.{Hpdata, hugepage_pages, hpdata_init, hpdata_unreserve}
use jemalloc.Hpdata.Counts.{pages_eq}
use jemalloc.Hpdata.Keep.{init-length}
use jemalloc.Hpdata.Carve.{groups-IsClean}

-- Two lengths that are the longest are the same.
pub IsLongest-unique :
    (fb : Fb) (nbits : ℕ) (val : Bool) (m n : ℕ)
    → IsLongest fb nbits val m
    → IsLongest fb nbits val n
    → m ≡ n
IsLongest-unique fb nbits val m n p q =
    let le = q.most p.place m p.reached.0 p.reached.1 in
    let ge = p.most q.place n q.reached.0 q.reached.1 in omega arith

pub urange-IsLongest :
    (fb : Fb)
    → 64 * length fb ≡ hugepage_pages
    → IsLongest fb hugepage_pages false (fb_urange_longest fb hugepage_pages)
unfolding fb_urange_longest
urange-IsLongest fb e =
    fb_range_longest_impl-IsLongest fb hugepage_pages false
      (groups-IsClean fb hugepage_pages (omega arith))

module _ (a freed : Fb) (start cnt : ℕ)
    (bits : (j : ℕ) → fb_get freed j ≡ (not (in_range start cnt j) && fb_get a j)) where
  bit-outside : (j : ℕ) → (j < start) ⊎ (start + cnt ≤ j) → fb_get freed j ≡ fb_get a j
  bit-outside j out = bits j ∙ outside out (fb_get a j)
    where
      outside : (j < start) ⊎ (start + cnt ≤ j) → (x : Bool) → (not (in_range start cnt j) && x) ≡ x
      outside out x = ground arith

  bit-still : (j : ℕ) → fb_get a j ≡ false → fb_get freed j ≡ false
  bit-still j e = bits j ∙ still (not (in_range start cnt j)) (fb_get a j) e
    where
      still : (m x : Bool) → x ≡ false → (m && x) ≡ false
      still m x e = ground arith

  bit-inside : (j : ℕ) → start ≤ j → j < start + cnt → fb_get freed j ≡ false
  bit-inside j p q = bits j ∙ inside (fb_get a j)
    where
      inside : (x : Bool) → (not (in_range start cnt j) && x) ≡ false
      inside x = ground arith

  -- The merged free range is from `nb` to `ne`; no other range has changed.
  merge-IsLongest :
      (nbits nb ne old : ℕ)
      → IsLongest a nbits false old
      → nb ≤ start
      → start + cnt ≤ ne
      → ne ≤ nbits
      → IsRun freed false nb (ne - nb)
      → (0 < nb → fb_get freed (nb - 1) ≡ true)
      → (ne < nbits → fb_get freed ne ≡ true)
      → IsLongest freed nbits false (if ltb old (ne - nb) then ne - nb else old)
  merge-IsLongest nbits nb ne old long lo hi top merged left right = elim (dec_lt old (ne - nb)) [
    | yes longer ↦ rw (lt→ltb old (ne - nb) longer) record {
      most = λ c m p run. omega (arith, bound c m p run);
      place = nb;
      reached = (omega arith, merged);
    }
    | no shorter ↦ rw (le→ltb old (ne - nb) (omega arith)) record {
      most = λ c m p run. omega (arith, bound c m p run);
      place = long.place;
      reached = (long.reached.0, λ j p q. bit-still j (long.reached.1 j p q));
    }
  ]
    where
      clash : (j : ℕ) → fb_get freed j ≡ true → fb_get freed j ≡ false → 0 < 0
      clash j p q = absurd (let r = p in let s = q in cc)

      bound : (c m : ℕ) → c + m ≤ nbits → IsRun freed false c m → (m ≤ old) ⊎ (m ≤ ne - nb)
      bound c m p run = elim (dec_le ne c) [
        | yes above ↦
            inl (long.most c m p (λ j x y. sym (bit-outside j (inr (omega arith))) ∙ run j x y))
        | no below ↦ elim (dec_lt ne (c + m)) [
          | yes across ↦
              absurd (omega (arith, clash ne (right (omega arith)) (run ne (omega arith) across)))
          | no within ↦ elim (dec_le nb c) [
            | yes inside ↦ inr (omega arith)
            | no before ↦ elim (dec_lt (nb - 1) (c + m)) [
              | yes touches ↦ absurd (
                  omega (
                    arith,
                    clash (nb - 1) (left (omega arith)) (run (nb - 1) (omega arith) touches),
                  ))
              | no apart ↦
                  inl
                    (long.most c m p (λ j x y. sym (bit-outside j (inl (omega arith))) ∙ run j x y))
            ]
          ]
        ]
      ]

-- Where the merged range begins: after the last active page up to `begin`.
unfoldable pub range_begin : Option ℕ → ℕ
range_begin o = elim o [ none ↦ 0 | some last ↦ last + 1 ]

range_begin-before :
    (fb : Fb) (begin : ℕ) (o : Option ℕ)
    → IsPrev fb begin true o
    → fb_get fb begin ≡ false
    → (range_begin o ≤ begin)
      × ((j : ℕ) → range_begin o ≤ j → j ≤ begin → fb_get fb j ≡ false)
      × (0 < range_begin o → fb_get fb (range_begin o - 1) ≡ true)
unfolding range_begin
range_begin-before fb begin none all free =
    (omega arith, (λ j p q. all j q), (λ p. absurd (omega arith)))
range_begin-before fb begin (some r) (le, is, above) free = elim (ℕ_discrete r begin) [
  | yes e ↦ absurd (let bad : fb_get fb begin ≡ true = ap (fb_get fb) (sym e) ∙ is in cc)
  | no n ↦
      let at : r + 1 - 1 ≡ r = omega arith in
      (omega arith, (λ j p q. above j (omega arith) q), (λ p. ap (fb_get fb) at ∙ is))
]

range_end-after :
    (fb : Fb) (nbits last ne : ℕ)
    → last < nbits
    → IsNext fb nbits last true ne
    → fb_get fb last ≡ false
    → last < ne
range_end-after fb nbits last ne h next free = elim (ℕ_discrete last ne) [
  | yes e ↦
      absurd (let bad : fb_get fb last ≡ true = ap (fb_get fb) e ∙ next.here (omega arith) in cc)
  | no n ↦ omega (arith, next.from)
]

-- The free range from `nb` to `ne` around the pages that were freed.
pub record IsMerged (freed : Fb) (begin n nb ne : ℕ) : Type 0 where
  pub lo : nb ≤ begin
  pub hi : begin + n ≤ ne
  pub top : ne ≤ hugepage_pages
  pub run : IsRun freed false nb (ne - nb)
  pub left : 0 < nb → fb_get freed (nb - 1) ≡ true
  pub right : ne < hugepage_pages → fb_get freed ne ≡ true

-- The search of `hpdata_unreserve` finds it.
pub unset-IsMerged :
    (a : Fb) (begin n : ℕ)
    → 64 * length a ≡ hugepage_pages
    → 0 < n
    → begin + n ≤ hugepage_pages
    → IsMerged
        (fb_unset_range a begin n)
        begin
        n
        (range_begin (fb_fls (fb_unset_range a begin n) begin))
        (fb_ffs (fb_unset_range a begin n) hugepage_pages (begin + n - 1))
unfolding fb_fls fb_ffs
unset-IsMerged a begin n e some_pages fits =
    let freed = fb_unset_range a begin n in
    let freed_length : 64 * length freed ≡ hugepage_pages =
      omega (arith, e, length-unset_range a begin n) in
    let bits : (j : ℕ) → fb_get freed j ≡ (not (in_range begin n j) && fb_get a j) =
      λ j. fb_get-unset_range a begin n j some_pages (omega (arith, e)) in
    let (nb-le, nb-free, nb-left) =
      range_begin-before freed begin (fb_fls freed begin) (fb_find_backward-IsPrev freed begin true)
        (bit-inside a freed begin n bits begin (omega arith) (omega arith)) in
    let last = begin + n - 1 in
    let next =
      fb_find_forward-IsNext freed hugepage_pages last (omega arith)
        (groups-IsClean freed hugepage_pages (omega (arith, freed_length))) true in
    let ne = fb_ffs freed hugepage_pages last in
    let after : last < ne =
      range_end-after freed hugepage_pages last ne (omega arith) next
        (bit-inside a freed begin n bits last (omega arith) (omega arith)) in
    record {
      lo = nb-le;
      hi = omega arith;
      top = next.to;
      run = λ j p q. elim (dec_le j begin) [
        | yes low ↦ nb-free j p low
        | no high ↦ elim (dec_lt j (begin + n)) [
          | yes mid ↦ bit-inside a freed begin n bits j (omega arith) mid
          | no far ↦ next.before j (omega arith) (omega (arith, next.to))
        ]
      ];
      left = nb-left;
      right = next.here;
    }

-- For a hugepage whose bitmap has a bit for each page, whose longest free range is right, and a
-- range of its pages, at least one: after `hpdata_unreserve` the longest free range is again what
-- `fb_urange_longest` computes from the active pages.
pub unreserve-longest :
    (h : Hpdata) (addr sz begin : ℕ)
    → 64 * length h.active_pages ≡ hugepage_pages
    → h.h_longest_free_range ≡ fb_urange_longest h.active_pages hugepage_pages
    → begin ≡ shr (sub64 addr h.h_address) lg_page
    → 0 < shr sz lg_page
    → begin + shr sz lg_page ≤ hugepage_pages
    → (hpdata_unreserve h addr sz).h_longest_free_range
      ≡ fb_urange_longest (hpdata_unreserve h addr sz).active_pages hugepage_pages
unfolding hpdata_unreserve range_begin
unreserve-longest h addr sz begin e right_longest at some_pages fits =
    let n = shr sz lg_page in
    let a = h.active_pages in
    let freed = fb_unset_range a begin n in
    let bits : (j : ℕ) → fb_get freed j ≡ (not (in_range begin n j) && fb_get a j) =
      λ j. fb_get-unset_range a begin n j some_pages (omega (arith, e)) in
    let nb = range_begin (fb_fls freed begin) in
    let ne = fb_ffs freed hugepage_pages (begin + n - 1) in
    let merged = unset-IsMerged a begin n e some_pages fits in
    let length_eq : sub64 ne nb ≡ ne - nb = omega (arith, merged.top, merged.lo, pages_eq) in
    let old = h.h_longest_free_range in
    let long : IsLongest a hugepage_pages false old =
      subst (λ l. IsLongest a hugepage_pages false l) (sym right_longest) (urange-IsLongest a e) in
    rw (sym at, length_eq)
      (IsLongest-unique freed hugepage_pages false _ _
        (merge-IsLongest a freed begin n bits hugepage_pages nb ne old long merged.lo merged.hi
          merged.top merged.run merged.left merged.right)
        (urange-IsLongest freed (omega (arith, e, length-unset_range a begin n))))

-- The longest free range of `hpdata_init`, every page of it, is what `fb_urange_longest` computes
-- from the active pages.
pub init-longest :
    (h : Hpdata) (addr age : ℕ) (is_huge : Bool)
    → (hpdata_init h addr age is_huge).h_longest_free_range
      ≡ fb_urange_longest (hpdata_init h addr age is_huge).active_pages hugepage_pages
unfolding hpdata_init
init-longest h addr age is_huge =
    IsLongest-unique (fb_init hugepage_pages) hugepage_pages false _ _
      record {
        most = λ b len p run. omega arith;
        place = 0;
        reached = (omega arith, λ j p q. fb_get-init hugepage_pages j);
      }
      (urange-IsLongest (fb_init hugepage_pages) init-length)
