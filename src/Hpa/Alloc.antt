-- ===== src/Hpa/Alloc.antt =====
-- A batch in `hpa_try_alloc_from_one_ps` of src/hpa.c as a whole: the offsets, the loop over them with its
-- failures, and the longest free range afterwards.
use jemalloc.Base.{
  ℕ, ◌+◌, ◌-◌, ◌*◌, ◌^◌, ◌≤◌, ◌<◌, ◌≡◌, ◌⊎◌, inl, inr, refl, sym, subst, ap, ◌∙◌, arith, Bool, true,
  false, Option, none, some, List, [], ◌∷◌, max, length, take, shr, sub64, lt→ltb, le→ltb, ltb,
  if◌then◌else◌, dec_lt,
}
use jemalloc.Sc.Params.{lg_page}
use jemalloc.Fb.{fb_get}
use jemalloc.Fb.Longest.{IsRun, IsLongest}
use jemalloc.Hpdata.{Hpdata, hugepage_pages, hpdata_consistent, hpdata_empty}
use jemalloc.Hpdata.Offsets.{
  AllocOffset, hpdata_find_alloc_offsets, hpdata_post_reserve_alloc_offsets, last_offset,
  longest_rest, max_len_before,
}
use jemalloc.Hpdata.Counts.{same-IsCounted, IsCounted, pages_eq}
use jemalloc.Hpdata.Carve.{groups-IsClean, NoRoom, find_alloc_offsets-IsFinding}
use jemalloc.Hpdata.Merge.{IsLongest-unique, urange-IsLongest}
use jemalloc.Hpdata.Consistent.{counted-consistent, consistent-longest, flags_agree}
use jemalloc.Hpdata.Trace.{Trace, find_alloc_offsets-Trace}
use jemalloc.Hpdata.Progress.{IsUnset, unchanged_At, At-end}
use jemalloc.Hpdata.Post.{length_found, post-IsLongest}
use jemalloc.Hpa.{try_alloc_from, alloc_at_offsets}
use jemalloc.Hpa.Undo.{Keeps}
use jemalloc.Hpa.Taken.{Finish, IsBatch}
use jemalloc.Hpa.Batch.{all_taken, try_alloc_from-IsBatch}

abbrev set_longest : Hpdata → ℕ → Hpdata
set_longest h longest = record h { h_longest_free_range = longest }

-- The range length that is written after the offsets.
abbrev longest_after : Hpdata → ℕ → List AllocOffset → ℕ
longest_after h npages [] = h.h_longest_free_range
longest_after h npages (o ∷ os) =
    let l = last_offset o os in
    let start = l.index + l.len_before in
    let cur = max l.longest_len (sub64 l.len_before npages) in
    if ltb (max_len_before o.len_before os) h.h_longest_free_range
    then h.h_longest_free_range
    else length_found h.h_longest_free_range (
        if ltb cur (hugepage_pages - start)
        then longest_rest hugepage_pages h.active_pages h.h_longest_free_range start cur
        else some cur)

post_sets :
    (h : Hpdata) (sz : ℕ) (os : List AllocOffset)
    → hpdata_post_reserve_alloc_offsets h sz os
      ≡ set_longest h (longest_after h (shr sz lg_page) os)
unfolding hpdata_post_reserve_alloc_offsets
post_sets h sz [] = refl
post_sets h sz (o ∷ os) = writes (ltb (max_len_before o.len_before os) h.h_longest_free_range) _
  where
    writes :
        (b : Bool) (found : Option ℕ)
        → (if b then h else elim found [ none ↦ h | some longest ↦ set_longest h longest ])
          ≡ set_longest h
              (if b then h.h_longest_free_range else length_found h.h_longest_free_range found)
    writes true found = refl
    writes false none = refl
    writes false (some longest) = refl

set_longest-IsCounted : (h : Hpdata) (longest : ℕ) → IsCounted h → IsCounted (set_longest h longest)
set_longest-IsCounted h longest c = same-IsCounted _ _ refl refl refl refl refl c

-- After a batch that `hpdata_post_reserve_alloc_offsets` is told of, the longest free range is right.
module _ (h h' : Hpdata) (npages : ℕ)
    (long : IsLongest h.active_pages hugepage_pages false h.h_longest_free_range)
    (e : 64 * length h'.active_pages ≡ hugepage_pages)
    (old : h'.h_longest_free_range ≡ h.h_longest_free_range) where
  longest_after-IsLongest :
      (taken : List AllocOffset)
      → Finish h.active_pages npages h h' taken
      → ((m place p : ℕ)
          → max_len_before m taken < p
          → place + p ≤ hugepage_pages
          → IsUnset (fb_get h.active_pages) place p
          → IsUnset (fb_get h'.active_pages) place p)
      → IsLongest h'.active_pages hugepage_pages false (longest_after h' npages taken)
  unfolding Finish max_len_before
  longest_after-IsLongest [] same survive = rw old record {
    most = λ b len p run. long.most b len p (λ j x y. sym (same j) ∙ run j x y);
    place = long.place;
    reached = (long.reached.0, λ j x y. same j ∙ long.reached.1 j x y);
  }
  longest_after-IsLongest (o ∷ os) (fits, at) survive =
      let l = last_offset o os in
      let start = l.index + l.len_before in
      let most : (b len : ℕ)
          → b + len ≤ hugepage_pages
          → IsRun h'.active_pages false b len
          → len ≤ h'.h_longest_free_range =
        λ b len p run.
          subst (λ x. len ≤ x) (sym old) (long.most b len p (λ j x y. at.less j (run j x y))) in
      let rest_eq : sub64 l.len_before npages ≡ l.len_before - npages =
        omega (arith, at.within, fits, pages_eq) in
      let start_eq : l.index + npages + (l.len_before - npages) ≡ start = omega (arith, fits) in
      let (covered, reached) = At-end at in
      let one_less : max o.len_before o.len_before ≡ o.len_before = omega arith in
      elim (dec_lt (max_len_before o.len_before os) h'.h_longest_free_range) [
        | yes short ↦ rw (lt→ltb _ _ short) record {
          most = most;
          place = long.place;
          reached =
              subst
                (λ x. (long.place + x ≤ hugepage_pages) × IsRun h'.active_pages false long.place x)
                (sym old)
                (
                  long.reached.0,
                  survive o.len_before long.place h.h_longest_free_range
                      (subst (λ m. max_len_before m os < h.h_longest_free_range) (sym one_less)
                        (omega (arith, old, short)))
                      long.reached.0 long.reached.1,
                );
        }
        | no not_short ↦
            rw
              (
                le→ltb (max_len_before o.len_before os) h'.h_longest_free_range (omega arith),
                rest_eq,
              )
              (post-IsLongest h'.active_pages h'.h_longest_free_range most start
                (max l.longest_len (l.len_before - npages))
                (groups-IsClean h'.active_pages hugepage_pages (omega (arith, e)))
                (λ c n p q run. covered c n (omega (arith, start_eq)) q run)
                (reached.0, omega (arith, at.within, reached.1), reached.2))
      ]

-- The age is set where the hugepage was empty.
abbrev aged : Bool → ℕ → Hpdata → Hpdata
aged empty age h = if empty then record h { h_age = age } else h

aged-IsCounted : (empty : Bool) (age : ℕ) (h : Hpdata) → IsCounted h → IsCounted (aged empty age h)
aged-IsCounted false age h c = c
aged-IsCounted true age h c = same-IsCounted _ _ refl refl refl refl refl c

-- What the age does not change.
aged-Same :
    (empty : Bool) (age : ℕ) (h : Hpdata)
    → Keeps h (aged empty age h)
      × ((aged empty age h).active_pages ≡ h.active_pages)
      × ((aged empty age h).h_nactive ≡ h.h_nactive)
aged-Same false age h = (record { address = refl; longest = refl; flags = refl }, refl, refl)
aged-Same true age h = (record { address = refl; longest = refl; flags = refl }, refl, refl)

-- The batch and what is written after it.
batch-consistent :
    (size : ℕ) (h : Hpdata) (os : List AllocOffset) (result : Hpdata × List ℕ)
    → IsLongest h.active_pages hugepage_pages false h.h_longest_free_range
    → flags_agree h ≡ true
    → IsBatch h.active_pages (shr size lg_page) h os result
    → IsCounted (hpdata_post_reserve_alloc_offsets result.0 size (take (length result.1) os))
      × (hpdata_consistent
            (hpdata_post_reserve_alloc_offsets result.0 size (take (length result.1) os))
          ≡ true)
      × ((hpdata_post_reserve_alloc_offsets result.0 size (take (length result.1) os)).h_nactive
          ≡ h.h_nactive + shr size lg_page * length result.1)
batch-consistent size h os result long flags b =
    let taken = take (length result.1) os in
    let longest = longest_after result.0 (shr size lg_page) taken in
    let after = set_longest-IsCounted result.0 longest b.counted in
    rw (post_sets result.0 size taken) (
      after,
      counted-consistent (set_longest result.0 longest) after
          (IsLongest-unique result.0.active_pages hugepage_pages false _ _
            (longest_after-IsLongest h result.0 (shr size lg_page) long b.counted.active_length
              b.keeps.longest taken b.finish b.survive)
            (urange-IsLongest result.0.active_pages b.counted.active_length))
          (b.keeps.flags ∙ flags),
      b.more,
    )

-- For a hugepage below 2 ^ 64 that is counted and that `hpdata_consistent` accepts, and a size of at
-- least one page: whatever registrations of a batch fail, the hugepage that
-- `alloc_at_offsets` leaves is
-- counted and `hpdata_consistent` accepts it, and its active
-- pages have grown by those of the addresses that it gives out.
pub alloc_at_offsets-consistent :
    (has_edata : ℕ → Bool) (err : ℕ → Bool) (age_counter size max_nallocs : ℕ) (h : Hpdata)
    → IsCounted h
    → hpdata_consistent h ≡ true
    → h.h_address < 2 ^ 64
    → 0 < shr size lg_page
    → IsCounted (alloc_at_offsets has_edata err age_counter size max_nallocs h).0
      × (hpdata_consistent (alloc_at_offsets has_edata err age_counter size max_nallocs h).0 ≡ true)
      × ((alloc_at_offsets has_edata err age_counter size max_nallocs h).0.h_nactive
          ≡ h.h_nactive
            + shr size lg_page
              * length (alloc_at_offsets has_edata err age_counter size max_nallocs h).1)
unfolding alloc_at_offsets
alloc_at_offsets-consistent has_edata err age_counter size max_nallocs h c ok word some_pages =
    let a = aged (hpdata_empty h) age_counter h in
    let offsets = hpdata_find_alloc_offsets h size max_nallocs in
    let (keeps, pages, nactive) = aged-Same (hpdata_empty h) age_counter h in
    let (longest, flags) = consistent-longest h ok in
    let long : IsLongest h.active_pages hugepage_pages false h.h_longest_free_range =
      subst (λ l. IsLongest h.active_pages hugepage_pages false l) (sym longest)
        (urange-IsLongest h.active_pages c.active_length) in
    let long_aged : IsLongest a.active_pages hugepage_pages false a.h_longest_free_range =
      subst (λ l. IsLongest a.active_pages hugepage_pages false l) (sym keeps.longest)
        (subst (λ f. IsLongest f hugepage_pages false h.h_longest_free_range) (sym pages) long) in
    let trace : Trace a.active_pages (shr size lg_page) 0 0 0 offsets =
      subst (λ f. Trace f (shr size lg_page) 0 0 0 offsets) (sym pages)
        (find_alloc_offsets-Trace h size max_nallocs c.active_length some_pages) in
    let batch =
      try_alloc_from-IsBatch has_edata err size a.active_pages some_pages 0 0 0 offsets trace 0 a
        (aged-IsCounted (hpdata_empty h) age_counter h c)
        (subst (λ x. x < 2 ^ 64) (sym keeps.address) word) long_aged.most
        (unchanged_At (fb_get a.active_pages)) in
    let (counted, consistent, more) =
      batch-consistent size a offsets (try_alloc_from has_edata err size 0 offsets a) long_aged
        (keeps.flags ∙ flags) batch in
    (
      counted,
      consistent,
      more
          ∙ ap
              (λ x. x + shr size lg_page * length (try_alloc_from has_edata err size 0 offsets a).1)
              nactive,
    )

-- For a hugepage whose bitmap has a bit for each page and a size of at least one page, where no
-- `edata_t` is missing, no registration fails and at least one address is asked for: at most
-- `max_nallocs` addresses are given out, and one is given out or no free range of the hugepage is long
-- enough.
pub alloc_at_offsets_progress :
    (has_edata : ℕ → Bool) (err : ℕ → Bool) (age_counter size max_nallocs : ℕ) (h : Hpdata)
    → 64 * length h.active_pages ≡ hugepage_pages
    → 0 < shr size lg_page
    → ((k : ℕ) → has_edata k ≡ true)
    → ((addr : ℕ) → err addr ≡ false)
    → 0 < max_nallocs
    → (length (alloc_at_offsets has_edata err age_counter size max_nallocs h).1 ≤ max_nallocs)
      × ((0 < length (alloc_at_offsets has_edata err age_counter size max_nallocs h).1)
          ⊎ NoRoom h.active_pages (shr size lg_page) 0)
unfolding alloc_at_offsets
alloc_at_offsets_progress has_edata err age_counter size max_nallocs h e some_pages has good asked =
    let offsets = hpdata_find_alloc_offsets h size max_nallocs in
    let found = find_alloc_offsets-IsFinding h size max_nallocs e some_pages in
    let all =
      all_taken has_edata err size has good 0 offsets (aged (hpdata_empty h) age_counter h) in
    (
      omega (arith, all, found.enough),
      elim (found.complete asked) [
        | inl some_found ↦ inl (omega (arith, all, some_found))
        | inr packed ↦ inr packed
      ],
    )
