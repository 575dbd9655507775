-- ===== src/Hpa/Settle.antt =====
-- `hpa_update_purge_hugify_eligibility` of src/hpa.c.
use jemalloc.Base.{
  ℕ, ◌<◌, ◌≡◌, refl, ◌∙◌, arith, Bool, true, false, not, ◌&&◌, ◌||◌, ◌==◌, ltb, if◌then◌else◌,
  if_cases,
}
use jemalloc.Hpdata.{
  Hpdata, hugepage_pages, hpdata_hugify, hpdata_allow_hugify, hpdata_disallow_hugify, hpdata_empty,
  hpdata_changing_state_get, hpdata_ndirty_get,
}
use jemalloc.Hpdata.Counts.{same-IsCounted, IsCounted}
use jemalloc.Hpdata.Keep.{hugify-IsCounted}
use jemalloc.Hpa.Eligible.{
  hpa_is_hugify_lazy, hpa_good_hugification_candidate, HpaShardOpts, hpa_assume_huge,
  hpa_should_assume_huge, hpa_good_purge_candidate, hpa_update_purge_hugify_eligibility,
}

-- What the choice of eligibility leaves alone.
pub record IsKept (h h' : Hpdata) : Type 0 where
  pub counted : IsCounted h'
  pub active : h'.active_pages ≡ h.active_pages
  pub longest : h'.h_longest_free_range ≡ h.h_longest_free_range
  pub nactive : h'.h_nactive ≡ h.h_nactive
  pub changing : hpdata_changing_state_get h' ≡ hpdata_changing_state_get h

itself-IsKept : (h : Hpdata) → IsCounted h → IsKept h h
itself-IsKept h c = record {
  counted = c;
  active = refl;
  longest = refl;
  nactive = refl;
  changing = refl;
}

-- Another state of the flags.
with_flags : Hpdata → Bool → Bool → ℕ → Hpdata
with_flags h purge hugify time = record h {
  h_purge_allowed = purge;
  h_hugify_allowed = hugify;
  h_time_hugify_allowed = time;
}

flags-IsKept :
    (h h' : Hpdata) (purge hugify : Bool) (time : ℕ)
    → IsKept h h'
    → IsKept h (with_flags h' purge hugify time)
unfolding with_flags
flags-IsKept h h' purge hugify time k =
    let c = k.counted in
    record {
      counted = same-IsCounted _ _ refl refl refl refl refl c;
      active = k.active;
      longest = k.longest;
      nactive = k.nactive;
      changing = k.changing;
    }

assume_huge-IsKept : (h : Hpdata) → IsCounted h → IsKept h (hpa_assume_huge h)
unfolding hpa_assume_huge hpdata_hugify
assume_huge-IsKept h c =
    if_cases (IsKept h) (h.h_huge || hpdata_empty h) (λ p. itself-IsKept h c)
      (λ p.
        if_cases (IsKept h) (not (h.h_ntouched == hugepage_pages))
          (λ q. record {
            counted = (hugify-IsCounted h c).0;
            active = refl;
            longest = refl;
            nactive = refl;
            changing = refl;
          })
          (λ q. itself-IsKept h c))

-- A purge is allowed only where there is something to purge.
purge_candidate-dirty :
    (opts : HpaShardOpts) (h : Hpdata)
    → hpa_good_purge_candidate opts h ≡ true
    → 0 < hpdata_ndirty_get h
unfolding hpa_good_purge_candidate
purge_candidate-dirty opts h = some_dirty _ _ _
  where
    some_dirty :
        (off empty large : Bool)
        → (if off
            then false
            else if ltb 0 (hpdata_ndirty_get h) && empty
            then true
            else ltb 0 (hpdata_ndirty_get h) && large)
          ≡ true
        → 0 < hpdata_ndirty_get h
    some_dirty off empty large e = ground arith

-- What the choice of eligibility leaves.
pub record IsEligible (h h' : Hpdata) : Type 0 where
  pub kept : IsKept h h'
  pub calm :
      not (hpdata_changing_state_get h' && (h'.h_purge_allowed || h'.h_hugify_allowed)) ≡ true
  pub dirty : h'.h_purge_allowed ≡ true → 0 < hpdata_ndirty_get h'

abbrev assumed_of : HpaShardOpts → Hpdata → Hpdata
assumed_of opts h = if hpa_should_assume_huge opts h then hpa_assume_huge h else h

abbrev candidate_of : HpaShardOpts → Bool → ℕ → Hpdata → Hpdata
candidate_of opts enforce_hugify now h =
    if (hpa_is_hugify_lazy opts || enforce_hugify)
      && hpa_good_hugification_candidate opts (assumed_of opts h)
      && not (assumed_of opts h).h_huge
    then hpdata_allow_hugify (assumed_of opts h) now
    else assumed_of opts h

candidate-IsKept :
    (opts : HpaShardOpts) (enforce_hugify : Bool) (now : ℕ) (h : Hpdata)
    → IsCounted h
    → IsKept h (candidate_of opts enforce_hugify now h)
unfolding hpdata_allow_hugify with_flags
candidate-IsKept opts enforce_hugify now h c =
    if_cases (IsKept h)
      ((hpa_is_hugify_lazy opts || enforce_hugify)
        && hpa_good_hugification_candidate opts (assumed_of opts h)
        && not (assumed_of opts h).h_huge)
      (λ p. flags-IsKept h (assumed_of opts h) (assumed_of opts h).h_purge_allowed true now assumed)
      (λ p. assumed)
  where
    assumed : IsKept h (assumed_of opts h)
    assumed =
        if_cases (IsKept h) (hpa_should_assume_huge opts h) (λ p. assume_huge-IsKept h c)
          (λ p. itself-IsKept h c)

not_changing : (x y : Bool) → x ≡ false → not (x && y) ≡ true
not_changing x y e = ground arith

nothing_allowed : (x : Bool) → not (x && (false || false)) ≡ true
nothing_allowed x = ground arith

-- For a counted hugepage: `hpa_update_purge_hugify_eligibility` keeps the counts, the active pages and
-- the longest free range; while the hugepage is changing neither purging nor hugifying is allowed; and
-- purging is allowed only where a page is dirty.
pub update_purge_hugify_eligibility_lem :
    (opts : HpaShardOpts) (enforce_hugify : Bool) (now : ℕ) (h : Hpdata)
    → IsCounted h
    → IsEligible h (hpa_update_purge_hugify_eligibility opts enforce_hugify now h)
unfolding hpa_update_purge_hugify_eligibility hpdata_disallow_hugify with_flags
update_purge_hugify_eligibility_lem opts enforce_hugify now h c =
    let x = candidate_of opts enforce_hugify now h in
    let good = hpa_good_purge_candidate opts x in
    let candidate = candidate-IsKept opts enforce_hugify now h c in
    let purgeable : Hpdata = record x { h_purge_allowed = good } in
    if_cases (IsEligible h) (hpdata_changing_state_get h)
      (λ busy. record {
        kept = flags-IsKept h h false false h.h_time_hugify_allowed (itself-IsKept h c);
        calm = nothing_allowed (hpdata_changing_state_get h);
        dirty = λ p. absurd (ground (arith, p));
      })
      (λ idle.
        if_cases (IsEligible h)
          (purgeable.h_nactive == 0 && not (hpa_should_assume_huge opts purgeable))
          (λ p. record {
            kept = flags-IsKept h x good false x.h_time_hugify_allowed candidate;
            calm =
                not_changing (hpdata_changing_state_get x) (good || false)
                  (candidate.changing ∙ idle);
            dirty = purge_candidate-dirty opts x;
          })
          (λ p. record {
            kept = flags-IsKept h x good x.h_hugify_allowed x.h_time_hugify_allowed candidate;
            calm =
                not_changing (hpdata_changing_state_get x) (good || x.h_hugify_allowed)
                  (candidate.changing ∙ idle);
            dirty = purge_candidate-dirty opts x;
          }))
