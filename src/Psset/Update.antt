-- ===== src/Psset/Update.antt =====
-- The updates of a hugepage in src/psset.c: membership in the allocation container, and the check of
-- `hpdata_consistent` at the end.
use jemalloc.Base.{
  if_cases, ◌≡◌, refl, ◌∙◌, arith, Bool, true, false, not, ◌&&◌, ◌||◌, if◌then◌else◌,
}
use jemalloc.Fb.{fb_urange_longest}
use jemalloc.Sz.Table.{Tables}
use jemalloc.Hpdata.{
  Hpdata, hugepage_pages, hpdata_consistent, hpdata_changing_state_get, hpdata_empty, hpdata_full,
  same_bool,
}
use jemalloc.Hpdata.Counts.{same-IsCounted, IsCounted}
use jemalloc.Hpdata.Consistent.{counted-consistent, consistent-longest, flags_agree}
use jemalloc.Psset.{
  PssetAllocUpdate, psset_update_begin_impl, psset_update_end_impl, psset_alloc_update_begin,
  psset_alloc_update_end,
}

begin_retained : (x e f : Bool) → (if x && not (x && e && f) then false else x) ≡ (x && e && f)
begin_retained false e f = refl
begin_retained true e f = ground arith

end_moved : (a : Bool) → (if a && not false then true else false) ≡ a
end_moved false = refl
end_moved true = refl

end_stays :
    (r a i empty full older moved : Bool)
    → i ≡ r
    → (r && (not a || empty || full || older || moved)) ≡ false
    → (if a && not r then true else i) ≡ a
end_stays r a i empty full older moved e f = ground arith

end_membership :
    (t : Tables) (h : Hpdata) (update : PssetAllocUpdate)
    → h.h_in_psset_alloc_container ≡ update.retained
    → (psset_alloc_update_end t h update).h_in_psset_alloc_container
      ≡ (psset_alloc_update_end t h update).h_alloc_allowed
unfolding psset_alloc_update_end psset_update_end_impl
end_membership t h update e =
    if_cases (λ (x : Hpdata). x.h_in_psset_alloc_container ≡ x.h_alloc_allowed) _
      (λ moves. end_moved h.h_alloc_allowed)
      (λ stays.
        end_stays update.retained h.h_alloc_allowed h.h_in_psset_alloc_container _ _ _ _ e stays)

-- The begin of an update changes nothing that is counted or checked.
pub begin-IsCounted :
    (t : Tables) (h : Hpdata) → IsCounted h → IsCounted (psset_alloc_update_begin t h).0
unfolding psset_alloc_update_begin psset_update_begin_impl
begin-IsCounted t h c = same-IsCounted _ _ refl refl refl refl refl c

pub begin_consistent :
    (t : Tables) (h : Hpdata)
    → IsCounted h
    → hpdata_consistent h ≡ true
    → hpdata_consistent (psset_alloc_update_begin t h).0 ≡ true
unfolding psset_alloc_update_begin psset_update_begin_impl
begin_consistent t h c ok =
    let (longest, flags) = consistent-longest h ok in
    counted-consistent (psset_alloc_update_begin t h).0 (begin-IsCounted t h c) longest flags

in_step :
    (a c : Bool) → same_bool a (if a && not c then true else if not a && c then false else c) ≡ true
in_step false false = refl
in_step false true = refl
in_step true false = refl
in_step true true = refl

quiet : (a b : Bool) → a ≡ true → b ≡ true → (a && b) ≡ true
quiet a b p q = ground arith

-- What the end of an update checks.
record IsSettled (h : Hpdata) : Type 0 where
  counted : IsCounted h
  longest : h.h_longest_free_range ≡ fb_urange_longest h.active_pages hugepage_pages
  flags : flags_agree h ≡ true

end_impl-IsSettled :
    (h : Hpdata) (retained : Bool)
    → IsCounted h
    → h.h_longest_free_range ≡ fb_urange_longest h.active_pages hugepage_pages
    → not (hpdata_changing_state_get h && (h.h_purge_allowed || h.h_hugify_allowed)) ≡ true
    → IsSettled (psset_update_end_impl h retained)
unfolding psset_update_end_impl
end_impl-IsSettled h retained c longest calm = record {
  counted = same-IsCounted _ _ refl refl refl refl refl c;
  longest = longest;
  flags = quiet _ _ calm (in_step h.h_hugify_allowed h.h_in_psset_hugify_container);
}

-- The end of an update leaves what `hpdata_consistent` accepts.
pub end_consistent :
    (t : Tables) (h : Hpdata) (update : PssetAllocUpdate)
    → IsCounted h
    → h.h_longest_free_range ≡ fb_urange_longest h.active_pages hugepage_pages
    → not (hpdata_changing_state_get h && (h.h_purge_allowed || h.h_hugify_allowed)) ≡ true
    → IsCounted (psset_alloc_update_end t h update)
      × (hpdata_consistent (psset_alloc_update_end t h update) ≡ true)
unfolding psset_alloc_update_end
end_consistent t h update c longest calm =
    let settled =
      if_cases IsSettled _
        (λ moves.
          end_impl-IsSettled (record h { h_in_psset_alloc_container = false }) false
            (same-IsCounted _ _ refl refl refl refl refl c) longest calm)
        (λ stays. end_impl-IsSettled h update.retained c longest calm) in
    (settled.counted, counted-consistent _ settled.counted settled.longest settled.flags)

pub update_nactive :
    (t : Tables) (h h' : Hpdata) (update : PssetAllocUpdate)
    → ((psset_alloc_update_begin t h).0.h_nactive ≡ h.h_nactive)
      × ((psset_alloc_update_end t h' update).h_nactive ≡ h'.h_nactive)
unfolding psset_alloc_update_begin psset_update_begin_impl psset_alloc_update_end
    psset_update_end_impl
update_nactive t h h' update =
    (refl, if_cases (λ (x : Hpdata). x.h_nactive ≡ h'.h_nactive) _ (λ p. refl) (λ p. refl))

-- For an update between `psset_alloc_update_begin` and `psset_alloc_update_end` that leaves the
-- membership as the begin has set it: afterwards the hugepage is in the allocation container just when
-- allocating from it is allowed, whether it kept its heap or moved.
pub alloc_update_membership :
    (t : Tables) (h h' : Hpdata)
    → h'.h_in_psset_alloc_container ≡ (psset_alloc_update_begin t h).0.h_in_psset_alloc_container
    → (psset_alloc_update_end t h' (psset_alloc_update_begin t h).1).h_in_psset_alloc_container
      ≡ (psset_alloc_update_end t h' (psset_alloc_update_begin t h).1).h_alloc_allowed
unfolding psset_alloc_update_begin psset_alloc_update_end psset_update_begin_impl
    psset_update_end_impl
alloc_update_membership t h h' same = end_membership t h' (psset_alloc_update_begin t h).1 (
    same ∙ begin_retained h.h_in_psset_alloc_container (not (hpdata_empty h)) (not (hpdata_full h)))
