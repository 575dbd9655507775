-- ===== src/Hpa/Taken.antt =====
-- What the offsets of a batch that are taken leave, for the loop in `hpa_try_alloc_from_one_ps` of
-- src/hpa.c.
use jemalloc.Base.{
  ◌||◌, ℕ, ◌+◌, ◌-◌, ◌*◌, ◌≤◌, ◌<◌, ◌≡◌, ◌⊎◌, inl, inr, sym, subst, ◌∙◌, arith, fun_ext, Bool,
  false, List, [], ◌∷◌, max, length, take, shr, dec_lt,
}
use jemalloc.Sc.Params.{lg_page}
use jemalloc.Fb.{Fb, fb_get}
use jemalloc.Fb.Assign.{in_range}
use jemalloc.Hpdata.{Hpdata, hugepage_pages}
use jemalloc.Hpdata.Offsets.{AllocOffset, hpdata_reserve_alloc_offset, last_offset, max_len_before}
use jemalloc.Hpdata.Counts.{IsCounted}
use jemalloc.Hpdata.Keep.{reserve-IsCounted}
use jemalloc.Hpdata.Progress.{IsUnset, At, At-here, clash}
use jemalloc.Hpa.Undo.{Keeps, reserve-Keeps, reserve_bits}

-- The active pages after the offsets `taken` of pages that are `active`: as before them, or with the
-- last of them at the end.
unfoldable pub Finish : Fb → ℕ → Hpdata → Hpdata → List AllocOffset → Type 0
Finish active npages h h' [] = (j : ℕ) → fb_get h'.active_pages j ≡ fb_get h.active_pages j
Finish active npages h h' (o ∷ taken) =
    let l = last_offset o taken in
    (npages ≤ l.len_before)
    × At (fb_get active) (fb_get h'.active_pages) (l.index + npages) (l.len_before - npages)
        l.longest_len

-- What the loop over `offsets` from `h` on leaves.
pub record IsBatch (active : Fb) (npages : ℕ) (h : Hpdata) (offsets : List AllocOffset)
    (result : Hpdata × List ℕ) : Type 0 where
  pub counted : IsCounted result.0
  pub keeps : Keeps h result.0
  pub more : result.0.h_nactive ≡ h.h_nactive + npages * length result.1
  pub fewer : length result.1 ≤ length offsets
  pub finish : Finish active npages h result.0 (take (length result.1) offsets)
  pub survive :
      (m place p : ℕ)
      → max_len_before m (take (length result.1) offsets) < p
      → place + p ≤ hugepage_pages
      → IsUnset (fb_get h.active_pages) place p
      → IsUnset (fb_get result.0.active_pages) place p

-- No offset was taken.
pub none_taken :
    (active : Fb) (npages : ℕ) (h h' : Hpdata) (offsets : List AllocOffset)
    → IsCounted h'
    → Keeps h h'
    → h'.h_nactive ≡ h.h_nactive
    → ((j : ℕ) → fb_get h'.active_pages j ≡ fb_get h.active_pages j)
    → IsBatch active npages h offsets (h', [])
unfolding Finish
none_taken active npages h h' offsets c k e bits = record {
  counted = c;
  keeps = k;
  more = omega arith;
  fewer = omega arith;
  finish = bits;
  survive = λ m place p short fits run j x y. bits j ∙ run j x y;
}

last_first :
    (active : Fb) (npages : ℕ) (h h₁ h' : Hpdata) (o : AllocOffset) (taken : List AllocOffset)
    → npages ≤ o.len_before
    → At
        (fb_get active)
        (fb_get h₁.active_pages)
        (o.index + npages)
        (o.len_before - npages)
        o.longest_len
    → Finish active npages h₁ h' taken
    → Finish active npages h h' (o ∷ taken)
unfolding Finish last_offset
last_first active npages h h₁ h' o [] fits at same = (
  fits,
  subst (λ f. At (fb_get active) f (o.index + npages) (o.len_before - npages) o.longest_len)
      (sym (fun_ext same)) at,
)
last_first active npages h h₁ h' o (next_o ∷ taken) fits at done = done

max_len_before-ge : (m : ℕ) (os : List AllocOffset) → m ≤ max_len_before m os
unfolding max_len_before
max_len_before-ge m [] = omega arith
max_len_before-ge m (o ∷ os) = omega (arith, max_len_before-ge (max m o.len_before) os)

-- A run longer than what is left at `pos` does not lie there.
run_apart :
    {before now : ℕ → Bool} {pos rem longest : ℕ} (npages place p : ℕ)
    → At before now pos rem longest
    → npages ≤ rem
    → rem < p
    → place + p ≤ hugepage_pages
    → IsUnset now place p
    → (place + p ≤ pos) ⊎ (pos + npages ≤ place)
run_apart {before} {now} {pos} {rem} npages place p a fits longer end run =
    elim (dec_lt pos (place + p)) [
      | no below ↦ inl (omega arith)
      | yes above ↦ elim (dec_lt place (pos + rem)) [
        | no after ↦ inr (omega arith)
        | yes before_end ↦ elim (dec_lt place pos) [
          | yes early ↦ clash (a.left (omega arith)) (run (pos - 1) (omega arith) (omega arith))
          | no late ↦ elim a.edge [
            | inl zero_end ↦ inr (omega arith)
            | inr set ↦ clash (set (omega arith)) (run (pos + rem) (omega arith) (omega arith))
          ]
        ]
      ]
    ]

-- An offset that is taken, before what the rest of the loop leaves.
pub here-IsBatch :
    (active : Fb) (size : ℕ) (h : Hpdata) (o : AllocOffset) (os : List AllocOffset) (addr : ℕ)
    (result : Hpdata × List ℕ)
    → 0 < shr size lg_page
    → shr size lg_page ≤ o.len_before
    → IsCounted h
    → At (fb_get active) (fb_get h.active_pages) o.index o.len_before o.longest_len
    → IsBatch active (shr size lg_page) (hpdata_reserve_alloc_offset h size o).0 os result
    → IsBatch active (shr size lg_page) h (o ∷ os) (result.0, addr ∷ result.1)
unfolding max_len_before
here-IsBatch active size h o os addr result some_pages fits c at rest = record {
  counted = rest.counted;
  keeps =
      let k = reserve-Keeps h size o in
      let k' = rest.keeps in
      record {
        address = k'.address ∙ k.address;
        longest = k'.longest ∙ k.longest;
        flags = k'.flags ∙ k.flags;
      };
  more = ground (arith, rest.more, reserved.1);
  fewer = omega (arith, rest.fewer);
  finish =
      last_first active npages h (hpdata_reserve_alloc_offset h size o).0 result.0 o
        (take (length result.1) os) fits (At-here npages some_pages fits bits at) rest.finish;
  survive = survive;
}
  where
    npages : ℕ
    npages = shr size lg_page

    reserved :
        IsCounted (hpdata_reserve_alloc_offset h size o).0
        × ((hpdata_reserve_alloc_offset h size o).0.h_nactive ≡ h.h_nactive + shr size lg_page)
    reserved =
        reserve-IsCounted h size o c some_pages (omega (arith, fits, at.within))
          (λ j p q. at.free j p (omega (arith, fits)))

    bits :
        (j : ℕ)
        → fb_get (hpdata_reserve_alloc_offset h size o).0.active_pages j
          ≡ (in_range o.index (shr size lg_page) j || fb_get h.active_pages j)
    bits =
        reserve_bits h size o c some_pages (omega (arith, fits, at.within))
          (λ j p q. at.free j p (omega (arith, fits)))

    survive :
        (m place p : ℕ)
        → max_len_before m (o ∷ take (length result.1) os) < p
        → place + p ≤ hugepage_pages
        → IsUnset (fb_get h.active_pages) place p
        → IsUnset (fb_get result.0.active_pages) place p
    survive m place p short end run =
        let longer : o.len_before < p =
          omega
            (arith, short, max_len_before-ge (max m o.len_before) (take (length result.1) os)) in
        let apart = run_apart npages place p at fits longer end run in
        rest.survive (max m o.len_before) place p short end
          (λ j x y. bits j ∙ apart_bit j (fb_get h.active_pages j) apart x y (run j x y))
      where
        apart_bit :
            (j : ℕ) (b : Bool)
            → (place + p ≤ o.index) ⊎ (o.index + npages ≤ place)
            → place ≤ j
            → j < place + p
            → b ≡ false
            → (in_range o.index npages j || b) ≡ false
        apart_bit j b (inl low) x y e = ground arith
        apart_bit j b (inr high) x y e = ground arith
