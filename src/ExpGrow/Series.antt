-- ===== src/ExpGrow/Series.antt =====
-- What `exp_grow_size_prepare` of include/jemalloc/internal/exp_grow.h picks.
use jemalloc.Base.{
  ℕ, zero, suc, ◌+◌, ◌≤◌, ◌<◌, ◌≡◌, refl, arith, Bool, true, false, dec_lt, lt→ltb, le→ltb, le→leb,
  lt→leb, ℕ_discrete,
}
use jemalloc.BitUtil.{clz, fls_lu, fls_u64, lg_floor, lg_ceil}
use jemalloc.Sc.Params.{sc_large_maxclass, sc_npsizes}
use jemalloc.Sz.{sz_psz2ind}
use jemalloc.Sz.Table.{Tables, sz_pind2sz}
use jemalloc.ExpGrow.{ExpGrow, pind_add, prepare_from, exp_grow_size_prepare}

-- The class `skip` after `next` is the first from `next` on that holds `least`; on failure, none below
-- the index of the largest class does.
abbrev pub IsPrepared : Tables → ℕ → ℕ → Bool × ℕ × ℕ → Type 0
IsPrepared t next least (false, size, skip) =
    (size ≡ sz_pind2sz t (next + skip))
    × (least ≤ size)
    × ((i : ℕ) → i < skip → sz_pind2sz t (next + i) < least)
IsPrepared t next least (true, size, skip) =
    (i : ℕ) → next + i < sz_psz2ind sc_large_maxclass → sz_pind2sz t (next + i) < least

top_lem : sz_psz2ind sc_large_maxclass ≡ 198
unfolding sz_psz2ind lg_ceil lg_floor fls_u64 fls_lu clz
top_lem = refl

prepare_from-IsPrepared :
    (fuel : ℕ) (t : Tables) (next least skip : ℕ)
    → next + skip < sz_psz2ind sc_large_maxclass
    → sz_psz2ind sc_large_maxclass ≤ next + skip + fuel
    → ((i : ℕ) → i < skip → sz_pind2sz t (next + i) < least)
    → IsPrepared t next least (prepare_from fuel t next least skip)
unfolding prepare_from
prepare_from-IsPrepared zero t next least skip below enough before = absurd (omega arith)
prepare_from-IsPrepared (suc fuel) t next least skip below enough before =
    let word : pind_add next skip ≡ next + skip = omega (arith, top_lem) in
    let word' : pind_add next (skip + 1) ≡ next + (skip + 1) = omega (arith, top_lem) in
    elim (dec_lt (sz_pind2sz t (next + skip)) least) [
      | no fits ↦
          rw (word, le→ltb (sz_pind2sz t (next + skip)) least (omega arith))
            (refl, omega arith, before)
      | yes small ↦
          let before' : (i : ℕ) → i < skip + 1 → sz_pind2sz t (next + i) < least = λ i p.
            elim (ℕ_discrete i skip) [ yes e ↦ rw e small | no n ↦ before i (omega arith) ] in
          elim (dec_lt (next + (skip + 1)) (sz_psz2ind sc_large_maxclass)) [
            | yes more ↦
                rw (word, word', lt→ltb _ _ small, lt→leb _ _ more)
                  (prepare_from-IsPrepared fuel t next least (skip + 1) more (omega arith) before')
            | no end ↦
                rw
                  (
                    word,
                    word',
                    lt→ltb _ _ small,
                    le→leb (sz_psz2ind sc_large_maxclass) (next + (skip + 1)) (omega arith),
                  )
                  (λ i p. before' i (omega arith))
          ]
    ]

-- Where the series is below the index of the largest class: `exp_grow_size_prepare` picks the first
-- class from `next` on that holds the size asked for, or it fails and no class from `next` on, the
-- largest left aside, holds it.
pub exp_grow_size_prepare-IsPrepared :
    (t : Tables) (g : ExpGrow) (least : ℕ)
    → g.next < sz_psz2ind sc_large_maxclass
    → IsPrepared t g.next least (exp_grow_size_prepare t g least)
unfolding exp_grow_size_prepare
exp_grow_size_prepare-IsPrepared t g least below =
    prepare_from-IsPrepared sc_npsizes t g.next least 0 (omega arith) (omega (arith, top_lem))
      (λ i p. absurd (omega arith))
