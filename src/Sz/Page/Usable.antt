-- ===== src/Sz/Page/Usable.antt =====
-- `sz_psz2u` of sz.h rounds a page size up to its class.
use jemalloc.Base.{
  ℕ, ◌+◌, ◌-◌, ◌*◌, ◌/◌, ◌^◌, ◌≤◌, ◌<◌, ◌≡◌, ◌∙◌, sym, arith, sub64, shl64, pow2_pos, pow2_mono,
  pow2-eq, dec_le, dec_lt, every_below, every_below_at, ◌==◌, ◌||◌, true, refl,
}
use jemalloc.BitUtil.{lg_floor, fls_u64, fls_lu, clz}
use jemalloc.Sc.Params.{sc_large_maxclass}
use jemalloc.Sz.{sz_psz2ind, sz_pind2sz_compute, sz_psz2u}
use jemalloc.Sz.Lg.{lg_double, spacing-ge, spacing-lt, quotient, quotient-bounds, round_up}
use jemalloc.Sz.Page.{group_class, psz2ind-first, first_classes, psz2ind-large, same_group}

psz2u-small :
    (s d : ℕ)
    → 4 < s
    → s ≤ 16384
    → lg_floor (sub64 (shl64 s 1) 1) ≡ d + 3
    → d < 12
    → sz_psz2u s ≡ (s + 4095) / 4096 * 4096
unfolding sz_psz2u
psz2u-small s d lo hi e h = ground (arith, e)

psz2u-large :
    (s d : ℕ)
    → 4 < s
    → s ≤ sc_large_maxclass
    → lg_floor (sub64 (shl64 s 1) 1) ≡ d + 3
    → 12 ≤ d
    → d ≤ 60
    → sz_psz2u s ≡ (s + (2 ^ d - 1)) / 2 ^ d * 2 ^ d
unfolding sz_psz2u
psz2u-large s d lo hi e h top = ground (
  arith,
  e,
  pow2_pos d,
  pow2_mono {a = d} {b = 60} top,
  pow2-eq {a = d + 3 - 2 - 1} {b = d} (omega arith),
)

tiny_table : every_below 5 (λ s. s == 0 || sz_psz2u s == 4096) ≡ true
unfolding every_below sz_psz2u lg_floor fls_u64 fls_lu clz
tiny_table = refl

tiny : (s : ℕ) → 0 < s → s < 5 → sz_psz2u s ≡ 4096
tiny s lo h = ground (arith, every_below_at 5 _ s tiny_table h)

-- For a positive size up to the largest class, `sz_psz2u` is the size of the class that
-- `sz_psz2ind` names.
pub psz2u-pind2sz :
    (s : ℕ) → 0 < s → s ≤ sc_large_maxclass → sz_psz2u s ≡ sz_pind2sz_compute (sz_psz2ind s)
psz2u-pind2sz s lo hi = elim (dec_lt s 5) [
  | yes p ↦ omega (
    arith,
    tiny s lo p,
    psz2ind-first s lo (omega arith),
    first_classes (sz_psz2ind s) (omega (arith, psz2ind-first s lo (omega arith))),
  )
  | no p ↦
      let (d, e, top, a, b) = lg_double s (omega arith) hi in
      elim (dec_le s 16384) [
        | yes q ↦ omega (
          arith,
          psz2u-small s d (omega arith) q e (spacing-lt 12 d s q a),
          psz2ind-first s lo q,
          first_classes (sz_psz2ind s) (omega (arith, psz2ind-first s lo q)),
        )
        | no q ↦
            let h = spacing-ge 12 d s (omega arith) b in
            let (c, _) = same_group s d (omega arith) hi a b in
            let (under, over) = quotient-bounds d s lo in
            let (q4, q8) = quotient d s a b in
            let k = psz2ind-large s d hi c h in
            let (_, this, _) =
              group_class d ((s - 1) / 2 ^ d) (sz_psz2ind s) s h top hi q4 q8 under
                (omega (arith, k)) in
            psz2u-large s d (omega arith) hi e h top
            ∙ round_up (2 ^ d) ((s - 1) / 2 ^ d) s under over
            ∙ sym this
      ]
]
