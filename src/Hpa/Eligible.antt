-- ===== src/Hpa/Eligible.antt =====
-- src/hpa.c and include/jemalloc/internal/hpa_opts.h: whether a hugepage may be purged or hugified.
use jemalloc.Base.{
  ℕ, ◌-◌, ◌*◌, ◌^◌, Bool, true, false, not, ◌&&◌, ◌||◌, ◌==◌, ltb, leb, if◌then◌else◌, u64,
}
use jemalloc.Sc.Params.{page}
use jemalloc.Hpdata.{
  Hpdata, hugepage_pages, hpdata_empty, hpdata_hugify, hpdata_allow_hugify, hpdata_disallow_hugify,
  hpdata_changing_state_get, hpdata_ndirty_get,
}

pub data HugifyStyle : Type 0 where
  hugify_style_auto : HugifyStyle
  hugify_style_none : HugifyStyle
  hugify_style_eager : HugifyStyle
  hugify_style_lazy : HugifyStyle

pub record HpaShardOpts : Type 0 where
  pub slab_max_alloc : ℕ
  pub hugification_threshold : ℕ
  pub dirty_mult : ℕ
  pub deferral_allowed : Bool
  pub hugify_delay_ms : ℕ
  pub hugify_sync : Bool
  pub min_purge_interval_ms : ℕ
  pub purge_threshold : ℕ
  pub hugify_style : HugifyStyle

unfoldable pub is_eager : HugifyStyle → Bool
is_eager hugify_style_eager = true
is_eager hugify_style_auto = false
is_eager hugify_style_none = false
is_eager hugify_style_lazy = false

unfoldable pub is_lazy : HugifyStyle → Bool
is_lazy hugify_style_lazy = true
is_lazy hugify_style_auto = false
is_lazy hugify_style_none = false
is_lazy hugify_style_eager = false

unfoldable pub is_none : HugifyStyle → Bool
is_none hugify_style_none = true
is_none hugify_style_auto = false
is_none hugify_style_eager = false
is_none hugify_style_lazy = false

unfoldable pub hpa_is_hugify_eager : HpaShardOpts → Bool
hpa_is_hugify_eager opts = is_eager opts.hugify_style

unfoldable pub hpa_is_hugify_lazy : HpaShardOpts → Bool
hpa_is_hugify_lazy opts = is_lazy opts.hugify_style || opts.hugify_sync

unfoldable pub hpa_is_hugify_none : HpaShardOpts → Bool
hpa_is_hugify_none opts = is_none opts.hugify_style

unfoldable pub hpa_should_assume_huge : HpaShardOpts → Hpdata → Bool
hpa_should_assume_huge opts ps =
    (hpa_is_hugify_eager opts || hpa_is_hugify_none opts) && ps.h_purged_when_empty_and_huge

unfoldable pub hpa_good_hugification_candidate : HpaShardOpts → Hpdata → Bool
hpa_good_hugification_candidate opts ps =
    leb opts.hugification_threshold (u64 (ps.h_nactive * page))

-- `fxp_t` has 32 bits.
unfoldable pub hpa_good_purge_candidate : HpaShardOpts → Hpdata → Bool
hpa_good_purge_candidate opts ps =
    let ndirty = hpdata_ndirty_get ps in
    if opts.dirty_mult == 2 ^ 32 - 1
    then false
    else if ltb 0 ndirty && hpdata_empty ps
    then true
    else ltb 0 ndirty && (not ps.h_huge || leb opts.purge_threshold (u64 (ndirty * page)))

unfoldable pub hpa_assume_huge : Hpdata → Hpdata
hpa_assume_huge ps =
    if ps.h_huge || hpdata_empty ps
    then ps
    else if not (ps.h_ntouched == hugepage_pages)
    then hpdata_hugify ps
    else ps

-- `enforce_hugify` is `opt_experimental_hpa_enforce_hugify` and `now` what the hook `curtime` gives.
unfoldable pub hpa_update_purge_hugify_eligibility : HpaShardOpts → Bool → ℕ → Hpdata → Hpdata
hpa_update_purge_hugify_eligibility opts enforce_hugify now ps =
    let assumed : Hpdata = (if hpa_should_assume_huge opts ps then hpa_assume_huge ps else ps) in
    let candidate : Hpdata =
      (if (hpa_is_hugify_lazy opts || enforce_hugify)
          && hpa_good_hugification_candidate opts assumed
          && not assumed.h_huge
        then hpdata_allow_hugify assumed now
        else assumed) in
    let purgeable : Hpdata = record candidate {
      h_purge_allowed = hpa_good_purge_candidate opts candidate;
    } in
    if hpdata_changing_state_get ps
    then hpdata_disallow_hugify (record ps { h_purge_allowed = false })
    else if purgeable.h_nactive == 0 && not (hpa_should_assume_huge opts purgeable)
    then hpdata_disallow_hugify purgeable
    else purgeable
