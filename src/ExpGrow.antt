-- ===== src/ExpGrow.antt =====
-- src/exp_grow.c and include/jemalloc/internal/exp_grow.h: the growing series of extent sizes.
mod Tests
pub mod Series
use jemalloc.Base.{ℕ, zero, suc, ◌+◌, ◌*◌, ◌%◌, ◌^◌, Bool, true, false, ltb, leb, if◌then◌else◌}
use jemalloc.Sc.Params.{sc_large_maxclass, sc_npsizes}
use jemalloc.Sz.{sz_psz2ind}
use jemalloc.Sz.Table.{Tables, sz_pind2sz}

pub record ExpGrow : Type 0 where
  pub next : ℕ
  pub limit : ℕ

-- A `pszind_t` has 32 bits.
abbrev pub pind_add : ℕ → ℕ → ℕ
pind_add a b = (a + b) % 2 ^ 32

-- The loop of `exp_grow_size_prepare`: whether it fails, the size and `skip`. It ends at the index of
-- the largest class, so a round per class is enough.
unfoldable pub prepare_from : ℕ → Tables → ℕ → ℕ → ℕ → Bool × ℕ × ℕ
prepare_from zero t next alloc_size_min skip = (true, sz_pind2sz t (pind_add next skip), skip)
prepare_from (suc fuel) t next alloc_size_min skip =
    let alloc_size = sz_pind2sz t (pind_add next skip) in
    let rest = prepare_from fuel t next alloc_size_min (skip + 1) in
    if ltb alloc_size alloc_size_min
    then (if leb (sz_psz2ind sc_large_maxclass) (pind_add next (skip + 1))
        then (true, alloc_size, skip + 1)
        else rest)
    else (false, alloc_size, skip)

unfoldable pub exp_grow_size_prepare : Tables → ExpGrow → ℕ → Bool × ℕ × ℕ
exp_grow_size_prepare t exp_grow alloc_size_min =
    prepare_from sc_npsizes t exp_grow.next alloc_size_min 0

unfoldable pub exp_grow_size_commit : ExpGrow → ℕ → ExpGrow
exp_grow_size_commit exp_grow skip =
    if leb (pind_add (pind_add exp_grow.next skip) 1) exp_grow.limit
    then record exp_grow { next = pind_add exp_grow.next (pind_add skip 1) }
    else record exp_grow { next = exp_grow.limit }

unfoldable pub exp_grow_init : ExpGrow
exp_grow_init = record { next = sz_psz2ind (2 * 2 ^ 20); limit = sz_psz2ind sc_large_maxclass }
