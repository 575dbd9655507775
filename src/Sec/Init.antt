-- ===== src/Sec/Init.antt =====
-- The small extent cache after `sec_init` of src/sec.c.
use jemalloc.Base.{◌≡◌, refl, arith, Bool, true, false}
use jemalloc.Sec.{SecOpts, sec_bin_init}
use jemalloc.Sec.Account.{weigh, IsBin}
use jemalloc.Sec.Shards.{Sec}
use jemalloc.Sec.Whole.{AreBins}
use jemalloc.Sec.Picked.{nbins}

-- Without an error the bins are sound; after one, and for no shards, no size is cached.
pub record IsInit (r : Sec × Bool) : Type 0 where
  pub sound : r.1 ≡ false → AreBins r.0.opts (nbins r.0.opts r.0.npsizes) r.0.bins
  pub unused : r.1 ≡ true → r.0.opts.nshards ≡ 0
  pub unsupported : r.0.opts.nshards ≡ 0 → r.0.opts.max_alloc ≡ 0

pub init-IsBin : (opts : SecOpts) → IsBin opts sec_bin_init
unfolding sec_bin_init weigh
init-IsBin opts = record {
  counts = record { all = refl; some_pinned = refl };
  bound = omega arith;
  low = λ t. omega arith;
}
