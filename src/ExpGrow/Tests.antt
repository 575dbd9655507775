-- ===== src/ExpGrow/Tests.antt =====
-- The series from its start.
use jemalloc.Base.{◌<◌, arith, true}
use jemalloc.BitUtil.{clz, fls_lu, fls_u64, lg_floor, lg_ceil}
use jemalloc.Sc.Params.{sc_large_maxclass}
use jemalloc.Sc.Build.{sc_data_init}
use jemalloc.Sz.{sz_psz2ind}
use jemalloc.Sz.Table.{sz_boot}
use jemalloc.ExpGrow.{exp_grow_init, exp_grow_size_prepare}
use jemalloc.ExpGrow.Series.{IsPrepared, exp_grow_size_prepare-IsPrepared}

init_below : exp_grow_init.next < sz_psz2ind sc_large_maxclass
unfolding exp_grow_init sz_psz2ind lg_ceil lg_floor fls_u64 fls_lu clz
init_below = omega arith

exp_grow_size_prepare-IsPrepared_example :
    IsPrepared
      (sz_boot sc_data_init true)
      exp_grow_init.next
      5000000
      (exp_grow_size_prepare (sz_boot sc_data_init true) exp_grow_init 5000000)
exp_grow_size_prepare-IsPrepared_example =
    exp_grow_size_prepare-IsPrepared (sz_boot sc_data_init true) exp_grow_init 5000000 init_below
