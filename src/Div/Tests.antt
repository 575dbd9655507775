-- ===== src/Div/Tests.antt =====
-- Division by the size class 48.
use jemalloc.Base.{◌*◌, ◌≡◌, refl, arith}
use jemalloc.Div.{div_init, div_compute}
use jemalloc.Div.Exact.{div_compute-div_init}

div_compute-div_init_example : div_compute (div_init 48) (48 * 85) ≡ 85
div_compute-div_init_example = div_compute-div_init 48 85 (omega arith) (omega arith)

multiple : div_compute (div_init 48) 4080 ≡ 85
unfolding div_compute div_init
multiple = refl
