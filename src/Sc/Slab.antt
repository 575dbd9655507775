-- ===== src/Sc/Slab.antt =====
-- `slab_size` of src/sc.c: the least number of pages that regions of one size fill exactly.
use native.Mathlib.Nat.{mul-div_cancel, mul-mod_right, div-add-mod', div-mul-le_self}
use jemalloc.Base.{
  true, false, Bool, ◌↔◌, pow2_pos, pow2_mono, ℕ, zero, suc, ◌+◌, ◌*◌, ◌/◌, ◌%◌, ◌^◌, ◌≤◌, ◌<◌, ◌≡◌,
  ◌≢◌, arith, some, u64, shl64, ◌==◌, ℕ_discrete,
}
use jemalloc.Sc.{slab_loop, slab_size, reg_size_compute}

-- What the loop returns from `k` pages on: the first count of pages that regions fill exactly.
record Perfect (page reg_size k pages : ℕ) : Type 0 where
  pub from : k ≤ pages
  pub to : pages ≤ reg_size
  pub exact : pages * page % reg_size ≡ 0
  pub first : (j : ℕ) → k ≤ j → j < pages → j * page % reg_size ≢ 0

exact_test : (x r : ℕ) → 0 < r → x < 2 ^ 64 → ((x == u64 (x / r * r)) ≡ true) ↔ (x % r ≡ 0)
exact_test x r p h =
    let le = div-mul-le_self x r in
    let d = div-add-mod' x r in ((λ e. ground arith), (λ e. ground arith))

not_true : {b : Bool} → b ≢ true → b ≡ false
not_true h = ground arith

-- As many pages as a region has bytes hold whole regions.
below_reg : (page reg_size k : ℕ) → k ≤ reg_size → k * page % reg_size ≢ 0 → k < reg_size
below_reg page reg_size k h e = elim (ℕ_discrete k reg_size) [
  | yes q ↦ absurd (e (rw q (mul-mod_right reg_size page)))
  | no q ↦ omega arith
]

first_of :
    (k page reg_size pages : ℕ)
    → k * page % reg_size ≢ 0
    → ((j : ℕ) → k + 1 ≤ j → j < pages → j * page % reg_size ≢ 0)
    → (j : ℕ) → k ≤ j
    → j < pages
    → j * page % reg_size ≢ 0
first_of k page reg_size pages e rest j a b = elim (ℕ_discrete j k) [
  | yes q ↦ (λ z. e (rw q at z))
  | no q ↦ rest j (omega arith) b
]

loop_lem :
    (fuel page reg_size k : ℕ)
    → 0 < page
    → 0 < k
    → k ≤ reg_size
    → reg_size < k + fuel
    → (reg_size + 1) * page < 2 ^ 64
    → (pages : ℕ) × (slab_loop fuel page reg_size (k * page) (k * page / reg_size)
        ≡ some (pages * page))
      × Perfect page reg_size k pages
unfolding slab_loop
loop_lem zero page reg_size k hp h0 hk hf small = absurd (omega arith)
loop_lem (suc fuel) page reg_size k hp h0 hk hf small =
    let bound : (k + 1) * page < 2 ^ 64 = grind arith in
    let test = exact_test (k * page) reg_size (omega arith) (omega arith) in
    elim (ℕ_discrete (k * page % reg_size) 0) [
      | yes e ↦ (
        k,
        rw (test.1 e),
        record { from = omega arith; to = hk; exact = e; first = λ j a b. absurd (omega arith) },
      )
      | no e ↦
          let k-lt : k < reg_size = below_reg page reg_size k hk e in
          let (pages, r, p) =
            loop_lem fuel page reg_size (k + 1) hp (omega arith) (omega arith) (omega arith)
              small in
          let next : u64 (k * page + page) ≡ (k + 1) * page = omega arith in
          let off : (k * page == u64 (k * page / reg_size * reg_size)) ≡ false =
            not_true (λ t. e (test.0 t)) in
          (
            pages,
            rw (off, next) r,
            record {
              from = omega (arith, p.from);
              to = p.to;
              exact = p.exact;
              first = λ j a b. first_of k page reg_size pages e p.first j a b;
            },
          )
    ]

slab_size_value :
    (lg_page lg_base lg_delta ndelta pages : ℕ)
    → lg_page < 64
    → let r = reg_size_compute lg_base lg_delta ndelta in
      let page = 2 ^ lg_page in
      slab_loop r page r page (page / r) ≡ some (pages * page)
      → pages < 2 ^ 32
      → slab_size lg_page lg_base lg_delta ndelta ≡ pages
unfolding slab_size
slab_size_value lg_page lg_base lg_delta ndelta pages h e small =
    let fits : shl64 1 lg_page ≡ 2 ^ lg_page =
      omega (arith, pow2_mono {a = lg_page} {b = 63} (omega arith)) in
    let whole = mul-div_cancel pages (pow2_pos lg_page) in
    rw (slab_size, fits, e, fits, whole) (omega (arith, small))

-- For a page of less than 64 bits and a positive region size below `2 ^ 31` such that one more than the
-- region size in pages is below `2 ^ 64`: `slab_size` is positive as an `int` too and at most the region
-- size in number, that many pages are a multiple of the region size, and no smaller positive number of
-- pages is.
pub slab_size_lem :
    (lg_page lg_base lg_delta ndelta : ℕ)
    → lg_page < 64
    → let reg_size = reg_size_compute lg_base lg_delta ndelta in
      let page = 2 ^ lg_page in
      let pages = slab_size lg_page lg_base lg_delta ndelta in
      0 < reg_size
      → reg_size < 2 ^ 31
      → (reg_size + 1) * page < 2 ^ 64
      → (0 < pages)
        × (pages < 2 ^ 31)
        × (pages ≤ reg_size)
        × (pages * page % reg_size ≡ 0)
        × ((j : ℕ) → 0 < j → j < pages → j * page % reg_size ≢ 0)
slab_size_lem lg_page lg_base lg_delta ndelta h p int small =
    let r = reg_size_compute lg_base lg_delta ndelta in
    let page = 2 ^ lg_page in
    let one : 1 * page ≡ page = omega arith in
    let (pages, e, f) =
      loop_lem r page r 1 (pow2_pos lg_page) (omega arith) p (omega arith) small in
    let e' : slab_loop r page r page (page / r) ≡ some (pages * page) = rw one at e in
    rw (slab_size_value lg_page lg_base lg_delta ndelta pages h e' (omega (arith, f.to, int))) (
      omega (arith, f.from),
      omega (arith, f.to, int),
      f.to,
      f.exact,
      λ j a b. f.first j (omega arith) b,
    )
