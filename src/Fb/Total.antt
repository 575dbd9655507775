-- ===== src/Fb/Total.antt =====
-- How a range write changes the number of set bits.
use jemalloc.Base.{
  ℕ, zero, suc, ◌+◌, ◌-◌, ◌*◌, ◌≤◌, ◌<◌, ◌≡◌, refl, ◌∙◌, arith, Bool, true, not, ◌&&◌, ◌||◌,
  if◌then◌else◌, length,
}
use jemalloc.Fb.{Fb, fb_get, fb_set_range, fb_unset_range}
use jemalloc.Fb.Groups.{Group, count_from}
use jemalloc.Fb.Count.{count_from-eq, count_from-add, count_from-at, count_from-zero}
use jemalloc.Fb.Assign.{in_range, fb_get-set_range, fb_get-unset_range}

pub count_from-le : (a : Group) (i n : ℕ) → count_from a i n ≤ n
unfolding count_from
count_from-le a i zero = omega arith
count_from-le a i (suc n) = ground (arith, count_from-le a (i + 1) n)

pub count_from_mono :
    (a b : Group) (i n : ℕ)
    → ((j : ℕ) → a j ≡ true → b j ≡ true)
    → count_from a i n ≤ count_from b i n
unfolding count_from
count_from_mono a b i zero h = omega arith
count_from_mono a b i (suc n) h =
    let rest = count_from_mono a b (i + 1) n h in let here = h i in ground (arith, rest, here)

-- How many of the `n` bits from `i` on lie in the range.
overlap : ℕ → ℕ → ℕ → ℕ → ℕ
overlap start cnt i n = count_from (in_range start cnt) i n

-- Setting the range adds its bits that were not set.
count_from-set :
    (a : Group) (start cnt i n : ℕ)
    → count_from (λ j. in_range start cnt j || a j) i n
        + count_from (λ j. in_range start cnt j && a j) i n
      ≡ count_from a i n + overlap start cnt i n
unfolding count_from overlap
count_from-set a start cnt i zero = refl
count_from-set a start cnt i (suc n) =
    bit (in_range start cnt i) (a i) _ _ _ _ (count_from-set a start cnt (i + 1) n)
  where
    bit :
        (r x : Bool) (p q s t : ℕ)
        → p + q ≡ s + t
        → (if r || x then 1 else 0) + p + ((if r && x then 1 else 0) + q)
          ≡ (if x then 1 else 0) + s + ((if r then 1 else 0) + t)
    bit r x p q s t e = ground arith

count_from-unset :
    (a : Group) (start cnt i n : ℕ)
    → count_from (λ j. not (in_range start cnt j) && a j) i n
        + count_from (λ j. in_range start cnt j && a j) i n
      ≡ count_from a i n
unfolding count_from
count_from-unset a start cnt i zero = refl
count_from-unset a start cnt i (suc n) =
    bit (in_range start cnt i) (a i) _ _ _ (count_from-unset a start cnt (i + 1) n)
  where
    bit :
        (r x : Bool) (p q s : ℕ)
        → p + q ≡ s
        → (if not r && x then 1 else 0) + p + ((if r && x then 1 else 0) + q)
          ≡ (if x then 1 else 0) + s
    bit r x p q s e = ground arith

pub count_from-all : (i n : ℕ) → count_from (λ j. true) i n ≡ n
unfolding count_from
count_from-all i zero = refl
count_from-all i (suc n) = omega (arith, count_from-all (i + 1) n)

count_from-part :
    (a : Group) (start cnt n : ℕ)
    → start + cnt ≤ n
    → count_from (λ j. in_range start cnt j && a j) 0 n ≡ count_from a start cnt
count_from-part a start cnt n fits =
    let part : Group = λ j. in_range start cnt j && a j in
    let rest = n - (start + cnt) in
    omega (
      arith,
      count_from-at part {i = 0} {j = 0} {m = n} {n = start + (cnt + rest)} refl (omega arith),
      count_from-add part 0 start (cnt + rest),
      count_from-at part {i = 0 + start} {j = start} {m = cnt + rest} {n = cnt + rest} (omega arith)
          refl,
      count_from-add part start cnt rest,
      count_from-zero part 0 start (λ j p q. ground arith),
      count_from-zero part (start + cnt) rest (λ j p q. ground arith),
      count_from-eq part a start cnt (λ j p q. ground arith),
    )

overlap-inside : (start cnt n : ℕ) → start + cnt ≤ n → overlap start cnt 0 n ≡ cnt
unfolding overlap
overlap-inside start cnt n fits =
    count_from-eq (in_range start cnt) (λ j. in_range start cnt j && true) 0 n
      (λ j p q. ground arith)
    ∙ count_from-part (λ j. true) start cnt n fits
    ∙ count_from-all start cnt

-- The set bits of the first `n`.
abbrev pub total : Fb → ℕ → ℕ
total fb n = count_from (fb_get fb) 0 n

module _ (fb : Fb) (start cnt n : ℕ) (some_bits : 0 < cnt) (fits : start + cnt ≤ n)
    (room : n ≤ 64 * length fb) where
  pub total-set_range :
      total (fb_set_range fb start cnt) n + count_from (fb_get fb) start cnt ≡ total fb n + cnt
  total-set_range = omega (
    arith,
    count_from-eq (fb_get (fb_set_range fb start cnt)) (λ j. in_range start cnt j || fb_get fb j) 0
        n (λ j p q. fb_get-set_range fb start cnt j some_bits (omega arith)),
    count_from-set (fb_get fb) start cnt 0 n,
    count_from-part (fb_get fb) start cnt n fits,
    overlap-inside start cnt n fits,
  )

  pub total-unset_range :
      total (fb_unset_range fb start cnt) n + count_from (fb_get fb) start cnt ≡ total fb n
  total-unset_range = omega (
    arith,
    count_from-eq (fb_get (fb_unset_range fb start cnt))
        (λ j. not (in_range start cnt j) && fb_get fb j) 0 n
        (λ j p q. fb_get-unset_range fb start cnt j some_bits (omega arith)),
    count_from-unset (fb_get fb) start cnt 0 n,
    count_from-part (fb_get fb) start cnt n fits,
  )
