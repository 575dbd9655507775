-- ===== src/Fb/Count.antt =====
-- `fb_scount` counts the set bits of its range.
use jemalloc.Base.{
  ◌⊎◌, inl, inr, ℕ, zero, suc, ◌+◌, ◌-◌, ◌*◌, ◌/◌, ◌%◌, ◌≤◌, ◌<◌, ◌≡◌, refl, ◌∙◌, ap, ap₂, arith,
  Bool, true, false, ◌&&◌, [], ◌∷◌, ltb, if◌then◌else◌, set, ℕ_discrete, dec_lt, lt→ltb, le→ltb,
  pos→==0,
}
use jemalloc.Fb.{
  Fb, group_at, fb_get, visit_at, visit_rest, fb_visit_impl, fb_scount_visitor, fb_scount,
}
use jemalloc.Fb.Groups.{Group, ones, group_and, group_shl, group_shr, count_from, popcount_lu}
use jemalloc.Fb.Assign.{in_range}

-- `count_from` reads the bits of its range only.
pub count_from-eq :
    (a b : Group) (i n : ℕ)
    → ((j : ℕ) → i ≤ j → j < i + n → a j ≡ b j)
    → count_from a i n ≡ count_from b i n
unfolding count_from
count_from-eq a b i zero h = refl
count_from-eq a b i (suc n) h =
    let here = h i (omega arith) (omega arith) in
    let rest = count_from-eq a b (i + 1) n (λ j p q. h j (omega arith) (omega arith)) in
    rw (here, rest) refl

pub count_from-at : (a : Group) {i j m n : ℕ} → i ≡ j → m ≡ n → count_from a i m ≡ count_from a j n
count_from-at a p q = ap₂ (count_from a) p q

pub count_from-add :
    (a : Group) (i m n : ℕ) → count_from a i (m + n) ≡ count_from a i m + count_from a (i + m) n
unfolding count_from
count_from-add a i zero n = omega (
  arith,
  count_from-at a {i = i} {j = i} {m = 0 + n} {n = n} refl (omega arith),
  count_from-at a {i = i + 0} {j = i} {m = n} {n = n} (omega arith) refl,
)
count_from-add a i (suc m) n = omega (
  arith,
  count_from-at a {i = i} {j = i} {m = suc m + n} {n = suc (m + n)} refl (omega arith),
  count_from-add a (i + 1) m n,
  count_from-at a {i = i + 1 + m} {j = i + suc m} {m = n} {n = n} (omega arith) refl,
)

pub count_from-zero :
    (a : Group) (i n : ℕ) → ((j : ℕ) → i ≤ j → j < i + n → a j ≡ false) → count_from a i n ≡ 0
unfolding count_from
count_from-zero a i zero h = refl
count_from-zero a i (suc n) h =
    rw (h i (omega arith) (omega arith))
      (omega (arith, count_from-zero a (i + 1) n (λ j p q. h j (omega arith) (omega arith))))

pub count_from-shift :
    (a b : Group) (i k n : ℕ)
    → ((j : ℕ) → i ≤ j → j < i + n → a j ≡ b (j + k))
    → count_from a i n ≡ count_from b (i + k) n
unfolding count_from
count_from-shift a b i k zero h = refl
count_from-shift a b i k (suc n) h =
    let rest = count_from-shift a b (i + 1) k n (λ j p q. h j (omega arith) (omega arith)) in
    rw (h i (omega arith) (omega arith)) (
      omega (
        arith,
        rest,
        count_from-at b {i = i + 1 + k} {j = i + k + 1} {m = n} {n = n} (omega arith) refl,
      ))

-- A mask of the bits from `lo` on counts those bits.
and_off : (w m : Bool) → m ≡ false → (w && m) ≡ false
and_off w m e = ground arith

and_on : (w m : Bool) → m ≡ true → (w && m) ≡ w
and_on w m e = ground arith

masked :
    (w m : Group) (lo n : ℕ)
    → lo + n ≤ 64
    → ((j : ℕ) → j < 64 → m j ≡ in_range lo n j)
    → popcount_lu (group_and w m) ≡ count_from w lo n
unfolding popcount_lu
masked w m lo n h e =
    let wm = group_and w m in
    let rest = 64 - (lo + n) in
    let low : count_from wm 0 lo ≡ 0 =
      count_from-zero wm 0 lo (λ j p q. and_off (w j) (m j) (e j (omega arith) ∙ ground arith)) in
    let high : count_from wm (lo + n) rest ≡ 0 =
      count_from-zero wm (lo + n) rest
        (λ j p q. and_off (w j) (m j) (e j (omega arith) ∙ ground arith)) in
    let mid : count_from wm lo n ≡ count_from w lo n =
      count_from-eq wm w lo n (λ j p q. and_on (w j) (m j) (e j (omega arith) ∙ ground arith)) in
    omega (
      arith,
      count_from-at wm {i = 0} {j = 0} {m = 64} {n = lo + (n + rest)} refl (omega arith),
      count_from-add wm 0 lo (n + rest),
      count_from-add wm (0 + lo) n rest,
      count_from-at wm {i = 0 + lo} {j = lo} {m = n} {n = n} (omega arith) refl,
      count_from-at wm {i = 0 + lo + n} {j = lo + n} {m = rest} {n = rest} (omega arith) refl,
      low,
      high,
      mid,
    )

-- The bits of a group in the bitmap.
group-count :
    (fb : Fb) (g lo n : ℕ)
    → lo + n ≤ 64
    → count_from (group_at fb g) lo n ≡ count_from (fb_get fb) (64 * g + lo) n
unfolding fb_get
group-count fb g lo n h =
    count_from-shift (group_at fb g) (fb_get fb) lo (64 * g) n
      (λ j p q. at_bit fb g j (omega arith))
    ∙ count_from-at (fb_get fb) (omega arith) refl
  where
    at_bit : (fb : Fb) (g j : ℕ) → j < 64 → group_at fb g j ≡ fb_get fb (j + 64 * g)
    at_bit fb g j h =
        let q : (j + 64 * g) / 64 ≡ g = omega arith in
        let r : (j + 64 * g) % 64 ≡ j = omega arith in rw (q, r)

set_self : (fb : Fb) (g : ℕ) → set fb g (group_at fb g) ≡ fb
set_self [] g = refl
set_self (x ∷ fb) zero = refl
set_self (x ∷ fb) (suc g) = ap (λ t. x ∷ t) (set_self fb g)

-- A visit adds the set bits under the mask, and leaves the bitmap as it is.
visit-count :
    (fb : Fb) (acc g lo n : ℕ) (m : Group)
    → lo + n ≤ 64
    → ((j : ℕ) → j < 64 → m j ≡ in_range lo n j)
    → visit_at fb_scount_visitor (acc, fb) g m ≡ (acc + count_from (fb_get fb) (64 * g + lo) n, fb)
unfolding fb_scount_visitor
visit-count fb acc g lo n m h e =
    rw (masked (group_at fb g) m lo n h e, group-count fb g lo n h, set_self fb g) refl

count_from-nil : (a : Group) (i : ℕ) → count_from a i 0 ≡ 0
unfolding count_from
count_from-nil a i = refl

none_left : (a : Group) (i n : ℕ) → n ≡ 0 → count_from a i n ≡ 0
none_left a i n e = rw e (count_from-nil a i)

-- Groups laid end to end.
next_group :
    (a : Group) (acc g cnt : ℕ)
    → 64 < cnt
    → acc + count_from a (64 * g + 0) 64 + count_from a (64 * (g + 1)) (cnt - 64)
      ≡ acc + count_from a (64 * g) cnt
next_group a acc g cnt h = omega (
  arith,
  count_from-at a {i = 64 * g + 0} {j = 64 * g} {m = 64} {n = 64} (omega arith) refl,
  count_from-at a {i = 64 * (g + 1)} {j = 64 * g + 64} {m = cnt - 64} {n = cnt - 64} (omega arith)
      refl,
  count_from-at a {i = 64 * g} {j = 64 * g} {m = cnt} {n = 64 + (cnt - 64)} refl (omega arith),
  count_from-add a (64 * g) 64 (cnt - 64),
)

rest-count :
    (fuel : ℕ) (fb : Fb) (acc g cnt : ℕ)
    → cnt < fuel
    → visit_rest fuel fb_scount_visitor (acc, fb) g cnt
      ≡ (acc + count_from (fb_get fb) (64 * g) cnt, fb)
unfolding visit_rest
rest-count zero fb acc g cnt h = absurd (omega arith)
rest-count (suc fuel) fb acc g cnt h = elim (dec_lt 64 cnt) [
  | yes p ↦
      rw (lt→ltb 64 cnt p, visit-count fb acc g 0 64 ones (omega arith) (λ j q. ground arith))
        (rest-count fuel fb (acc + count_from (fb_get fb) (64 * g + 0) 64) (g + 1) (cnt - 64)
            (omega arith)
          ∙ ap (λ t. (t, fb)) (next_group (fb_get fb) acc g cnt p))
  | no p ↦ elim (ℕ_discrete cnt 0) [
    | yes e ↦ rw (e, count_from-nil (fb_get fb) (64 * g)) (ap (λ t. (t, fb)) (omega arith))
    | no e ↦
        rw (le→ltb 64 cnt (omega arith), pos→==0 cnt (omega arith))
          (visit-count fb acc g 0 cnt (group_shr ones (64 - cnt)) (omega arith)
              (λ j q. ground arith)
            ∙ ap (λ t. (acc + t, fb)) (count_from-at (fb_get fb) (omega arith) refl))
  ]
]

first_group :
    (a : Group) (start cnt n : ℕ)
    → n ≤ cnt
    → (n ≡ cnt) ⊎ (start % 64 + n ≡ 64)
    → 0
        + count_from a (64 * (start / 64) + start % 64) n
        + count_from a (64 * (start / 64 + 1)) (cnt - n)
      ≡ count_from a start cnt
first_group a start cnt n h (inl e) = omega (
  arith,
  count_from-at a {i = 64 * (start / 64) + start % 64} {j = start} {m = n} {n = cnt} (omega arith)
      e,
  none_left a (64 * (start / 64 + 1)) (cnt - n) (omega arith),
)
first_group a start cnt n h (inr e) = omega (
  arith,
  count_from-at a {i = 64 * (start / 64) + start % 64} {j = start} {m = n} {n = n} (omega arith)
      refl,
  count_from-at a {i = 64 * (start / 64 + 1)} {j = start + n} {m = cnt - n} {n = cnt - n}
      (omega arith) refl,
  count_from-at a {i = start} {j = start} {m = cnt} {n = n + (cnt - n)} refl (omega arith),
  count_from-add a start n (cnt - n),
)

-- `fb_scount` is the number of set bits among those of the range, read one by one.
pub fb_scount-count :
    (fb : Fb) (start cnt : ℕ) → fb_scount fb start cnt ≡ count_from (fb_get fb) start cnt
unfolding fb_scount fb_visit_impl
fb_scount-count fb start cnt =
    let g = start / 64 in
    let b = start % 64 in
    let n : ℕ = (if ltb 64 (b + cnt) then 64 - b else cnt) in
    let n-le : (n ≤ cnt) × (b + n ≤ 64) × ((n ≡ cnt) ⊎ (b + n ≡ 64)) = ground arith in
    let mask = group_shl (group_shr ones (64 - n)) b in
    let one = visit-count fb 0 g b n mask (omega (arith, n-le)) (λ j q. ground (arith, n-le)) in
    let acc = 0 + count_from (fb_get fb) (64 * g + b) n in
    ap (λ t. (visit_rest (cnt + 1) fb_scount_visitor t (g + 1) (cnt - n)).0) one
    ∙ ap (λ t. t.0) (rest-count (cnt + 1) fb acc (g + 1) (cnt - n) (omega arith))
    ∙ first_group (fb_get fb) start cnt n n-le.0 n-le.2
