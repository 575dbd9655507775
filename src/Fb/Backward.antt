-- ===== src/Fb/Backward.antt =====
-- `fb_find_impl` searching backward: `fb_fls` and `fb_flu`.
use jemalloc.Base.{
  ℕ, zero, suc, ◌+◌, ◌-◌, ◌*◌, ◌/◌, ◌%◌, ◌≤◌, ◌<◌, ◌≡◌, refl, sym, subst, ap, ◌∙◌, arith, Bool,
  true, false, not, ◌&&◌, Option, none, some, leb, if◌then◌else◌, dec_lt, Bool-cases, inl, inr,
}
use jemalloc.Fb.{Fb, group_at, fb_get, view_group, find_down, fb_find_backward}
use jemalloc.Fb.Groups.{Group, group_and, low_mask, is_zero, first_set, last_set, fls_lu}
use jemalloc.Fb.Find.{FoundDown, none_here, first_set-First}
use jemalloc.Fb.Forward.{fb_get-group}

last_set-below :
    (a : Group) (n : ℕ)
    → (last_set a n ≤ n)
      × ((j : ℕ) → last_set a n ≤ j → j < n → a j ≡ false)
      × (0 < last_set a n → a (last_set a n - 1) ≡ true)
unfolding last_set
last_set-below a zero = (omega arith, (λ j p q. absurd (omega arith)), (λ p. absurd (omega arith)))
last_set-below a (suc n) = elim (Bool-cases (a n)) [
  | inl t ↦
      let here : suc n - 1 ≡ n = omega arith in
      rw t (omega arith, (λ j p q. absurd (omega arith)), (λ p. ap a here ∙ t))
  | inr f ↦
      let (le, above, at) = last_set-below a n in
      rw f (omega arith, (λ j p q. top n (last_set a n) f above j p q), at)
]
  where
    top :
        (n r : ℕ)
        → a n ≡ false
        → ((j : ℕ) → r ≤ j → j < n → a j ≡ false)
        → (j : ℕ) → r ≤ j
        → j < suc n
        → a j ≡ false
    top n r f above j p q = elim (dec_lt j n) [
      | yes below ↦ above j p below
      | no at ↦ let e : j ≡ n = omega arith in ap a e ∙ f
    ]

-- A group that is not zero has a bit set.
last_set-pos : (a : Group) → is_zero a ≡ false → 0 < last_set a 64
unfolding is_zero
last_set-pos a nz =
    let (le, above, at) = last_set-below a 64 in
    let (lo, hi, before, here) = first_set-First a 0 64 64 refl in
    let inside : first_set a 0 64 < 64 = ground arith in
    elim (dec_lt 0 (last_set a 64)) [
      | yes p ↦ p
      | no p ↦
          absurd (
            let set = here inside in
            let unset = above (first_set a 0 64) (omega arith) inside in cc)
    ]

last_here :
    (P group : Group) (g : ℕ)
    → ((b : ℕ) → b < 64 → group b ≡ P (64 * g + b))
    → is_zero group ≡ false
    → FoundDown P (64 * g + 64) (some (g * 64 + fls_lu group))
unfolding fls_lu
last_here P group g same nz =
    let (le, above, at) = last_set-below group 64 in
    let some_bit = last_set-pos group nz in
    let r = last_set group 64 - 1 in
    let place : 64 * g + r ≡ g * 64 + r = omega arith in
    (
      omega arith,
      ap P (sym place) ∙ sym (same r (omega arith)) ∙ at some_bit,
      (λ j p q.
          ap P (let e : j ≡ 64 * g + (j - 64 * g) = omega arith in e)
          ∙ sym (same (j - 64 * g) (omega arith))
          ∙ above (j - 64 * g) (omega arith) (omega arith)),
    )

-- Nothing in one group: what is found below it is found.
last_below :
    (P : Group) (mid hi : ℕ) (o : Option ℕ)
    → mid ≤ hi
    → ((j : ℕ) → mid ≤ j → j < hi → P j ≡ false)
    → FoundDown P mid o
    → FoundDown P hi o
last_below P mid hi none h e f =
    λ j p. elim (dec_lt j mid) [ yes s ↦ f j s | no s ↦ e j (omega arith) p ]
last_below P mid hi (some r) h e (a, b, f) = (
  omega arith,
  b,
  (λ j s q. elim (dec_lt j mid) [ yes t ↦ f j s t | no t ↦ e j (omega arith) q ]),
)

find_down-FoundDown :
    (fb : Fb) (val : Bool) (P group : Group) (g : ℕ)
    → ((b : ℕ) → b < 64 → group b ≡ P (64 * g + b))
    → ((h b : ℕ) → h < g → b < 64 → view_group val (group_at fb h) b ≡ P (64 * h + b))
    → FoundDown P (64 * g + 64) (find_down fb val g group)
unfolding find_down
find_down-FoundDown fb val P group zero same next = elim (Bool-cases (is_zero group)) [
  | inl z ↦ rw z (λ j q. none_here P group 0 same z j (omega arith) (omega arith))
  | inr z ↦
      let at : 0 * 64 + fls_lu group ≡ fls_lu group = omega arith in
      rw z (subst (λ r. FoundDown P (64 * 0 + 64) (some r)) at (last_here P group 0 same z))
]
find_down-FoundDown fb val P group (suc g) same next = elim (Bool-cases (is_zero group)) [
  | inl z ↦ rw z (
      last_below P (64 * g + 64) (64 * suc g + 64) _ (omega arith)
        (λ j p q. none_here P group (suc g) same z j (omega arith) q)
        (find_down-FoundDown fb val P (view_group val (group_at fb g)) g
          (λ b p. next g b (omega arith) p) (λ h b p q. next h b (omega arith) q)))
  | inr z ↦ rw z (last_here P group (suc g) same z)
]

-- `o` is the last bit up to `start` with the value `val`, or `none` if there is none.
abbrev pub IsPrev : Fb → ℕ → Bool → Option ℕ → Type 0
IsPrev fb start val none = (j : ℕ) → j ≤ start → fb_get fb j ≡ not val
IsPrev fb start val (some r) =
    (r ≤ start) × (fb_get fb r ≡ val) × ((j : ℕ) → r < j → j ≤ start → fb_get fb j ≡ not val)

-- The bits that the search looks for.
sought : Fb → ℕ → Bool → Group
sought fb start val j = leb j start && (if val then fb_get fb j else not (fb_get fb j))

view-sought :
    (fb : Fb) (start : ℕ) (val : Bool) (g b : ℕ)
    → b < 64
    → 64 * g + b ≤ start
    → view_group val (group_at fb g) b ≡ sought fb start val (64 * g + b)
unfolding sought
view-sought fb start true g b h p = ground (arith, fb_get-group fb g b h)
view-sought fb start false g b h p = ground (arith, fb_get-group fb g b h)

first-sought :
    (fb : Fb) (start : ℕ) (val : Bool) (b : ℕ)
    → b < 64
    → group_and (view_group val (group_at fb (start / 64))) (low_mask (start % 64 + 1)) b
      ≡ sought fb start val (64 * (start / 64) + b)
unfolding sought
first-sought fb start true b h = ground (arith, fb_get-group fb (start / 64) b h)
first-sought fb start false b h = ground (arith, fb_get-group fb (start / 64) b h)

other_sought :
    (fb : Fb) (start : ℕ) (val : Bool) (j : ℕ)
    → j ≤ start
    → sought fb start val j ≡ false
    → fb_get fb j ≡ not val
unfolding sought
other_sought fb start true j p e = ground arith
other_sought fb start false j p e = ground arith

is_sought :
    (fb : Fb) (start : ℕ) (val : Bool) (j : ℕ)
    → sought fb start val j ≡ true
    → (j ≤ start) × (fb_get fb j ≡ val)
unfolding sought
is_sought fb start true j e = ground arith
is_sought fb start false j e = ground arith

IsPrev-sought :
    (fb : Fb) (start : ℕ) (val : Bool) (hi : ℕ) (o : Option ℕ)
    → start < hi
    → FoundDown (sought fb start val) hi o
    → IsPrev fb start val o
IsPrev-sought fb start val hi none h f = λ j p. other_sought fb start val j p (f j (omega arith))
IsPrev-sought fb start val hi (some r) h (a, b, f) =
    let (le, is) = is_sought fb start val r b in
    (le, is, λ j p q. other_sought fb start val j q (f j p (omega arith)))

-- For every bitmap: searching backward returns the last bit up to and including the start that has
-- the value asked for, or says that there is none.
pub fb_find_backward-IsPrev :
    (fb : Fb) (start : ℕ) (val : Bool) → IsPrev fb start val (fb_find_backward fb start val)
unfolding fb_find_backward
fb_find_backward-IsPrev fb start val =
    IsPrev-sought fb start val (64 * (start / 64) + 64) _ (omega arith) (
      find_down-FoundDown fb val (sought fb start val) _ (start / 64) (first-sought fb start val)
        (λ h b p q. view-sought fb start val h b q (omega arith)))
