-- ===== src/Fb/Find.antt =====
-- The bit searches of fb.h find the nearest bit of the value asked for.
use jemalloc.Base.{
  ℕ, zero, suc, ◌+◌, ◌-◌, ◌*◌, ◌≤◌, ◌<◌, ◌≡◌, inl, inr, refl, ◌∙◌, ap, sym, arith, Bool, true,
  false, Option, none, some, ℕ_discrete, dec_lt, Bool-cases,
}
use jemalloc.Fb.{Fb, group_at, view_group, find_up}
use jemalloc.Fb.Groups.{Group, first_set, is_zero, ffs_lu}

-- What a search upwards for a bit with `P` finds among the bits from `lo` on, below `hi`.
abbrev pub FoundUp : Group → ℕ → ℕ → Option ℕ → Type 0
FoundUp P lo hi none = (j : ℕ) → lo ≤ j → j < hi → P j ≡ false
FoundUp P lo hi (some p) =
    (lo ≤ p) × (p < hi) × (P p ≡ true) × ((j : ℕ) → lo ≤ j → j < p → P j ≡ false)

-- And a search downwards among the bits below `hi`.
abbrev pub FoundDown : Group → ℕ → Option ℕ → Type 0
FoundDown P hi none = (j : ℕ) → j < hi → P j ≡ false
FoundDown P hi (some p) = (p < hi) × (P p ≡ true) × ((j : ℕ) → p < j → j < hi → P j ≡ false)

abbrev pub First : Group → ℕ → ℕ → ℕ → Type 0
First P lo hi r =
    (lo ≤ r) × (r ≤ hi) × ((j : ℕ) → lo ≤ j → j < r → P j ≡ false) × (r < hi → P r ≡ true)

pub first_set-First : (a : Group) (i n e : ℕ) → i + n ≡ e → First a i e (first_set a i n)
unfolding first_set
first_set-First a i zero e h =
    (omega arith, omega arith, (λ j p q. absurd (omega arith)), (λ p. absurd (omega arith)))
first_set-First a i (suc n) e h = elim (Bool-cases (a i)) [
  | inl t ↦ rw t (omega arith, omega arith, (λ j p q. absurd (omega arith)), (λ p. t))
  | inr f ↦
      let (lo, hi, none_before, here) = first_set-First a (i + 1) n e (omega arith) in
      rw f
        (omega arith, hi, (λ j p q. before a i (first_set a (i + 1) n) f none_before j p q), here)
]
  where
    before :
        (a : Group) (i r : ℕ)
        → a i ≡ false
        → ((j : ℕ) → i + 1 ≤ j → j < r → a j ≡ false)
        → (j : ℕ) → i ≤ j
        → j < r
        → a j ≡ false
    before a i r f h j p q = elim (ℕ_discrete j i) [ yes e ↦ rw e f | no e ↦ h j (omega arith) q ]

-- A group that is not zero, seen at group `g` of the bits `P`.
found_here :
    (P group : Group) (g : ℕ)
    → ((b : ℕ) → b < 64 → group b ≡ P (64 * g + b))
    → is_zero group ≡ false
    → (hi : ℕ) → 64 * g + 64 ≤ hi
    → FoundUp P (64 * g) hi (some (g * 64 + ffs_lu group))
unfolding is_zero ffs_lu
found_here P group g same nz hi fits =
    let (lo, up, before, here) = first_set-First group 0 64 64 refl in
    let lt : first_set group 0 64 < 64 = ground arith in
    let r = first_set group 0 64 in
    let at : 64 * g + r ≡ g * 64 + r = omega arith in
    (
      omega arith,
      omega arith,
      ap P (sym at) ∙ sym (same r lt) ∙ here lt,
      (λ j p q.
          ap P (let e : j ≡ 64 * g + (j - 64 * g) = omega arith in e)
          ∙ sym (same (j - 64 * g) (omega arith))
          ∙ before (j - 64 * g) (omega arith) (omega arith)),
    )

pub none_here :
    (P group : Group) (g : ℕ)
    → ((b : ℕ) → b < 64 → group b ≡ P (64 * g + b))
    → is_zero group ≡ true
    → (j : ℕ) → 64 * g ≤ j
    → j < 64 * g + 64
    → P j ≡ false
unfolding is_zero
none_here P group g same z j p q =
    let (lo, up, before, here) = first_set-First group 0 64 64 refl in
    let all : first_set group 0 64 ≡ 64 = ground arith in
    ap P (let e : j ≡ 64 * g + (j - 64 * g) = omega arith in e)
    ∙ sym (same (j - 64 * g) (omega arith))
    ∙ before (j - 64 * g) (omega arith) (omega arith)

-- Nothing in one group: what is found above it is found.
found_above :
    (P : Group) (lo mid hi : ℕ) (r : Option ℕ)
    → lo ≤ mid
    → ((j : ℕ) → lo ≤ j → j < mid → P j ≡ false)
    → FoundUp P mid hi r
    → FoundUp P lo hi r
found_above P lo mid hi none h e f =
    λ j p q. elim (dec_lt j mid) [ yes s ↦ e j p s | no s ↦ f j (omega arith) q ]
found_above P lo mid hi (some p) h e (a, b, c, f) = (
  omega arith,
  b,
  c,
  (λ j s q. elim (dec_lt j mid) [ yes t ↦ e j s t | no t ↦ f j (omega arith) q ]),
)

pub find_up_lem :
    (rounds : ℕ) (fb : Fb) (val : Bool) (P group : Group) (g hi : ℕ)
    → hi ≡ 64 * (g + rounds + 1)
    → ((b : ℕ) → b < 64 → group b ≡ P (64 * g + b))
    → ((h b : ℕ) → g < h → b < 64 → view_group val (group_at fb h) b ≡ P (64 * h + b))
    → FoundUp P (64 * g) hi (find_up rounds fb val g group)
unfolding find_up
find_up_lem zero fb val P group g hi e same next = elim (Bool-cases (is_zero group)) [
  | inl z ↦ rw z (λ j p q. none_here P group g same z j p (omega arith))
  | inr z ↦ rw z (found_here P group g same z hi (omega arith))
]
find_up_lem (suc rounds) fb val P group g hi e same next = elim (Bool-cases (is_zero group)) [
  | inl z ↦ rw z (
      found_above P (64 * g) (64 * (g + 1)) hi _ (omega arith)
        (λ j p q. none_here P group g same z j p (omega arith))
        (find_up_lem rounds fb val P (view_group val (group_at fb (g + 1))) (g + 1) hi (omega arith)
          (λ b p. next (g + 1) b (omega arith) p) (λ h b p q. next h b (omega arith) q)))
  | inr z ↦ rw z (found_here P group g same z hi (omega arith))
]
