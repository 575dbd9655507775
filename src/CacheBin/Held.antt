-- ===== src/CacheBin/Held.antt =====
-- What the stores and moves of a cache bin do to the pointers that memory holds.
use jemalloc.Base.{
  ℕ, zero, suc, ◌+◌, ◌-◌, ◌*◌, ◌≤◌, ◌<◌, ◌≡◌, ◌⊎◌, refl, subst, ap₂, ◌∙◌, arith, Bool, true, false,
  List, [], ◌∷◌, ◌++◌, ◌==◌, if◌then◌else◌, length, take,
}
use jemalloc.CacheBin.Cells.{Memory, word, store, store_all, load_all, memmove, Holds}
use jemalloc.CacheBin.{scan}

pub Holds-same :
    (m m' : Memory) (p : ℕ) (vs : List ℕ)
    → ((q : ℕ) → p ≤ q → q < p + word * length vs → m' q ≡ m q)
    → Holds m p vs
    → Holds m' p vs
Holds-same m m' p [] same h = tt
Holds-same m m' p (v ∷ vs) same h = (
  same p (omega arith) (omega arith) ∙ h.0,
  Holds-same m m' (p + word) vs (λ q a b. same q (omega arith) (omega arith)) h.1,
)

pub Holds-at : (m : Memory) {p q : ℕ} (vs : List ℕ) → p ≡ q → Holds m p vs → Holds m q vs
Holds-at m {p} {q} vs e h = subst (λ r. Holds m r vs) e h

-- A store beside the pointers leaves them.
pub Holds-store :
    (m : Memory) (p v q : ℕ) (vs : List ℕ)
    → (p < q) ⊎ (q + word * length vs ≤ p)
    → Holds m q vs
    → Holds (store m p v) q vs
unfolding store
Holds-store m p v q vs beside h = Holds-same m (store m p v) q vs (λ r a b. ground arith) h

pub Holds-append :
    (m : Memory) (p : ℕ) (us vs : List ℕ)
    → Holds m p us
    → Holds m (p + word * length us) vs
    → Holds m p (us ++ vs)
Holds-append m p [] vs h k = Holds-at m vs (omega arith) k
Holds-append m p (u ∷ us) vs h k =
    (h.0, Holds-append m (p + word) us vs h.1 (Holds-at m vs (omega arith) k))

pub Holds-left : (m : Memory) (p : ℕ) (us vs : List ℕ) → Holds m p (us ++ vs) → Holds m p us
Holds-left m p [] vs h = tt
Holds-left m p (u ∷ us) vs h = (h.0, Holds-left m (p + word) us vs h.1)

pub Holds-right :
    (m : Memory) (p : ℕ) (us vs : List ℕ) → Holds m p (us ++ vs) → Holds m (p + word * length us) vs
Holds-right m p [] vs h = Holds-at m vs (omega arith) h
Holds-right m p (u ∷ us) vs h = Holds-at m vs (omega arith) (Holds-right m (p + word) us vs h.1)

pub load_all-Holds :
    (m : Memory) (p : ℕ) (vs : List ℕ) → Holds m p vs → load_all m p (length vs) ≡ vs
unfolding load_all
load_all-Holds m p [] h = refl
load_all-Holds m p (v ∷ vs) h = ap₂ ◌∷◌ h.0 (load_all-Holds m (p + word) vs h.1)

-- Stores from `p` on leave what lies before.
pub store_all-below : (m : Memory) (p : ℕ) (vs : List ℕ) (q : ℕ) → q < p → store_all m p vs q ≡ m q
unfolding store_all store
store_all-below m p [] q h = refl
store_all-below m p (v ∷ vs) q h =
    store_all-below (store m p v) (p + word) vs q (omega arith) ∙ ground arith

pub store_all-Holds : (m : Memory) (p : ℕ) (vs : List ℕ) → Holds (store_all m p vs) p vs
unfolding store_all store
store_all-Holds m p [] = tt
store_all-Holds m p (v ∷ vs) = (
  store_all-below (store m p v) (p + word) vs p (omega arith) ∙ ground arith,
  store_all-Holds (store m p v) (p + word) vs,
)

pub memmove-Holds :
    (m : Memory) (dst src n : ℕ) (vs : List ℕ)
    → length vs ≡ n
    → Holds m src vs
    → Holds (memmove m dst src n) dst vs
unfolding memmove
memmove-Holds m dst src n vs e h =
    shifted dst vs (omega arith) (omega arith) (Holds-at m vs (omega arith) h)
  where
    shifted :
        (p : ℕ) (vs : List ℕ)
        → dst ≤ p
        → p + word * length vs ≤ dst + word * n
        → Holds m (src + (p - dst)) vs
        → Holds (memmove m dst src n) p vs
    shifted p [] a b h = tt
    shifted p (v ∷ vs) a b h = (
      ground arith,
      shifted (p + word) vs (omega arith) (omega arith) (Holds-at m vs (omega arith) h.1),
    )

pub Holds-memmove :
    (m : Memory) (dst src n q : ℕ) (vs : List ℕ)
    → (q + word * length vs ≤ dst) ⊎ (dst + word * n ≤ q)
    → Holds m q vs
    → Holds (memmove m dst src n) q vs
unfolding memmove
Holds-memmove m dst src n q vs beside h =
    Holds-same m (memmove m dst src n) q vs (λ r a b. ground arith) h

abbrev pub contains : List ℕ → ℕ → Bool
contains [] x = false
contains (y ∷ ys) x = let rest = contains ys x in if y == x then true else rest

pub scan-contains :
    (m : Memory) (ptr p n : ℕ) (vs : List ℕ)
    → n ≤ length vs
    → Holds m p vs
    → scan m ptr p n ≡ contains (take n vs) ptr
unfolding scan
scan-contains m ptr p zero vs le h = refl
scan-contains m ptr p (suc n) [] le h = absurd (omega arith)
scan-contains m ptr p (suc n) (v ∷ vs) le h =
    rw (h.0, scan-contains m ptr (p + word) n vs (omega arith) h.1)
