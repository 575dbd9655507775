-- ===== src/CacheBin/Cells.antt =====
-- The memory under a cache bin: the pointers stored at pointer-aligned addresses.
use jemalloc.Base.{
  ℕ, zero, suc, ◌+◌, ◌-◌, ◌*◌, ◌≡◌, ◌&&◌, List, [], ◌∷◌, ltb, leb, ◌==◌, if◌then◌else◌,
}

abbrev pub Memory : Type 0
Memory = ℕ → ℕ

-- The size of a pointer.
abbrev pub word : ℕ
word = 8

unfoldable pub store : Memory → ℕ → ℕ → Memory
store m p v q = if p == q then v else m q

-- The stores of `p[0]`, `p[1]`, ….
unfoldable pub store_all : Memory → ℕ → List ℕ → Memory
store_all m p [] = m
store_all m p (v ∷ vs) = store_all (store m p v) (p + word) vs

unfoldable pub load_all : Memory → ℕ → ℕ → List ℕ
load_all m p zero = []
load_all m p (suc n) = m p ∷ load_all m (p + word) n

-- `memmove` of `n` pointers. It reads the old memory only, so the ranges may overlap.
unfoldable pub memmove : Memory → ℕ → ℕ → ℕ → Memory
memmove m dst src n q = if leb dst q && ltb q (dst + word * n) then m (src + (q - dst)) else m q

-- The pointers from `p` on are the list.
abbrev pub Holds : Memory → ℕ → List ℕ → Type 0
Holds m p [] = Unit {0}
Holds m p (v ∷ vs) = (m p ≡ v) × Holds m (p + word) vs
