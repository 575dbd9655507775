-- ===== src/Fb/Groups.antt =====
-- `fb_group_t` of include/jemalloc/internal/fb.h, a 64-bit word, as its bits: bit `i` of the word is
-- the function at `i`, and no bit at 64 or above is set by an operation. These are the bitwise
-- operators of C and the searches of bit_util.h on that representation.
use jemalloc.Base.{ℕ, zero, suc, ◌+◌, ◌-◌, Bool, false, not, ◌&&◌, ◌||◌, ltb, leb, if◌then◌else◌}

-- FB_GROUP_BITS.
abbrev pub fb_group_bits : ℕ
fb_group_bits = 64

abbrev pub Group : Type 0
Group = ℕ → Bool

abbrev pub zeros : Group
zeros i = false

-- ~0
abbrev pub ones : Group
ones i = ltb i 64

abbrev pub group_and : Group → Group → Group
group_and a b i = a i && b i

abbrev pub group_or : Group → Group → Group
group_or a b i = a i || b i

abbrev pub group_not : Group → Group
group_not a i = ltb i 64 && not (a i)

-- a ^ maybe_invert, where the mask is all zeros or all ones.
abbrev pub group_xor : Group → Group → Group
group_xor a b i = if b i then not (a i) else a i

-- a << k
abbrev pub group_shl : Group → ℕ → Group
group_shl a k i = ltb i 64 && (leb k i && a (i - k))

-- a >> k
abbrev pub group_shr : Group → ℕ → Group
group_shr a k i = a (i + k)

-- (1 << k) - 1
abbrev pub low_mask : ℕ → Group
low_mask k i = ltb i k && ltb i 64

-- How many of the bits `i`, …, `i + n - 1` are set.
unfoldable pub count_from : Group → ℕ → ℕ → ℕ
count_from a i zero = 0
count_from a i (suc n) = (if a i then 1 else 0) + count_from a (i + 1) n

-- `popcount_lu`
unfoldable pub popcount_lu : Group → ℕ
popcount_lu a = count_from a 0 64

-- The lowest set bit among `i`, …, `i + n - 1`; `i + n` if there is none.
unfoldable pub first_set : Group → ℕ → ℕ → ℕ
first_set a i zero = i
first_set a i (suc n) = let rest = first_set a (i + 1) n in if a i then i else rest

-- One more than the highest set bit below `n`; 0 if there is none.
unfoldable pub last_set : Group → ℕ → ℕ
last_set a zero = 0
last_set a (suc n) = let rest = last_set a n in if a n then suc n else rest

-- group == 0
unfoldable pub is_zero : Group → Bool
is_zero a = leb 64 (first_set a 0 64)

-- a == b
unfoldable pub is_same : Group → Group → Bool
is_same a b = is_zero (λ i. if b i then not (a i) else a i)

-- `ffs_lu` and `fls_lu`, of a group that is not zero.
unfoldable pub ffs_lu : Group → ℕ
ffs_lu a = first_set a 0 64

unfoldable pub fls_lu : Group → ℕ
fls_lu a = last_set a 64 - 1
