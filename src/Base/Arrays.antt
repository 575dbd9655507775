-- ===== src/Base/Arrays.antt =====
-- Arrays as functions from the place.
use Prim.Native.Nat.{ℕ}
use mathlib.Core.Path.{◌≡◌}
use mathlib.Core.Logic.{◌≢◌}
use jemalloc.Base.Tests.{◌==◌, if◌then◌else◌, if_cases, eq→==, neq→==}

-- A write to an array.
unfoldable pub put {ℓ} : {A : Type ℓ} → (ℕ → A) → ℕ → A → ℕ → A
put f i v j = if i == j then v else f j

pub put_same {ℓ} : {A : Type ℓ} (f : ℕ → A) (i : ℕ) (v : A) (j : ℕ) → i ≡ j → put f i v j ≡ v
unfolding put
put_same f i v j e = rw (eq→== i j e)

pub put_other {ℓ} : {A : Type ℓ} (f : ℕ → A) (i : ℕ) (v : A) (j : ℕ) → i ≢ j → put f i v j ≡ f j
unfolding put
put_other f i v j n = rw (neq→== i j n)

-- What holds at each place before and of the new value holds at each place after.
pub put_all {ℓ ℓ'} :
    {A : Type ℓ} (P : A → Type ℓ') (f : ℕ → A) (i : ℕ) (v : A)
    → ((j : ℕ) → P (f j))
    → P v
    → (j : ℕ) → P (put f i v j)
unfolding put
put_all P f i v all new j = if_cases P (i == j) (λ _. new) (λ _. all j)
