-- ===== src/CacheBin/Conserve.antt =====
-- No pointer is lost or handed out twice by a cache bin.
use jemalloc.Base.{
  ℕ, ◌+◌, ◌-◌, ◌≡◌, refl, ap, arith, Bool, List, [], ◌∷◌, ◌++◌, ◌==◌, if◌then◌else◌, length, take,
  drop, take-append-drop, Bool-cases, inl, inr,
}
use jemalloc.CacheBin.Held.{contains}
use jemalloc.CacheBin.Steps.{
  State, Op, alloc_easy, alloc, dalloc, stash, fill, flush, flush_stashed, set_low_water, Outcome,
  done, got, flushed, run,
}
use jemalloc.CacheBin.Spec.{Stack, used, pop, pop_easy, spec_step, spec_run, Allowed, AllAllowed}
use jemalloc.CacheBin.Refine.{Refines}
use jemalloc.CacheBin.Run.{run-Refines}

abbrev pub count : ℕ → List ℕ → ℕ
count x [] = 0
count x (y ∷ ys) = (if y == x then 1 else 0) + count x ys

count-append : (x : ℕ) (xs ys : List ℕ) → count x (xs ++ ys) ≡ count x xs + count x ys
count-append x [] ys = omega arith
count-append x (z ∷ xs) ys = omega (arith, count-append x xs ys)

-- The pointers that an operation put into the bin, and those that it handed out.
abbrev pub given : Op → Outcome → List ℕ
given (dalloc ptr) done = ptr ∷ []
given (stash ptr) done = ptr ∷ []
given (fill nfill ptrs) done = ptrs
given _ _ = []

abbrev pub released : Outcome → List ℕ
released (got ptr) = ptr ∷ []
released (flushed ptrs) = ptrs
released _ = []

abbrev pub all_given : List Op → List Outcome → List ℕ
all_given (op ∷ ops) (o ∷ os) = given op o ++ all_given ops os
all_given _ _ = []

abbrev pub all_released : List Outcome → List ℕ
all_released [] = []
all_released (o ∷ os) = released o ++ all_released os

abbrev pub inside : ℕ → Stack → ℕ
inside x s = count x s.cached + count x s.stashed

pop_easy_conserved :
    (x : ℕ) (l : List ℕ) (s : Stack)
    → s.cached ≡ l
    → inside x (pop_easy l s).0 + count x (released (pop_easy l s).1) ≡ inside x s
pop_easy_conserved x [] s e = omega arith
pop_easy_conserved x (y ∷ ys) s e = elim (Bool-cases (length (y ∷ ys) == s.water)) [
  | inl t ↦ rw t (omega arith)
  | inr f ↦ rw f (omega (arith, ap (count x) e))
]

pop_conserved :
    (x : ℕ) (l : List ℕ) (s : Stack)
    → s.cached ≡ l
    → inside x (pop l s).0 + count x (released (pop l s).1) ≡ inside x s
pop_conserved x [] s e = omega arith
pop_conserved x (y ∷ ys) s e = omega (arith, ap (count x) e)

step_conserved :
    (max_scan x : ℕ) (op : Op) (s : Stack)
    → Allowed op s
    → inside x (spec_step max_scan op s).0 + count x (released (spec_step max_scan op s).1)
      ≡ inside x s + count x (given op (spec_step max_scan op s).1)
unfolding spec_step
step_conserved max_scan x alloc_easy s a = omega (arith, pop_easy_conserved x s.cached s refl)
step_conserved max_scan x alloc s a = omega (arith, pop_conserved x s.cached s refl)
step_conserved max_scan x (dalloc ptr) s a = elim (Bool-cases (used s == s.capacity)) [
  | inl t ↦ rw t (omega arith)
  | inr f ↦ elim (Bool-cases (contains (take max_scan s.cached) ptr)) [
    | inl t ↦ rw (f, t) (omega arith)
    | inr g ↦ rw (f, g) (omega arith)
  ]
]
step_conserved max_scan x (stash ptr) s a = elim (Bool-cases (used s == s.capacity)) [
  | inl t ↦ rw t (omega arith)
  | inr f ↦ rw f (omega (arith, count-append x s.stashed (ptr ∷ [])))
]
step_conserved max_scan x (fill nfill ptrs) s (e, le, fits) = omega (arith, ap (count x) e)
step_conserved max_scan x (flush nflush) s a =
    let k = length s.cached - nflush in
    omega (
      arith,
      count-append x (take k s.cached) (drop k s.cached),
      ap (count x) (take-append-drop k s.cached),
    )
step_conserved max_scan x flush_stashed s a = omega arith
step_conserved max_scan x set_low_water s a = omega arith

spec_conserved :
    (max_scan x : ℕ) (ops : List Op) (s : Stack)
    → AllAllowed max_scan ops s
    → inside x (spec_run max_scan ops s).0 + count x (all_released (spec_run max_scan ops s).1)
      ≡ inside x s + count x (all_given ops (spec_run max_scan ops s).1)
unfolding spec_run
spec_conserved max_scan x [] s a = omega arith
spec_conserved max_scan x (op ∷ ops) s a =
    let next = (spec_step max_scan op s).0 in
    let o = (spec_step max_scan op s).1 in
    omega (
      arith,
      step_conserved max_scan x op s a.0,
      spec_conserved max_scan x ops next a.1,
      count-append x (released o) (all_released (spec_run max_scan ops next).1),
      count-append x (given op o) (all_given ops (spec_run max_scan ops next).1),
    )

-- For every sequence of operations that the assertions allow, from a bin that stands for a stack: a
-- pointer has been handed out and is left in the bin, together, as often as it was in the bin and has
-- been put in. What a refused or reported deallocation was called with is not put in.
pub run_conserved :
    (max_scan : ℕ) (config_stats : Bool) (base : ℕ) (ops : List Op) (c : State) (s : Stack) (x : ℕ)
    → Refines base c s
    → AllAllowed max_scan ops s
    → inside x (spec_run max_scan ops s).0
        + count x (all_released (run max_scan config_stats ops c).1)
      ≡ inside x s + count x (all_given ops (run max_scan config_stats ops c).1)
run_conserved max_scan config_stats base ops c s x r a =
    rw ((run-Refines max_scan config_stats base ops c s r a).1) (spec_conserved max_scan x ops s a)
