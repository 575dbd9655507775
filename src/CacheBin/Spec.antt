-- ===== src/CacheBin/Spec.antt =====
-- What a cache bin promises: a bounded stack of cached pointers with a low water mark, and the stashed
-- pointers in the order in which they came. No address and no 16-bit word is left.
use jemalloc.Base.{
  ℕ, ◌+◌, ◌-◌, ◌≤◌, ◌≡◌, min, List, [], ◌∷◌, ◌++◌, ◌==◌, if◌then◌else◌, length, take, drop,
}
use jemalloc.CacheBin.Held.{contains}
use jemalloc.CacheBin.Steps.{
  Op, alloc_easy, alloc, dalloc, stash, fill, flush, flush_stashed, set_low_water, Outcome, done,
  refused, reported, got, flushed,
}

pub record Stack : Type 0 where
  pub cached : List ℕ
  pub stashed : List ℕ
  pub water : ℕ
  pub capacity : ℕ

abbrev pub pop_easy : List ℕ → Stack → Stack × Outcome
pop_easy [] s = (s, refused)
pop_easy (x ∷ xs) s =
    if length (x ∷ xs) == s.water then (s, refused) else (record s { cached = xs }, got x)

-- A pop lowers the low water mark to what is left.
abbrev pub pop : List ℕ → Stack → Stack × Outcome
pop [] s = (s, refused)
pop (x ∷ xs) s = (record s { cached = xs; water = min s.water (length xs) }, got x)

-- The room is shared by the cached and the stashed pointers.
abbrev pub used : Stack → ℕ
used s = length s.cached + length s.stashed

unfoldable pub spec_step : ℕ → Op → Stack → Stack × Outcome
spec_step max_scan alloc_easy s = pop_easy s.cached s
spec_step max_scan alloc s = pop s.cached s
spec_step max_scan (dalloc ptr) s =
    if used s == s.capacity
    then (s, refused)
    else if contains (take max_scan s.cached) ptr
    then (s, reported)
    else (record s { cached = ptr ∷ s.cached }, done)
spec_step max_scan (stash ptr) s =
    if used s == s.capacity
    then (s, refused)
    else (record s { stashed = s.stashed ++ ptr ∷ [] }, done)
spec_step max_scan (fill nfill ptrs) s = (record s { cached = ptrs }, done)
spec_step max_scan (flush nflush) s =
    let kept = length s.cached - nflush in
    (
      record s { cached = take kept s.cached; water = min s.water kept },
      flushed (drop kept s.cached),
    )
spec_step max_scan flush_stashed s = (record s { stashed = [] }, flushed s.stashed)
spec_step max_scan set_low_water s = (record s { water = length s.cached }, done)

unfoldable pub spec_run : ℕ → List Op → Stack → Stack × List Outcome
spec_run max_scan [] s = (s, [])
spec_run max_scan (op ∷ ops) s =
    let (s', outcome) = spec_step max_scan op s in
    let (s'', outcomes) = spec_run max_scan ops s' in (s'', outcome ∷ outcomes)

-- What the code asserts of its callers: a fill finds the bin empty and asks for no more than there is
-- room for, and a flush takes at most the cached pointers.
abbrev pub Allowed : Op → Stack → Type 0
Allowed (fill nfill ptrs) s =
    (s.cached ≡ []) × (length ptrs ≤ nfill) × (nfill + length s.stashed ≤ s.capacity)
Allowed (flush nflush) s = nflush ≤ length s.cached
Allowed _ s = Unit {0}

abbrev pub AllAllowed : ℕ → List Op → Stack → Type 0
AllAllowed max_scan [] s = Unit {0}
AllAllowed max_scan (op ∷ ops) s =
    Allowed op s × AllAllowed max_scan ops (spec_step max_scan op s).0
