-- ===== src/CacheBin/Take.antt =====
-- Every way to take a pointer out of a bin or to put one into it follows the stack.
use jemalloc.Base.{
  ℕ, zero, suc, ◌+◌, ◌-◌, ◌*◌, ◌≤◌, ◌<◌, ◌≡◌, inl, inr, refl, subst, sym, ap, ◌∙◌, arith, Bool,
  true, false, min, List, [], ◌∷◌, ◌++◌, ◌==◌, length, take, u16, sub16, Bool-cases, length-append,
  eq→==, neq→==, ℕ_discrete, ◌≢◌,
}
use jemalloc.CacheBin.{
  cache_bin_alloc_easy, cache_bin_alloc, cache_bin_alloc_impl, cache_bin_dalloc_easy,
  cache_bin_stash, cache_bin_dalloc_safety_checks,
}
use jemalloc.CacheBin.Cells.{word, Holds, store}
use jemalloc.CacheBin.Held.{Holds-store, Holds-append, Holds-at, scan-contains, contains}
use jemalloc.CacheBin.Steps.{State, alloc_easy, alloc, dalloc, stash, Outcome, got, step}
use jemalloc.CacheBin.Spec.{Stack, used, spec_step, pop_easy, pop}
use jemalloc.CacheBin.Refine.{Refines, ncached_lem, full_lem, at_low_water_lem, at_empty_lem}

-- The step and the stack's step, from related states: related states, and the same outcome.
abbrev pub Agrees : ℕ → State × Outcome → Stack × Outcome → Type 0
Agrees base c s = Refines base c.0 s.0 × (c.1 ≡ s.1)

-- Without the first pointer.
popped :
    (base : ℕ) (c : State) (s : Stack) (x : ℕ) (xs : List ℕ) (water bits : ℕ)
    → Refines base c s
    → s.cached ≡ x ∷ xs
    → water ≤ length xs
    → bits ≡ u16 (base + word * s.capacity - word * water)
    → Refines base
        (record c {
          bin = record c.bin { stack_head = c.bin.stack_head + word; low_bits_low_water = bits };
        })
        (record s { cached = xs; water = water })
popped base c s x xs water bits r e le b =
    let len : length s.cached ≡ suc (length xs) = ap length e in
    let held : Holds c.memory c.bin.stack_head (x ∷ xs) =
      subst (λ l. Holds c.memory c.bin.stack_head l) e r.cached_held in
    record {
      room = omega (arith, r.room);
      small = r.small;
      water_le = le;
      max_eq = r.max_eq;
      head_eq = omega (arith, r.head_eq);
      water_eq = b;
      full_eq = r.full_eq;
      empty_eq = r.empty_eq;
      cached_held = held.1;
      stashed_held = r.stashed_held;
    }

-- Without the first pointer, the low water mark as it was.
popped_same :
    (base : ℕ) (c : State) (s : Stack) (x : ℕ) (xs : List ℕ)
    → Refines base c s
    → s.cached ≡ x ∷ xs
    → suc (length xs) ≢ s.water
    → Refines base
        (record c { bin = record c.bin { stack_head = c.bin.stack_head + word } })
        (record s { cached = xs })
popped_same base c s x xs r e n =
    popped base c s x xs s.water c.bin.low_bits_low_water r e
      (let len : length s.cached ≡ suc (length xs) = ap length e in omega (arith, r.water_le))
      r.water_eq

first_held :
    (base : ℕ) (c : State) (s : Stack) (x : ℕ) (xs : List ℕ)
    → Refines base c s
    → s.cached ≡ x ∷ xs
    → c.memory c.bin.stack_head ≡ x
first_held base c s x xs r e = (subst (λ l. Holds c.memory c.bin.stack_head l) e r.cached_held).0

module _ (max_scan : ℕ) (config_stats : Bool) (base : ℕ) where
  pub alloc_easy-Agrees :
      (c : State) (s : Stack)
      → Refines base c s
      → Agrees base (step max_scan config_stats alloc_easy c) (spec_step max_scan alloc_easy s)
  unfolding step spec_step cache_bin_alloc_easy cache_bin_alloc_impl
  alloc_easy-Agrees c s r = popping s.cached refl
    where
      popping :
          (l : List ℕ)
          → s.cached ≡ l
          → Agrees base (step max_scan config_stats alloc_easy c) (pop_easy l s)
      popping [] e =
          let len : length s.cached ≡ 0 = ap length e in
          let bits : (u16 c.bin.stack_head == c.bin.low_bits_low_water) ≡ true =
            at_low_water_lem r ∙ eq→== _ _ (omega (arith, r.water_le)) in
          rw bits (r, refl)
      popping (x ∷ xs) e =
          let len : length s.cached ≡ suc (length xs) = ap length e in
          elim (ℕ_discrete (suc (length xs)) s.water) [
            | yes p ↦
                let bits : (u16 c.bin.stack_head == c.bin.low_bits_low_water) ≡ true =
                  at_low_water_lem r ∙ eq→== _ _ (omega arith) in
                rw (bits, eq→== _ _ p) (r, refl)
            | no n ↦
                let bits : (u16 c.bin.stack_head == c.bin.low_bits_low_water) ≡ false =
                  at_low_water_lem r ∙ neq→== _ _ (λ q. n (omega arith)) in
                rw (bits, neq→== _ _ n)
                  (popped_same base c s x xs r e n, ap got (first_held base c s x xs r e))
          ]

  pub alloc-Agrees :
      (c : State) (s : Stack)
      → Refines base c s
      → Agrees base (step max_scan config_stats alloc c) (spec_step max_scan alloc s)
  unfolding step spec_step cache_bin_alloc cache_bin_alloc_impl
  alloc-Agrees c s r = popping s.cached refl
    where
      popping :
          (l : List ℕ) → s.cached ≡ l → Agrees base (step max_scan config_stats alloc c) (pop l s)
      popping [] e =
          let len : length s.cached ≡ 0 = ap length e in
          let bits : (u16 c.bin.stack_head == c.bin.low_bits_low_water) ≡ true =
            at_low_water_lem r ∙ eq→== _ _ (omega (arith, r.water_le)) in
          let empty : (u16 c.bin.stack_head == c.bin.low_bits_empty) ≡ true =
            at_empty_lem r ∙ eq→== _ _ len in
          rw (bits, empty) (r, refl)
      popping (x ∷ xs) e =
          let len : length s.cached ≡ suc (length xs) = ap length e in
          let empty : (u16 c.bin.stack_head == c.bin.low_bits_empty) ≡ false =
            at_empty_lem r ∙ neq→== _ _ (λ q. absurd (omega arith)) in
          elim (ℕ_discrete (suc (length xs)) s.water) [
            | yes p ↦
                let bits : (u16 c.bin.stack_head == c.bin.low_bits_low_water) ≡ true =
                  at_low_water_lem r ∙ eq→== _ _ (omega arith) in
                rw (bits, empty)
                  (
                    popped base c s x xs (min s.water (length xs)) (u16 (c.bin.stack_head + word)) r
                        e (omega arith) (omega (arith, r.head_eq)),
                    ap got (first_held base c s x xs r e),
                  )
            | no n ↦
                let bits : (u16 c.bin.stack_head == c.bin.low_bits_low_water) ≡ false =
                  at_low_water_lem r ∙ neq→== _ _ (λ q. n (omega arith)) in
                let same : min s.water (length xs) ≡ s.water = omega (arith, r.water_le) in
                rw (bits, same)
                  (popped_same base c s x xs r e n, ap got (first_held base c s x xs r e))
          ]

  take-min : (n : ℕ) (xs : List ℕ) → take (min n (length xs)) xs ≡ take n xs
  take-min zero xs = ap (λ k. take k xs) (let e : min 0 (length xs) ≡ 0 = omega arith in e)
  take-min (suc n) [] = ap (λ k. take k []) (let e : min (suc n) 0 ≡ 0 = omega arith in e)
  take-min (suc n) (x ∷ xs) =
      let e : min (suc n) (suc (length xs)) ≡ suc (min n (length xs)) = omega arith in
      rw (e, take-min n xs) refl

  safety_checks_lem :
      (ptr : ℕ) (c : State) (s : Stack)
      → Refines base c s
      → cache_bin_dalloc_safety_checks max_scan c.memory c.bin ptr
        ≡ contains (take max_scan s.cached) ptr
  unfolding cache_bin_dalloc_safety_checks
  safety_checks_lem ptr c s r = elim (ℕ_discrete max_scan 0) [
    | yes e ↦ rw e refl
    | no n ↦
        rw (neq→== _ _ n, ncached_lem r)
          (scan-contains c.memory ptr c.bin.stack_head (min max_scan (length s.cached)) s.cached
              (omega arith) r.cached_held
            ∙ ap (λ l. contains l ptr) (take-min max_scan s.cached))
  ]

  pushed :
      (ptr : ℕ) (c : State) (s : Stack)
      → Refines base c s
      → used s ≢ s.capacity
      → Refines base
          (record {
            memory = store c.memory (c.bin.stack_head - word) ptr;
            bin = record c.bin { stack_head = c.bin.stack_head - word };
          })
          (record s { cached = ptr ∷ s.cached })
  unfolding store
  pushed ptr c s r free =
      let head = c.bin.stack_head in
      let some_room : used s < s.capacity = omega (arith, r.room, free) in
      let at : head - word + word ≡ head = omega (arith, r.head_eq) in
      record {
        room = omega arith;
        small = r.small;
        water_le = omega (arith, r.water_le);
        max_eq = r.max_eq;
        head_eq = omega (arith, r.head_eq);
        water_eq = r.water_eq;
        full_eq = r.full_eq;
        empty_eq = r.empty_eq;
        cached_held = (
          ground arith,
          Holds-at (store c.memory (head - word) ptr) s.cached (sym at) (
              Holds-store c.memory (head - word) ptr head s.cached (inl (omega (arith, r.head_eq)))
                r.cached_held),
        );
        stashed_held =
            Holds-store c.memory (head - word) ptr base s.stashed (inr (omega (arith, r.head_eq)))
              r.stashed_held;
      }

  pub dalloc-Agrees :
      (ptr : ℕ) (c : State) (s : Stack)
      → Refines base c s
      → Agrees base (step max_scan config_stats (dalloc ptr) c) (spec_step max_scan (dalloc ptr) s)
  unfolding step spec_step cache_bin_dalloc_easy
  dalloc-Agrees ptr c s r = elim (ℕ_discrete (used s) s.capacity) [
    | yes e ↦ rw (full_lem r ∙ eq→== _ _ e, eq→== _ _ e) (r, refl)
    | no n ↦ elim (Bool-cases (contains (take max_scan s.cached) ptr)) [
      | inl twice ↦
          rw (full_lem r ∙ neq→== _ _ n, neq→== _ _ n, safety_checks_lem ptr c s r ∙ twice, twice)
            (r, refl)
      | inr once ↦
          rw (full_lem r ∙ neq→== _ _ n, neq→== _ _ n, safety_checks_lem ptr c s r ∙ once, once)
            (pushed ptr c s r n, refl)
    ]
  ]

  stash_position :
      (c : State) (s : Stack)
      → Refines base c s
      → c.bin.stack_head - sub16 (u16 c.bin.stack_head) c.bin.low_bits_full
        ≡ base + word * length s.stashed
  stash_position c s r = ground arith

  put_aside :
      (ptr : ℕ) (c : State) (s : Stack)
      → Refines base c s
      → used s ≢ s.capacity
      → Refines base
          (record {
            memory = store c.memory (base + word * length s.stashed) ptr;
            bin = record c.bin { low_bits_full = u16 (c.bin.low_bits_full + word) };
          })
          (record s { stashed = s.stashed ++ ptr ∷ [] })
  unfolding store
  put_aside ptr c s r free =
      let p = base + word * length s.stashed in
      let some_room : used s < s.capacity = omega (arith, r.room, free) in
      let more = length-append s.stashed (ptr ∷ []) in
      record {
        room = omega (arith, more);
        small = r.small;
        water_le = r.water_le;
        max_eq = r.max_eq;
        head_eq = r.head_eq;
        water_eq = r.water_eq;
        full_eq = omega (arith, r.full_eq, more);
        empty_eq = r.empty_eq;
        cached_held =
            Holds-store c.memory p ptr c.bin.stack_head s.cached (inl (omega (arith, r.head_eq)))
              r.cached_held;
        stashed_held =
            Holds-append (store c.memory p ptr) base s.stashed (ptr ∷ [])
              (Holds-store c.memory p ptr base s.stashed (inr (omega arith)) r.stashed_held)
              (ground arith, tt);
      }

  pub stash-Agrees :
      (ptr : ℕ) (c : State) (s : Stack)
      → Refines base c s
      → Agrees base (step max_scan config_stats (stash ptr) c) (spec_step max_scan (stash ptr) s)
  unfolding step spec_step cache_bin_stash
  stash-Agrees ptr c s r = elim (ℕ_discrete (used s) s.capacity) [
    | yes e ↦ rw (full_lem r ∙ eq→== _ _ e, eq→== _ _ e) (r, refl)
    | no n ↦
        rw (full_lem r ∙ neq→== _ _ n, neq→== _ _ n, stash_position c s r)
          (put_aside ptr c s r n, refl)
  ]
