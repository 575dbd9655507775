-- ===== src/Ph/Order.antt =====
-- What is in a pairing heap of include/jemalloc/internal/ph.h, and in which order; and what merging does
-- to it.
use jemalloc.Base.{
  ℕ, zero, suc, ◌+◌, ◌≤◌, ◌≡◌, refl, ap, ◌∙◌, arith, Bool, true, false, if◌then◌else◌, if_cases,
  List, [], ◌∷◌, ◌++◌, length,
}
use jemalloc.Ph.{
  Phn, null, node, phn_next_get, phn_next_set, phn_merge, phn_merge_ordered, merge_pairs,
  merge_fifo, phn_merge_siblings,
}

-- How many of the elements pass a test.
abbrev pub one {ℓ} : {A : Type ℓ} → (A → Bool) → A → ℕ
one p a = if p a then 1 else 0

unfoldable pub tally {ℓ} : {A : Type ℓ} → (A → Bool) → Phn A → ℕ
tally p null = 0
tally p (node a lchild next) = one p a + (tally p lchild + tally p next)

unfoldable pub total {ℓ} : {A : Type ℓ} → (A → Bool) → List (Phn A) → ℕ
total p [] = 0
total p (phn ∷ fifo) = tally p phn + total p fifo

-- What `cmp` is relied on for.
pub record IsOrder {ℓ} {A : Type ℓ} (before : A → A → Bool) : Type ℓ where
  pub asym : (a b : A) → before a b ≡ true → before b a ≡ false
  pub trans : (a b c : A) → before a b ≡ false → before b c ≡ false → before a c ≡ false

-- Nothing in it is before `a`.
abbrev pub AtLeast {ℓ} : {A : Type ℓ} → (A → A → Bool) → A → Phn A → Type 0
AtLeast before a phn = tally (λ b. before b a) phn ≡ 0

-- No element is before the one that it hangs under; siblings are in no order.
unfoldable pub Ordered {ℓ} : {A : Type ℓ} → (A → A → Bool) → Phn A → Type 0
Ordered before null = Unit {0}
Ordered before (node a lchild next) =
    AtLeast before a lchild × Ordered before lchild × Ordered before next

-- A tree without siblings.
pub record IsSingle {ℓ} {A : Type ℓ} (before : A → A → Bool) (phn : Phn A) : Type ℓ where
  pub alone : phn_next_get before phn ≡ null
  pub ordered : Ordered before phn

unfoldable pub AreSingle {ℓ} : {A : Type ℓ} → (A → A → Bool) → List (Phn A) → Type ℓ
AreSingle before [] = Unit
AreSingle before (phn ∷ fifo) = IsSingle before phn × AreSingle before fifo

one_zero : (b : Bool) → ◌≡◌ {A = ℕ} (if b then 1 else 0) 0 → b ≡ false
one_zero true e = absurd (omega (arith, e))
one_zero false e = refl

module _ {ℓ} {A : Type ℓ} (before : A → A → Bool) (order : IsOrder before) where
  pub AtLeast-below :
      (a b : A) (phn : Phn A) → before b a ≡ false → AtLeast before b phn → AtLeast before a phn
  unfolding tally
  AtLeast-below a b null ba h = refl
  AtLeast-below a b (node c l n) ba h =
      rw
        (
          order.trans c b a (one_zero _ (omega (arith, h))) ba,
          AtLeast-below a b l ba (omega (arith, h)),
          AtLeast-below a b n ba (omega (arith, h)),
        )
        refl

  -- `b` is put under `a`, which it is not before.
  pub merge_ordered_lem :
      (a b : A) (l l' n n' : Phn A)
      → before b a ≡ false
      → Ordered before (node a l n)
      → Ordered before (node b l' n')
      → Ordered before (node a (node b l' l) n)
  unfolding Ordered tally
  merge_ordered_lem a b l l' n n' ba (al, ol, on) (al', ol', on') =
      (rw (ba, AtLeast-below a b l' ba al', al) refl, (al', ol', ol), on)

  abbrev IsBoth : Phn A → Phn A → Phn A → Type ℓ
  IsBoth s t phn = IsSingle before phn × ((p : A → Bool) → tally p phn ≡ tally p s + tally p t)

  pub merge-IsBoth :
      (s t : Phn A) → IsSingle before s → IsSingle before t → IsBoth s t (phn_merge before s t)
  unfolding phn_merge phn_merge_ordered phn_next_set phn_next_get Ordered tally
  merge-IsBoth null t hs ht = (ht, λ p. omega arith)
  merge-IsBoth (node a l n) null hs ht = (hs, λ p. omega arith)
  merge-IsBoth (node a l n) (node b l' n') hs ht =
      let gone = λ (p : A → Bool). ap (tally p) hs.alone in
      let gone' = λ (p : A → Bool). ap (tally p) ht.alone in
      if_cases (IsBoth (node a l n) (node b l' n')) (before a b)
        (λ yes. (
          record {
            alone = hs.alone;
            ordered = merge_ordered_lem a b l l' n n' (order.asym a b yes) hs.ordered ht.ordered;
          },
          λ p. omega (arith, gone' p),
        ))
        (λ no. (
          record {
            alone = ht.alone;
            ordered = merge_ordered_lem b a l' l n' n no ht.ordered hs.ordered;
          },
          λ p. omega (arith, gone p),
        ))

  pub single : (a : A) (l n : Phn A) → Ordered before (node a l n) → IsSingle before (node a l null)
  unfolding Ordered phn_next_get
  single a l n h = record { alone = refl; ordered = (h.0, h.1, _) }

  merge_pairs_lem :
      (phn : Phn A)
      → Ordered before phn
      → AreSingle before (merge_pairs before phn)
        × ((p : A → Bool) → total p (merge_pairs before phn) ≡ tally p phn)
  unfolding merge_pairs AreSingle total Ordered tally
  merge_pairs_lem null h = (_, λ p. refl)
  merge_pairs_lem (node a l null) h = ((single a l null h, _), λ p. omega arith)
  merge_pairs_lem (node a l (node b l' rest)) h =
      let pair =
        merge-IsBoth (node a l null) (node b l' null) (single a l (node b l' rest) h)
          (single b l' rest h.2) in
      let others = merge_pairs_lem rest h.2.2 in
      ((pair.0, others.0), λ p. omega (arith, pair.1 p, others.1 p))

  appended :
      (fifo : List (Phn A)) (phn : Phn A)
      → AreSingle before fifo
      → IsSingle before phn
      → AreSingle before (fifo ++ (phn ∷ []))
        × (length (fifo ++ (phn ∷ [])) ≡ suc (length fifo))
        × ((p : A → Bool) → total p (fifo ++ (phn ∷ [])) ≡ total p fifo + tally p phn)
  unfolding AreSingle total
  appended [] phn h hp = ((hp, _), refl, λ p. omega arith)
  appended (t ∷ fifo) phn h hp =
      let rest = appended fifo phn h.1 hp in
      ((h.0, rest.0), ap suc rest.1, λ p. omega (arith, rest.2 p))

  -- A round per element is enough.
  merge_fifo_lem :
      (rounds : ℕ) (fifo : List (Phn A))
      → length fifo ≤ rounds
      → AreSingle before fifo
      → IsSingle before (merge_fifo before rounds fifo)
        × ((p : A → Bool) → tally p (merge_fifo before rounds fifo) ≡ total p fifo)
  unfolding merge_fifo AreSingle total tally Ordered phn_next_get
  merge_fifo_lem rounds [] enough h = (record { alone = refl; ordered = _ }, λ p. refl)
  merge_fifo_lem rounds (t ∷ []) enough h = (h.0, λ p. omega arith)
  merge_fifo_lem zero (s ∷ t ∷ fifo) enough h = absurd (omega (arith, enough))
  merge_fifo_lem (suc rounds) (s ∷ t ∷ fifo) enough h =
      let pair = merge-IsBoth s t h.0 h.1.0 in
      let longer = appended fifo (phn_merge before s t) h.1.1 pair.0 in
      let done =
        merge_fifo_lem rounds (fifo ++ (phn_merge before s t ∷ []))
          (omega (arith, enough, longer.1)) longer.0 in
      (done.0, λ p. omega (arith, done.1 p, longer.2 p, pair.1 p))

  pub merge_siblings_lem :
      (phn : Phn A)
      → Ordered before phn
      → IsSingle before (phn_merge_siblings before phn)
        × ((p : A → Bool) → tally p (phn_merge_siblings before phn) ≡ tally p phn)
  unfolding phn_merge_siblings
  merge_siblings_lem phn h =
      let pairs = merge_pairs_lem phn h in
      let merged =
        merge_fifo_lem (length (merge_pairs before phn)) (merge_pairs before phn) (omega arith)
          pairs.0 in
      (merged.0, λ p. merged.1 p ∙ pairs.1 p)
