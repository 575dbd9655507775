-- ===== src/Sec/Account.antt =====
-- The byte counts of a bin of the small extent cache of src/sec.c, and where its extents go.
use jemalloc.Base.{
  ℕ, ◌+◌, ◌^◌, ◌≤◌, ◌<◌, ◌≡◌, refl, sym, ap, arith, Bool, true, ltb, if◌then◌else◌, if_cases, List,
  [], ◌∷◌, ◌++◌, sub64, inl, inr, Bool-cases,
}
use jemalloc.Sec.{Edata, SecOpts, SecBin, Flushing, rev_onto, flush_from}

-- The sum of what the extents weigh. With the weight 1 for some extents and 0 for the others it counts
-- these.
unfoldable pub weigh : (Edata → ℕ) → List Edata → ℕ
weigh w [] = 0
weigh w (edata ∷ list) = w edata + weigh w list

abbrev pub size_of : Edata → ℕ
size_of edata = edata.size

abbrev pub pinned_of : Edata → ℕ
pinned_of edata = if edata.pinned then edata.size else 0

pub weigh-append :
    (w : Edata → ℕ) (xs ys : List Edata) → weigh w (xs ++ ys) ≡ weigh w xs + weigh w ys
unfolding weigh
weigh-append w [] ys = omega arith
weigh-append w (x ∷ xs) ys = omega (arith, weigh-append w xs ys)

pub weigh-rev_onto :
    (w : Edata → ℕ) (xs acc : List Edata) → weigh w (rev_onto xs acc) ≡ weigh w xs + weigh w acc
unfolding weigh rev_onto
weigh-rev_onto w [] acc = omega arith
weigh-rev_onto w (x ∷ xs) acc = omega (arith, weigh-rev_onto w xs (x ∷ acc))

pub reversed : (w : Edata → ℕ) (xs : List Edata) → weigh w (rev_onto xs []) ≡ weigh w xs
unfolding weigh
reversed w xs = omega (arith, weigh-rev_onto w xs [])

pub pinned_least : (xs : List Edata) → weigh pinned_of xs ≤ weigh size_of xs
unfolding weigh
pinned_least [] = omega arith
pinned_least (x ∷ xs) =
    if_cases (λ (n : ℕ). n + weigh pinned_of xs ≤ x.size + weigh size_of xs) x.pinned
      (λ _. omega (arith, pinned_least xs)) (λ _. omega (arith, pinned_least xs))

-- What the counts of bytes and of pinned bytes are of a list.
pub record AreBytes (bytes pinned : ℕ) (list : List Edata) : Type 0 where
  pub all : bytes ≡ weigh size_of list
  pub some_pinned : pinned ≡ weigh pinned_of list

-- The counts are those of the list, within the limit; the low water mark is not above them.
pub record IsBin (opts : SecOpts) (bin : SecBin) : Type 0 where
  pub counts : AreBytes bin.bytes_cur bin.bytes_pinned_cur bin.freelist
  pub bound : bin.bytes_cur ≤ opts.max_bytes
  pub low : opts.experimental_trim ≡ true → bin.low_water_bytes ≤ bin.bytes_cur

-- The bin afterwards is sound, and what was in it or given to it is in it or handed out.
pub record IsKept (opts : SecOpts) (bin : SecBin) (given : List Edata) (bin' : SecBin)
    (out : List Edata) : Type 0 where
  pub sound : IsBin opts bin'
  pub same :
      (w : Edata → ℕ) → weigh w bin.freelist + weigh w given ≡ weigh w bin'.freelist + weigh w out

pub record IsFlushed (target : ℕ) (list out : List Edata) (r : Flushing) : Type 0 where
  pub counts : AreBytes r.bytes r.pinned r.left
  pub below : r.bytes ≤ target
  pub same : (w : Edata → ℕ) → weigh w r.left + weigh w r.out ≡ weigh w list + weigh w out

-- Taking one extent off the counts.
pub without_first :
    (bytes pinned : ℕ) (cur : Edata) (rest : List Edata)
    → AreBytes bytes pinned (cur ∷ rest)
    → bytes < 2 ^ 64
    → AreBytes (sub64 bytes cur.size) (if cur.pinned then sub64 pinned cur.size else pinned) rest
unfolding weigh
without_first bytes pinned cur rest counts small = record {
  all = omega (arith, counts.all);
  some_pinned = elim (Bool-cases cur.pinned) [
    | inl e ↦
        let some_pinned : pinned ≡ cur.size + weigh pinned_of rest =
          rw (sym (ap (λ (b : Bool). (if b then cur.size else 0) + weigh pinned_of rest) e))
            counts.some_pinned in
        rw e (omega (arith, some_pinned, counts.all, pinned_least rest))
    | inr e ↦
        let some_pinned : pinned ≡ 0 + weigh pinned_of rest =
          rw (sym (ap (λ (b : Bool). (if b then cur.size else 0) + weigh pinned_of rest) e))
            counts.some_pinned in
        rw e (omega (arith, some_pinned))
  ];
}

pub flush_from-IsFlushed :
    (target bytes pinned : ℕ) (list out : List Edata)
    → AreBytes bytes pinned list
    → bytes < 2 ^ 64
    → IsFlushed target list out (flush_from target bytes pinned list out)
unfolding flush_from weigh
flush_from-IsFlushed target bytes pinned [] out counts small = record {
  counts = counts;
  below = omega (arith, counts.all);
  same = λ w. refl;
}
flush_from-IsFlushed target bytes pinned (cur ∷ rest) out counts small =
    let fewer = without_first bytes pinned cur rest counts small in
    let next =
      flush_from-IsFlushed target (sub64 bytes cur.size)
        (if cur.pinned then sub64 pinned cur.size else pinned) rest (out ++ (cur ∷ [])) fewer
        (omega arith) in
    if_cases (IsFlushed target (cur ∷ rest) out) (ltb target bytes)
      (λ yes. record {
        counts = next.counts;
        below = next.below;
        same = λ w. omega (arith, next.same w, weigh-append w out (cur ∷ []));
      })
      (λ no. record { counts = counts; below = ground (arith, no); same = λ w. refl })
