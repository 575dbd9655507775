-- ===== src/Sec/Bins.antt =====
-- Each operation on a bin of the small extent cache of src/sec.c keeps its byte counts and its extents.
use jemalloc.Base.{
  ℕ, ◌+◌, ◌-◌, ◌^◌, ◌≤◌, ◌<◌, ◌≡◌, refl, sym, ap, subst, ◌∙◌, arith, Bool, true, leb, if◌then◌else◌,
  if_cases, min, Option, none, some, List, [], ◌∷◌, u64, sub64, shr, inl, inr, Bool-cases,
}
use jemalloc.Sec.{
  Edata, SecOpts, SecBin, rev_onto, flush_from, alloc_first, sec_bin_alloc_locked,
  sec_bin_dalloc_locked, flush_locked, trim_locked,
}
use jemalloc.Sec.Account.{
  weigh, size_of, pinned_of, weigh-append, reversed, pinned_least, AreBytes, IsBin, IsKept,
  without_first, flush_from-IsFlushed,
}

abbrev pub IsSmall : SecOpts → Type 0
IsSmall opts = opts.max_bytes < 2 ^ 64

abbrev pub handed : Option Edata → List Edata
handed none = []
handed (some edata) = edata ∷ []

pub min_low :
    (trim : Bool) (low bytes : ℕ) → trim ≡ true → (if trim then min low bytes else low) ≤ bytes
min_low trim low bytes e = rw e (omega arith)

alloc_first-IsKept :
    (opts : SecOpts) (bin : SecBin) (list : List Edata)
    → IsSmall opts
    → IsBin opts bin
    → bin.freelist ≡ list
    → IsKept opts bin [] (alloc_first opts bin list).0 (handed (alloc_first opts bin list).1)
unfolding alloc_first weigh
alloc_first-IsKept opts bin [] small ok e = record { sound = ok; same = λ w. refl }
alloc_first-IsKept opts bin (edata ∷ rest) small ok e =
    let counts = subst (AreBytes bin.bytes_cur bin.bytes_pinned_cur) e ok.counts in
    let fewer =
      without_first bin.bytes_cur bin.bytes_pinned_cur edata rest counts
        (omega (arith, small, ok.bound)) in
    record {
      sound = record {
        counts = fewer;
        bound = omega (arith, fewer.all, counts.all, ok.bound);
        low = min_low opts.experimental_trim bin.low_water_bytes _;
      };
      same = λ w. omega (arith, ap (weigh w) e);
    }

pub bin_alloc-IsKept :
    (opts : SecOpts) (bin : SecBin)
    → IsSmall opts
    → IsBin opts bin
    → IsKept opts bin []
        (sec_bin_alloc_locked opts bin).0
        (handed (sec_bin_alloc_locked opts bin).1)
unfolding sec_bin_alloc_locked
bin_alloc-IsKept opts bin small ok = alloc_first-IsKept opts bin bin.freelist small ok refl

-- Adding an extent to the counts.
pub with_one :
    (bytes pinned size : ℕ) (edata : Edata) (list : List Edata)
    → AreBytes bytes pinned list
    → edata.size ≡ size
    → bytes + size < 2 ^ 64
    → AreBytes
        (u64 (bytes + size))
        (if edata.pinned then u64 (pinned + size) else pinned)
        (edata ∷ list)
unfolding weigh
with_one bytes pinned size edata list counts e small = record {
  all = omega (arith, counts.all, e);
  some_pinned = elim (Bool-cases edata.pinned) [
    | inl y ↦ rw y (omega (arith, e, counts.all, counts.some_pinned, pinned_least list))
    | inr n ↦ rw n (omega (arith, counts.some_pinned))
  ];
}

pub reordered :
    (bytes pinned : ℕ) (xs ys : List Edata)
    → ((w : Edata → ℕ) → weigh w ys ≡ weigh w xs)
    → AreBytes bytes pinned xs
    → AreBytes bytes pinned ys
reordered bytes pinned xs ys same counts = record {
  all = counts.all ∙ sym (same size_of);
  some_pinned = counts.some_pinned ∙ sym (same pinned_of);
}

pub bin_dalloc-IsKept :
    (opts : SecOpts) (bin : SecBin) (size : ℕ) (edata : Edata) (others : List Edata)
    → IsBin opts bin
    → edata.size ≡ size
    → opts.max_bytes + size < 2 ^ 64
    → IsKept opts bin
        (edata ∷ others)
        (sec_bin_dalloc_locked opts bin size (edata ∷ others)).0
        (sec_bin_dalloc_locked opts bin size (edata ∷ others)).1
unfolding sec_bin_dalloc_locked weigh
bin_dalloc-IsKept opts bin size edata others ok e small =
    let freelist = edata ∷ bin.freelist in
    let more =
      with_one bin.bytes_cur bin.bytes_pinned_cur size edata bin.freelist ok.counts e
        (omega (arith, small, ok.bound)) in
    let from_end = reordered _ _ freelist (rev_onto freelist []) (λ w. reversed w freelist) more in
    let flushed =
      flush_from-IsFlushed (opts.max_bytes - shr opts.max_bytes 2) _ _ (rev_onto freelist []) others
        from_end (omega arith) in
    if_cases (λ (r : SecBin × List Edata). IsKept opts bin (edata ∷ others) r.0 r.1)
      (leb (u64 (bin.bytes_cur + size)) opts.max_bytes)
      (λ yes. record {
        sound = record {
          counts = more;
          bound = ground (arith, yes);
          low = λ t. omega (arith, ok.low t, small, ok.bound);
        };
        same = λ w. omega arith;
      })
      (λ no. record {
        sound = record {
          counts = reordered _ _ _ (rev_onto _ []) (λ w. reversed w _) flushed.counts;
          bound = omega (arith, flushed.below);
          low = min_low opts.experimental_trim bin.low_water_bytes _;
        };
        same = λ w. omega (
          arith,
          flushed.same w,
          reversed w freelist,
          reversed w (flush_from _ _ _ (rev_onto freelist []) others).left,
        );
      })

pub flush_locked-IsKept :
    (opts : SecOpts) (bin : SecBin) (to_flush : List Edata)
    → IsKept opts bin to_flush (flush_locked bin to_flush).0 (flush_locked bin to_flush).1
unfolding flush_locked weigh
flush_locked-IsKept opts bin to_flush = record {
  sound = record {
    counts = record { all = refl; some_pinned = refl };
    bound = omega arith;
    low = λ t. omega arith;
  };
  same = λ w. omega (arith, weigh-append w to_flush bin.freelist);
}

pub trim_locked-IsKept :
    (opts : SecOpts) (bin : SecBin) (to_flush : List Edata)
    → IsSmall opts
    → opts.experimental_trim ≡ true
    → IsBin opts bin
    → IsKept opts bin to_flush (trim_locked bin to_flush).0 (trim_locked bin to_flush).1
unfolding trim_locked
trim_locked-IsKept opts bin to_flush small on ok =
    let from_end =
      reordered _ _ bin.freelist (rev_onto bin.freelist []) (λ w. reversed w bin.freelist)
        ok.counts in
    let low = ok.low on in
    let target = sub64 bin.bytes_cur (shr bin.low_water_bytes 1) in
    let trimmed =
      flush_from-IsFlushed target bin.bytes_cur bin.bytes_pinned_cur (rev_onto bin.freelist [])
        to_flush from_end (omega (arith, small, ok.bound)) in
    record {
      sound = record {
        counts = reordered _ _ _ (rev_onto _ []) (λ w. reversed w _) trimmed.counts;
        bound = omega (arith, trimmed.below, low, ok.bound, small);
        low = λ t. omega arith;
      };
      same = λ w. omega (
        arith,
        trimmed.same w,
        reversed w bin.freelist,
        reversed w
            (flush_from target bin.bytes_cur bin.bytes_pinned_cur (rev_onto bin.freelist [])
              to_flush).left,
      );
    }
