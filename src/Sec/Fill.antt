-- ===== src/Sec/Fill.antt =====
-- Filling a bin of the small extent cache of src/sec.c.
use jemalloc.Base.{
  ℕ, ◌+◌, ◌*◌, ◌^◌, ◌≤◌, ◌<◌, ◌≡◌, refl, ap, ◌∙◌, arith, leb, if◌then◌else◌, if_cases, List, [],
  ◌∷◌, ◌++◌, length, u64, inl, inr, Bool-cases,
}
use jemalloc.Sec.{
  Edata, SecOpts, SecBin, Filling, sec_list_pinned_bytes_get, fill_from, fill_locked,
}
use jemalloc.Sec.Account.{
  weigh, size_of, pinned_of, weigh-append, pinned_least, AreBytes, IsBin, IsKept,
}
use jemalloc.Sec.Bins.{with_one, reordered}

-- Extents of one size.
unfoldable pub AreOfSize : ℕ → List Edata → Type 0
AreOfSize size [] = Unit {0}
AreOfSize size (edata ∷ list) = (edata.size ≡ size) × AreOfSize size list

weigh-length :
    (size : ℕ) (list : List Edata) → AreOfSize size list → weigh size_of list ≡ length list * size
unfolding AreOfSize weigh
weigh-length size [] h = omega arith
weigh-length size (edata ∷ list) h = omega (arith, h.0, weigh-length size list h.1)

pinned_bytes_get-weigh :
    (list : List Edata) (size : ℕ)
    → AreOfSize size list
    → weigh size_of list < 2 ^ 64
    → sec_list_pinned_bytes_get list size ≡ weigh pinned_of list
unfolding AreOfSize weigh sec_list_pinned_bytes_get
pinned_bytes_get-weigh [] size h small = refl
pinned_bytes_get-weigh (edata ∷ list) size h small =
    let rest = pinned_bytes_get-weigh list size h.1 (omega (arith, small)) in
    elim (Bool-cases edata.pinned) [
      | inl y ↦ rw y (omega (arith, rest, h.0, small, pinned_least list))
      | inr n ↦ rw n (omega (arith, rest))
    ]

record IsFilled (max_bytes bytes : ℕ) (freelist result : List Edata) (r : Filling) : Type 0 where
  counts : AreBytes r.bytes r.pinned r.freelist
  bound : r.bytes ≤ max_bytes
  grown : bytes ≤ r.bytes
  same : (w : Edata → ℕ) → weigh w r.freelist + weigh w r.result ≡ weigh w freelist + weigh w result

fill_from-IsFilled :
    (max_bytes size bytes pinned : ℕ) (freelist result : List Edata)
    → AreBytes bytes pinned freelist
    → bytes ≤ max_bytes
    → max_bytes + size < 2 ^ 64
    → AreOfSize size result
    → IsFilled max_bytes bytes freelist result
        (fill_from max_bytes size bytes pinned freelist result)
unfolding fill_from weigh AreOfSize
fill_from-IsFilled max_bytes size bytes pinned freelist [] counts bound small h = record {
  counts = counts;
  bound = bound;
  grown = omega arith;
  same = λ w. refl;
}
fill_from-IsFilled max_bytes size bytes pinned freelist (edata ∷ result) counts bound small h =
    let longer = freelist ++ (edata ∷ []) in
    let more =
      reordered _ _ (edata ∷ freelist) longer
        (λ w. omega (arith, weigh-append w freelist (edata ∷ [])))
        (with_one bytes pinned size edata freelist counts h.0 (omega (arith, small, bound))) in
    if_cases (IsFilled max_bytes bytes freelist (edata ∷ result))
      (leb (u64 (bytes + size)) max_bytes)
      (λ yes.
        let next =
          fill_from-IsFilled max_bytes size (u64 (bytes + size))
            (if edata.pinned then u64 (pinned + size) else pinned) longer result more
            (ground (arith, yes)) small h.1 in
        record {
          counts = next.counts;
          bound = next.bound;
          grown = omega (arith, next.grown, small, bound);
          same = λ w. omega (arith, next.same w, weigh-append w freelist (edata ∷ []));
        })
      (λ no. record { counts = counts; bound = bound; grown = omega arith; same = λ w. refl })

pub fill_locked-IsKept :
    (opts : SecOpts) (bin : SecBin) (size : ℕ) (result : List Edata) (nallocs : ℕ)
    → IsBin opts bin
    → AreOfSize size result
    → length result ≡ nallocs
    → opts.max_bytes + nallocs * size < 2 ^ 64
    → opts.max_bytes + size < 2 ^ 64
    → IsKept opts bin result
        (fill_locked opts bin size result nallocs).0
        (fill_locked opts bin size result nallocs).1
unfolding fill_locked weigh
fill_locked-IsKept opts bin size result nallocs ok h e small small_one =
    let bytes : weigh size_of result ≡ nallocs * size =
      weigh-length size result h ∙ ap (λ n. n * size) e in
    let filled =
      fill_from-IsFilled opts.max_bytes size bin.bytes_cur bin.bytes_pinned_cur bin.freelist result
        ok.counts ok.bound small_one h in
    if_cases (λ (r : SecBin × List Edata). IsKept opts bin result r.0 r.1)
      (leb (u64 (bin.bytes_cur + u64 (nallocs * size))) opts.max_bytes)
      (λ yes. record {
        sound = record {
          counts = record {
            all = omega (
              arith,
              ok.counts.all,
              ok.bound,
              small,
              bytes,
              weigh-append size_of bin.freelist result,
            );
            some_pinned = omega (
              arith,
              ok.counts.some_pinned,
              ok.counts.all,
              ok.bound,
              small,
              bytes,
              weigh-append pinned_of bin.freelist result,
              pinned_least bin.freelist,
              pinned_least result,
              pinned_bytes_get-weigh result size h (omega (arith, bytes, small)),
            );
          };
          bound = ground (arith, yes);
          low = λ t. omega (arith, ok.low t, ok.bound, small);
        };
        same = λ w. omega (arith, weigh-append w bin.freelist result);
      })
      (λ no. record {
        sound = record {
          counts = filled.counts;
          bound = filled.bound;
          low = λ t. omega (arith, ok.low t, filled.grown);
        };
        same = λ w. omega (arith, filled.same w);
      })
