-- ===== src/Sz/Align/Quantize.antt =====
-- `sz_psz_quantize_floor` and `sz_psz_quantize_ceil` of src/sz.c: the page size classes, with the
-- large padding added, on either side of an extent size.
use jemalloc.Base.{
  ◌≢◌, sym, ℕ, ◌+◌, ◌-◌, ◌≤◌, ◌<◌, ◌≡◌, ◌⊎◌, ◌∙◌, inl, inr, ap, refl, arith, Bool, u64, sub64,
  dec_lt, dec_le, le→ltb, pos→==0, lt→ltb, ℕ_discrete,
}
use jemalloc.Sc.Params.{page, sc_large_maxclass, sc_npsizes}
use jemalloc.Sc.Build.{sc_data_init}
use jemalloc.Sz.{sz_psz2ind, sz_pind2sz_compute}
use jemalloc.Sz.Page.{
  psz2ind-pind2sz, psz2ind-Brackets, psz2ind-least, pind2sz-lt-next, pind2sz-bounds,
}
use jemalloc.Sz.Search.{mono}
use jemalloc.Sz.Table.{Tables, sz_boot}
use jemalloc.Sz.Table.Agree.{pind2sz_lookup-compute}
use jemalloc.Sz.Align.{sz_psz_quantize_floor, sz_psz_quantize_ceil}

psz2ind_top : sz_psz2ind (sc_large_maxclass + 1) ≡ sc_npsizes
unfolding sz_psz2ind
psz2ind_top = refl

first_class : sz_pind2sz_compute 0 ≡ page
unfolding sz_pind2sz_compute
first_class = refl

-- The index `i` of the greatest class that is at most `x`.
record Floor (x i : ℕ) : Type 0 where
  in_range : i < sc_npsizes
  below : sz_pind2sz_compute i ≤ x
  next : (i + 1 ≡ sc_npsizes) ⊎ (x < sz_pind2sz_compute (i + 1))

top_class : sz_pind2sz_compute 198 ≡ sc_large_maxclass
unfolding sz_pind2sz_compute
top_class = refl

quantized_index :
    (x : ℕ) → page ≤ x → x ≤ sc_large_maxclass → (i : ℕ) × (sz_psz2ind (x + 1) ≡ i + 1) × Floor x i
quantized_index x lo hi = elim (dec_lt x sc_large_maxclass) [
  | yes p ↦
      let (in_range, fits, prev) = psz2ind-Brackets (x + 1) (omega arith) (omega arith) in
      let k = sz_psz2ind (x + 1) in
      let pos : 0 < k = above_page (x + 1) k (omega arith) fits in
      (
        k - 1,
        omega arith,
        record {
          in_range = omega arith;
          below = omega (arith, prev);
          next = inr (rw (let e : k - 1 + 1 ≡ k = omega arith in e) (omega arith));
        },
      )
  | no p ↦
      let e : x ≡ sc_large_maxclass = omega arith in
      (
        198,
        rw e psz2ind_top,
        record {
          in_range = omega arith;
          below = omega (arith, top_class);
          next = inl (omega arith);
        },
      )
]
  where
    above_page : (y k : ℕ) → page < y → y ≤ sz_pind2sz_compute k → 0 < k
    above_page y k h fits = elim (ℕ_discrete k 0) [
      | yes e ↦ absurd (omega (arith, first_class, ap sz_pind2sz_compute e))
      | no e ↦ omega arith
    ]

-- The index of a size between two neighbouring classes.
index_between :
    (y i : ℕ)
    → i + 1 < sc_npsizes
    → sz_pind2sz_compute i < y
    → y ≤ sz_pind2sz_compute (i + 1)
    → sz_psz2ind y ≡ i + 1
index_between y i h lo hi =
    let top = (pind2sz-bounds (i + 1) h).1 in
    let le = (psz2ind-least y (i + 1) (omega arith) (omega arith) h).0 hi in
    elim (dec_le (sz_psz2ind y) i) [
      | yes p ↦
          absurd (omega (arith, (psz2ind-least y i (omega arith) (omega arith) (omega arith)).1 p))
      | no p ↦ omega arith
    ]

-- An extent size that a large padding and at least a page make up.
pub record Padded (oblivious : Bool) (size : ℕ) : Type 0 where
  pub least_page : (sz_boot sc_data_init oblivious).sz_large_pad + page ≤ size
  pub in_classes : size ≤ (sz_boot sc_data_init oblivious).sz_large_pad + sc_large_maxclass

large_pad-le : (oblivious : Bool) → (sz_boot sc_data_init oblivious).sz_large_pad ≤ page
unfolding sz_boot
large_pad-le oblivious = ground arith

module _ (oblivious : Bool) (size : ℕ) (padded : Padded oblivious size) where
  abbrev pub t : Tables
  t = sz_boot sc_data_init oblivious

  abbrev pub pad : ℕ
  pad = t.sz_large_pad

  floor_value :
      (i : ℕ)
      → sz_psz2ind (size - pad + 1) ≡ i + 1
      → i < sc_npsizes
      → sz_psz_quantize_floor t size ≡ sz_pind2sz_compute i + pad
  unfolding sz_psz_quantize_floor
  floor_value i e h =
      let arg : u64 (sub64 size pad + 1) ≡ size - pad + 1 =
        omega (arith, padded, large_pad-le oblivious) in
      let back : i + 1 - 1 ≡ i = omega arith in
      rw (arg, e, pos→==0 (i + 1) (omega arith), back)
        (omega (
          arith,
          (pind2sz_lookup-compute oblivious i (omega arith)).1,
          (pind2sz-bounds i h).1,
          large_pad-le oblivious,
        ))

  -- For a size that is the padding and between a page and the largest class: `sz_psz_quantize_floor`
  -- is at most the size, it is a page size class with the padding added, and every page size class
  -- with the padding added that is at most the size is at most it.
  pub quantize_floor_lem :
      let f = sz_psz_quantize_floor t size in
      (f ≤ size)
      × ((i : ℕ) × (i < sc_npsizes) × (f ≡ sz_pind2sz_compute i + pad))
      × ((j : ℕ)
          → j < sc_npsizes
          → sz_pind2sz_compute j + pad ≤ size
          → sz_pind2sz_compute j + pad ≤ f)
  quantize_floor_lem =
      let (i, e, f) =
        quantized_index (size - pad) (omega (arith, padded)) (omega (arith, padded)) in
      let v = floor_value i e f.in_range in
      (
        omega (arith, v, f.below, padded),
        (i, f.in_range, v),
        λ j h p. omega (arith, v, greatest i f j h (omega (arith, padded))),
      )
    where
      greatest :
          (i : ℕ)
          → Floor (size - pad) i
          → (j : ℕ) → j < sc_npsizes
          → sz_pind2sz_compute j ≤ size - pad
          → sz_pind2sz_compute j ≤ sz_pind2sz_compute i
      greatest i f j h p = elim (dec_le j i) [
        | yes q ↦ mono sz_pind2sz_compute sc_npsizes pind2sz-lt-next j i q f.in_range
        | no q ↦ absurd (
            omega (
              arith,
              f.next,
              mono sz_pind2sz_compute sc_npsizes pind2sz-lt-next (i + 1) j (omega arith) h,
            ))
      ]

  -- For a size that is the padding and between a page and the largest class: `sz_psz_quantize_ceil`
  -- takes the padding off, rounds up to the page size class that `sz_psz2ind` names, and adds the
  -- padding again.
  pub quantize_ceil_lem :
      sz_psz_quantize_ceil t size ≡ sz_pind2sz_compute (sz_psz2ind (size - pad)) + pad
  unfolding sz_psz_quantize_ceil
  quantize_ceil_lem =
      let x = size - pad in
      let (i, e, f) = quantized_index x (omega (arith, padded)) (omega (arith, padded)) in
      let v = floor_value i e f.in_range in
      elim (ℕ_discrete (sz_pind2sz_compute i) x) [
        | yes same ↦
            let whole : sz_psz_quantize_floor t size ≡ size = omega (arith, v, same, padded) in
            let k : sz_psz2ind x ≡ i = ap sz_psz2ind (sym same) ∙ psz2ind-pind2sz i f.in_range in
            rw (whole, le→ltb size size (omega arith), k) (omega (arith, same, padded))
        | no less ↦
            let lt : sz_pind2sz_compute i < x = omega (arith, f.below) in
            let in_range : i + 1 < sc_npsizes = omega (arith, f.next, f.in_range, not_top i lt) in
            let up : x < sz_pind2sz_compute (i + 1) = omega (arith, f.next) in
            rw (index_between x i in_range lt (omega arith)) (above i v in_range lt up)
      ]
    where
      not_top : (i : ℕ) → sz_pind2sz_compute i < size - pad → i ≢ 198
      not_top i lt e = omega (arith, top_class, ap sz_pind2sz_compute e, padded)

      above :
          (i : ℕ)
          → sz_psz_quantize_floor t size ≡ sz_pind2sz_compute i + pad
          → i + 1 < sc_npsizes
          → sz_pind2sz_compute i < size - pad
          → size - pad < sz_pind2sz_compute (i + 1)
          → sz_psz_quantize_ceil t size ≡ sz_pind2sz_compute (i + 1) + pad
      above i v h lt up =
          let pad-le = large_pad-le oblivious in
          let top = (pind2sz-bounds (i + 1) h).1 in
          let small : sz_psz_quantize_floor t size < size = omega (arith, v, padded) in
          let arg : u64 (sub64 (sz_psz_quantize_floor t size) pad + 1) ≡ sz_pind2sz_compute i + 1 =
            omega (arith, v, padded) in
          let k = index_between (sz_pind2sz_compute i + 1) i h (omega arith) (omega arith) in
          rw (lt→ltb _ _ small, arg, k)
            (omega (arith, (pind2sz_lookup-compute oblivious (i + 1) (omega arith)).1))
