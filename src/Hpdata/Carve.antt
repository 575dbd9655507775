-- ===== src/Hpdata/Carve.antt =====
-- What `hpdata_find_alloc_offsets` of src/hpdata.c finds.
use jemalloc.Base.{
  ℕ, zero, suc, ◌+◌, ◌-◌, ◌*◌, ◌/◌, ◌%◌, ◌≤◌, ◌<◌, ◌≡◌, subst, ◌⊎◌, inl, inr, refl, sym, arith,
  Bool, true, false, Option, none, some, List, [], ◌∷◌, ◌++◌, max, length, shr, dec_lt, dec_le,
  ℕ_discrete, eq→==, neq→==, le→leb, lt→leb,
}
use jemalloc.Sc.Params.{lg_page}
use jemalloc.Fb.{Fb, group_at, fb_get, fb_urange_iter}
use jemalloc.Fb.Forward.{IsClean}
use jemalloc.Fb.Range.{IsRange, IsFirstRange, fb_iter_range_forward-IsFirstRange}
use jemalloc.Hpdata.{Hpdata, hugepage_pages}
use jemalloc.Hpdata.Offsets.{AllocOffset, carve, offsets_from, hpdata_find_alloc_offsets}
use jemalloc.Hpdata.Counts.{IsFree, pages_eq}

-- The offsets stand in order between `lo` and `hi`, each with `npages` free pages of its own.
abbrev pub AreApart : Fb → ℕ → ℕ → ℕ → List AllocOffset → Type 0
AreApart active npages lo hi [] = lo ≤ hi
AreApart active npages lo hi (o ∷ offsets) =
    (lo ≤ o.index)
    × IsFree active o.index npages
    × AreApart active npages (o.index + npages) hi offsets

AreApart-widen :
    (active : Fb) (npages lo lo' hi : ℕ) (offsets : List AllocOffset)
    → lo ≤ lo'
    → AreApart active npages lo' hi offsets
    → AreApart active npages lo hi offsets
AreApart-widen active npages lo lo' hi [] h p = omega arith
AreApart-widen active npages lo lo' hi (o ∷ offsets) h (p, q, r) = (omega (arith, p), q, r)

AreApart-extend :
    (active : Fb) (npages lo hi hi' : ℕ) (offsets : List AllocOffset)
    → hi ≤ hi'
    → AreApart active npages lo hi offsets
    → AreApart active npages lo hi' offsets
AreApart-extend active npages lo hi hi' [] h p = omega arith
AreApart-extend active npages lo hi hi' (o ∷ offsets) h (p, q, r) =
    (p, q, AreApart-extend active npages (o.index + npages) hi hi' offsets h r)

AreApart-append :
    (active : Fb) (npages lo mid hi : ℕ) (os ps : List AllocOffset)
    → AreApart active npages lo mid os
    → AreApart active npages mid hi ps
    → AreApart active npages lo hi (os ++ ps)
AreApart-append active npages lo mid hi [] ps h p = AreApart-widen active npages lo mid hi ps h p
AreApart-append active npages lo mid hi (o ∷ os) ps (p, q, r) k =
    (p, q, AreApart-append active npages (o.index + npages) mid hi os ps r k)

length-append : (os ps : List AllocOffset) → length (os ++ ps) ≡ length os + length ps
length-append [] ps = omega arith
length-append (o ∷ os) ps = omega (arith, length-append os ps)

-- No free range of `npages` pages begins at `start` or above.
abbrev pub NoRoom : Fb → ℕ → ℕ → Type 0
NoRoom active npages start =
    (j : ℕ) → start ≤ j → j + npages ≤ hugepage_pages → ¬ (IsFree active j npages)

-- What one free range of `len` pages from `b` on gives while `left` offsets are asked for.
pub record IsCarving (active : Fb) (npages left b len : ℕ) (r : List AllocOffset × ℕ × ℕ × ℕ)
    : Type 0 where
  pub apart : AreApart active npages b (b + len) r.0
  pub counted : length r.0 + r.1 ≡ left
  pub end : (r.2 + r.3 ≡ b + len) ⊎ ((r.1 ≡ 0) × (r.2 + r.3 ≡ hugepage_pages))
  pub some_found : 0 < left → npages ≤ len → 0 < length r.0

-- What the outer loop finds from `start` on.
pub record IsFinding (active : Fb) (npages left start : ℕ) (offsets : List AllocOffset)
    : Type 0 where
  pub apart : AreApart active npages start hugepage_pages offsets
  pub enough : length offsets ≤ left
  pub complete : 0 < left → (0 < length offsets) ⊎ NoRoom active npages start

contradicts : {x : Bool} → x ≡ true → ¬ (x ≡ false)
contradicts p q = absurd (ground arith)

module _ (active : Fb) (npages : ℕ) (some_pages : 0 < npages) where
  pub carve-IsCarving :
      (left longest b len : ℕ)
      → IsFree active b len
      → IsCarving active npages left b len (carve left npages longest b len)
  unfolding carve
  carve-IsCarving zero longest b len free = record {
    apart = omega arith;
    counted = refl;
    end = inr (refl, omega arith);
    some_found = λ p q. absurd (omega arith);
  }
  carve-IsCarving (suc left) longest b len free = elim (dec_le npages len) [
    | yes p ↦
        let rest =
          carve-IsCarving left longest (b + npages) (len - npages)
            (λ j x y. free j (omega arith) (omega arith)) in
        let same : b + npages + (len - npages) ≡ b + len = omega arith in
        rw (le→leb npages len p) record {
          apart = (omega arith, (λ j x y. free j x (omega arith)), rw (sym same) rest.apart);
          counted = omega (arith, rest.counted);
          end = rw (sym same) rest.end;
          some_found = λ x y. omega arith;
        }
    | no p ↦ rw (lt→leb npages len (omega arith)) record {
      apart = omega arith;
      counted = omega arith;
      end = inl refl;
      some_found = λ x y. absurd (omega arith);
    }
  ]

  -- A range that is too short, and nothing after it, leave no room.
  no_room :
      (start b len : ℕ)
      → IsRange active hugepage_pages start false b len
      → len < npages
      → NoRoom active npages (b + len)
      → NoRoom active npages start
  no_room start b len r short rest j p q free = elim (dec_lt j b) [
    | yes lt ↦ contradicts (r.before j p lt) (free j (omega arith) (omega arith))
    | no ge ↦ elim (dec_le (b + len) j) [
      | yes le ↦ rest j le q free
      | no gt ↦ contradicts (r.after (omega arith)) (free (b + len) (omega arith) (omega arith))
    ]
  ]

  nothing_free :
      (start : ℕ) → IsFirstRange active hugepage_pages start false none → NoRoom active npages start
  nothing_free start all j p q free =
      contradicts (all j p (omega arith)) (free j (omega arith) (omega arith))

  full : NoRoom active npages hugepage_pages
  full j p q free = absurd (omega arith)

  -- A round that is the last: no more is asked for, or the range reaches the end.
  last_round :
      (left left' start b len : ℕ) (os : List AllocOffset)
      → IsRange active hugepage_pages start false b len
      → AreApart active npages b (b + len) os
      → length os + left' ≡ left
      → (0 < left → npages ≤ len → 0 < length os)
      → (b + len ≡ hugepage_pages) ⊎ (left' ≡ 0)
      → IsFinding active npages left start os
  last_round left left' start b len os r apart counted found end = record {
    apart =
        AreApart-widen active npages start b hugepage_pages os r.from
          (AreApart-extend active npages b (b + len) hugepage_pages os r.to apart);
    enough = omega arith;
    complete = λ p. elim (dec_le npages len) [
      | yes le ↦ inl (found p le)
      | no gt ↦ elim end [
        | inl e ↦ inr (no_room start b len r (omega arith) (rw e full))
        | inr e ↦ inl (omega arith)
      ]
    ];
  }

  -- A round that others follow.
  next_round :
      (left left' start b len : ℕ) (os ps : List AllocOffset)
      → IsRange active hugepage_pages start false b len
      → AreApart active npages b (b + len) os
      → length os + left' ≡ left
      → (0 < left → npages ≤ len → 0 < length os)
      → IsFinding active npages left' (b + len) ps
      → IsFinding active npages left start (os ++ ps)
  next_round left left' start b len os ps r apart counted found rest = record {
    apart =
        AreApart-widen active npages start b hugepage_pages (os ++ ps) r.from
          (AreApart-append active npages b (b + len) hugepage_pages os ps apart rest.apart);
    enough = omega (arith, length-append os ps, rest.enough);
    complete = λ p. elim (dec_lt 0 (length os)) [
      | yes some_os ↦ inl (omega (arith, length-append os ps))
      | no none_os ↦ elim (rest.complete (omega arith)) [
        | inl some_ps ↦ inl (omega (arith, length-append os ps))
        | inr packed ↦ elim (dec_le npages len) [
          | yes le ↦ absurd (omega (arith, found p le))
          | no gt ↦ inr (no_room start b len r (omega arith) packed)
        ]
      ]
    ];
  }

  pub found_cases :
      (start : ℕ) (o : Option (ℕ × ℕ))
      → IsFirstRange active hugepage_pages start false o
      → ((o ≡ none) × NoRoom active npages start)
        ⊎ ((b : ℕ) × (len : ℕ) × (o ≡ some (b, len))
            × IsRange active hugepage_pages start false b len)
  found_cases start none all = inl (refl, nothing_free start all)
  found_cases start (some (b, len)) r = inr (b, len, refl, r)

  offsets_from-IsFinding :
      (fuel left start longest : ℕ)
      → IsClean active hugepage_pages
      → start < hugepage_pages
      → hugepage_pages ≤ start + fuel
      → IsFinding active npages left start (offsets_from fuel active npages left start longest)
  unfolding offsets_from fb_urange_iter
  offsets_from-IsFinding zero left start longest clean h k = absurd (omega arith)
  offsets_from-IsFinding (suc fuel) left start longest clean h k =
      elim (found_cases start _
        (fb_iter_range_forward-IsFirstRange active hugepage_pages start h clean false)) [
          | inl (e, packed) ↦
              rw (e, offsets_from)
                record { apart = omega arith; enough = omega arith; complete = λ p. inr packed }
          | inr (b, len, e, r) ↦
              let c = carve left npages longest b len in
              let cut = carve-IsCarving left longest b len r.inside in
              let start' = c.2 + c.3 in
              let more = offsets_from fuel active npages c.1 start' (max longest c.3) in
              rw (e, offsets_from)
                (elim (ℕ_discrete start' hugepage_pages) [
                  | yes stop ↦ rw (eq→== start' hugepage_pages stop) (
                      last_round left c.1 start b len c.0 r cut.apart cut.counted cut.some_found
                        (ground (arith, cut.end)))
                  | no on ↦
                      let same : start' ≡ b + len = ground (arith, cut.end) in
                      let ih =
                        offsets_from-IsFinding fuel c.1 start' (max longest c.3) clean
                          (omega (arith, same, r.to)) (omega (arith, same, r.from, r.nonempty)) in
                      rw (neq→== start' hugepage_pages on) (
                        next_round left c.1 start b len c.0 more r cut.apart cut.counted
                          cut.some_found (subst (λ t. IsFinding active npages c.1 t more) same ih))
                ])
        ]

past-end : (fb : Fb) (g j : ℕ) → length fb ≤ g → group_at fb g j ≡ false
past-end [] zero j h = refl
past-end [] (suc g) j h = refl
past-end (x ∷ fb) zero j h = absurd (omega arith)
past-end (x ∷ fb) (suc g) j h = past-end fb g j (omega arith)

-- A bitmap has no bit past its last group.
pub groups-IsClean : (fb : Fb) (nbits : ℕ) → 64 * length fb ≤ nbits → IsClean fb nbits
unfolding fb_get
groups-IsClean fb nbits h j p = past-end fb (j / 64) (j % 64) (omega arith)

-- For a hugepage whose bitmap has a bit for each page and a request of at least one page: the
-- offsets that `hpdata_find_alloc_offsets` returns come in order, each has its pages to itself, and
-- all of these are free and lie in the hugepage; there are at most `max_nallocs` of them; and if at
-- least one is asked for, there is one, or no free range of the hugepage is long enough.
pub find_alloc_offsets-IsFinding :
    (h : Hpdata) (sz max_nallocs : ℕ)
    → 64 * length h.active_pages ≡ hugepage_pages
    → 0 < shr sz lg_page
    → IsFinding h.active_pages
        (shr sz lg_page)
        max_nallocs
        0
        (hpdata_find_alloc_offsets h sz max_nallocs)
unfolding hpdata_find_alloc_offsets
find_alloc_offsets-IsFinding h sz max_nallocs e some_pages =
    offsets_from-IsFinding h.active_pages (shr sz lg_page) some_pages hugepage_pages max_nallocs 0 0
      (groups-IsClean h.active_pages hugepage_pages (omega arith)) (omega (arith, pages_eq))
      (omega arith)
