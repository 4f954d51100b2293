-- ===== src/LinuxMemory/Search.antt =====
-- The search for a free range ends, and finds the lowest one.
use mathlib.Core.Option
use fullerene.Base.{
  ℕ, zero, suc, ◌+◌, ◌*◌, ◌/◌, ◌%◌, ◌^◌, ◌≤◌, ◌<◌, ◌≡◌, refl, ◌∙◌, subst, ◌⊎◌, inl, inr, Bool, true,
  false, ◌&&◌, Option, none, some, List, [], ◌∷◌, ltb, max, arith, Bool-cases, Option-cases, dec_lt,
  ltb-true, ltb-false,
}
use fullerene.Base.Bits.{bit_and_page}
use fullerene.LinuxMemory.{
  Region, ranges_overlap, tracked_range_overlaps, greatest_end, align_up, saturating_add,
  range_is_mapped, search_free, find_free_anon_region, user_address_limit,
}

-- Every tracked region lies below the limit.
abbrev pub AllBelow : List Region → Type 0
AllBelow [] = Unit {0}
AllBelow (r ∷ rs) = (r.addr + r.size ≤ user_address_limit) × AllBelow rs

-- Ranges below the limit overlap exactly if each begins before the other ends.
overlap_below :
    (a n b m : ℕ)
    → a + n ≤ user_address_limit
    → b + m ≤ user_address_limit
    → ranges_overlap a n b m ≡ (ltb a (b + m) && ltb b (a + n))
unfolding ranges_overlap
overlap_below a n b m p q = ground arith

-- What the greatest end tells: without one nothing overlaps, and up to it everything does.
abbrev Ends : List Region → ℕ → ℕ → Option ℕ → Type 0
Ends rs candidate size none = tracked_range_overlaps rs candidate size ≡ false
Ends rs candidate size (some e) =
    (candidate < e)
    × (e ≤ user_address_limit)
    × ((c : ℕ)
        → candidate ≤ c
        → c < e
        → c + size ≤ user_address_limit
        → tracked_range_overlaps rs c size ≡ true)

module _ (r : Region) (rs : List Region) (candidate size : ℕ) where
  -- A range that overlaps the region still does so when it moves up, as far as the region's end.
  moved :
      (c : ℕ)
      → r.addr + r.size ≤ user_address_limit
      → candidate + size ≤ user_address_limit
      → ranges_overlap r.addr r.size candidate size ≡ true
      → candidate ≤ c
      → c < r.addr + r.size
      → c + size ≤ user_address_limit
      → ranges_overlap r.addr r.size c size ≡ true
  moved c p h yes_r q u w = ground (
    arith,
    overlap_below r.addr r.size candidate size p h,
    overlap_below r.addr r.size c size p w,
  )

  tracked_first :
      (c : ℕ)
      → ranges_overlap r.addr r.size c size ≡ true
      → tracked_range_overlaps (r ∷ rs) c size ≡ true
  unfolding tracked_range_overlaps
  tracked_first c e = ground arith

  tracked_rest :
      (c : ℕ)
      → tracked_range_overlaps rs c size ≡ true
      → tracked_range_overlaps (r ∷ rs) c size ≡ true
  unfolding tracked_range_overlaps
  tracked_rest c e = ground arith

  joined :
      (o : Option ℕ)
      → r.addr + r.size ≤ user_address_limit
      → candidate + size ≤ user_address_limit
      → ranges_overlap r.addr r.size candidate size ≡ true
      → Ends rs candidate size o
      → Ends
          (r ∷ rs)
          candidate
          size
          (some (elim o [ none ↦ r.addr + r.size | some other ↦ max (r.addr + r.size) other ]))
  joined none p h yes_r rest = (
    ground (arith, overlap_below r.addr r.size candidate size p h),
    p,
    λ c q u w. tracked_first c (moved c p h yes_r q u w),
  )
  joined (some other) p h yes_r rest = (
    ground (arith, overlap_below r.addr r.size candidate size p h),
    omega (arith, rest.1),
    λ c q u w. elim (dec_lt c (r.addr + r.size)) [
      | yes near ↦ tracked_first c (moved c p h yes_r q near w)
      | no far ↦ tracked_rest c (rest.2 c q (omega arith) w)
    ],
  )

  passed :
      (o : Option ℕ)
      → ranges_overlap r.addr r.size candidate size ≡ false
      → Ends rs candidate size o
      → Ends (r ∷ rs) candidate size o
  unfolding tracked_range_overlaps
  passed none no_r rest = ground arith
  passed (some e) no_r rest = (rest.0, rest.1, λ c q u w. tracked_rest c (rest.2 c q u w))

greatest_end-Ends :
    (rs : List Region) (candidate size : ℕ)
    → AllBelow rs
    → candidate + size ≤ user_address_limit
    → Ends rs candidate size (greatest_end rs candidate size)
unfolding greatest_end tracked_range_overlaps
greatest_end-Ends [] candidate size v h = refl
greatest_end-Ends (r ∷ rs) candidate size v h =
    let o = greatest_end rs candidate size in
    let rest = greatest_end-Ends rs candidate size v.1 h in
    rw (ltb-true (r.addr + r.size) (2 ^ 64) (omega (arith, v.0)), Ends, greatest_end)
      (elim (Bool-cases (ranges_overlap r.addr r.size candidate size)) [
        | inl yes_r ↦ rw yes_r (joined r rs candidate size o v.0 h yes_r rest)
        | inr no_r ↦ rw no_r (passed r rs candidate size o no_r rest)
      ])

align_up_lem : (a : ℕ) → a ≤ user_address_limit → align_up a ≡ (a + 4095) / 4096 * 4096
unfolding align_up
align_up_lem a h =
    let e : (a + 4095) % 2 ^ 64 ≡ a + 4095 = omega arith in
    rw e (bit_and_page (a + 4095) (omega arith) ∙ omega arith)

module _ (translates : ℕ → Bool) (rs : List Region) (size : ℕ) where
  -- Room for the range at a page: below the limit, clear of the regions, and unmapped.
  abbrev pub Room : ℕ → Type 0
  Room a =
      (a % 4096 ≡ 0)
      × (a + size ≤ user_address_limit)
      × (tracked_range_overlaps rs a size ≡ false)
      × (range_is_mapped translates a size ≡ false)

  -- The lowest room from `lo` on, or 0 and no room.
  abbrev pub FindsRoom : ℕ → ℕ → Type 0
  FindsRoom lo a =
      (Room a × (lo ≤ a) × ((c : ℕ) → lo ≤ c → c < a → ¬ Room c))
      ⊎ ((a ≡ 0) × ((c : ℕ) → lo ≤ c → ¬ Room c))

  later :
      (lo mid a : ℕ)
      → lo ≤ mid
      → ((c : ℕ) → lo ≤ c → c < mid → ¬ Room c)
      → FindsRoom mid a
      → FindsRoom lo a
  later lo mid a p before (inl (room, q, first)) = inl (
    room,
    omega arith,
    λ c u w r. elim (dec_lt c mid) [
      | yes low ↦ before c u low r
      | no high ↦ first c (omega arith) w r
    ],
  )
  later lo mid a p before (inr (z, nothing)) = inr (
    z,
    λ c u r. elim (dec_lt c mid) [
      | yes low ↦ before c u low r
      | no high ↦ nothing c (omega arith) r
    ],
  )

  crossed : {b : Bool} → b ≡ true → b ≡ false → ⊥
  crossed p q = cc

  saturated : (a : ℕ) → a ≤ user_address_limit → saturating_add a 4096 ≡ a + 4096
  unfolding saturating_add
  saturated a h = rw (ltb-true (a + 4096) (2 ^ 64) (omega arith))

  -- Enough fuel: one round for each page that is left, and one more.
  search_free-FindsRoom :
      (fuel candidate : ℕ)
      → AllBelow rs
      → 0 < size
      → candidate % 4096 ≡ 0
      → candidate ≤ user_address_limit
      → 2 ^ 35 + 2 ≤ fuel + candidate / 4096
      → (a : ℕ) × (search_free translates rs size fuel candidate ≡ some a) × FindsRoom candidate a
  unfolding search_free
  search_free-FindsRoom zero candidate v p al le f = absurd (omega arith)
  search_free-FindsRoom (suc fuel) candidate v p al le f =
      elim (dec_lt user_address_limit (candidate + size)) [
        | yes high ↦ (
          0,
          rw (ltb-true user_address_limit (candidate + size) high),
          inr (refl, λ c u r. absurd (omega (arith, r.1))),
        )
        | no low ↦
            rw (ltb-false user_address_limit (candidate + size) (omega arith))
              (elim (Bool-cases (tracked_range_overlaps rs candidate size)) [
                | inl tracked ↦ rw tracked (elim (Option-cases (greatest_end rs candidate size)) [
                  | inl no_end ↦
                      let clear : tracked_range_overlaps rs candidate size ≡ false =
                        subst (Ends rs candidate size) no_end
                          (greatest_end-Ends rs candidate size v (omega arith)) in
                      cc
                  | inr (e, at) ↦
                      let ends : Ends rs candidate size (some e) =
                        subst (Ends rs candidate size) at
                          (greatest_end-Ends rs candidate size v (omega arith)) in
                      let next : ℕ = (e + 4095) / 4096 * 4096 in
                      let (a, ran, finds) =
                        search_free-FindsRoom fuel next v p (omega arith) (omega (arith, ends.1))
                          (omega (arith, ends.0)) in
                      (
                        a,
                        rw (at, Option.get_or, align_up_lem e ends.1) ran,
                        later candidate next a (omega (arith, ends.0))
                            (λ c u w r. crossed (ends.2 c u (omega (arith, r.0)) r.1) r.2) finds,
                      )
                ])
                | inr clear ↦
                    rw clear (elim (Bool-cases (range_is_mapped translates candidate size)) [
                      | inl mapped ↦ rw mapped (
                          let (a, ran, finds) =
                            search_free-FindsRoom fuel (candidate + 4096) v p (omega arith)
                              (omega arith) (omega arith) in
                          (
                            a,
                            rw (saturated candidate le) ran,
                            later candidate (candidate + 4096) a (omega arith)
                                (λ c u w r.
                                  let here : c ≡ candidate = omega (arith, r.0) in
                                  crossed mapped (
                                    subst (λ k. range_is_mapped translates k size ≡ false) here
                                      r.3))
                                finds,
                          ))
                      | inr unmapped ↦ rw unmapped (
                        candidate,
                        refl,
                        inl (
                          (al, omega arith, clear, unmapped),
                          omega arith,
                          λ c u w. absurd (omega arith),
                        ),
                      )
                    ])
              ])
      ]

pub find_free-FindsRoom :
    (translates : ℕ → Bool) (rs : List Region) (size start : ℕ)
    → AllBelow rs
    → 0 < size
    → start ≤ user_address_limit
    → (a : ℕ) × (find_free_anon_region translates rs size start ≡ some a)
      × FindsRoom translates rs size start a
unfolding find_free_anon_region
find_free-FindsRoom translates rs size start v p h =
    let lo : ℕ = (start + 4095) / 4096 * 4096 in
    let (a, ran, finds) =
      search_free-FindsRoom translates rs size (2 ^ 35 + 2) lo v p (omega arith) (omega arith)
        (omega arith) in
    (
      a,
      rw (align_up_lem start h) ran,
      later translates rs size start lo a (omega arith) (λ c u w r. absurd (omega (arith, r.0)))
          finds,
    )

-- Below a limit that every tracked region respects, the search for a positive number of bytes from
-- a positive address ends within its fuel. It returns the lowest page address from there on at
-- which the range ends below the limit, overlaps no region and has no page mapped; it returns 0
-- exactly if there is no such address.
pub find_free_anon_region-FindsRoom :
    (translates : ℕ → Bool) (rs : List Region) (size start : ℕ)
    → AllBelow rs
    → 0 < size
    → 0 < start
    → start ≤ user_address_limit
    → (a : ℕ) × (find_free_anon_region translates rs size start ≡ some a)
      × FindsRoom translates rs size start a
find_free_anon_region-FindsRoom translates rs size start v p q h =
    find_free-FindsRoom translates rs size start v p h
