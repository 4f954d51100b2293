-- ===== src/Frames/Low.antt =====
-- Frames below 1 MB, and reserved ranges.
use fullerene.Base.{
  ℕ, zero, suc, ◌+◌, ◌-◌, ◌*◌, ◌/◌, ◌%◌, ◌≤◌, ◌<◌, ◌≡◌, refl, ◌≢◌, true, false, ◌&&◌, arith, Option,
  none, some, if◌then◌else◌, leb, ltb, ◌==◌, ==_iff, ◌∙◌, inl, inr, Bool-cases, ℕ_discrete, subst,
  sym, min, ==_true,
}
use fullerene.Frames.{
  Bitmap, u64, bit_clear, is_frame_available, set_frame_used, set_frames, scan_low,
  allocate_frame_low, reserve_frames, release_frames,
}
use fullerene.Frames.Invariant.{
  IsValid, set_frames-IsValid, set_frame_used-IsValid, is_frame_available-set_frames,
  total_frames-set_frames,
}
use fullerene.Frames.Alloc.{Taken, taken}

-- No available frame in `lo..hi` but the frame `l4`.
abbrev pub NoneLow : Bitmap → ℕ → ℕ → ℕ → Type 0
NoneLow a l4 lo hi = (g : ℕ) → lo ≤ g → g < hi → g ≢ l4 → is_frame_available a g ≡ false

abbrev pub IsLowestLow : Bitmap → ℕ → ℕ → ℕ → ℕ → Type 0
IsLowestLow a l4 lo hi f =
    (lo ≤ f) × (f < hi) × (f ≢ l4) × (is_frame_available a f ≡ true) × NoneLow a l4 lo f

abbrev ScansLow : Bitmap → ℕ → ℕ → ℕ → Option ℕ → Type 0
ScansLow a l4 lo hi (some f) = IsLowestLow a l4 lo hi f
ScansLow a l4 lo hi none = NoneLow a l4 lo hi

available_inside :
    (a : Bitmap) (f : ℕ)
    → f < a.total_frames
    → is_frame_available a f ≡ bit_clear a (f / 64) (f % 64)
unfolding is_frame_available
available_inside a f h = ground arith

NoneLow-extend :
    (a : Bitmap) (l4 lo hi : ℕ)
    → (lo ≢ l4 → is_frame_available a lo ≡ false)
    → NoneLow a l4 (lo + 1) hi
    → NoneLow a l4 lo hi
NoneLow-extend a l4 lo hi here rest g p q n = elim (ℕ_discrete g lo) [
  | yes e ↦ subst (λ k. is_frame_available a k ≡ false) (sym e) (here (λ same. n (e ∙ same)))
  | no other ↦ rest g (omega arith) q n
]

ScansLow-extend :
    (a : Bitmap) (l4 lo hi : ℕ) (o : Option ℕ)
    → (lo ≢ l4 → is_frame_available a lo ≡ false)
    → ScansLow a l4 (lo + 1) hi o
    → ScansLow a l4 lo hi o
ScansLow-extend a l4 lo hi (some f) here (p, q, n, s, t) =
    (omega arith, q, n, s, NoneLow-extend a l4 lo f here t)
ScansLow-extend a l4 lo hi none here rest = NoneLow-extend a l4 lo hi here rest

scan_low-ScansLow :
    (a : Bitmap) (l4 i n hi : ℕ)
    → i + n ≡ hi
    → hi ≤ a.total_frames
    → ScansLow a l4 i hi (scan_low a l4 i n)
unfolding scan_low
scan_low-ScansLow a l4 i zero hi e h = λ g p q n. absurd (omega arith)
scan_low-ScansLow a l4 i (suc n) hi e h =
    let o = scan_low a l4 (i + 1) n in
    let rest = scan_low-ScansLow a l4 (i + 1) n hi (omega arith) h in
    elim (Bool-cases (i == l4)) [
      | inl own ↦
          rw (own, scan_low)
            (ScansLow-extend a l4 i hi o (λ ne. absurd (ne ((==_iff i l4).0 own))) rest)
      | inr other ↦
          rw (other, scan_low)
            (elim (Bool-cases (bit_clear a (i / 64) (i % 64))) [
              | inl free ↦ rw free (
                omega arith,
                omega arith,
                λ same. absurd (ground (arith, ==_true i l4 same)),
                available_inside a i (omega arith) ∙ free,
                λ g p q n. absurd (omega arith),
              )
              | inr used ↦ rw used (
                  ScansLow-extend a l4 i hi o (λ ne. available_inside a i (omega arith) ∙ used)
                    rest)
            ])
    ]

-- What `allocate_frame_low` promises, by its result, where the page table's root is frame `l4`.
abbrev pub AllocatesLow : Bitmap → ℕ → Option ℕ × Bitmap → Type 0
AllocatesLow a l4 (some address, a') =
    (f : ℕ) × (address ≡ f * 4096)
    × IsLowestLow a l4 1 (min 256 a.total_frames) f
    × Taken a f a'
    × IsValid a'
AllocatesLow a l4 (none, a') = (a' ≡ a) × NoneLow a l4 1 (min 256 a.total_frames)

-- In a valid allocator that manages a frame `allocate_frame_low` returns the address of the lowest
-- available frame below 1 MB that is neither frame 0 nor the frame of CR3 and takes exactly that
-- one; it returns nothing, and changes nothing, exactly if there is no such frame.
pub allocate_frame_low-AllocatesLow :
    {a : Bitmap} (cr3_addr : ℕ)
    → IsValid a
    → 0 < a.total_frames
    → AllocatesLow a (cr3_addr / 4096) (allocate_frame_low cr3_addr a)
unfolding allocate_frame_low
allocate_frame_low-AllocatesLow {a} cr3_addr v p =
    go (scan_low a l4 1 (min 256 a.total_frames - 1)) (
      scan_low-ScansLow a l4 1 (min 256 a.total_frames - 1) (min 256 a.total_frames) (omega arith)
        (omega arith))
  where
    l4 : ℕ
    l4 = cr3_addr / 4096

    go :
        (o : Option ℕ)
        → ScansLow a l4 1 (min 256 a.total_frames) o
        → AllocatesLow a l4 (elim o [
          | some frame ↦ (some (u64 (frame * 4096)), set_frame_used a frame true)
          | none ↦ (none, a)
        ])
    go (some f) s =
        (f, omega (arith, s.1), s, taken f v (omega (arith, s.1)), set_frame_used-IsValid f true v)
    go none s = (refl, s)

-- Frames that were available stay so over a reservation and its release; a frame that was not
-- available comes out available exactly if the range holds it and the allocator manages it.
pub release_frames-reserve_frames :
    {a : Bitmap} (start_phys pages g : ℕ)
    → IsValid a
    → is_frame_available (release_frames (reserve_frames a start_phys pages) start_phys pages) g ≡ (
        if leb (start_phys / 4096) g && ltb g (start_phys / 4096 + pages) && ltb g a.total_frames
        then true
        else is_frame_available a g)
unfolding release_frames reserve_frames
release_frames-reserve_frames {a} start_phys pages g v =
    let s : ℕ = start_phys / 4096 in
    is_frame_available-set_frames {a = set_frames a s pages true} s pages g false
      (set_frames-IsValid s pages true v)
    ∙ ground (
      arith,
      is_frame_available-set_frames s pages g true v,
      total_frames-set_frames a s pages true,
    )
