-- ===== src/Frames/Runs.antt =====
-- Allocation of contiguous frames: the first run that is long enough.
use fullerene.Base.{
  ℕ, zero, suc, ◌+◌, ◌-◌, ◌*◌, ◌/◌, ◌≤◌, ◌<◌, ◌≡◌, refl, Bool, true, false, ◌&&◌, arith, Option,
  none, some, if◌then◌else◌, leb, ltb, ◌==◌, ◌∙◌, inl, inr, Bool-cases, dec_lt, sym, subst, ==_iff,
  ℕ_discrete,
}
use fullerene.Frames.{
  Bitmap, SystemError, frame_allocation_failed, Result, ok, err, u64, is_frame_available,
  set_frames, find_run, allocate_contiguous_frames, free_contiguous_frames, low_mem_skip_frames,
}
use fullerene.Frames.Invariant.{
  IsValid, set_frames-IsValid, is_frame_available-set_frames, is_frame_available_outside,
  total_frames-set_frames,
}

-- The `n` frames from `s` on are available.
abbrev pub AllFree : Bitmap → ℕ → ℕ → Type 0
AllFree a s n = (g : ℕ) → s ≤ g → g < s + n → is_frame_available a g ≡ true

-- `s` begins the first run of `pages` available frames from `lo` on.
abbrev pub IsFirstRun : Bitmap → ℕ → ℕ → ℕ → Type 0
IsFirstRun a pages lo s =
    (lo ≤ s) × AllFree a s pages × ((t : ℕ) → lo ≤ t → t < s → ¬ AllFree a t pages)

abbrev Finds : Bitmap → ℕ → ℕ → ℕ → Option (ℕ × ℕ) → Type 0
Finds a pages lo hi (some (s, l)) = IsFirstRun a pages lo s × (l + 1 ≡ s + pages) × (l < hi)
Finds a pages lo hi none = (t : ℕ) → lo ≤ t → t + pages ≤ hi → ¬ AllFree a t pages

-- A run that starts before an unavailable frame ends before it.
blocked :
    (a : Bitmap) (pages t i : ℕ)
    → is_frame_available a i ≡ false
    → t ≤ i
    → i < t + pages
    → ¬ AllFree a t pages
blocked a pages t i no_i p q all = cc (all i p q)

skip_blocked :
    (a : Bitmap) (pages start i hi : ℕ) (r : Option (ℕ × ℕ))
    → is_frame_available a i ≡ false
    → i < start + pages
    → start ≤ i
    → Finds a pages (i + 1) hi r
    → Finds a pages start hi r
skip_blocked a pages start i hi (some (s, l)) no_i p q ((low, all, first), e, h) =
    ((omega arith, all, earlier), e, h)
  where
    earlier : (t : ℕ) → start ≤ t → t < s → ¬ AllFree a t pages
    earlier t u w = elim (dec_lt i t) [
      | yes after ↦ first t (omega arith) w
      | no before ↦ blocked a pages t i no_i (omega arith) (omega arith)
    ]
skip_blocked a pages start i hi none no_i p q rest = λ t u w. elim (dec_lt i t) [
  | yes after ↦ rest t (omega arith) w
  | no before ↦ blocked a pages t i no_i (omega arith) (omega arith)
]

find_run-Finds :
    (a : Bitmap) (pages i n count start : ℕ)
    → start + count ≡ i
    → count < pages
    → AllFree a start count
    → Finds a pages start (i + n) (find_run a pages i n count start)
unfolding find_run
find_run-Finds a pages i zero count start e p all = λ t u w. absurd (omega arith)
find_run-Finds a pages i (suc n) count start e p all = elim (Bool-cases (is_frame_available a i)) [
  | inr no_i ↦
      rw (no_i, find_run)
        (skip_blocked a pages start i (i + suc n) (find_run a pages (i + 1) n 0 (i + 1)) no_i
          (omega arith) (omega arith)
          (widen (find_run a pages (i + 1) n 0 (i + 1)) (i + 1) (
            find_run-Finds a pages (i + 1) n 0 (i + 1) (omega arith) (omega arith)
              (λ g u w. absurd (omega arith)))))
  | inl free ↦
      rw (free, find_run)
        (elim (Bool-cases (count + 1 == pages)) [
          | inl full ↦
              rw (full, find_run)
                (let len : count + 1 ≡ pages = (==_iff (count + 1) pages).0 full in
                  (
                    (
                      omega arith,
                      λ g u w. grown free g u (omega arith),
                      λ t u w. absurd (omega arith),
                    ),
                    omega arith,
                    omega arith,
                  ))
          | inr more ↦
              rw (more, find_run)
                (widen (find_run a pages (i + 1) n (count + 1) start) start (
                  find_run-Finds a pages (i + 1) n (count + 1) start (omega arith) (ground arith)
                    (λ g u w. grown free g u (omega arith))))
        ])
]
  where
    widen :
        (r : Option (ℕ × ℕ)) (lo : ℕ)
        → Finds a pages lo (i + 1 + n) r
        → Finds a pages lo (i + suc n) r
    widen r lo = subst (λ hi. Finds a pages lo hi r) (omega arith)

    grown :
        is_frame_available a i ≡ true
        → (g : ℕ) → start ≤ g
        → g < i + 1
        → is_frame_available a g ≡ true
    grown free g u w = elim (ℕ_discrete g i) [
      | yes h ↦ subst (λ k. is_frame_available a k ≡ true) (sym h) free
      | no h ↦ all g u (omega arith)
    ]

-- What `allocate_contiguous_frames` promises, by its result.
abbrev pub AllocatesRun : Bitmap → ℕ → Result SystemError ℕ × Bitmap → Type 0
AllocatesRun a pages (ok address, a') =
    (s : ℕ) × (address ≡ s * 4096)
    × IsFirstRun a pages low_mem_skip_frames s
    × (s + pages ≤ a.total_frames)
    × ((g : ℕ)
        → is_frame_available a' g
          ≡ (if leb s g && ltb g (s + pages) then false else is_frame_available a g))
    × (a'.total_frames ≡ a.total_frames)
    × IsValid a'
AllocatesRun a pages (err e, a') =
    (e ≡ frame_allocation_failed)
    × (a' ≡ a)
    × ((t : ℕ) → low_mem_skip_frames ≤ t → ¬ AllFree a t pages)

clash : {b : Bool} → b ≡ true → b ≡ false → ⊥
clash p q = cc

-- A run does not reach past the managed frames.
AllFree-inside : (a : Bitmap) (t n : ℕ) → 0 < n → AllFree a t n → t + n ≤ a.total_frames
AllFree-inside a t n p all = elim (dec_lt a.total_frames (t + n)) [
  | yes h ↦ absurd (
      clash (all (t + n - 1) (omega arith) (omega arith))
        (is_frame_available_outside a (t + n - 1) (omega arith)))
  | no h ↦ omega arith
]

-- In a valid allocator, asked for at least one page, `allocate_contiguous_frames` returns the
-- address of the first run of that many available frames above 16 MB, makes exactly those frames
-- unavailable and stays valid; it fails, changing nothing, exactly when there is no such run.
pub allocate_contiguous_frames-AllocatesRun :
    {a : Bitmap} (pages : ℕ)
    → IsValid a
    → 0 < pages
    → AllocatesRun a pages (allocate_contiguous_frames a pages)
unfolding allocate_contiguous_frames
allocate_contiguous_frames-AllocatesRun {a} pages v p =
    go
      (find_run a pages low_mem_skip_frames (a.total_frames - low_mem_skip_frames) 0
        low_mem_skip_frames)
      (find_run-Finds a pages low_mem_skip_frames (a.total_frames - low_mem_skip_frames) 0
        low_mem_skip_frames (omega arith) p (λ g u w. absurd (omega arith)))
  where
    go :
        (r : Option (ℕ × ℕ))
        → Finds a pages low_mem_skip_frames
            (low_mem_skip_frames + (a.total_frames - low_mem_skip_frames))
            r
        → AllocatesRun a pages (elim r [
          | none ↦ (err frame_allocation_failed, a)
          | some (start, i) ↦ (ok (u64 (start * 4096)), set_frames a start (i + 1 - start) true)
        ])
    go none f = (refl, refl, λ t u all. f t u (omega (arith, AllFree-inside a t pages p all)) all)
    go (some (s, l)) (run, e, h) = (
      s,
      omega (arith, v.small, run.0),
      run,
      omega (arith, run.0),
      λ g.
          is_frame_available-set_frames s (l + 1 - s) g true v
          ∙ ground (arith, run.1 g, AllFree-inside a s pages p run.1),
      total_frames-set_frames a s (l + 1 - s) true,
      set_frames-IsValid s (l + 1 - s) true v,
    )

find_run_no_pages : (a : Bitmap) (i n count start : ℕ) → find_run a 0 i n count start ≡ none
unfolding find_run
find_run_no_pages a i zero count start = refl
find_run_no_pages a i (suc n) count start = ground (
  arith,
  find_run_no_pages a (i + 1) n 0 (i + 1),
  find_run_no_pages a (i + 1) n (count + 1) start,
)

-- A request for no page at all always fails.
pub allocate_contiguous_frames_no_pages :
    (a : Bitmap) → allocate_contiguous_frames a 0 ≡ (err frame_allocation_failed, a)
unfolding allocate_contiguous_frames
allocate_contiguous_frames_no_pages a = ground (
  arith,
  find_run_no_pages a low_mem_skip_frames (a.total_frames - low_mem_skip_frames) 0
      low_mem_skip_frames,
)

-- Releasing the pages of a successful contiguous allocation makes every frame available exactly
-- when it was before.
pub free_contiguous_frames-allocate_contiguous_frames :
    {a a' : Bitmap} {address : ℕ} (pages : ℕ)
    → IsValid a
    → 0 < pages
    → allocate_contiguous_frames a pages ≡ (ok address, a')
    → (g : ℕ)
    → is_frame_available (free_contiguous_frames a' address pages) g ≡ is_frame_available a g
unfolding free_contiguous_frames
free_contiguous_frames-allocate_contiguous_frames {a} {a'} {address} pages v p e g =
    undo (subst (AllocatesRun a pages) e (allocate_contiguous_frames-AllocatesRun pages v p))
  where
    undo :
        AllocatesRun a pages (ok address, a')
        → is_frame_available (free_contiguous_frames a' address pages) g ≡ is_frame_available a g
    undo (s, at, run, fits, law, size, w) =
        let number : address / 4096 ≡ s = omega (arith, at) in
        rw (number, is_frame_available-set_frames s pages g false w)
          (ground (arith, law g, run.1 g, size))
