-- ===== src/Frames/Alloc.antt =====
-- Allocation and release of one frame.
use fullerene.Base.{
  ℕ, zero, suc, ◌+◌, ◌*◌, ◌/◌, ◌<◌, ◌≡◌, refl, true, false, ◌&&◌, arith, Option, none, some,
  if◌then◌else◌, leb, ltb, ◌==◌, length, ◌∙◌, ℕ_discrete, subst,
}
use fullerene.Frames.{
  Bitmap, AllocError, Result, ok, err, out_of_memory, u64, is_frame_available, set_frame_used,
  scan_words, allocate, allocate_frame, deallocate, available_from, available_frames,
}
use fullerene.Frames.Invariant.{
  IsValid, set_frame_used-IsValid, is_frame_available-set_frame_used, total_frames-set_frame_used,
}
use fullerene.Frames.Scan.{NoneIn, IsLowest, Lowest, search-Lowest}

-- The availability of every frame after frame `f` has been taken.
abbrev pub Taken : Bitmap → ℕ → Bitmap → Type 0
Taken a f a' =
    (g : ℕ) → is_frame_available a' g ≡ (if f == g then false else is_frame_available a g)

-- What `allocate` promises, by its result.
abbrev pub Allocates : Bitmap → Result AllocError ℕ × Bitmap → Type 0
Allocates a (ok address, a') =
    (f : ℕ) × (address ≡ f * 4096)
    × IsLowest a 0 f
    × Taken a f a'
    × (a'.total_frames ≡ a.total_frames)
    × IsValid a'
Allocates a (err e, a') = (e ≡ out_of_memory) × (a' ≡ a) × NoneIn a 0 a.total_frames

pub taken :
    {a : Bitmap} (f : ℕ) → IsValid a → f < a.total_frames → Taken a f (set_frame_used a f true)
taken f v h g = is_frame_available-set_frame_used f g true v ∙ ground arith

-- In a valid allocator `allocate` returns the address of the lowest available frame that is not
-- frame 0, makes exactly that frame unavailable and keeps the size and the validity; it reports
-- `OutOfMemory`, changing nothing, exactly when no frame but frame 0 is available.
pub allocate-Allocates : {a : Bitmap} → IsValid a → Allocates a (allocate a)
unfolding allocate
allocate-Allocates {a} v = go (scan_words a 0 (length a.bitmap)) (search-Lowest v)
  where
    go :
        (o : Option ℕ)
        → Lowest a o
        → Allocates a (elim o [
          | some frame ↦ (ok (u64 (frame * 4096)), set_frame_used a frame true)
          | none ↦ (err out_of_memory, a)
        ])
    go (some f) s = (
      f,
      omega (arith, v.small, s.2),
      s,
      taken f v s.2,
      total_frames-set_frame_used a f true,
      set_frame_used-IsValid f true v,
    )
    go none s = (refl, refl, s)

abbrev pub to_option : Result AllocError ℕ × Bitmap → Option ℕ × Bitmap
to_option (ok x, a) = (some x, a)
to_option (err e, a) = (none, a)

-- The two traits' allocation methods agree: on the address, on failure and on the new state.
pub allocate_frame-eq-allocate : (a : Bitmap) → allocate_frame a ≡ to_option (allocate a)
unfolding allocate allocate_frame
allocate_frame-eq-allocate a = ground arith

-- A frame that was allocated and then released is available again, and every frame is available
-- exactly when it was before.
pub deallocate-allocate :
    {a a' : Bitmap} {address : ℕ}
    → IsValid a
    → allocate a ≡ (ok address, a')
    → (g : ℕ) → is_frame_available (deallocate a' address) g ≡ is_frame_available a g
unfolding deallocate
deallocate-allocate {a} {a'} {address} v e g = undo (subst (Allocates a) e (allocate-Allocates v))
  where
    undo :
        Allocates a (ok address, a')
        → is_frame_available (deallocate a' address) g ≡ is_frame_available a g
    undo (f, at, low, t, size, w) =
        let number : address / 4096 ≡ f = omega (arith, at) in
        rw number
          (ground (arith, size, low.2, low.3, is_frame_available-set_frame_used f g false w, t g))

available_from-take :
    (a a' : Bitmap) (f i n : ℕ)
    → Taken a f a'
    → is_frame_available a f ≡ true
    → available_from a' i n + (if leb i f && ltb f (i + n) then 1 else 0) ≡ available_from a i n
unfolding available_from
available_from-take a a' f i zero t free = ground arith
available_from-take a a' f i (suc n) t free = elim (ℕ_discrete f i) [
  | yes here ↦ ground (arith, available_from-take a a' f (i + 1) n t free, t i)
  | no other ↦ ground (arith, available_from-take a a' f (i + 1) n t free, t i)
]

-- A successful allocation takes one off the count of available frames.
pub available_frames-allocate :
    {a a' : Bitmap} {address : ℕ}
    → IsValid a
    → allocate a ≡ (ok address, a')
    → available_frames a' + 1 ≡ available_frames a
unfolding available_frames
available_frames-allocate {a} {a'} {address} v e =
    count (subst (Allocates a) e (allocate-Allocates v))
  where
    count : Allocates a (ok address, a') → available_frames a' + 1 ≡ available_frames a
    count (f, at, low, t, size, w) =
        rw size (ground (arith, available_from-take a a' f 0 a.total_frames t low.3, low.2))
