-- ===== src/Frames/MemoryMap.antt =====
-- The two ways to set an allocator up: all free, or from the firmware's memory map.
use fullerene.Base.{
  ℕ, zero, suc, ◌+◌, ◌-◌, ◌*◌, ◌/◌, ◌%◌, ◌^◌, ◌≤◌, ◌<◌, ◌≡◌, refl, Bool, true, false, ◌&&◌, ◌||◌,
  arith, if◌then◌else◌, leb, ltb, ◌==◌, ◌∙◌, inl, inr, Bool-cases, dec_lt, List, [], ◌∷◌,
  length-replicate, replicate, get_or, get_or-replicate,
}
use fullerene.Frames.{
  Bitmap, is_frame_available, set_frames, set_frame_range, new, fill, init, Descriptor, end_of,
  conventional_memory, max_phys, free_conventional, init_with_memory_map, u64_max, u64,
}
use fullerene.Frames.Invariant.{
  IsValid, set_frames-IsValid, is_frame_available-set_frames, is_frame_available_outside,
  bit_clear-bit, total_frames-set_frames,
}
use fullerene.Base.Bits.{bit-zero}
use fullerene.Frames.Scan.{full_word}

filled-IsValid : (total word : ℕ) → total ≤ 2 ^ 52 → IsValid (fill (new total) word)
unfolding fill new
filled-IsValid total word h = record {
  covers = rw (length-replicate (u64 (total + 63) / 64 - 0) word) (omega arith);
  small = h;
}

total_frames_filled : (total word : ℕ) → (fill (new total) word).total_frames ≡ total
unfolding fill new
total_frames_filled total word = refl

get_or-replicate_in : (n i w : ℕ) → i < n → get_or (replicate n w) i 0 ≡ w
get_or-replicate_in zero i w h = absurd (omega arith)
get_or-replicate_in (suc n) zero w h = refl
get_or-replicate_in (suc n) (suc i) w h = get_or-replicate_in n i w (omega arith)

-- Whether some descriptor of conventional memory covers the frame.
abbrev pub covered : List Descriptor → ℕ → Bool
covered [] g = false
covered (d ∷ ds) g =
    d.memory_type == conventional_memory
      && leb (d.physical_start / 4096) g
      && ltb g (end_of d / 4096)
    || covered ds g

free_conventional_lem :
    {a : Bitmap} (ds : List Descriptor) (g : ℕ)
    → IsValid a
    → is_frame_available (free_conventional a ds) g
      ≡ (ltb g a.total_frames && covered ds g || is_frame_available a g)
unfolding free_conventional set_frame_range
free_conventional_lem [] g v = ground arith
free_conventional_lem {a} (d ∷ ds) g v = elim (Bool-cases (d.memory_type == conventional_memory)) [
  | inl c ↦ rw c (
      free_conventional_lem {a = freed} ds g (set_frames-IsValid from (to - from) false v)
      ∙ ground (
        arith,
        total_frames-set_frames a from (to - from) false,
        is_frame_available-set_frames from (to - from) g false v,
      ))
  | inr c ↦ rw c (free_conventional_lem {a = a} ds g v)
]
  where
    from : ℕ
    from = d.physical_start / 4096

    to : ℕ
    to = end_of d / 4096

    freed : Bitmap
    freed = set_frames a from (to - from) false

nothing_free :
    (total g : ℕ) → total ≤ 2 ^ 52 → is_frame_available (fill (new total) u64_max) g ≡ false
unfolding fill new
nothing_free total g h = elim (dec_lt g total) [
  | yes p ↦
      full_word (fill (new total) u64_max) (g / 64)
        (get_or-replicate_in (u64 (total + 63) / 64 - 0) (g / 64) u64_max (omega arith)) g
        (omega arith) (omega arith)
  | no p ↦ is_frame_available_outside _ g (omega arith)
]

free_conventional-IsValid :
    {a : Bitmap} (ds : List Descriptor) → IsValid a → IsValid (free_conventional a ds)
unfolding free_conventional set_frame_range
free_conventional-IsValid [] v = v
free_conventional-IsValid {a} (d ∷ ds) v =
    elim (Bool-cases (d.memory_type == conventional_memory)) [
      | inl c ↦ rw c (
          free_conventional-IsValid
            {a = set_frames a (d.physical_start / 4096) (end_of d / 4096 - d.physical_start / 4096)
              false}
            ds
            (set_frames-IsValid (d.physical_start / 4096)
              (end_of d / 4096 - d.physical_start / 4096) false v))
      | inr c ↦ rw c (free_conventional-IsValid {a = a} ds v)
    ]

-- `max_phys` is the largest end of the descriptors that no end lies above.
max_phys-ge :
    (top : ℕ) (ds : List Descriptor) (g : ℕ)
    → (top ≤ max_phys top ds) × (covered ds g ≡ true → g * 4096 < max_phys top ds)
unfolding max_phys
max_phys-ge top [] g = (omega arith, λ h. absurd (ground arith))
max_phys-ge top (d ∷ ds) g =
    let next = if ltb top (end_of d) then end_of d else top in ground (arith, max_phys-ge next ds g)

-- An allocator set up from a memory map, whose highest end is 4096 below the top of the address
-- space, is valid, and a frame is available exactly if a descriptor of conventional memory covers
-- it, whatever the other descriptors and their order are.
pub init_with_memory_map_lem :
    (ds : List Descriptor)
    → max_phys 0 ds ≤ 2 ^ 64 - 4096
    → IsValid (init_with_memory_map ds)
      × ((g : ℕ) → is_frame_available (init_with_memory_map ds) g ≡ covered ds g)
unfolding init_with_memory_map
init_with_memory_map_lem ds h = (free_conventional-IsValid ds blank, law)
  where
    total : ℕ
    total = u64 (max_phys 0 ds + 4095) / 4096

    blank : IsValid (fill (new total) u64_max)
    blank = filled-IsValid total u64_max (omega arith)

    law :
        (g : ℕ)
        → is_frame_available (free_conventional (fill (new total) u64_max) ds) g ≡ covered ds g
    law g =
        free_conventional_lem ds g blank
        ∙ ground (
          arith,
          nothing_free total g (omega arith),
          total_frames_filled total u64_max,
          max_phys-ge 0 ds g,
        )

everything_free :
    (total g : ℕ) → total ≤ 2 ^ 52 → is_frame_available (fill (new total) 0) g ≡ ltb g total
unfolding fill new is_frame_available
everything_free total g h = ground (
  arith,
  bit_clear-bit (fill (new total) 0) (g / 64) (g % 64),
  get_or-replicate {A = ℕ} (u64 (total + 63) / 64 - 0) (g / 64) 0,
  bit-zero (g % 64),
)

-- A fresh allocator of at most 2 ^ 52 frames, initialised with the first `used` frames taken, is
-- valid and has exactly the managed frames from `used` on available.
pub init-new :
    (total used : ℕ)
    → total ≤ 2 ^ 52
    → IsValid (init (new total) used)
      × ((g : ℕ) → is_frame_available (init (new total) used) g ≡ (ltb g total && leb used g))
unfolding init
init-new total used h = (
  set_frames-IsValid 0 used true (filled-IsValid total 0 h),
  λ g.
      is_frame_available-set_frames 0 used g true (filled-IsValid total 0 h)
      ∙ ground (arith, everything_free total g h, total_frames_filled total 0),
)
