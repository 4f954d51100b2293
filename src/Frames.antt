-- ===== src/Frames.antt =====
-- petroleum/src/page_table/allocator: `BitmapFrameAllocator` and its two allocator traits.
-- A frame is named by its number, and a `PhysFrame` by its start address. A
-- vector is a list; a word past its end, where the source would panic, reads as 0 and is not
-- written. Counts and frame numbers are unbounded where the source has a usize.
pub mod Invariant
pub mod Scan
pub mod Alloc
pub mod Runs
pub mod MemoryMap
pub mod Low
mod Tests
use fullerene.Base.{
  ℕ, zero, suc, ◌+◌, ◌-◌, ◌*◌, ◌/◌, ◌%◌, ◌^◌, Bool, true, false, not, Option, none, some, List, [],
  ◌∷◌, ◌++◌, bit_and, bit_or, if◌then◌else◌, leb, ltb, min, ◌==◌, get_or, set, length, replicate,
}

abbrev pub u64 : ℕ → ℕ
u64 n = n % 2 ^ 64

abbrev pub u64_max : ℕ
u64_max = 2 ^ 64 - 1

-- `!m` on a 64-bit word
abbrev pub complement : ℕ → ℕ
complement m = 2 ^ 64 - 1 - m

pub data AllocError : Type 0 where
  out_of_memory invalid_alignment not_initialized : AllocError

-- `SystemError`, as far as the allocator returns it
pub data SystemError : Type 0 where
  frame_allocation_failed : SystemError

pub data Result (E A : Type 0) : Type 0 where
  ok : A → Result E A
  err : E → Result E A

-- `capacity` is that of the vector, which `new` reserves and `init` fills.
pub record Bitmap : Type 0 where
  pub bitmap : List ℕ
  pub capacity : ℕ
  pub total_frames : ℕ

pub new : ℕ → Bitmap
new total_frames = record {
  bitmap = [];
  capacity = u64 (total_frames + 63) / 64;
  total_frames = total_frames;
}

-- `(self.bitmap[i] & (1 << j)) == 0`
pub bit_clear : Bitmap → ℕ → ℕ → Bool
bit_clear a i j = bit_and (get_or a.bitmap i 0) (2 ^ j) == 0

pub is_frame_available : Bitmap → ℕ → Bool
is_frame_available a frame =
    if leb a.total_frames frame then false else bit_clear a (frame / 64) (frame % 64)

pub set_frame_used : Bitmap → ℕ → Bool → Bitmap
set_frame_used a frame used =
    let i = frame / 64 in
    let mask = 2 ^ (frame % 64) in
    let word = get_or a.bitmap i 0 in
    if leb a.total_frames frame then a else record a {
      bitmap = set a.bitmap i (if used then bit_or word mask else bit_and word (complement mask));
    }

-- `for i in start..start + n { self.set_frame_used(i, used) }`; `start + n` does not wrap here.
pub set_frames : Bitmap → ℕ → ℕ → Bool → Bitmap
set_frames a start zero used = a
set_frames a start (suc n) used = set_frames (set_frame_used a start used) (start + 1) n used

pub set_frame_range : Bitmap → ℕ → ℕ → Bool → Bitmap
set_frame_range a start end used = set_frames a start (end - start) used

-- `self.bitmap.resize(self.bitmap.capacity(), word)`
pub fill : Bitmap → ℕ → Bitmap
fill a word = record a { bitmap = a.bitmap ++ replicate (a.capacity - length a.bitmap) word }

pub init : Bitmap → ℕ → Bitmap
init a initial_used_frames = set_frames (fill a 0) 0 initial_used_frames true

pub available_from : Bitmap → ℕ → ℕ → ℕ
available_from a i zero = 0
available_from a i (suc n) = (if is_frame_available a i then 1 else 0) + available_from a (i + 1) n

pub available_frames : Bitmap → ℕ
available_frames a = available_from a 0 a.total_frames

pub free_contiguous_frames : Bitmap → ℕ → ℕ → Bitmap
free_contiguous_frames a start_phys pages = set_frames a (start_phys / 4096) pages false

pub reserve_frames : Bitmap → ℕ → ℕ → Bitmap
reserve_frames a start_phys pages = set_frames a (start_phys / 4096) pages true

pub release_frames : Bitmap → ℕ → ℕ → Bitmap
release_frames a start_phys pages = set_frames a (start_phys / 4096) pages false

pub deallocate : Bitmap → ℕ → Bitmap
deallocate a start_address =
    let frame = start_address / 4096 in
    if ltb frame a.total_frames then set_frame_used a frame false else a

pub is_initialized : Bitmap → Bool
is_initialized a = not (length a.bitmap == 0)

-- The first 16 MB.
abbrev pub low_mem_skip_frames : ℕ
low_mem_skip_frames = 4096

-- The scan of `allocate_contiguous_frames` from frame `i` over `n` frames: first and last of a run.
pub find_run : Bitmap → ℕ → ℕ → ℕ → ℕ → ℕ → Option (ℕ × ℕ)
find_run a pages i zero count start = none
find_run a pages i (suc n) count start = elim (is_frame_available a i) [
  | false ↦ find_run a pages (i + 1) n 0 (i + 1)
  | true ↦ elim (count + 1 == pages) [
    | true ↦ some (start, i)
    | false ↦ find_run a pages (i + 1) n (count + 1) start
  ]
]

pub allocate_contiguous_frames : Bitmap → ℕ → Result SystemError ℕ × Bitmap
allocate_contiguous_frames a pages =
    elim (find_run a pages low_mem_skip_frames (a.total_frames - low_mem_skip_frames) 0
      low_mem_skip_frames) [
        | none ↦ (err frame_allocation_failed, a)
        | some (start, i) ↦ (ok (u64 (start * 4096)), set_frames a start (i + 1 - start) true)
      ]

-- How the inner loop of `allocate` is left: with a frame, by the early return, or at its end.
pub data Outcome : Type 0 where
  found : ℕ → Outcome
  stop : Outcome
  exhausted : Outcome

pub scan_bits : Bitmap → ℕ → ℕ → ℕ → Outcome
scan_bits a i j zero = exhausted
scan_bits a i j (suc n) =
    let rest = scan_bits a i (j + 1) n in
    let frame = i * 64 + j in
    if frame == 0
    then rest
    else if leb a.total_frames frame
    then stop
    else if bit_clear a i j
    then found frame
    else rest

-- The loop over the words; a word past the end, where the source would panic, would be read as 0.
pub scan_words : Bitmap → ℕ → ℕ → Option ℕ
scan_words a i zero = none
scan_words a i (suc n) =
    let rest = scan_words a (i + 1) n in
    let inside : Option ℕ = elim (scan_bits a i 0 64) [
      | found frame ↦ some frame
      | stop ↦ none
      | exhausted ↦ rest
    ] in
    if get_or a.bitmap i 0 == u64_max then rest else inside

pub allocate : Bitmap → Result AllocError ℕ × Bitmap
allocate a = elim (scan_words a 0 (length a.bitmap)) [
  | some frame ↦ (ok (u64 (frame * 4096)), set_frame_used a frame true)
  | none ↦ (err out_of_memory, a)
]

-- The same loops behind the x86_64 crate's trait.
pub allocate_frame : Bitmap → Option ℕ × Bitmap
allocate_frame a = elim (scan_words a 0 (length a.bitmap)) [
  | some frame ↦ (some (u64 (frame * 4096)), set_frame_used a frame true)
  | none ↦ (none, a)
]

-- `FrameAllocator::allocate_contiguous`, the trait's default: `count - 1` further calls.
pub allocate_more : ℕ → ℕ → Bitmap → Result AllocError ℕ × Bitmap
allocate_more zero first a = (ok first, a)
allocate_more (suc n) first a =
    let (r, a') = allocate a in elim r [ err e ↦ (err e, a') | ok _ ↦ allocate_more n first a' ]

pub allocate_contiguous : ℕ → Bitmap → Result AllocError ℕ × Bitmap
unfolding allocate_more
allocate_contiguous zero a = (err invalid_alignment, a)
allocate_contiguous (suc n) a =
    let (r, a') = allocate a in elim r [ err e ↦ (err e, a') | ok first ↦ allocate_more n first a' ]

-- `for frame_idx in i..i + n` of `allocate_frame_low`; `l4` is the frame that CR3 names.
pub scan_low : Bitmap → ℕ → ℕ → ℕ → Option ℕ
scan_low a l4 i zero = none
scan_low a l4 i (suc n) =
    let rest = scan_low a l4 (i + 1) n in
    if i == l4 then rest else if bit_clear a (i / 64) (i % 64) then some i else rest

-- The register CR3 is read by an instruction: its value is an argument.
pub allocate_frame_low : ℕ → Bitmap → Option ℕ × Bitmap
allocate_frame_low cr3_addr a = elim (scan_low a (cr3_addr / 4096) 1 (min 256 a.total_frames - 1)) [
  | some frame ↦ (some (u64 (frame * 4096)), set_frame_used a frame true)
  | none ↦ (none, a)
]

-- What the allocator asks of a `MemoryDescriptorValidator`.
pub record Descriptor : Type 0 where
  pub memory_type : ℕ
  pub physical_start : ℕ
  pub page_count : ℕ

-- `EfiMemoryType::EfiConventionalMemory`
abbrev pub conventional_memory : ℕ
conventional_memory = 7

-- `get_physical_start() + get_page_count() * 4096`
abbrev pub end_of : Descriptor → ℕ
end_of d = u64 (d.physical_start + u64 (d.page_count * 4096))

pub max_phys : ℕ → List Descriptor → ℕ
max_phys top [] = top
max_phys top (d ∷ ds) = max_phys (if ltb top (end_of d) then end_of d else top) ds

pub free_conventional : Bitmap → List Descriptor → Bitmap
free_conventional a [] = a
free_conventional a (d ∷ ds) =
    free_conventional
      (if d.memory_type == conventional_memory
        then set_frame_range a (d.physical_start / 4096) (end_of d / 4096) false
        else a)
      ds

pub init_with_memory_map : List Descriptor → Bitmap
init_with_memory_map memory_map =
    free_conventional (fill (new (u64 (max_phys 0 memory_map + 4095) / 4096)) u64_max) memory_map
