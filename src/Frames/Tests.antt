-- ===== src/Frames/Tests.antt =====
-- Runs of the frame allocator, and the theorems at a small bitmap.
use fullerene.Base.{
  ℕ, ◌+◌, ◌-◌, ◌*◌, ◌^◌, ◌≡◌, refl, true, false, not, ◌&&◌, List, [], ◌∷◌, arith, if◌then◌else◌,
  ltb, leb, ◌==◌, replicate, length-replicate,
}
use fullerene.Frames.{
  Bitmap, ok, err, Descriptor, is_frame_available, bit_clear, allocate, deallocate, scan_words,
  scan_bits, set_frame_used, allocate_contiguous_frames, free_contiguous_frames, find_run,
  set_frames, init_with_memory_map, max_phys, allocate_contiguous, is_initialized, out_of_memory,
  allocate_frame_low,
}
use fullerene.Frames.Invariant.{
  IsValid, is_frame_available-set_frame_used, is_frame_available-set_frames,
}
use fullerene.Frames.Alloc.{Allocates, allocate-Allocates, deallocate-allocate}
use fullerene.Frames.Low.{AllocatesLow, allocate_frame_low-AllocatesLow}
use fullerene.Frames.Runs.{
  AllocatesRun, allocate_contiguous_frames-AllocatesRun,
  free_contiguous_frames-allocate_contiguous_frames,
}
use fullerene.Frames.MemoryMap.{covered, init_with_memory_map_lem}

-- Seventy frames; the first sixty-five are taken.
abbrev seventy : Bitmap
seventy = record { bitmap = (2 ^ 64 - 1) ∷ 1 ∷ []; capacity = 2; total_frames = 70 }

seventy-IsValid : IsValid seventy
seventy-IsValid = omega arith

abbrev after_65 : Bitmap
after_65 = record seventy { bitmap = (2 ^ 64 - 1) ∷ 3 ∷ [] }

allocate_runs : allocate seventy ≡ (ok (65 * 4096), after_65)
unfolding allocate scan_words scan_bits bit_clear set_frame_used
allocate_runs = refl

is_frame_available-set_frame_used_example :
    is_frame_available (set_frame_used seventy 65 true) 66
    ≡ (if (65 == 66) && ltb 65 70 then not true else is_frame_available seventy 66)
is_frame_available-set_frame_used_example =
    is_frame_available-set_frame_used {a = seventy} 65 66 true seventy-IsValid

is_frame_available-set_frames_example :
    is_frame_available (set_frames seventy 2 3 false) 4
    ≡ (if leb 2 4 && ltb 4 (2 + 3) && ltb 4 70 then not false else is_frame_available seventy 4)
is_frame_available-set_frames_example =
    is_frame_available-set_frames {a = seventy} 2 3 4 false seventy-IsValid

allocate-Allocates_example : Allocates seventy (allocate seventy)
allocate-Allocates_example = allocate-Allocates seventy-IsValid

deallocate-allocate_example :
    is_frame_available (deallocate after_65 (65 * 4096)) 65 ≡ is_frame_available seventy 65
deallocate-allocate_example = deallocate-allocate seventy-IsValid allocate_runs 65

-- 4098 frames, all free; two of them lie above 16 MB.
abbrev large : Bitmap
large = record { bitmap = replicate 65 0; capacity = 65; total_frames = 4098 }

large-IsValid : IsValid large
large-IsValid = record {
  covers = omega (arith, length-replicate {A = ℕ} 65 0);
  small = omega arith;
}

abbrev large_after : Bitmap
large_after = record large { bitmap = (allocate_contiguous_frames large 2).1.bitmap }

run_of_two : allocate_contiguous_frames large 2 ≡ (ok (4096 * 4096), large_after)
unfolding allocate_contiguous_frames find_run set_frames set_frame_used is_frame_available bit_clear
run_of_two = refl

allocate_contiguous_frames-AllocatesRun_example :
    AllocatesRun large 2 (allocate_contiguous_frames large 2)
allocate_contiguous_frames-AllocatesRun_example =
    allocate_contiguous_frames-AllocatesRun 2 large-IsValid (omega arith)

free_contiguous_frames-allocate_contiguous_frames_example :
    is_frame_available (free_contiguous_frames large_after (4096 * 4096) 2) 4097
    ≡ is_frame_available large 4097
free_contiguous_frames-allocate_contiguous_frames_example =
    free_contiguous_frames-allocate_contiguous_frames 2 large-IsValid (omega arith) run_of_two 4097

-- Reserved memory, then conventional memory from frame 16 to frame 32.
abbrev firmware_map : List Descriptor
firmware_map =
    record { memory_type = 0; physical_start = 0; page_count = 16 }
    ∷ record { memory_type = 7; physical_start = 65536; page_count = 16 }
    ∷ []

small : max_phys 0 firmware_map ≡ 131072
unfolding max_phys
small = refl

init_with_memory_map_lem_example :
    IsValid (init_with_memory_map firmware_map)
    × ((g : ℕ) → is_frame_available (init_with_memory_map firmware_map) g ≡ covered firmware_map g)
init_with_memory_map_lem_example = init_with_memory_map_lem firmware_map (rw small (omega arith))

allocate_frame_low-AllocatesLow_example :
    AllocatesLow seventy 66 (allocate_frame_low (66 * 4096) seventy)
allocate_frame_low-AllocatesLow_example =
    allocate_frame_low-AllocatesLow {a = seventy} (66 * 4096) seventy-IsValid (omega arith)

-- Frames 1 and 3 of eight are free.
abbrev gaps : Bitmap
gaps = record { bitmap = 0xf5 ∷ []; capacity = 1; total_frames = 8 }

-- The trait's default gives frame 1 for two contiguous frames, and takes frame 3 with it.
default_contiguous_not_contiguous :
    allocate_contiguous 2 gaps ≡ (ok 4096, record gaps { bitmap = 0xff ∷ [] })
unfolding allocate_contiguous allocate scan_words scan_bits bit_clear set_frame_used
default_contiguous_not_contiguous = refl

-- Where it fails, the frames that it has taken stay taken.
default_contiguous_leaks :
    (allocate_contiguous 3 gaps ≡ (err out_of_memory, record gaps { bitmap = 0xff ∷ [] }))
    × (is_initialized gaps ≡ true)
unfolding allocate_contiguous allocate scan_words scan_bits bit_clear set_frame_used is_initialized
default_contiguous_leaks = (refl, refl)
