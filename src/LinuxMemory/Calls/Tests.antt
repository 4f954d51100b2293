-- ===== src/LinuxMemory/Calls/Tests.antt =====
-- Runs of the memory system calls on a small page table, and the theorems at concrete arguments.
use fullerene.Base.{
  ◌+◌, ◌-◌, ◌*◌, if◌then◌else◌, arith, ◌^◌, ℕ, zero, suc, ◌/◌, ◌≡◌, refl, Bool, true, false, List,
  [], ◌∷◌, Option, none, some, ◌==◌,
}
use fullerene.Base.Bits.{bit}
use fullerene.LinuxMemory.Calls.Arguments.{page_flags_lem, mmap_size_lem}
use fullerene.LinuxMemory.Calls.Bookkeeping.{set_region_prot-remove_region}
use fullerene.LinuxMemory.{
  Region, err, remove_region, search_free, align_up, range_is_mapped, is_user_address,
  ranges_overlap, any_mapped, tracked_range_overlaps, greatest_end, einval, enomem,
}
use fullerene.LinuxMemory.Calls.{
  mmap_flags, mprotect_flags, mmap_size, set_region_prot, MemoryManager, LinuxRuntime, Answer,
  errno_code, has, present, default_mmap_base,
}
use fullerene.LinuxMemory.Calls.Handlers.{sys_mmap, sys_munmap, sys_mprotect, sys_brk}

-- The frame and the flags of a mapped page.
abbrev Entry : Type 0
Entry = Option (ℕ × ℕ)

abbrev is_present : Entry → Bool
is_present none = false
is_present (some (f, flags)) = has flags present

-- A page table by page number, and a number of free frames, the highest of which is taken.
record Memory : Type 0 where
  table : ℕ → Entry
  frames : ℕ

abbrev update : (ℕ → Entry) → ℕ → Entry → ℕ → Entry
update table k e j = if j == k then e else table j

abbrev entry : Memory → ℕ → Entry
entry m p = m.table (p / 4096)

abbrev put : Memory → ℕ → Entry → Memory
put m p e = record m { table = update m.table (p / 4096) e }

abbrev flags_of : Entry → ℕ
flags_of none = 0
flags_of (some (f, flags)) = if has flags present then flags else 0

abbrev set_flags : Memory → ℕ → ℕ → Entry → Bool × Memory
set_flags m p flags none = (false, m)
set_flags m p flags (some (f, old)) = (true, put m p (some (f, flags)))

abbrev map_new : Memory → ℕ → ℕ → ℕ → Entry → Bool × Memory
map_new m p f flags none = (true, put m p (some (f, flags)))
map_new m p f flags (some e) = (true, m)

abbrev take_frame : Memory → ℕ → Option ℕ × Memory
take_frame m zero = (none, m)
take_frame m (suc n) = (some n, record m { frames = n })

abbrev manager : MemoryManager Memory
manager = record {
  translates = λ m p. is_present (entry m p);
  get_page_flags = λ m p. some (flags_of (entry m p));
  set_page_flags = λ m p flags. set_flags m p flags (entry m p);
  map_page = λ m p f flags. map_new m p f flags (entry m p);
  safe_unmap_page = λ m p. (true, put m p none);
  allocate_frame = λ m. take_frame m m.frames;
  free_frame = λ m f. m;
}

-- A page of the user at 0x50000, and two free frames.
abbrev memory : Memory
memory = record { table = λ k. if k == 0x50 then some (9, 7) else none; frames = 2 }

abbrev runtime : LinuxRuntime
runtime = record {
  program_break = 0x10000;
  initial_break = 0x10000;
  mmap_regions = (record { addr = 0x50000; size = 0x1000; prot = 3; flags = 0x22 }) ∷ [];
}

abbrev any_canonical : ℕ → Bool
any_canonical a = true

-- Two pages, anonymous and private.
abbrev two_pages : List ℕ
two_pages = 0 ∷ 8192 ∷ 3 ∷ 0x22 ∷ 0 ∷ 0 ∷ []

abbrev answer : Option (Answer Memory) → ℕ
answer none = 0
answer (some (r, rt, guard)) = r

mmap_returns_base :
    answer (sys_mmap any_canonical manager runtime (some memory) two_pages) ≡ default_mmap_base
unfolding sys_mmap is_user_address ranges_overlap search_free align_up range_is_mapped any_mapped
    tracked_range_overlaps greatest_end
mmap_returns_base = refl

-- Three pages need a frame more than there is.
mmap_out_of_memory :
    answer
      (sys_mmap any_canonical manager runtime (some memory) (0 ∷ 12288 ∷ 3 ∷ 0x22 ∷ 0 ∷ 0 ∷ []))
    ≡ (errno_code enomem)
unfolding sys_mmap is_user_address ranges_overlap search_free align_up range_is_mapped any_mapped
    tracked_range_overlaps greatest_end
mmap_out_of_memory = refl

-- A hint in the first page is rounded down to address 0, where the room that the search finds
-- counts as none.
mmap_hint_in_first_page :
    answer (sys_mmap any_canonical manager runtime (some memory) (1 ∷ 4096 ∷ 3 ∷ 0x22 ∷ 0 ∷ 0 ∷ []))
    ≡ (errno_code enomem)
unfolding sys_mmap is_user_address ranges_overlap search_free align_up range_is_mapped any_mapped
    tracked_range_overlaps greatest_end
mmap_hint_in_first_page = refl

-- The break is moved up by a page, back, and cannot be moved up again, though a frame is left.
brk_cannot_grow_again :
    let up = sys_brk manager runtime (some memory) (0x11000 ∷ []) in
    let down = sys_brk manager up.1 up.2 (0x10000 ∷ []) in
    let again = sys_brk manager down.1 down.2 (0x11000 ∷ []) in
    (up.0 ≡ 0x11000) × (down.0 ≡ 0x10000) × (again.0 ≡ 0x10000)
unfolding sys_brk ranges_overlap any_mapped
brk_cannot_grow_again = (refl, refl, refl)

-- Without a protection a page is no longer the user's, and cannot be unmapped.
mprotect_none_locks_page :
    let none_left =
      sys_mprotect any_canonical manager runtime (some memory) (0x50000 ∷ 4096 ∷ 0 ∷ []) in
    let out = sys_munmap any_canonical manager none_left.1 none_left.2 (0x50000 ∷ 4096 ∷ []) in
    (none_left.0 ≡ 0) × (out.0 ≡ errno_code einval)
unfolding sys_mprotect sys_munmap is_user_address ranges_overlap
mprotect_none_locks_page = (refl, refl)

page_flags_lem_example :
    (mmap_flags 3 ≡ 5 + 2 * bit 3 1 + 2 ^ 63 * (1 - bit 3 2))
    × (mprotect_flags 3 ≡ (if 3 == 0 then 4 else 5 + 2 * bit 3 1 + 2 ^ 63 * (1 - bit 3 2)))
page_flags_lem_example = page_flags_lem 3

-- A mapping of one byte is refused.
one_byte_refused : mmap_size any_canonical (0 ∷ 1 ∷ 3 ∷ 0x22 ∷ 0 ∷ 0 ∷ []) ≡ err einval
one_byte_refused = mmap_size_lem any_canonical (λ a h. refl) (0 ∷ 1 ∷ 3 ∷ 0x22 ∷ 0 ∷ 0 ∷ [])

abbrev first_region : Region
first_region = record { addr = 0x40000; size = 0x2000; prot = 1; flags = 0x22 }

abbrev second_region : Region
second_region = record { addr = 0x50000; size = 0x1000; prot = 3; flags = 0x22 }

set_region_prot-remove_region_example :
    (set_region_prot (first_region ∷ []) 0x50000 4096 1 ≡ first_region ∷ [])
    × (remove_region (first_region ∷ []) 0x50000 4096 ≡ (first_region ∷ [], false))
    × (set_region_prot (first_region ∷ second_region ∷ []) 0x50000 4096 1
        ≡ first_region ∷ (record second_region { prot = 1 }) ∷ [])
    × (remove_region (first_region ∷ second_region ∷ []) 0x50000 4096 ≡ (first_region ∷ [], true))
set_region_prot-remove_region_example =
    set_region_prot-remove_region (first_region ∷ []) second_region [] 0x50000 4096 1
      (λ h. absurd (omega (arith, h)), tt) (refl, refl)
