-- ===== src/LinuxMemory/Calls/Moves.antt =====
-- fullerene-kernel/src/linux/memory.rs: where `sys_brk` may move the break, whatever the memory
-- manager does.
use fullerene.Base.{
  ℕ, ◌+◌, ◌-◌, ◌*◌, ◌/◌, ◌^◌, ◌≤◌, ◌<◌, ◌≡◌, ◌≢◌, some, Bool, true, false, ◌&&◌, ◌||◌, Option, leb,
  ltb,
}
use fullerene.LinuxMemory.{tracked_range_overlaps, range_is_mapped}
use fullerene.LinuxMemory.Calls.{
  map_pages, unmap, unmap_translated, MemoryManager, LinuxRuntime, Answer,
}
use fullerene.LinuxMemory.Calls.Handlers.{page_up}

-- The address, rounded up to a page.
abbrev pub rounded : ℕ → ℕ
rounded addr = (addr + 4095) / 4096 * 4096

-- Where the break may go: at most 128 MB above its first place, and below 2 ^ 47.
abbrev pub MayMove : LinuxRuntime → ℕ → Type 0
MayMove rt new =
    (new ≢ 0) × (rt.initial_break ≤ new) × (new < 2 ^ 47) × (new - rt.initial_break ≤ 134217728)

abbrev pub Stays : {M : Type 0} → LinuxRuntime → Answer M → Type 0
Stays rt (r, rt', guard') = (r ≡ rt.program_break) × (rt' ≡ rt)

abbrev pub Moved : {M : Type 0} → LinuxRuntime → ℕ → Answer M → Type 0
Moved rt new (r, rt', guard') = (r ≡ new) × (rt' ≡ record rt { program_break = new })

abbrev pub guard_of : {M : Type 0} → Answer M → Option M
guard_of (r, rt', guard') = guard'

-- The three tests of `sys_brk`.
abbrev refuses : LinuxRuntime → ℕ → Bool
refuses rt new =
    ltb new rt.initial_break || leb (2 ^ 47) new || ltb 134217728 (new - rt.initial_break)

abbrev needs_pages : LinuxRuntime → ℕ → Bool
needs_pages rt new = ltb rt.program_break new && ltb (page_up rt.program_break) (page_up new)

module _ {M : Type 0} (mm : MemoryManager M) where
  -- What `sys_brk` does where it needs the pages from `start` on and there is a manager: a range
  -- that is tracked or mapped already is left alone, else its pages are mapped, with the flags
  -- present, writable and the user's, and the break moves if that succeeds.
  abbrev pub Grows : LinuxRuntime → ℕ → ℕ → ℕ → M → Answer M → Type 0
  Grows rt new start size m answer =
      let taken =
        tracked_range_overlaps rt.mmap_regions start size
        || range_is_mapped (mm.translates m) start size in
      let mapping = map_pages mm (unmap_translated mm) (unmap mm) 7 (size / 4096) m start 0 in
      (taken ≡ true → Stays rt answer × (guard_of answer ≡ some m))
      × (taken ≡ false
          → mapping.0 ≡ true
          → Moved rt new answer × (guard_of answer ≡ some mapping.1))
      × (taken ≡ false → mapping.0 ≡ false → Stays rt answer × (guard_of answer ≡ some mapping.1))
