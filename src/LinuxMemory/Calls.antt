-- ===== src/LinuxMemory/Calls.antt =====
-- fullerene-kernel/src/linux/memory.rs: the system calls mmap, munmap, mprotect and brk, in
-- their parts, over the memory manager: the page table of the process and the allocator of frames.
-- A page is given by its address. Protections and map flags are 32-bit patterns, page flags 64-bit
-- ones.
pub mod Handlers
pub mod Arguments
pub mod Bookkeeping
pub mod Moves
mod Tests
use fullerene.Base.{
  ℕ, zero, suc, ◌+◌, ◌-◌, ◌*◌, ◌/◌, ◌%◌, ◌^◌, Bool, true, false, not, ◌&&◌, ◌||◌, Option, none,
  some, List, [], ◌∷◌, ◌++◌, bit_and, bit_or, if◌then◌else◌, leb, ltb, ◌==◌, get_or,
}
use fullerene.LinuxMemory.{
  page_size, page_mask, not_page_mask, max_linux_memory, user_address_limit, Errno, einval, enomem,
  enosys, Result, ok, err, ◌>>=◌, ◌>>◌, unless, checked_add, checked_page_range, Region,
  tracked_range_overlaps, overlaps_reserved_user_mapping, range_is_mapped, find_free_anon_region,
  track_region, remove_region,
}

abbrev pub default_mmap_base : ℕ
default_mmap_base = 2 ^ 32

abbrev pub prot_write : ℕ
prot_write = 2

abbrev pub prot_exec : ℕ
prot_exec = 4

-- `!(PROT_READ | PROT_WRITE | PROT_EXEC)` on 32 bits
abbrev pub other_prot : ℕ
other_prot = 2 ^ 32 - 1 - 7

abbrev pub map_type : ℕ
map_type = 3

abbrev pub map_fixed : ℕ
map_fixed = 0x10

abbrev pub map_anonymous : ℕ
map_anonymous = 0x20

-- The bits of `PageTableFlags`, of the x86_64 crate.
abbrev pub present : ℕ
present = 1

abbrev pub writable : ℕ
writable = 2

abbrev pub user_accessible : ℕ
user_accessible = 4

abbrev pub no_execute : ℕ
no_execute = 2 ^ 63

-- `(flags & bit) != 0`, and `flags.contains(bit)`
abbrev pub has : ℕ → ℕ → Bool
has flags bit = not (bit_and flags bit == 0)

-- The error numbers, as the system calls return them: `(e as i64).wrapping_neg() as u64`.
pub errno_code : Errno → ℕ
errno_code einval = 2 ^ 64 - 22
errno_code enomem = 2 ^ 64 - 12
errno_code enosys = 2 ^ 64 - 38

-- What the calls use of the memory manager and the allocator of frames. `true` is success.
pub record MemoryManager (M : Type 0) : Type 0 where
  pub translates : M → ℕ → Bool
  pub get_page_flags : M → ℕ → Option ℕ
  pub set_page_flags : M → ℕ → ℕ → Bool × M
  pub map_page : M → ℕ → ℕ → ℕ → Bool × M
  pub safe_unmap_page : M → ℕ → Bool × M
  pub allocate_frame : M → Option ℕ × M
  pub free_frame : M → ℕ → M

-- The fields of the runtime that the calls use.
pub record LinuxRuntime : Type 0 where
  pub program_break : ℕ
  pub initial_break : ℕ
  pub mmap_regions : List Region

abbrev pub argument : List ℕ → ℕ → ℕ
argument args i = get_or args i 0

-- `as i32`
abbrev pub argument_i32 : List ℕ → ℕ → ℕ
argument_i32 args i = get_or args i 0 % 2 ^ 32

pub mmap_flags : ℕ → ℕ
mmap_flags prot =
    let flags = bit_or (bit_or present user_accessible) no_execute in
    let flags' = if has prot prot_write then bit_or flags writable else flags in
    if has prot prot_exec then bit_and flags' (2 ^ 64 - 1 - no_execute) else flags'

pub mprotect_flags : ℕ → ℕ
mprotect_flags prot =
    let flags = bit_or user_accessible present in
    let flags' = if has prot prot_write then bit_or flags writable else flags in
    if prot == 0
    then user_accessible
    else if has prot prot_exec
    then flags'
    else bit_or flags' no_execute

-- What a call returns, with the runtime and the manager that it leaves.
abbrev pub Answer : Type 0 → Type 0
Answer M = ℕ × LinuxRuntime × Option M

-- `region.prot = prot` for the region of the range.
pub set_region_prot : List Region → ℕ → ℕ → ℕ → List Region
set_region_prot [] addr size prot = []
set_region_prot (r ∷ rs) addr size prot =
    let rest = set_region_prot rs addr size prot in
    if r.addr == addr && r.size == size then (record r { prot = prot }) ∷ rs else r ∷ rest

module _ (canonical : ℕ → Bool) where
  -- The tests of `mmap` before the manager is locked, and the size of the mapping.
  pub mmap_size : List ℕ → Result ℕ
  unfolding checked_page_range
  mmap_size args = do
    let prot = argument_i32 args 2
    let flags = argument_i32 args 3
    unless (has prot other_prot)
    unless (not (has flags map_type) || bit_and flags map_type == map_type)
    unless (has flags map_fixed)
    unless (argument args 1 == 0)
    (if has flags map_anonymous then ok tt else err enosys)
    unless (not (argument args 5 == 0))
    range ← checked_page_range canonical 0 (argument args 1) false
    ok range.1

  -- Where the search begins.
  pub mmap_hint : List ℕ → ℕ → Result ℕ
  unfolding checked_page_range
  mmap_hint args size = do
    range ←
        (if argument args 0 == 0
          then ok (default_mmap_base, size)
          else checked_page_range canonical (argument args 0) size false)
    ok range.0

-- A loop over the pages of a range, from the page `index` on.
pub each_page : {M : Type 0} → (M → ℕ → M) → ℕ → M → ℕ → ℕ → M
each_page step zero m addr index = m
each_page step (suc n) m addr index =
    each_page step n (step m (addr + index * page_size)) addr (index + 1)

module _ {M : Type 0} (mm : MemoryManager M) where
  -- `let _ = safe_unmap_page(page)`
  pub unmap : M → ℕ → M
  unmap m page = (mm.safe_unmap_page m page).1

  pub unmap_translated : M → ℕ → M
  unfolding unmap
  unmap_translated m page = let m' = unmap m page in if mm.translates m page then m' else m

  -- The loops of `mmap` and `brk` over new pages; `on_oom` and `on_failure` undo one of the pages
  -- mapped so far, where there is no frame and where `map_page` fails.
  pub map_pages : (M → ℕ → M) → (M → ℕ → M) → ℕ → ℕ → M → ℕ → ℕ → Bool × M
  unfolding each_page
  map_pages on_oom on_failure flags zero m addr index = (true, m)
  map_pages on_oom on_failure flags (suc n) m addr index =
      let (frame, m1) = mm.allocate_frame m in
      elim frame [
        | none ↦ (false, each_page on_oom index m1 addr 0)
        | some f ↦
            let (mapped, m2) = mm.map_page m1 (addr + index * page_size) f flags in
            let rest = map_pages on_oom on_failure flags n m2 addr (index + 1) in
            if mapped then rest else (false, each_page on_failure index (mm.free_frame m2 f) addr 0)
      ]

  pub range_is_owned : ℕ → M → ℕ → ℕ → Bool
  range_is_owned zero m addr index = true
  range_is_owned (suc n) m addr index =
      let rest = range_is_owned n m addr (index + 1) in
      elim (checked_add addr (index * page_size)) [
        | none ↦ false
        | some page ↦ elim (mm.get_page_flags m page) [
          | none ↦ false
          | some flags ↦ has flags user_accessible && rest
        ]
      ]

  pub range_is_owned_user_memory : M → ℕ → ℕ → Bool
  unfolding range_is_owned
  range_is_owned_user_memory m addr size = range_is_owned (size / page_size) m addr 0

  -- The loop of `munmap`, which stops at a failure.
  pub unmap_pages : ℕ → M → ℕ → ℕ → Bool × M
  unmap_pages zero m addr index = (true, m)
  unmap_pages (suc n) m addr index =
      let (unmapped, m') = mm.safe_unmap_page m (addr + index * page_size) in
      let rest = unmap_pages n m' addr (index + 1) in if unmapped then rest else (false, m')

  -- The pages of a range with their flags.
  pub original_flags : ℕ → M → ℕ → ℕ → Option (List (ℕ × ℕ))
  original_flags zero m addr index = some []
  original_flags (suc n) m addr index =
      let rest = original_flags n m addr (index + 1) in
      let page = addr + index * page_size in
      elim (mm.get_page_flags m page) [
        | none ↦ none
        | some flags ↦ elim rest [ none ↦ none | some pages ↦ some ((page, flags) ∷ pages) ]
      ]

  pub restore_flags : List (ℕ × ℕ) → M → M
  restore_flags [] m = m
  restore_flags ((page, flags) ∷ pages) m = restore_flags pages (mm.set_page_flags m page flags).1

  -- The loop of `mprotect`; `done` are the pages that are done.
  pub protect_pages : List (ℕ × ℕ) → List (ℕ × ℕ) → ℕ → M → Bool × M
  unfolding restore_flags
  protect_pages [] done flags m = (true, m)
  protect_pages ((page, old) ∷ pages) done flags m =
      let (set, m') = mm.set_page_flags m page flags in
      let rest = protect_pages pages (done ++ (page, old) ∷ []) flags m' in
      if set then rest else (false, restore_flags done m')
