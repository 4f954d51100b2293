-- ===== src/LinuxMemory/Calls/Handlers.antt =====
-- fullerene-kernel/src/linux/memory.rs: the system calls `sys_mmap`, `sys_munmap`, `sys_mprotect`,
-- `sys_brk`, `sys_mremap` and `sys_madvise`, on the loops of the parent.
use fullerene.Base.{
  ℕ, ◌+◌, ◌-◌, ◌/◌, ◌%◌, ◌^◌, Bool, true, false, not, ◌&&◌, ◌||◌, Option, none, some, List, [],
  bit_and, bit_or, if◌then◌else◌, leb, ltb, ◌==◌,
}
use fullerene.LinuxMemory.{
  page_size, not_page_mask, max_linux_memory, user_address_limit, einval, enomem, enosys, ok, err,
  checked_page_range, tracked_range_overlaps, overlaps_reserved_user_mapping, range_is_mapped,
  find_free_anon_region, track_region, remove_region,
}
use fullerene.LinuxMemory.Calls.{
  MemoryManager, LinuxRuntime, Answer, argument, argument_i32, has, present, writable,
  user_accessible, other_prot, errno_code, mmap_flags, mprotect_flags, set_region_prot, mmap_size,
  mmap_hint, unmap, unmap_translated, map_pages, range_is_owned_user_memory, unmap_pages,
  original_flags, protect_pages,
}

unfoldable pub page_up : ℕ → ℕ
page_up addr = bit_and ((addr + page_size - 1) % 2 ^ 64) not_page_mask

module _ {M : Type 0} (mm : MemoryManager M) where
  -- The part of `brk` that maps the new pages: whether the break may move, and the manager.
  unfoldable pub grow : LinuxRuntime → Option M → ℕ → ℕ → Bool × Option M
  unfolding range_is_mapped tracked_range_overlaps map_pages unmap unmap_translated
  grow rt guard start end = elim guard [
    | none ↦ (false, none)
    | some m ↦
        let flags = bit_or (bit_or present writable) user_accessible in
        let (mapped, m') =
          map_pages mm (unmap_translated mm) (unmap mm) flags ((end - start) / page_size) m start
            0 in
        if tracked_range_overlaps rt.mmap_regions start (end - start)
          || range_is_mapped (mm.translates m) start (end - start)
        then (false, some m)
        else (mapped, some m')
  ]

  unfoldable pub sys_brk : LinuxRuntime → Option M → List ℕ → Answer M
  unfolding grow page_up
  sys_brk rt guard args =
      let new = argument args 0 in
      let old = rt.program_break in
      let start = page_up old in
      let end = page_up new in
      let (grown, guard') = grow rt guard start end in
      let moved = record rt { program_break = new } in
      if new == 0
      then (old, rt, guard)
      else if ltb new rt.initial_break
          || leb user_address_limit new
          || ltb max_linux_memory (new - rt.initial_break)
      then (old, rt, guard)
      else if not (ltb old new && ltb start end)
      then (new, moved, guard)
      else if grown
      then (new, moved, guard')
      else (old, rt, guard')

module _ (canonical : ℕ → Bool) {M : Type 0} (mm : MemoryManager M) where
  -- `none` if the fuel of the search is spent.
  unfoldable pub sys_mmap : LinuxRuntime → Option M → List ℕ → Option (Answer M)
  unfolding mmap_size mmap_hint find_free_anon_region map_pages unmap mmap_flags track_region
      errno_code
  sys_mmap rt guard args =
      let prot = argument_i32 args 2 in
      let flags = argument_i32 args 3 in
      elim (mmap_size canonical args) [
        | err e ↦ some (errno_code e, rt, guard)
        | ok size ↦ elim guard [
          | none ↦ some (errno_code enomem, rt, none)
          | some m ↦ elim (mmap_hint canonical args size) [
            | err e ↦ some (errno_code e, rt, some m)
            | ok hint ↦ elim (find_free_anon_region (mm.translates m) rt.mmap_regions size hint) [
              | none ↦ none
              | some addr ↦
                  let (mapped, m') =
                    map_pages mm (unmap mm) (unmap mm) (mmap_flags prot) (size / page_size) m addr
                      0 in
                  let rt' = record rt {
                    mmap_regions = track_region rt.mmap_regions addr size prot flags;
                  } in
                  if addr == 0
                  then some (errno_code enomem, rt, some m)
                  else if mapped
                  then some (addr, rt', some m')
                  else some (errno_code enomem, rt, some m')
            ]
          ]
        ]
      ]

  unfoldable pub sys_munmap : LinuxRuntime → Option M → List ℕ → Answer M
  unfolding checked_page_range overlaps_reserved_user_mapping range_is_owned_user_memory unmap_pages
      remove_region errno_code
  sys_munmap rt guard args =
      elim (checked_page_range canonical (argument args 0) (argument args 1) true) [
        | err e ↦ (errno_code e, rt, guard)
        | ok (addr, size) ↦
            if overlaps_reserved_user_mapping addr size
            then (errno_code einval, rt, guard)
            else elim guard [
              | none ↦ (errno_code enomem, rt, none)
              | some m ↦
                  let (unmapped, m') = unmap_pages mm (size / page_size) m addr 0 in
                  let (regions, removed) = remove_region rt.mmap_regions addr size in
                  if not (range_is_owned_user_memory mm m addr size)
                  then (errno_code einval, rt, some m)
                  else if unmapped
                  then (0, record rt { mmap_regions = regions }, some m')
                  else (errno_code einval, rt, some m')
            ]
      ]

  unfoldable pub sys_mprotect : LinuxRuntime → Option M → List ℕ → Answer M
  unfolding checked_page_range overlaps_reserved_user_mapping range_is_owned_user_memory
      original_flags protect_pages mprotect_flags set_region_prot errno_code
  sys_mprotect rt guard args =
      let prot = argument_i32 args 2 in
      let range = checked_page_range canonical (argument args 0) (argument args 1) false in
      if has prot other_prot then (errno_code einval, rt, guard) else elim range [
        | err e ↦ (errno_code e, rt, guard)
        | ok (addr, size) ↦
            if overlaps_reserved_user_mapping addr size
            then (errno_code einval, rt, guard)
            else elim guard [
              | none ↦ (errno_code enomem, rt, none)
              | some m ↦
                  if not (range_is_owned_user_memory mm m addr size)
                  then (errno_code einval, rt, some m)
                  else elim (original_flags mm (size / page_size) m addr 0) [
                    | none ↦ (errno_code einval, rt, some m)
                    | some pages ↦
                        let (set, m') = protect_pages mm pages [] (mprotect_flags prot) m in
                        let regions = set_region_prot rt.mmap_regions addr size prot in
                        if set
                        then (0, record rt { mmap_regions = regions }, some m')
                        else (errno_code enomem, rt, some m')
                  ]
            ]
      ]

unfoldable pub sys_mremap : {M : Type 0} → LinuxRuntime → Option M → List ℕ → Answer M
unfolding errno_code
sys_mremap rt guard args = (errno_code enosys, rt, guard)

abbrev pub sys_madvise : {M : Type 0} → LinuxRuntime → Option M → List ℕ → Answer M
sys_madvise rt guard args = (0, rt, guard)
