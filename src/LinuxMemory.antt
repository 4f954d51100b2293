-- ===== src/LinuxMemory.antt =====
-- fullerene-kernel/src/linux/memory.rs: the address ranges of the Linux memory system calls, the
-- list of tracked mappings and the search for a free one.
pub mod Range
pub mod Search
pub mod Tracking
pub mod Calls
mod Tests
use mathlib.Core.Option
use fullerene.Base.{
  ℕ, zero, suc, ◌+◌, ◌-◌, ◌*◌, ◌/◌, ◌%◌, ◌^◌, Bool, true, false, not, ◌&&◌, ◌||◌, Option, none,
  some, List, [], ◌∷◌, ◌++◌, bit_and, if◌then◌else◌, leb, ltb, max, ◌==◌,
}

abbrev pub page_size : ℕ
page_size = 4096

abbrev pub page_mask : ℕ
page_mask = page_size - 1

-- 128 MB
abbrev pub max_linux_memory : ℕ
max_linux_memory = 134217728

abbrev pub user_address_limit : ℕ
user_address_limit = 2 ^ 47

abbrev pub vdso_size : ℕ
vdso_size = page_size

abbrev pub vdso_user_base : ℕ
vdso_user_base = 0x7000_0000_0000

-- `!PAGE_MASK` on 64 bits
abbrev pub not_page_mask : ℕ
not_page_mask = 2 ^ 64 - 1 - page_mask

pub data Errno : Type 0 where
  einval enomem enosys : Errno

pub data Result (A : Type 0) : Type 0 where
  ok : A → Result A
  err : Errno → Result A

-- `u64::checked_add` and `u64::checked_sub`
abbrev pub checked_add : ℕ → ℕ → Option ℕ
checked_add a b = if ltb (a + b) (2 ^ 64) then some (a + b) else none

abbrev pub checked_sub : ℕ → ℕ → Option ℕ
checked_sub a b = if ltb a b then none else some (a - b)

infixl 5 ◌>>=◌ ◌>>◌
abbrev pub ◌>>=◌ : {A B : Type 0} → Result A → (A → Result B) → Result B
ok a >>= f = f a
err e >>= f = err e

abbrev pub ◌>>◌ : {B : Type 0} → Result (Unit {0}) → Result B → Result B
m >> k = m >>= λ _. k

-- `.ok_or(EINVAL)`
abbrev pub or_einval : {A : Type 0} → Option A → Result A
or_einval none = err einval
or_einval (some a) = ok a

-- `if reject { return Err(EINVAL) }`
abbrev pub unless : Bool → Result (Unit {0})
unless true = err einval
unless false = ok tt

pub is_user_address : ℕ → Bool
is_user_address addr = ltb addr (2 ^ 47)

-- `canonical` is the test of `VirtAddr::try_new`, of the x86_64 crate.
module _ (canonical : ℕ → Bool) where
  pub checked_page_range : ℕ → ℕ → Bool → Result (ℕ × ℕ)
  checked_page_range addr length require_aligned_addr = do
    unless (length == 0 || ltb max_linux_memory length)
    unless (require_aligned_addr && not (bit_and addr page_mask == 0))
    let start = if require_aligned_addr then addr else bit_and addr not_page_mask
    last ← or_einval (checked_add addr (length - 1))
    padded ← or_einval (checked_add last page_mask)
    let end = bit_and padded not_page_mask
    size ← or_einval (checked_sub end start)
    unless (size == 0 || ltb max_linux_memory size || ltb user_address_limit end)
    unless (not (canonical start))
    unless (not (canonical (end - 1)))
    unless (not (is_user_address start) || not (is_user_address (end - 1)))
    ok (start, size)

pub ranges_overlap : ℕ → ℕ → ℕ → ℕ → Bool
ranges_overlap left_addr left_size right_addr right_size = elim (checked_add left_addr left_size) [
  | none ↦ true
  | some left_end ↦ elim (checked_add right_addr right_size) [
    | none ↦ true
    | some right_end ↦ ltb left_addr right_end && ltb right_addr left_end
  ]
]

pub record Region : Type 0 where
  pub addr : ℕ
  pub size : ℕ
  pub prot : ℕ
  pub flags : ℕ

-- `rt.mmap_regions.iter().any(..)`
pub tracked_range_overlaps : List Region → ℕ → ℕ → Bool
tracked_range_overlaps [] addr size = false
tracked_range_overlaps (r ∷ rs) addr size =
    ranges_overlap r.addr r.size addr size || tracked_range_overlaps rs addr size

pub overlaps_reserved_user_mapping : ℕ → ℕ → Bool
overlaps_reserved_user_mapping addr size = ranges_overlap addr size vdso_user_base vdso_size

-- `candidate` of the next round after a collision: the greatest end of an overlapping region.
pub greatest_end : List Region → ℕ → ℕ → Option ℕ
greatest_end [] candidate size = none
greatest_end (r ∷ rs) candidate size =
    let rest = greatest_end rs candidate size in
    elim (checked_add r.addr r.size) [
      | none ↦ rest
      | some end ↦
          if ranges_overlap r.addr r.size candidate size
          then some (elim rest [ none ↦ end | some other ↦ max end other ])
          else rest
    ]

-- `(addr + PAGE_MASK) & !PAGE_MASK`
pub align_up : ℕ → ℕ
align_up addr = bit_and ((addr + page_mask) % 2 ^ 64) not_page_mask

pub saturating_add : ℕ → ℕ → ℕ
saturating_add a b = if ltb (a + b) (2 ^ 64) then a + b else 2 ^ 64 - 1

-- `translates` is the page table's test that an address is mapped.
module _ (translates : ℕ → Bool) where
  -- `(i..pages).any(..)` over `n` pages
  pub any_mapped : ℕ → ℕ → ℕ → Bool
  any_mapped addr i zero = false
  any_mapped addr i (suc n) =
      (elim (checked_add addr (i * page_size)) [ none ↦ true | some page ↦ translates page ])
      || any_mapped addr (i + 1) n

  pub range_is_mapped : ℕ → ℕ → Bool
  range_is_mapped addr size = any_mapped addr 0 (size / page_size)

  -- The `loop` of `find_free_anon_region`, which returns 0 where there is no room; `none` means
  -- that the fuel ran out.
  pub search_free : List Region → ℕ → ℕ → ℕ → Option ℕ
  search_free rs size zero candidate = none
  search_free rs size (suc fuel) candidate =
      let after_regions =
        search_free rs size fuel
          (align_up (Option.get_or (greatest_end rs candidate size) user_address_limit)) in
      let after_page = search_free rs size fuel (saturating_add candidate page_size) in
      if ltb user_address_limit (candidate + size)
      then some 0
      else if tracked_range_overlaps rs candidate size
      then after_regions
      else if range_is_mapped candidate size
      then after_page
      else some candidate

  -- Fuel: one round for each page below the limit, and one more.
  pub find_free_anon_region : List Region → ℕ → ℕ → Option ℕ
  find_free_anon_region rs size start = search_free rs size (2 ^ 35 + 2) (align_up start)

pub track_region : List Region → ℕ → ℕ → ℕ → ℕ → List Region
track_region rs addr size prot flags =
    rs ++ (record { addr = addr; size = size; prot = prot; flags = flags }) ∷ []

-- The list without the first region of that address and size, and whether there was one.
pub remove_region : List Region → ℕ → ℕ → List Region × Bool
remove_region [] addr size = ([], false)
remove_region (r ∷ rs) addr size =
    let (rest, removed) = remove_region rs addr size in
    if r.addr == addr && r.size == size then (rs, true) else (r ∷ rest, removed)
