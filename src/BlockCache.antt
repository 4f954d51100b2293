-- ===== src/BlockCache.antt =====
-- genome/src/fat/cache.rs: `BlockCache`, a cache of sectors before a block device, and the trait
-- of genome/src/block.rs that both have. The device is any implementation of the trait, threaded
-- as a state; a buffer is the list of its bytes, and a call that writes to one returns it.
pub mod Sectors
pub mod Entries
pub mod Tags
pub mod Coherent
pub mod Single
pub mod Fills
pub mod Rounds
pub mod Multi
pub mod Writes
mod Tests
use fullerene.Base.{
  ℕ, zero, suc, ◌+◌, ◌-◌, ◌*◌, ◌/◌, ◌%◌, ◌^◌, Bool, true, false, not, ◌&&◌, ◌||◌, Option, none,
  some, List, [], ◌∷◌, ◌++◌, if◌then◌else◌, leb, ltb, ◌==◌, length, take, drop, get_or, set,
  replicate,
}

pub data BlockError : Type 0 where
  device lba_overflow sector_not_found : BlockError
  buffer_too_small : ℕ → ℕ → BlockError

pub data Result : Type 0 where
  ok : Result
  err : BlockError → Result

pub record BlockDevice (D : Type 0) : Type 0 where
  pub read_sectors : D → ℕ → ℕ → List ℕ → Result × D × List ℕ
  pub write_sectors : D → ℕ → ℕ → List ℕ → Result × D
  pub sector_size : D → ℕ
  pub total_sectors : D → ℕ

abbrev pub Entry : Type 0
Entry = Option ℕ × List ℕ

pub record BlockCache (D : Type 0) : Type 0 where
  pub inner : D
  pub bytes_per_sector : ℕ
  pub entries : List Entry
  pub next_victim : ℕ

pub holds : Option ℕ → ℕ → Bool
holds none lba = false
holds (some l) lba = l == lba

pub is_free : Option ℕ → Bool
is_free none = true
is_free (some l) = false

-- The position of the first entry of the sector.
pub lookup : List Entry → ℕ → Option ℕ
unfolding holds
lookup [] lba = none
lookup ((tag, bytes) ∷ es) lba =
    let rest = lookup es lba in
    if holds tag lba then some 0 else elim rest [ none ↦ none | some i ↦ some (suc i) ]

pub free_slot : List Entry → Option ℕ
unfolding is_free
free_slot [] = none
free_slot ((tag, bytes) ∷ es) =
    let rest = free_slot es in
    if is_free tag then some 0 else elim rest [ none ↦ none | some i ↦ some (suc i) ]

abbrev pub entry_at : List Entry → ℕ → Entry
entry_at es i = get_or es i (none, [])

-- `buf[offset..offset + data.len()].copy_from_slice(data)`
abbrev pub splice : List ℕ → ℕ → List ℕ → List ℕ
splice buf offset bytes = take offset buf ++ (bytes ++ drop (offset + length bytes) buf)

-- `buf[start..end]`
abbrev pub slice : List ℕ → ℕ → ℕ → List ℕ
slice buf start end = take (end - start) (drop start buf)

-- The entry of the sector, if there is one, is marked free.
pub invalidate : List Entry → ℕ → List Entry
unfolding lookup
invalidate es lba = elim (lookup es lba) [ some i ↦ set es i (none, (entry_at es i).1) | none ↦ es ]

-- How many of the next `n` sectors are missing one after the other.
pub miss_run : List Entry → ℕ → ℕ → ℕ
unfolding lookup
miss_run es lba zero = 0
miss_run es lba (suc n) =
    let rest = miss_run es (lba + 1) n in elim (lookup es lba) [ none ↦ suc rest | some i ↦ 0 ]

pub invalidate_all : ℕ → List Entry → ℕ → List Entry
unfolding invalidate
invalidate_all zero es lba = es
invalidate_all (suc n) es lba = invalidate_all n (invalidate es lba) (lba + 1)

module _ {D : Type 0} (dev : BlockDevice D) where
  pub new : D → ℕ → BlockCache D
  new inner capacity = record {
    inner = inner;
    bytes_per_sector = dev.sector_size inner;
    entries = replicate capacity (none, replicate (dev.sector_size inner) 0);
    next_victim = 0;
  }

  pub evict_slot : BlockCache D → ℕ × BlockCache D
  unfolding free_slot
  evict_slot c = elim (free_slot c.entries) [
    | some i ↦ (i, c)
    | none ↦ (c.next_victim, record c { next_victim = (c.next_victim + 1) % length c.entries })
  ]

  -- What the read of a missing sector leaves in `read_sector`: the device reads into the entry's
  -- bytes, and the tag is set if it succeeds.
  pub fill_slot : BlockCache D → ℕ → ℕ → Result × BlockCache D × List ℕ
  fill_slot c lba i =
      let (tag, old) = entry_at c.entries i in
      let (r, inner, bytes) = dev.read_sectors c.inner lba 1 old in
      elim r [
        | ok ↦ (ok, record c { inner = inner; entries = set c.entries i (some lba, bytes) }, bytes)
        | err e ↦ (err e, record c { inner = inner; entries = set c.entries i (tag, bytes) }, bytes)
      ]

  -- In `read_sector`: `lookup`, and on a miss the eviction and the read, with the sector's bytes.
  pub fetch : BlockCache D → ℕ → Result × BlockCache D × List ℕ
  unfolding lookup evict_slot fill_slot
  fetch c lba = elim (lookup c.entries lba) [
    | some i ↦ (ok, c, (entry_at c.entries i).1)
    | none ↦ let (i, c') = evict_slot c in fill_slot c' lba i
  ]

  pub read_sector : BlockCache D → ℕ → List ℕ → Result × BlockCache D × List ℕ
  unfolding fetch
  read_sector c lba buf =
      let (r, c', bytes) = fetch c lba in
      if ltb (length buf) c.bytes_per_sector
      then (err (buffer_too_small c.bytes_per_sector (length buf)), c, buf)
      else if leb (dev.total_sectors c.inner) lba
      then (err lba_overflow, c, buf)
      else elim r [ ok ↦ (ok, c', splice buf 0 bytes) | err e ↦ (err e, c', buf) ]

  -- The read of a missing sector in `get_sector`.
  pub fill_slot_ref : BlockCache D → ℕ → ℕ → Result × BlockCache D × List ℕ
  fill_slot_ref c lba i =
      let (tag, old) = entry_at c.entries i in
      let (r, inner, bytes) = dev.read_sectors c.inner lba 1 old in
      elim r [
        | ok ↦ (ok, record c { inner = inner; entries = set c.entries i (some lba, bytes) }, bytes)
        | err e ↦ (err e, record c { inner = inner; entries = set c.entries i (tag, bytes) }, bytes)
      ]

  -- `get_sector` gives a reference into the cache, here its bytes; they mean something only with
  -- `ok`.
  pub get_sector : BlockCache D → ℕ → Result × BlockCache D × List ℕ
  unfolding lookup evict_slot fill_slot_ref
  get_sector c lba =
      if leb (dev.total_sectors c.inner) lba
      then (err lba_overflow, c, [])
      else elim (lookup c.entries lba) [
        | some i ↦ (ok, c, (entry_at c.entries i).1)
        | none ↦ let (i, c') = evict_slot c in fill_slot_ref c' lba i
      ]

  pub write_sector : BlockCache D → ℕ → List ℕ → Result × BlockCache D
  unfolding invalidate
  write_sector c lba buf =
      let es = invalidate c.entries lba in
      let (r, inner) = dev.write_sectors c.inner lba 1 buf in
      if leb (dev.total_sectors c.inner) lba
      then (err lba_overflow, c)
      else if ltb (length buf) c.bytes_per_sector
      then (err (buffer_too_small c.bytes_per_sector (length buf)), c)
      else (r, record c { inner = inner; entries = es })

  -- The checks of `read_sectors`.
  pub range_error : BlockCache D → ℕ → ℕ → List ℕ → Option BlockError
  range_error c lba count buf =
      let needed = count * c.bytes_per_sector in
      if leb (2 ^ 64) needed
      then some lba_overflow
      else if ltb (length buf) needed
      then some (buffer_too_small needed (length buf))
      else if leb (2 ^ 64) (lba + count)
      then some lba_overflow
      else if ltb (dev.total_sectors c.inner) (lba + count)
      then some lba_overflow
      else none

  -- The `n` sectors from `sector` on are put into the cache from the buffer.
  pub fill_from : ℕ → BlockCache D → ℕ → ℕ → List ℕ → BlockCache D
  unfolding evict_slot
  fill_from zero c lba sector buf = c
  fill_from (suc n) c lba sector buf =
      let (i, c') = evict_slot c in
      let offset = sector * c.bytes_per_sector in
      let bytes = slice buf offset (offset + c.bytes_per_sector) in
      fill_from n (record c' { entries = set c'.entries i (some (lba + sector), bytes) }) lba
        (sector + 1) buf

  -- The loop of `read_sectors` from `index` on; `none` if the fuel is spent.
  pub read_loop : ℕ → BlockCache D → ℕ → ℕ → ℕ → List ℕ → Option (Result × BlockCache D × List ℕ)
  unfolding lookup miss_run fill_from
  read_loop zero c lba count index buf = if ltb index count then none else some (ok, c, buf)
  read_loop (suc fuel) c lba count index buf =
      let size = c.bytes_per_sector in
      let n = miss_run c.entries (lba + index) (count - index) in
      let start = index * size in
      let (r, inner, bytes) =
        dev.read_sectors c.inner (lba + index) n (slice buf start ((index + n) * size)) in
      let buf' = splice buf start bytes in
      let c' = record c { inner = inner } in
      elim (ltb index count) [
        | false ↦ some (ok, c, buf)
        | true ↦ elim (lookup c.entries (lba + index)) [
          | some i ↦
              read_loop fuel c lba count (index + 1) (splice buf start (entry_at c.entries i).1)
          | none ↦ elim r [
            | ok ↦ read_loop fuel (fill_from n c' lba index buf') lba count (index + n) buf'
            | err e ↦ some (err e, c', buf')
          ]
        ]
      ]

  -- Each round advances by a sector at least, so `count` rounds are enough.
  pub read_sectors : BlockCache D → ℕ → ℕ → List ℕ → Option (Result × BlockCache D × List ℕ)
  unfolding range_error read_loop
  read_sectors c lba count buf = elim (range_error c lba count buf) [
    | some e ↦ some (err e, c, buf)
    | none ↦ read_loop count c lba count 0 buf
  ]

  -- The checks of `write_sectors`.
  pub write_range_error : BlockCache D → ℕ → ℕ → List ℕ → Option BlockError
  write_range_error c lba count buf =
      let needed = count * c.bytes_per_sector in
      if leb (2 ^ 64) needed
      then some lba_overflow
      else if ltb (length buf) needed
      then some (buffer_too_small needed (length buf))
      else if leb (2 ^ 64) (lba + count)
      then some lba_overflow
      else if ltb (dev.total_sectors c.inner) (lba + count)
      then some lba_overflow
      else none

  pub write_sectors : BlockCache D → ℕ → ℕ → List ℕ → Result × BlockCache D
  unfolding write_range_error invalidate_all
  write_sectors c lba count buf =
      let es = invalidate_all count c.entries lba in
      let (r, inner) =
        dev.write_sectors c.inner lba count (take (count * c.bytes_per_sector) buf) in
      elim (write_range_error c lba count buf) [
        | some e ↦ (err e, c)
        | none ↦ (r, record c { inner = inner; entries = es })
      ]
