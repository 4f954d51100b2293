-- ===== src/BlockCache/Multi.antt =====
-- `read_sectors`, and the ranges that both calls on ranges let pass.
use fullerene.Base.{
  ℕ, ◌+◌, ◌*◌, ◌^◌, ◌≤◌, ◌<◌, ◌≡◌, refl, List, none, length, arith, leb-false, ltb-false,
}
use fullerene.BlockCache.{write_range_error, BlockDevice, BlockCache, range_error, read_sectors}
use fullerene.BlockCache.Sectors.{IsDevice, sectors-none}
use fullerene.BlockCache.Coherent.{IsCoherent}
use fullerene.BlockCache.Rounds.{ReadsAll, read_loop-ReadsAll}

module _ {D : Type 0} (dev : BlockDevice D) where
  pub range_error-none :
      (c : BlockCache D) (lba count : ℕ) (buf : List ℕ)
      → count * c.bytes_per_sector < 2 ^ 64
      → count * c.bytes_per_sector ≤ length buf
      → lba + count < 2 ^ 64
      → lba + count ≤ dev.total_sectors c.inner
      → range_error dev c lba count buf ≡ none
  unfolding range_error
  range_error-none c lba count buf small room fits inside =
      rw
        (
          leb-false (2 ^ 64) (count * c.bytes_per_sector) small,
          ltb-false (length buf) (count * c.bytes_per_sector) room,
          leb-false (2 ^ 64) (lba + count) fits,
          ltb-false (dev.total_sectors c.inner) (lba + count) inside,
        )
        refl

  pub write_range_error-none :
      (c : BlockCache D) (lba count : ℕ) (buf : List ℕ)
      → count * c.bytes_per_sector < 2 ^ 64
      → count * c.bytes_per_sector ≤ length buf
      → lba + count < 2 ^ 64
      → lba + count ≤ dev.total_sectors c.inner
      → write_range_error dev c lba count buf ≡ none
  unfolding write_range_error
  write_range_error-none c lba count buf small room fits inside =
      rw
        (
          leb-false (2 ^ 64) (count * c.bytes_per_sector) small,
          ltb-false (length buf) (count * c.bytes_per_sector) room,
          leb-false (2 ^ 64) (lba + count) fits,
          ltb-false (dev.total_sectors c.inner) (lba + count) inside,
        )
        refl

  -- `read_sectors` on a coherent cache, of a range within the device and into a buffer with room:
  -- its loop ends within its fuel. If no read of the device fails, it succeeds. If it succeeds,
  -- the buffer starts with the sectors as the device holds them, cached or not, and keeps the
  -- rest. The cache stays coherent and the device's sectors stay, also if it fails.
  pub read_sectors-ReadsAll :
      (content : D → ℕ → List ℕ)
      → IsDevice dev content
      → (c : BlockCache D) (lba count : ℕ) (buf : List ℕ) → IsCoherent dev content c
      → count * c.bytes_per_sector < 2 ^ 64
      → count * c.bytes_per_sector ≤ length buf
      → lba + count < 2 ^ 64
      → lba + count ≤ dev.total_sectors c.inner
      → ReadsAll dev content
          (content c.inner)
          c.bytes_per_sector
          lba
          count
          buf
          (read_sectors dev c lba count buf)
  unfolding read_sectors
  read_sectors-ReadsAll content is c lba count buf v small room fits inside =
      let checked = range_error-none c lba count buf small room fits inside in
      rw (read_sectors, checked)
        (read_loop-ReadsAll dev content is (content c.inner) c.bytes_per_sector lba count buf count
          c 0 buf
          (record {
            coherent = v;
            same = λ l. refl;
            width = refl;
            range = inside;
            at = omega arith;
            room = room;
            done = sectors-none (content c.inner) lba c.bytes_per_sector buf;
          })
          (omega arith))
