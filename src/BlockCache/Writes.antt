-- ===== src/BlockCache/Writes.antt =====
-- Writing through the cache.
use fullerene.Base.{
  ℕ, zero, suc, ◌+◌, ◌*◌, ◌^◌, ◌≤◌, ◌<◌, ◌≡◌, ◌⊎◌, inl, inr, refl, ◌∙◌, sym, ap, List, ◌++◌, length,
  take, drop, arith, leb-false, ltb, ltb-false, Bool-cases, ◌==◌,
}
use fullerene.BlockCache.{
  Result, ok, BlockDevice, BlockCache, Entry, invalidate, invalidate_all, read_sector, write_sector,
  write_sectors,
}
use fullerene.BlockCache.Sectors.{IsDevice, Readable, sectors, sectors-one, length-take}
use fullerene.BlockCache.Entries.{AllHold}
use fullerene.BlockCache.Tags.{
  tag_count, AllHold-tagged, tag_count-invalidate, AllHold-invalidate, length-invalidate,
}
use fullerene.BlockCache.Coherent.{IsCoherent}
use fullerene.BlockCache.Multi.{write_range_error-none}
use fullerene.BlockCache.Single.{ReadsSector, read_sector-ReadsSector}

-- What is left of the entries: none of the sectors from `lba` on, and nothing new.
abbrev Invalidated : (ℕ → List ℕ) → ℕ → ℕ → ℕ → List Entry → List Entry → Type 0
Invalidated f size lba n es es' =
    AllHold f size es'
    × (length es' ≡ length es)
    × ((l : ℕ) → tag_count es' l ≤ tag_count es l)
    × ((l : ℕ) → lba ≤ l → l < lba + n → tag_count es' l ≡ 0)

invalidate_all-Invalidated :
    (f : ℕ → List ℕ) (size n lba : ℕ) (es : List Entry)
    → AllHold f size es
    → ((l : ℕ) → tag_count es l ≤ 1)
    → Invalidated f size lba n es (invalidate_all n es lba)
unfolding invalidate_all
invalidate_all-Invalidated f size zero lba es all once =
    (all, refl, λ l. omega arith, λ l low high. absurd (omega arith))
invalidate_all-Invalidated f size (suc n) lba es all once =
    let first = λ (l : ℕ). tag_count-invalidate es lba l (once lba) in
    let (all', size', fewer, gone) =
      invalidate_all-Invalidated f size n (lba + 1) (invalidate es lba)
        (AllHold-invalidate f size es lba all)
        (λ l. let one = (first l).1 in omega (arith, one, once l)) in
    (
      all',
      size' ∙ length-invalidate es lba,
      λ l. omega (arith, fewer l, (first l).1),
      λ l low high. elim (Bool-cases (lba == l)) [
        | inl here ↦
            let at : lba ≡ l = ground arith in
            let none_left = (first l).0 in
            let few = fewer l in
            rw (sym at) (let few' = rw (sym at) at few in omega (arith, few', none_left))
        | inr later ↦ gone l (ground arith) (omega arith)
      ],
    )

module _ {D : Type 0} (dev : BlockDevice D) (content : D → ℕ → List ℕ)
    (is : IsDevice dev content) where
  -- Entries without the sectors of a write are coherent after it, whether it has succeeded or not.
  written-IsCoherent :
      (c : BlockCache D) (lba n : ℕ) (buf : List ℕ) (es : List Entry)
      → IsCoherent dev content c
      → Invalidated (content c.inner) c.bytes_per_sector lba n c.entries es
      → IsCoherent dev content
          (record c { inner = (dev.write_sectors c.inner lba n buf).1; entries = es })
  written-IsCoherent c lba n buf es v (all, long, fewer, gone) = record {
    size_is = v.size_is ∙ sym (is.write_size c.inner lba n buf);
    some_entries = omega (arith, long, v.some_entries);
    victim_in = omega (arith, long, v.victim_in);
    holding =
        AllHold-tagged (content c.inner) (content (dev.write_sectors c.inner lba n buf).1)
          c.bytes_per_sector es
          (λ l tagged. sym (
            is.write_keeps c.inner lba n buf l (elim (Bool-cases (ltb l lba)) [
              | inl before ↦ inl (ground arith)
              | inr not_before ↦ elim (Bool-cases (ltb l (lba + n))) [
                | inl within ↦
                    let none_left = gone l (ground arith) (ground arith) in absurd (omega arith)
                | inr behind ↦ inr (ground arith)
              ]
            ])))
          all;
    once = λ l. omega (arith, fewer l, v.once l);
  }

  -- What a write promises: how the device answers, and what it then holds.
  unfoldable pub Writes : BlockCache D → ℕ → ℕ → List ℕ → Result × BlockCache D → Type 0
  Writes c lba n bytes (r, c') =
      (r ≡ (dev.write_sectors c.inner lba n bytes).0)
      × (c'.inner ≡ (dev.write_sectors c.inner lba n bytes).1)
      × IsCoherent dev content c'
      × (r ≡ ok → sectors (content c'.inner) lba n ≡ take (n * c.bytes_per_sector) bytes)
      × ((s : ℕ) → (s < lba) ⊎ (lba + n ≤ s) → content c'.inner s ≡ content c.inner s)

  wrote :
      (c : BlockCache D) (lba n : ℕ) (bytes : List ℕ) (es : List Entry)
      → IsCoherent dev content c
      → n * c.bytes_per_sector ≤ length bytes
      → Invalidated (content c.inner) c.bytes_per_sector lba n c.entries es
      → Writes c lba n bytes (
        (dev.write_sectors c.inner lba n bytes).0,
        record c { inner = (dev.write_sectors c.inner lba n bytes).1; entries = es },
      )
  unfolding Writes
  wrote c lba n bytes es v room gone =
      let room' : n * dev.sector_size c.inner ≤ length bytes = rw (sym v.size_is) room in
      (
        refl,
        refl,
        written-IsCoherent c lba n bytes es v gone,
        λ done. is.writes c.inner lba n bytes room' done ∙ rw (v.size_is) refl,
        λ s outside. is.write_keeps c.inner lba n bytes s outside,
      )

  -- `write_sectors` on a coherent cache, of a range within the device from a buffer with all its
  -- bytes: the answer is the device's. If it succeeds the device holds the buffer's bytes as those
  -- sectors. The cache stays coherent, with no stale entry, and all other sectors stay, also if
  -- the device fails.
  pub write_sectors-Writes :
      (c : BlockCache D) (lba count : ℕ) (buf : List ℕ)
      → IsCoherent dev content c
      → count * c.bytes_per_sector < 2 ^ 64
      → count * c.bytes_per_sector ≤ length buf
      → lba + count < 2 ^ 64
      → lba + count ≤ dev.total_sectors c.inner
      → Writes c lba count
          (take (count * c.bytes_per_sector) buf)
          (write_sectors dev c lba count buf)
  unfolding write_sectors
  write_sectors-Writes c lba count buf v small room fits inside =
      let bytes = take (count * c.bytes_per_sector) buf in
      let size = length-take (count * c.bytes_per_sector) buf room in
      rw (write_sectors, write_range_error-none dev c lba count buf small room fits inside)
        (wrote c lba count bytes (invalidate_all count c.entries lba) v (omega (arith, size)) (
          invalidate_all-Invalidated (content c.inner) c.bytes_per_sector count lba c.entries
            v.holding v.once))

  -- `write_sector` on a coherent cache, of a sector of the device from a buffer with all its bytes.
  write_sector-Writes :
      (c : BlockCache D) (lba : ℕ) (buf : List ℕ)
      → IsCoherent dev content c
      → c.bytes_per_sector ≤ length buf
      → lba < dev.total_sectors c.inner
      → Writes c lba 1 buf (write_sector dev c lba buf)
  unfolding write_sector invalidate_all
  write_sector-Writes c lba buf v room inside =
      rw
        (
          write_sector,
          leb-false (dev.total_sectors c.inner) lba inside,
          ltb-false (length buf) c.bytes_per_sector room,
        )
        (wrote c lba 1 buf (invalidate c.entries lba) v (omega (arith, room)) (
          invalidate_all-Invalidated (content c.inner) c.bytes_per_sector 1 lba c.entries v.holding
            v.once))

  -- What is written to a sector is read back: if the device accepts the write, and can read the
  -- sector afterwards, `read_sector` after `write_sector` succeeds, and its buffer starts with as
  -- many bytes of the written buffer as a sector has. The sector may have been cached before.
  pub read_sector-write_sector :
      (c : BlockCache D) (lba : ℕ) (buf into : List ℕ)
      → IsCoherent dev content c
      → c.bytes_per_sector ≤ length buf
      → c.bytes_per_sector ≤ length into
      → lba < dev.total_sectors c.inner
      → let wrote = write_sector dev c lba buf in
        wrote.0 ≡ ok
        → Readable dev wrote.1.inner lba
        → let read = read_sector dev wrote.1 lba into in
          (read.0 ≡ ok)
          × (read.2 ≡ take c.bytes_per_sector buf ++ drop c.bytes_per_sector into)
          × IsCoherent dev content read.1
  unfolding Writes ReadsSector
  read_sector-write_sector c lba buf into v room room' inside accepted readable =
      let c' = (write_sector dev c lba buf).1 in
      let (r, inner, good, holds, others) = write_sector-Writes c lba buf v room inside in
      let total = ap dev.total_sectors inner ∙ is.write_total c.inner lba 1 buf in
      let size : c'.bytes_per_sector ≡ c.bytes_per_sector =
        good.size_is ∙ ap dev.sector_size inner ∙ is.write_size c.inner lba 1 buf ∙ sym v.size_is in
      let one : 1 * c.bytes_per_sector ≡ c.bytes_per_sector = omega arith in
      let (fetched, answer, kept) =
        (read_sector-ReadsSector dev content is c' lba into good).2 (omega (arith, size, room'))
          (omega (arith, total, inside)) in
      let done = fetched.0 readable in
      (
        done,
        answer done ∙ rw (size, sym (sectors-one (content c'.inner) lba), holds accepted, one) refl,
        (fetched.1 done).1,
      )
