-- ===== src/BlockCache/Single.antt =====
-- Reading a sector through the cache.
use fullerene.Base.{
  if◌then◌else◌, [], ℕ, ◌+◌, ◌*◌, ◌≤◌, ◌<◌, ◌≡◌, ◌≢◌, ◌⊎◌, inl, inr, refl, ◌∙◌, sym, ap, subst,
  List, ◌++◌, none, some, length, drop, set, arith, leb, leb-true, leb-false, ltb-true, ltb-false,
  Bool-cases, Option-cases,
}
use fullerene.BlockCache.{
  BlockError, buffer_too_small, lba_overflow, Result, ok, err, BlockDevice, BlockCache, Entry,
  lookup, entry_at, splice, evict_slot, fill_slot, fill_slot_ref, fetch, read_sector, get_sector,
}
use fullerene.BlockCache.Sectors.{IsDevice, Readable, sectors-one, append_nil, drop_all}
use fullerene.BlockCache.Entries.{EntryHolds, AllHold-get_or, length-EntryHolds, lookup-Found}
use fullerene.BlockCache.Tags.{tag_count, tag_count-set_same, tag_count-lookup}
use fullerene.BlockCache.Coherent.{
  IsCoherent, evict_slot_lem, evict_slot-IsCoherent, set-IsCoherent, tag_count-new_tag,
}

pub Result-cases : (r : Result) → (r ≡ ok) ⊎ ((e : BlockError) × (r ≡ err e))
Result-cases ok = inl refl
Result-cases (err e) = inr (e, refl)

-- An entry with the tag of a sector holds it.
pub EntryHolds-tag :
    (f : ℕ → List ℕ) (size : ℕ) (e : Entry) (l : ℕ)
    → e.0 ≡ some l
    → EntryHolds f size e
    → (length e.1 ≡ size) × (e.1 ≡ f l)
EntryHolds-tag f size (none, bytes) l tag h = cc
EntryHolds-tag f size (some m, bytes) l tag h =
    let same : m ≡ l = ground arith in (h.0, h.1 ∙ ap f same)

pub EntryHolds-bytes :
    (f : ℕ → List ℕ) (size : ℕ) (e : Entry) (bytes : List ℕ)
    → bytes ≡ e.1
    → EntryHolds f size e
    → EntryHolds f size (e.0, bytes)
EntryHolds-bytes f size (none, old) bytes same h = rw same h
EntryHolds-bytes f size (some m, old) bytes same h = rw same h

module _ {D : Type 0} (dev : BlockDevice D) (content : D → ℕ → List ℕ) where
  -- A read that fails leaves its buffer alone.
  abbrev pub KeepsBuffer : Type 0
  KeepsBuffer =
      (d : D) (l n : ℕ) (buf : List ℕ)
      → (dev.read_sectors d l n buf).0 ≢ ok
      → (dev.read_sectors d l n buf).2 ≡ buf

  -- What a read of a sector through the cache promises.
  abbrev pub Fetches : D → ℕ → Result × BlockCache D × List ℕ → Type 0
  Fetches d lba (r, c', bytes) =
      (Readable dev d lba → r ≡ ok)
      × (r ≡ ok → (bytes ≡ content d lba) × IsCoherent dev content c')
      × (KeepsBuffer → IsCoherent dev content c')
      × ((l : ℕ) → content c'.inner l ≡ content d l)
      × (dev.total_sectors c'.inner ≡ dev.total_sectors d)

  module _ (is : IsDevice dev content) where
    fill_slot-Fetches :
        (c : BlockCache D) (lba i : ℕ)
        → IsCoherent dev content c
        → lba < dev.total_sectors c.inner
        → i < length c.entries
        → tag_count c.entries lba ≡ 0
        → Fetches c.inner lba (fill_slot dev c lba i)
    unfolding fill_slot
    fill_slot-Fetches c lba i v inside here missing =
        let old : List ℕ = (entry_at c.entries i).1 in
        let held = AllHold-get_or (content c.inner) c.bytes_per_sector c.entries i v.holding here in
        let size : length old ≡ dev.sector_size c.inner =
          length-EntryHolds (content c.inner) c.bytes_per_sector (entry_at c.entries i) held
          ∙ v.size_is in
        let read = dev.read_sectors c.inner lba 1 old in
        let same = is.read_keeps c.inner lba 1 old in
        let read_size = is.read_size c.inner lba 1 old in
        elim (Result-cases read.0) [
          | inl done ↦
              let own : read.2 ≡ content c.inner lba =
                is.reads c.inner lba 1 old (omega (arith, size)) done
                ∙ rw
                    (
                      sectors-one (content c.inner) lba,
                      drop_all (1 * dev.sector_size c.inner) old (omega (arith, size)),
                    )
                    (append_nil (content c.inner lba)) in
              let length_kept = is.keeps_length c.inner lba 1 old in
              let good : IsCoherent dev content
                  (record c { inner = read.1; entries = set c.entries i (some lba, read.2) }) =
                set-IsCoherent dev content c read.1 i (some lba, read.2) v same read_size
                  (length_kept ∙ size ∙ sym v.size_is, own)
                  (tag_count-new_tag dev content c i lba read.2 v missing) in
              rw (fill_slot, done)
                (λ _. refl, λ _. (own, good), λ _. good, same, is.read_total c.inner lba 1 old)
          | inr (e, failed) ↦
              rw (fill_slot, failed)
                (
                  λ well. let w = well old (omega (arith, size)) in cc,
                  λ bad. cc,
                  λ keeps.
                      set-IsCoherent dev content c read.1 i ((entry_at c.entries i).0, read.2) v
                        same read_size
                        (EntryHolds-bytes (content c.inner) c.bytes_per_sector
                          (entry_at c.entries i) read.2
                          (keeps c.inner lba 1 old (rw failed (λ x. cc))) held)
                        (λ l. rw (tag_count-set_same c.entries i read.2 l) (v.once l)),
                  same,
                  is.read_total c.inner lba 1 old,
                )
        ]

    -- `fetch` on a sector in range.
    pub fetch-Fetches :
        (c : BlockCache D) (lba : ℕ)
        → IsCoherent dev content c
        → lba < dev.total_sectors c.inner
        → Fetches c.inner lba (fetch dev c lba)
    unfolding fetch
    fetch-Fetches c lba v inside = elim (Option-cases (lookup c.entries lba)) [
      | inl missing ↦
          let (slot, inner, entries, size, victim) =
            evict_slot_lem dev c v.victim_in v.some_entries in
          let c' = (evict_slot dev c).1 in
          let filled =
            fill_slot-Fetches c' lba (evict_slot dev c).0 (evict_slot-IsCoherent dev content c v)
              (rw inner inside) (rw entries slot)
              (rw entries (tag_count-lookup c.entries lba missing)) in
          rw (fetch, missing)
            (subst (λ d. Fetches d lba (fill_slot dev c' lba (evict_slot dev c).0)) inner filled)
      | inr (i, found) ↦
          let at = rw found at (lookup-Found c.entries lba) in
          let held =
            EntryHolds-tag (content c.inner) c.bytes_per_sector (entry_at c.entries i) lba at.1
              (AllHold-get_or (content c.inner) c.bytes_per_sector c.entries i v.holding at.0) in
          rw (fetch, found) (λ _. refl, λ _. (held.1, v), λ _. v, λ l. refl, refl)
    ]

    -- What `read_sector` promises on each of its branches.
    unfoldable pub ReadsSector : BlockCache D → ℕ → List ℕ → Result × BlockCache D × List ℕ → Type 0
    ReadsSector c lba buf (r, c', buf') =
        (length buf < c.bytes_per_sector
          → (r ≡ err (buffer_too_small c.bytes_per_sector (length buf))) × (c' ≡ c) × (buf' ≡ buf))
        × (c.bytes_per_sector ≤ length buf
            → dev.total_sectors c.inner ≤ lba
            → (r ≡ err lba_overflow) × (c' ≡ c) × (buf' ≡ buf))
        × (c.bytes_per_sector ≤ length buf
            → lba < dev.total_sectors c.inner
            → Fetches c.inner lba (r, c', content c.inner lba)
              × (r ≡ ok → buf' ≡ content c.inner lba ++ drop c.bytes_per_sector buf)
              × (r ≢ ok → buf' ≡ buf))

    -- `read_sector` on a coherent cache. A buffer that is too small and a sector out of range are
    -- refused with their errors, the buffer first, and nothing changes. Else, if the device can
    -- read the sector, the call succeeds; if it succeeds, the buffer starts with the sector as the
    -- device holds it and keeps the rest, and the cache is coherent; if it fails the buffer stays,
    -- and the cache is coherent if the device leaves the buffer of a failed read alone. The
    -- sectors of the device stay.
    pub read_sector-ReadsSector :
        (c : BlockCache D) (lba : ℕ) (buf : List ℕ)
        → IsCoherent dev content c
        → ReadsSector c lba buf (read_sector dev c lba buf)
    unfolding read_sector ReadsSector
    read_sector-ReadsSector c lba buf v = (
      λ small. rw (ltb-true (length buf) c.bytes_per_sector small) (refl, refl, refl),
      λ large out.
          rw
            (
              ltb-false (length buf) c.bytes_per_sector large,
              leb-true (dev.total_sectors c.inner) lba out,
            )
            (refl, refl, refl),
      λ large inside.
          let (well, right, keeps, same, total) = fetch-Fetches c lba v inside in
          elim (Result-cases (fetch dev c lba).0) [
            | inl done ↦
                let size = is.sized c.inner lba inside in
                rw
                  (
                    read_sector,
                    ltb-false (length buf) c.bytes_per_sector large,
                    leb-false (dev.total_sectors c.inner) lba inside,
                    done,
                  )
                  (
                    (λ _. refl, λ _. (refl, (right done).1), keeps, same, total),
                    λ _.
                        let whole : 0 + length (content c.inner lba) ≡ c.bytes_per_sector =
                          omega (arith, size, v.size_is) in
                        rw ((right done).0, whole) refl,
                    λ bad. absurd (bad refl),
                  )
            | inr (e, failed) ↦
                rw
                  (
                    read_sector,
                    ltb-false (length buf) c.bytes_per_sector large,
                    leb-false (dev.total_sectors c.inner) lba inside,
                    failed,
                  )
                  ((λ w. let x = well w in cc, λ bad. cc, keeps, same, total), λ bad. cc, λ _. refl)
          ],
    )

module _ {D : Type 0} (dev : BlockDevice D) where
  get_sector-fetch :
      (c : BlockCache D) (lba : ℕ)
      → get_sector dev c lba ≡ (
          if leb (dev.total_sectors c.inner) lba
          then (err lba_overflow, c, [])
          else fetch dev c lba)
  unfolding get_sector fetch fill_slot fill_slot_ref
  get_sector-fetch c lba = refl

  -- `get_sector` and `read_sector` agree on every sector, whether they succeed or fail, and leave
  -- the same cache, if the buffer is large enough.
  pub get_sector-read_sector :
      (c : BlockCache D) (lba : ℕ) (buf : List ℕ)
      → c.bytes_per_sector ≤ length buf
      → let got = get_sector dev c lba in
        let read = read_sector dev c lba buf in
        (read.0 ≡ got.0) × (read.1 ≡ got.1) × (got.0 ≡ ok → read.2 ≡ splice buf 0 got.2)
  unfolding read_sector
  get_sector-read_sector c lba buf large =
      rw (get_sector-fetch c lba) (elim (Bool-cases (leb (dev.total_sectors c.inner) lba)) [
        | inl out ↦
            rw (read_sector, ltb-false (length buf) c.bytes_per_sector large, out)
              (refl, refl, λ bad. cc)
        | inr inside ↦ elim (Result-cases (fetch dev c lba).0) [
          | inl done ↦
              rw (read_sector, ltb-false (length buf) c.bytes_per_sector large, inside, done)
                (refl, refl, λ _. refl)
          | inr (e, failed) ↦
              rw (read_sector, ltb-false (length buf) c.bytes_per_sector large, inside, failed)
                (refl, refl, λ bad. cc)
        ]
      ])
