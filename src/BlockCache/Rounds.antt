-- ===== src/BlockCache/Rounds.antt =====
-- The rounds of the loop that reads several sectors.
use fullerene.Base.{
  ℕ, zero, suc, ◌+◌, ◌-◌, ◌*◌, ◌≤◌, ◌<◌, ◌≡◌, inl, inr, refl, ◌∙◌, sym, ap, subst, List, ◌++◌,
  Option, none, some, length, length-append, drop, arith, ltb, ltb-false, Bool-cases, Option-cases,
}
use fullerene.BlockCache.{
  BlockError, Result, ok, err, BlockDevice, BlockCache, lookup, entry_at, splice, slice, miss_run,
  fill_from, read_loop,
}
use fullerene.BlockCache.Sectors.{
  IsDevice, AllReadable, sectors, sectors-same, slice-sectors, sectors-one, sectors-append,
  length-sectors, append_assoc, append_nil, drop_all, drop-append, take-append, drop-drop,
  length-drop, length-take,
}
use fullerene.BlockCache.Entries.{AllHold-get_or, AllHold-same, lookup-Found}
use fullerene.BlockCache.Tags.{tag_count}
use fullerene.BlockCache.Coherent.{IsCoherent}
use fullerene.BlockCache.Single.{EntryHolds-tag, Result-cases}
use fullerene.BlockCache.Fills.{miss_run-le, miss_run_pos, missing_run, fill_from-IsCoherent}

-- A copy behind the part of the buffer that is done.
splice_done :
    (s bytes buf0 : List ℕ) (k : ℕ)
    → length s ≡ k
    → splice (s ++ drop k buf0) k bytes ≡ (s ++ bytes) ++ drop (k + length bytes) buf0
splice_done s bytes buf0 k e =
    rw
      (
        take-append s (drop k buf0) k e,
        append_assoc s bytes (drop (k + length bytes) buf0),
        sym (drop-drop k (length bytes) (k + length bytes) (s ++ drop k buf0) refl),
        drop-append s (drop k buf0) k e,
        drop-drop k (length bytes) (k + length bytes) buf0 refl,
      )
      refl

module _ {D : Type 0} (dev : BlockDevice D) (content : D → ℕ → List ℕ) where
  -- What a read of several sectors promises, of which `f` gives the bytes.
  abbrev pub ReadsAll :
      (ℕ → List ℕ) → ℕ → ℕ → ℕ → List ℕ → Option (Result × BlockCache D × List ℕ) → Type 0
  ReadsAll f size lba count buf none = ⊥
  ReadsAll f size lba count buf (some (r, c', buf')) =
      (AllReadable dev → r ≡ ok)
      × (r ≡ ok → buf' ≡ sectors f lba count ++ drop (count * size) buf)
      × IsCoherent dev content c'
      × ((l : ℕ) → content c'.inner l ≡ f l)

  module _ (is : IsDevice dev content) (f : ℕ → List ℕ) (size lba count : ℕ) (buf0 : List ℕ) where
    -- The loop has read the sectors before `index`.
    pub record IsAt (c : BlockCache D) (index : ℕ) (buf : List ℕ) : Type 0 where
      pub coherent : IsCoherent dev content c
      pub same : (l : ℕ) → content c.inner l ≡ f l
      pub width : c.bytes_per_sector ≡ size
      pub range : lba + count ≤ dev.total_sectors c.inner
      pub at : index ≤ count
      pub room : count * size ≤ length buf0
      pub done : buf ≡ sectors f lba index ++ drop (index * size) buf0

    sized :
        (c : BlockCache D) (index : ℕ) (buf : List ℕ)
        → IsAt c index buf
        → (n l : ℕ) → l + n ≤ lba + count
        → length (sectors f l n) ≡ n * size
    sized c index buf a n l h =
        ap length (sym (sectors-same (content c.inner) f l n a.same))
        ∙ length-sectors dev content is c.inner n l (omega (arith, a.range))
        ∙ ap (λ x. n * x) (sym a.coherent.size_is ∙ a.width)

    -- The next sectors are put behind those that are done.
    splice-sectors :
        (c : BlockCache D) (index n : ℕ) (buf bytes : List ℕ)
        → IsAt c index buf
        → index + n ≤ count
        → bytes ≡ sectors f (lba + index) n
        → splice buf (index * size) bytes
          ≡ sectors f lba (index + n) ++ drop ((index + n) * size) buf0
    splice-sectors c index n buf bytes a h e =
        let long : length bytes ≡ n * size =
          ap length e ∙ sized c index buf a n (lba + index) (omega arith) in
        let end : index * size + length bytes ≡ (index + n) * size = omega (arith, long) in
        ap (λ x. splice x (index * size) bytes) a.done
        ∙ splice_done (sectors f lba index) bytes buf0 (index * size)
            (sized c index buf a index lba (omega (arith, a.at)))
        ∙ rw (end, e, sectors-append f index n lba) refl

    finished :
        (c : BlockCache D) (index : ℕ) (buf : List ℕ)
        → IsAt c index buf
        → count ≤ index
        → ReadsAll f size lba count buf0 (some (ok, c, buf))
    finished c index buf a h =
        let all : index ≡ count = omega (arith, a.at) in
        (λ _. refl, λ _. a.done ∙ rw all refl, a.coherent, a.same)

    -- A cached sector is copied from its entry.
    hit-IsAt :
        (c : BlockCache D) (index i : ℕ) (buf : List ℕ)
        → IsAt c index buf
        → index < count
        → lookup c.entries (lba + index) ≡ some i
        → IsAt c (index + 1) (splice buf (index * size) (entry_at c.entries i).1)
    hit-IsAt c index i buf a h found =
        let at = rw found at (lookup-Found c.entries (lba + index)) in
        let held =
          EntryHolds-tag (content c.inner) c.bytes_per_sector (entry_at c.entries i) (lba + index)
            at.1
            (AllHold-get_or (content c.inner) c.bytes_per_sector c.entries i a.coherent.holding
              at.0) in
        record {
          coherent = a.coherent;
          same = a.same;
          width = a.width;
          range = a.range;
          at = omega arith;
          room = a.room;
          done =
              splice-sectors c index 1 buf (entry_at c.entries i).1 a (omega arith)
                (held.1 ∙ a.same (lba + index) ∙ sym (sectors-one f (lba + index)));
        }

    part_length :
        (c : BlockCache D) (index n : ℕ) (buf : List ℕ)
        → IsAt c index buf
        → index + n ≤ count
        → length (slice buf (index * size) ((index + n) * size)) ≡ n * size
    part_length c index n buf a h =
        let rest : ℕ = count - (index + n) in
        let all : count * size ≡ (index + n + rest) * size =
          ap (λ x. x * size) (omega (arith, h)) in
        let whole =
          ap length a.done ∙ length-append (sectors f lba index) (drop (index * size) buf0) in
        let before = sized c index buf a index lba (omega (arith, a.at)) in
        let behind = length-drop (index * size) buf0 in
        let left = length-drop (index * size) buf in
        let m : (index + n) * size - index * size ≡ n * size = omega arith in
        rw m (
          length-take (n * size) (drop (index * size) buf)
            (omega (arith, all, whole, before, behind, left, a.room)))

    -- The sectors that were read stand in the buffer.
    in_buffer :
        (c : BlockCache D) (index n : ℕ) (buf buf' : List ℕ) (inner : D)
        → IsAt c index buf
        → index + n ≤ count
        → ((l : ℕ) → content inner l ≡ f l)
        → buf' ≡ sectors f lba (index + n) ++ drop ((index + n) * size) buf0
        → (s : ℕ) → index ≤ s
        → s < index + n
        → tag_count c.entries (lba + s) ≡ 0
        → let width = c.bytes_per_sector in
          (slice buf' (s * width) (s * width + width) ≡ content inner (lba + s))
          × (length (content inner (lba + s)) ≡ width)
          × (tag_count c.entries (lba + s) ≡ 0)
    in_buffer c index n buf buf' inner a h same e s low high free =
        let one =
          ap length (sym (sectors-one f (lba + s)))
          ∙ sized c index buf a 1 (lba + s) (omega arith) in
        rw (e, a.width, same (lba + s))
          (
            slice-sectors f size lba (index + n) (index + n - suc s) s
                (drop ((index + n) * size) buf0) (omega arith)
                (λ m l inside. sized c index buf a m l (omega arith)),
            omega (arith, one),
            free,
          )

    -- Missing sectors are read from the device, and put into the cache.
    miss-IsAt :
        (c : BlockCache D) (index n : ℕ) (buf : List ℕ)
        → IsAt c index buf
        → index + n ≤ count
        → ((s : ℕ) → index ≤ s → s < index + n → tag_count c.entries (lba + s) ≡ 0)
        → let read =
            dev.read_sectors c.inner
              (lba + index)
              n
              (slice buf (index * size) ((index + n) * size)) in
          let buf' = splice buf (index * size) read.2 in
          read.0 ≡ ok
          → IsAt (fill_from dev n (record c { inner = read.1 }) lba index buf') (index + n) buf'
    miss-IsAt c index n buf a h missing done =
        let part : List ℕ = slice buf (index * size) ((index + n) * size) in
        let read = dev.read_sectors c.inner (lba + index) n part in
        let buf' : List ℕ = splice buf (index * size) read.2 in
        let width : dev.sector_size c.inner ≡ size = sym a.coherent.size_is ∙ a.width in
        let part_long : length part ≡ n * size = part_length c index n buf a h in
        let bytes : read.2 ≡ sectors f (lba + index) n =
          is.reads c.inner (lba + index) n part (rw width (omega (arith, part_long))) done
          ∙ rw
              (
                width,
                drop_all (n * size) part (omega (arith, part_long)),
                append_nil (sectors (content c.inner) (lba + index) n),
              )
              (sectors-same (content c.inner) f (lba + index) n a.same) in
        let next : buf' ≡ sectors f lba (index + n) ++ drop ((index + n) * size) buf0 =
          splice-sectors c index n buf read.2 a h bytes in
        let read_same = is.read_keeps c.inner (lba + index) n part in
        let (good, inner, kept) =
          fill_from-IsCoherent dev content n (record c { inner = read.1 }) lba index buf'
            (record {
              size_is = a.coherent.size_is ∙ sym (is.read_size c.inner (lba + index) n part);
              some_entries = a.coherent.some_entries;
              once = a.coherent.once;
              victim_in = a.coherent.victim_in;
              holding =
                  AllHold-same (content c.inner) (content read.1) c.bytes_per_sector c.entries
                    (λ l. sym (read_same l)) a.coherent.holding;
            })
            (λ s low high.
              in_buffer c index n buf buf' read.1 a h (λ l. read_same l ∙ a.same l) next s low high
                (missing s low high)) in
        record {
          coherent = good;
          same = λ l. ap (λ d. content d l) inner ∙ read_same l ∙ a.same l;
          width = kept ∙ a.width;
          range =
              let total = is.read_total c.inner (lba + index) n part in
              rw inner (omega (arith, total, a.range));
          at = h;
          room = a.room;
          done = next;
        }

    -- A round of the loop on missing sectors, in the words of the code.
    miss_round :
        (c : BlockCache D) (index n : ℕ) (buf : List ℕ)
        → IsAt c index buf
        → index + n ≤ count
        → ((s : ℕ) → index ≤ s → s < index + n → tag_count c.entries (lba + s) ≡ 0)
        → let width = c.bytes_per_sector in
          let read =
            dev.read_sectors c.inner
              (lba + index)
              n
              (slice buf (index * width) ((index + n) * width)) in
          let buf' = splice buf (index * width) read.2 in
          read.0 ≡ ok
          → IsAt (fill_from dev n (record c { inner = read.1 }) lba index buf') (index + n) buf'
    miss_round c index n buf a h missing =
        subst
          (λ width.
            let read =
              dev.read_sectors c.inner (lba + index) n
                (slice buf (index * width) ((index + n) * width)) in
            let buf' = splice buf (index * width) read.2 in
            read.0 ≡ ok
            → IsAt (fill_from dev n (record c { inner = read.1 }) lba index buf') (index + n) buf')
          (sym a.width) (miss-IsAt c index n buf a h missing)

    failed_round :
        (c : BlockCache D) (index n : ℕ) (buf part buf' : List ℕ) (e : BlockError)
        → IsAt c index buf
        → index + n ≤ count
        → n * dev.sector_size c.inner ≤ length part
        → (dev.read_sectors c.inner (lba + index) n part).0 ≡ err e
        → ReadsAll f size lba count buf0 (
            some
              (err e, record c { inner = (dev.read_sectors c.inner (lba + index) n part).1 }, buf'))
    failed_round c index n buf part buf' e a h room failed =
        let same = is.read_keeps c.inner (lba + index) n part in
        (
          λ well. let w = well c.inner (lba + index) n part (omega (arith, a.range, h)) room in cc,
          λ bad. cc,
          record {
            size_is = a.coherent.size_is ∙ sym (is.read_size c.inner (lba + index) n part);
            some_entries = a.coherent.some_entries;
            victim_in = a.coherent.victim_in;
            once = a.coherent.once;
            holding =
                AllHold-same (content c.inner)
                  (content (dev.read_sectors c.inner (lba + index) n part).1) c.bytes_per_sector
                  c.entries (λ l. sym (same l)) a.coherent.holding;
          },
          λ l. same l ∙ a.same l,
        )

    pub read_loop-ReadsAll :
        (fuel : ℕ) (c : BlockCache D) (index : ℕ) (buf : List ℕ)
        → IsAt c index buf
        → count ≤ index + fuel
        → ReadsAll f size lba count buf0 (read_loop dev fuel c lba count index buf)
    unfolding read_loop
    read_loop-ReadsAll zero c index buf a enough =
        rw (read_loop, ltb-false index count (omega arith)) (finished c index buf a (omega arith))
    read_loop-ReadsAll (suc fuel) c index buf a enough = elim (Bool-cases (ltb index count)) [
      | inr over ↦ rw (read_loop, over) (finished c index buf a (ground arith))
      | inl more ↦ elim (Option-cases (lookup c.entries (lba + index))) [
        | inr (i, found) ↦
            rw (read_loop, more, found)
              (read_loop-ReadsAll fuel c (index + 1)
                (splice buf (index * c.bytes_per_sector) (entry_at c.entries i).1)
                (subst
                  (λ width.
                    IsAt c (index + 1) (splice buf (index * width) (entry_at c.entries i).1))
                  (sym a.width) (hit-IsAt c index i buf a (ground arith) found))
                (omega arith))
        | inl missing ↦
            let n : ℕ = miss_run c.entries (lba + index) (count - index) in
            let low = miss_run_pos c.entries (count - index) (lba + index) missing (ground arith) in
            let high = miss_run-le c.entries (count - index) (lba + index) in
            let start : ℕ = index * c.bytes_per_sector in
            let part : List ℕ = slice buf start ((index + n) * c.bytes_per_sector) in
            let read = dev.read_sectors c.inner (lba + index) n part in
            let buf' : List ℕ = splice buf start read.2 in
            elim (Result-cases read.0) [
              | inl done ↦
                  rw (read_loop, more, missing, done)
                    (read_loop-ReadsAll fuel
                      (fill_from dev n (record c { inner = read.1 }) lba index buf') (index + n)
                      buf'
                      (miss_round c index n buf a (ground arith)
                        (λ s from below.
                          missing_run c.entries (count - index) (lba + index) (lba + s)
                            (omega arith) (omega arith))
                        done)
                      (omega arith))
              | inr (e, failed) ↦
                  let width : dev.sector_size c.inner ≡ size = sym a.coherent.size_is ∙ a.width in
                  let long =
                    ap (λ w. length (slice buf (index * w) ((index + n) * w))) a.width
                    ∙ part_length c index n buf a (ground arith) in
                  rw (read_loop, more, missing, failed)
                    (failed_round c index n buf part buf' e a (ground arith)
                      (rw width (omega (arith, long))) failed)
            ]
      ]
    ]
