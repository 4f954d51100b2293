-- ===== src/BlockCache/Fills.antt =====
-- Missing sectors in a row, and the entries that they are put into.
use fullerene.Base.{
  ℕ, zero, suc, ◌+◌, ◌*◌, ◌≤◌, ◌<◌, ◌≡◌, inl, inr, refl, ◌∙◌, sym, ap, List, none, some, length,
  set, arith, ◌==◌, Bool-cases, Option-cases,
}
use fullerene.BlockCache.{
  BlockDevice, BlockCache, Entry, lookup, slice, evict_slot, miss_run, fill_from,
}
use fullerene.BlockCache.Tags.{tag_count, tag_count-lookup, tag_count-set_other}
use fullerene.BlockCache.Coherent.{
  IsCoherent, evict_slot_lem, evict_slot-IsCoherent, set-IsCoherent, tag_count-new_tag,
}

pub miss_run-le : (es : List Entry) (n lba : ℕ) → miss_run es lba n ≤ n
unfolding miss_run
miss_run-le es zero lba = omega arith
miss_run-le es (suc n) lba = elim (Option-cases (lookup es lba)) [
  | inl missing ↦ rw (miss_run, missing) (omega (arith, miss_run-le es n (lba + 1)))
  | inr (i, found) ↦ rw (miss_run, found) (omega arith)
]

pub miss_run_pos :
    (es : List Entry) (n lba : ℕ) → lookup es lba ≡ none → 0 < n → 0 < miss_run es lba n
unfolding miss_run
miss_run_pos es zero lba missing h = absurd (omega arith)
miss_run_pos es (suc n) lba missing h = rw (miss_run, missing) (omega arith)

-- The sectors of the run are in no entry.
pub missing_run :
    (es : List Entry) (n lba s : ℕ) → lba ≤ s → s < lba + miss_run es lba n → tag_count es s ≡ 0
unfolding miss_run
missing_run es zero lba s low high = absurd (omega arith)
missing_run es (suc n) lba s low high = elim (Option-cases (lookup es lba)) [
  | inr (i, found) ↦ let none_more = rw (miss_run, found) at high in absurd (omega arith)
  | inl missing ↦
      let more = rw (miss_run, missing) at high in
      elim (Bool-cases (lba == s)) [
        | inl here ↦
            let at : lba ≡ s = ground arith in rw (sym at) (tag_count-lookup es lba missing)
        | inr later ↦ missing_run es n (lba + 1) s (ground arith) (omega arith)
      ]
]

module _ {D : Type 0} (dev : BlockDevice D) (content : D → ℕ → List ℕ) where
  -- Sectors that are copied from a buffer that has them are held.
  pub fill_from-IsCoherent :
      (n : ℕ) (c : BlockCache D) (lba sector : ℕ) (buf : List ℕ)
      → IsCoherent dev content c
      → ((s : ℕ)
          → sector ≤ s
          → s < sector + n
          → let size = c.bytes_per_sector in
            (slice buf (s * size) (s * size + size) ≡ content c.inner (lba + s))
            × (length (content c.inner (lba + s)) ≡ size)
            × (tag_count c.entries (lba + s) ≡ 0))
      → IsCoherent dev content (fill_from dev n c lba sector buf)
        × ((fill_from dev n c lba sector buf).inner ≡ c.inner)
        × ((fill_from dev n c lba sector buf).bytes_per_sector ≡ c.bytes_per_sector)
  unfolding fill_from
  fill_from-IsCoherent zero c lba sector buf v there = (v, refl, refl)
  fill_from-IsCoherent (suc n) c lba sector buf v there =
      let (slot, inner, entries, size, victim) = evict_slot_lem dev c v.victim_in v.some_entries in
      let c' : BlockCache D = (evict_slot dev c).1 in
      let width : ℕ = c.bytes_per_sector in
      let offset : ℕ = sector * width in
      let bytes : List ℕ = slice buf offset (offset + width) in
      let filled : BlockCache D = record c' {
        entries = set c'.entries (evict_slot dev c).0 (some (lba + sector), bytes);
      } in
      let (first, whole, missing) = there sector (omega arith) (omega arith) in
      let good : IsCoherent dev content filled =
        set-IsCoherent dev content c' c'.inner (evict_slot dev c).0 (some (lba + sector), bytes)
          (evict_slot-IsCoherent dev content c v) (λ l. refl) refl
          (
            ap length first ∙ whole ∙ sym size,
            first ∙ ap (λ d. content d (lba + sector)) (sym inner),
          )
          (tag_count-new_tag dev content c' (evict_slot dev c).0 (lba + sector) bytes
            (evict_slot-IsCoherent dev content c v) (rw entries missing)) in
      let (rest, same, kept) =
        fill_from-IsCoherent n filled lba (sector + 1) buf good (λ s low high.
          let (same, whole', free) = there s (omega arith) (omega arith) in
          rw (size, inner)
            (
              same,
              whole',
              tag_count-set_other c'.entries (evict_slot dev c).0 (lba + sector) (lba + s) bytes
                  (omega arith) (rw entries free),
            )) in
      (rest, same ∙ inner, kept ∙ size)
