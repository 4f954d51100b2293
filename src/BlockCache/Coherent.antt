-- ===== src/BlockCache/Coherent.antt =====
-- The invariant of the cache, and the ways in which entries change.
use native.Mathlib.Nat.{mod-lt}
use fullerene.Base.{
  ℕ, zero, suc, ◌+◌, ◌≤◌, ◌<◌, ◌≡◌, inl, inr, refl, ◌∙◌, sym, List, none, some, length, length-set,
  set, replicate, length-replicate, arith, ◌==◌, ==_iff, Bool-cases, Option-cases,
}
use fullerene.BlockCache.{BlockDevice, BlockCache, Entry, holds, free_slot, new, evict_slot}
use fullerene.BlockCache.Entries.{EntryHolds, AllHold, AllHold-set, AllHold-same, free_slot-lt}
use fullerene.BlockCache.Tags.{tag_count, tag_count-set, new-tags}

module _ {D : Type 0} (dev : BlockDevice D) where
  -- The cache's invariant, for a device of which `content` gives the sectors.
  pub record IsCoherent (content : D → ℕ → List ℕ) (c : BlockCache D) : Type 0 where
    pub size_is : c.bytes_per_sector ≡ dev.sector_size c.inner
    pub some_entries : 0 < length c.entries
    pub victim_in : c.next_victim < length c.entries
    pub holding : AllHold (content c.inner) c.bytes_per_sector c.entries
    pub once : (l : ℕ) → tag_count c.entries l ≤ 1

  -- A slot in bounds is chosen, and nothing but the next victim changes.
  pub evict_slot_lem :
      (c : BlockCache D)
      → c.next_victim < length c.entries
      → 0 < length c.entries
      → ((evict_slot dev c).0 < length c.entries)
        × ((evict_slot dev c).1.inner ≡ c.inner)
        × ((evict_slot dev c).1.entries ≡ c.entries)
        × ((evict_slot dev c).1.bytes_per_sector ≡ c.bytes_per_sector)
        × ((evict_slot dev c).1.next_victim < length c.entries)
  unfolding evict_slot
  evict_slot_lem c h some_entries = elim (Option-cases (free_slot c.entries)) [
    | inl full ↦
        rw (evict_slot, full) (h, refl, refl, refl, mod-lt (c.next_victim + 1) some_entries)
    | inr (i, free) ↦ rw (evict_slot, free) (free_slot-lt c.entries i free, refl, refl, refl, h)
  ]

  pub evict_slot-IsCoherent :
      (content : D → ℕ → List ℕ) (c : BlockCache D)
      → IsCoherent content c
      → IsCoherent content (evict_slot dev c).1
  unfolding evict_slot
  evict_slot-IsCoherent content c v = elim (Option-cases (free_slot c.entries)) [
    | inl full ↦
        rw (evict_slot, full)
          (record {
            size_is = v.size_is;
            some_entries = v.some_entries;
            victim_in = mod-lt (c.next_victim + 1) v.some_entries;
            holding = v.holding;
            once = v.once;
          })
    | inr (i, free) ↦ rw (evict_slot, free) v
  ]

  -- An entry is replaced by one that holds its sector, and the device goes on to one with the same
  -- sectors.
  pub set-IsCoherent :
      (content : D → ℕ → List ℕ) (c : BlockCache D) (inner : D) (i : ℕ) (e : Entry)
      → IsCoherent content c
      → ((l : ℕ) → content inner l ≡ content c.inner l)
      → dev.sector_size inner ≡ dev.sector_size c.inner
      → EntryHolds (content c.inner) c.bytes_per_sector e
      → ((l : ℕ) → tag_count (set c.entries i e) l ≤ 1)
      → IsCoherent content (record c { inner = inner; entries = set c.entries i e })
  set-IsCoherent content c inner i e v same size h once = record {
    size_is = v.size_is ∙ sym size;
    some_entries = let l = length-set c.entries i e in omega (arith, l, v.some_entries);
    victim_in = let l = length-set c.entries i e in omega (arith, l, v.victim_in);
    holding =
        AllHold-same (content c.inner) (content inner) c.bytes_per_sector (set c.entries i e)
          (λ l. sym (same l))
          (AllHold-set (content c.inner) c.bytes_per_sector c.entries i e v.holding h);
    once = once;
  }

  -- An entry that no other has the tag of leaves no tag twice.
  pub tag_count-new_tag :
      (content : D → ℕ → List ℕ) (c : BlockCache D) (i m : ℕ) (bytes : List ℕ)
      → IsCoherent content c
      → tag_count c.entries m ≡ 0
      → (l : ℕ) → tag_count (set c.entries i (some m, bytes)) l ≤ 1
  unfolding holds
  tag_count-new_tag content c i m bytes v none_has l =
      let more = tag_count-set c.entries i (some m, bytes) l in
      let once = v.once l in
      elim (Bool-cases (m == l)) [
        | inl same ↦
            let at : m ≡ l = (==_iff m l).0 same in
            let none_has' : tag_count c.entries l ≡ 0 = rw (sym at) none_has in
            let more' = rw same at more in omega (arith, more', none_has')
        | inr other ↦ let more' = rw other at more in omega (arith, more', once)
      ]

  new-entries :
      (f : ℕ → List ℕ) (size n : ℕ) → AllHold f size (replicate n (none, replicate size 0))
  new-entries f size zero = tt
  new-entries f size (suc n) = (length-replicate size 0, new-entries f size n)

  -- A fresh cache is coherent.
  pub new-IsCoherent :
      (content : D → ℕ → List ℕ) (d : D) (capacity : ℕ)
      → 0 < capacity
      → IsCoherent content (new dev d capacity)
  unfolding new
  new-IsCoherent content d capacity h =
      let n : length (replicate {A = Entry} capacity (none, replicate (dev.sector_size d) 0))
          ≡ capacity =
        length-replicate capacity (none, replicate (dev.sector_size d) 0) in
      record {
        size_is = refl;
        some_entries = omega (arith, n, h);
        victim_in = omega (arith, n, h);
        holding = new-entries (content d) (dev.sector_size d) capacity;
        once = λ l. rw (new-tags (dev.sector_size d) capacity l) (omega arith);
      }
