-- ===== src/LinuxMemory/Tests.antt =====
-- Runs of the range functions, and the theorems at concrete ranges.
use fullerene.Base.{
  ℕ, ◌-◌, ◌<◌, ◌^◌, ◌≡◌, refl, Bool, true, false, ◌&&◌, some, List, [], ◌∷◌, arith, ltb, ltb-true,
}
use fullerene.LinuxMemory.{
  Region, ok, err, einval, checked_page_range, is_user_address, find_free_anon_region,
  ranges_overlap, tracked_range_overlaps, range_is_mapped, any_mapped,
  overlaps_reserved_user_mapping,
}
use fullerene.LinuxMemory.Range.{checked_page_range_lem}
use fullerene.LinuxMemory.Search.{FindsRoom, Room, find_free_anon_region-FindsRoom}
use fullerene.LinuxMemory.Tracking.{Disjoint}

-- The canonical addresses of the lower half.
abbrev low_half : ℕ → Bool
low_half a = ltb a (2 ^ 47)

low_half-true : (a : ℕ) → a < 2 ^ 47 → low_half a ≡ true
low_half-true a h = ltb-true a (2 ^ 47) h

-- The tests of the source.
source_tests :
    (checked_page_range low_half (2 ^ 47) 4096 true ≡ err einval)
    × (checked_page_range low_half (2 ^ 64 - 2) 4096 true ≡ err einval)
    × (checked_page_range low_half 0x1234 1 false ≡ ok (0x1000, 4096))
    × (checked_page_range low_half 0x1234 4096 true ≡ err einval)
unfolding checked_page_range is_user_address
source_tests = (refl, refl, refl, refl)

checked_page_range_lem_example : checked_page_range low_half 0x1234 5000 false ≡ ok (0x1000, 8192)
checked_page_range_lem_example =
    checked_page_range_lem low_half low_half-true 0x1234 5000 false (omega arith)

abbrev tracked : List Region
tracked = record { addr = 0x10000; size = 8192; prot = 3; flags = 34 } ∷ []

-- One page is mapped, right behind the region.
abbrev one_page : ℕ → Bool
one_page a = ltb 0x11fff a && ltb a 0x13000

find_free_anon_region-FindsRoom_example :
    (a : ℕ) × (find_free_anon_region one_page tracked 4096 0x10001 ≡ some a)
    × FindsRoom one_page tracked 4096 0x10001 a
find_free_anon_region-FindsRoom_example =
    find_free_anon_region-FindsRoom one_page tracked 4096 0x10001 (omega arith) (omega arith)
      (omega arith) (omega arith)

Room-behind : Room one_page tracked 4096 0x13000
unfolding tracked_range_overlaps ranges_overlap range_is_mapped any_mapped
Room-behind = (refl, omega arith, refl, refl)

tracked-Disjoint : Disjoint tracked
unfolding tracked_range_overlaps
tracked-Disjoint = (refl, tt)

-- The first page, which no program may have, is not the reserved page.
first_page_unreserved : overlaps_reserved_user_mapping 4096 4096 ≡ false
unfolding overlaps_reserved_user_mapping ranges_overlap
first_page_unreserved = refl
