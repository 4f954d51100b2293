-- ===== src/LinuxMemory/Tracking.antt =====
-- The list of tracked regions stays disjoint.
use fullerene.Base.{
  ℕ, ◌+◌, ◌≤◌, ◌≡◌, refl, Bool, false, ◌&&◌, ◌||◌, List, [], ◌∷◌, ◌++◌, if◌then◌else◌, ◌==◌, arith,
  Bool-cases, length, inl, inr,
}
use fullerene.LinuxMemory.{
  Region, ranges_overlap, tracked_range_overlaps, track_region, remove_region, user_address_limit,
}
use fullerene.LinuxMemory.Search.{AllBelow, Room}

-- No region overlaps one behind it.
abbrev pub Disjoint : List Region → Type 0
Disjoint [] = Unit {0}
Disjoint (r ∷ rs) = (tracked_range_overlaps rs r.addr r.size ≡ false) × Disjoint rs

ranges_overlap_comm : (a n b m : ℕ) → ranges_overlap a n b m ≡ ranges_overlap b m a n
unfolding ranges_overlap
ranges_overlap_comm a n b m = ground arith

overlaps-append :
    (rs : List Region) (x : Region) (a n : ℕ)
    → tracked_range_overlaps (rs ++ x ∷ []) a n
      ≡ (tracked_range_overlaps rs a n || ranges_overlap x.addr x.size a n)
unfolding tracked_range_overlaps
overlaps-append [] x a n = ground arith
overlaps-append (r ∷ rs) x a n = ground (arith, overlaps-append rs x a n)

Disjoint-append :
    (rs : List Region) (x : Region)
    → Disjoint rs
    → tracked_range_overlaps rs x.addr x.size ≡ false
    → Disjoint (rs ++ x ∷ [])
unfolding tracked_range_overlaps
Disjoint-append [] x d h = (refl, tt)
Disjoint-append (r ∷ rs) x d h = (
  ground (
    arith,
    d.0,
    overlaps-append rs x r.addr r.size,
    ranges_overlap_comm r.addr r.size x.addr x.size,
  ),
  Disjoint-append rs x d.1 (ground arith),
)

AllBelow-append :
    (rs : List Region) (x : Region)
    → AllBelow rs
    → x.addr + x.size ≤ user_address_limit
    → AllBelow (rs ++ x ∷ [])
AllBelow-append [] x v h = (h, tt)
AllBelow-append (r ∷ rs) x v h = (v.0, AllBelow-append rs x v.1 h)

-- A region tracked at a free place keeps the regions disjoint and below the limit.
pub track_region-Disjoint :
    (translates : ℕ → Bool) (rs : List Region) (addr size prot flags : ℕ)
    → AllBelow rs
    → Disjoint rs
    → Room translates rs size addr
    → let rs' = track_region rs addr size prot flags in AllBelow rs' × Disjoint rs'
unfolding track_region
track_region-Disjoint translates rs addr size prot flags v d room =
    let x : Region = record { addr = addr; size = size; prot = prot; flags = flags } in
    (AllBelow-append rs x v room.1, Disjoint-append rs x d room.2)

overlaps-remove_region :
    (rs : List Region) (addr size a n : ℕ)
    → tracked_range_overlaps rs a n ≡ false
    → tracked_range_overlaps (remove_region rs addr size).0 a n ≡ false
unfolding remove_region tracked_range_overlaps
overlaps-remove_region [] addr size a n h = h
overlaps-remove_region (r ∷ rs) addr size a n h =
    ground (arith, overlaps-remove_region rs addr size a n)

remove_region-Disjoint :
    (rs : List Region) (addr size : ℕ) → Disjoint rs → Disjoint (remove_region rs addr size).0
unfolding remove_region
remove_region-Disjoint [] addr size d = tt
remove_region-Disjoint (r ∷ rs) addr size d = elim (Bool-cases (r.addr == addr && r.size == size)) [
  | inl hit ↦ rw (hit, remove_region) d.1
  | inr miss ↦
      rw (miss, remove_region)
        (
          overlaps-remove_region rs addr size r.addr r.size d.0,
          remove_region-Disjoint rs addr size d.1,
        )
]

-- A region of this address and size.
abbrev pub has_region : List Region → ℕ → ℕ → Bool
has_region [] addr size = false
has_region (r ∷ rs) addr size = r.addr == addr && r.size == size || has_region rs addr size

removed-has_region :
    (rs : List Region) (addr size : ℕ) → (remove_region rs addr size).1 ≡ has_region rs addr size
unfolding remove_region
removed-has_region [] addr size = refl
removed-has_region (r ∷ rs) addr size = ground (arith, removed-has_region rs addr size)

length-remove_region :
    (rs : List Region) (addr size : ℕ)
    → length (remove_region rs addr size).0 + (if (remove_region rs addr size).1 then 1 else 0)
      ≡ length rs
unfolding remove_region
length-remove_region [] addr size = refl
length-remove_region (r ∷ rs) addr size = ground (arith, length-remove_region rs addr size)

-- Removing a region reports whether there was one of exactly that address and size; the list gets
-- one shorter if there was, keeps its length if not, and disjoint regions stay disjoint.
pub remove_region_lem :
    (rs : List Region) (addr size : ℕ)
    → Disjoint rs
    → let (rs', removed) = remove_region rs addr size in
      Disjoint rs'
      × (removed ≡ has_region rs addr size)
      × (length rs' + (if removed then 1 else 0) ≡ length rs)
remove_region_lem rs addr size d = (
  remove_region-Disjoint rs addr size d,
  removed-has_region rs addr size,
  length-remove_region rs addr size,
)
