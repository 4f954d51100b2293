-- ===== src/LinuxMemory/Calls/Bookkeeping.antt =====
-- fullerene-kernel/src/linux/memory.rs: which of the tracked regions a call changes.
use fullerene.Base.{ℕ, ◌≡◌, refl, true, false, ◌&&◌, List, [], ◌∷◌, ◌++◌, ◌==◌, arith}
use fullerene.LinuxMemory.{Region, remove_region}
use fullerene.LinuxMemory.Calls.{set_region_prot}

abbrev pub IsRegion : Region → ℕ → ℕ → Type 0
IsRegion r addr size = (r.addr ≡ addr) × (r.size ≡ size)

-- No region of the list has exactly that address and size.
abbrev pub Untracked : List Region → ℕ → ℕ → Type 0
Untracked [] addr size = Unit {0}
Untracked (r ∷ rs) addr size = (¬ IsRegion r addr size) × Untracked rs addr size

other_region :
    (r : Region) (addr size : ℕ)
    → ¬ IsRegion r addr size
    → (r.addr == addr && r.size == size) ≡ false
other_region r addr size n = ground arith

this_region :
    (r : Region) (addr size : ℕ) → IsRegion r addr size → (r.addr == addr && r.size == size) ≡ true
this_region r addr size h = ground arith

set_nothing :
    (rs : List Region) (addr size prot : ℕ)
    → Untracked rs addr size
    → (set_region_prot rs addr size prot ≡ rs) × (remove_region rs addr size ≡ (rs, false))
unfolding set_region_prot remove_region
set_nothing [] addr size prot u = (refl, refl)
set_nothing (r ∷ rs) addr size prot (n, u) =
    let (same, kept) = set_nothing rs addr size prot u in
    rw (other_region r addr size n, same, kept) (refl, refl)

set_one :
    (front : List Region) (r : Region) (back : List Region) (addr size prot : ℕ)
    → Untracked front addr size
    → IsRegion r addr size
    → (set_region_prot (front ++ r ∷ back) addr size prot
        ≡ front ++ (record r { prot = prot }) ∷ back)
      × (remove_region (front ++ r ∷ back) addr size ≡ (front ++ back, true))
unfolding set_region_prot remove_region
set_one [] r back addr size prot u h = rw (this_region r addr size h) (refl, refl)
set_one (q ∷ front) r back addr size prot (n, u) h =
    let (changed, gone) = set_one front r back addr size prot u h in
    rw (other_region q addr size n, changed, gone) (refl, refl)

-- What `mprotect` and `munmap` do to the list of tracked regions. If no region of a list `front` has
-- exactly the address and the size of the range, even if some overlap it, the list stays, and the
-- removal reports that. Where such a region follows, it alone gets the new protection, or goes,
-- and the others keep their order.
pub set_region_prot-remove_region :
    (front : List Region) (r : Region) (back : List Region) (addr size prot : ℕ)
    → Untracked front addr size
    → IsRegion r addr size
    → (set_region_prot front addr size prot ≡ front)
      × (remove_region front addr size ≡ (front, false))
      × (set_region_prot (front ++ r ∷ back) addr size prot
          ≡ front ++ (record r { prot = prot }) ∷ back)
      × (remove_region (front ++ r ∷ back) addr size ≡ (front ++ back, true))
set_region_prot-remove_region front r back addr size prot u h =
    let (same, kept) = set_nothing front addr size prot u in
    let (changed, gone) = set_one front r back addr size prot u h in (same, kept, changed, gone)
