-- ===== src/Xhci/EventRing.antt =====
-- `EventRing` of nitrogen/src/usb/xhci/ring.rs, the ring on which the controller reports events to
-- the driver.
use fullerene.Base.{
  ℕ, ◌+◌, ◌*◌, Option, none, some, Bool, List, get_or, replicate, if◌then◌else◌, leb, ◌==◌, bit_and,
  bit_or, bit_xor,
}
use fullerene.Xhci.{Trb, zeroed, cycle_flag, trb_size}

pub record EventRing : Type 0 where
  pub entries : List Trb
  pub phys : ℕ
  pub deq : ℕ
  pub cycle : ℕ
  pub len : ℕ

unfoldable pub alloc : Option ℕ → ℕ → Option EventRing
alloc none n = none
alloc (some phys) n =
    some (record { entries = replicate n zeroed; phys = phys; deq = 0; cycle = 1; len = n })

unfoldable pub has_pending : EventRing → Bool
has_pending r = bit_and ((get_or r.entries r.deq zeroed).flags) cycle_flag == r.cycle

-- The block that is taken, if there is one, and the ring.
unfoldable pub pop : EventRing → Option Trb × EventRing
unfolding has_pending
pop r =
    let trb = get_or r.entries r.deq zeroed in
    let taken =
      if leb r.len (r.deq + 1)
      then record r { deq = 0; cycle = bit_xor r.cycle 1 }
      else record r { deq = r.deq + 1 } in
    if has_pending r then (some trb, taken) else (none, r)

-- `| (1 << 3)`
unfoldable pub dequeue_ptr : EventRing → ℕ
dequeue_ptr r = bit_or (r.phys + r.deq * trb_size) 8
