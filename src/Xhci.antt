-- ===== src/Xhci.antt =====
-- nitrogen/src/usb/xhci/ring.rs: the rings of transfer request blocks (TRBs) between the driver and
-- the USB host controller. A block of memory for DMA is the list of its entries; the flushes of the
-- cache leave its contents alone. The parent has the blocks, its children Ring and EventRing the rings.
pub mod Ring
pub mod EventRing
pub mod RingContext
pub mod Laps
pub mod Transfer
pub mod Events
mod Tests
use fullerene.Base.{
  ℕ, zero, suc, ◌+◌, ◌-◌, ◌*◌, ◌/◌, ◌%◌, ◌^◌, List, [], ◌∷◌, replicate, bit_and, bit_or,
}

abbrev pub trb_size : ℕ
trb_size = 16

-- The type of a link block.
abbrev pub link : ℕ
link = 6

-- `trb_flag::CYCLE` and `trb_flag::TC`
abbrev pub cycle_flag : ℕ
cycle_flag = 1

abbrev pub tc_flag : ℕ
tc_flag = 2

-- `1 << TRB_TYPE_SHIFT`
abbrev pub type_unit : ℕ
type_unit = 1024

-- `!CYCLE` on 32 bits
abbrev pub not_cycle : ℕ
not_cycle = 2 ^ 32 - 1 - 1

pub record Trb : Type 0 where
  pub params : List ℕ
  pub status : ℕ
  pub flags : ℕ

-- What zeroed memory holds.
abbrev pub zeroed : Trb
zeroed = record { params = replicate 8 0; status = 0; flags = 0 }

-- `u64::to_le_bytes`, `n` bytes of it
unfoldable pub to_le_bytes : ℕ → ℕ → List ℕ
to_le_bytes zero word = []
to_le_bytes (suc n) word = word % 256 ∷ to_le_bytes n (word / 256)

unfoldable pub new : ℕ → ℕ → Trb
new trb_type cycle = record {
  params = replicate 8 0;
  status = 0;
  flags = bit_or cycle (trb_type * type_unit % 2 ^ 32);
}

-- `set_data_ptr` does the same in place.
unfoldable pub with_data_ptr : Trb → ℕ → Trb
unfolding to_le_bytes
with_data_ptr trb phys = record trb { params = to_le_bytes 8 phys }

-- `set_transfer_length` does the same in place.
unfoldable pub with_length : Trb → ℕ → Trb
with_length trb len = record trb {
  status = bit_or (bit_and trb.status (2 ^ 32 - 1 - 0x1FFFF)) (bit_and len 0x1FFFF);
}

unfoldable pub with_flags : Trb → ℕ → Trb
with_flags trb flags = record trb { flags = bit_or trb.flags flags }

unfoldable pub trb_type : Trb → ℕ
trb_type trb = bit_and trb.flags (63 * type_unit) / type_unit

unfoldable pub completion_code : Trb → ℕ
completion_code trb = bit_and (trb.status / 2 ^ 24) 0xFF

unfoldable pub remaining : Trb → ℕ
remaining trb = bit_and trb.status 0xFFFFFF

-- The block with the cycle bit of its owner.
unfoldable pub stamp : Trb → ℕ → Trb
stamp trb cycle = record trb { flags = bit_or (bit_and trb.flags not_cycle) cycle }
