-- ===== src/Xhci/Ring.antt =====
-- `Ring` of nitrogen/src/usb/xhci/ring.rs, the ring on which the driver gives work to the controller.
use fullerene.Base.{
  ℕ, ◌+◌, ◌-◌, ◌*◌, Option, none, some, List, get_or, set, replicate, if◌then◌else◌, leb, ltb,
  bit_or, bit_xor,
}
use fullerene.Xhci.{Trb, zeroed, stamp, link, type_unit, tc_flag, cycle_flag, to_le_bytes, trb_size}

pub record Ring : Type 0 where
  pub entries : List Trb
  pub phys : ℕ
  pub enq : ℕ
  pub cycle : ℕ
  pub len : ℕ

-- The link that closes a ring, from its last block to its first.
unfoldable pub link_trb : ℕ → Trb
unfolding to_le_bytes
link_trb phys = record {
  params = to_le_bytes 8 phys;
  status = 0;
  flags = bit_or (bit_or (link * type_unit) tc_flag) cycle_flag;
}

-- `block` is the address that `alloc_ring_slice` gives for zeroed memory of `n` blocks, if it does.
unfoldable pub alloc : Option ℕ → ℕ → Option Ring
unfolding link_trb
alloc none n = none
alloc (some phys) n =
    let entries = replicate n zeroed in
    some (record {
      entries = if ltb 1 n then set entries (n - 1) (link_trb phys) else entries;
      phys = phys;
      enq = 0;
      cycle = 1;
      len = n;
    })

unfoldable pub enqueue : Ring → Trb → Ring
unfolding stamp
enqueue r trb =
    let written = set r.entries r.enq (stamp trb r.cycle) in
    let last = r.len - 1 in
    let linked = set written last (stamp (get_or written last zeroed) r.cycle) in
    if leb (r.len - 1) (r.enq + 1)
    then record r { entries = linked; enq = 0; cycle = bit_xor r.cycle 1 }
    else record r { entries = written; enq = r.enq + 1 }

unfoldable pub enqueue_phys : Ring → ℕ
enqueue_phys r = r.phys + r.enq * trb_size

unfoldable pub capacity : Ring → ℕ
capacity r = r.len - 1
