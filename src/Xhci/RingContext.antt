-- ===== src/Xhci/RingContext.antt =====
-- `ErstEntry` and `RingContext` of nitrogen/src/usb/xhci/ring.rs: the entry of the table of the event
-- ring's segments, and the allocation of the two rings of a controller.
use fullerene.Base.{ℕ, ◌/◌, ◌%◌, ◌^◌, Option, none, some}
use fullerene.Xhci.Ring
use fullerene.Xhci.Ring.{Ring}
use fullerene.Xhci.EventRing
use fullerene.Xhci.EventRing.{EventRing}

pub record ErstEntry : Type 0 where
  pub base_lo : ℕ
  pub base_hi : ℕ
  pub size : ℕ
  pub rsvd : ℕ

abbrev pub new_entry : ℕ → ℕ → ErstEntry
new_entry ring_phys segment_size = record {
  base_lo = ring_phys % 2 ^ 32;
  base_hi = ring_phys / 2 ^ 32 % 2 ^ 32;
  size = segment_size;
  rsvd = 0;
}

pub record RingContext : Type 0 where
  pub command : Ring
  pub event : EventRing

-- `alloc_dma` gives the address of zeroed memory for so many blocks, and `free_dma` takes it back.
module _ {C : Type 0} (alloc_dma : C → ℕ → Option ℕ × C) (free_dma : C → ℕ → C) where
  unfoldable pub alloc : C → ℕ → ℕ → Option RingContext × C
  unfolding Ring.alloc EventRing.alloc
  alloc ctx cmd_size evt_size =
      let (cmd_block, ctx1) = alloc_dma ctx cmd_size in
      let (evt_block, ctx2) = alloc_dma ctx1 evt_size in
      elim (Ring.alloc cmd_block cmd_size) [
        | none ↦ (none, ctx1)
        | some command ↦ elim (EventRing.alloc evt_block evt_size) [
          | none ↦ (none, free_dma ctx2 command.phys)
          | some event ↦ (some (record { command = command; event = event }), ctx2)
        ]
      ]
