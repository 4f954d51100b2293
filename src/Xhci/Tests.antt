-- ===== src/Xhci/Tests.antt =====
-- Runs of the rings, and their theorems at concrete rings.
use fullerene.Base.{
  ℕ, zero, suc, ◌-◌, ◌≡◌, ◌<◌, inl, refl, some, [], ◌∷◌, get_or, ◌%◌, arith, bit_and,
}
use fullerene.Xhci.{
  Trb, zeroed, new, with_length, with_flags, with_data_ptr, trb_type, completion_code, stamp,
  to_le_bytes,
}
use fullerene.Xhci.Ring.{Ring, enqueue, link_trb}
use fullerene.Xhci.EventRing.{EventRing, pop}
use fullerene.Xhci.Transfer.{Controller, take_block, follow}
use fullerene.Xhci.Events.{Reporter, IsEvents, Pops, report, pop-Pops, reported-report}

-- The unit tests of the source.
test_trb_new : (bit_and (new 1 1).flags 1 ≡ 1) × (trb_type (new 1 1) ≡ 1)
unfolding new trb_type
test_trb_new = (refl, refl)

test_trb_set_data_ptr :
    (with_data_ptr (new 1 1) 0xDEADBEEFCAFEBABE).params
    ≡ 0xBE ∷ 0xBA ∷ 0xFE ∷ 0xCA ∷ 0xEF ∷ 0xBE ∷ 0xAD ∷ 0xDE ∷ []
unfolding with_data_ptr to_le_bytes new
test_trb_set_data_ptr = refl

test_trb_completion_code : completion_code (record (new 1 1) { status = 0x01000000 }) ≡ 1
unfolding new completion_code
test_trb_completion_code = refl

test_trb_with_flags : bit_and (with_flags (new 1 1) 32).flags 32 ≡ 32
unfolding new with_flags
test_trb_with_flags = refl

test_trb_with_length : bit_and (with_length (new 1 1) 1024).status 0x1FFFF ≡ 1024
unfolding new with_length
test_trb_with_length = refl

-- A ring of three blocks, the last of which is the link.
abbrev ring : Ring
ring = record {
  entries = zeroed ∷ zeroed ∷ link_trb 4096 ∷ [];
  phys = 4096;
  enq = 0;
  cycle = 1;
  len = 3;
}

abbrev controller : Controller
controller = record { deq = 0; ccs = 1 }

abbrev work : Trb
work = new 1 0

-- Two blocks are given, and the first is taken.
first_block_taken :
    let one = enqueue (enqueue ring work) work in
    take_block one controller ≡ some (stamp work 1, record { deq = 1; ccs = 1 })
unfolding enqueue new take_block follow stamp
first_block_taken = refl

-- An event ring of two blocks.
abbrev events : EventRing
events = record { entries = zeroed ∷ zeroed ∷ []; phys = 8192; deq = 0; cycle = 1; len = 2 }

abbrev reporter : Reporter
reporter = record { enq = 0; pcs = 1 }

events-IsEvents : IsEvents events reporter
events-IsEvents = record {
  sized = refl;
  inside = omega arith;
  bit_le = omega arith;
  lapped = record {
    below = λ j h. absurd (omega arith);
    above = λ j low h. above j h;
    cycle_le = omega arith;
    enq_in = omega arith;
    lap = inl (refl, omega arith);
  };
}
  where
    above : (j : ℕ) → j < 2 → (get_or events.entries j zeroed).flags % 2 ≡ 1 - 1
    above zero h = refl
    above (suc zero) h = refl
    above (suc (suc j)) h = absurd (omega arith)

abbrev after : EventRing × Reporter
after = report events reporter work

after-IsEvents : IsEvents after.0 after.1
after-IsEvents = (reported-report events reporter work events-IsEvents (inl refl)).0

pop-Pops_example : Pops after.0 after.1 (pop after.0)
pop-Pops_example = pop-Pops after.0 after.1 after-IsEvents
