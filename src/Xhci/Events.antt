-- ===== src/Xhci/Events.antt =====
-- The event ring with the controller at its other end: events are taken in order, each once.
use fullerene.Base.{
  ℕ, ◌+◌, ◌-◌, ◌%◌, ◌≤◌, ◌<◌, ◌≡◌, inl, inr, refl, ◌∙◌, sym, ap, Option, none, some, List, [], ◌∷◌,
  ◌++◌, length, length-set, set, get_or-set_self, get_or-set_ne, arith, leb, if◌then◌else◌,
  Bool-cases, bit_and,
}
use fullerene.Base.Bits.{bit_and-pow}
use fullerene.Xhci.{Trb, zeroed, stamp, cycle_flag}
use fullerene.Xhci.EventRing.{EventRing, has_pending, pop}
use fullerene.Xhci.Laps.{
  block, cycle_bit, IsLapped, outstanding, HasRoom, IsWritten, step-IsLapped, turn-IsLapped,
  step-outstanding, turn-outstanding, pending, idle, wrap,
}
use fullerene.Xhci.Transfer.{stamp-bit, flip}

-- The controller's end, by the xHCI specification: the place of its next event, and the cycle bit
-- that it writes.
pub record Reporter : Type 0 where
  pub enq : ℕ
  pub pcs : ℕ

-- The controller writes an event with its bit, and goes on to the next block or to the next lap.
pub report : EventRing → Reporter → Trb → EventRing × Reporter
unfolding stamp
report r p event =
    let r' : EventRing = record r { entries = set r.entries p.enq (stamp event p.pcs) } in
    let next : Reporter = record { enq = p.enq + 1; pcs = p.pcs } in
    let turned : Reporter = record { enq = 0; pcs = 1 - p.pcs } in
    if leb r.len (p.enq + 1) then (r', turned) else (r', next)

pub record IsEvents (r : EventRing) (p : Reporter) : Type 0 where
  pub sized : length r.entries ≡ r.len
  pub inside : r.deq < r.len
  pub bit_le : r.cycle ≤ 1
  pub lapped : IsLapped r.entries r.len p.enq p.pcs r.deq r.cycle

-- The events that the driver has yet to take.
abbrev pub reported : EventRing → Reporter → List Trb
reported r p = outstanding r.entries r.len p.enq p.pcs r.deq r.cycle

abbrev pub Pops : EventRing → Reporter → Option Trb × EventRing → Type 0
Pops r p (none, r') = (reported r p ≡ []) × (r' ≡ r)
Pops r p (some t, r') = (reported r p ≡ t ∷ reported r' p) × IsEvents r' p

cycle_is : (flags : ℕ) → bit_and flags cycle_flag ≡ flags % 2
cycle_is flags = bit_and-pow flags 0 ∙ omega arith

-- `pop` takes the first event that the controller has reported and the driver has not taken,
-- exactly if there is one, and the ring fits the controller as before; without one nothing changes.
-- The controller writes by the cycle bits, and may be up to a lap ahead.
pub pop-Pops : (r : EventRing) (p : Reporter) → IsEvents r p → Pops r p (pop r)
unfolding pop has_pending
pop-Pops r p v = elim (Bool-cases (has_pending r)) [
  | inr nothing ↦
      rw (pop, nothing)
        (
          idle r.entries r.len p.enq p.pcs r.deq r.cycle v.lapped v.inside
              (λ e. ground (arith, cycle_is (block r.entries r.deq).flags)),
          refl,
        )
  | inl some_event ↦
      let mine : cycle_bit r.entries r.deq ≡ r.cycle =
        ground (arith, cycle_is (block r.entries r.deq).flags) in
      let (next, l) = pending r.entries r.len p.enq p.pcs r.deq r.cycle v.lapped v.inside mine in
      elim (Bool-cases (leb r.len (r.deq + 1))) [
        | inr inner ↦
            rw (pop, some_event, inner)
              (
                next,
                record { sized = v.sized; inside = ground arith; bit_le = v.bit_le; lapped = l },
              )
        | inl at_end ↦
            let end : r.deq + 1 ≡ r.len = ground (arith, v.inside) in
            let (same, l') = wrap r.entries r.len p.enq p.pcs (r.deq + 1) r.cycle l end in
            rw (pop, some_event, at_end, flip r.cycle v.bit_le)
              (
                next ∙ ap (λ x. block r.entries r.deq ∷ x) same,
                record {
                  sized = v.sized;
                  inside = omega (arith, v.inside);
                  bit_le = omega arith;
                  lapped = l';
                },
              )
      ]
]

-- An event that the controller reports, where it has room, comes behind those that the driver
-- has yet to take, and the ring fits the controller as before.
pub reported-report :
    (r : EventRing) (p : Reporter) (event : Trb)
    → IsEvents r p
    → HasRoom p.enq p.pcs r.deq r.cycle
    → let (r', p') = report r p event in
      IsEvents r' p' × (reported r' p' ≡ reported r p ++ stamp event p.pcs ∷ [])
unfolding report
reported-report r p event v room =
    let x : Trb = stamp event p.pcs in
    let es : List Trb = set r.entries p.enq x in
    let l = v.lapped in
    let w : IsWritten r.entries es r.len p.enq p.pcs r.deq r.cycle x = record {
      here = get_or-set_self r.entries p.enq x zeroed (omega (arith, l.enq_in, v.sized));
      others = λ j h apart. get_or-set_ne r.entries p.enq j x zeroed (λ e. apart (sym e));
      bit = stamp-bit event p.pcs l.cycle_le;
    } in
    let size = length-set r.entries p.enq x ∙ v.sized in
    elim (Bool-cases (leb r.len (p.enq + 1))) [
      | inr inner ↦
          rw (report, inner)
            (
              record {
                sized = size;
                inside = v.inside;
                bit_le = v.bit_le;
                lapped =
                    step-IsLapped r.entries es r.len p.enq p.pcs r.deq r.cycle x l room w
                      (ground arith);
              },
              step-outstanding r.entries es r.len p.enq p.pcs r.deq r.cycle x l room w
                  (ground arith),
            )
      | inl at_end ↦
          let end : p.enq + 1 ≡ r.len = ground (arith, l.enq_in) in
          rw (report, at_end)
            (
              record {
                sized = size;
                inside = v.inside;
                bit_le = v.bit_le;
                lapped = turn-IsLapped r.entries es r.len p.enq p.pcs r.deq r.cycle x l room w end;
              },
              turn-outstanding r.entries es r.len p.enq p.pcs r.deq r.cycle x l room w end,
            )
    ]
