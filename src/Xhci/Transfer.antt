-- ===== src/Xhci/Transfer.antt =====
-- The driver's ring with the controller at its other end: blocks arrive in order.
use fullerene.Base.{
  ℕ, zero, suc, ◌+◌, ◌-◌, ◌%◌, ◌≤◌, ◌<◌, ◌≡◌, ◌≢◌, inl, inr, refl, ◌∙◌, sym, true, not, Option,
  none, some, List, [], ◌∷◌, ◌++◌, length, length-set, length-replicate, set, get_or-set_self,
  get_or-set_ne, get_or-replicate, replicate, arith, ◌==◌, ==_true, leb, ltb-true, if◌then◌else◌,
  Bool-cases, bit_and, bit_or, bit_xor, ap, ◌/◌, ◌^◌,
}
use fullerene.Base.Bits.{bit_and_halves, bit_or_halves, bit_and_ones, bit_or-zero}
use fullerene.Xhci.{Trb, zeroed, stamp, not_cycle}
use fullerene.Xhci.Ring.{Ring, alloc, enqueue, link_trb}
use fullerene.Xhci.Laps.{
  block, cycle_bit, run, IsLapped, outstanding, HasRoom, IsWritten, step-IsLapped, turn-IsLapped,
  step-outstanding, turn-outstanding, pending, idle, wrap,
}

pub stamp-bit : (t : Trb) (cycle : ℕ) → cycle ≤ 1 → (stamp t cycle).flags % 2 ≡ cycle
unfolding stamp
stamp-bit t cycle h =
    omega (arith, bit_or_halves (bit_and t.flags not_cycle) cycle, bit_and_halves t.flags not_cycle)

pub flip : (cycle : ℕ) → cycle ≤ 1 → bit_xor cycle 1 ≡ 1 - cycle
flip zero h = refl
flip (suc zero) h = refl
flip (suc (suc n)) h = absurd (omega arith)

not_cycle-halves : (x : ℕ) → x < 2 ^ 32 → bit_and x not_cycle / 2 ≡ x / 2
not_cycle-halves x h =
    omega (arith, bit_and_halves x not_cycle, bit_and_ones 31 (x / 2) (omega arith))

-- On the ring a block has its parameters, its status and the bits of its flags but the lowest, and
-- there the driver's cycle bit.
abbrev pub IsStamped : Trb → ℕ → Trb → Type 0
IsStamped t cycle x =
    (x.params ≡ t.params)
    × (x.status ≡ t.status)
    × (x.flags / 2 ≡ t.flags / 2)
    × (x.flags % 2 ≡ cycle)

pub stamp-IsStamped :
    (t : Trb) (cycle : ℕ) → cycle ≤ 1 → t.flags < 2 ^ 32 → IsStamped t cycle (stamp t cycle)
unfolding stamp
stamp-IsStamped t cycle h small =
    let kept : ℕ = bit_and t.flags not_cycle in
    let high : bit_or kept cycle / 2 ≡ t.flags / 2 = omega (
      arith,
      bit_or_halves kept cycle,
      ap (bit_or (kept / 2)) (low_bit cycle h),
      bit_or-zero (kept / 2) (kept / 2) (omega arith),
      not_cycle-halves t.flags small,
    ) in
    (refl, refl, high, stamp-bit t cycle h)
  where
    low_bit : (c : ℕ) → c ≤ 1 → c / 2 ≡ 0
    low_bit c p = omega arith

-- The controller's end, by the xHCI specification: the place of its next block, and the cycle bit
-- that it expects.
pub record Controller : Type 0 where
  pub deq : ℕ
  pub ccs : ℕ

-- At the link the controller goes on to the first block and the next lap, if the link has its bit.
unfoldable pub follow : Ring → Controller → Option Controller
follow r c =
    let next : Controller = record { deq = 0; ccs = 1 - c.ccs } in
    if not (c.deq == r.len - 1)
    then some c
    else if cycle_bit r.entries c.deq == c.ccs
    then some next
    else none

-- The controller takes a block if that has its bit.
unfoldable pub take_block : Ring → Controller → Option (Trb × Controller)
unfolding follow
take_block r c = elim (follow r c) [
  | none ↦ none
  | some c' ↦
      if cycle_bit r.entries c'.deq == c'.ccs
      then some (block r.entries c'.deq, record c' { deq = c'.deq + 1 })
      else none
]

-- The ring and the controller fit each other.
pub record IsRing (r : Ring) (c : Controller) : Type 0 where
  pub sized : length r.entries ≡ r.len
  pub closed : 2 ≤ r.len
  pub lapped : IsLapped r.entries (r.len - 1) r.enq r.cycle c.deq c.ccs
  pub linked : r.cycle ≢ c.ccs → cycle_bit r.entries (r.len - 1) ≡ c.ccs

-- The blocks that the controller has yet to take.
abbrev pub waiting : Ring → Controller → List Trb
waiting r c = outstanding r.entries (r.len - 1) r.enq r.cycle c.deq c.ccs

-- `enqueue` on a ring with room keeps it fit for the controller, and puts the block, with the
-- cycle bit of the driver, behind those that wait.
pub waiting-enqueue :
    (r : Ring) (c : Controller) (trb : Trb)
    → IsRing r c
    → HasRoom r.enq r.cycle c.deq c.ccs
    → IsRing (enqueue r trb) c × (waiting (enqueue r trb) c ≡ waiting r c ++ stamp trb r.cycle ∷ [])
unfolding enqueue
waiting-enqueue r c trb v room =
    let x : Trb = stamp trb r.cycle in
    let last : ℕ = r.len - 1 in
    let written : List Trb = set r.entries r.enq x in
    let l = v.lapped in
    let bit = stamp-bit trb r.cycle l.cycle_le in
    let here : block written r.enq ≡ x =
      get_or-set_self r.entries r.enq x zeroed (omega (arith, l.enq_in, v.sized)) in
    let w : IsWritten r.entries written last r.enq r.cycle c.deq c.ccs x = record {
      here = here;
      others = λ j h apart. get_or-set_ne r.entries r.enq j x zeroed (λ e. apart (sym e));
      bit = bit;
    } in
    elim (Bool-cases (leb (r.len - 1) (r.enq + 1))) [
      | inr inner ↦
          rw (enqueue, inner)
            (
              record {
                sized = length-set r.entries r.enq x ∙ v.sized;
                closed = v.closed;
                lapped =
                    step-IsLapped r.entries written last r.enq r.cycle c.deq c.ccs x l room w
                      (ground arith);
                linked = λ apart.
                    rw (get_or-set_ne r.entries r.enq last x zeroed (λ e. omega (arith, l.enq_in)))
                      (v.linked apart);
              },
              step-outstanding r.entries written last r.enq r.cycle c.deq c.ccs x l room w
                  (ground arith),
            )
      | inl at_end ↦
          let y : Trb = stamp (block written last) r.cycle in
          let turned : List Trb = set written last y in
          let w' : IsWritten r.entries turned last r.enq r.cycle c.deq c.ccs x = record {
            here = get_or-set_ne written last r.enq y zeroed (λ e. omega (arith, l.enq_in)) ∙ here;
            others = λ j h apart.
                get_or-set_ne written last j y zeroed (λ e. omega arith)
                ∙ get_or-set_ne r.entries r.enq j x zeroed (λ e. apart (sym e));
            bit = bit;
          } in
          let end : r.enq + 1 ≡ last = ground (arith, l.enq_in) in
          rw (enqueue, at_end, flip r.cycle l.cycle_le)
            (
              record {
                sized = length-set written last y ∙ length-set r.entries r.enq x ∙ v.sized;
                closed = v.closed;
                lapped =
                    turn-IsLapped r.entries turned last r.enq r.cycle c.deq c.ccs x l room w' end;
                linked = λ apart.
                    let size = length-set r.entries r.enq x ∙ v.sized in
                    let same : r.cycle ≡ c.ccs = elim l.lap [
                      | inl s ↦ s.0
                      | inr o ↦ absurd (apart (omega (arith, o.0)))
                    ] in
                    rw (get_or-set_self written last y zeroed (omega (arith, size, v.closed)))
                      (stamp-bit (block written last) r.cycle l.cycle_le ∙ same);
              },
              turn-outstanding r.entries turned last r.enq r.cycle c.deq c.ccs x l room w' end,
            )
    ]

-- What a step of the controller promises.
abbrev pub Takes : Ring → Controller → Option (Trb × Controller) → Type 0
Takes r c none = waiting r c ≡ []
Takes r c (some (t, c')) = (waiting r c ≡ t ∷ waiting r c') × IsRing r c'

Takes-same :
    (r : Ring) (c c' : Controller) (o : Option (Trb × Controller))
    → waiting r c ≡ waiting r c'
    → Takes r c' o
    → Takes r c o
Takes-same r c c' none same h = same ∙ h
Takes-same r c c' (some (t, c1)) same h = (same ∙ h.0, h.1)

took :
    (r : Ring) (c : Controller)
    → IsRing r c
    → c.deq < r.len - 1
    → Takes r c (
        if cycle_bit r.entries c.deq == c.ccs
        then some (block r.entries c.deq, record c { deq = c.deq + 1 })
        else none)
took r c v inside = elim (Bool-cases (cycle_bit r.entries c.deq == c.ccs)) [
  | inl mine ↦
      let (next, l) =
        pending r.entries (r.len - 1) r.enq r.cycle c.deq c.ccs v.lapped inside (ground arith) in
      rw mine (next, record { sized = v.sized; closed = v.closed; lapped = l; linked = v.linked })
  | inr other ↦
      rw other
        (idle r.entries (r.len - 1) r.enq r.cycle c.deq c.ccs v.lapped inside (λ e. ground arith))
]

-- A controller that reads by the cycle bits takes the first of the waiting blocks, exactly if
-- there is one, and the ring fits it as before. In particular it never stops at the link.
pub take_block-Takes : (r : Ring) (c : Controller) → IsRing r c → Takes r c (take_block r c)
unfolding take_block follow
take_block-Takes r c v = elim (Bool-cases (c.deq == r.len - 1)) [
  | inr inner ↦
      let inside : c.deq < r.len - 1 = elim v.lapped.lap [
        | inl same ↦ omega (arith, same, v.lapped.enq_in)
        | inr other ↦ ground (arith, other.2)
      ] in
      rw (take_block, inner) (took r c v inside)
  | inl at_link ↦
      let end : c.deq ≡ r.len - 1 = ground arith in
      let ahead : r.cycle ≢ c.ccs = λ e. elim v.lapped.lap [
        | inl same ↦ omega (arith, same, v.lapped.enq_in)
        | inr other ↦ omega (arith, other.0, e)
      ] in
      let mine : (cycle_bit r.entries c.deq == c.ccs) ≡ true =
        ==_true (cycle_bit r.entries c.deq) c.ccs (rw end (v.linked ahead)) in
      let c' : Controller = record { deq = 0; ccs = 1 - c.ccs } in
      let (same, l) = wrap r.entries (r.len - 1) r.enq r.cycle c.deq c.ccs v.lapped end in
      let v' : IsRing r c' = record {
        sized = v.sized;
        closed = v.closed;
        lapped = l;
        linked = λ apart. absurd (
            apart elim v.lapped.lap [
              | inl e ↦ absurd (ahead e.0)
              | inr other ↦ omega (arith, other.0)
            ]);
      } in
      rw (take_block, at_link, mine)
        (Takes-same r c c'
          (if cycle_bit r.entries 0 == 1 - c.ccs
            then some (block r.entries 0, record c' { deq = 1 })
            else none)
          same (took r c' v' (omega (arith, v.closed))))
]

-- A new ring of two blocks or more fits a controller that starts at its first block and expects
-- the bit 1, and nothing waits on it.
pub alloc-IsRing :
    (phys n : ℕ)
    → 2 ≤ n
    → (r : Ring) × (alloc (some phys) n ≡ some r)
      × IsRing r (record { deq = 0; ccs = 1 })
      × (waiting r (record { deq = 0; ccs = 1 }) ≡ [])
unfolding alloc outstanding run
alloc-IsRing phys n h =
    let blank : List Trb = replicate n zeroed in
    let es : List Trb = set blank (n - 1) (link_trb phys) in
    let r : Ring = record { entries = es; phys = phys; enq = 0; cycle = 1; len = n } in
    (
      r,
      rw (ltb-true 1 n (omega arith)) refl,
      record {
        sized = length-set blank (n - 1) (link_trb phys) ∙ length-replicate n zeroed;
        closed = h;
        lapped = record {
          below = λ j q. absurd (omega arith);
          above = λ j low q.
              rw
                (
                  get_or-set_ne blank (n - 1) j (link_trb phys) zeroed (λ e. omega arith),
                  get_or-replicate n j zeroed,
                )
                refl;
          cycle_le = omega arith;
          enq_in = omega arith;
          lap = inl (refl, omega arith);
        };
        linked = λ apart. absurd (apart refl);
      },
      refl,
    )
