-- ===== src/Xhci/Laps.antt =====
-- Producer and consumer of a ring, told apart by the cycle bits of its blocks.
use fullerene.Base.{
  ℕ, zero, suc, ◌+◌, ◌-◌, ◌%◌, ◌≤◌, ◌<◌, ◌≡◌, ◌≢◌, ◌⊎◌, inl, inr, refl, ◌∙◌, sym, ap, List, [], ◌∷◌,
  ◌++◌, get_or, arith, ◌==◌, ==_true, ==_false, dec_lt, if◌then◌else◌,
}
use fullerene.Xhci.{Trb, zeroed}

abbrev pub block : List Trb → ℕ → Trb
block es j = get_or es j zeroed

abbrev pub cycle_bit : List Trb → ℕ → ℕ
cycle_bit es j = (block es j).flags % 2

-- `n` blocks from `i` on.
unfoldable pub run : List Trb → ℕ → ℕ → List Trb
run es zero i = []
run es (suc n) i = block es i ∷ run es n (i + 1)

run-same :
    (f g : List Trb) (n i : ℕ)
    → ((j : ℕ) → i ≤ j → j < i + n → block f j ≡ block g j)
    → run f n i ≡ run g n i
unfolding run
run-same f g zero i same = refl
run-same f g (suc n) i same = rw (same i (omega arith) (omega arith)) (
    ap (λ x. block g i ∷ x)
      (run-same f g n (i + 1) (λ j low high. same j (omega arith) (omega arith))))

run-last : (es : List Trb) (n i : ℕ) → run es (n + 1) i ≡ run es n i ++ block es (i + n) ∷ []
unfolding run
run-last es zero i = let e : i + 0 ≡ i = omega arith in rw e refl
run-last es (suc n) i =
    let e : i + suc n ≡ i + 1 + n = omega arith in
    let s : suc n + 1 ≡ suc (n + 1) = omega arith in
    rw (e, s) (ap (λ x. block es i ∷ x) (run-last es n (i + 1)))

append_assoc : (a b c : List Trb) → (a ++ b) ++ c ≡ a ++ (b ++ c)
append_assoc [] b c = refl
append_assoc (x ∷ a) b c = ap (λ l. x ∷ l) (append_assoc a b c)

append_nil : (a : List Trb) → a ++ [] ≡ a
append_nil [] = refl
append_nil (x ∷ a) = ap (λ l. x ∷ l) (append_nil a)

-- A producer at `enq` with the cycle bit `cyc`, and a consumer at `deq` that expects the bit `ccs`,
-- on a ring of `n` blocks: the consumer is behind the producer in the same lap, or in the lap
-- before it.
pub record IsLapped (es : List Trb) (n enq cyc deq ccs : ℕ) : Type 0 where
  pub below : (j : ℕ) → j < enq → cycle_bit es j ≡ cyc
  pub above : (j : ℕ) → enq ≤ j → j < n → cycle_bit es j ≡ 1 - cyc
  pub cycle_le : cyc ≤ 1
  pub enq_in : enq < n
  pub lap : ((cyc ≡ ccs) × (deq ≤ enq)) ⊎ ((cyc + ccs ≡ 1) × (enq ≤ deq) × (deq ≤ n))

-- The blocks between consumer and producer.
unfoldable pub outstanding : List Trb → ℕ → ℕ → ℕ → ℕ → ℕ → List Trb
unfolding run
outstanding es n enq cyc deq ccs =
    if cyc == ccs then run es (enq - deq) deq else run es (n - deq) deq ++ run es enq 0

-- There is room for a block: in the next lap the producer does not reach the consumer.
abbrev pub HasRoom : ℕ → ℕ → ℕ → ℕ → Type 0
HasRoom enq cyc deq ccs = (cyc ≡ ccs) ⊎ (enq + 1 < deq)

module _ (es es' : List Trb) (n enq cyc deq ccs : ℕ) (x : Trb) where
  -- The block is written where the producer is.
  pub record IsWritten : Type 0 where
    pub here : block es' enq ≡ x
    pub others : (j : ℕ) → j < n → j ≢ enq → block es' j ≡ block es j
    pub bit : x.flags % 2 ≡ cyc

  module _ (l : IsLapped es n enq cyc deq ccs) (room : HasRoom enq cyc deq ccs)
      (w : IsWritten) where
    written_bits :
        ((j : ℕ) → j < enq + 1 → cycle_bit es' j ≡ cyc)
        × ((j : ℕ) → enq + 1 ≤ j → j < n → cycle_bit es' j ≡ 1 - cyc)
    written_bits = (
      λ j h. elim (dec_lt j enq) [
        | yes low ↦ rw (w.others j (omega (arith, l.enq_in)) (λ e. omega arith)) (l.below j low)
        | no high ↦ let same : j ≡ enq = omega arith in rw (same, w.here) w.bit
      ],
      λ j h q. rw (w.others j q (λ e. omega arith)) (l.above j (omega arith) q),
    )

    -- The producer goes on to the next block.
    pub step-IsLapped : enq + 1 < n → IsLapped es' n (enq + 1) cyc deq ccs
    step-IsLapped next = record {
      below = written_bits.0;
      above = written_bits.1;
      cycle_le = l.cycle_le;
      enq_in = next;
      lap = elim l.lap [
        | inl same ↦ inl (same.0, omega (arith, same.1))
        | inr other ↦ inr (
          other.0,
          elim room [ inl e ↦ absurd (omega (arith, other.0, e)) | inr r ↦ omega arith ],
          other.2,
        )
      ];
    }

    -- The producer goes on to the first block, and to the next lap.
    pub turn-IsLapped : enq + 1 ≡ n → IsLapped es' n 0 (1 - cyc) deq ccs
    turn-IsLapped last = record {
      below = λ j h. absurd (omega arith);
      above = λ j h q. let bit = written_bits.0 j (omega arith) in omega (arith, bit, l.cycle_le);
      cycle_le = omega arith;
      enq_in = omega (arith, l.enq_in);
      lap = elim l.lap [
        | inl same ↦ inr (omega (arith, same, l.cycle_le), omega arith, omega (arith, same))
        | inr other ↦ elim room [
          | inl e ↦ absurd (omega (arith, other.0, e))
          | inr r ↦ absurd (omega (arith, other.2))
        ]
      ];
    }

    before : (k i : ℕ) → i + k ≤ enq → run es' k i ≡ run es k i
    before k i h =
        run-same es' es k i (λ j low high. w.others j (omega (arith, l.enq_in)) (λ e. omega arith))

    -- The blocks of the producer's lap, with the one that is written.
    longer : (i : ℕ) → i ≤ enq → run es' (enq + 1 - i) i ≡ run es (enq - i) i ++ x ∷ []
    longer i h =
        let count : enq + 1 - i ≡ enq - i + 1 = omega arith in
        let end : i + (enq - i) ≡ enq = omega arith in
        rw count
          (run-last es' (enq - i) i ∙ rw (before (enq - i) i (omega arith), end, w.here) refl)

    pub step-outstanding :
        enq + 1 < n
        → outstanding es' n (enq + 1) cyc deq ccs ≡ outstanding es n enq cyc deq ccs ++ x ∷ []
    unfolding outstanding
    step-outstanding next = elim l.lap [
      | inl same ↦ rw (outstanding, ==_true cyc ccs same.0) (longer deq same.1)
      | inr other ↦
          let apart : cyc ≢ ccs = λ e. omega (arith, other.0) in
          let far : enq < deq = elim room [ inl e ↦ absurd (apart e) | inr r ↦ omega arith ] in
          let tail =
            run-same es' es (n - deq) deq
              (λ j low high. w.others j (omega (arith, other.2)) (λ e. omega arith)) in
          let new_end : enq + 1 - 0 ≡ enq + 1 = omega arith in
          let old_end : enq - 0 ≡ enq = omega arith in
          let long : run es' (enq + 1 - 0) 0 ≡ run es (enq - 0) 0 ++ x ∷ [] =
            longer 0 (omega arith) in
          rw (outstanding, ==_false cyc ccs apart, tail, rw (new_end, old_end) at long)
            (sym (append_assoc (run es (n - deq) deq) (run es enq 0) (x ∷ [])))
    ]

    pub turn-outstanding :
        enq + 1 ≡ n
        → outstanding es' n 0 (1 - cyc) deq ccs ≡ outstanding es n enq cyc deq ccs ++ x ∷ []
    unfolding outstanding run
    turn-outstanding last = elim l.lap [
      | inl same ↦
          let apart : 1 - cyc ≢ ccs = λ e. omega (arith, same.0, l.cycle_le) in
          rw (outstanding, ==_true cyc ccs same.0, ==_false (1 - cyc) ccs apart, sym last)
            (append_nil (run es' (enq + 1 - deq) deq) ∙ longer deq same.1)
      | inr other ↦ elim room [
        | inl e ↦ absurd (omega (arith, other.0, e))
        | inr r ↦ absurd (omega (arith, other.2))
      ]
    ]

module _ (es : List Trb) (n enq cyc deq ccs : ℕ) (l : IsLapped es n enq cyc deq ccs) where
  -- The consumer finds its bit exactly if a block is outstanding, and that is the first.
  pub pending :
      deq < n
      → cycle_bit es deq ≡ ccs
      → (outstanding es n enq cyc deq ccs ≡ block es deq ∷ outstanding es n enq cyc (deq + 1) ccs)
        × IsLapped es n enq cyc (deq + 1) ccs
  unfolding outstanding run
  pending inside mine = elim l.lap [
    | inl same ↦
        let more : deq < enq = elim (dec_lt deq enq) [
          | yes low ↦ low
          | no high ↦
              let bit = l.above deq (omega arith) inside in
              absurd (omega (arith, bit, mine, same.0, l.cycle_le))
        ] in
        let count : enq - deq ≡ suc (enq - (deq + 1)) = omega arith in
        (
          rw (outstanding, ==_true cyc ccs same.0, count) refl,
          record {
            below = l.below;
            above = l.above;
            cycle_le = l.cycle_le;
            enq_in = l.enq_in;
            lap = inl (same.0, omega arith);
          },
        )
    | inr other ↦
        let apart : cyc ≢ ccs = λ e. omega (arith, other.0) in
        let count : n - deq ≡ suc (n - (deq + 1)) = omega arith in
        (
          rw (outstanding, ==_false cyc ccs apart, count) refl,
          record {
            below = l.below;
            above = l.above;
            cycle_le = l.cycle_le;
            enq_in = l.enq_in;
            lap = inr (other.0, omega (arith, other.1), omega arith);
          },
        )
  ]

  pub idle : deq < n → cycle_bit es deq ≢ ccs → outstanding es n enq cyc deq ccs ≡ []
  unfolding outstanding run
  idle inside other_bit = elim l.lap [
    | inl same ↦ elim (dec_lt deq enq) [
      | yes low ↦ absurd (other_bit (l.below deq low ∙ same.0))
      | no high ↦
          let none : enq - deq ≡ 0 = omega (arith, same.1) in
          rw (outstanding, ==_true cyc ccs same.0, none) refl
    ]
    | inr other ↦
        let bit = l.above deq other.1 inside in absurd (other_bit (omega (arith, bit, other.0)))
  ]

  -- Behind the last block the consumer goes on to the first, and to the next lap.
  pub wrap :
      deq ≡ n
      → (outstanding es n enq cyc deq ccs ≡ outstanding es n enq cyc 0 (1 - ccs))
        × IsLapped es n enq cyc 0 (1 - ccs)
  unfolding outstanding run
  wrap end = elim l.lap [
    | inl same ↦ absurd (omega (arith, same.1, l.enq_in))
    | inr other ↦
        let apart : cyc ≢ ccs = λ e. omega (arith, other.0) in
        let meets : cyc ≡ 1 - ccs = omega (arith, other.0) in
        let none : n - deq ≡ 0 = omega arith in
        let all : enq - 0 ≡ enq = omega arith in
        (
          rw (outstanding, ==_false cyc ccs apart, ==_true cyc (1 - ccs) meets, none, all) refl,
          record {
            below = l.below;
            above = l.above;
            cycle_le = l.cycle_le;
            enq_in = l.enq_in;
            lap = inl (meets, omega arith);
          },
        )
  ]
