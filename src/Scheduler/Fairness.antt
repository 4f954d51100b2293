-- ===== src/Scheduler/Fairness.antt =====
-- Round robin is fair: a ready process waits for at most one round.
use native.Mathlib.Nat.{mod-add-mod}
use fullerene.Base.{
  ℕ, zero, suc, ◌+◌, ◌-◌, ◌%◌, ◌≤◌, ◌<◌, ◌≡◌, ◌≢◌, sym, ◌∙◌, ap, subst, inl, inr, true, length,
  arith, dec_lt, ℕ_discrete, min,
}
use fullerene.Scheduler.{
  Entries, Scheduler, running, ready_at, update_at, preempt, switch_to, schedule_next,
  current_index,
}
use fullerene.Scheduler.Choice.{schedule_next-Picks, wrap, Picks, current_index-lt}
use fullerene.Scheduler.States.{
  length-update_at, ready_at-update_at_ne, ready_at-preempt, schedule_index-switch_to,
}

-- The state after `m` calls of `schedule_next` in a row.
pub rounds : ℕ → Scheduler → Scheduler
rounds zero s = s
rounds (suc m) s = rounds m (schedule_next s).1

length-switch_to :
    (s : Scheduler) (current next : ℕ)
    → length (switch_to s current next).1.processes ≡ length s.processes
unfolding switch_to
length-switch_to s current next = ground (
  arith,
  length-update_at (update_at s.processes current preempt) next (λ _. running),
  length-update_at s.processes current preempt,
)

ready_at-switch_to :
    (s : Scheduler) (current next k : ℕ)
    → next ≢ k
    → ready_at s.processes k ≡ true
    → ready_at (switch_to s current next).1.processes k ≡ true
unfolding switch_to
ready_at-switch_to s current next k n h = ground (
  arith,
  ready_at-update_at_ne (update_at s.processes current preempt) next k (λ _. running) n,
  ready_at-preempt s.processes current k h,
)

-- A ready process stands at most as far ahead as the pick is from the current process.
not_past :
    (l : Entries) (start next d : ℕ)
    → 0 < d
    → d ≤ length l
    → ready_at l ((start + d) % length l) ≡ true
    → Picks l start next
    → (k : ℕ) × (0 < k) × (k ≤ d) × (next ≡ (start + k) % length l)
not_past l start next d p q h (inl (k, u, w, e, _, before)) = elim (dec_lt d k) [
  | yes far ↦ cc (before d p (omega arith))
  | no near ↦ (k, u, omega arith, e)
]
not_past l start next d p q h (inr (before, _)) = cc (before d p q)

-- Different places of one round are different indices.
places_differ :
    (n start j k : ℕ) → start < n → j < k → k ≤ n → 0 < j → (start + j) % n ≢ (start + k) % n
places_differ n start j k p q r u e =
    absurd (ground (arith, wrap n start j p (omega arith), wrap n start k p r))

-- The place of a waiting process, seen from the process picked `k` places on.
closer :
    (s : Scheduler) (next k d : ℕ)
    → next < length s.processes
    → k ≤ d
    → next ≡ (current_index s + k) % length s.processes
    → let s' = (switch_to s (current_index s) next).1 in
      (current_index s' + (d - k)) % length s'.processes
      ≡ (current_index s + d) % length s.processes
closer s next k d p q e =
    rw
      (length-switch_to s (current_index s) next, schedule_index-switch_to s (current_index s) next)
      (ap (λ (i : ℕ). (i + (d - k)) % length s.processes) (at ∙ e)
        ∙ mod-add-mod (current_index s + k) (length s.processes) (d - k)
        ∙ ap (λ (i : ℕ). i % length s.processes) (omega arith))
  where
    at : min next (length s.processes - 1) ≡ next
    at = omega arith

reaches :
    (bound : ℕ) (s : Scheduler) (d : ℕ)
    → 0 < d
    → d ≤ bound
    → d ≤ length s.processes
    → ready_at s.processes ((current_index s + d) % length s.processes) ≡ true
    → (m : ℕ) × (0 < m)
      × (m ≤ d)
      × ((rounds m s).schedule_index ≡ (current_index s + d) % length s.processes)
unfolding rounds
reaches zero s d p b q h = absurd (omega arith)
reaches (suc bound) s d p b q h =
    let (next, picks, lt, e) = schedule_next-Picks s (omega arith) in
    let (k, u, w, at) = not_past s.processes (current_index s) next d p q h picks in
    let s' = (switch_to s (current_index s) next).1 in
    let same = closer s next k d lt w at in
    elim (ℕ_discrete k d) [
      | yes now ↦ (
        1,
        omega arith,
        omega arith,
        ap (λ r. r.1.schedule_index) e
            ∙ schedule_index-switch_to s (current_index s) next
            ∙ at
            ∙ ap (λ i. (current_index s + i) % length s.processes) now,
      )
      | no later ↦
          let (m, m_pos, m_le, there) =
            reaches bound s' (d - k) (omega arith) (omega arith)
              (omega (arith, length-switch_to s (current_index s) next))
              (subst (λ i. ready_at s'.processes i ≡ true) (sym same)
                (ready_at-switch_to s (current_index s) next
                  ((current_index s + d) % length s.processes)
                  (λ meet.
                    places_differ (length s.processes) (current_index s) k d
                      (current_index-lt s (omega arith)) (omega arith) q u (sym at ∙ meet))
                  h)) in
          (
            suc m,
            omega arith,
            omega arith,
            ap (λ r. (rounds m r.1).schedule_index) e ∙ there ∙ same,
          )
    ]

-- If the process at index `k` is ready, then of the next calls of `schedule_next`, as many as
-- there are processes, one moves to it, however the states of the others stand.
pub schedule_next_fair :
    (s : Scheduler) (k : ℕ)
    → k < length s.processes
    → ready_at s.processes k ≡ true
    → (m : ℕ) × (0 < m) × (m ≤ length s.processes) × ((rounds m s).schedule_index ≡ k)
schedule_next_fair s k p h =
    let i = current_index s in
    let n = length s.processes in
    let q : i < n = current_index-lt s (omega arith) in
    elim (dec_lt i k) [
      | yes ahead ↦
          let there : (i + (k - i)) % n ≡ k = ground (arith, wrap n i (k - i) q (omega arith)) in
          let (m, m_pos, m_le, e) =
            reaches n s (k - i) (omega arith) (omega arith) (omega arith)
              (subst (λ j. ready_at s.processes j ≡ true) (sym there) h) in
          (m, m_pos, omega arith, e ∙ there)
      | no behind ↦
          let there : (i + (k + n - i)) % n ≡ k =
            ground (arith, wrap n i (k + n - i) q (omega arith)) in
          let (m, m_pos, m_le, e) =
            reaches n s (k + n - i) (omega arith) (omega arith) (omega arith)
              (subst (λ j. ready_at s.processes j ≡ true) (sym there) h) in
          (m, m_pos, omega arith, e ∙ there)
    ]
