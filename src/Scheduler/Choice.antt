-- ===== src/Scheduler/Choice.antt =====
-- Which process `schedule_next` picks: the first ready one after the current one, round robin.
use native.Mathlib.Nat.{mod-eq_of_lt, mod-eq-sub-mod}
use fullerene.Base.{
  ℕ, zero, suc, ◌+◌, ◌-◌, ◌%◌, ◌≤◌, ◌<◌, ◌≡◌, refl, sym, ◌∙◌, ap, subst, ◌⊎◌, inl, inr, Bool, true,
  false, some, [], ◌∷◌, if◌then◌else◌, ltb, ◌==◌, ==_iff, ==_true, ==_false, Bool-cases,
  Option-cases, length, arith, dec_lt, ℕ_discrete,
}
use fullerene.Scheduler.{
  Entries, Scheduler, Process, position, is_idle, ready_at, fallback, scan, switch_to,
  schedule_next, current_index,
}

-- The index `k` places after `start`, for at most one round.
pub wrap :
    (n start k : ℕ)
    → start < n
    → k ≤ n
    → (start + k) % n ≡ (if ltb (start + k) n then start + k else start + k - n)
wrap n start k p q = elim (dec_lt (start + k) n) [
  | yes h ↦ ground (arith, mod-eq_of_lt h)
  | no h ↦ ground (
    arith,
    mod-eq-sub-mod {n = start + k} {m = n} (omega arith),
    mod-eq_of_lt {n = start + k - n} {m = n} (omega arith),
  )
]

next_place : (n start k : ℕ) → start < n → k < n → ((start + k) % n + 1) % n ≡ (start + (k + 1)) % n
next_place n start k p q = ground (
  arith,
  wrap n start k p (omega arith),
  wrap n start (k + 1) p (omega arith),
  wrap n ((start + k) % n) 1 (ground (arith, wrap n start k p (omega arith))) (omega arith),
)

-- A round is over exactly after `n` places.
round_over : (n start k : ℕ) → start < n → 0 < k → k ≤ n → ((start + k) % n == start) ≡ (k == n)
round_over n start k p q r = ground (arith, wrap n start k p r)

-- No process is ready at the `k` places after `start`.
abbrev pub NoneReady : Entries → ℕ → ℕ → Type 0
NoneReady l start k = (j : ℕ) → 0 < j → j ≤ k → ready_at l ((start + j) % length l) ≡ false

-- `next` is the first ready process after `start`, in circular order; where none is ready it is
-- the idle process, or `start` itself if there is no idle process.
abbrev pub Picks : Entries → ℕ → ℕ → Type 0
Picks l start next =
    ((k : ℕ) × (0 < k)
      × (k ≤ length l)
      × (next ≡ (start + k) % length l)
      × (ready_at l next ≡ true)
      × NoneReady l start (k - 1))
    ⊎ (NoneReady l start (length l) × (next ≡ fallback l start))

NoneReady-suc :
    (l : Entries) (start k : ℕ)
    → NoneReady l start k
    → ready_at l ((start + (k + 1)) % length l) ≡ false
    → NoneReady l start (k + 1)
NoneReady-suc l start k before here j p q = elim (ℕ_discrete j (k + 1)) [
  | yes e ↦ subst (λ i. ready_at l ((start + i) % length l) ≡ false) (sym e) here
  | no n ↦ before j p (omega arith)
]

scan-Picks :
    (l : Entries) (start k fuel : ℕ)
    → start < length l
    → k + fuel ≡ length l
    → 0 < fuel
    → NoneReady l start k
    → (next : ℕ) × (scan l start ((start + k) % length l) fuel ≡ some next) × Picks l start next
unfolding scan
scan-Picks l start k zero p e q before = absurd (omega arith)
scan-Picks l start k (suc fuel) p e q before =
    rw (next_place (length l) start k p (omega arith)) (elim (Bool-cases (ready_at l here)) [
      | inl free ↦ (
        here,
        rw free,
        inl (
          k + 1,
          omega arith,
          omega arith,
          refl,
          free,
          subst (NoneReady l start) (omega arith) before,
        ),
      )
      | inr busy ↦ rw busy (elim (ℕ_discrete (k + 1) (length l)) [
        | yes last ↦
            let over : (here == start) ≡ true =
              round_over (length l) start (k + 1) p (omega arith) (omega arith)
              ∙ ==_true (k + 1) (length l) last in
            (
              fallback l here,
              rw over,
              inr (
                subst (NoneReady l start) last (NoneReady-suc l start k before busy),
                ap (fallback l) ((==_iff here start).0 over),
              ),
            )
        | no more ↦
            rw
              (round_over (length l) start (k + 1) p (omega arith) (omega arith)
                ∙ ==_false (k + 1) (length l) more)
              (scan-Picks l start (k + 1) fuel p (omega arith) (omega arith)
                (NoneReady-suc l start k before busy))
      ])
    ])
  where
    here : ℕ
    here = (start + (k + 1)) % length l

Picks-lt :
    (l : Entries) (start next : ℕ)
    → start < length l
    → Picks l start next
    → fallback l start < length l
    → next < length l
Picks-lt l start next p (inl (k, q, r, e, _, _)) f = ground (arith, wrap (length l) start k p r)
Picks-lt l start next p (inr (_, e)) f = omega arith

position-lt :
    (test : (ℕ × Process) → Bool) (l : Entries) (i : ℕ) → position test l ≡ some i → i < length l
unfolding position
position-lt test [] i e = cc
position-lt test (x ∷ l) i e = elim (Option-cases (position test l)) [
  | inl no_one ↦ ground (arith)
  | inr (j, at) ↦ ground (arith, position-lt test l j at)
]

fallback-lt : (l : Entries) (start : ℕ) → start < length l → fallback l start < length l
unfolding fallback
fallback-lt l start p = elim (Option-cases (position is_idle l)) [
  | inl no_one ↦ rw (no_one, fallback) p
  | inr (j, at) ↦ rw (at, fallback) (position-lt is_idle l j at)
]

pub current_index-lt :
    (s : Scheduler) → 0 < length s.processes → current_index s < length s.processes
current_index-lt s p = omega arith

no_step : (l : Entries) (i : ℕ) → i < length l → (i + 0) % length l ≡ i
no_step l i q = ground (arith, wrap (length l) i 0 q (omega arith))

-- On a process list that is not empty `schedule_next` ends its scan within one round, with the
-- first ready process after the current one in circular order or, where none is ready, with
-- `fallback`, and switches to that.
pub schedule_next-Picks :
    (s : Scheduler)
    → 0 < length s.processes
    → (next : ℕ) × Picks s.processes (current_index s) next
      × (next < length s.processes)
      × (schedule_next s ≡ switch_to s (current_index s) next)
unfolding schedule_next
schedule_next-Picks s p =
    let q : current_index s < length s.processes = current_index-lt s p in
    let (next, ran, picks) =
      scan-Picks s.processes (current_index s) 0 (length s.processes) q (omega arith) p
        (λ j u w. absurd (omega arith)) in
    (
      next,
      picks,
      Picks-lt s.processes (current_index s) next q picks
          (fallback-lt s.processes (current_index s) q),
      rw
          (
            ==_false (length s.processes) 0 (omega arith),
            ap (λ i. scan s.processes (current_index s) i (length s.processes))
                  (sym (no_step s.processes (current_index s) q))
                ∙ ran,
            schedule_next,
          )
          refl,
    )
