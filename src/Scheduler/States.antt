-- ===== src/Scheduler/States.antt =====
-- What `schedule_next` does to the states of the processes.
use fullerene.Base.{
  ℕ, zero, suc, ◌<◌, ◌≡◌, ◌≢◌, refl, ap, ◌⊎◌, inl, inr, Bool, true, false, none, some, List, [],
  ◌∷◌, if◌then◌else◌, ◌==◌, ==_true, ==_false, length, arith, ℕ_discrete, get_elem?, map,
}
use fullerene.Scheduler.{
  Entries, Scheduler, ProcessState, running, is_ready, is_running, ready_at, update_at, preempt,
  switch_to, schedule_next, current_index,
}
use fullerene.Scheduler.Choice.{schedule_next-Picks}

abbrev pub running_at : Entries → ℕ → Bool
running_at l i = elim (get_elem? l i) [ none ↦ false | some e ↦ is_running e.1.state ]

pub length-update_at :
    (l : Entries) (i : ℕ) (f : ProcessState → ProcessState) → length (update_at l i f) ≡ length l
unfolding update_at
length-update_at [] i f = refl
length-update_at (e ∷ l) zero f = refl
length-update_at (e ∷ l) (suc i) f = ap suc (length-update_at l i f)

-- The ids, in the order of the list.
abbrev pub ids : Entries → List ℕ
ids = map (λ e. e.0)

ids-update_at :
    (l : Entries) (i : ℕ) (f : ProcessState → ProcessState) → ids (update_at l i f) ≡ ids l
unfolding update_at
ids-update_at [] i f = refl
ids-update_at (e ∷ l) zero f = refl
ids-update_at (e ∷ l) (suc i) f = ap (λ t. e.0 ∷ t) (ids-update_at l i f)

pub ready_at-update_at_ne :
    (l : Entries) (i j : ℕ) (f : ProcessState → ProcessState)
    → i ≢ j
    → ready_at (update_at l i f) j ≡ ready_at l j
unfolding update_at ready_at
ready_at-update_at_ne [] i j f n = refl
ready_at-update_at_ne (e ∷ l) zero zero f n = absurd (n refl)
ready_at-update_at_ne (e ∷ l) zero (suc j) f n = refl
ready_at-update_at_ne (e ∷ l) (suc i) zero f n = refl
ready_at-update_at_ne (e ∷ l) (suc i) (suc j) f n =
    ready_at-update_at_ne l i j f (λ p. n (ap suc p))

-- Preemption leaves a ready process ready.
pub ready_at-preempt :
    (l : Entries) (i j : ℕ) → ready_at l j ≡ true → ready_at (update_at l i preempt) j ≡ true
unfolding update_at ready_at preempt is_ready
ready_at-preempt [] i j h = h
ready_at-preempt (e ∷ l) zero zero h = ground arith
ready_at-preempt (e ∷ l) zero (suc j) h = h
ready_at-preempt (e ∷ l) (suc i) zero h = h
ready_at-preempt (e ∷ l) (suc i) (suc j) h = ready_at-preempt l i j h

running_at-preempt :
    (l : Entries) (i j : ℕ)
    → running_at (update_at l i preempt) j ≡ (if i == j then false else running_at l j)
unfolding update_at preempt is_running
running_at-preempt [] i j = ground arith
running_at-preempt (e ∷ l) zero zero = ground arith
running_at-preempt (e ∷ l) zero (suc j) = ground arith
running_at-preempt (e ∷ l) (suc i) zero = ground arith
running_at-preempt (e ∷ l) (suc i) (suc j) = ground (arith, running_at-preempt l i j)

running_at-start :
    (l : Entries) (i j : ℕ)
    → running_at (update_at l i (λ _. running)) j ≡ true
    → (i ≡ j) ⊎ (running_at l j ≡ true)
unfolding update_at is_running
running_at-start [] i j h = inr h
running_at-start (e ∷ l) zero zero h = inl refl
running_at-start (e ∷ l) zero (suc j) h = inr h
running_at-start (e ∷ l) (suc i) zero h = inr h
running_at-start (e ∷ l) (suc i) (suc j) h = ground (arith, running_at-start l i j h)

-- No process but the one at index `i` is running.
abbrev pub RunningOnly : Entries → ℕ → Type 0
RunningOnly l i = (j : ℕ) → running_at l j ≡ true → j ≡ i

switch_to-RunningOnly :
    (s : Scheduler) (current next : ℕ)
    → RunningOnly s.processes current
    → RunningOnly (switch_to s current next).1.processes next
unfolding switch_to
switch_to-RunningOnly s current next only j h = elim (ℕ_discrete current next) [
  | yes e ↦ ground (arith, only j, ==_true current next e)
  | no n ↦ ground (
    arith,
    only j,
    ==_false current next n,
    running_at-start (update_at s.processes current preempt) next j,
    running_at-preempt s.processes current j,
  )
]

ids-switch_to :
    (s : Scheduler) (current next : ℕ)
    → ids (switch_to s current next).1.processes ≡ ids s.processes
unfolding switch_to
ids-switch_to s current next = ground (
  arith,
  ids-update_at (update_at s.processes current preempt) next (λ _. running),
  ids-update_at s.processes current preempt,
)

pub schedule_index-switch_to :
    (s : Scheduler) (current next : ℕ) → (switch_to s current next).1.schedule_index ≡ next
unfolding switch_to
schedule_index-switch_to s current next = refl

-- If at most the current process is running, then after `schedule_next` at most the process that
-- it has moved to is. The list keeps its ids, in their order.
pub schedule_next-RunningOnly :
    (s : Scheduler)
    → 0 < length s.processes
    → RunningOnly s.processes (current_index s)
    → let s' = (schedule_next s).1 in
      RunningOnly s'.processes s'.schedule_index × (ids s'.processes ≡ ids s.processes)
schedule_next-RunningOnly s p only =
    let (next, picks, lt, e) = schedule_next-Picks s p in
    rw (e, schedule_index-switch_to s (current_index s) next)
      (switch_to-RunningOnly s (current_index s) next only, ids-switch_to s (current_index s) next)
