-- ===== src/Scheduler/Calls.antt =====
-- Adding a process, and giving up the processor.
use fullerene.Base.{
  ℕ, ◌+◌, ◌≤◌, ◌<◌, ◌≡◌, ◌≢◌, refl, ◌∙◌, subst, Option, none, some, [], ◌∷◌, ◌++◌, if◌then◌else◌,
  leb, ◌==◌, ==_false, Bool-cases, inl, inr, length, arith, length-append, ℕ_discrete,
}
use fullerene.Scheduler.{
  Entries, Scheduler, Process, blocked, SystemError, position, find, modify, set_state, add,
  switch_to, current_index, block_current, request, pid_at, max_processes,
}
use fullerene.Scheduler.Choice.{Picks, schedule_next-Picks}

find-append :
    (q : ℕ) (p : Process) (l : Entries)
    → find q (l ++ (p.id, p) ∷ [])
      ≡ elim (find q l) [ none ↦ (if p.id == q then some p else none) | some other ↦ some other ]
unfolding find
find-append q p [] = ground arith
find-append q p ((id, x) ∷ l) = ground (arith, find-append q p l)

position_of_absent :
    (pid : ℕ) (l : Entries) → find pid l ≡ none → position (λ e. e.0 == pid) l ≡ none
unfolding find position
position_of_absent pid [] h = refl
position_of_absent pid ((id, x) ∷ l) h = ground (arith, position_of_absent pid l)

-- What `add` promises for a process whose id is not in the list.
abbrev pub Adds : Scheduler → Process → Option SystemError × Scheduler → Type 0
Adds s p (some e, s') = (max_processes ≤ length s.processes) × (s' ≡ s)
Adds s p (none, s') =
    (length s.processes < max_processes)
    × (length s'.processes ≡ length s.processes + 1)
    × ((q : ℕ) → find q s'.processes ≡ (if p.id == q then some p else find q s.processes))

-- A process with a new id is refused exactly if there are 64 processes already, and then nothing
-- changes; else it is found under its id, every other id finds what it found before, and the list
-- is one longer.
pub add-Adds : (s : Scheduler) (p : Process) → find p.id s.processes ≡ none → Adds s p (add s p)
unfolding add
add-Adds s p new_id =
    rw (position_of_absent p.id s.processes new_id)
      (elim (Bool-cases (leb max_processes (length s.processes))) [
        | inl full ↦ rw full (ground arith, refl)
        | inr room ↦ rw room (
          ground arith,
          omega (arith, length-append {0} s.processes ((p.id, p) ∷ [])),
          λ q. find-append q p s.processes ∙ found q,
        )
      ])
  where
    found :
        (q : ℕ)
        → (elim (find q s.processes) [
          | none ↦ (if p.id == q then some p else none)
          | some other ↦ some other
        ])
          ≡ (if p.id == q then some p else find q s.processes)
    found q = elim (ℕ_discrete p.id q) [
      | yes e ↦
          let absent : find q s.processes ≡ none =
            subst (λ k. find k s.processes ≡ none) e new_id in
          ground arith
      | no n ↦ ground arith
    ]

length-modify : (pid : ℕ) (f : Process → Process) (l : Entries) → length (modify pid f l) ≡ length l
unfolding modify
length-modify pid f [] = refl
length-modify pid f ((id, p) ∷ l) = ground (arith, length-modify pid f l)

-- The scheduler with the current process marked blocked.
abbrev pub parked : Scheduler → Scheduler
parked s = record s { processes = modify s.current_pid (set_state blocked) s.processes }

-- With a current process and a list that is not empty, `block_current` marks that process blocked
-- and moves on as `schedule_next` does on the list so changed; it asks for a context switch,
-- from the id at the old index to the new id, exactly if these differ.
pub block_current-Picks :
    (s : Scheduler)
    → s.current_pid ≢ 0
    → 0 < length s.processes
    → let t = parked s in
      let old = pid_at t.processes (current_index t) in
      (next : ℕ) × Picks t.processes (current_index t) next
      × (block_current s ≡ (
        (if old == pid_at t.processes next then none else some (old, pid_at t.processes next)),
        (switch_to t (current_index t) next).1,
      ))
unfolding block_current request switch_to
block_current-Picks s p q =
    let t : Scheduler = parked s in
    let (next, picks, lt, e) =
      schedule_next-Picks t
        (omega (arith, length-modify s.current_pid (set_state blocked) s.processes)) in
    (next, picks, rw (==_false s.current_pid 0 p, e))
