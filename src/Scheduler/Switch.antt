-- ===== src/Scheduler/Switch.antt =====
-- What `schedule_next` leaves behind: the two processes that it switches between, and the idle
-- process where none is ready.
use text.Mathlib.Text.{◌==◌ as str_eq}
use mathlib.Core.Option
use fullerene.Base.{
  ℕ, zero, suc, ◌+◌, ◌-◌, ◌%◌, ◌≤◌, ◌<◌, ◌≡◌, ◌≢◌, refl, sym, ◌∙◌, ap, subst, ◌⊎◌, inl, inr, true,
  false, none, some, [], ◌∷◌, ==_true, ==_false, Bool-cases, Option-cases, length, get_elem?, arith,
}
use fullerene.Scheduler.{
  Entries, Scheduler, Process, ProcessState, ready, running, blocked, terminated, position, is_idle,
  ready_at, fallback, switch_to, schedule_next, current_index, update_at, preempt, pid_at,
}
use fullerene.Scheduler.Choice.{Picks, NoneReady, current_index-lt, schedule_next-Picks}

-- The process at the index has the name "idle".
abbrev pub IdleAt : Entries → ℕ → Type 0
IdleAt l i = (e : ℕ × Process) × (get_elem? l i ≡ some e) × (str_eq e.1.name "idle" ≡ true)

-- Where no process is ready, `next` is the first with the name "idle", or `start` if none has it.
abbrev pub GoesIdle : Entries → ℕ → ℕ → Type 0
GoesIdle l start next =
    (IdleAt l next × ((j : ℕ) → j < next → ¬ IdleAt l j))
    ⊎ (((j : ℕ) → ¬ IdleAt l j) × (next ≡ start))

-- `next` is the first ready process after `start` in circular order, at most one round on; where
-- none is ready, it is the one to idle in.
abbrev pub Chooses : Entries → ℕ → ℕ → Type 0
Chooses l start next =
    ((k : ℕ) × (0 < k)
      × (k ≤ length l)
      × (next ≡ (start + k) % length l)
      × (ready_at l next ≡ true)
      × NoneReady l start (k - 1))
    ⊎ (NoneReady l start (length l) × GoesIdle l start next)

no_idle : (l : Entries) → position is_idle l ≡ none → (j : ℕ) → ¬ IdleAt l j
unfolding position is_idle
no_idle [] e j (x, at, _) = cc
no_idle (x ∷ l) e zero (y, at, named) = ground arith
no_idle (x ∷ l) e (suc j) h = elim (Option-cases (position is_idle l)) [
  | inl nobody ↦ no_idle l nobody j h
  | inr (i, at) ↦ absurd (ground arith)
]

first_idle :
    (l : Entries) (i : ℕ)
    → position is_idle l ≡ some i
    → IdleAt l i × ((j : ℕ) → j < i → ¬ IdleAt l j)
unfolding position is_idle
first_idle [] i e = cc
first_idle (x ∷ l) i e = elim (Bool-cases (str_eq x.1.name "idle")) [
  | inl here ↦ rw (sym (zero_first here)) ((x, refl, here), λ j p. absurd (omega arith))
  | inr other ↦ elim (Option-cases (position is_idle l)) [
    | inl nobody ↦ absurd (ground arith)
    | inr (m, at) ↦
        let (named, before) = first_idle l m at in
        let same : suc m ≡ i = ground arith in rw (sym same) (named, earlier m other before)
  ]
]
  where
    zero_first : str_eq x.1.name "idle" ≡ true → 0 ≡ i
    zero_first here = ground arith

    earlier :
        (m : ℕ)
        → str_eq x.1.name "idle" ≡ false
        → ((j : ℕ) → j < m → ¬ IdleAt l j)
        → (j : ℕ) → j < suc m
        → ¬ IdleAt (x ∷ l) j
    earlier m other before zero p (y, at, named) = ground arith
    earlier m other before (suc j) p h = before j (omega arith) h

fallback-GoesIdle : (l : Entries) (start : ℕ) → GoesIdle l start (fallback l start)
unfolding fallback
fallback-GoesIdle l start = elim (Option-cases (position is_idle l)) [
  | inl nobody ↦ rw (nobody, fallback) (inr (no_idle l nobody, refl))
  | inr (i, at) ↦ rw (at, fallback) (inl (first_idle l i at))
]

Picks-Chooses : (l : Entries) (start next : ℕ) → Picks l start next → Chooses l start next
Picks-Chooses l start next (inl found) = inl found
Picks-Chooses l start next (inr (busy, e)) =
    inr (busy, subst (GoesIdle l start) (sym e) (fallback-GoesIdle l start))

entry_at : (l : Entries) (i : ℕ) → i < length l → (e : ℕ × Process) × (get_elem? l i ≡ some e)
entry_at [] i p = absurd (omega arith)
entry_at (x ∷ l) zero p = (x, refl)
entry_at (x ∷ l) (suc i) p = entry_at l i (omega arith)

pid_at-entry : (l : Entries) (i : ℕ) (e : ℕ × Process) → get_elem? l i ≡ some e → pid_at l i ≡ e.0
unfolding pid_at
pid_at-entry l i e h = rw (h, pid_at) refl

get_elem?-update_at :
    (l : Entries) (i : ℕ) (f : ProcessState → ProcessState) (e : ℕ × Process)
    → get_elem? l i ≡ some e
    → get_elem? (update_at l i f) i ≡ some (e.0, record e.1 { state = f e.1.state })
unfolding update_at
get_elem?-update_at [] i f e h = cc
get_elem?-update_at (x ∷ l) zero f e h =
    ap (Option.map (λ (y : ℕ × Process). (y.0, record y.1 { state = f y.1.state }))) h
get_elem?-update_at (x ∷ l) (suc i) f e h = get_elem?-update_at l i f e h

get_elem?-update_at_ne :
    (l : Entries) (i j : ℕ) (f : ProcessState → ProcessState)
    → i ≢ j
    → get_elem? (update_at l i f) j ≡ get_elem? l j
unfolding update_at
get_elem?-update_at_ne [] i j f n = refl
get_elem?-update_at_ne (e ∷ l) zero zero f n = absurd (n refl)
get_elem?-update_at_ne (e ∷ l) zero (suc j) f n = refl
get_elem?-update_at_ne (e ∷ l) (suc i) zero f n = refl
get_elem?-update_at_ne (e ∷ l) (suc i) (suc j) f n =
    get_elem?-update_at_ne l i j f (λ p. n (ap suc p))

-- From the process `old` at `current` to the process `chosen` at `next`: the chosen one runs, the
-- old one is ready if it was running and else keeps its state, and the others stay. Where both
-- are the same, the list stays.
abbrev pub Switches : Entries → ℕ → ℕ → (ℕ × Process) → (ℕ × Process) → Entries → Type 0
Switches l current next old chosen l' =
    (current ≡ next → l' ≡ l)
    × (current ≢ next
        → (get_elem? l' next ≡ some (chosen.0, record chosen.1 { state = running }))
          × (old.1.state ≡ running
              → get_elem? l' current ≡ some (old.0, record old.1 { state = ready }))
          × (old.1.state ≢ running → get_elem? l' current ≡ some old)
          × ((j : ℕ) → j ≢ current → j ≢ next → get_elem? l' j ≡ get_elem? l j))

preempt-ne : (state : ProcessState) → state ≢ running → preempt state ≡ state
unfolding preempt
preempt-ne ready n = refl
preempt-ne running n = absurd (n refl)
preempt-ne blocked n = refl
preempt-ne terminated n = refl

switch_to-Switches :
    (s : Scheduler) (current next : ℕ) (old chosen : ℕ × Process)
    → get_elem? s.processes current ≡ some old
    → get_elem? s.processes next ≡ some chosen
    → Switches s.processes current next old chosen (switch_to s current next).1.processes
unfolding switch_to preempt
switch_to-Switches s current next old chosen at_old at_chosen = (
  λ same. rw (==_true current next same) refl,
  λ apart.
      let l : Entries = s.processes in
      let demoted : Entries = update_at l current preempt in
      let before : get_elem? demoted current
          ≡ some (old.0, record old.1 { state = preempt old.1.state }) =
        get_elem?-update_at l current preempt old at_old in
      let kept = get_elem?-update_at_ne demoted next current (λ _. running) (λ e. apart (sym e)) in
      rw (==_false current next apart) (
        get_elem?-update_at demoted next (λ _. running) chosen
            (get_elem?-update_at_ne l current next preempt apart ∙ at_chosen),
        λ was. kept ∙ before ∙ rw was refl,
        λ was. kept ∙ before ∙ rw (preempt-ne old.1.state was) refl,
        λ j p q.
            get_elem?-update_at_ne demoted next j (λ _. running) (λ e. q (sym e))
            ∙ get_elem?-update_at_ne l current j preempt (λ e. p (sym e)),
      ),
)

returned :
    (s : Scheduler) (current next : ℕ) (old chosen : ℕ × Process)
    → get_elem? s.processes current ≡ some old
    → get_elem? s.processes next ≡ some chosen
    → (switch_to s current next).0 ≡ (some old.0, chosen.0)
unfolding switch_to
returned s current next old chosen at_old at_chosen =
    rw (pid_at-entry s.processes current old at_old, pid_at-entry s.processes next chosen at_chosen)
      refl

recorded :
    (s : Scheduler) (current next : ℕ) (chosen : ℕ × Process)
    → get_elem? s.processes next ≡ some chosen
    → (switch_to s current next).1 ≡ record s {
      processes = (switch_to s current next).1.processes;
      schedule_index = next;
      current_pid = chosen.0;
    }
unfolding switch_to
recorded s current next chosen at_chosen = rw (pid_at-entry s.processes next chosen at_chosen) refl

-- On a process list that is not empty `schedule_next` chooses the first ready process after the
-- current one in circular order, or, where none is ready, the first one named "idle" (the current
-- one if there is none of that name). It returns the ids of the current and of the chosen process,
-- and records the index and the id of the chosen one. If they differ, the chosen one is set
-- running and a running current one ready. All other state stays.
pub schedule_next-Chooses :
    (s : Scheduler)
    → 0 < length s.processes
    → let s' = (schedule_next s).1 in
      (next : ℕ) × Chooses s.processes (current_index s) next
      × (old : ℕ × Process) × (get_elem? s.processes (current_index s) ≡ some old)
      × (chosen : ℕ × Process) × (get_elem? s.processes next ≡ some chosen)
      × ((schedule_next s).0 ≡ (some old.0, chosen.0))
      × Switches s.processes (current_index s) next old chosen s'.processes
      × (s' ≡ record s { processes = s'.processes; schedule_index = next; current_pid = chosen.0 })
schedule_next-Chooses s p =
    let current : ℕ = current_index s in
    let (next, picks, lt, e) = schedule_next-Picks s p in
    let (old, at_old) = entry_at s.processes current (current_index-lt s p) in
    let (chosen, at_chosen) = entry_at s.processes next lt in
    rw e (
      next,
      Picks-Chooses s.processes current next picks,
      old,
      at_old,
      chosen,
      at_chosen,
      returned s current next old chosen at_old at_chosen,
      switch_to-Switches s current next old chosen at_old at_chosen,
      recorded s current next chosen at_chosen,
    )
