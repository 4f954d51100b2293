-- ===== src/Scheduler/Tests.antt =====
-- Runs of the scheduler, and the theorems at concrete process lists.
use fullerene.Base.{
  ℕ, zero, suc, ◌≤◌, ◌<◌, ◌≡◌, ◌≢◌, refl, none, some, [], ◌∷◌, get_elem?, arith, if◌then◌else◌,
  ◌==◌,
}
use fullerene.Scheduler.{
  Scheduler, Process, ready, running, blocked, new, schedule_next, switch_to, ready_at, is_ready,
  find, is_running, scan, pid_at, add, allocate_pid, advance_tick, set_tsc_per_ms, count,
  recovery_target, set_recovery, yield_current, request, unblock_waiting_parents,
}
use fullerene.Scheduler.Switch.{Chooses, Switches, schedule_next-Chooses}
use fullerene.Scheduler.States.{RunningOnly, ids, schedule_next-RunningOnly}
use fullerene.Scheduler.Fairness.{rounds, schedule_next_fair}
use fullerene.Scheduler.Wakeups.{find-unblock_waiting_parents}
use fullerene.Scheduler.Calls.{Adds, add-Adds}

abbrev idle : Process
idle = record { id = 1; name = "idle"; state = ready; parent_id = none }

abbrev shell : Process
shell = record { id = 2; name = "shell"; state = running; parent_id = some 1 }

abbrev waiting : Process
waiting = record { id = 3; name = "waiting"; state = blocked; parent_id = some 2 }

abbrev child : Process
child = record { id = 4; name = "child"; state = ready; parent_id = some 3 }

abbrev four : Scheduler
four = record {
  processes = (1, idle) ∷ (2, shell) ∷ (3, waiting) ∷ (4, child) ∷ [];
  next_pid = 5;
  schedule_index = 1;
  current_pid = 2;
  tick_counter = 0;
  recovery_rsp = 0;
  recovery_rip = 0;
  tsc_per_ms = 0;
}

-- From the shell past the blocked process to the child.
four_next : (schedule_next four).0 ≡ (some 2, 4)
unfolding schedule_next scan ready_at is_ready switch_to pid_at
four_next = refl

schedule_next-Chooses_example :
    let s' = (schedule_next four).1 in
    (next : ℕ) × Chooses four.processes 1 next
    × (old : ℕ × Process) × (get_elem? four.processes 1 ≡ some old)
    × (chosen : ℕ × Process) × (get_elem? four.processes next ≡ some chosen)
    × ((schedule_next four).0 ≡ (some old.0, chosen.0))
    × Switches four.processes 1 next old chosen s'.processes
    × (s' ≡ record four { processes = s'.processes; schedule_index = next; current_pid = chosen.0 })
schedule_next-Chooses_example = schedule_next-Chooses four (omega arith)

only_shell : RunningOnly four.processes 1
unfolding is_running
only_shell zero h = cc
only_shell (suc zero) h = refl
only_shell (suc (suc zero)) h = cc
only_shell (suc (suc (suc zero))) h = cc
only_shell (suc (suc (suc (suc j)))) h = cc

schedule_next-RunningOnly_example :
    let s' = (schedule_next four).1 in
    RunningOnly s'.processes s'.schedule_index × (ids s'.processes ≡ 1 ∷ 2 ∷ 3 ∷ 4 ∷ [])
schedule_next-RunningOnly_example = schedule_next-RunningOnly four (omega arith) only_shell

schedule_next_fair_example : (m : ℕ) × (0 < m) × (m ≤ 4) × ((rounds m four).schedule_index ≡ 0)
unfolding ready_at is_ready
schedule_next_fair_example = schedule_next_fair four 0 (omega arith) refl

find-unblock_waiting_parents_example :
    (blocked ≡ blocked
      → find 3 (unblock_waiting_parents four 4).processes
        ≡ (if 3 == 3 then some (record waiting { state = ready }) else find 3 four.processes))
    × (blocked ≢ blocked
        → find 3 (unblock_waiting_parents four 4).processes ≡ find 3 four.processes)
unfolding find
find-unblock_waiting_parents_example = find-unblock_waiting_parents four 4 3 3 refl refl refl

abbrev editor : Process
editor = record { id = 5; name = "editor"; state = ready; parent_id = some 2 }

add-Adds_example : Adds four editor (add four editor)
unfolding find
add-Adds_example = add-Adds four editor refl

-- Ids are handed out in order, from 1.
first_ids :
    ((allocate_pid new).0 ≡ 1) × ((allocate_pid (allocate_pid new).1).0 ≡ 2) × (count new ≡ 0)
unfolding allocate_pid new count
first_ids = (refl, refl, refl)

calibrated : (set_tsc_per_ms new 2400000).tsc_per_ms ≡ 2400000
unfolding set_tsc_per_ms
calibrated = refl

first_ticks : ((advance_tick new).0 ≡ 0) × ((advance_tick (advance_tick new).1).0 ≡ 1)
unfolding advance_tick new
first_ticks = (refl, refl)

-- A target counts once both of its parts are set.
recovery_needs_both :
    (recovery_target new ≡ none)
    × (recovery_target (set_recovery new 4096 0) ≡ none)
    × (recovery_target (set_recovery new 4096 8192) ≡ some (4096, 8192))
unfolding recovery_target set_recovery new
recovery_needs_both = (refl, refl, refl)

-- The shell yields to the child.
yield_runs : (yield_current four).0 ≡ some (2, 4)
unfolding yield_current request schedule_next scan ready_at is_ready switch_to pid_at
yield_runs = refl
