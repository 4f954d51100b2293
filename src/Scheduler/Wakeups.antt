-- ===== src/Scheduler/Wakeups.antt =====
-- Blocking, waking up and removing processes.
use mathlib.Core.Option
use fullerene.Base.{
  ℕ, ◌≡◌, ◌≢◌, refl, inl, inr, true, false, some, [], ◌∷◌, if◌then◌else◌, ◌==◌, Bool-cases, arith,
}
use fullerene.Scheduler.{
  Entries, Scheduler, Process, ProcessState, ready, running, blocked, terminated, is_ready,
  is_running, is_blocked, is_terminated, find, modify, wake, woken, unblock_process, blocked_parent,
  unblock_waiting_parents, active, active_count, retain_live, cleanup,
}

pub find-modify :
    (pid q : ℕ) (f : Process → Process) (l : Entries)
    → find q (modify pid f l) ≡ (if pid == q then Option.map f (find q l) else find q l)
unfolding find modify
find-modify pid q f [] = ground arith
find-modify pid q f ((id, p) ∷ l) = ground (arith, find-modify pid q f l)

-- Waking a process makes it ready if it was blocked, and changes nothing else: neither its state
-- where it was not blocked, nor any process with another id.
pub find-unblock_process :
    (s : Scheduler) (pid q : ℕ)
    → find q (unblock_process s pid).processes
      ≡ (if pid == q then Option.map woken (find q s.processes) else find q s.processes)
unfolding unblock_process
find-unblock_process s pid q = find-modify pid q woken s.processes

is_blocked_lem : (state : ProcessState) → state ≡ blocked → is_blocked state ≡ true
unfolding is_blocked
is_blocked_lem state e = rw e refl

is_blocked-false : (state : ProcessState) → state ≢ blocked → is_blocked state ≡ false
unfolding is_blocked
is_blocked-false ready n = refl
is_blocked-false running n = refl
is_blocked-false blocked n = absurd (n refl)
is_blocked-false terminated n = refl

woken-blocked : (p : Process) → p.state ≡ blocked → woken p ≡ record p { state = ready }
unfolding wake
woken-blocked p e = rw e refl

-- When a child ends whose parent is in the list, a parent that is blocked becomes ready, with its
-- other fields kept, and a parent that is not blocked stays as it is. Every other id finds the
-- process that it found before.
pub find-unblock_waiting_parents :
    (s : Scheduler) (child_pid parent_id q : ℕ) {child parent : Process}
    → find child_pid s.processes ≡ some child
    → child.parent_id ≡ some parent_id
    → find parent_id s.processes ≡ some parent
    → (parent.state ≡ blocked
        → find q (unblock_waiting_parents s child_pid).processes
          ≡ (if parent_id == q then some (record parent { state = ready }) else find q s.processes))
      × (parent.state ≢ blocked
          → find q (unblock_waiting_parents s child_pid).processes ≡ find q s.processes)
unfolding unblock_waiting_parents blocked_parent
find-unblock_waiting_parents s child_pid parent_id q {child} {parent} c e p = (
  λ asleep.
      let yes = is_blocked_lem parent.state asleep in
      let turned = woken-blocked parent asleep in
      ground (arith, find-unblock_process s parent_id q),
  λ awake. let no = is_blocked-false parent.state awake in ground arith,
)

-- No terminated process is left.
pub AllLive : Entries → Type 0
AllLive [] = Unit
AllLive ((id, p) ∷ l) = (is_terminated p.state ≡ false) × AllLive l

retain_live-AllLive : (l : Entries) → AllLive (retain_live l)
unfolding retain_live AllLive
retain_live-AllLive [] = tt
retain_live-AllLive ((id, p) ∷ l) = elim (Bool-cases (is_terminated p.state)) [
  | inl gone ↦ rw (gone, retain_live) (retain_live-AllLive l)
  | inr live ↦ rw (live, retain_live) (live, retain_live-AllLive l)
]

active-retain_live : (l : Entries) → active (retain_live l) ≡ active l
unfolding active retain_live is_ready is_running is_terminated
active-retain_live [] = refl
active-retain_live ((id, p) ∷ l) = ground (arith, active-retain_live l)

-- `cleanup` leaves no terminated process, and the same number of ready and running ones.
pub cleanup_lem :
    (s : Scheduler) → AllLive (cleanup s).processes × (active_count (cleanup s) ≡ active_count s)
unfolding cleanup active_count
cleanup_lem s = (retain_live-AllLive s.processes, active-retain_live s.processes)
