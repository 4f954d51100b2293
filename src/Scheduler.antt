-- ===== src/Scheduler.antt =====
-- fullerene-kernel/src/scheduler_context.rs: `SchedulerContext`, its process list and the
-- round-robin choice. The atomics are plain fields: the kernel has one core, and interrupt
-- handlers leave this state alone. The closures handed to `with_process` are spelled out.
pub mod Choice
pub mod States
pub mod Fairness
pub mod Switch
pub mod Wakeups
pub mod Calls
mod Tests
use text.Mathlib.Text.{◌==◌ as str_eq}
use fullerene.Base.{
  ℕ, zero, suc, ◌+◌, ◌-◌, ◌%◌, ◌^◌, Bool, true, false, not, ◌&&◌, ◌||◌, Option, none, some, List,
  [], ◌∷◌, ◌++◌, min, if◌then◌else◌, leb, ltb, ◌==◌, get_elem?, set, length, ◌>>=◌,
}
use Prim.Native.String.{String}
use mathlib.Core.Option

abbrev pub max_processes : ℕ
max_processes = 64

pub data ProcessState : Type 0 where
  ready running blocked terminated : ProcessState

-- What the scheduler reads of a `Process`.
pub record Process : Type 0 where
  pub id : ℕ
  pub name : String
  pub state : ProcessState
  pub parent_id : Option ℕ

-- The list's entries are pairs of an id and a process.
pub record Scheduler : Type 0 where
  pub processes : List (ℕ × Process)
  pub next_pid : ℕ
  pub schedule_index : ℕ
  pub current_pid : ℕ
  pub tick_counter : ℕ
  pub recovery_rsp : ℕ
  pub recovery_rip : ℕ
  pub tsc_per_ms : ℕ

abbrev pub Entries : Type 0
Entries = List (ℕ × Process)

pub data SystemError : Type 0 where
  too_many_processes : SystemError

pub new : Scheduler
new = record {
  processes = [];
  next_pid = 1;
  schedule_index = 0;
  current_pid = 0;
  tick_counter = 0;
  recovery_rsp = 0;
  recovery_rip = 0;
  tsc_per_ms = 0;
}

-- `fetch_add` returns the old value and wraps.
pub advance_tick : Scheduler → ℕ × Scheduler
advance_tick s = (s.tick_counter, record s { tick_counter = (s.tick_counter + 1) % 2 ^ 64 })

pub set_tsc_per_ms : Scheduler → ℕ → Scheduler
set_tsc_per_ms s val = record s { tsc_per_ms = val }

pub allocate_pid : Scheduler → ℕ × Scheduler
allocate_pid s = (s.next_pid, record s { next_pid = (s.next_pid + 1) % 2 ^ 64 })

-- `list.iter().position(..)`
pub position : ((ℕ × Process) → Bool) → Entries → Option ℕ
position test [] = none
position test (e ∷ l) = if test e then some 0 else Option.map suc (position test l)

-- `list.iter().find(|(id, _)| *id == pid)`
pub find : ℕ → Entries → Option Process
find pid [] = none
find pid ((id, p) ∷ l) = if id == pid then some p else find pid l

-- `with_process` with a closure that changes the process: the first entry with the id.
pub modify : ℕ → (Process → Process) → Entries → Entries
modify pid f [] = []
modify pid f ((id, p) ∷ l) = if id == pid then (id, f p) ∷ l else (id, p) ∷ modify pid f l

-- The list without its last entry, and that entry.
pub split_last : (ℕ × Process) → Entries → Entries × (ℕ × Process)
split_last e [] = ([], e)
split_last e (e' ∷ l) = let (front, last) = split_last e' l in (e ∷ front, last)

-- The last entry takes the place of the one that goes.
pub swap_remove : Entries → ℕ → Entries
swap_remove [] pos = []
swap_remove (e ∷ l) pos = let (front, last) = split_last e l in set front pos last

pub add : Scheduler → Process → Option SystemError × Scheduler
add s process =
    let kept : Entries = elim (position (λ e. e.0 == process.id) s.processes) [
      | none ↦ s.processes
      | some pos ↦ swap_remove s.processes pos
    ] in
    if leb max_processes (length s.processes)
    then (some too_many_processes, s)
    else if leb max_processes (length kept)
    then (some too_many_processes, record s { processes = kept })
    else (none, record s { processes = kept ++ (process.id, process) ∷ [] })

pub count : Scheduler → ℕ
count s = length s.processes

pub is_ready : ProcessState → Bool
is_ready ready = true
is_ready _ = false

pub is_running : ProcessState → Bool
is_running running = true
is_running _ = false

pub is_blocked : ProcessState → Bool
is_blocked blocked = true
is_blocked _ = false

pub is_terminated : ProcessState → Bool
is_terminated terminated = true
is_terminated _ = false

pub active : Entries → ℕ
active [] = 0
active ((id, p) ∷ l) = (if is_ready p.state || is_running p.state then 1 else 0) + active l

pub active_count : Scheduler → ℕ
active_count s = active s.processes

-- `procs.retain(..)`
pub retain_live : Entries → Entries
retain_live [] = []
retain_live ((id, p) ∷ l) = if is_terminated p.state then retain_live l else (id, p) ∷ retain_live l

pub cleanup : Scheduler → Scheduler
cleanup s = record s { processes = retain_live s.processes }

-- `list[i].1.state == ProcessState::Ready`, for an index in range.
pub ready_at : Entries → ℕ → Bool
ready_at l i = elim (get_elem? l i) [ none ↦ false | some e ↦ is_ready e.1.state ]

pub is_idle : (ℕ × Process) → Bool
is_idle e = str_eq e.1.name "idle"

-- The choice where the scan comes back to its start.
pub fallback : Entries → ℕ → ℕ
fallback l next = elim (position is_idle l) [ none ↦ next | some idle ↦ idle ]

-- The `loop` of `schedule_next`, entered with `next_idx`; `none` means that the fuel ran out.
pub scan : Entries → ℕ → ℕ → ℕ → Option ℕ
scan l start next zero = none
scan l start next (suc fuel) =
    let next' = (next + 1) % length l in
    let rest = scan l start next' fuel in
    if ready_at l next'
    then some next'
    else if next' == start
    then some (fallback l next')
    else rest

-- `list.get_mut(i)` and a change of the state.
pub update_at : Entries → ℕ → (ProcessState → ProcessState) → Entries
update_at [] i f = []
update_at ((id, p) ∷ l) zero f = (id, record p { state = f p.state }) ∷ l
update_at (e ∷ l) (suc i) f = e ∷ update_at l i f

pub preempt : ProcessState → ProcessState
preempt running = ready
preempt other = other

pub pid_at : Entries → ℕ → ℕ
pid_at l i = elim (get_elem? l i) [ none ↦ 0 | some e ↦ e.0 ]

-- The end of `schedule_next`, once the indices are known.
pub switch_to : Scheduler → ℕ → ℕ → (Option ℕ × ℕ) × Scheduler
switch_to s current next =
    let l = s.processes in
    let switched : Entries =
      if current == next then l else update_at (update_at l current preempt) next (λ _. running) in
    (
      (some (pid_at l current), pid_at l next),
      record s { processes = switched; schedule_index = next; current_pid = pid_at l next },
    )

abbrev pub current_index : Scheduler → ℕ
current_index s = min s.schedule_index (length s.processes - 1)

-- Fuel: one round of the list; that this is enough is in `Choice.scan-Picks`.
pub schedule_next : Scheduler → (Option ℕ × ℕ) × Scheduler
schedule_next s =
    let current = current_index s in
    if length s.processes == 0
    then ((none, 0), s)
    else elim (scan s.processes current current (length s.processes)) [
      | none ↦ ((none, 0), s)
      | some next ↦ switch_to s current next
    ]

abbrev pub set_state : ProcessState → Process → Process
set_state state p = record p { state = state }

-- The context switch that a call asks for, if the process changes.
pub request : (Option ℕ × ℕ) → Option (ℕ × ℕ)
request (none, _) = none
request (some old, next) = if old == next then none else some (old, next)

pub block_current : Scheduler → Option (ℕ × ℕ) × Scheduler
block_current s =
    let (pids, s') =
      schedule_next
        (record s { processes = modify s.current_pid (set_state blocked) s.processes }) in
    if s.current_pid == 0 then (none, s) else (request pids, s')

pub wake : ProcessState → ProcessState
wake blocked = ready
wake other = other

abbrev pub woken : Process → Process
woken p = record p { state = wake p.state }

pub unblock_process : Scheduler → ℕ → Scheduler
unblock_process s pid = record s { processes = modify pid woken s.processes }

pub yield_current : Scheduler → Option (ℕ × ℕ) × Scheduler
yield_current s =
    let (pids, s') = schedule_next s in if s.current_pid == 0 then (none, s) else (request pids, s')

pub blocked_parent : Entries → ℕ → Option ℕ
blocked_parent l child_pid = do
  child ← find child_pid l
  parent_id ← child.parent_id
  parent ← find parent_id l
  if is_blocked parent.state then some parent_id else none

pub unblock_waiting_parents : Scheduler → ℕ → Scheduler
unblock_waiting_parents s child_pid = elim (blocked_parent s.processes child_pid) [
  | none ↦ s
  | some parent_id ↦ unblock_process s parent_id
]

pub set_recovery : Scheduler → ℕ → ℕ → Scheduler
set_recovery s rsp rip = record s { recovery_rsp = rsp; recovery_rip = rip }

pub recovery_target : Scheduler → Option (ℕ × ℕ)
recovery_target s =
    if not (s.recovery_rsp == 0) && not (s.recovery_rip == 0)
    then some (s.recovery_rsp, s.recovery_rip)
    else none
