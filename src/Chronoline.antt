-- ===== src/Chronoline.antt =====
-- chronoline/src/lib.rs: the timer queue `ChronoLine`. The standard library's `BinaryHeap` is the
-- list of its elements: its greatest element goes first, and of equal ones, which the library
-- leaves open, the one that stands first in the list.
pub mod Heap
pub mod Expiry
pub mod Drain
pub mod Cancel
mod Tests
use fullerene.Base.{
  ℕ, suc, ◌+◌, ◌-◌, ◌*◌, ◌/◌, ◌%◌, ◌^◌, Bool, true, false, not, ◌&&◌, ◌||◌, Option, none, some,
  List, [], ◌∷◌, ◌++◌, min, max, if◌then◌else◌, leb, ltb, ◌==◌, length,
}

abbrev pub u64_max : ℕ
u64_max = 2 ^ 64 - 1

abbrev pub saturating_add : ℕ → ℕ → ℕ
saturating_add a b = min (a + b) u64_max

abbrev pub saturating_mul : ℕ → ℕ → ℕ
saturating_mul a b = min (a * b) u64_max

pub data TimerMode : Type 0 where
  one_shot : TimerMode
  repeating : ℕ → TimerMode

pub data TimerPolicy : Type 0 where
  fixed_rate fixed_delay : TimerPolicy

pub data RegisterError : Type 0 where
  zero_interval timer_full : RegisterError

pub data Result (A : Type 0) : Type 0 where
  ok : A → Result A
  err : RegisterError → Result A

-- A `Deadline` and a `TimerId` are their numbers.
pub record Timer : Type 0 where
  pub deadline : ℕ
  pub id : ℕ
  pub mode : TimerMode
  pub policy : TimerPolicy
  pub missed_ticks : ℕ
  pub max_catch_up : ℕ

-- Whether `Ord::cmp` puts the first timer above the second: the earlier deadline, then the
-- smaller id.
pub before : Timer → Timer → Bool
before t u = ltb t.deadline u.deadline || t.deadline == u.deadline && ltb t.id u.id

pub record ChronoLine : Type 0 where
  pub timers : List Timer
  pub now : ℕ
  pub next_id : ℕ
  pub max_catch_up : ℕ

-- `BinaryHeap::pop`: the greatest element, and the others.
pub pop : List Timer → Option (Timer × List Timer)
pop [] = none
pop (t ∷ ts) = elim (pop ts) [
  | none ↦ some (t, [])
  | some (u, rest) ↦ if before u t then some (u, t ∷ rest) else some (t, ts)
]

-- `BinaryHeap::peek`
pub peek : List Timer → Option Timer
unfolding pop
peek ts = elim (pop ts) [ none ↦ none | some (t, rest) ↦ some t ]

pub new : ChronoLine
new = record { timers = []; now = 0; next_id = 0; max_catch_up = u64_max }

pub deadline_after : ℕ → ℕ → ℕ
deadline_after now_ticks delta = saturating_add now_ticks delta

pub set_max_catch_up : ChronoLine → ℕ → ChronoLine
set_max_catch_up c limit = record c { max_catch_up = limit }

pub is_zero_interval : TimerMode → Bool
is_zero_interval one_shot = false
is_zero_interval (repeating interval_ticks) = interval_ticks == 0

pub register_with_mode_and_policy :
    ChronoLine → ℕ → ℕ → TimerMode → TimerPolicy → Result ℕ × ChronoLine
unfolding is_zero_interval
register_with_mode_and_policy c deadline id mode policy =
    let timer : Timer = record {
      deadline = deadline;
      id = id;
      mode = mode;
      policy = policy;
      missed_ticks = 0;
      max_catch_up = c.max_catch_up;
    } in
    if is_zero_interval mode
    then (err zero_interval, c)
    else (ok id, record c { timers = c.timers ++ timer ∷ [] })

pub register_with_mode : ChronoLine → ℕ → ℕ → TimerMode → Result ℕ × ChronoLine
register_with_mode c deadline id mode = register_with_mode_and_policy c deadline id mode fixed_delay

pub register : ChronoLine → ℕ → ℕ → Result ℕ × ChronoLine
unfolding register_with_mode
register c deadline id = register_with_mode c deadline id one_shot

pub register_auto : ChronoLine → ℕ → Result ℕ × ChronoLine
unfolding register
register_auto c deadline =
    register (record c { next_id = (c.next_id + 1) % 2 ^ 64 }) deadline c.next_id

pub advance : ChronoLine → ℕ → ChronoLine
advance c delta = record c { now = saturating_add c.now delta }

pub tick : ChronoLine → ℕ → ChronoLine
tick c now = record c { now = max c.now now }

pub reset_now : ChronoLine → ℕ → ChronoLine
reset_now c now = record c { now = now }

pub has_expired : ChronoLine → Bool
unfolding peek
has_expired c = elim (peek c.timers) [ none ↦ false | some t ↦ leb t.deadline c.now ]

-- How often a repeating timer has come due.
pub missed : ℕ → Timer → ℕ → ℕ
missed now t interval_ticks = saturating_add ((now - t.deadline) / interval_ticks) 1

pub new_deadline : ℕ → Timer → ℕ → TimerPolicy → ℕ
unfolding missed
new_deadline now t interval_ticks fixed_rate =
    saturating_add t.deadline (saturating_mul interval_ticks (missed now t interval_ticks))
new_deadline now t interval_ticks fixed_delay = saturating_add now interval_ticks

-- The timer that is handed out, and the one that is put back.
pub fire : ℕ → Timer → TimerMode → Timer × List Timer
unfolding new_deadline
fire now t one_shot = (t, [])
fire now t (repeating interval_ticks) = (
  record t { missed_ticks = min (missed now t interval_ticks) t.max_catch_up },
  record t { deadline = new_deadline now t interval_ticks t.policy; missed_ticks = 0 } ∷ [],
)

pub pop_expired : ChronoLine → Option Timer × ChronoLine
unfolding has_expired
pop_expired c = if not (has_expired c) then (none, c) else elim (pop c.timers) [
  | none ↦ (none, c)
  | some (t, rest) ↦
      let (fired, back) = fire c.now t t.mode in (some fired, record c { timers = rest ++ back })
]

pub len : ChronoLine → ℕ
len c = length c.timers

pub is_empty : ChronoLine → Bool
is_empty c = len c == 0

-- `vec.retain(|t| t.id != id)`
pub retain_others : ℕ → List Timer → List Timer
retain_others id [] = []
retain_others id (t ∷ ts) = if t.id == id then retain_others id ts else t ∷ retain_others id ts

pub cancel : ChronoLine → ℕ → Bool × ChronoLine
cancel c id =
    let kept = retain_others id c.timers in
    (not (length kept == length c.timers), record c { timers = kept })

pub next_deadline : ChronoLine → Option ℕ
unfolding peek
next_deadline c = elim (peek c.timers) [ none ↦ none | some t ↦ some t.deadline ]

pub clear : ChronoLine → ChronoLine
clear c = record c { timers = [] }
