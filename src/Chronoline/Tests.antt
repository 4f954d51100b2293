-- ===== src/Chronoline/Tests.antt =====
-- Runs of the timer queue, with those of the source's tests, and the theorems at concrete inputs.
use fullerene.Base.{
  ℕ, ◌+◌, ◌-◌, ◌*◌, ◌/◌, ◌≤◌, ◌<◌, ◌≡◌, refl, true, false, Option, none, some, ◌∷◌, arith,
}
use fullerene.Chronoline.{
  Timer, ChronoLine, repeating, fixed_rate, fixed_delay, ok, err, zero_interval, u64_max, new,
  deadline_after, set_max_catch_up, register, register_auto, register_with_mode,
  register_with_mode_and_policy, advance, tick, reset_now, has_expired, pop_expired, pop, peek,
  before, fire, missed, new_deadline, len, is_empty, cancel, retain_others, next_deadline, clear,
  is_zero_interval,
}
use fullerene.Chronoline.Expiry.{PopsExpired, pop_expired-PopsExpired, new_deadline_bounds}
use fullerene.Chronoline.Drain.{due_count, drain, has_expired-drain}

-- Timer 1 at 10 and timer 2 at 20.
abbrev two : ChronoLine
unfolding register register_with_mode register_with_mode_and_policy is_zero_interval new
two = (register (register new 10 1).1 20 2).1

-- The id of the timer that a pop hands out.
abbrev popped_id : Option Timer × ChronoLine → Option ℕ
popped_id (none, c) = none
popped_id (some t, c) = some t.id

test_nothing_due : popped_id (pop_expired two) ≡ none
unfolding two pop_expired has_expired peek pop before
test_nothing_due = refl

test_first_due : popped_id (pop_expired (advance two 10)) ≡ some 1
unfolding two pop_expired has_expired peek pop advance fire before
test_first_due = refl

test_second_due : popped_id (pop_expired (tick (pop_expired (advance two 10)).1 20)) ≡ some 2
unfolding two pop_expired has_expired peek pop advance tick fire before
test_second_due = refl

test_next_deadline : next_deadline two ≡ some 10
unfolding two next_deadline peek pop before
test_next_deadline = refl

test_cancel : next_deadline (cancel two 1).1 ≡ some 20
unfolding two next_deadline peek pop before cancel retain_others
test_cancel = refl

test_clear : is_empty (clear two) ≡ true
unfolding is_empty clear len
test_clear = refl

test_len : len two ≡ 2
unfolding two len
test_len = refl

test_reset_now : (reset_now (advance two 5) 3).now ≡ 3
unfolding two reset_now advance
test_reset_now = refl

test_zero_interval : (register_with_mode two 5 9 (repeating 0)).0 ≡ err zero_interval
unfolding two register_with_mode register_with_mode_and_policy is_zero_interval
test_zero_interval = refl

test_register_auto : (register_auto (register_auto new 7).1 7).0 ≡ ok 1
unfolding register_auto register register_with_mode register_with_mode_and_policy is_zero_interval
    new
test_register_auto = refl

test_deadline_after : deadline_after (u64_max - 1) 6 ≡ u64_max
unfolding deadline_after
test_deadline_after = refl

test_max_catch_up : (set_max_catch_up new 3).max_catch_up ≡ 3
unfolding set_max_catch_up
test_max_catch_up = refl

-- A timer that is due at 10 and every 4 ticks from then on, at time 19.
abbrev periodic : Timer
periodic = record {
  deadline = 10;
  id = 3;
  mode = repeating 4;
  policy = fixed_rate;
  missed_ticks = 0;
  max_catch_up = u64_max;
}

abbrev late : ChronoLine
late = record { timers = periodic ∷ two.timers; now = 19; next_id = 0; max_catch_up = u64_max }

test_missed : popped_id (pop_expired (pop_expired late).1) ≡ some 3
unfolding two before pop_expired has_expired peek pop fire missed new_deadline
test_missed = refl

pop_expired-PopsExpired_example : PopsExpired late (pop_expired late)
pop_expired-PopsExpired_example = pop_expired-PopsExpired late

new_deadline_bounds_example :
    (19 < new_deadline 19 periodic 4 fixed_rate)
    × (new_deadline 19 periodic 4 fixed_rate ≤ 19 + 4)
    × (new_deadline 19 periodic 4 fixed_rate ≡ 10 + 4 * ((19 - 10) / 4 + 1))
    × (new_deadline 19 periodic 4 fixed_delay ≡ 19 + 4)
new_deadline_bounds_example =
    new_deadline_bounds 19 periodic 4 (omega arith) (omega arith) (omega arith)

has_expired-drain_example : has_expired (drain 2 late) ≡ false
unfolding due_count two
has_expired-drain_example =
    has_expired-drain 2 late (((omega arith), omega arith), (tt, (tt, tt))) (omega arith)
