-- ===== src/Chronoline/Expiry.antt =====
-- Which timer `pop_expired` hands out, and when a repeating one comes due again.
use native.Mathlib.Nat.{div-add-mod, div-le_self, mod-lt}
use mathlib.Core.List.{Perm}
use fullerene.Base.{
  ℕ, ◌+◌, ◌-◌, ◌*◌, ◌/◌, ◌%◌, ◌^◌, ◌≤◌, ◌<◌, ◌≡◌, refl, sym, subst, false, Option, none, some, List,
  [], ◌∷◌, ◌++◌, arith, leb, Bool-cases, Option-cases, inl, inr, min,
}
use fullerene.Chronoline.{
  Timer, TimerMode, one_shot, repeating, before, fixed_rate, fixed_delay, ChronoLine, pop,
  has_expired, fire, pop_expired, new_deadline, u64_max,
}
use fullerene.Chronoline.Heap.{NoneBefore, Popped, pop-Popped}

-- No timer of the list is due.
abbrev pub NoneDue : ℕ → List Timer → Type 0
NoneDue now [] = Unit {0}
NoneDue now (t ∷ ts) = (now < t.deadline) × NoneDue now ts

-- What is handed out and what is put back when `t` fires at the time `now`. A one-shot timer goes
-- out as it is. A repeating one goes out with the number of intervals that have passed, at most
-- `max_catch_up`, and one run of it is put back: at a fixed rate after that many intervals from
-- its deadline, with a fixed delay one interval from now. Sums and products stop at 2^64 - 1.
abbrev pub Fires : ℕ → Timer → TimerMode → Timer → List Timer → Type 0
Fires now t one_shot fired back = (fired ≡ t) × (back ≡ [])
Fires now t (repeating interval) fired back =
    let passed = min ((now - t.deadline) / interval + 1) u64_max in
    (fired ≡ record t { missed_ticks = min passed t.max_catch_up })
    × (next : ℕ) × (back ≡ record t { deadline = next; missed_ticks = 0 } ∷ [])
    × (t.policy ≡ fixed_rate → next ≡ min (t.deadline + min (interval * passed) u64_max) u64_max)
    × (t.policy ≡ fixed_delay → next ≡ min (now + interval) u64_max)

-- What `pop_expired` promises: nothing is due, or the first timer is handed out.
abbrev pub PopsExpired : ChronoLine → Option Timer × ChronoLine → Type 0
PopsExpired c (none, c') = (c' ≡ c) × NoneDue c.now c.timers
PopsExpired c (some fired, c') =
    (t : Timer) × (rest : List Timer) × Perm c.timers (t ∷ rest)
    × NoneBefore t c.timers
    × (t.deadline ≤ c.now)
    × (back : List Timer) × Fires c.now t t.mode fired back
    × (c' ≡ record c { timers = rest ++ back })

fire-Fires :
    (now : ℕ) (t : Timer) (mode : TimerMode)
    → Fires now t mode (fire now t mode).0 (fire now t mode).1
unfolding fire new_deadline
fire-Fires now t one_shot = (refl, refl)
fire-Fires now t (repeating interval) =
    (refl, new_deadline now t interval t.policy, refl, λ rate. rw rate refl, λ delay. rw delay refl)

later_deadline : (now : ℕ) (t u : Timer) → now < t.deadline → before u t ≡ false → now < u.deadline
unfolding before
later_deadline now t u p n = ground arith

NoneDue-first :
    (now : ℕ) (t : Timer) (ts : List Timer) → now < t.deadline → NoneBefore t ts → NoneDue now ts
NoneDue-first now t [] p n = tt
NoneDue-first now t (u ∷ us) p n = (later_deadline now t u p n.0, NoneDue-first now t us p n.1)

pub has_expired-none : (c : ChronoLine) → pop c.timers ≡ none → has_expired c ≡ false
unfolding has_expired
has_expired-none c e = ground arith

pub has_expired-some :
    (c : ChronoLine) (t : Timer) (rest : List Timer)
    → pop c.timers ≡ some (t, rest)
    → has_expired c ≡ leb t.deadline c.now
unfolding has_expired
has_expired-some c t rest e = ground arith

-- `pop_expired` hands out a timer that is due and that no timer precedes, by deadline and then
-- by id, keeps all others, and puts back the timer's next run if it repeats, at the time of `Fires`. It hands out nothing,
-- and changes nothing, exactly if no timer is due.
pub pop_expired-PopsExpired : (c : ChronoLine) → PopsExpired c (pop_expired c)
unfolding pop_expired
pop_expired-PopsExpired c = elim (Option-cases (pop c.timers)) [
  | inl e ↦
      let empty : c.timers ≡ [] = subst (Popped c.timers) e (pop-Popped c.timers) in
      rw (has_expired-none c e) (refl, subst (NoneDue c.now) (sym empty) tt)
  | inr ((t, rest), e) ↦
      let popped : Popped c.timers (some (t, rest)) =
        subst (Popped c.timers) e (pop-Popped c.timers) in
      rw (has_expired-some c t rest e) (elim (Bool-cases (leb t.deadline c.now)) [
        | inl due ↦
            rw (due, e, pop_expired)
              (
                t,
                rest,
                popped.0,
                popped.1,
                ground arith,
                (fire c.now t t.mode).1,
                fire-Fires c.now t t.mode,
                refl,
              )
        | inr early ↦ rw early (refl, NoneDue-first c.now t c.timers (ground arith) popped.1)
      ])
]

-- A repeating timer that has fired comes due again strictly after the present time, if that and
-- the interval fit 64 bits: at a fixed rate within one interval, by whole intervals from its old
-- deadline, with a fixed delay exactly one interval from now.
pub new_deadline_bounds :
    (now : ℕ) (t : Timer) (interval : ℕ)
    → 0 < interval
    → t.deadline ≤ now
    → now + interval < 2 ^ 64
    → (now < new_deadline now t interval fixed_rate)
      × (new_deadline now t interval fixed_rate ≤ now + interval)
      × (new_deadline now t interval fixed_rate
          ≡ t.deadline + interval * ((now - t.deadline) / interval + 1))
      × (new_deadline now t interval fixed_delay ≡ now + interval)
unfolding new_deadline
new_deadline_bounds now t interval p due fits =
    let q : ℕ = (now - t.deadline) / interval in
    let parts : interval * q + (now - t.deadline) % interval ≡ now - t.deadline =
      div-add-mod (now - t.deadline) interval in
    let short : (now - t.deadline) % interval < interval = mod-lt (now - t.deadline) p in
    let count : min ((now - t.deadline) / interval + 1) u64_max ≡ q + 1 =
      omega (arith, div-le_self (now - t.deadline) interval) in
    rw count (omega arith, omega arith, omega arith, omega arith)
