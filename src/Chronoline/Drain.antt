-- ===== src/Chronoline/Drain.antt =====
-- Popping until nothing is due comes to an end.
use fullerene.Base.{
  ℕ, zero, suc, ◌+◌, ◌^◌, ◌≤◌, ◌<◌, ◌≡◌, refl, ◌∙◌, subst, false, Option, none, some, List, [], ◌∷◌,
  ◌++◌, if◌then◌else◌, arith, leb, Bool-cases, Option-cases, inl, inr,
}
use fullerene.Chronoline.{
  Timer, TimerMode, TimerPolicy, one_shot, repeating, fixed_rate, fixed_delay, ChronoLine, pop,
  fire, pop_expired, new_deadline, before, has_expired,
}
use fullerene.Chronoline.Expiry.{new_deadline_bounds, has_expired-none, has_expired-some}

-- Every interval is positive, and a next run from now fits 64 bits.
abbrev pub ModeFits : ℕ → TimerMode → Type 0
ModeFits now one_shot = Unit {0}
ModeFits now (repeating interval) = (0 < interval) × (now + interval < 2 ^ 64)

abbrev pub AllFit : ℕ → List Timer → Type 0
AllFit now [] = Unit {0}
AllFit now (t ∷ ts) = ModeFits now t.mode × AllFit now ts

-- How many timers are due.
unfoldable pub due_count : ℕ → List Timer → ℕ
due_count now [] = 0
due_count now (t ∷ ts) = (if leb t.deadline now then 1 else 0) + due_count now ts

due_count-append :
    (now : ℕ) (ts us : List Timer) → due_count now (ts ++ us) ≡ due_count now ts + due_count now us
unfolding due_count
due_count-append now [] us = omega arith
due_count-append now (t ∷ ts) us = omega (arith, due_count-append now ts us)

AllFit-append :
    (now : ℕ) (ts us : List Timer) → AllFit now ts → AllFit now us → AllFit now (ts ++ us)
AllFit-append now [] us p q = q
AllFit-append now (t ∷ ts) us p q = (p.0, AllFit-append now ts us p.1 q)

-- `pop` splits the count and the condition as it splits the list.
abbrev Splits : ℕ → List Timer → Option (Timer × List Timer) → Type 0
Splits now ts none = ts ≡ []
Splits now ts (some (t, rest)) =
    (due_count now ts ≡ (if leb t.deadline now then 1 else 0) + due_count now rest)
    × (AllFit now ts → ModeFits now t.mode × AllFit now rest)

split_step :
    (now : ℕ) (t : Timer) (ts : List Timer) (o : Option (Timer × List Timer))
    → Splits now ts o
    → Splits now (t ∷ ts) (elim o [
      | none ↦ some (t, [])
      | some (u, rest) ↦ if before u t then some (u, t ∷ rest) else some (t, ts)
    ])
unfolding due_count
split_step now t ts none empty = rw empty (refl, λ f. (f.0, tt))
split_step now t ts (some (u, rest)) (count, fit) = elim (Bool-cases (before u t)) [
  | inl above ↦ rw above (omega arith, λ f. ((fit f.1).0, (f.0, (fit f.1).1)))
  | inr below ↦ rw below (refl, λ f. f)
]

pop-Splits : (now : ℕ) (ts : List Timer) → Splits now ts (pop ts)
unfolding pop
pop-Splits now [] = refl
pop-Splits now (t ∷ ts) = split_step now t ts (pop ts) (pop-Splits now ts)

new_deadline_later :
    (now : ℕ) (t : Timer) (interval : ℕ) (policy : TimerPolicy)
    → ModeFits now (repeating interval)
    → t.deadline ≤ now
    → now < new_deadline now t interval policy
new_deadline_later now t interval fixed_rate (positive, fits) due =
    (new_deadline_bounds now t interval positive due fits).0
new_deadline_later now t interval fixed_delay (positive, fits) due =
    let same = (new_deadline_bounds now t interval positive due fits).3 in omega arith

-- What is put back is not due, and fits.
fire-back :
    (now : ℕ) (t : Timer) (mode : TimerMode)
    → ModeFits now mode
    → ModeFits now t.mode
    → t.deadline ≤ now
    → (due_count now (fire now t mode).1 ≡ 0) × AllFit now (fire now t mode).1
unfolding fire due_count
fire-back now t one_shot fits own due = (refl, tt)
fire-back now t (repeating interval) fits own due =
    let later = new_deadline_later now t interval t.policy fits due in (ground arith, (own, tt))

-- `n` calls of `pop_expired`.
pub drain : ℕ → ChronoLine → ChronoLine
drain zero c = c
drain (suc n) c = drain n (pop_expired c).1

-- A pop hands out nothing, or lowers the number of due timers.
abbrev Lowers : ChronoLine → Option Timer × ChronoLine → Type 0
Lowers c (none, c') = (c' ≡ c) × (has_expired c ≡ false)
Lowers c (some t, c') =
    (due_count c.now c.timers ≡ suc (due_count c.now c'.timers))
    × AllFit c.now c'.timers
    × (c'.now ≡ c.now)

pop_expired-Lowers : (c : ChronoLine) → AllFit c.now c.timers → Lowers c (pop_expired c)
unfolding pop_expired
pop_expired-Lowers c fits = elim (Option-cases (pop c.timers)) [
  | inl e ↦ rw (has_expired-none c e) (refl, has_expired-none c e)
  | inr ((t, rest), e) ↦
      let (count, fit) = subst (Splits c.now c.timers) e (pop-Splits c.now c.timers) in
      let expired = has_expired-some c t rest e in
      elim (Bool-cases (leb t.deadline c.now)) [
        | inl due ↦
            let back = fire-back c.now t t.mode (fit fits).0 (fit fits).0 (ground arith) in
            rw (expired, due, e)
              (
                ground (arith, count, due_count-append c.now rest (fire c.now t t.mode).1, back.0),
                AllFit-append c.now rest (fire c.now t t.mode).1 (fit fits).1 back.1,
                refl,
              )
        | inr early ↦ rw (expired, early) (refl, expired ∙ early)
      ]
]

drain_done : (n : ℕ) (c : ChronoLine) → has_expired c ≡ false → drain n c ≡ c
unfolding drain pop_expired
drain_done zero c e = refl
drain_done (suc n) c e = rw e (drain_done n c e)

drain_step :
    (n : ℕ) (c : ChronoLine) (r : Option Timer × ChronoLine)
    → Lowers c r
    → due_count c.now c.timers ≤ suc n
    → ((c' : ChronoLine)
        → AllFit c'.now c'.timers
        → due_count c'.now c'.timers ≤ n
        → has_expired (drain n c') ≡ false)
    → has_expired (drain n r.1) ≡ false
drain_step n c (none, c') (same, quiet) enough ih = rw (same, drain_done n c quiet) quiet
drain_step n c (some t, c') (count, fits, now) enough ih =
    ih c' (rw now fits) (rw now (omega arith))

quiet_at_zero :
    (c : ChronoLine) (r : Option Timer × ChronoLine)
    → Lowers c r
    → due_count c.now c.timers ≤ 0
    → has_expired c ≡ false
quiet_at_zero c (none, c') (same, quiet) enough = quiet
quiet_at_zero c (some t, c') (count, fits, now) enough = ground arith

-- Where every interval is positive and a next run from now fits 64 bits, as many calls of
-- `pop_expired` as there are timers due leave none due: the loop that pops until nothing is left
-- ends, though repeating timers are put back.
pub has_expired-drain :
    (n : ℕ) (c : ChronoLine)
    → AllFit c.now c.timers
    → due_count c.now c.timers ≤ n
    → has_expired (drain n c) ≡ false
unfolding drain
has_expired-drain zero c fits enough =
    quiet_at_zero c (pop_expired c) (pop_expired-Lowers c fits) enough
has_expired-drain (suc n) c fits enough =
    drain_step n c (pop_expired c) (pop_expired-Lowers c fits) enough (has_expired-drain n)
