-- ===== src/Chronoline/Cancel.antt =====
-- Which timers `cancel` takes out.
use fullerene.Base.{
  ℕ, ◌+◌, ◌≡◌, refl, ap, false, not, List, [], ◌∷◌, if◌then◌else◌, arith, length, ◌==◌, Bool-cases,
  inl, inr,
}
use fullerene.Chronoline.{Timer, ChronoLine, retain_others, cancel}

-- How many timers of the list have the id.
pub id_count : ℕ → List Timer → ℕ
id_count id [] = 0
id_count id (t ∷ ts) = (if t.id == id then 1 else 0) + id_count id ts

id_count-retain_others :
    (id other : ℕ) (ts : List Timer)
    → id_count other (retain_others id ts) ≡ (if other == id then 0 else id_count other ts)
unfolding retain_others id_count
id_count-retain_others id other [] = ground arith
id_count-retain_others id other (t ∷ ts) =
    let ih = id_count-retain_others id other ts in ground arith

length-retain_others :
    (id : ℕ) (ts : List Timer) → length (retain_others id ts) + id_count id ts ≡ length ts
unfolding retain_others id_count
length-retain_others id [] = refl
length-retain_others id (t ∷ ts) = let ih = length-retain_others id ts in ground arith

absent : (id : ℕ) (ts : List Timer) → id_count id ts ≡ 0 → retain_others id ts ≡ ts
unfolding retain_others id_count
absent id [] none_left = refl
absent id (t ∷ ts) none_left = elim (Bool-cases (t.id == id)) [
  | inl e ↦ ground arith
  | inr e ↦ rw e (ap (λ us. t ∷ us) (absent id ts (ground arith)))
]

retain_others-none :
    (id : ℕ) (ts : List Timer) → length (retain_others id ts) ≡ length ts → retain_others id ts ≡ ts
retain_others-none id ts same = absent id ts (let size = length-retain_others id ts in omega arith)

-- `cancel` says whether a timer has the id, takes out every timer that has it and as many as have
-- it, keeps the number of timers of every other id, and leaves the time as it is. Without such a
-- timer nothing changes.
pub cancel_lem :
    (c : ChronoLine) (id : ℕ)
    → ((cancel c id).0 ≡ not (id_count id c.timers == 0))
      × ((other : ℕ)
          → id_count other (cancel c id).1.timers
            ≡ (if other == id then 0 else id_count other c.timers))
      × (length (cancel c id).1.timers + id_count id c.timers ≡ length c.timers)
      × ((cancel c id).1.now ≡ c.now)
      × ((cancel c id).0 ≡ false → (cancel c id).1 ≡ c)
unfolding cancel
cancel_lem c id =
    let size = length-retain_others id c.timers in
    (
      ground arith,
      λ other. id_count-retain_others id other c.timers,
      size,
      refl,
      λ e.
          ap (λ ts. record c { timers = ts })
            (retain_others-none id c.timers (ground (arith, size))),
    )
