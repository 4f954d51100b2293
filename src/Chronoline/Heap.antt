-- ===== src/Chronoline/Heap.antt =====
-- What `pop` takes from the heap: an element that no other precedes.
use mathlib.Core.List.{Perm}
use mathlib.Core.List.Perm
use fullerene.Base.{
  ◌+◌, ◌≡◌, refl, true, false, Option, none, some, List, [], ◌∷◌, if◌then◌else◌, arith, length,
  Bool-cases, inl, inr,
}
use fullerene.Chronoline.{Timer, before, pop}

-- No timer of the list is put above `t`.
abbrev pub NoneBefore : Timer → List Timer → Type 0
NoneBefore t [] = Unit {0}
NoneBefore t (u ∷ us) = (before u t ≡ false) × NoneBefore t us

before_irrefl : (t : Timer) → before t t ≡ false
unfolding before
before_irrefl t = ground arith

before_trans : (t u w : Timer) → before u t ≡ false → before w u ≡ false → before w t ≡ false
unfolding before
before_trans t u w p q = ground arith

before_asymm : (t u : Timer) → before u t ≡ true → before t u ≡ false
unfolding before
before_asymm t u p = ground arith

NoneBefore-trans :
    (t u : Timer) (us : List Timer) → before u t ≡ false → NoneBefore u us → NoneBefore t us
NoneBefore-trans t u [] p n = tt
NoneBefore-trans t u (w ∷ ws) p n = (before_trans t u w p n.0, NoneBefore-trans t u ws p n.1)

-- What a pop promises: the elements are kept, and none precedes the one taken.
abbrev pub Popped : List Timer → Option (Timer × List Timer) → Type 0
Popped ts none = ts ≡ []
Popped ts (some (t, rest)) = Perm ts (t ∷ rest) × NoneBefore t ts × (length ts ≡ length rest + 1)

pop_step :
    (t : Timer) (ts : List Timer) (o : Option (Timer × List Timer))
    → Popped ts o
    → Popped (t ∷ ts) (elim o [
      | none ↦ some (t, [])
      | some (u, rest) ↦ if before u t then some (u, t ∷ rest) else some (t, ts)
    ])
pop_step t ts none empty = rw empty (Perm.refl (t ∷ []), (before_irrefl t, tt), omega arith)
pop_step t ts (some (u, rest)) (perm, first, len) = elim (Bool-cases (before u t)) [
  | inl above ↦ rw above (
    Perm.trans (Perm.cons t perm) (Perm.swap u t rest),
    (before_asymm t u above, first),
    omega arith,
  )
  | inr below ↦
      rw below
        (Perm.refl (t ∷ ts), (before_irrefl t, NoneBefore-trans t u ts below first), omega arith)
]

pub pop-Popped : (ts : List Timer) → Popped ts (pop ts)
unfolding pop
pop-Popped [] = refl
pop-Popped (t ∷ ts) = pop_step t ts (pop ts) (pop-Popped ts)
