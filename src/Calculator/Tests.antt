-- ===== src/Calculator/Tests.antt =====
-- Runs of the calculator, and its theorem at a concrete line.
use fullerene.Calculator.Ending.{evaluate_terminates}
use fullerene.Base.{◌≢◌, ℕ, ◌≡◌, refl, List, [], ◌∷◌}
use fullerene.Calculator.{pos, negsuc, done, failed, spent, evaluate}

-- 1+2*3
precedence : evaluate (49 ∷ 43 ∷ 50 ∷ 42 ∷ 51 ∷ []) ≡ done (pos 7)
unfolding evaluate
precedence = refl

-- (1+2)*3
parentheses : evaluate (40 ∷ 49 ∷ 43 ∷ 50 ∷ 41 ∷ 42 ∷ 51 ∷ []) ≡ done (pos 9)
unfolding evaluate
parentheses = refl

-- 5-3-4, from left to right
from_left : evaluate (53 ∷ 45 ∷ 51 ∷ 45 ∷ 52 ∷ []) ≡ done (negsuc 1)
unfolding evaluate
from_left = refl

-- 1/0
division_by_zero : evaluate (49 ∷ 47 ∷ 48 ∷ []) ≡ failed
unfolding evaluate
division_by_zero = refl

-- "1 +"
incomplete : evaluate (49 ∷ 32 ∷ 43 ∷ []) ≡ failed
unfolding evaluate
incomplete = refl

-- (12+-(7/2))
abbrev line : List ℕ
line = 40 ∷ 49 ∷ 50 ∷ 43 ∷ 45 ∷ 40 ∷ 55 ∷ 47 ∷ 50 ∷ 41 ∷ 41 ∷ []

evaluate_terminates_example : evaluate line ≢ spent
evaluate_terminates_example = evaluate_terminates line
