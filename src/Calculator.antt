-- ===== src/Calculator.antt =====
-- toluene/src/calc.rs: the calculator. A string is the list of its bytes; a place among the tokens is
-- the list of the tokens from there on. An `i64` is an integer in its range, and each call has fuel.
pub mod Ending
mod Tests
use fullerene.Base.{
  ℕ, zero, suc, ◌+◌, ◌-◌, ◌*◌, ◌/◌, ◌^◌, Bool, true, false, ◌&&◌, ◌||◌, Option, none, some, List,
  [], ◌∷◌, length, if◌then◌else◌, leb, ltb, ◌==◌,
}

pub data ℤ : Type 0 where
  pos negsuc : ℕ → ℤ

-- The answer of a call, `None`, or out of fuel.
pub data Outcome (A : Type 0) : Type 0 where
  done : A → Outcome A
  failed spent : Outcome A

infixl 5 ◌>>=◌
abbrev pub ◌>>=◌ : {A B : Type 0} → Outcome A → (A → Outcome B) → Outcome B
done a >>= f = f a
failed >>= f = failed
spent >>= f = spent

abbrev pub from_option : {A : Type 0} → Option A → Outcome A
from_option none = failed
from_option (some a) = done a

pub neg : ℤ → ℤ
neg (pos zero) = pos zero
neg (pos (suc n)) = negsuc n
neg (negsuc n) = pos (suc n)

difference : ℕ → ℕ → ℤ
difference m n = if ltb m n then negsuc (n - m - 1) else pos (m - n)

infixl 6 ◌+ℤ◌
pub ◌+ℤ◌ : ℤ → ℤ → ℤ
unfolding difference
pos m +ℤ pos n = pos (m + n)
pos m +ℤ negsuc n = difference m (suc n)
negsuc m +ℤ pos n = difference n (suc m)
negsuc m +ℤ negsuc n = negsuc (suc (m + n))

infixl 7 ◌*ℤ◌
pub ◌*ℤ◌ : ℤ → ℤ → ℤ
unfolding neg
pos m *ℤ pos n = pos (m * n)
pos m *ℤ negsuc n = neg (pos (m * suc n))
negsuc m *ℤ pos n = neg (pos (suc m * n))
negsuc m *ℤ negsuc n = pos (suc m * suc n)

-- The quotient, rounded to zero.
pub quotient : ℤ → ℤ → ℤ
unfolding neg
quotient (pos m) (pos n) = pos (m / n)
quotient (pos m) (negsuc n) = neg (pos (m / suc n))
quotient (negsuc m) (pos n) = neg (pos (suc m / n))
quotient (negsuc m) (negsuc n) = pos (suc m / suc n)

-- The integer, if it is an `i64`.
pub in_range : ℤ → Option ℤ
in_range (pos n) = if ltb n (2 ^ 63) then some (pos n) else none
in_range (negsuc n) = if ltb n (2 ^ 63) then some (negsuc n) else none

pub checked_add : ℤ → ℤ → Option ℤ
unfolding ◌+ℤ◌ in_range
checked_add a b = in_range (a +ℤ b)

pub checked_sub : ℤ → ℤ → Option ℤ
unfolding ◌+ℤ◌ neg in_range
checked_sub a b = in_range (a +ℤ neg b)

pub checked_mul : ℤ → ℤ → Option ℤ
unfolding ◌*ℤ◌ in_range
checked_mul a b = in_range (a *ℤ b)

pub is_zero : ℤ → Bool
is_zero (pos zero) = true
is_zero (pos (suc n)) = false
is_zero (negsuc n) = false

-- `None` for a division by 0.
pub checked_div : ℤ → ℤ → Option ℤ
unfolding quotient in_range is_zero
checked_div a b = if is_zero b then none else in_range (quotient a b)

pub checked_neg : ℤ → Option ℤ
unfolding neg in_range
checked_neg a = in_range (neg a)

pub data Token : Type 0 where
  num : ℤ → Token
  plus minus mul div lparen rparen : Token

pub is_digit : ℕ → Bool
is_digit b = leb 48 b && leb b 57

-- The digits at the head of the bytes, behind a number that has the value `val`.
pub number : ℕ → List ℕ → Option (ℕ × List ℕ)
unfolding is_digit
number val [] = some (val, [])
number val (b ∷ bs) =
    let val' = val * 10 + (b - 48) in
    let rest = number val' bs in
    if is_digit b then (if ltb val' (2 ^ 63) then rest else none) else some (val, b ∷ bs)

-- The token of a byte.
pub symbol : ℕ → Option Token
symbol b =
    if b == 43
    then some plus
    else if b == 45
    then some minus
    else if b == 42
    then some mul
    else if b == 47
    then some div
    else if b == 40
    then some lparen
    else if b == 41
    then some rparen
    else none

pub is_space : ℕ → Bool
is_space b = b == 32 || b == 9 || b == 10 || b == 13

pub tokenize : ℕ → List ℕ → Outcome (List Token)
unfolding is_digit number symbol is_space
tokenize fuel [] = done []
tokenize zero (b ∷ bs) = spent
tokenize (suc fuel) (b ∷ bs) =
    let skipped = tokenize fuel bs in
    let after = λ (p : ℕ × List ℕ). tokenize fuel p.1 >>= λ ts. done (num (pos p.0) ∷ ts) in
    if is_space b
    then skipped
    else if is_digit b
    then from_option (number 0 (b ∷ bs)) >>= after
    else from_option (symbol b) >>= λ t. skipped >>= λ ts. done (t ∷ ts)

-- The closing parenthesis of a factor.
pub closed : ℤ → List Token → Outcome (ℤ × List Token)
closed z [] = failed
closed z (rparen ∷ ts) = done (z, ts)
closed z (num y ∷ ts) = failed
closed z (plus ∷ ts) = failed
closed z (minus ∷ ts) = failed
closed z (mul ∷ ts) = failed
closed z (div ∷ ts) = failed
closed z (lparen ∷ ts) = failed

mutual
  unfolding checked_add checked_sub checked_mul checked_div checked_neg closed

  pub parse_expr : ℕ → List Token → Outcome (ℤ × List Token)
  parse_expr zero ts = spent
  parse_expr (suc fuel) ts = do p ← parse_term fuel ts; expr_rest fuel p.0 p.1

  -- The loop of `parse_expr`.
  pub expr_rest : ℕ → ℤ → List Token → Outcome (ℤ × List Token)
  expr_rest zero left ts = spent
  expr_rest (suc fuel) left [] = done (left, [])
  expr_rest (suc fuel) left (plus ∷ ts) = do
    p ← parse_term fuel ts
    sum ← from_option (checked_add left p.0)
    expr_rest fuel sum p.1
  expr_rest (suc fuel) left (minus ∷ ts) = do
    p ← parse_term fuel ts
    sum ← from_option (checked_sub left p.0)
    expr_rest fuel sum p.1
  expr_rest (suc fuel) left (num z ∷ ts) = done (left, num z ∷ ts)
  expr_rest (suc fuel) left (mul ∷ ts) = done (left, mul ∷ ts)
  expr_rest (suc fuel) left (div ∷ ts) = done (left, div ∷ ts)
  expr_rest (suc fuel) left (lparen ∷ ts) = done (left, lparen ∷ ts)
  expr_rest (suc fuel) left (rparen ∷ ts) = done (left, rparen ∷ ts)

  pub parse_term : ℕ → List Token → Outcome (ℤ × List Token)
  parse_term zero ts = spent
  parse_term (suc fuel) ts = do p ← parse_factor fuel ts; term_rest fuel p.0 p.1

  -- The loop of `parse_term`.
  pub term_rest : ℕ → ℤ → List Token → Outcome (ℤ × List Token)
  term_rest zero left ts = spent
  term_rest (suc fuel) left [] = done (left, [])
  term_rest (suc fuel) left (mul ∷ ts) = do
    p ← parse_factor fuel ts
    product ← from_option (checked_mul left p.0)
    term_rest fuel product p.1
  term_rest (suc fuel) left (div ∷ ts) = do
    p ← parse_factor fuel ts
    result ← from_option (checked_div left p.0)
    term_rest fuel result p.1
  term_rest (suc fuel) left (num z ∷ ts) = done (left, num z ∷ ts)
  term_rest (suc fuel) left (plus ∷ ts) = done (left, plus ∷ ts)
  term_rest (suc fuel) left (minus ∷ ts) = done (left, minus ∷ ts)
  term_rest (suc fuel) left (lparen ∷ ts) = done (left, lparen ∷ ts)
  term_rest (suc fuel) left (rparen ∷ ts) = done (left, rparen ∷ ts)

  pub parse_factor : ℕ → List Token → Outcome (ℤ × List Token)
  parse_factor zero ts = spent
  parse_factor (suc fuel) [] = failed
  parse_factor (suc fuel) (num z ∷ ts) = done (z, ts)
  parse_factor (suc fuel) (minus ∷ ts) = do
    p ← parse_factor fuel ts
    z ← from_option (checked_neg p.0)
    done (z, p.1)
  parse_factor (suc fuel) (lparen ∷ ts) = do p ← parse_expr fuel ts; closed p.0 p.1
  parse_factor (suc fuel) (plus ∷ ts) = failed
  parse_factor (suc fuel) (mul ∷ ts) = failed
  parse_factor (suc fuel) (div ∷ ts) = failed
  parse_factor (suc fuel) (rparen ∷ ts) = failed

abbrev pub whole : ℤ × List Token → Outcome ℤ
whole (z, []) = done z
whole (z, t ∷ ts) = failed

pub evaluate : List ℕ → Outcome ℤ
unfolding tokenize parse_expr
evaluate bytes = do
  ts ← tokenize (length bytes) bytes
  p ← parse_expr (4 * length ts + 4) ts
  whole p
