-- ===== src/Calculator/Ending.antt =====
-- The calculator never runs out of fuel.
use fullerene.Base.{
  ℕ, zero, suc, ◌+◌, ◌-◌, ◌*◌, ◌^◌, ◌≤◌, ◌<◌, ◌≡◌, ◌≢◌, inl, inr, true, Option, none, some, List,
  [], ◌∷◌, length, arith, ltb, Bool-cases,
}
use fullerene.Calculator.{
  ℤ, pos, Outcome, done, failed, spent, from_option, ◌>>=◌, checked_add, checked_sub, checked_mul,
  checked_div, checked_neg, Token, num, plus, minus, mul, div, lparen, rparen, parse_expr,
  expr_rest, parse_term, term_rest, parse_factor, closed, whole, is_digit, is_space, symbol, number,
  tokenize, evaluate,
}

-- The call ends, and if it has a value it leaves fewer than `n` tokens.
abbrev Ends : ℕ → Outcome (ℤ × List Token) → Type 0
Ends n (done p) = length p.1 < n
Ends n failed = Unit {0}
Ends n spent = ⊥

bind-Ends :
    (n m : ℕ) (o : Outcome (ℤ × List Token)) (g : ℤ × List Token → Outcome (ℤ × List Token))
    → Ends n o
    → ((p : ℤ × List Token) → length p.1 < n → Ends m (g p))
    → Ends m (o >>= g)
bind-Ends n m (done p) g h k = k p h
bind-Ends n m failed g h k = tt
bind-Ends n m spent g h k = h

option-Ends :
    (m : ℕ) (o : Option ℤ) (g : ℤ → Outcome (ℤ × List Token))
    → ((z : ℤ) → Ends m (g z))
    → Ends m (from_option o >>= g)
option-Ends m none g k = tt
option-Ends m (some z) g k = k z

closed-Ends : (m : ℕ) (z : ℤ) (ts : List Token) → length ts ≤ m → Ends m (closed z ts)
unfolding closed
closed-Ends m z [] h = tt
closed-Ends m z (rparen ∷ ts) h = omega arith
closed-Ends m z (num y ∷ ts) h = tt
closed-Ends m z (plus ∷ ts) h = tt
closed-Ends m z (minus ∷ ts) h = tt
closed-Ends m z (mul ∷ ts) h = tt
closed-Ends m z (div ∷ ts) h = tt
closed-Ends m z (lparen ∷ ts) h = tt

mutual
  unfolding parse_expr

  expr-Ends : (f : ℕ) (ts : List Token) → 4 * length ts + 4 ≤ f → Ends (length ts) (parse_expr f ts)
  expr-Ends zero ts h = absurd (omega arith)
  expr-Ends (suc f) ts h =
      bind-Ends (length ts) (length ts) (parse_term f ts) (λ p. expr_rest f p.0 p.1)
        (term-Ends f ts (omega arith)) (λ p q. expr_rest-Ends f (length ts) p.0 p.1 (omega arith) q)

  expr_rest-Ends :
      (f n : ℕ) (z : ℤ) (ts : List Token)
      → 4 * length ts + 1 ≤ f
      → length ts < n
      → Ends n (expr_rest f z ts)
  expr_rest-Ends zero n z ts h q = absurd (omega arith)
  expr_rest-Ends (suc f) n z [] h q = q
  expr_rest-Ends (suc f) n z (plus ∷ ts) h q =
      bind-Ends (length ts) n (parse_term f ts)
        (λ p. from_option (checked_add z p.0) >>= λ s. expr_rest f s p.1)
        (term-Ends f ts (omega arith))
        (λ p r.
          option-Ends n (checked_add z p.0) (λ s. expr_rest f s p.1)
            (λ s. expr_rest-Ends f n s p.1 (omega arith) (omega arith)))
  expr_rest-Ends (suc f) n z (minus ∷ ts) h q =
      bind-Ends (length ts) n (parse_term f ts)
        (λ p. from_option (checked_sub z p.0) >>= λ s. expr_rest f s p.1)
        (term-Ends f ts (omega arith))
        (λ p r.
          option-Ends n (checked_sub z p.0) (λ s. expr_rest f s p.1)
            (λ s. expr_rest-Ends f n s p.1 (omega arith) (omega arith)))
  expr_rest-Ends (suc f) n z (num y ∷ ts) h q = q
  expr_rest-Ends (suc f) n z (mul ∷ ts) h q = q
  expr_rest-Ends (suc f) n z (div ∷ ts) h q = q
  expr_rest-Ends (suc f) n z (lparen ∷ ts) h q = q
  expr_rest-Ends (suc f) n z (rparen ∷ ts) h q = q

  term-Ends : (f : ℕ) (ts : List Token) → 4 * length ts + 3 ≤ f → Ends (length ts) (parse_term f ts)
  term-Ends zero ts h = absurd (omega arith)
  term-Ends (suc f) ts h =
      bind-Ends (length ts) (length ts) (parse_factor f ts) (λ p. term_rest f p.0 p.1)
        (factor-Ends f ts (omega arith))
        (λ p q. term_rest-Ends f (length ts) p.0 p.1 (omega arith) q)

  term_rest-Ends :
      (f n : ℕ) (z : ℤ) (ts : List Token)
      → 4 * length ts + 1 ≤ f
      → length ts < n
      → Ends n (term_rest f z ts)
  term_rest-Ends zero n z ts h q = absurd (omega arith)
  term_rest-Ends (suc f) n z [] h q = q
  term_rest-Ends (suc f) n z (mul ∷ ts) h q =
      bind-Ends (length ts) n (parse_factor f ts)
        (λ p. from_option (checked_mul z p.0) >>= λ s. term_rest f s p.1)
        (factor-Ends f ts (omega arith))
        (λ p r.
          option-Ends n (checked_mul z p.0) (λ s. term_rest f s p.1)
            (λ s. term_rest-Ends f n s p.1 (omega arith) (omega arith)))
  term_rest-Ends (suc f) n z (div ∷ ts) h q =
      bind-Ends (length ts) n (parse_factor f ts)
        (λ p. from_option (checked_div z p.0) >>= λ s. term_rest f s p.1)
        (factor-Ends f ts (omega arith))
        (λ p r.
          option-Ends n (checked_div z p.0) (λ s. term_rest f s p.1)
            (λ s. term_rest-Ends f n s p.1 (omega arith) (omega arith)))
  term_rest-Ends (suc f) n z (num y ∷ ts) h q = q
  term_rest-Ends (suc f) n z (plus ∷ ts) h q = q
  term_rest-Ends (suc f) n z (minus ∷ ts) h q = q
  term_rest-Ends (suc f) n z (lparen ∷ ts) h q = q
  term_rest-Ends (suc f) n z (rparen ∷ ts) h q = q

  factor-Ends :
      (f : ℕ) (ts : List Token) → 4 * length ts + 1 ≤ f → Ends (length ts) (parse_factor f ts)
  factor-Ends zero ts h = absurd (omega arith)
  factor-Ends (suc f) [] h = tt
  factor-Ends (suc f) (num z ∷ ts) h = omega arith
  factor-Ends (suc f) (minus ∷ ts) h =
      bind-Ends (length ts) (suc (length ts)) (parse_factor f ts)
        (λ p. from_option (checked_neg p.0) >>= λ z. done (z, p.1)) (factor-Ends f ts (omega arith))
        (λ p q.
          option-Ends (suc (length ts)) (checked_neg p.0) (λ z. done (z, p.1)) (λ z. omega arith))
  factor-Ends (suc f) (lparen ∷ ts) h =
      bind-Ends (length ts) (suc (length ts)) (parse_expr f ts) (λ p. closed p.0 p.1)
        (expr-Ends f ts (omega arith)) (λ p q. closed-Ends (suc (length ts)) p.0 p.1 (omega arith))
  factor-Ends (suc f) (plus ∷ ts) h = tt
  factor-Ends (suc f) (mul ∷ ts) h = tt
  factor-Ends (suc f) (div ∷ ts) h = tt
  factor-Ends (suc f) (rparen ∷ ts) h = tt

-- The digits of a number leave at most `n` bytes.
abbrev Leaves : ℕ → Option (ℕ × List ℕ) → Type 0
Leaves n none = Unit {0}
Leaves n (some p) = length p.1 ≤ n

number-Leaves : (val : ℕ) (bs : List ℕ) (n : ℕ) → length bs ≤ n → Leaves n (number val bs)
unfolding number
number-Leaves val [] n h = omega arith
number-Leaves val (b ∷ bs) n h =
    let val' : ℕ = val * 10 + (b - 48) in
    elim (Bool-cases (is_digit b)) [
      | inr other ↦ rw (number, other) h
      | inl digit ↦ elim (Bool-cases (ltb val' (2 ^ 63))) [
        | inl fits ↦ rw (number, digit, fits) (number-Leaves val' bs n (omega arith))
        | inr over ↦ rw (number, digit, over) tt
      ]
    ]

-- The first byte of a number is its own.
number-Leaves_fewer :
    (b : ℕ) (bs : List ℕ) → is_digit b ≡ true → Leaves (length bs) (number 0 (b ∷ bs))
unfolding number
number-Leaves_fewer b bs digit =
    let val' : ℕ = 0 * 10 + (b - 48) in
    elim (Bool-cases (ltb val' (2 ^ 63))) [
      | inl fits ↦ rw (number, digit, fits) (number-Leaves val' bs (length bs) (omega arith))
      | inr over ↦ rw (number, digit, over) tt
    ]

abbrev IsOver : Outcome (List Token) → Type 0
IsOver (done ts) = Unit {0}
IsOver failed = Unit {0}
IsOver spent = ⊥

add-IsOver : (t : Token) (o : Outcome (List Token)) → IsOver o → IsOver (o >>= λ ts. done (t ∷ ts))
add-IsOver t (done ts) h = tt
add-IsOver t failed h = tt
add-IsOver t spent h = h

symbol-IsOver :
    (s : Option Token) (o : Outcome (List Token))
    → IsOver o
    → IsOver (from_option s >>= λ t. o >>= λ ts. done (t ∷ ts))
symbol-IsOver none o h = tt
symbol-IsOver (some t) o h = add-IsOver t o h

number-IsOver :
    (s : Option (ℕ × List ℕ)) (f n : ℕ)
    → Leaves n s
    → ((bs : List ℕ) → length bs ≤ n → IsOver (tokenize f bs))
    → IsOver (from_option s >>= λ p. tokenize f p.1 >>= λ ts. done (num (pos p.0) ∷ ts))
number-IsOver none f n h k = tt
number-IsOver (some p) f n h k = add-IsOver (num (pos p.0)) (tokenize f p.1) (k p.1 h)

tokenize-IsOver : (f : ℕ) (bs : List ℕ) → length bs ≤ f → IsOver (tokenize f bs)
unfolding tokenize
tokenize-IsOver zero [] h = tt
tokenize-IsOver (suc f) [] h = tt
tokenize-IsOver zero (b ∷ bs) h = absurd (omega arith)
tokenize-IsOver (suc f) (b ∷ bs) h = elim (Bool-cases (is_space b)) [
  | inl space ↦ rw (tokenize, space) (tokenize-IsOver f bs (omega arith))
  | inr mark ↦ elim (Bool-cases (is_digit b)) [
    | inl digit ↦
        let over : IsOver (
            from_option (number 0 (b ∷ bs)) >>= λ p.
            tokenize f p.1 >>= λ ts. done (num (pos p.0) ∷ ts)) =
          number-IsOver (number 0 (b ∷ bs)) f (length bs) (number-Leaves_fewer b bs digit)
            (λ rest q. tokenize-IsOver f rest (omega arith)) in
        rw (tokenize, mark, digit) (rw (number, digit) at over)
    | inr other ↦
        rw (tokenize, mark, other)
          (symbol-IsOver (symbol b) (tokenize f bs) (tokenize-IsOver f bs (omega arith)))
  ]
]

whole-over : (n : ℕ) (o : Outcome (ℤ × List Token)) → Ends n o → (o >>= whole) ≢ spent
whole-over n (done (z, [])) h = λ e. cc
whole-over n (done (z, t ∷ ts)) h = λ e. cc
whole-over n failed h = λ e. cc
whole-over n spent h = absurd h

parse-over :
    (o : Outcome (List Token))
    → IsOver o
    → (o >>= λ ts. parse_expr (4 * length ts + 4) ts >>= whole) ≢ spent
parse-over (done ts) h =
    whole-over (length ts) (parse_expr (4 * length ts + 4) ts)
      (expr-Ends (4 * length ts + 4) ts (omega arith))
parse-over failed h = λ e. cc
parse-over spent h = absurd h

-- On any bytes at all the calculator returns a value or `None`: its loops and its recursion end
-- within their fuel.
pub evaluate_terminates : (bytes : List ℕ) → evaluate bytes ≢ spent
unfolding evaluate
evaluate_terminates bytes =
    parse-over (tokenize (length bytes) bytes) (tokenize-IsOver (length bytes) bytes (omega arith))
