-- ===== src/LineEditor/Editing.antt =====
-- What each editing key does to the line, as a pair of what is before the cursor and what is from it
-- on. What stands on the screen is not stated here.
use fullerene.Base.{
  ℕ, zero, suc, ◌+◌, ◌-◌, ◌<◌, ◌≡◌, refl, ◌∙◌, sym, ap, true, false, List, [], ◌∷◌, ◌++◌, arith,
  leb, ltb, ◌==◌, length, length-append,
}
use fullerene.LineEditor.{
  LineEditor, Terminal, Strings, insert, remove, do_insert, do_backspace, do_delete, do_cursor_left,
  do_cursor_right, home_loop, do_home, end_loop, do_end, do_clear_line,
}

append_nil : (a : List ℕ) → a ++ [] ≡ a
append_nil [] = refl
append_nil (x ∷ a) = ap (λ l. x ∷ l) (append_nil a)

append_assoc : (a b c : List ℕ) → (a ++ b) ++ c ≡ a ++ (b ++ c)
append_assoc [] b c = refl
append_assoc (x ∷ a) b c = ap (λ l. x ∷ l) (append_assoc a b c)

insert-append : (a b : List ℕ) (v : ℕ) → insert (a ++ b) (length a) v ≡ a ++ (v ∷ b)
unfolding insert
insert-append [] [] v = refl
insert-append [] (y ∷ b) v = refl
insert-append (x ∷ a) b v = ap (λ l. x ∷ l) (insert-append a b v)

remove-append : (a b : List ℕ) (x : ℕ) → remove (a ++ (x ∷ b)) (length a) ≡ a ++ b
unfolding remove
remove-append [] b x = refl
remove-append (y ∷ a) b x = ap (λ l. y ∷ l) (remove-append a b x)

leb-length : (a b : List ℕ) (x : ℕ) → leb (length (a ++ (x ∷ b))) (length a) ≡ false
leb-length a b x = let size = length-append a (x ∷ b) in ground (arith, size)

ltb-length : (a b : List ℕ) (x : ℕ) → ltb (length a) (length (a ++ (x ∷ b))) ≡ true
ltb-length a b x = let size = length-append a (x ∷ b) in ground (arith, size)

leb_self : (n : ℕ) → leb n n ≡ true
leb_self n = ground arith

ltb_self : (n : ℕ) → ltb n n ≡ false
ltb_self n = ground arith

length-snoc : (a : List ℕ) (x : ℕ) → length (a ++ x ∷ []) ≡ length a + 1
length-snoc a x = omega (arith, length-append a (x ∷ []))

-- The editor `e` with the line `a` before the cursor and `b` from it on.
abbrev pub at : LineEditor → List ℕ → List ℕ → LineEditor
at e a b = record e { buffer = a ++ b; cursor = length a }

module _ {T : Type 0} (terminal : Terminal T) (strings : Strings) where
  do_insert-at :
      (e : LineEditor) (t : T) (a b : List ℕ) (ch : ℕ)
      → (do_insert terminal strings (at e a b) ch t).0 ≡ at e (a ++ ch ∷ []) b
  unfolding do_insert
  do_insert-at e t a [] ch =
      rw (append_nil a, leb_self (length a))
        (ap (λ s. record e { buffer = s; cursor = length (a ++ ch ∷ []) })
          (sym (append_nil (a ++ ch ∷ []))))
  do_insert-at e t a (x ∷ b) ch =
      rw (leb-length a b x, insert-append a (x ∷ b) ch, sym (length-snoc a ch))
        (ap (λ s. record e { buffer = s; cursor = length (a ++ ch ∷ []) })
          (sym (append_assoc a (ch ∷ []) (x ∷ b))))

  do_backspace-at :
      (e : LineEditor) (t : T) (a b : List ℕ) (x : ℕ)
      → (do_backspace terminal strings (at e (a ++ x ∷ []) b) t).0 ≡ at e a b
  unfolding do_backspace
  do_backspace-at e t a b x =
      let size = length-snoc a x in
      let here : (length (a ++ x ∷ []) == 0) ≡ false = ground (arith, size) in
      let back : length (a ++ x ∷ []) - 1 ≡ length a = omega (arith, size) in
      rw (here, append_assoc a (x ∷ []) b, back, remove-append a b x) refl

  do_backspace-start :
      (e : LineEditor) (t : T) (b : List ℕ)
      → (do_backspace terminal strings (at e [] b) t).0 ≡ at e [] b
  unfolding do_backspace
  do_backspace-start e t b = refl

  do_delete-at :
      (e : LineEditor) (t : T) (a b : List ℕ) (x : ℕ)
      → (do_delete terminal strings (at e a (x ∷ b)) t).0 ≡ at e a b
  unfolding do_delete
  do_delete-at e t a b x = rw (leb-length a b x, remove-append a b x) refl

  do_delete-end :
      (e : LineEditor) (t : T) (a : List ℕ)
      → (do_delete terminal strings (at e a []) t).0 ≡ at e a []
  unfolding do_delete
  do_delete-end e t a = rw (append_nil a, leb_self (length a)) refl

  do_cursor_left-at :
      (e : LineEditor) (t : T) (a b : List ℕ) (x : ℕ)
      → (do_cursor_left terminal strings (at e (a ++ x ∷ []) b) t).0 ≡ at e a (x ∷ b)
  unfolding do_cursor_left
  do_cursor_left-at e t a b x =
      let size = length-snoc a x in
      let here : ltb 0 (length (a ++ x ∷ [])) ≡ true = ground (arith, size) in
      let back : length (a ++ x ∷ []) - 1 ≡ length a = omega (arith, size) in
      rw (here, append_assoc a (x ∷ []) b, back) refl

  do_cursor_left-start :
      (e : LineEditor) (t : T) (b : List ℕ)
      → (do_cursor_left terminal strings (at e [] b) t).0 ≡ at e [] b
  unfolding do_cursor_left
  do_cursor_left-start e t b = refl

  do_cursor_right-at :
      (e : LineEditor) (t : T) (a b : List ℕ) (x : ℕ)
      → (do_cursor_right terminal strings (at e a (x ∷ b)) t).0 ≡ at e (a ++ x ∷ []) b
  unfolding do_cursor_right
  do_cursor_right-at e t a b x =
      rw (ltb-length a b x) (rw (append_assoc a (x ∷ []) b, length-snoc a x) refl)

  do_cursor_right-end :
      (e : LineEditor) (t : T) (a : List ℕ)
      → (do_cursor_right terminal strings (at e a []) t).0 ≡ at e a []
  unfolding do_cursor_right
  do_cursor_right-end e t a = rw (append_nil a, ltb_self (length a)) refl

  left_step :
      (e : LineEditor) (t : T)
      → 0 < e.cursor
      → (do_cursor_left terminal strings e t).0 ≡ record e { cursor = e.cursor - 1 }
  unfolding do_cursor_left
  left_step e t p = let here : ltb 0 e.cursor ≡ true = ground arith in rw here refl

  right_step :
      (e : LineEditor) (t : T)
      → e.cursor < length e.buffer
      → (do_cursor_right terminal strings e t).0 ≡ record e { cursor = e.cursor + 1 }
  unfolding do_cursor_right
  right_step e t p = let here : ltb e.cursor (length e.buffer) ≡ true = ground arith in rw here refl

  home_loop-zero :
      (n : ℕ) (e : LineEditor) (t : T)
      → e.cursor ≡ n
      → (home_loop terminal strings n e t).0 ≡ record e { cursor = 0 }
  unfolding home_loop
  home_loop-zero zero e t h = ap (λ c. record e { cursor = c }) h
  home_loop-zero (suc n) e t h =
      let left = do_cursor_left terminal strings e t in
      let step = left_step e t (omega arith) in
      home_loop-zero n left.0 left.1 (ap (λ r. r.cursor) step ∙ omega arith)
      ∙ ap (λ (r : LineEditor). record r { cursor = 0 }) step

  end_loop-end :
      (n : ℕ) (e : LineEditor) (t : T)
      → e.cursor + n ≡ length e.buffer
      → (end_loop terminal strings n e t).0 ≡ record e { cursor = length e.buffer }
  unfolding end_loop
  end_loop-end zero e t h = ap (λ c. record e { cursor = c }) (omega arith)
  end_loop-end (suc n) e t h =
      let right = do_cursor_right terminal strings e t in
      let step = right_step e t (omega arith) in
      let moved : right.0.cursor ≡ e.cursor + 1 = ap (λ r. r.cursor) step in
      let same : right.0.buffer ≡ e.buffer = ap (λ r. r.buffer) step in
      end_loop-end n right.0 right.1 (rw (moved, same) (omega arith))
      ∙ ap (λ (r : LineEditor). record r { cursor = length r.buffer }) step

  do_home-at :
      (e : LineEditor) (t : T) (a b : List ℕ)
      → (do_home terminal strings (at e a b) t).0 ≡ at e [] (a ++ b)
  unfolding do_home
  do_home-at e t a b = home_loop-zero (length a) (at e a b) t refl

  do_end-at :
      (e : LineEditor) (t : T) (a b : List ℕ)
      → (do_end terminal strings (at e a b) t).0 ≡ at e (a ++ b) []
  unfolding do_end
  do_end-at e t a b =
      let size = length-append a b in
      end_loop-end (length (a ++ b) - length a) (at e a b) t (omega (arith, size))
      ∙ ap (λ s. record e { buffer = s; cursor = length (a ++ b) }) (sym (append_nil (a ++ b)))

  do_clear_line-at :
      (e : LineEditor) (t : T) (a b : List ℕ)
      → (do_clear_line terminal strings (at e a b) t).0 ≡ at e [] []
  unfolding do_clear_line
  do_clear_line-at e t a b =
      ap (λ (r : LineEditor). record r { buffer = []; cursor = 0 }) (do_home-at e t a b)

  -- Each editing key on a line with `a` before the cursor and `b` from it on. A byte typed comes
  -- last of `a`. Backspace takes out the last byte of `a`, delete the first of `b`; left and right
  -- move the byte next to the cursor to the other side. Where there is no such byte the editor
  -- stays. Home puts the cursor before the line, end behind it, and clearing leaves an empty line.
  -- All else in the editor stays.
  pub do_keys-at :
      (e : LineEditor) (t : T) (a b : List ℕ) (x : ℕ)
      → ((do_insert terminal strings (at e a b) x t).0 ≡ at e (a ++ x ∷ []) b)
        × ((do_backspace terminal strings (at e (a ++ x ∷ []) b) t).0 ≡ at e a b)
        × ((do_backspace terminal strings (at e [] b) t).0 ≡ at e [] b)
        × ((do_delete terminal strings (at e a (x ∷ b)) t).0 ≡ at e a b)
        × ((do_delete terminal strings (at e a []) t).0 ≡ at e a [])
        × ((do_cursor_left terminal strings (at e (a ++ x ∷ []) b) t).0 ≡ at e a (x ∷ b))
        × ((do_cursor_left terminal strings (at e [] b) t).0 ≡ at e [] b)
        × ((do_cursor_right terminal strings (at e a (x ∷ b)) t).0 ≡ at e (a ++ x ∷ []) b)
        × ((do_cursor_right terminal strings (at e a []) t).0 ≡ at e a [])
        × ((do_home terminal strings (at e a b) t).0 ≡ at e [] (a ++ b))
        × ((do_end terminal strings (at e a b) t).0 ≡ at e (a ++ b) [])
        × ((do_clear_line terminal strings (at e a b) t).0 ≡ at e [] [])
  do_keys-at e t a b x = (
    do_insert-at e t a b x,
    do_backspace-at e t a b x,
    do_backspace-start e t b,
    do_delete-at e t a b x,
    do_delete-end e t a,
    do_cursor_left-at e t a b x,
    do_cursor_left-start e t b,
    do_cursor_right-at e t a b x,
    do_cursor_right-end e t a,
    do_home-at e t a b,
    do_end-at e t a b,
    do_clear_line-at e t a b,
  )
