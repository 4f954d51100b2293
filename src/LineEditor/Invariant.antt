-- ===== src/LineEditor/Invariant.antt =====
-- The cursor stays in the line, and the place in the history in the history.
use fullerene.Base.{
  ℕ, zero, suc, ◌+◌, ◌-◌, ◌≤◌, ◌<◌, ◌≡◌, refl, sym, ap, subst, Option, none, some, List, [], ◌∷◌,
  arith, leb, ltb, ◌==◌, length, get_or, Bool-cases, Option-cases, inl, inr,
}
use fullerene.LineEditor.{
  LineEditor, Terminal, Strings, history_max, front_is, pop_back, insert, remove, do_insert,
  do_backspace, do_delete, do_cursor_left, do_cursor_right, home_loop, do_home, end_loop, do_end,
  do_clear_line, replace_buffer, browse, history_up, history_down, add_to_history,
}
use fullerene.LineEditor.History.{length-pop_back, replace_buffer_same}

abbrev pub InRange : Option ℕ → ℕ → Type 0
InRange none n = Unit {0}
InRange (some i) n = i < n

abbrev pub IsValid : LineEditor → Type 0
IsValid e =
    (e.cursor ≤ length e.buffer)
    × InRange e.browsing (length e.history)
    × (length e.history ≤ history_max)

length-insert : (xs : List ℕ) (i v : ℕ) → i ≤ length xs → length (insert xs i v) ≡ suc (length xs)
unfolding insert
length-insert [] zero v h = refl
length-insert (x ∷ xs) zero v h = refl
length-insert [] (suc i) v h = absurd (omega arith)
length-insert (x ∷ xs) (suc i) v h = ap suc (length-insert xs i v (omega arith))

length-remove : (xs : List ℕ) (i : ℕ) → i < length xs → length (remove xs i) + 1 ≡ length xs
unfolding remove
length-remove [] i h = absurd (omega arith)
length-remove (x ∷ xs) zero h = omega arith
length-remove (x ∷ xs) (suc i) h = omega (arith, length-remove xs i (omega arith))

InRange-more : (o : Option ℕ) (m n : ℕ) → m ≤ n → InRange o m → InRange o n
InRange-more none m n h r = tt
InRange-more (some i) m n h r = omega arith

module _ {T : Type 0} (terminal : Terminal T) (strings : Strings) where
  pub do_insert-IsValid :
      (e : LineEditor) (ch : ℕ) (t : T) → IsValid e → IsValid (do_insert terminal strings e ch t).0
  unfolding do_insert
  do_insert-IsValid e ch t (cursor, place, short) =
      elim (Bool-cases (leb (length e.buffer) e.cursor)) [
        | inl at_end ↦ rw at_end (omega arith, place, short)
        | inr inside ↦
            let size = length-insert e.buffer e.cursor ch cursor in
            rw inside (omega (arith, size, cursor), place, short)
      ]

  pub do_backspace-IsValid :
      (e : LineEditor) (t : T) → IsValid e → IsValid (do_backspace terminal strings e t).0
  unfolding do_backspace
  do_backspace-IsValid e t (cursor, place, short) = elim (Bool-cases (e.cursor == 0)) [
    | inl start ↦ rw (do_backspace, start) (cursor, place, short)
    | inr later ↦
        let size = length-remove e.buffer (e.cursor - 1) (ground arith) in
        rw later (ground (arith, size), place, short)
  ]

  pub do_delete-IsValid :
      (e : LineEditor) (t : T) → IsValid e → IsValid (do_delete terminal strings e t).0
  unfolding do_delete
  do_delete-IsValid e t (cursor, place, short) =
      elim (Bool-cases (leb (length e.buffer) e.cursor)) [
        | inl at_end ↦ rw (do_delete, at_end) (cursor, place, short)
        | inr inside ↦
            let size = length-remove e.buffer e.cursor (ground arith) in
            rw inside (ground (arith, size), place, short)
      ]

  pub do_cursor_left-IsValid :
      (e : LineEditor) (t : T) → IsValid e → IsValid (do_cursor_left terminal strings e t).0
  unfolding do_cursor_left
  do_cursor_left-IsValid e t (cursor, place, short) = elim (Bool-cases (ltb 0 e.cursor)) [
    | inl right ↦ rw right (omega (arith, cursor), place, short)
    | inr start ↦ rw (do_cursor_left, start) (cursor, place, short)
  ]

  pub do_cursor_right-IsValid :
      (e : LineEditor) (t : T) → IsValid e → IsValid (do_cursor_right terminal strings e t).0
  unfolding do_cursor_right
  do_cursor_right-IsValid e t (cursor, place, short) =
      elim (Bool-cases (ltb e.cursor (length e.buffer))) [
        | inl left ↦ rw left (ground arith, place, short)
        | inr at_end ↦ rw (do_cursor_right, at_end) (cursor, place, short)
      ]

  pub home_loop-IsValid :
      (n : ℕ) (e : LineEditor) (t : T) → IsValid e → IsValid (home_loop terminal strings n e t).0
  unfolding home_loop
  home_loop-IsValid zero e t v = v
  home_loop-IsValid (suc n) e t v =
      let left = do_cursor_left terminal strings e t in
      home_loop-IsValid n left.0 left.1 (do_cursor_left-IsValid e t v)

  pub end_loop-IsValid :
      (n : ℕ) (e : LineEditor) (t : T) → IsValid e → IsValid (end_loop terminal strings n e t).0
  unfolding end_loop
  end_loop-IsValid zero e t v = v
  end_loop-IsValid (suc n) e t v =
      let right = do_cursor_right terminal strings e t in
      end_loop-IsValid n right.0 right.1 (do_cursor_right-IsValid e t v)

  pub do_home-IsValid :
      (e : LineEditor) (t : T) → IsValid e → IsValid (do_home terminal strings e t).0
  unfolding do_home
  do_home-IsValid e t v = home_loop-IsValid e.cursor e t v

  pub do_end-IsValid :
      (e : LineEditor) (t : T) → IsValid e → IsValid (do_end terminal strings e t).0
  unfolding do_end
  do_end-IsValid e t v = end_loop-IsValid (length e.buffer - e.cursor) e t v

  pub do_clear_line-IsValid :
      (e : LineEditor) (t : T) → IsValid e → IsValid (do_clear_line terminal strings e t).0
  unfolding do_clear_line
  do_clear_line-IsValid e t v = let home = do_home-IsValid e t v in (omega arith, home.1, home.2)

  replace_buffer-IsValid :
      (e : LineEditor) (s : List ℕ) (t : T)
      → InRange e.browsing (length e.history)
      → length e.history ≤ history_max
      → IsValid (replace_buffer terminal strings e s t).0
  replace_buffer-IsValid e s t place short =
      subst IsValid (sym (replace_buffer_same terminal strings e s t)) (omega arith, place, short)

  browse-IsValid :
      (e : LineEditor) (i : ℕ) (t : T)
      → i < length e.history
      → length e.history ≤ history_max
      → IsValid (browse terminal strings e i t).0
  unfolding browse
  browse-IsValid e i t place short =
      replace_buffer-IsValid (record e { browsing = some i }) (get_or e.history i []) t place short

  pub history_up-IsValid :
      (e : LineEditor) (t : T) → IsValid e → IsValid (history_up terminal strings e t).0
  unfolding history_up browse
  history_up-IsValid e t (cursor, place, short) = elim (Option-cases e.browsing) [
    | inl typing ↦ elim (Bool-cases (length e.history == 0)) [
      | inl empty ↦ rw (history_up, typing, empty) (cursor, place, short)
      | inr lines ↦
          let saved : LineEditor = record e { saved_line = strings.from_utf8_lossy e.buffer } in
          rw (history_up, typing, lines) (browse-IsValid saved 0 t (ground arith) short)
    ]
    | inr (i, at) ↦ elim (Bool-cases (ltb (i + 1) (length e.history))) [
      | inl older ↦ rw (history_up, at, older) (browse-IsValid e (i + 1) t (ground arith) short)
      | inr oldest ↦ rw (history_up, at, oldest) (cursor, place, short)
    ]
  ]

  pub history_down-IsValid :
      (e : LineEditor) (t : T) → IsValid e → IsValid (history_down terminal strings e t).0
  unfolding history_down
  history_down-IsValid e t (cursor, place, short) = elim (Option-cases e.browsing) [
    | inl typing ↦ rw (history_down, typing) (cursor, place, short)
    | inr (i, at) ↦ elim (Bool-cases (i == 0)) [
      | inl newest ↦
          rw (history_down, at, newest)
            (replace_buffer-IsValid (record e { browsing = none }) e.saved_line t tt short)
      | inr older ↦
          let here : i < length e.history = rw at at place in
          rw (history_down, at, older) (browse-IsValid e (i - 1) t (ground arith) short)
    ]
  ]

  pub add_to_history-IsValid :
      (e : LineEditor) (s : List ℕ) (t : T)
      → IsValid e
      → IsValid (add_to_history terminal strings e s t).0
  unfolding add_to_history
  add_to_history-IsValid e s t (cursor, place, short) = elim (Bool-cases (length s == 0)) [
    | inl empty ↦ rw (add_to_history, empty) (cursor, place, short)
    | inr line ↦ elim (Bool-cases (front_is e.history s)) [
      | inl known ↦ rw (add_to_history, line, known) (cursor, place, short)
      | inr fresh ↦
          let popped = length-pop_back e.history in
          elim (Bool-cases (leb history_max (length e.history))) [
            | inl full ↦
                rw (line, fresh, full)
                  (
                    cursor,
                    InRange-more e.browsing (length e.history) (suc (length (pop_back e.history)))
                        (ground (arith, popped)) place,
                    ground (arith, popped),
                  )
            | inr room ↦
                rw (line, fresh, room)
                  (
                    cursor,
                    InRange-more e.browsing (length e.history) (suc (length e.history))
                        (omega arith) place,
                    ground arith,
                  )
          ]
    ]
  ]
