-- ===== src/LineEditor/History.antt =====
-- The history of lines: what goes in, and the way up and down in it.
use fullerene.Base.{
  ℕ, zero, suc, ◌+◌, ◌-◌, ◌≤◌, ◌<◌, ◌≡◌, ◌≢◌, refl, ◌∙◌, ap, true, false, none, some, List, [], ◌∷◌,
  ◌++◌, arith, leb, ltb, ltb-true, ◌==◌, ==_false, length, get_or, Bool-cases, inl, inr,
}
use fullerene.LineEditor.{
  LineEditor, Terminal, Strings, history_max, list_eq, front_is, pop_back, add_to_history,
  home_loop, do_home, do_cursor_left, replace_buffer, browse, history_up, history_down,
}

-- No line stands twice in a row.
abbrev pub NoRepeat : List (List ℕ) → Type 0
NoRepeat [] = Unit {0}
NoRepeat (x ∷ []) = Unit {0}
NoRepeat (x ∷ (y ∷ r)) = (list_eq y x ≡ false) × NoRepeat (y ∷ r)

list_eq_self : (xs : List ℕ) → list_eq xs xs ≡ true
unfolding list_eq
list_eq_self [] = refl
list_eq_self (x ∷ xs) = let ih = list_eq_self xs in ground arith

pub length-pop_back : (h : List (List ℕ)) → length (pop_back h) ≡ length h - 1
unfolding pop_back
length-pop_back [] = omega arith
length-pop_back (x ∷ []) = omega arith
length-pop_back (x ∷ (y ∷ r)) = omega (arith, length-pop_back (y ∷ r))

NoRepeat-pop_back : (h : List (List ℕ)) → NoRepeat h → NoRepeat (pop_back h)
unfolding pop_back
NoRepeat-pop_back [] n = tt
NoRepeat-pop_back (x ∷ []) n = tt
NoRepeat-pop_back (x ∷ (y ∷ [])) n = tt
NoRepeat-pop_back (x ∷ (y ∷ (z ∷ r))) (ne, n) = (ne, NoRepeat-pop_back (y ∷ (z ∷ r)) n)

NoRepeat-cons :
    (h : List (List ℕ)) (s : List ℕ) → front_is h s ≡ false → NoRepeat h → NoRepeat (s ∷ h)
unfolding front_is
NoRepeat-cons [] s e n = tt
NoRepeat-cons (x ∷ h) s e n = (e, n)

front_is-pop_back :
    (h : List (List ℕ)) (s : List ℕ) → front_is h s ≡ false → front_is (pop_back h) s ≡ false
unfolding front_is pop_back
front_is-pop_back [] s e = refl
front_is-pop_back (x ∷ []) s e = refl
front_is-pop_back (x ∷ (y ∷ r)) s e = e

list_eq_lem : (xs ys : List ℕ) → list_eq xs ys ≡ true → xs ≡ ys
unfolding list_eq
list_eq_lem [] [] h = refl
list_eq_lem [] (y ∷ ys) h = cc
list_eq_lem (x ∷ xs) [] h = cc
list_eq_lem (x ∷ xs) (y ∷ ys) h =
    let same : (x ≡ y) × (list_eq xs ys ≡ true) = ground arith in
    rw (same.0, list_eq_lem xs ys same.1) refl

front_is-cons :
    (h : List (List ℕ)) (line : List ℕ)
    → front_is h line ≡ true
    → (older : List (List ℕ)) × (h ≡ line ∷ older)
unfolding front_is
front_is-cons [] line e = cc
front_is-cons (x ∷ h) line e = (h, rw (list_eq_lem x line e) refl)

front_is-ne :
    (h : List (List ℕ)) (line : List ℕ)
    → front_is h line ≡ false
    → (older : List (List ℕ)) → h ≢ line ∷ older
unfolding front_is
front_is-ne h line e older same =
    let known : front_is (line ∷ older) line ≡ true = list_eq_self line in
    let front = ap (λ g. front_is g line) same in cc

-- The oldest line stands last.
pop_back-last :
    (h : List (List ℕ)) → 0 < length h → (oldest : List ℕ) × (pop_back h ++ oldest ∷ [] ≡ h)
unfolding pop_back
pop_back-last [] p = absurd (omega arith)
pop_back-last (x ∷ []) p = (x, refl)
pop_back-last (x ∷ (y ∷ r)) p =
    let (oldest, e) = pop_back-last (y ∷ r) (omega arith) in (oldest, ap (λ l. x ∷ l) e)

-- A good history: at most 128 lines, none twice in a row.
abbrev pub Remembers : List (List ℕ) → Type 0
Remembers h = (length h ≤ history_max) × NoRepeat h

module _ {T : Type 0} (terminal : Terminal T) (strings : Strings) where
  -- An entered line that is not empty leaves the history as it is if it is the last one entered,
  -- and else comes to its front; of the older lines only the oldest goes, and that exactly if
  -- there were 128. So the history keeps at most 128 lines and none twice in a row. The rest of
  -- the editor stays.
  pub add_to_history-Remembers :
      (e : LineEditor) (line : List ℕ) (t : T)
      → length line ≢ 0
      → Remembers e.history
      → Remembers (add_to_history terminal strings e line t).0.history
        × ((older : List (List ℕ))
            → e.history ≡ line ∷ older
            → (add_to_history terminal strings e line t).0 ≡ e)
        × (((older : List (List ℕ)) → e.history ≢ line ∷ older)
            → (kept : List (List ℕ)) × ((add_to_history terminal strings e line t).0
                ≡ record e { history = line ∷ kept })
              × (length e.history < 128 → kept ≡ e.history)
              × (length e.history ≡ 128 → (oldest : List ℕ) × (kept ++ oldest ∷ [] ≡ e.history)))
  unfolding add_to_history
  add_to_history-Remembers e line t some_line (short, once) =
      rw (==_false (length line) 0 some_line) (elim (Bool-cases (front_is e.history line)) [
        | inl known ↦
            let (older, at_front) = front_is-cons e.history line known in
            rw known ((short, once), λ _ _. refl, λ new. absurd (new older at_front))
        | inr fresh ↦
            let new : (older : List (List ℕ)) → e.history ≢ line ∷ older =
              front_is-ne e.history line fresh in
            let popped = length-pop_back e.history in
            elim (Bool-cases (leb history_max (length e.history))) [
              | inl full ↦
                  let full_size : 128 ≤ length e.history = ground arith in
                  rw (fresh, full)
                    (
                      (
                        omega (arith, popped, short),
                        NoRepeat-cons (pop_back e.history) line
                            (front_is-pop_back e.history line fresh)
                            (NoRepeat-pop_back e.history once),
                      ),
                      λ older same. absurd (new older same),
                      λ _. (
                        pop_back e.history,
                        refl,
                        λ room. absurd (omega arith),
                        λ _. pop_back-last e.history (omega arith),
                      ),
                    )
              | inr room ↦
                  let room_left : length e.history < 128 = ground arith in
                  rw (fresh, room)
                    (
                      (ground (arith, room), NoRepeat-cons e.history line fresh once),
                      λ older same. absurd (new older same),
                      λ _. (e.history, refl, λ _. refl, λ full. absurd (omega arith)),
                    )
            ]
      ])

  home_loop_same :
      (n : ℕ) (e : LineEditor) (t : T)
      → (c : ℕ) × ((home_loop terminal strings n e t).0 ≡ record e { cursor = c })
  unfolding home_loop do_cursor_left
  home_loop_same zero e t = (e.cursor, refl)
  home_loop_same (suc n) e t = elim (Bool-cases (ltb 0 e.cursor)) [
    | inl right ↦
        rw (home_loop, right)
          (home_loop_same n (record e { cursor = e.cursor - 1 }) (terminal.write_str t (8 ∷ [])))
    | inr left ↦ rw (home_loop, left) (home_loop_same n e t)
  ]

  -- A replaced line keeps all but the line and the cursor.
  pub replace_buffer_same :
      (e : LineEditor) (s : List ℕ) (t : T)
      → (replace_buffer terminal strings e s t).0 ≡ record e { buffer = s; cursor = length s }
  unfolding replace_buffer do_home
  replace_buffer_same e s t =
      let (c, same) = home_loop_same e.cursor e t in
      ap {A = LineEditor} (λ r. record r { buffer = s; cursor = length s }) same

  history_up_typing :
      (e : LineEditor) (t : T)
      → e.browsing ≡ none
      → 0 < length e.history
      → (history_up terminal strings e t).0 ≡ record e {
        buffer = get_or e.history 0 [];
        cursor = length (get_or e.history 0 []);
        saved_line = strings.from_utf8_lossy e.buffer;
        browsing = some 0;
      }
  unfolding history_up browse
  history_up_typing e t typing some_line =
      let e' : LineEditor = record e {
        saved_line = strings.from_utf8_lossy e.buffer;
        browsing = some 0;
      } in
      let nonempty : (length e.history == 0) ≡ false =
        ==_false (length e.history) 0 (omega arith) in
      rw (typing, nonempty) (replace_buffer_same e' (get_or e.history 0 []) t)

  history_up_older :
      (e : LineEditor) (t : T) (i : ℕ)
      → e.browsing ≡ some i
      → i + 1 < length e.history
      → (history_up terminal strings e t).0 ≡ record e {
        buffer = get_or e.history (i + 1) [];
        cursor = length (get_or e.history (i + 1) []);
        browsing = some (i + 1);
      }
  unfolding history_up browse
  history_up_older e t i browsing older =
      let e' : LineEditor = record e { browsing = some (i + 1) } in
      rw (browsing, ltb-true (i + 1) (length e.history) older)
        (replace_buffer_same e' (get_or e.history (i + 1) []) t)

  history_down_newer :
      (e : LineEditor) (t : T) (i : ℕ)
      → e.browsing ≡ some (i + 1)
      → (history_down terminal strings e t).0 ≡ record e {
        buffer = get_or e.history i [];
        cursor = length (get_or e.history i []);
        browsing = some i;
      }
  unfolding history_down browse
  history_down_newer e t i browsing =
      let e' : LineEditor = record e { browsing = some i } in
      let back : i + 1 - 1 ≡ i = omega arith in
      rw (browsing, ==_false (i + 1) 0 (omega arith), back)
        (replace_buffer_same e' (get_or e.history i []) t)

  -- Up and then down again in the history: from the line being typed one comes back to it, with
  -- the cursor at its end, and from a line of the history that is not the oldest back to that one.
  -- The history itself stays.
  pub history_down-history_up :
      (e : LineEditor) (t t' : T)
      → let down = (history_down terminal strings (history_up terminal strings e t).0 t').0 in
        (e.browsing ≡ none
          → 0 < length e.history
          → down ≡ record e {
            buffer = strings.from_utf8_lossy e.buffer;
            cursor = length (strings.from_utf8_lossy e.buffer);
            saved_line = strings.from_utf8_lossy e.buffer;
            browsing = none;
          })
        × ((i : ℕ)
            → e.browsing ≡ some i
            → i + 1 < length e.history
            → down ≡ record e {
              buffer = get_or e.history i [];
              cursor = length (get_or e.history i []);
              browsing = some i;
            })
  unfolding history_down browse
  history_down-history_up e t t' = (
    λ typing some_line.
        let saved = strings.from_utf8_lossy e.buffer in
        let first = get_or e.history 0 [] in
        let up : LineEditor = record e {
          buffer = first;
          cursor = length first;
          saved_line = saved;
          browsing = some 0;
        } in
        ap (λ x. (history_down terminal strings x t').0) (history_up_typing e t typing some_line)
        ∙ replace_buffer_same (record up { browsing = none }) saved t',
    λ i browsing older.
        let next = get_or e.history (i + 1) [] in
        let up : LineEditor = record e {
          buffer = next;
          cursor = length next;
          browsing = some (i + 1);
        } in
        ap (λ x. (history_down terminal strings x t').0) (history_up_older e t i browsing older)
        ∙ history_down_newer up t' i refl,
  )
