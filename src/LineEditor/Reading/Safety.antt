-- ===== src/LineEditor/Reading/Safety.antt =====
-- `read_line` keeps the editor valid, whatever bytes come.
use fullerene.Base.{
  ℕ, zero, suc, ◌≤◌, Bool, true, false, ◌||◌, Option, none, some, List, [], ◌∷◌, if◌then◌else◌,
  arith, ltb, ◌==◌, length, drop, take,
}
use fullerene.LineEditor.{
  LineEditor, Terminal, Strings, history_max, get_completions, word_start, is_printable, do_insert,
  do_backspace, do_delete, do_cursor_left, do_cursor_right, do_home, do_end, do_clear_line,
  history_up, history_down, add_to_history,
}
use fullerene.LineEditor.Reading.{
  Reading, reading, entered, cancelled, Line, line, no_line, out_of_fuel, insert_all, complete,
  do_tab_complete, read_byte_retry, act_on_code, handle_escape, go_on, handle_byte, read_loop,
  read_line,
}
use fullerene.LineEditor.Invariant.{
  IsValid, do_insert-IsValid, do_backspace-IsValid, do_delete-IsValid, do_cursor_left-IsValid,
  do_cursor_right-IsValid, do_home-IsValid, do_end-IsValid, do_clear_line-IsValid,
  history_up-IsValid, history_down-IsValid, add_to_history-IsValid,
}

abbrev pub ReadsValid : {T : Type 0} → Reading T → Type 0
ReadsValid (reading e t) = IsValid e
ReadsValid (entered e t) = IsValid e
ReadsValid (cancelled e t) = IsValid e

abbrev pub LineValid : {T : Type 0} → Line T → Type 0
LineValid (line s e t) = IsValid e
LineValid (no_line e t) = IsValid e
LineValid (out_of_fuel e t) = IsValid e

-- An editor beside its terminal, and the reading of a byte, are valid if their editors are.
Valid : {T : Type 0} → LineEditor × T → Type 0
Valid r = IsValid r.0

Reads : {T : Type 0} → Reading T → Type 0
Reads r = ReadsValid r

valid : {T : Type 0} (r : LineEditor × T) → IsValid r.0 → Valid r
unfolding Valid
valid r v = v

Valid-editor : {T : Type 0} (r : LineEditor × T) → Valid r → IsValid r.0
unfolding Valid
Valid-editor r v = v

reads : {T : Type 0} (r : LineEditor × T) → IsValid r.0 → Reads (go_on r)
unfolding Reads go_on
reads r v = v

Reads-valid : {T : Type 0} (r : Reading T) → ReadsValid r → Reads r
unfolding Reads
Reads-valid r v = v

valid-Reads : {T : Type 0} (r : Reading T) → Reads r → ReadsValid r
unfolding Reads
valid-Reads r v = v

both :
    {T : Type 0} (b : Bool) (r s : LineEditor × T) → Valid r → Valid s → Valid (if b then r else s)
both true r s p q = p
both false r s p q = q

both_readings :
    {T : Type 0} (b : Bool) (r s : Reading T) → Reads r → Reads s → Reads (if b then r else s)
both_readings true r s p q = p
both_readings false r s p q = q

module _ {T : Type 0} (terminal : Terminal T) (strings : Strings) where
  insert_all-IsValid :
      (e : LineEditor) (s : List ℕ) (t : T)
      → IsValid e
      → IsValid (insert_all terminal strings e s t).0
  unfolding insert_all
  insert_all-IsValid e [] t v = v
  insert_all-IsValid e (ch ∷ s) t v =
      let r = do_insert terminal strings e ch t in
      insert_all-IsValid r.0 s r.1 (do_insert-IsValid terminal strings e ch t v)

  complete-IsValid :
      (e : LineEditor) (prefix : List ℕ) (cs : List (List ℕ)) (t : T)
      → IsValid e
      → IsValid (complete terminal strings e prefix cs t).0
  unfolding complete
  complete-IsValid e prefix [] t v = v
  complete-IsValid e prefix (c ∷ []) t v = insert_all-IsValid e (drop (length prefix) c) t v
  complete-IsValid e prefix (c ∷ (d ∷ cs)) t v = v

  do_tab_complete-IsValid :
      (e : LineEditor) (t : T) → IsValid e → IsValid (do_tab_complete terminal strings e t).0
  unfolding do_tab_complete
  do_tab_complete-IsValid e t v =
      let before_cursor = take e.cursor (strings.from_utf8_lossy e.buffer) in
      let prefix = drop (word_start before_cursor) before_cursor in
      complete-IsValid e prefix (get_completions terminal strings prefix) t v

  tilde-IsValid :
      (o : Option ℕ) (e : LineEditor) (t : T)
      → IsValid e
      → Valid (elim o as (λ _. LineEditor × T) [
        | none ↦ (e, t)
        | some b ↦ if b == 126 then do_delete terminal strings e t else (e, t)
      ])
  tilde-IsValid none e t v = valid (e, t) v
  tilde-IsValid (some b) e t v =
      both _ _ _ (valid (do_delete terminal strings e t) (do_delete-IsValid terminal strings e t v))
        (valid (e, t) v)

  act_on_code-IsValid :
      (bracket code : ℕ) (e : LineEditor) (t : T)
      → IsValid e
      → Valid (act_on_code terminal strings bracket code e t)
  unfolding act_on_code
  act_on_code-IsValid bracket code e t v =
      let (tilde, t') = read_byte_retry terminal strings t in
      both _ _ _
        (valid (history_up terminal strings e t) (history_up-IsValid terminal strings e t v))
        (both _ _ _
          (valid (history_down terminal strings e t) (history_down-IsValid terminal strings e t v))
          (both _ _ _
            (valid (do_cursor_right terminal strings e t)
              (do_cursor_right-IsValid terminal strings e t v))
            (both _ _ _
              (valid (do_cursor_left terminal strings e t)
                (do_cursor_left-IsValid terminal strings e t v))
              (both _ _ _
                (valid (do_home terminal strings e t) (do_home-IsValid terminal strings e t v))
                (both _ _ _
                  (valid (do_end terminal strings e t) (do_end-IsValid terminal strings e t v))
                  (both _ _ _ (tilde-IsValid tilde e t' v) (valid (e, t) v)))))))

  code-IsValid :
      (bracket : ℕ) (second : Option ℕ) (e : LineEditor) (t : T)
      → IsValid e
      → Valid (elim second as (λ _. LineEditor × T) [
        | none ↦ (e, t)
        | some code ↦ act_on_code terminal strings bracket code e t
      ])
  code-IsValid bracket none e t v = valid (e, t) v
  code-IsValid bracket (some code) e t v = act_on_code-IsValid bracket code e t v

  bracket-IsValid :
      (first second : Option ℕ) (e : LineEditor) (t1 t2 : T)
      → IsValid e
      → Valid (elim first as (λ _. LineEditor × T) [
        | none ↦ (e, t1)
        | some bracket ↦
            if bracket == 91 || bracket == 79
            then elim second [
              | none ↦ (e, t2)
              | some code ↦ act_on_code terminal strings bracket code e t2
            ]
            else (e, t1)
      ])
  bracket-IsValid none second e t1 t2 v = valid (e, t1) v
  bracket-IsValid (some bracket) second e t1 t2 v =
      both _ _ _ (code-IsValid bracket second e t2 v) (valid (e, t1) v)

  handle_escape-IsValid :
      (e : LineEditor) (t : T) → IsValid e → IsValid (handle_escape terminal strings e t).0
  unfolding handle_escape
  handle_escape-IsValid e t v =
      let first = read_byte_retry terminal strings t in
      let second = read_byte_retry terminal strings first.1 in
      Valid-editor (handle_escape terminal strings e t)
        (bracket-IsValid first.0 second.0 e first.1 second.1 v)

  handle_byte-Reads :
      (b : Option ℕ) (e : LineEditor) (t : T)
      → IsValid e
      → Reads (handle_byte terminal strings b e t)
  unfolding handle_byte
  handle_byte-Reads none e t v = Reads-valid (cancelled e t) v
  handle_byte-Reads (some b) e t v =
      let (cleared, t') = do_clear_line terminal strings e t in
      let clear = do_clear_line-IsValid terminal strings e t v in
      let same = Reads-valid (reading e t) v in
      both_readings (b == 10 || b == 13) _ _
        (Reads-valid (entered e (terminal.write_str t (10 ∷ []))) v)
        (both_readings (b == 8 || b == 127) _ _
          (reads (do_backspace terminal strings e t) (do_backspace-IsValid terminal strings e t v))
          (both_readings (b == 27) _ _
            (reads (handle_escape terminal strings e t) (handle_escape-IsValid e t v))
            (both_readings (b == 21) _ _ (Reads-valid (reading cleared t') clear) (
              both_readings (b == 3) _ _
                (Reads-valid (cancelled cleared (terminal.write_str t' (94 ∷ 67 ∷ 10 ∷ []))) clear)
                (both_readings (b == 4) _ _
                  (both_readings (length e.buffer == 0) _ _ (Reads-valid (cancelled e t) v) same)
                  (both_readings (is_printable b) _ _
                    (both_readings (ltb (length e.buffer) e.max_len) _ _
                      (reads (do_insert terminal strings e b t)
                        (do_insert-IsValid terminal strings e b t v))
                      same)
                    (both_readings (b == 9) _ _
                      (reads (do_tab_complete terminal strings e t) (do_tab_complete-IsValid e t v))
                      same)))))))

  loop_step :
      (fuel : ℕ) (r : Reading T)
      → ReadsValid r
      → ((e : LineEditor) (t : T) → IsValid e → LineValid (read_loop terminal strings fuel e t))
      → LineValid (elim r as (λ _. Line T) [
        | reading e t ↦ read_loop terminal strings fuel e t
        | cancelled e t ↦ no_line e t
        | entered e t ↦
            let text = strings.from_utf8_lossy e.buffer in
            let (e', t') = add_to_history terminal strings e text t in line text e' t'
      ])
  loop_step fuel (reading e t) v ih = ih e t v
  loop_step fuel (cancelled e t) v ih = v
  loop_step fuel (entered e t) v ih =
      add_to_history-IsValid terminal strings e (strings.from_utf8_lossy e.buffer) t v

  read_loop-LineValid :
      (fuel : ℕ) (e : LineEditor) (t : T)
      → IsValid e
      → LineValid (read_loop terminal strings fuel e t)
  unfolding read_loop
  read_loop-LineValid zero e t v = v
  read_loop-LineValid (suc fuel) e t v =
      let (b, t') = terminal.read_byte t in
      let r = handle_byte terminal strings b e t' in
      loop_step fuel r (valid-Reads r (handle_byte-Reads b e t' v)) (read_loop-LineValid fuel)

  -- From an editor whose history has at most 128 lines, whatever bytes the terminal hands out and
  -- however many are read, `read_line` leaves an editor whose cursor is at most the length of its
  -- line, whose place in the history, if there is one, is below the number of lines there, and
  -- whose history has at most 128 lines.
  pub read_line-LineValid :
      (fuel : ℕ) (e : LineEditor) (t : T)
      → length e.history ≤ history_max
      → LineValid (read_line terminal strings fuel e t)
  unfolding read_line
  read_line-LineValid fuel e t short =
      read_loop-LineValid fuel (record e { buffer = []; cursor = 0; browsing = none }) t
        (omega arith, tt, short)
