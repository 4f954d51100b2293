-- ===== src/LineEditor/Reading.antt =====
-- nozzle/src/line_editor.rs: `read_line`, which acts on the bytes of the terminal. A loop that the
-- terminal may keep going for ever has fuel, and says when that is spent.
pub mod Safety
mod Tests
use fullerene.Base.{
  ℕ, zero, suc, ◌+◌, ◌-◌, Bool, true, false, ◌&&◌, ◌||◌, Option, none, some, List, [], ◌∷◌, ◌++◌,
  if◌then◌else◌, ltb, ◌==◌, length, take, drop,
}
use fullerene.LineEditor.{
  LineEditor, Terminal, Strings, write_times, do_insert, do_backspace, do_delete, do_cursor_left,
  do_cursor_right, do_home, do_end, do_clear_line, history_up, history_down, add_to_history,
  word_start, get_completions, is_printable,
}

pub data Reading (T : Type 0) : Type 0 where
  reading : LineEditor → T → Reading T
  entered : LineEditor → T → Reading T
  cancelled : LineEditor → T → Reading T

pub data Line (T : Type 0) : Type 0 where
  line : List ℕ → LineEditor → T → Line T
  no_line : LineEditor → T → Line T
  out_of_fuel : LineEditor → T → Line T

pub go_on : {T : Type 0} → LineEditor × T → Reading T
go_on (e, t) = reading e t

module _ {T : Type 0} (terminal : Terminal T) (strings : Strings) where
  pub insert_all : LineEditor → List ℕ → T → LineEditor × T
  insert_all e [] t = (e, t)
  insert_all e (ch ∷ chs) t =
      let (e', t') = do_insert terminal strings e ch t in insert_all e' chs t'

  pub list_completions : List (List ℕ) → T → T
  list_completions [] t = t
  list_completions (c ∷ cs) t =
      list_completions cs (terminal.write_str (terminal.write_str t c) (32 ∷ 32 ∷ []))

  -- The list of several completions, the prompt, the line, and the way back to the cursor.
  pub show_completions : LineEditor → List (List ℕ) → T → T
  unfolding list_completions
  show_completions e completions t =
      let listed = list_completions completions (terminal.write_str t (10 ∷ [])) in
      let prompted = terminal.write_str (terminal.write_str listed (10 ∷ [])) (62 ∷ 32 ∷ []) in
      write_times terminal strings (terminal.write_str prompted (strings.from_utf8_lossy e.buffer))
        (27 ∷ 91 ∷ 68 ∷ []) (length e.buffer - e.cursor)

  -- What follows from the completions of the word `prefix`.
  pub complete : LineEditor → List ℕ → List (List ℕ) → T → LineEditor × T
  unfolding insert_all show_completions
  complete e prefix [] t = (e, t)
  complete e prefix (completion ∷ []) t = insert_all e (drop (length prefix) completion) t
  complete e prefix (completion ∷ (other ∷ more)) t =
      (e, show_completions e (completion ∷ (other ∷ more)) t)

  -- The slices of the source panic out of bounds or within a character; `take` and `drop` do not.
  pub do_tab_complete : LineEditor → T → LineEditor × T
  unfolding complete
  do_tab_complete e t =
      let before_cursor = take e.cursor (strings.from_utf8_lossy e.buffer) in
      let prefix = drop (word_start before_cursor) before_cursor in
      complete e prefix (get_completions terminal strings prefix) t

  pub retry : ℕ → T → Option ℕ × T
  retry zero t = (none, t)
  retry (suc n) t =
      let rest = retry n (terminal.wait t) in
      if terminal.input_available t then terminal.read_byte t else rest

  pub read_byte_retry : T → Option ℕ × T
  unfolding retry
  read_byte_retry t = retry 100 t

  -- The action of an escape sequence of which `bracket` and `code` are the second and the third
  -- byte.
  pub act_on_code : ℕ → ℕ → LineEditor → T → LineEditor × T
  unfolding read_byte_retry
  act_on_code bracket code e t =
      let (tilde, t') = read_byte_retry t in
      let csi = bracket == 91 in
      let ss3 = bracket == 79 in
      if csi && code == 65
      then history_up terminal strings e t
      else if csi && code == 66
      then history_down terminal strings e t
      else if csi && code == 67
      then do_cursor_right terminal strings e t
      else if csi && code == 68
      then do_cursor_left terminal strings e t
      else if csi && code == 72 || ss3 && code == 72
      then do_home terminal strings e t
      else if csi && code == 70 || ss3 && code == 70
      then do_end terminal strings e t
      else if csi && code == 51
      then elim tilde [
        | none ↦ (e, t')
        | some b ↦ if b == 126 then do_delete terminal strings e t' else (e, t')
      ]
      else (e, t)

  pub handle_escape : LineEditor → T → LineEditor × T
  unfolding act_on_code read_byte_retry
  handle_escape e t =
      let (first, t1) = read_byte_retry t in
      let (second, t2) = read_byte_retry t1 in
      elim first [
        | none ↦ (e, t1)
        | some bracket ↦
            if bracket == 91 || bracket == 79
            then elim second [ none ↦ (e, t2) | some code ↦ act_on_code bracket code e t2 ]
            else (e, t1)
      ]

  -- The match of `read_line`.
  pub handle_byte : Option ℕ → LineEditor → T → Reading T
  unfolding handle_escape do_tab_complete go_on
  handle_byte none e t = cancelled e t
  handle_byte (some b) e t =
      let (cleared, t') = do_clear_line terminal strings e t in
      if b == 10 || b == 13
      then entered e (terminal.write_str t (10 ∷ []))
      else if b == 8 || b == 127
      then go_on (do_backspace terminal strings e t)
      else if b == 27
      then go_on (handle_escape e t)
      else if b == 21
      then reading cleared t'
      else if b == 3
      then cancelled cleared (terminal.write_str t' (94 ∷ 67 ∷ 10 ∷ []))
      else if b == 4
      then if length e.buffer == 0 then cancelled e t else reading e t
      else if is_printable b
      then if ltb (length e.buffer) e.max_len
        then go_on (do_insert terminal strings e b t)
        else reading e t
      else if b == 9
      then go_on (do_tab_complete e t)
      else reading e t

  -- The loop of `read_line`, and what follows it.
  pub read_loop : ℕ → LineEditor → T → Line T
  unfolding handle_byte
  read_loop zero e t = out_of_fuel e t
  read_loop (suc fuel) e t =
      let (b, t') = terminal.read_byte t in
      elim (handle_byte b e t') [
        | reading e' t'' ↦ read_loop fuel e' t''
        | cancelled e' t'' ↦ no_line e' t''
        | entered e' t'' ↦
            let text = strings.from_utf8_lossy e'.buffer in
            let (e'', t''') = add_to_history terminal strings e' text t'' in line text e'' t'''
      ]

  pub read_line : ℕ → LineEditor → T → Line T
  unfolding read_loop
  read_line fuel e t = read_loop fuel (record e { buffer = []; cursor = 0; browsing = none }) t
