-- ===== src/LineEditor/Reading/Tests.antt =====
-- Runs of the line editor on a terminal that is the bytes written and the bytes to be read, and
-- the theorems there.
use fullerene.Base.{
  ◌≢◌, ◌++◌, ℕ, ◌+◌, ◌<◌, ◌≡◌, refl, Bool, true, ◌&&◌, Option, none, some, List, [], ◌∷◌, arith,
  ltb, length, get_or,
}
use fullerene.LineEditor.{
  LineEditor, Terminal, Strings, with_capacity, new, is_printable, do_insert, do_backspace,
  do_cursor_left, do_cursor_right, do_delete, do_end, do_home, do_clear_line, add_to_history,
  history_up, history_down, front_is, insert, remove, home_loop, starts_with, contains, matches,
  word_start, get_completions,
}
use fullerene.LineEditor.Reading.{
  Line, line, no_line, out_of_fuel, read_line, read_loop, handle_byte, go_on, complete, insert_all,
  do_tab_complete,
}
use fullerene.LineEditor.Editing.{at, do_keys-at}
use fullerene.LineEditor.History.{Remembers, add_to_history-Remembers, history_down-history_up}
use fullerene.LineEditor.Reading.Safety.{LineValid, read_line-LineValid}

abbrev is_ascii : List ℕ → Bool
is_ascii [] = true
is_ascii (x ∷ xs) = ltb x 128 && is_ascii xs

abbrev next_byte : List ℕ × List ℕ → Option ℕ × (List ℕ × List ℕ)
next_byte (r, []) = (none, (r, []))
next_byte (r, b ∷ bs) = (some b, (r, bs))

abbrev tty : Terminal (List ℕ × List ℕ)
tty = record {
  write_str = λ t s. (t.0 ++ s, t.1);
  read_byte = next_byte;
  input_available = λ t. true;
  record_history = λ t s. t;
  wait = λ t. t;
}

-- The commands `ls` and `cat`.
abbrev strings : Strings
strings = record {
  is_utf8 = is_ascii;
  from_utf8_lossy = λ s. s;
  commands = (108 ∷ 115 ∷ []) ∷ (99 ∷ 97 ∷ 116 ∷ []) ∷ [];
  lower_trimmed = λ s. s;
}

-- The line `ab`, with the cursor before the `b`.
abbrev editor : LineEditor
editor = record {
  buffer = 97 ∷ 98 ∷ [];
  cursor = 1;
  history = (108 ∷ 115 ∷ []) ∷ [];
  browsing = none;
  saved_line = [];
  max_len = 256;
}

abbrev start : List ℕ × List ℕ
start = ([], 99 ∷ [])

do_keys-at_example :
    ((do_insert tty strings (at editor (97 ∷ []) (98 ∷ [])) 99 start).0
      ≡ at editor (97 ∷ 99 ∷ []) (98 ∷ []))
    × ((do_backspace tty strings (at editor (97 ∷ 99 ∷ []) (98 ∷ [])) start).0
        ≡ at editor (97 ∷ []) (98 ∷ []))
    × ((do_backspace tty strings (at editor [] (98 ∷ [])) start).0 ≡ at editor [] (98 ∷ []))
    × ((do_delete tty strings (at editor (97 ∷ []) (99 ∷ 98 ∷ [])) start).0
        ≡ at editor (97 ∷ []) (98 ∷ []))
    × ((do_delete tty strings (at editor (97 ∷ []) []) start).0 ≡ at editor (97 ∷ []) [])
    × ((do_cursor_left tty strings (at editor (97 ∷ 99 ∷ []) (98 ∷ [])) start).0
        ≡ at editor (97 ∷ []) (99 ∷ 98 ∷ []))
    × ((do_cursor_left tty strings (at editor [] (98 ∷ [])) start).0 ≡ at editor [] (98 ∷ []))
    × ((do_cursor_right tty strings (at editor (97 ∷ []) (99 ∷ 98 ∷ [])) start).0
        ≡ at editor (97 ∷ 99 ∷ []) (98 ∷ []))
    × ((do_cursor_right tty strings (at editor (97 ∷ []) []) start).0 ≡ at editor (97 ∷ []) [])
    × ((do_home tty strings (at editor (97 ∷ []) (98 ∷ [])) start).0 ≡ at editor [] (97 ∷ 98 ∷ []))
    × ((do_end tty strings (at editor (97 ∷ []) (98 ∷ [])) start).0 ≡ at editor (97 ∷ 98 ∷ []) [])
    × ((do_clear_line tty strings (at editor (97 ∷ []) (98 ∷ [])) start).0 ≡ at editor [] [])
do_keys-at_example = do_keys-at tty strings editor start (97 ∷ []) (98 ∷ []) 99

add_to_history-Remembers_example :
    let new = (add_to_history tty strings editor (98 ∷ []) start).0 in
    Remembers new.history
    × ((older : List (List ℕ)) → editor.history ≡ (98 ∷ []) ∷ older → new ≡ editor)
    × (((older : List (List ℕ)) → editor.history ≢ (98 ∷ []) ∷ older)
        → (kept : List (List ℕ)) × (new ≡ record editor { history = (98 ∷ []) ∷ kept })
          × (length editor.history < 128 → kept ≡ editor.history)
          × (length editor.history ≡ 128
              → (oldest : List ℕ) × (kept ++ oldest ∷ [] ≡ editor.history)))
add_to_history-Remembers_example =
    add_to_history-Remembers tty strings editor (98 ∷ []) start (omega arith) (omega arith, tt)

history_down-history_up_example :
    let down = (history_down tty strings (history_up tty strings editor start).0 start).0 in
    (editor.browsing ≡ none
      → 0 < length editor.history
      → down ≡ record editor {
        buffer = editor.buffer;
        cursor = length editor.buffer;
        saved_line = editor.buffer;
        browsing = none;
      })
    × ((i : ℕ)
        → editor.browsing ≡ some i
        → i + 1 < length editor.history
        → down ≡ record editor {
          buffer = get_or editor.history i [];
          cursor = length (get_or editor.history i []);
          browsing = some i;
        })
history_down-history_up_example = history_down-history_up tty strings editor start start

read_line-LineValid_example : LineValid (read_line tty strings 3 editor start)
read_line-LineValid_example = read_line-LineValid tty strings 3 editor start (omega arith)

-- What is entered.
abbrev entered_line : Line (List ℕ × List ℕ) → Option (List ℕ)
entered_line (line s e t) = some s
entered_line (no_line e t) = none
entered_line (out_of_fuel e t) = none

-- An `x`, a backspace, an `l`, the completion of `ls`, and return.
test_read_line :
    entered_line (read_line tty strings 9 new ([], 120 ∷ 8 ∷ 108 ∷ 9 ∷ 13 ∷ []))
    ≡ some (108 ∷ 115 ∷ [])
unfolding read_line read_loop handle_byte go_on new with_capacity do_insert insert do_backspace
    remove do_tab_complete complete get_completions matches starts_with contains word_start
    insert_all add_to_history front_is is_printable do_clear_line do_home home_loop do_cursor_left
test_read_line = refl
