-- ===== src/LineEditor.antt =====
-- nozzle/src/line_editor.rs: `LineEditor`. Bytes are numbers and strings are lists of bytes. The
-- terminal is any implementation of the trait in carrier/src/terminal.rs, threaded as a state;
-- `wait` is what happens to it while the editor spins. The standard library's checks of UTF-8 are
-- functions given, and so are the names of the commands and the lower case of a trimmed word.
pub mod Reading
pub mod Editing
pub mod History
pub mod Invariant
use fullerene.Base.{
  ℕ, zero, suc, ◌+◌, ◌-◌, ◌≡◌, Bool, true, false, not, ◌&&◌, ◌||◌, Option, none, some, List, [],
  ◌∷◌, ◌++◌, if◌then◌else◌, leb, ltb, ◌==◌, length, take, drop, get_or,
}

abbrev pub history_max : ℕ
history_max = 128

-- The methods of the trait that the editor calls.
pub record Terminal (T : Type 0) : Type 0 where
  pub write_str : T → List ℕ → T
  pub read_byte : T → Option ℕ × T
  pub input_available : T → Bool
  pub record_history : T → List ℕ → T
  pub wait : T → T

-- `from_utf8` is `is_utf8` and the same bytes.
pub record Strings : Type 0 where
  pub is_utf8 : List ℕ → Bool
  pub from_utf8_lossy : List ℕ → List ℕ
  pub commands : List (List ℕ)
  pub lower_trimmed : List ℕ → List ℕ

pub record LineEditor : Type 0 where
  pub buffer : List ℕ
  pub cursor : ℕ
  pub history : List (List ℕ)
  pub browsing : Option ℕ
  pub saved_line : List ℕ
  pub max_len : ℕ

pub with_capacity : ℕ → LineEditor
with_capacity max_len = record {
  buffer = [];
  cursor = 0;
  history = [];
  browsing = none;
  saved_line = [];
  max_len = max_len;
}

pub new : LineEditor
unfolding with_capacity
new = with_capacity 256

-- `Vec::insert` and `Vec::remove`; out of bounds they panic, here nothing changes.
pub insert : List ℕ → ℕ → ℕ → List ℕ
insert xs zero v = v ∷ xs
insert [] (suc i) v = []
insert (x ∷ xs) (suc i) v = x ∷ insert xs i v

pub remove : List ℕ → ℕ → List ℕ
remove [] i = []
remove (x ∷ xs) zero = xs
remove (x ∷ xs) (suc i) = x ∷ remove xs i

pub list_eq : List ℕ → List ℕ → Bool
list_eq [] [] = true
list_eq [] (y ∷ ys) = false
list_eq (x ∷ xs) [] = false
list_eq (x ∷ xs) (y ∷ ys) = x == y && list_eq xs ys

pub front_is : List (List ℕ) → List ℕ → Bool
unfolding list_eq
front_is [] line = false
front_is (h ∷ hs) line = list_eq h line

pub starts_with : List ℕ → List ℕ → Bool
starts_with xs [] = true
starts_with [] (y ∷ ys) = false
starts_with (x ∷ xs) (y ∷ ys) = x == y && starts_with xs ys

pub contains : List ℕ → ℕ → Bool
contains [] b = false
contains (x ∷ xs) b = x == b || contains xs b

-- `rfind(' ').map(|i| i + 1).unwrap_or(0)`
pub word_start : List ℕ → ℕ
unfolding contains
word_start [] = 0
word_start (x ∷ xs) =
    let later = word_start xs in if contains xs 32 then suc later else if x == 32 then 1 else 0

pub pop_back : List (List ℕ) → List (List ℕ)
pop_back [] = []
pop_back (x ∷ []) = []
pop_back (x ∷ (y ∷ ys)) = x ∷ pop_back (y ∷ ys)

pub matches : List (List ℕ) → List ℕ → List (List ℕ)
unfolding starts_with
matches [] word = []
matches (name ∷ names) word =
    let rest = matches names word in if starts_with name word then name ∷ rest else rest

pub is_printable : ℕ → Bool
is_printable ch = leb 33 ch && leb ch 126 || ch == 32

module _ {T : Type 0} (terminal : Terminal T) (strings : Strings) where
  -- A loop that writes `s` `n` times.
  pub write_times : T → List ℕ → ℕ → T
  write_times t s zero = t
  write_times t s (suc n) = write_times (terminal.write_str t s) s n

  -- `core::str::from_utf8(tail).unwrap_or("?")`
  pub text : List ℕ → List ℕ
  text s = if strings.is_utf8 s then s else 63 ∷ []

  pub get_completions : List ℕ → List (List ℕ)
  unfolding matches contains
  get_completions prefix =
      if contains prefix 32 then [] else matches strings.commands (strings.lower_trimmed prefix)

  pub do_insert : LineEditor → ℕ → T → LineEditor × T
  unfolding insert write_times text
  do_insert e ch t =
      if leb (length e.buffer) e.cursor
      then (
        record e { buffer = e.buffer ++ ch ∷ []; cursor = length (e.buffer ++ ch ∷ []) },
        terminal.write_str t (text (ch ∷ [])),
      )
      else let inserted = insert e.buffer e.cursor ch in
        let tail = drop e.cursor inserted in
        (
          record e { buffer = inserted; cursor = e.cursor + 1 },
          write_times (terminal.write_str t (text tail)) (8 ∷ []) (length tail - 1),
        )

  -- What `do_backspace` and `do_delete` write for the bytes from the cursor on.
  pub redraw : List ℕ → T → T
  unfolding write_times text
  redraw tail t =
      let blanked = write_times t (32 ∷ []) (length tail + 1) in
      let back = write_times blanked (8 ∷ []) (length tail + 1) in
      write_times (terminal.write_str back (text tail)) (8 ∷ []) (length tail)

  pub do_backspace : LineEditor → T → LineEditor × T
  unfolding remove redraw
  do_backspace e t =
      let removed = remove e.buffer (e.cursor - 1) in
      if e.cursor == 0 then (e, t) else (
        record e { buffer = removed; cursor = e.cursor - 1 },
        redraw (drop (e.cursor - 1) removed) (terminal.write_str t (8 ∷ [])),
      )

  pub do_delete : LineEditor → T → LineEditor × T
  unfolding remove redraw
  do_delete e t =
      let removed = remove e.buffer e.cursor in
      if leb (length e.buffer) e.cursor
      then (e, t)
      else (record e { buffer = removed }, redraw (drop e.cursor removed) t)

  pub do_cursor_left : LineEditor → T → LineEditor × T
  do_cursor_left e t =
      if ltb 0 e.cursor
      then (record e { cursor = e.cursor - 1 }, terminal.write_str t (8 ∷ []))
      else (e, t)

  pub do_cursor_right : LineEditor → T → LineEditor × T
  unfolding text
  do_cursor_right e t =
      if ltb e.cursor (length e.buffer)
      then (
        record e { cursor = e.cursor + 1 },
        terminal.write_str t (text (get_or e.buffer e.cursor 0 ∷ [])),
      )
      else (e, t)

  pub home_loop : ℕ → LineEditor → T → LineEditor × T
  unfolding do_cursor_left
  home_loop zero e t = (e, t)
  home_loop (suc n) e t = let (e', t') = do_cursor_left e t in home_loop n e' t'

  -- Each step moves to the left by one, so the cursor is the number of steps.
  pub do_home : LineEditor → T → LineEditor × T
  unfolding home_loop
  do_home e t = home_loop e.cursor e t

  pub end_loop : ℕ → LineEditor → T → LineEditor × T
  unfolding do_cursor_right
  end_loop zero e t = (e, t)
  end_loop (suc n) e t = let (e', t') = do_cursor_right e t in end_loop n e' t'

  pub do_end : LineEditor → T → LineEditor × T
  unfolding end_loop
  do_end e t = end_loop (length e.buffer - e.cursor) e t

  -- The blanks over the old line, and the way back.
  pub wipe : ℕ → T → T
  unfolding write_times
  wipe n t = write_times (write_times t (32 ∷ []) n) (8 ∷ []) n

  pub do_clear_line : LineEditor → T → LineEditor × T
  unfolding do_home wipe
  do_clear_line e t =
      let (e', t') = do_home e t in
      (record e' { buffer = []; cursor = 0 }, wipe (length e.buffer) t')

  pub replace_buffer : LineEditor → List ℕ → T → LineEditor × T
  unfolding do_home wipe
  replace_buffer e new_text t =
      let (e', t') = do_home e t in
      let wiped = wipe (length e.buffer) t' in
      (
        record e' { buffer = new_text; cursor = length new_text },
        if length new_text == 0 then wiped else terminal.write_str wiped new_text,
      )

  -- The step of `history_up` to the line at `idx`.
  pub browse : LineEditor → ℕ → T → LineEditor × T
  unfolding replace_buffer
  browse e idx t = replace_buffer (record e { browsing = some idx }) (get_or e.history idx []) t

  pub history_up : LineEditor → T → LineEditor × T
  unfolding browse
  history_up e t = elim e.browsing [
    | none ↦
        if length e.history == 0
        then (e, t)
        else browse (record e { saved_line = strings.from_utf8_lossy e.buffer }) 0 t
    | some i ↦ if ltb (i + 1) (length e.history) then browse e (i + 1) t else (e, t)
  ]

  pub history_down : LineEditor → T → LineEditor × T
  unfolding browse replace_buffer
  history_down e t = elim e.browsing [
    | none ↦ (e, t)
    | some i ↦
        if i == 0
        then replace_buffer (record e { browsing = none }) e.saved_line t
        else browse e (i - 1) t
  ]

  pub add_to_history : LineEditor → List ℕ → T → LineEditor × T
  unfolding front_is pop_back
  add_to_history e line t =
      let kept = if leb history_max (length e.history) then pop_back e.history else e.history in
      if length line == 0
      then (e, t)
      else if front_is e.history line
      then (e, t)
      else (record e { history = line ∷ kept }, terminal.record_history t line)
