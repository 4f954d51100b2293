-- ===== src/Selection.antt =====
-- nozzle/src/selection.rs: `Selection`, a rectangle of cells of the terminal.
use fullerene.Base.{
  ℕ, ◌≡◌, refl, Bool, true, false, not, ◌&&◌, ◌||◌, if◌then◌else◌, leb, ◌==◌, min, max, arith,
}

pub record Selection : Type 0 where
  pub anchor_col : ℕ
  pub anchor_row : ℕ
  pub end_col : ℕ
  pub end_row : ℕ
  pub active : Bool

pub new : Selection
new = record { anchor_col = 0; anchor_row = 0; end_col = 0; end_row = 0; active = false }

pub start : Selection → ℕ → ℕ → Selection
start s col row = record s {
  anchor_col = col;
  anchor_row = row;
  end_col = col;
  end_row = row;
  active = true;
}

pub extend : Selection → ℕ → ℕ → Selection
extend s col row = record s { end_col = col; end_row = row }

pub end : Selection → Selection
end s = record s { active = false }

pub cancel : Selection → Selection
cancel s = record s { active = false }

-- The least column and row and the greatest column and row.
pub bounds : Selection → ((ℕ × ℕ) × (ℕ × ℕ))
bounds s = (
  (min s.anchor_col s.end_col, min s.anchor_row s.end_row),
  (max s.anchor_col s.end_col, max s.anchor_row s.end_row),
)

pub is_empty : Selection → Bool
is_empty s = s.anchor_col == s.end_col && s.anchor_row == s.end_row

pub contains : Selection → ℕ → ℕ → Bool
unfolding bounds is_empty
contains s col row =
    let ((c0, r0), (c1, r1)) = bounds s in
    if not s.active || is_empty s
    then false
    else leb c0 col && leb col c1 && leb r0 row && leb row r1

-- A drag from one cell to another selects both.
contains-extend :
    (s : Selection) (c r c' r' : ℕ)
    → (c == c') && (r == r') ≡ false
    → (contains (extend (start s c r) c' r') c r ≡ true)
      × (contains (extend (start s c r) c' r') c' r' ≡ true)
unfolding contains extend start
contains-extend s c r c' r' moved = (ground arith, ground arith)

-- After the end of a drag, and before the first, no cell is within the selection.
contains-end :
    (s : Selection) (col row : ℕ)
    → (contains (end s) col row ≡ false)
      × (contains (cancel s) col row ≡ false)
      × (contains new col row ≡ false)
unfolding contains end cancel new
contains-end s col row = (refl, refl, refl)
