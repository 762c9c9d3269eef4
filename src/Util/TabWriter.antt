-- ===== src/Util/TabWriter.antt =====
-- `TabWriter` of src/airmap/util/cli.{h,cpp}: rows of cells, each column as wide as its widest cell. A
-- text is the list of its bytes, the iterator into the widths is an index, and a read at the end of
-- the widths is the result `none`.
pub mod Table
pub mod Flush
use platform_sdk.Base.{
  ℕ, zero, suc, ltb, ◌+◌, ◌-◌, ◌==◌, Option, none, some, ◌>>=◌, List, [], ◌∷◌, ◌++◌, length,
  get_elem?, set, if◌then◌else◌,
}

abbrev pub Text : Type 0
Text = List ℕ

-- `table_` is never empty: `rows` has all but its last row, and `back` that one.
pub record TabWriter : Type 0 where
  pub fill : ℕ
  pub column_separator : ℕ
  pub column_width : List ℕ
  pub current_column : ℕ
  pub rows : List (List Text)
  pub back : List Text

-- `std::max`
abbrev pub max : ℕ → ℕ → ℕ
max a b = if ltb a b then b else a

unfoldable pub create : TabWriter
create = record {
  fill = 32;
  column_separator = 32;
  column_width = [];
  current_column = 0;
  rows = [];
  back = [];
}

unfoldable pub fill_with : ℕ → TabWriter → TabWriter
fill_with c w = record w { fill = c }

unfoldable pub separate_columns_with : ℕ → TabWriter → TabWriter
separate_columns_with c w = record w { column_separator = c }

-- The widths, with a new one where the row at hand is the longest so far.
abbrev pub grown : ℕ → List ℕ → List ℕ
grown column widths = if column == length widths then widths ++ 0 ∷ [] else widths

unfoldable pub write : Text → TabWriter → Option TabWriter
write cell w = do
  let widths = grown w.current_column w.column_width
  width ← get_elem? widths w.current_column
  some (record w {
    column_width = set widths w.current_column (max width (length cell));
    current_column = w.current_column + 1;
    back = w.back ++ cell ∷ [];
  })

unfoldable pub new_line : TabWriter → TabWriter
new_line w = record w { current_column = 0; rows = w.rows ++ w.back ∷ []; back = [] }

abbrev pub replicate : ℕ → ℕ → Text
replicate zero c = []
replicate (suc n) c = c ∷ replicate n c

-- A text after `std::setw`, `std::setfill` and `std::left`.
abbrev pub pad : ℕ → ℕ → Text → Text
pad fill width cell = cell ++ replicate (width - length cell) fill

-- The loop over the cells of a row, from the column `j` on.
unfoldable pub flush_row : TabWriter → ℕ → List Text → Option Text
flush_row w j [] = some []
flush_row w j (cell ∷ cells) = do
  width ← get_elem? w.column_width j
  rest ← flush_row w (suc j) cells
  some ((if j == 0 then [] else w.column_separator ∷ []) ++ (pad w.fill width cell ++ rest))

-- The loop over the rows, with a line break before all but the first.
unfoldable pub flush_rows : TabWriter → List (List Text) → Option Text
flush_rows w [] = some []
flush_rows w (row ∷ rows) = do
  line ← flush_row w 0 row
  rest ← flush_rows w rows
  some (10 ∷ (line ++ rest))

unfoldable pub tail : Text → Text
tail [] = []
tail (c ∷ cs) = cs

unfoldable pub flush : TabWriter → Option Text
flush w = do out ← flush_rows w (w.rows ++ w.back ∷ []); some (tail out)
