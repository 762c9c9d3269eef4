-- ===== src/Util/TabWriter/Table.antt =====
-- What a table looks like, by the cells alone.
use platform_sdk.Base.{
  ℕ, zero, suc, ◌+◌, ◌<◌, ◌≤◌, ◌==◌, ◌≡◌, refl, Option, none, some, ◌>>=◌, List, [], ◌∷◌, ◌++◌, map,
  length, length-append, length-set, get_elem?, get_elem?-set, get_elem?-of_lt, set, All,
  All-append_one, if◌then◌else◌, arith,
}
use platform_sdk.Util.TabWriter.{Text, TabWriter, max, grown, write, new_line, pad}

-- What is written.
pub data Op : Type 0 where
  cell : Text → Op
  line_break : Op

unfoldable pub run : List Op → TabWriter → Option TabWriter
run [] w = some w
run (cell c ∷ ops) w = do w' ← write c w; run ops w'
run (line_break ∷ ops) w = run ops (new_line w)

-- The rows after those that are there: the last of them, and what is written from then on.
abbrev pub rows_from : List Text → List Op → List (List Text)
rows_from row [] = row ∷ []
rows_from row (cell c ∷ ops) = rows_from (row ++ c ∷ []) ops
rows_from row (line_break ∷ ops) = row ∷ rows_from [] ops

abbrev pub size_at : ℕ → List Text → ℕ
size_at j row = elim (get_elem? row j) [ none ↦ 0 | some c ↦ length c ]

-- The size of the widest cell of a column.
abbrev pub widest : ℕ → List (List Text) → ℕ
widest j [] = 0
widest j (row ∷ rows) = max (size_at j row) (widest j rows)

abbrev pub intercalate : Text → List Text → Text
intercalate sep [] = []
intercalate sep (t ∷ []) = t
intercalate sep (t ∷ u ∷ ts) = t ++ (sep ++ intercalate sep (u ∷ ts))

-- The cells of a row, each as wide as the widest cell of its column in the table.
abbrev pub padded : ℕ → List (List Text) → ℕ → List Text → List Text
padded fill table j [] = []
padded fill table j (c ∷ cs) = pad fill (widest j table) c ∷ padded fill table (suc j) cs

abbrev pub layout : ℕ → ℕ → List (List Text) → Text
layout fill sep table =
    intercalate (10 ∷ []) (map (λ row. intercalate (sep ∷ []) (padded fill table 0 row)) table)

abbrev pub width_at : ℕ → List ℕ → ℕ
width_at j widths = elim (get_elem? widths j) [ none ↦ 0 | some n ↦ n ]

-- The widths are those of the cells that are there.
pub record IsMeasured (w : TabWriter) : Type 0 where
  pub here : w.current_column ≡ length w.back
  pub fits : length w.back ≤ length w.column_width
  pub all_fit : All (λ row. length row ≤ length w.column_width) w.rows
  pub measured : (j : ℕ) → width_at j w.column_width ≡ widest j (w.rows ++ w.back ∷ [])

widest-append_one :
    (j : ℕ) (rows : List (List Text)) (row : List Text)
    → widest j (rows ++ row ∷ []) ≡ max (widest j rows) (size_at j row)
widest-append_one j [] row = ground arith
widest-append_one j (r ∷ rows) row = ground (arith, widest-append_one j rows row)

size_at-append_one :
    (j : ℕ) (row : List Text) (c : Text)
    → size_at j (row ++ c ∷ []) ≡ (if j == length row then length c else size_at j row)
size_at-append_one zero [] c = refl
size_at-append_one (suc j) [] c = ground arith
size_at-append_one zero (r ∷ row) c = ground arith
size_at-append_one (suc j) (r ∷ row) c = ground (arith, size_at-append_one j row c)

size_at-length : (row : List Text) → size_at (length row) row ≡ 0
size_at-length [] = refl
size_at-length (r ∷ row) = size_at-length row

width_at-append_zero : (j : ℕ) (widths : List ℕ) → width_at j (widths ++ 0 ∷ []) ≡ width_at j widths
width_at-append_zero zero [] = refl
width_at-append_zero (suc j) [] = ground arith
width_at-append_zero zero (n ∷ widths) = refl
width_at-append_zero (suc j) (n ∷ widths) = width_at-append_zero j widths

width_at-grown :
    (j column : ℕ) (widths : List ℕ) → width_at j (grown column widths) ≡ width_at j widths
width_at-grown j column widths = ground (arith, width_at-append_zero j widths)

length-grown :
    (column : ℕ) (widths : List ℕ)
    → column ≤ length widths
    → (length widths ≤ length (grown column widths)) × (column < length (grown column widths))
length-grown column widths h = ground (arith, length-append widths (0 ∷ []))

All-mono :
    (m n : ℕ) (rows : List (List Text))
    → m ≤ n
    → All (λ row. length row ≤ m) rows
    → All (λ row. length row ≤ n) rows
All-mono m n [] le h = tt
All-mono m n (row ∷ rows) le (h, hs) = (omega (arith, h, le), All-mono m n rows le hs)

pub write-IsMeasured :
    (c : Text) (w : TabWriter)
    → IsMeasured w
    → (w' : TabWriter) × (write c w ≡ some w')
      × IsMeasured w'
      × (w'.rows ≡ w.rows)
      × (w'.back ≡ w.back ++ c ∷ [])
      × (w'.fill ≡ w.fill)
      × (w'.column_separator ≡ w.column_separator)
unfolding write
write-IsMeasured c w h =
    let widths = grown w.current_column w.column_width in
    let (longer, inside) =
      length-grown w.current_column w.column_width (omega (arith, h.here, h.fits)) in
    let (width, e) = get_elem?-of_lt widths w.current_column inside in
    let widths' = set widths w.current_column (max width (length c)) in
    let size : length widths' ≡ length widths =
      length-set widths w.current_column (max width (length c)) in
    let w' : TabWriter = record w {
      column_width = widths';
      current_column = w.current_column + 1;
      back = w.back ++ c ∷ [];
    } in
    (
      w',
      rw e refl,
      record {
        here = omega (arith, h.here, length-append w.back (c ∷ []));
        fits = omega (arith, h.here, length-append w.back (c ∷ []), inside, size);
        all_fit =
            All-mono (length w.column_width) (length widths') w.rows (omega (arith, longer, size))
              h.all_fit;
        measured = λ j. ground (
          arith,
          h.measured j,
          h.here,
          get_elem?-set widths w.current_column j (max width (length c)) e,
          width_at-grown j w.current_column w.column_width,
          widest-append_one j w.rows w.back,
          widest-append_one j w.rows (w.back ++ c ∷ []),
          size_at-append_one j w.back c,
          size_at-length w.back,
        );
      },
      refl,
      refl,
      refl,
      refl,
    )

pub new_line-IsMeasured : (w : TabWriter) → IsMeasured w → IsMeasured (new_line w)
unfolding new_line
new_line-IsMeasured w h = record {
  here = refl;
  fits = omega arith;
  all_fit =
      All-append_one (λ row. length row ≤ length w.column_width) w.rows w.back h.all_fit h.fits;
  measured = λ j. ground (arith, h.measured j, widest-append_one j (w.rows ++ w.back ∷ []) []);
}
