-- ===== src/Util/TabWriter/Flush.antt =====
-- A table that was written and is flushed.
use mathlib.Core.List.{append_assoc, append-nil}
use platform_sdk.Base.{
  ℕ, suc, false, ◌+◌, ◌<◌, ◌≤◌, ◌==◌, ◌≡◌, refl, sym, ap, ◌∙◌, some, List, [], ◌∷◌, ◌++◌, map,
  length, get_elem?, get_elem?-of_lt, All, All-append_one, arith,
}
use platform_sdk.Util.TabWriter.{
  Text, TabWriter, create, fill_with, separate_columns_with, new_line, flush_row, flush_rows, tail,
  flush,
}
use platform_sdk.Util.TabWriter.Table.{
  Op, cell, line_break, run, rows_from, widest, intercalate, padded, layout, IsMeasured,
  write-IsMeasured, new_line-IsMeasured,
}

abbrev table_of : TabWriter → List (List Text)
table_of w = w.rows ++ w.back ∷ []

run-IsMeasured :
    (ops : List Op) (w : TabWriter)
    → IsMeasured w
    → (w' : TabWriter) × (run ops w ≡ some w')
      × IsMeasured w'
      × (table_of w' ≡ w.rows ++ rows_from w.back ops)
      × (w'.fill ≡ w.fill)
      × (w'.column_separator ≡ w.column_separator)
unfolding run new_line
run-IsMeasured [] w h = (w, refl, h, refl, refl, refl)
run-IsMeasured (cell c ∷ ops) w h =
    let (w₁, e, h₁, rows, back, fill, sep) = write-IsMeasured c w h in
    let (w₂, goes, h₂, table, fill', sep') = run-IsMeasured ops w₁ h₁ in
    (w₂, rw e goes, h₂, rw (rows, back) at table, fill' ∙ fill, sep' ∙ sep)
run-IsMeasured (line_break ∷ ops) w h =
    let (w₂, goes, h₂, table, fill, sep) =
      run-IsMeasured ops (new_line w) (new_line-IsMeasured w h) in
    (w₂, goes, h₂, table ∙ append_assoc w.rows (w.back ∷ []) (rows_from [] ops), fill, sep)

-- Each text behind a separator.
abbrev prefixed : ℕ → List Text → Text
prefixed sep [] = []
prefixed sep (t ∷ ts) = sep ∷ (t ++ prefixed sep ts)

intercalate-prefixed :
    (sep : ℕ) (t : Text) (ts : List Text) → intercalate (sep ∷ []) (t ∷ ts) ≡ t ++ prefixed sep ts
intercalate-prefixed sep t [] = sym (append-nil t)
intercalate-prefixed sep t (u ∷ ts) = ap (λ r. t ++ sep ∷ r) (intercalate-prefixed sep u ts)

tail-prefixed : (sep : ℕ) (ts : List Text) → tail (prefixed sep ts) ≡ intercalate (sep ∷ []) ts
unfolding tail
tail-prefixed sep [] = refl
tail-prefixed sep (t ∷ ts) = sym (intercalate-prefixed sep t ts)

module _ (w : TabWriter) (h : IsMeasured w) where
  width_lem :
      (j : ℕ)
      → j < length w.column_width
      → get_elem? w.column_width j ≡ some (widest j (table_of w))
  width_lem j lt = let (n, e) = get_elem?-of_lt w.column_width j lt in ground (arith, h.measured j)

  flush_row_lem :
      (j : ℕ) (cells : List Text)
      → suc j + length cells ≤ length w.column_width
      → flush_row w (suc j) cells
        ≡ some (prefixed w.column_separator (padded w.fill (table_of w) (suc j) cells))
  unfolding flush_row
  flush_row_lem j [] fits = refl
  flush_row_lem j (c ∷ cells) fits =
      let later : suc j == 0 ≡ false = ground arith in
      rw (
        width_lem (suc j) (omega (arith, fits)),
        flush_row_lem (suc j) cells (omega (arith, fits)),
        later,
      )

  flush_first_lem :
      (cells : List Text)
      → length cells ≤ length w.column_width
      → flush_row w 0 cells
        ≡ some (intercalate (w.column_separator ∷ []) (padded w.fill (table_of w) 0 cells))
  unfolding flush_row
  flush_first_lem [] fits = refl
  flush_first_lem (c ∷ cells) fits =
      rw (width_lem 0 (omega (arith, fits)), flush_row_lem 0 cells (omega (arith, fits)))
        (ap some
          (sym (intercalate-prefixed w.column_separator _ (padded w.fill (table_of w) 1 cells))))

  flush_rows_lem :
      (rows : List (List Text))
      → All (λ row. length row ≤ length w.column_width) rows
      → flush_rows w rows
        ≡ some (
            prefixed 10 (
              map
                (λ row. intercalate (w.column_separator ∷ []) (padded w.fill (table_of w) 0 row))
                rows))
  unfolding flush_rows
  flush_rows_lem [] fit = refl
  flush_rows_lem (row ∷ rows) (fits, fit) =
      rw (flush_first_lem row fits, flush_rows_lem rows fit) refl

  flush_lem : flush w ≡ some (layout w.fill w.column_separator (table_of w))
  unfolding flush
  flush_lem =
      let fit =
        All-append_one (λ row. length row ≤ length w.column_width) w.rows w.back h.all_fit h.fits in
      rw (flush_rows_lem (table_of w) fit) (ap some (tail-prefixed 10 _))

-- Whatever cells and line breaks are written to a new table, no width is read that is not there, and
-- the output is the table of these cells: each cell filled up to the widest of its column, the cells
-- of a row with one separator between them, and the rows with one line break.
pub run-flush :
    (fill sep : ℕ) (ops : List Op)
    → (w : TabWriter) × (run ops (separate_columns_with sep (fill_with fill create)) ≡ some w)
      × (flush w ≡ some (layout fill sep (rows_from [] ops)))
unfolding separate_columns_with fill_with create
run-flush fill sep ops =
    let first : IsMeasured (separate_columns_with sep (fill_with fill create)) = record {
      here = refl;
      fits = omega arith;
      all_fit = tt;
      measured = λ j. ground arith;
    } in
    let (w, goes, h, table, fills, separates) =
      run-IsMeasured ops (separate_columns_with sep (fill_with fill create)) first in
    (w, goes, rw (table, fills, separates) at (flush_lem w h))
