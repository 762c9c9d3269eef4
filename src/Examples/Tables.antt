-- ===== src/Examples/Tables.antt =====
-- A table of two rows.
use platform_sdk.Base.{◌≡◌, some, List, [], ◌∷◌}
use platform_sdk.Util.TabWriter.{Text, TabWriter, create, fill_with, separate_columns_with, flush}
use platform_sdk.Util.TabWriter.Table.{Op, cell, line_break, run}
use platform_sdk.Util.TabWriter.Flush.{run-flush}

-- The rows "id", "name" and "12345", "a", filled with dots and separated by a bar.
abbrev two_rows : List Op
two_rows =
    cell (105 ∷ 100 ∷ [])
    ∷ cell (110 ∷ 97 ∷ 109 ∷ 101 ∷ [])
    ∷ line_break
    ∷ cell (49 ∷ 50 ∷ 51 ∷ 52 ∷ 53 ∷ [])
    ∷ cell (97 ∷ [])
    ∷ []

abbrev printed : Text
printed =
    105 ∷ 100 ∷ 46 ∷ 46 ∷ 46 ∷ 124 ∷ 110 ∷ 97 ∷ 109 ∷ 101 ∷ 10 ∷ 49 ∷ 50 ∷ 51 ∷ 52 ∷ 53 ∷ 124 ∷ 97
    ∷ 46 ∷ 46 ∷ 46 ∷ []

run-flush_example :
    (w : TabWriter) × (run two_rows (separate_columns_with 124 (fill_with 46 create)) ≡ some w)
    × (flush w ≡ some printed)
run-flush_example = run-flush 46 124 two_rows
