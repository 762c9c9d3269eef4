-- ===== src/Examples/Values.antt =====
-- Values that are set in an error.
use platform_sdk.Base.{ℕ, refl, arith}
use platform_sdk.Base.Int.{pos}
use platform_sdk.Core.Error.{Error, integer, string, empty, entry}
use platform_sdk.Core.Error.Order.{is_basic_type, value}
use platform_sdk.Core.Error.Order.Assigning.{Reads, value-Reads}
use platform_sdk.Examples.Fixtures.{whole_floating, error_value}

abbrev answered : Error ℕ
answered = record error_value { values = entry (string "body") (string "{}") empty }

value-Reads_example :
    Reads
      (string "status-code")
      (integer (pos 600))
      (value (string "status-code") (integer (pos 600)) answered)
unfolding is_basic_type
value-Reads_example =
    value-Reads (λ x. ground arith) (string "status-code") (integer (pos 600)) answered refl refl
