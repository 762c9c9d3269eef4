-- ===== src/Core/Floating.antt =====
-- Floating-point numbers as the code uses them: a type with its comparisons and one division.
-- `float` and `double` are one type here, and a conversion between them is the identity.
use platform_sdk.Base.{ℕ, Bool}
use platform_sdk.Base.Int.{ℤ}

pub record Floating (D : Type 0) : Type 0 where
  pub lt : D → D → Bool
  pub eq : D → D → Bool
  -- `n / 1En`, with the divisor given as a number.
  pub quotient : ℤ → ℕ → D
  pub of_ℕ : ℕ → D
