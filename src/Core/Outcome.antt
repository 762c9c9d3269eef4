-- ===== src/Core/Outcome.antt =====
-- include/airmap/outcome.h: a value or an error.
pub mod Assignment

pub data Outcome (V E : Type 0) : Type 0 where
  value : V → Outcome V E
  error : E → Outcome V E
