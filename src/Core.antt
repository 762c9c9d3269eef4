-- ===== src/Core.antt =====
-- The data types of the public interface (include/airmap).
pub mod Floating
pub mod Error
pub mod Outcome
pub mod Geometry
pub mod Color
pub mod RuleSet
pub mod Airspace
pub mod Token
pub mod Flight
