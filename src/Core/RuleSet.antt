-- ===== src/Core/RuleSet.antt =====
-- src/airmap/ruleset.cpp: the enumerations of a rule set and the value of a feature.
pub mod FeatureType
pub mod Measurement
pub mod MeasureUnit
pub mod Region
pub mod SelectionType
pub mod RuleStatus
pub mod Names
pub mod Feature
