-- ===== src/Core/RuleSet/MeasureUnit.antt =====
-- src/airmap/ruleset.cpp: the names of RuleSet::Feature::Unit.
use platform_sdk.Base.{String, if◌then◌else◌, str_eq}

pub data MeasureUnit : Type 0 where
  kilograms meters meters_per_sec unknown : MeasureUnit

-- `operator<<`.
unfoldable pub print : MeasureUnit → String
print kilograms = "kilograms"
print meters = "meters"
print meters_per_sec = "meters_per_sec"
print unknown = "unknown"

-- `operator>>` on the word that it reads: another word leaves the old value.
unfoldable pub parse : String → MeasureUnit → MeasureUnit
parse s old =
    if str_eq s "kilograms"
    then kilograms
    else if str_eq s "meters"
    then meters
    else if str_eq s "meters_per_sec"
    then meters_per_sec
    else if str_eq s "unknown"
    then unknown
    else old
