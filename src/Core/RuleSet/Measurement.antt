-- ===== src/Core/RuleSet/Measurement.antt =====
-- src/airmap/ruleset.cpp: the names of RuleSet::Feature::Measurement.
use platform_sdk.Base.{String, if◌then◌else◌, str_eq}

pub data Measurement : Type 0 where
  distance speed weight unknown : Measurement

-- `operator<<`.
unfoldable pub print : Measurement → String
print distance = "distance"
print speed = "speed"
print weight = "weight"
print unknown = "unknown"

-- `operator>>` on the word that it reads: another word leaves the old value.
unfoldable pub parse : String → Measurement → Measurement
parse s old =
    if str_eq s "distance"
    then distance
    else if str_eq s "speed"
    then speed
    else if str_eq s "weight"
    then weight
    else if str_eq s "unknown"
    then unknown
    else old
