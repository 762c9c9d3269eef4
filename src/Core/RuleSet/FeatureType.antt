-- ===== src/Core/RuleSet/FeatureType.antt =====
-- src/airmap/ruleset.cpp: the names of RuleSet::Feature::Type.
use platform_sdk.Base.{String, if◌then◌else◌, str_eq}

pub data FeatureType : Type 0 where
  unknown boolean floating_point string : FeatureType

-- `operator<<`.
unfoldable pub print : FeatureType → String
print boolean = "bool"
print floating_point = "float"
print string = "string"
print unknown = "unknown"

-- `operator>>` on the word that it reads: another word leaves the old value.
unfoldable pub parse : String → FeatureType → FeatureType
parse s old =
    if str_eq s "bool"
    then boolean
    else if str_eq s "float"
    then floating_point
    else if str_eq s "string"
    then string
    else if str_eq s "unknown"
    then unknown
    else old
