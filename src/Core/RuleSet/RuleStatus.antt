-- ===== src/Core/RuleSet/RuleStatus.antt =====
-- src/airmap/ruleset.cpp: the names of RuleSet::Rule::Status.
use platform_sdk.Base.{String, ◌||◌, if◌then◌else◌, str_eq}

pub data RuleStatus : Type 0 where
  unknown conflicting not_conflicting missing_info informational : RuleStatus

-- `operator<<`.
unfoldable pub print : RuleStatus → String
print unknown = "unknown"
print conflicting = "conflicting"
print not_conflicting = "not_conflicting"
print missing_info = "missing_info"
print informational = "informational"

-- `operator>>` on the word that it reads.
unfoldable pub parse : String → RuleStatus → RuleStatus
parse s old =
    if str_eq s "conflicting"
    then conflicting
    else if str_eq s "not_conflicting"
    then not_conflicting
    else if str_eq s "missing_info"
    then missing_info
    else if str_eq s "informational" || str_eq s "informational_rules"
    then informational
    else unknown
