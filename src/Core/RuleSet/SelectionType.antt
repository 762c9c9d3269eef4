-- ===== src/Core/RuleSet/SelectionType.antt =====
-- src/airmap/ruleset.cpp: the names of RuleSet::SelectionType.
use platform_sdk.Base.{String, if◌then◌else◌, str_eq}

pub data SelectionType : Type 0 where
  optional required pickone : SelectionType

-- `operator<<`.
unfoldable pub print : SelectionType → String
print optional = "optional"
print required = "required"
print pickone = "pickone"

-- `operator>>` on the word that it reads: another word leaves the old value.
unfoldable pub parse : String → SelectionType → SelectionType
parse s old =
    if str_eq s "optional"
    then optional
    else if str_eq s "required"
    then required
    else if str_eq s "pickone"
    then pickone
    else if str_eq s "pick1"
    then pickone
    else old
