-- ===== src/Core/RuleSet/Region.antt =====
-- src/airmap/ruleset.cpp: the names of RuleSet::Jurisdiction::Region.
use platform_sdk.Base.{String, ◌||◌, if◌then◌else◌, str_eq}

pub data Region : Type 0 where
  national state county city local : Region

-- `operator<<`.
unfoldable pub print : Region → String
print national = "national"
print state = "state"
print county = "county"
print city = "city"
print local = "local"

-- `operator>>` on the word that it reads: another word leaves the old value.
unfoldable pub parse : String → Region → Region
parse s old =
    if str_eq s "national" || str_eq s "federal"
    then national
    else if str_eq s "state"
    then state
    else if str_eq s "county"
    then county
    else if str_eq s "city"
    then city
    else if str_eq s "local"
    then local
    else old
