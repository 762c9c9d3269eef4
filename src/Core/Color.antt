-- ===== src/Core/Color.antt =====
-- src/airmap/status.cpp: the names of Status::Color.
use platform_sdk.Base.{String, if◌then◌else◌, str_eq}

pub data Color : Type 0 where
  green yellow orange red : Color

-- `operator<<`.
unfoldable pub print : Color → String
print green = "green"
print yellow = "yellow"
print orange = "orange"
print red = "red"

-- `operator>>` on the word that it reads: another word leaves the old value.
unfoldable pub parse : String → Color → Color
parse s old =
    if str_eq s "green"
    then green
    else if str_eq s "yellow"
    then yellow
    else if str_eq s "orange"
    then orange
    else if str_eq s "red"
    then red
    else old
