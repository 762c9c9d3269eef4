-- ===== src/Net/Response.antt =====
-- src/airmap/net/http/response.cpp: the class of a response.
use platform_sdk.Base.{ℕ, ◌/◌, ◌≡◌, Bool, ltb, leb, ◌&&◌, if◌then◌else◌, arith}

pub data Classification : Type 0 where
  informational success redirection client_error server_error unclassified : Classification

unfoldable pub classify : ℕ → Classification
classify status =
    if leb 100 status && ltb status 200
    then informational
    else if leb 200 status && ltb status 300
    then success
    else if leb 300 status && ltb status 400
    then redirection
    else if leb 400 status && ltb status 500
    then client_error
    else if leb 500 status && ltb status 600
    then server_error
    else unclassified

-- The hundreds of the statuses of a class; for the last class, none.
abbrev pub hundreds : Classification → ℕ
hundreds informational = 1
hundreds success = 2
hundreds redirection = 3
hundreds client_error = 4
hundreds server_error = 5
hundreds unclassified = 0

abbrev pub is_classified : ℕ → Bool
is_classified status = leb 1 (status / 100) && leb (status / 100) 5

-- The hundreds of a status from 100 to 599 are those of its class, and any other status is
-- unclassified.
pub classify_lem :
    (status : ℕ) → hundreds (classify status) ≡ (if is_classified status then status / 100 else 0)
unfolding classify
classify_lem status = ground arith
