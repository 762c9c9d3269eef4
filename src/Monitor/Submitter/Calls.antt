-- ===== src/Monitor/Submitter/Calls.antt =====
-- The calls of a submitter by kind.
use platform_sdk.Base.{ℕ, suc, Bool, true, false, ◌||◌, List, [], ◌∷◌, if◌then◌else◌}
use platform_sdk.Monitor.Submitter.Types.{
  Request, authenticate_with_password, authenticate_anonymously, authenticated, search,
  end_active_flight, create_by_polygon, create_flight_by_point, submit_plan, monitor,
  start_flight_communications,
}

pub data Kind : Type 0 where
  asks_authorization asks_pilot asks_flights ends_active plans submits_plan watches starts_comms :
      Kind

unfoldable pub is_kind : {D : Type 0} → Kind → Request D → Bool
is_kind asks_authorization (authenticate_with_password o) = true
is_kind asks_authorization (authenticate_anonymously i) = true
is_kind asks_pilot (authenticated a) = true
is_kind asks_flights (search a b p) = true
is_kind ends_active (end_active_flight a i) = true
is_kind plans (create_by_polygon p) = true
is_kind plans (create_flight_by_point p) = true
is_kind submits_plan (submit_plan a i) = true
is_kind watches (monitor i a) = true
is_kind starts_comms (start_flight_communications a i) = true
is_kind _ _ = false

module _ {D : Type 0} where
  -- A call of the kind was made.
  abbrev pub asked : Kind → List (Request D) → Bool
  asked k [] = false
  asked k (r ∷ rs) = is_kind k r || asked k rs

  -- How many calls of the kind were made.
  abbrev pub count : Kind → List (Request D) → ℕ
  count k [] = 0
  count k (r ∷ rs) = if is_kind k r then suc (count k rs) else count k rs
