-- ===== src/Monitor/Submitter/Plan.antt =====
-- How a flight is created: from the mission, or else from the position of the vehicle.
pub mod Highest
use platform_sdk.Base.{
  ℕ, ◌+◌, String, true, Option, none, some, ◌>>=◌, List, [], ◌∷◌, if◌then◌else◌, str_eq,
}
use platform_sdk.Core.Floating.{Floating}
use platform_sdk.Core.Geometry.{Geometry, Coordinate, details_for_polygon}
use platform_sdk.Monitor.Submitter.Types.{
  GlobalPositionInt, create_by_polygon, create_flight_by_point, Env, Submitter,
}
use platform_sdk.Monitor.Submitter.Comms.{send, handle_request_create_flight_plan_finished}

-- `hours(1)`, in microseconds.
abbrev pub one_hour : ℕ
one_hour = 3600000000

-- The aircraft is set only where its id is not empty.
abbrev pub aircraft_of : String → Option String
aircraft_of id = if str_eq id "" then none else some id

-- `std::max_element` by altitude, from the first element on: the first of the highest.
unfoldable pub max_element :
    {D : Type 0} ⦃fl : Floating D⦄ → Coordinate D → List (Coordinate D) → Option (Coordinate D)
max_element best [] = some best
max_element ⦃fl⦄ best (c ∷ cs) = do
  a ← best.altitude
  b ← c.altitude
  max_element (if fl.lt a b then c else best) cs

-- The altitude of the highest coordinate. With no coordinate the code dereferences `end`.
unfoldable pub max_altitude : {D : Type 0} ⦃fl : Floating D⦄ → List (Coordinate D) → Option D
unfolding max_element
max_altitude [] = none
max_altitude (c ∷ cs) = do highest ← max_element c cs; highest.altitude

-- The methods that read the clock.
module _ {D : Type 0} ⦃fl : Floating D⦄ (env : Env) where
  open env use {now, uuid}
  open fl use {quotient, of_ℕ}

  unfoldable pub create_by_mission :
      GlobalPositionInt → Geometry D → Submitter D → Option (Submitter D)
  create_by_mission position geometry s = do
    authorization ← s.authorization
    pilot ← s.pilot_id
    polygon ← details_for_polygon geometry
    highest ← max_altitude polygon.outer_ring.coordinates
    some (
        send
          (create_by_polygon (record {
            authorization = authorization;
            latitude = quotient position.lat 10000000;
            longitude = quotient position.lon 10000000;
            aircraft = aircraft_of s.aircraft_id;
            pilot = pilot;
            start_time = now;
            end_time = now + one_hour;
            geometry = geometry;
            buffer = of_ℕ 100;
            max_altitude = highest;
          }))
          s)

  unfoldable pub create_by_position : GlobalPositionInt → Submitter D → Option (Submitter D)
  create_by_position position s = do
    authorization ← s.authorization
    some (
        send
          (create_flight_by_point (record {
            authorization = authorization;
            latitude = quotient position.lat 10000000;
            longitude = quotient position.lon 10000000;
            aircraft_id = s.aircraft_id;
            start_time = now;
            end_time = now + one_hour;
          }))
          s)

  -- With no position the request is marked and no call is made.
  unfoldable pub request_create_flight_plan : Submitter D → Option (Submitter D)
  request_create_flight_plan s = elim s.flight_plan [
    | some plan ↦ handle_request_create_flight_plan_finished plan s
    | none ↦
        if s.create_flight_plan_requested
        then some s
        else let marked = record s { create_flight_plan_requested = true } in
          elim s.current_position [
            | none ↦ some marked
            | some position ↦ elim s.mission_geometry [
              | some geometry ↦ create_by_mission position geometry marked
              | none ↦ create_by_position position marked
            ]
          ]
  ]
