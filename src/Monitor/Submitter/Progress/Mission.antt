-- ===== src/Monitor/Submitter/Progress/Mission.antt =====
-- From activation to telemetry with a mission.
use platform_sdk.Base.{◌+◌, ℕ, String, List, [], ◌∷◌, ◌++◌}
use platform_sdk.Core.Floating.{Floating}
use platform_sdk.Core.Outcome.{value}
use platform_sdk.Core.Geometry.{Polygon, polygon}
use platform_sdk.Core.Flight.{Credentials, Flight, FlightPlan}
use platform_sdk.Monitor.Submitter.Types.{
  GlobalPositionInt, Request, submit_plan, create_by_polygon, plan_reply, submitted_reply,
  monitor_reply, comms_reply, Env,
}
use platform_sdk.Monitor.Submitter.Plan.{one_hour, aircraft_of, max_altitude}
use platform_sdk.Monitor.Submitter.Events.{Event, submits, sets_mission, replies}
use platform_sdk.Monitor.Submitter.Leftovers.{ended, found}
use platform_sdk.Monitor.Submitter.Progress.{at, introduction, introducing}

module _ {D : Type 0} ⦃fl : Floating D⦄ where
  -- A vehicle with a mission: the plan is created for it and then submitted.
  abbrev pub flight_by_mission :
      Env
      → GlobalPositionInt
      → GlobalPositionInt
      → Polygon D
      → String
      → String
      → List (Flight D)
      → FlightPlan D
      → FlightPlan D
      → ℕ
      → String
      → List (Env × Event D)
  flight_by_mission env p q area token pilot leftovers plan submitted m key =
      (env, sets_mission (polygon area)) ∷ at env (introducing p token pilot)
      ++ (found env leftovers
          ++ at env (
              replies (plan_reply (value plan))
              ∷ replies (submitted_reply (value submitted))
              ∷ replies (monitor_reply (value m))
              ∷ replies (comms_reply (value key))
              ∷ submits q
              ∷ []))

  -- The calls up to the submission of the plan.
  abbrev pub planned :
      Env
      → Credentials
      → String
      → GlobalPositionInt
      → Polygon D
      → String
      → String
      → List (Flight D)
      → FlightPlan D
      → D
      → List (Request D)
  planned env c aircraft p area token pilot leftovers plan highest =
      submit_plan token plan.id
      ∷ create_by_polygon (record {
        authorization = token;
        latitude = fl.quotient p.lat 10000000;
        longitude = fl.quotient p.lon 10000000;
        aircraft = aircraft_of aircraft;
        pilot = pilot;
        start_time = env.now;
        end_time = env.now + one_hour;
        geometry = polygon area;
        buffer = fl.of_ℕ 100;
        max_altitude = highest;
      })
      ∷ ended token leftovers (introduction env c token pilot)
