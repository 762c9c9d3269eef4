-- ===== src/Monitor/Submitter/Types.antt =====
-- The state of a `TelemetrySubmitter`, the calls it makes and the callbacks that answer them.
use platform_sdk.Base.{ℕ, String, Bool, false, Option, none, List, []}
use platform_sdk.Core.Outcome.{Outcome}
use platform_sdk.Core.Error.{Error}
use platform_sdk.Core.Geometry.{Geometry}
pub use platform_sdk.Mavlink.Message.{GlobalPositionInt}
use platform_sdk.Core.Flight.{OAuth, Credentials, Flight, FlightPlan}

pub data State : Type 0 where
  active inactive : State

-- `Telemetry::Position`.
pub record Position (D : Type 0) : Type 0 where
  pub timestamp : ℕ
  pub latitude : D
  pub longitude : D
  pub altitude_msl : D
  pub altitude_gl : D
  pub horizontal_accuracy : D

-- The fields of `FlightPlans::Create::Parameters` that the code sets.
pub record PlanParameters (D : Type 0) : Type 0 where
  pub authorization : String
  pub latitude : D
  pub longitude : D
  pub aircraft : Option String
  pub pilot : String
  pub start_time : ℕ
  pub end_time : ℕ
  pub geometry : Geometry D
  pub buffer : D
  pub max_altitude : D

-- The fields of `Flights::CreateFlight::Parameters` that the code sets.
pub record FlightParameters (D : Type 0) : Type 0 where
  pub authorization : String
  pub latitude : D
  pub longitude : D
  pub aircraft_id : String
  pub start_time : ℕ
  pub end_time : ℕ

-- A call of the client, with the arguments that are set. `end_flight` is the call of `deactivate`,
-- `end_active_flight` the same call with the other callback.
pub data Request (D : Type 0) : Type 0 where
  authenticate_with_password : OAuth → Request D
  authenticate_anonymously : String → Request D
  authenticated : String → Request D
  search : ℕ → ℕ → Option String → Request D
  end_active_flight : String → String → Request D
  create_by_polygon : PlanParameters D → Request D
  create_flight_by_point : FlightParameters D → Request D
  submit_plan : String → String → Request D
  monitor : String → String → Request D
  start_flight_communications : String → String → Request D
  end_flight : String → String → Request D
  submit_updates : Flight D → String → Position D → Request D
  subscribe : ℕ → Request D

-- The result that a callback is handed. A traffic monitor is known by its address.
pub data Reply (D : Type 0) : Type 0 where
  authorization_reply : Outcome String (Error D) → Reply D
  pilot_reply : Outcome String (Error D) → Reply D
  flights_reply : Outcome (List (Flight D)) (Error D) → Reply D
  ended_reply : String → Outcome (Unit {0}) (Error D) → Reply D
  plan_reply : Outcome (FlightPlan D) (Error D) → Reply D
  point_reply : Outcome (Flight D) (Error D) → Reply D
  submitted_reply : Outcome (FlightPlan D) (Error D) → Reply D
  monitor_reply : Outcome ℕ (Error D) → Reply D
  comms_reply : Outcome String (Error D) → Reply D
  end_flight_reply : Outcome (Unit {0}) (Error D) → Reply D

-- The clock, in microseconds since the epoch, and the random UUID that one event reads.
pub record Env : Type 0 where
  pub now : ℕ
  pub uuid : String

-- The members, and in `sent` the calls made so far, the latest first.
pub record Submitter (D : Type 0) : Type 0 where
  pub state : State
  pub authorization_requested : Bool
  pub pilot_id_requested : Bool
  pub active_flights_requested : Bool
  pub end_active_flights_requested : Bool
  pub create_flight_plan_requested : Bool
  pub submit_flight_plan_requested : Bool
  pub traffic_monitoring_requested : Bool
  pub start_flight_comms_requested : Bool
  pub credentials : Credentials
  pub aircraft_id : String
  pub current_position : Option GlobalPositionInt
  pub active_flights : Option (List (Flight D))
  pub flight_plan : Option (FlightPlan D)
  pub flight : Option (Flight D)
  pub authorization : Option String
  pub traffic_monitor : Option ℕ
  pub encryption_key : Option String
  pub mission_geometry : Option (Geometry D)
  pub pilot_id : Option String
  pub sent : List (Request D)

-- `create` with the member initialisers of the class.
unfoldable pub create : {D : Type 0} → Credentials → String → Submitter D
create credentials aircraft_id = record {
  state = inactive;
  authorization_requested = false;
  pilot_id_requested = false;
  active_flights_requested = false;
  end_active_flights_requested = false;
  create_flight_plan_requested = false;
  submit_flight_plan_requested = false;
  traffic_monitoring_requested = false;
  start_flight_comms_requested = false;
  credentials = credentials;
  aircraft_id = aircraft_id;
  current_position = none;
  active_flights = none;
  flight_plan = none;
  flight = none;
  authorization = none;
  traffic_monitor = none;
  encryption_key = none;
  mission_geometry = none;
  pilot_id = none;
  sent = [];
}
