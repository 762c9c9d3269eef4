-- ===== src/Core/Flight.antt =====
-- include/airmap/flight.h, flight_plan.h, credentials.h, pilot.h: what the monitor reads of them.
-- A `DateTime` is a number of milliseconds since the epoch.
use platform_sdk.Base.{ℕ, String, Option}
use platform_sdk.Core.Geometry.{Geometry}

pub record OAuth : Type 0 where
  pub username : String
  pub password : String
  pub client_id : String
  pub device_id : String

pub record Credentials : Type 0 where
  pub api_key : String
  pub oauth : Option OAuth
  pub anonymous : Option String

pub record Flight (D : Type 0) : Type 0 where
  pub id : String
  pub flight_plan_id : Option String
  pub pilot : String
  pub aircraft : String
  pub latitude : D
  pub longitude : D
  pub max_altitude : D
  pub geometry : Geometry D
  pub created_at : ℕ
  pub start_time : ℕ
  pub end_time : ℕ

pub record FlightPlan (D : Type 0) : Type 0 where
  pub id : String
  pub flight_id : Option String
  pub pilot : String
  pub aircraft : String
  pub takeoff_latitude : D
  pub takeoff_longitude : D
  pub altitude_agl_max : D
  pub altitude_agl_min : D
  pub buffer : D
  pub geometry : Geometry D
  pub start_time : ℕ
  pub end_time : ℕ
