-- ===== src/Examples/Fixtures.antt =====
-- Concrete numbers, messages and values for the examples.
use platform_sdk.Base.{ℕ, ◌/◌, ltb, ◌==◌, none, some, [], ◌∷◌}
use platform_sdk.Base.Int.{ℤ, pos, negsuc}
use platform_sdk.Core.Floating.{Floating}
use platform_sdk.Core.Error.{Error, empty}
use platform_sdk.Core.Geometry.{Coordinate, Polygon, invalid}
use platform_sdk.Core.Flight.{Credentials, Flight, FlightPlan}
use platform_sdk.Mavlink.Message.{active, MessageId, GlobalPositionInt, MissionItem, Mavlink}
use platform_sdk.Monitor.Submitter.Types.{Env}

-- Whole numbers in place of floating-point ones.
abbrev pub whole : ℤ → ℕ → ℕ
whole (pos n) k = n / k
whole (negsuc n) k = 0

instance abbrev pub whole_floating : Floating ℕ
whole_floating = record { lt = ltb; eq = λ a b. a == b; quotient = whole; of_ℕ = λ n. n }

abbrev pub error_value : Error ℕ
error_value = record { message = "no route to host"; description = none; values = empty }

abbrev pub credentials : Credentials
credentials = record { api_key = "key"; oauth = none; anonymous = none }

abbrev pub env : Env
env = record { now = 5000000; uuid = "d7a1" }

abbrev pub position : GlobalPositionInt
position = record {
  lat = pos 470000000;
  lon = pos 80000000;
  alt = pos 500000;
  relative_alt = pos 2000;
}

abbrev pub flight : Flight ℕ
flight = record {
  id = "flight|1";
  flight_plan_id = none;
  pilot = "pilot|1";
  aircraft = "drone";
  latitude = 47;
  longitude = 8;
  max_altitude = 120;
  geometry = invalid;
  created_at = 0;
  start_time = 0;
  end_time = 3600000000;
}

abbrev pub plan : FlightPlan ℕ
plan = record {
  id = "plan|1";
  flight_id = some "flight|1";
  pilot = "pilot|1";
  aircraft = "drone";
  takeoff_latitude = 47;
  takeoff_longitude = 8;
  altitude_agl_max = 120;
  altitude_agl_min = 0;
  buffer = 100;
  geometry = invalid;
  start_time = 0;
  end_time = 3600000000;
}

abbrev pub corner : ℕ → ℕ → ℕ → Coordinate ℕ
corner lat lon alt = record {
  latitude = lat;
  longitude = lon;
  altitude = some alt;
  elevation = none;
}

abbrev pub area : Polygon ℕ
area = record {
  outer_ring = record { coordinates = corner 47 8 100 ∷ corner 48 8 120 ∷ corner 48 9 90 ∷ [] };
  inner_rings = [];
}

abbrev pub item : ℕ → ℕ → MissionItem ℕ
item n t = record { seq = n; mission_type = t; x = n; y = n; z = 10 }

-- A message is its sender, its identifier and a number that stands for its payload.
pub record Message : Type 0 where
  pub sender : ℕ
  pub id : MessageId
  pub payload : ℕ

instance abbrev pub messages : Mavlink Message ℕ
messages = record {
  sysid = λ m. m.sender;
  msgid = λ m. m.id;
  heartbeat_decode = λ m. active;
  global_position_int_decode = λ m. position;
  mission_count_decode = λ m. m.payload;
  mission_item_decode = λ m. item m.payload 0;
  nav_waypoint = 16;
}
