-- ===== src/Rest/Telemetry.antt =====
-- src/airmap/rest/telemetry.cpp and src/airmap/telemetry.cpp: the datagrams that carry telemetry.
pub mod Receiver
pub mod RoundTrip
use platform_sdk.Base.{ℕ, String, suc, ◌+◌, ◌/◌, ◌%◌, ◌^◌, List, [], ◌∷◌, ◌++◌, length}
use platform_sdk.Core.Flight.{Flight}
use platform_sdk.Monitor.Submitter.Types.{Position}

-- `D` stands for `double`, `F` for `float`.
pub record Speed (F : Type 0) : Type 0 where
  pub timestamp : ℕ
  pub velocity_x : F
  pub velocity_y : F
  pub velocity_z : F

pub record Attitude (F : Type 0) : Type 0 where
  pub timestamp : ℕ
  pub yaw : F
  pub pitch : F
  pub roll : F

pub record Barometer (F : Type 0) : Type 0 where
  pub timestamp : ℕ
  pub pressure : F

-- `Telemetry::Update`: the union and its tag.
pub data Update (D F : Type 0) : Type 0 where
  position : Position D → Update D F
  speed : Speed F → Update D F
  attitude : Attitude F → Update D F
  barometer : Barometer F → Update D F

-- The protocol buffer for a position; the others have the fields of their structs.
pub record PositionMessage (D : Type 0) : Type 0 where
  pub timestamp : ℕ
  pub latitude : D
  pub longitude : D
  pub altitude_agl : D
  pub altitude_msl : D
  pub horizontal_accuracy : D

-- What is no part of the sources: the serialization of protocol buffers, the bytes of a string, and
-- the encryption of a message with a key and an initialization vector.
pub record Encoding (D F : Type 0) : Type 0 where
  pub position_string : PositionMessage D → List ℕ
  pub speed_string : Speed F → List ℕ
  pub attitude_string : Attitude F → List ℕ
  pub barometer_string : Barometer F → List ℕ
  pub bytes : String → List ℕ
  pub encrypt : List ℕ → String → List ℕ → List ℕ

-- `add` with a number in the order of the network: its bytes from the highest, as many as its type
-- has. The number is cut to them.
unfoldable pub add_8 : ℕ → List ℕ → List ℕ
add_8 n buffer = buffer ++ n % 256 ∷ []

unfoldable pub add_16 : ℕ → List ℕ → List ℕ
add_16 n buffer = buffer ++ n / 256 % 256 ∷ n % 256 ∷ []

unfoldable pub add_32 : ℕ → List ℕ → List ℕ
add_32 n buffer = buffer ++ n / 16777216 % 256 ∷ n / 65536 % 256 ∷ n / 256 % 256 ∷ n % 256 ∷ []

unfoldable pub position_message : {D : Type 0} → Position D → PositionMessage D
position_message p = record {
  timestamp = p.timestamp;
  latitude = p.latitude;
  longitude = p.longitude;
  altitude_agl = p.altitude_gl;
  altitude_msl = p.altitude_msl;
  horizontal_accuracy = p.horizontal_accuracy;
}

module _ {D F : Type 0} where
  unfoldable pub type : Update D F → ℕ
  type (position p) = 1
  type (speed s) = 2
  type (attitude a) = 3
  type (barometer b) = 4

module _ {D F : Type 0} (e : Encoding D F) where
  -- `SerializeAsString` of the message that a case of the `switch` fills in.
  unfoldable pub message : Update D F → List ℕ
  message (position p) = e.position_string (position_message p)
  message (speed s) = e.speed_string s
  message (attitude a) = e.attitude_string a
  message (barometer b) = e.barometer_string b

  unfoldable pub add_update : Update D F → List ℕ → List ℕ
  add_update u buffer = add_16 (length (message u)) (add_16 (type u) buffer) ++ message u

  unfoldable pub payload : List (Update D F) → List ℕ → List ℕ
  payload [] buffer = buffer
  payload (u ∷ updates) buffer = payload updates (add_update u buffer)

  -- The counter is a number of 32 bits, `iv` is what `create_shared_secret` returned. The result is
  -- the counter after the call and the datagram.
  unfoldable pub submit_updates : Flight D → String → List (Update D F) → List ℕ → ℕ → ℕ × List ℕ
  submit_updates flight key updates iv counter =
      let id = e.bytes flight.id in
      let msg = e.encrypt (payload updates []) key iv in
      (suc counter % 2 ^ 32, add_8 1 (add_8 (length id) (add_32 counter []) ++ id) ++ iv ++ msg)
