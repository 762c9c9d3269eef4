-- ===== src/Examples/Telemetry.antt =====
-- A datagram with two updates.
use platform_sdk.Base.{ℕ, String, ◌≡◌, refl, some, List, [], ◌∷◌, map, arith}
use platform_sdk.Monitor.Submitter.Types.{Position}
use platform_sdk.Rest.Telemetry.{
  Update, position, barometer, Encoding, add_8, add_32, message, payload, submit_updates,
}
use platform_sdk.Rest.Telemetry.Receiver.{open_datagram}
use platform_sdk.Rest.Telemetry.RoundTrip.{record_of, open_datagram-submit_updates}
use platform_sdk.Examples.Fixtures.{flight}

-- A message is some of its fields, and encryption puts one byte in front.
abbrev encoding : Encoding ℕ ℕ
encoding = record {
  position_string = λ p. p.latitude ∷ p.longitude ∷ p.altitude_agl ∷ p.altitude_msl ∷ [];
  speed_string = λ s. s.velocity_x ∷ [];
  attitude_string = λ a. a.yaw ∷ [];
  barometer_string = λ b. b.pressure ∷ [];
  bytes = λ s. 102 ∷ 124 ∷ 49 ∷ [];
  encrypt = λ m key iv. 42 ∷ m;
}

abbrev decrypt : List ℕ → String → List ℕ → List ℕ
decrypt [] key iv = []
decrypt (b ∷ m) key iv = m

abbrev fix : Position ℕ
fix = record {
  timestamp = 5;
  latitude = 47;
  longitude = 8;
  altitude_msl = 130;
  altitude_gl = 20;
  horizontal_accuracy = 1;
}

abbrev updates : List (Update ℕ ℕ)
updates = position fix ∷ barometer (record { timestamp = 6; pressure = 101 }) ∷ []

abbrev vector : List ℕ
vector = 1 ∷ 2 ∷ 3 ∷ 4 ∷ 5 ∷ 6 ∷ 7 ∷ 8 ∷ 9 ∷ 10 ∷ 11 ∷ 12 ∷ 13 ∷ 14 ∷ 15 ∷ 16 ∷ []

open_datagram-submit_updates_example :
    open_datagram decrypt "key" (submit_updates encoding flight "key" updates vector 300).1
    ≡ some (record {
      counter = 300;
      id = 102 ∷ 124 ∷ 49 ∷ [];
      records = map (record_of encoding) updates;
    })
unfolding message
open_datagram-submit_updates_example =
    open_datagram-submit_updates encoding decrypt flight "key" updates vector 300 (omega arith)
      (omega arith) refl (omega arith, (omega arith, tt)) (λ m. refl)

sent :
    (submit_updates encoding flight "key" [] vector 300).1
    ≡ 0 ∷ 0 ∷ 1 ∷ 44 ∷ 3 ∷ 102 ∷ 124 ∷ 49 ∷ 1 ∷ 1 ∷ 2 ∷ 3 ∷ 4 ∷ 5 ∷ 6 ∷ 7 ∷ 8 ∷ 9 ∷ 10 ∷ 11 ∷ 12
      ∷ 13 ∷ 14 ∷ 15 ∷ 16 ∷ 42 ∷ []
unfolding submit_updates add_8 add_32 payload
sent = refl
