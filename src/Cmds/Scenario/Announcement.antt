-- ===== src/Cmds/Scenario/Announcement.antt =====
-- `TcpRouteMonitor` of src/airmap/cmds/airmap/cmd/simulate_scenario.cpp: a new client of the router is
-- told of each participant's position, mission and state. The encoders of the MAVLink library are the
-- interface `Packing`, with the widths of their fields.
pub mod Heard
use platform_sdk.Base.{
  ℕ, String, ◌+◌, ◌%◌, ◌<◌, ◌≡◌, Option, none, some, ◌>>=◌, List, [], ◌∷◌, ◌++◌, length, get_elem?,
}
use platform_sdk.Base.Int.{ℤ}
use platform_sdk.Core.Geometry.{Coordinate, details_for_polygon}
use platform_sdk.Core.Flight.{Flight}
use platform_sdk.Monitor.Submitter.Types.{Position}
use platform_sdk.Mavlink.Message.{
  MavState, active, standby, MessageId, heartbeat, global_position_int, mission_count, mission_item,
  GlobalPositionInt, MissionItem, Mavlink,
}
use platform_sdk.Util.CheapRuler.{Reals}
use platform_sdk.Util.ScenarioSimulator.{Participant, Report}

-- The system id has 8 bits, a count and the number of an item 16, the type of a mission 8. A position
-- has the coordinates in degrees and the altitudes in metres, each times its factor, as integers.
pub record Packing (M D : Type 0) ⦃mav : Mavlink M D⦄ : Type 0 where
  pub heartbeat_pack : ℕ → MavState → M
  pub global_position_int_pack : ℕ → D → D → D → D → M
  pub mission_count_pack : ℕ → ℕ → M
  -- The sender, the number, the command, the coordinates and the type of the mission.
  pub mission_item_pack : ℕ → ℕ → ℕ → D → D → D → ℕ → M
  pub to_integer : D → ℤ
  -- The nearest `float` to a `double`, as a `double`.
  pub narrow : D → D
  pub sysid-heartbeat : (i : ℕ) (s : MavState) → mav.sysid (heartbeat_pack i s) ≡ i % 256
  pub msgid-heartbeat : (i : ℕ) (s : MavState) → mav.msgid (heartbeat_pack i s) ≡ heartbeat
  pub decode-heartbeat : (i : ℕ) (s : MavState) → mav.heartbeat_decode (heartbeat_pack i s) ≡ s
  pub sysid-position :
      (i : ℕ) (a b c d : D) → mav.sysid (global_position_int_pack i a b c d) ≡ i % 256
  pub msgid-position :
      (i : ℕ) (a b c d : D) → mav.msgid (global_position_int_pack i a b c d) ≡ global_position_int
  pub decode-position :
      (i : ℕ) (a b c d : D)
      → mav.global_position_int_decode (global_position_int_pack i a b c d) ≡ record {
        lat = to_integer a;
        lon = to_integer b;
        alt = to_integer c;
        relative_alt = to_integer d;
      }
  pub sysid-count : (i n : ℕ) → mav.sysid (mission_count_pack i n) ≡ i % 256
  pub msgid-count : (i n : ℕ) → mav.msgid (mission_count_pack i n) ≡ mission_count
  pub decode-count : (i n : ℕ) → mav.mission_count_decode (mission_count_pack i n) ≡ n % 65536
  pub sysid-item :
      (i n c : ℕ) (x y z : D) (t : ℕ) → mav.sysid (mission_item_pack i n c x y z t) ≡ i % 256
  pub msgid-item :
      (i n c : ℕ) (x y z : D) (t : ℕ) → mav.msgid (mission_item_pack i n c x y z t) ≡ mission_item
  pub decode-item :
      (i n c : ℕ) (x y z : D) (t : ℕ)
      → mav.mission_item_decode (mission_item_pack i n c x y z t)
        ≡ record { seq = n % 65536; mission_type = t % 256; x = x; y = y; z = z }

module _ {D : Type 0} ⦃r : Reals D⦄ where
  open r use {mul, decimal}

  -- `mavlink::altitude_msl` and `altitude_gl`, in the units of the message, and `mavlink::vz`.
  abbrev pub altitude : D
  altitude = mul (decimal 100 0) (decimal 1000 0)

  abbrev pub vz : D
  vz = decimal 100 0

module _ {M D : Type 0} ⦃mav : Mavlink M D⦄ ⦃pack : Packing M D⦄ ⦃r : Reals D⦄ where
  open mav use {nav_waypoint}
  open pack use {
    heartbeat_pack, global_position_int_pack, mission_count_pack, mission_item_pack, narrow,
  }
  open r use {mul, decimal}

  unfoldable pub position_of : ℕ → Coordinate D → M
  position_of id c =
      global_position_int_pack id (mul c.latitude (decimal 10000000 0))
        (mul c.longitude (decimal 10000000 0)) altitude altitude

  -- The loop over the coordinates: `command` is 0, and the number of the waypoint command is passed
  -- as the type of the mission. The coordinates of an item are of type `float`.
  unfoldable pub items : ℕ → ℕ → List (Coordinate D) → List M
  items id seq [] = []
  items id seq (c ∷ cs) =
      mission_item_pack id seq 0 (narrow c.latitude) (narrow c.longitude) vz nav_waypoint
      ∷ items id ((seq + 1) % 65536) cs

  -- The messages for one participant; `at(0)` throws for a ring without coordinates.
  unfoldable pub announce : Participant D → Option (List M)
  announce p = do
    polygon ← details_for_polygon p.geometry
    let ring = polygon.outer_ring.coordinates
    to ← get_elem? ring 0
    some (
        position_of p.id to
        ∷ mission_count_pack p.id (length ring)
        ∷ (items p.id 0 ring ++ heartbeat_pack p.id active ∷ []))

  unfoldable pub on_new_session : List (Participant D) → Option (List M)
  on_new_session [] = some []
  on_new_session (p ∷ ps) = do ms ← announce p; rest ← on_new_session ps; some (ms ++ rest)

  -- `deactivate`, which no code calls: the message that the timer routes.
  unfoldable pub deactivated : Participant D → M
  deactivated p = heartbeat_pack p.id standby

  -- What the enumerator of the runner does with a report: the telemetry that it submits, where the
  -- participant has a flight and a key, and the message that it routes.
  unfoldable pub enumerate : Report D → Option (Flight D × String × Position D) × M
  enumerate x = (
    do
      flight ← x.participant.flight
      key ← x.participant.encryption_key
      some (
        flight,
        key,
        record {
          timestamp = x.now;
          latitude = x.coordinate.latitude;
          longitude = x.coordinate.longitude;
          altitude_msl = decimal 100 0;
          altitude_gl = decimal 100 0;
          horizontal_accuracy = decimal 2 0;
        },
      ),
    position_of x.participant.id x.coordinate,
  )
