-- ===== src/Examples/Scenarios.antt =====
-- A scenario of two participants, its simulation and its announcement, at concrete values.
use platform_sdk.Base.{
  ℕ, true, ◌&&◌, ◌⊎◌, ltb, ◌+◌, ◌-◌, ◌*◌, ◌/◌, ◌%◌, ◌^◌, ◌==◌, ◌≡◌, refl, none, some, is_some, List,
  [], ◌∷◌, ◌++◌, map, arith,
}
use platform_sdk.Base.Int.{pos}
use platform_sdk.Boost.Context.{Context, Handler, Runs, run-Runs}
use platform_sdk.Boost.Context
use platform_sdk.Core.Outcome.{value}
use platform_sdk.Core.Geometry.{Coordinate, polygon, details_for_polygon}
use platform_sdk.Mavlink.Message.{
  MavState, uninit, active, MessageId, heartbeat, global_position_int, mission_count, mission_item,
  GlobalPositionInt, MissionItem, Mavlink,
}
use platform_sdk.Mavlink.Vehicle.{Vehicle, notify, on_system_status_changed, on_position_changed}
use platform_sdk.Util.CheapRuler.{Reals}
use platform_sdk.Util.ScenarioSimulator.{Participant, Report}
use platform_sdk.Util.ScenarioSimulator
use platform_sdk.Util.ScenarioSimulator.Reports.{CanFly, told, updates, create-updates}
use platform_sdk.Cmds.Scenario.{Answer, Command}
use platform_sdk.Cmds.Scenario.Steps.{begin, run}
use platform_sdk.Cmds.Scenario.Invariant.{open_at, keyed_at, total, Simulated}
use platform_sdk.Cmds.Scenario.Outset.{begin-run}
use platform_sdk.Cmds.Scenario.Announcement.{Packing, announce}
use platform_sdk.Cmds.Scenario.Announcement.Heard.{
  hear, raised, tell_mission, announced, informed, announce-hear,
}
use platform_sdk.Examples.Fixtures.{area, corner, flight}

-- Whole numbers in place of floating-point ones.
instance abbrev whole_reals : Reals ℕ
whole_reals = record {
  add = λ a b. a + b;
  sub = λ a b. a - b;
  mul = λ a b. a * b;
  quot = λ a b. a / b;
  neg = λ a. a;
  lt = ltb;
  floor = λ a. a;
  sqrt = λ a. a;
  cos = λ a. 1;
  sin = λ a. 1;
  atan2 = λ a b. a;
  pi = 3;
  decimal = λ a k. a / 10 ^ k;
  milliseconds = λ a b. a - b;
}

-- A message as it was packed.
data Packet : Type 0 where
  of_heartbeat : ℕ → MavState → Packet
  of_position : ℕ → GlobalPositionInt → Packet
  of_count : ℕ → ℕ → Packet
  of_item : ℕ → MissionItem ℕ → Packet

abbrev sysid : Packet → ℕ
sysid (of_heartbeat i _) = i % 256
sysid (of_position i _) = i % 256
sysid (of_count i _) = i % 256
sysid (of_item i _) = i % 256

abbrev msgid : Packet → MessageId
msgid (of_heartbeat _ _) = heartbeat
msgid (of_position _ _) = global_position_int
msgid (of_count _ _) = mission_count
msgid (of_item _ _) = mission_item

abbrev state_in : Packet → MavState
state_in (of_heartbeat _ s) = s
state_in _ = uninit

abbrev position_in : Packet → GlobalPositionInt
position_in (of_position _ p) = p
position_in _ = record { lat = pos 0; lon = pos 0; alt = pos 0; relative_alt = pos 0 }

abbrev count_in : Packet → ℕ
count_in (of_count _ n) = n % 65536
count_in _ = 0

abbrev item_in : Packet → MissionItem ℕ
item_in (of_item _ i) = i
item_in _ = record { seq = 0; mission_type = 0; x = 0; y = 0; z = 0 }

instance abbrev packets : Mavlink Packet ℕ
packets = record {
  sysid = sysid;
  msgid = msgid;
  heartbeat_decode = state_in;
  global_position_int_decode = position_in;
  mission_count_decode = count_in;
  mission_item_decode = item_in;
  nav_waypoint = 16;
}

instance abbrev packing : Packing Packet ℕ
packing = record {
  heartbeat_pack = of_heartbeat;
  global_position_int_pack = λ i a b c d.
      of_position i (record { lat = pos a; lon = pos b; alt = pos c; relative_alt = pos d });
  mission_count_pack = of_count;
  mission_item_pack = λ i n c x y z t.
      of_item i (record { seq = n % 65536; mission_type = t % 256; x = x; y = y; z = z });
  to_integer = pos;
  narrow = λ x. x;
  sysid-heartbeat = λ i s. refl;
  msgid-heartbeat = λ i s. refl;
  decode-heartbeat = λ i s. refl;
  sysid-position = λ i a b c d. refl;
  msgid-position = λ i a b c d. refl;
  decode-position = λ i a b c d. refl;
  sysid-count = λ i n. refl;
  msgid-count = λ i n. refl;
  decode-count = λ i n. refl;
  sysid-item = λ i n c x y z t. refl;
  msgid-item = λ i n c x y z t. refl;
  decode-item = λ i n c x y z t. refl;
}

abbrev participant : ℕ → Participant ℕ
participant id = record {
  id = id;
  aircraft = "drone";
  pilot = "pilot|1";
  user = none;
  geometry = polygon area;
  velocity = 2;
  authentication = none;
  flight = none;
  monitor = none;
  encryption_key = none;
}

abbrev two : List (Participant ℕ)
two = participant 1 ∷ participant 258 ∷ []

participant-CanFly : (id : ℕ) → CanFly (participant id)
unfolding details_for_polygon
participant-CanFly id = record { area = area; area_lem = refl; two = omega arith }

run-Runs_example :
    Runs ((Context.error ∷ Context.success ∷ []) ∷ []) ([] ∷ []) Context.create (some Context.error)
unfolding Context.create
run-Runs_example =
    run-Runs ((Context.error ∷ Context.success ∷ []) ∷ []) ([] ∷ []) Context.create refl refl

create-updates_example :
    (s : ScenarioSimulator.ScenarioSimulator ℕ) × (ScenarioSimulator.create 0 two ≡ some s)
    × (reports : List (Report ℕ)) × (updates (1000 ∷ 2500 ∷ []) s ≡ some reports)
    × (map told reports
        ≡ (1000, participant 1)
          ∷ (1000, participant 258)
          ∷ (2500, participant 1)
          ∷ (2500, participant 258)
          ∷ [])
create-updates_example =
    create-updates 0 two (1000 ∷ 2500 ∷ []) (participant-CanFly 1, (participant-CanFly 258, tt))

abbrev answer : Answer ℕ
answer = record {
  now = 1000;
  authentication = value "token";
  flight = value flight;
  monitor = value 7;
  key = value "key";
  ended = value tt;
}

-- The callbacks that lead to the keys, of the first participant and then of the second.
abbrev replies : List (ℕ × Answer ℕ)
replies = (0, answer) ∷ (2, answer) ∷ (3, answer) ∷ (0, answer) ∷ (4, answer) ∷ (5, answer) ∷ []

begin-run_example :
    (s s' : Command ℕ) × (begin "host" two none ≡ some s)
    × (run replies s ≡ some s')
    × ((s'.context.io_stopped ≡ true) ⊎ (open_at 1 s'.pending + keyed_at 1 s'.participants ≡ 1))
    × (is_some s'.runner.simulator ≡ (ltb 0 2 && total s'.participants == 2))
    × Simulated s'.runner.simulator
begin-run_example =
    begin-run "host" two none replies 1 (participant-CanFly 1, (participant-CanFly 258, tt))
      (refl, (refl, tt)) (omega arith) (omega arith)

abbrev corners : List (Coordinate ℕ)
corners = corner 48 8 120 ∷ corner 48 9 90 ∷ []

abbrev vehicle : Vehicle ℕ
vehicle = record {
  system_id = 2;
  monitors = 5 ∷ [];
  system_status = uninit;
  global_position_int = none;
  mission = record { coordinates = []; counter = 0; mission_size = 0 };
}

announce-hear_example :
    (ms : List Packet) × (announce (participant 258) ≡ some ms)
    × (hear ms vehicle
        ≡ some (
          informed Packet (corner 47 8 100) corners vehicle,
          notify (5 ∷ []) (on_position_changed none (announced Packet (corner 47 8 100)))
              ++ (tell_mission Packet (5 ∷ []) (map (raised Packet) (corner 47 8 100 ∷ corners))
                  ++ notify (5 ∷ []) (on_system_status_changed (some uninit) active)),
        ))
unfolding details_for_polygon
announce-hear_example =
    announce-hear Packet (participant 258) area (corner 47 8 100) corners vehicle refl refl
      (omega arith) (omega arith) refl (λ h. cc)
