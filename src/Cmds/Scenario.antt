-- ===== src/Cmds/Scenario.antt =====
-- src/airmap/cmds/airmap/cmd/simulate_scenario.cpp: the command authenticates each participant of a
-- scenario, creates a flight and starts its communications, and simulates them all once the last key
-- is there. `none` is undefined behaviour.
pub mod Steps
pub mod Invariant
pub mod Collecting
pub mod Callbacks
pub mod Running
pub mod Completion
pub mod Outset
pub mod Announcement
use platform_sdk.Base.{
  ℕ, zero, suc, String, Bool, true, false, ◌+◌, ◌%◌, ◌==◌, Option, none, some, ◌>>=◌, List, [], ◌∷◌,
  ◌++◌, length, get_elem?, set, if◌then◌else◌,
}
use platform_sdk.Boost.Context.{Context, ReturnCode, running, success}
use platform_sdk.Boost.Context
use platform_sdk.Core.Error.{Error}
use platform_sdk.Core.Outcome.{Outcome, value, error}
use platform_sdk.Core.Flight.{Flight, OAuth}
use platform_sdk.Core.Geometry.{Coordinate, Geometry, details_for_polygon}
use platform_sdk.Util.CheapRuler.{Reals}
use platform_sdk.Util.ScenarioSimulator.{Participant, User}
use platform_sdk.Util.ScenarioSimulator
use platform_sdk.Util.ScenarioSimulator.Runner.{Runner}
use platform_sdk.Util.ScenarioSimulator.Runner

-- The fields of `Status::GetStatus::Parameters` that the code sets.
pub record StatusParameters (D : Type 0) : Type 0 where
  pub latitude : D
  pub longitude : D
  pub geometry : Geometry D
  pub flight_date_time : ℕ
  pub weather : Bool

-- The fields of `Flights::CreateFlight::Parameters` that the code sets.
pub record FlightParameters (D : Type 0) : Type 0 where
  pub authorization : String
  pub start_time : ℕ
  pub end_time : ℕ
  pub aircraft_id : String
  pub latitude : D
  pub longitude : D
  pub geometry : Geometry D

-- A call whose callback is still to run. `schedule_in` is that of the context.
pub data Call (D : Type 0) : Type 0 where
  authenticate_with_password : OAuth → Call D
  authenticate_anonymously : String → Call D
  get_status_by_polygon : StatusParameters D → Call D
  create_flight_by_polygon : FlightParameters D → Call D
  monitor_traffic : String → String → Call D
  start_flight_communications : String → String → Call D
  schedule_in : ℕ → Call D
  end_flight_communications : String → String → Call D
  end_flight : String → String → Call D

-- What the clock shows and what the services answer when a callback runs; it reads its own field.
pub record Answer (D : Type 0) : Type 0 where
  pub now : ℕ
  pub authentication : Outcome String (Error D)
  pub flight : Outcome (Flight D) (Error D)
  pub monitor : Outcome ℕ (Error D)
  pub key : Outcome String (Error D)
  pub ended : Outcome (Unit {0}) (Error D)

-- `participants`, `duration` and `key_counter` are those of the collector. A call is kept with the
-- index of its participant; `subscribed` has the traffic monitors in the order of subscription.
pub record Command (D : Type 0) : Type 0 where
  pub participants : List (Participant D)
  pub duration : Option ℕ
  pub key_counter : ℕ
  pub runner : Runner D
  pub context : Context
  pub pending : List (ℕ × Call D)
  pub subscribed : List ℕ

module _ {D : Type 0} where
  abbrev pub send : ℕ → Call D → Command D → Command D
  send i c s = record s { pending = s.pending ++ (i, c) ∷ [] }

  unfoldable pub stop : ReturnCode → Command D → Command D
  stop rc s = record s { context = Context.stop rc s.context }

  -- The `Collector`: an iterator into the participants is an index.
  unfoldable pub collect_authentication_for : ℕ → String → Command D → Option (Command D)
  collect_authentication_for i authentication s = do
    p ← get_elem? s.participants i
    some (record s {
      participants = set s.participants i (record p { authentication = some authentication });
    })

  unfoldable pub collect_flight_id_for : ℕ → Flight D → Command D → Option (Command D)
  collect_flight_id_for i flight s = do
    p ← get_elem? s.participants i
    some (record s { participants = set s.participants i (record p { flight = some flight }) })

  unfoldable pub collect_traffic_monitor_for : ℕ → ℕ → Command D → Option (Command D)
  collect_traffic_monitor_for i monitor s = do
    p ← get_elem? s.participants i
    some (record s { participants = set s.participants i (record p { monitor = some monitor }) })

  -- `key_counter_` is an unsigned integer of 32 bits. The result says whether all keys are there.
  unfoldable pub collect_key_for : ℕ → String → Command D → Option (Command D × Bool)
  collect_key_for i key s = do
    p ← get_elem? s.participants i
    let counter = (s.key_counter + 1) % 4294967296
    some (
      record s {
        participants = set s.participants i (record p { encryption_key = some key });
        key_counter = counter;
      },
      length s.participants == counter,
    )

  -- `polygon.outer_ring.coordinates[0]`
  unfoldable pub first_corner : Participant D → Option (Coordinate D)
  first_corner p = do
    polygon ← details_for_polygon p.geometry
    get_elem? polygon.outer_ring.coordinates 0

  unfoldable pub authentication_call : String → String → Option User → Call D
  authentication_call device_name pilot (some user) = authenticate_with_password (record {
    username = user.username;
    password = user.password;
    client_id = user.client_id;
    device_id = device_name;
  })
  authentication_call device_name pilot none = authenticate_anonymously pilot

  unfoldable pub request_authentication_for : String → ℕ → Command D → Option (Command D)
  request_authentication_for device_name i s = do
    p ← get_elem? s.participants i
    some (send i (authentication_call device_name p.pilot p.user) s)

  unfoldable pub request_flight_status_for : ℕ → ℕ → Command D → Option (Command D)
  request_flight_status_for now i s = do
    p ← get_elem? s.participants i
    corner ← first_corner p
    some (
        send i
          (get_status_by_polygon (record {
            latitude = corner.latitude;
            longitude = corner.longitude;
            geometry = p.geometry;
            flight_date_time = now;
            weather = true;
          }))
          s)

  unfoldable pub request_create_flight_for : ℕ → ℕ → Command D → Option (Command D)
  request_create_flight_for now i s = do
    p ← get_elem? s.participants i
    authorization ← p.authentication
    duration ← s.duration
    corner ← first_corner p
    some (
        send i
          (create_flight_by_polygon (record {
            authorization = authorization;
            start_time = now;
            end_time = now + duration;
            aircraft_id = p.aircraft;
            latitude = corner.latitude;
            longitude = corner.longitude;
            geometry = p.geometry;
          }))
          s)

  unfoldable pub request_traffic_monitoring_for : ℕ → Command D → Option (Command D)
  request_traffic_monitoring_for i s = do
    p ← get_elem? s.participants i
    flight ← p.flight
    authorization ← p.authentication
    some (send i (monitor_traffic flight.id authorization) s)

  unfoldable pub request_start_flight_comms_for : ℕ → Command D → Option (Command D)
  request_start_flight_comms_for i s = do
    p ← get_elem? s.participants i
    authorization ← p.authentication
    flight ← p.flight
    some (send i (start_flight_communications authorization flight.id) s)

  -- What the timer does that the creation of a flight sets.
  unfoldable pub request_end_flight_comms_for : ℕ → Command D → Option (Command D)
  request_end_flight_comms_for i s = do
    p ← get_elem? s.participants i
    authorization ← p.authentication
    flight ← p.flight
    some (send i (end_flight_communications authorization flight.id) s)

  unfoldable pub request_end_flight_for : ℕ → Command D → Option (Command D)
  request_end_flight_for i s = do
    p ← get_elem? s.participants i
    authorization ← p.authentication
    flight ← p.flight
    some (send i (end_flight authorization flight.id) s)

  -- The timer itself.
  unfoldable pub schedule_end_for : ℕ → Command D → Option (Command D)
  schedule_end_for i s = do duration ← s.duration; some (send i (schedule_in duration) s)

  -- The pending call at a place, and those that stay pending.
  unfoldable pub take_at : ℕ → List (ℕ × Call D) → Option (ℕ × Call D × List (ℕ × Call D))
  take_at n [] = none
  take_at zero ((i, c) ∷ rest) = some (i, c, rest)
  take_at (suc n) (x ∷ rest) = do (i, c, rest') ← take_at n rest; some (i, c, x ∷ rest')

  -- The command with its context running, and a duration of 60 seconds where the scenario has none.
  unfoldable pub initial : List (Participant D) → Option ℕ → Command D
  initial ps duration = record {
    participants = ps;
    duration = elim duration [ none ↦ some 60000000 | some d ↦ some d ];
    key_counter = 0;
    runner = Runner.create;
    context = record { state = running; return_code = success; io_stopped = false };
    pending = [];
    subscribed = [];
  }
