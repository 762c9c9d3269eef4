-- ===== src/Cmds/Scenario/Steps.antt =====
-- The callbacks of src/airmap/cmds/airmap/cmd/simulate_scenario.cpp, and runs of them.
use platform_sdk.Base.{
  ℕ, zero, suc, String, ◌+◌, Option, none, some, ◌>>=◌, List, [], ◌∷◌, ◌++◌, get_elem?, length,
  if◌then◌else◌,
}
use platform_sdk.Boost.Context.{ReturnCode, success}
use platform_sdk.Core.Error.{Error}
use platform_sdk.Core.Outcome.{Outcome, value, error}
use platform_sdk.Core.Flight.{Flight}
use platform_sdk.Util.CheapRuler.{Reals}
use platform_sdk.Util.ScenarioSimulator.{Participant}
use platform_sdk.Util.ScenarioSimulator
use platform_sdk.Util.ScenarioSimulator.Runner
use platform_sdk.Cmds.Scenario.{
  Call, authenticate_with_password, authenticate_anonymously, get_status_by_polygon,
  create_flight_by_polygon, monitor_traffic, start_flight_communications, schedule_in,
  end_flight_communications, end_flight, Answer, Command, stop, collect_authentication_for,
  collect_flight_id_for, collect_traffic_monitor_for, collect_key_for, request_authentication_for,
  request_flight_status_for, request_create_flight_for, request_traffic_monitoring_for, initial,
  take_at, request_start_flight_comms_for, request_end_flight_comms_for, request_end_flight_for,
  schedule_end_for,
}

module _ {D : Type 0} ⦃r : Reals D⦄ where
  -- `handle_authenticated_with_password_result_for`, and the same for the anonymous authentication.
  unfoldable pub handle_authenticated_result_for :
      ℕ → ℕ → Outcome String (Error D) → Command D → Option (Command D)
  handle_authenticated_result_for now i (value authentication) s = do
    s₁ ← collect_authentication_for i authentication s
    s₂ ← request_flight_status_for now i s₁
    request_create_flight_for now i s₂
  handle_authenticated_result_for now i (error e) s = some (stop ReturnCode.error s)

  unfoldable pub handle_create_flight_result_for :
      ℕ → Outcome (Flight D) (Error D) → Command D → Option (Command D)
  handle_create_flight_result_for i (value flight) s = do
    s₁ ← collect_flight_id_for i flight s
    s₂ ← request_traffic_monitoring_for i s₁
    s₃ ← request_start_flight_comms_for i s₂
    schedule_end_for i s₃
  handle_create_flight_result_for i (error e) s = some (stop ReturnCode.error s)

  -- The log names the flight.
  unfoldable pub handle_traffic_monitoring_result_for :
      ℕ → Outcome ℕ (Error D) → Command D → Option (Command D)
  handle_traffic_monitoring_result_for i (value monitor) s = do
    p ← get_elem? s.participants i
    flight ← p.flight
    collect_traffic_monitor_for i monitor (record s { subscribed = s.subscribed ++ monitor ∷ [] })
  handle_traffic_monitoring_result_for i (error e) s = do
    p ← get_elem? s.participants i
    flight ← p.flight
    some (stop ReturnCode.error s)

  -- The simulator is made of the participants as they are now.
  unfoldable pub start_simulation : ℕ → Command D → Option (Command D)
  start_simulation now s = do
    simulator ← ScenarioSimulator.create now s.participants
    runner ← Runner.start simulator s.runner
    some (record s { runner = runner })

  unfoldable pub handle_start_flight_comms_result_for :
      ℕ → ℕ → Outcome String (Error D) → Command D → Option (Command D)
  handle_start_flight_comms_result_for now i (value key) s = do
    (s', complete) ← collect_key_for i key s
    if complete then start_simulation now s' else some s'
  handle_start_flight_comms_result_for now i (error e) s = do
    p ← get_elem? s.participants i
    flight ← p.flight
    some (stop ReturnCode.error s)

  unfoldable pub handle_end_flight_comms :
      ℕ → Outcome (Unit {0}) (Error D) → Command D → Option (Command D)
  handle_end_flight_comms i (value done) s = request_end_flight_for i s
  handle_end_flight_comms i (error e) s = some (stop ReturnCode.error s)

  -- The log of a success names the flight.
  unfoldable pub handle_end_flight :
      ℕ → Outcome (Unit {0}) (Error D) → Command D → Option (Command D)
  handle_end_flight i (value done) s = do
    p ← get_elem? s.participants i
    flight ← p.flight
    some (stop success s)
  handle_end_flight i (error e) s = some (stop ReturnCode.error s)

  -- The callback of a call. The status of a flight is only logged.
  unfoldable pub call_back : ℕ → Call D → Answer D → Command D → Option (Command D)
  call_back i (authenticate_with_password _) a s =
      handle_authenticated_result_for a.now i a.authentication s
  call_back i (authenticate_anonymously _) a s =
      handle_authenticated_result_for a.now i a.authentication s
  call_back i (get_status_by_polygon _) a s = some s
  call_back i (create_flight_by_polygon _) a s = handle_create_flight_result_for i a.flight s
  call_back i (monitor_traffic _ _) a s = handle_traffic_monitoring_result_for i a.monitor s
  call_back i (start_flight_communications _ _) a s =
      handle_start_flight_comms_result_for a.now i a.key s
  call_back i (schedule_in _) a s = request_end_flight_comms_for i s
  call_back i (end_flight_communications _ _) a s = handle_end_flight_comms i a.ended s
  call_back i (end_flight _ _) a s = handle_end_flight i a.ended s

  -- The loop over the participants once the client is there.
  unfoldable pub request_all : String → ℕ → ℕ → Command D → Option (Command D)
  request_all device_name i zero s = some s
  request_all device_name i (suc n) s = do
    s' ← request_authentication_for device_name i s
    request_all device_name (i + 1) n s'

  unfoldable pub begin : String → List (Participant D) → Option ℕ → Option (Command D)
  begin device_name ps duration = request_all device_name 0 (length ps) (initial ps duration)

  -- The callback of the pending call at a place runs; where none stands there, or the context is
  -- stopped, nothing does.
  unfoldable pub step : ℕ → Answer D → Command D → Option (Command D)
  step n a s = if s.context.io_stopped then some s else elim (take_at n s.pending) [
    | none ↦ some s
    | some (i, c, rest) ↦ call_back i c a (record s { pending = rest })
  ]

  unfoldable pub run : List (ℕ × Answer D) → Command D → Option (Command D)
  run [] s = some s
  run ((n, a) ∷ es) s = do s' ← step n a s; run es s'
