-- ===== src/Monitor/Submitter/Events.antt =====
-- `deactivate`, the callbacks, and the events that drive a submitter.
use platform_sdk.Base.{false, Option, none, some, ◌>>=◌, List, [], ◌∷◌, if◌then◌else◌}
use platform_sdk.Core.Floating.{Floating}
use platform_sdk.Core.Outcome.{value, error}
use platform_sdk.Core.Geometry.{Geometry}
use platform_sdk.Core.Flight.{Flight, FlightPlan}
use platform_sdk.Monitor.Submitter.Types.{
  inactive, GlobalPositionInt, end_flight, Reply, authorization_reply, pilot_reply, flights_reply,
  ended_reply, plan_reply, point_reply, submitted_reply, monitor_reply, comms_reply,
  end_flight_reply, Env, Submitter,
}
use platform_sdk.Monitor.Submitter.Comms.{
  send, handle_request_start_flight_comms_finished, handle_request_monitor_traffic_finished,
  handle_request_submit_flight_plan_finished, handle_request_create_flight_plan_finished,
}
use platform_sdk.Monitor.Submitter.Steps.{
  is_active, handle_request_end_active_flight_finished, handle_request_active_flights_finished,
  handle_request_pilot_id_finished, handle_request_authorization_finished, activate, submit,
}

module _ {D : Type 0} where
  -- The flight is ended only where both values are set; then the flags and all but four of the
  -- optional members are reset.
  unfoldable pub end_current_flight : Submitter D → Submitter D
  end_current_flight s = elim s.authorization [
    | none ↦ s
    | some authorization ↦ elim s.flight [
      | none ↦ s
      | some flight ↦ send (end_flight authorization flight.id) s
    ]
  ]

  unfoldable pub reset : Submitter D → Submitter D
  reset s = record s {
    authorization_requested = false;
    pilot_id_requested = false;
    active_flights_requested = false;
    end_active_flights_requested = false;
    create_flight_plan_requested = false;
    submit_flight_plan_requested = false;
    traffic_monitoring_requested = false;
    start_flight_comms_requested = false;
    authorization = none;
    pilot_id = none;
    flight_plan = none;
    flight = none;
    traffic_monitor = none;
    encryption_key = none;
  }

  unfoldable pub deactivate : Submitter D → Submitter D
  deactivate s =
      if is_active s.state then reset (end_current_flight (record s { state = inactive })) else s

  unfoldable pub set_mission_geometry : Geometry D → Submitter D → Submitter D
  set_mission_geometry geometry s = record s { mission_geometry = some geometry }

  -- The flight that a submitted plan stands for.
  unfoldable pub flight_of : Env → FlightPlan D → Option (Flight D)
  flight_of env plan = do
    id ← plan.flight_id
    some (record {
      id = id;
      flight_plan_id = some plan.id;
      pilot = plan.pilot;
      aircraft = plan.aircraft;
      latitude = plan.takeoff_latitude;
      longitude = plan.takeoff_longitude;
      max_altitude = plan.altitude_agl_max;
      geometry = plan.geometry;
      created_at = env.now;
      start_time = plan.start_time;
      end_time = plan.end_time;
    })

module _ {D : Type 0} ⦃fl : Floating D⦄ (env : Env) where
  -- The callbacks: an error takes the mark off again, so that the call can be made once more.
  unfoldable pub deliver : Reply D → Submitter D → Option (Submitter D)
  deliver (authorization_reply (value id)) s = handle_request_authorization_finished env id s
  deliver (authorization_reply (error e)) s = some (record s { authorization_requested = false })
  deliver (pilot_reply (value id)) s = handle_request_pilot_id_finished env id s
  deliver (pilot_reply (error e)) s = some (record s { pilot_id_requested = false })
  deliver (flights_reply (value flights)) s = handle_request_active_flights_finished env flights s
  deliver (flights_reply (error e)) s = some (record s { active_flights_requested = false })
  deliver (ended_reply id (value u)) s = handle_request_end_active_flight_finished env id s
  deliver (ended_reply id (error e)) s = some (record s { end_active_flights_requested = false })
  deliver (plan_reply (value plan)) s = handle_request_create_flight_plan_finished plan s
  deliver (plan_reply (error e)) s = some (record s { create_flight_plan_requested = false })
  deliver (point_reply (value flight)) s = handle_request_submit_flight_plan_finished flight s
  deliver (point_reply (error e)) s = some (record s { create_flight_plan_requested = false })
  deliver (submitted_reply (value plan)) s = do
    flight ← flight_of env plan
    handle_request_submit_flight_plan_finished flight s
  deliver (submitted_reply (error e)) s = some (record s { submit_flight_plan_requested = false })
  deliver (monitor_reply (value m)) s = handle_request_monitor_traffic_finished m s
  deliver (monitor_reply (error e)) s = some (record s { traffic_monitoring_requested = false })
  deliver (comms_reply (value key)) s = handle_request_start_flight_comms_finished key s
  deliver (comms_reply (error e)) s = some (record s { start_flight_comms_requested = false })
  deliver (end_flight_reply r) s = some s

-- What can happen to a submitter.
pub data Event (D : Type 0) : Type 0 where
  activates deactivates : Event D
  submits : GlobalPositionInt → Event D
  sets_mission : Geometry D → Event D
  replies : Reply D → Event D

module _ {D : Type 0} ⦃fl : Floating D⦄ where
  unfoldable pub step : Env × Event D → Submitter D → Option (Submitter D)
  step (env, activates) s = activate env s
  step (env, deactivates) s = some (deactivate s)
  step (env, submits position) s = submit env position s
  step (env, sets_mission geometry) s = some (set_mission_geometry geometry s)
  step (env, replies r) s = deliver env r s

  unfoldable pub run : List (Env × Event D) → Submitter D → Option (Submitter D)
  run [] s = some s
  run (e ∷ es) s = do s' ← step e s; run es s'
