-- ===== src/Monitor/Submitter/Deactivation.antt =====
-- What `deactivate` leaves behind, and what a callback that comes after it meets.
use platform_sdk.Base.{String, false, ◌≡◌, Option, none, some, List, ◌∷◌, arith}
use platform_sdk.Core.Floating.{Floating}
use platform_sdk.Core.Outcome.{value}
use platform_sdk.Core.Flight.{Flight, FlightPlan}
use platform_sdk.Monitor.Submitter.Types.{
  active, inactive, end_flight, Request, flights_reply, plan_reply, point_reply, Env, Submitter,
}
use platform_sdk.Monitor.Submitter.Comms.{
  request_monitor_traffic, handle_request_submit_flight_plan_finished, request_submit_flight_plan,
  handle_request_create_flight_plan_finished,
}
use platform_sdk.Monitor.Submitter.Steps.{
  end_flights, request_end_active_flights, handle_request_active_flights_finished,
}
use platform_sdk.Monitor.Submitter.Events.{end_current_flight, reset, deactivate, deliver}

module _ {D : Type 0} where
  -- The calls that `deactivate` adds.
  abbrev ending : Option String → Option (Flight D) → List (Request D) → List (Request D)
  ending (some token) (some flight) rs = end_flight token flight.id ∷ rs
  ending _ _ rs = rs

  -- Deactivating an active submitter ends the flight exactly when both the authorization and the
  -- flight are known, forgets authorization, pilot, plan, flight, monitor and key, and takes every
  -- mark off; the position, the mission and the list of active flights stay.
  deactivate_lem :
      (s : Submitter D)
      → s.state ≡ active
      → deactivate s ≡ record {
        state = inactive;
        authorization_requested = false;
        pilot_id_requested = false;
        active_flights_requested = false;
        end_active_flights_requested = false;
        create_flight_plan_requested = false;
        submit_flight_plan_requested = false;
        traffic_monitoring_requested = false;
        start_flight_comms_requested = false;
        credentials = s.credentials;
        aircraft_id = s.aircraft_id;
        current_position = s.current_position;
        active_flights = s.active_flights;
        flight_plan = none;
        flight = none;
        authorization = none;
        traffic_monitor = none;
        encryption_key = none;
        mission_geometry = s.mission_geometry;
        pilot_id = none;
        sent = ending s.authorization s.flight s.sent;
      }
  unfolding deactivate end_current_flight reset
  deactivate_lem s h = ground arith

module _ {D : Type 0} ⦃fl : Floating D⦄ (env : Env) where
  -- After the deactivation of any active submitter, the callback of a flight plan or a flight that
  -- was still being created, and the callback of a search that found flights, read the
  -- authorization, which is no longer there: undefined behaviour.
  pub late_reply :
      (s : Submitter D)
      → s.state ≡ active
      → ((plan : FlightPlan D) → deliver env (plan_reply (value plan)) (deactivate s) ≡ none)
        × ((flight : Flight D) → deliver env (point_reply (value flight)) (deactivate s) ≡ none)
        × ((f : Flight D) (fs : List (Flight D))
            → deliver env (flights_reply (value (f ∷ fs))) (deactivate s) ≡ none)
  unfolding deliver handle_request_create_flight_plan_finished request_submit_flight_plan
      handle_request_submit_flight_plan_finished request_monitor_traffic
      handle_request_active_flights_finished request_end_active_flights end_flights
  late_reply s h = let e = deactivate_lem s h in (λ plan. rw e, λ flight. rw e, λ f fs. rw e)
