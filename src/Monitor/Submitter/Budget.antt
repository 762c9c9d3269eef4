-- ===== src/Monitor/Submitter/Budget.antt =====
-- How often each call is made: the marks of the pending requests as a ledger.
pub mod Run
use platform_sdk.Base.{
  ℕ, ◌+◌, ◌≤◌, String, Bool, ◌≡◌, ◌≢◌, Option, none, some, List, [], ◌∷◌, arith, Option-cases, inl,
  inr, if◌then◌else◌,
}
use platform_sdk.Core.Floating.{Floating}
use platform_sdk.Core.Outcome.{value, error}
use platform_sdk.Core.Flight.{Credentials, Flight, FlightPlan}
use platform_sdk.Monitor.Submitter.Types.{
  active, Reply, authorization_reply, pilot_reply, flights_reply, ended_reply, plan_reply,
  point_reply, submitted_reply, monitor_reply, comms_reply, GlobalPositionInt, Env, Submitter,
  create,
}
use platform_sdk.Monitor.Submitter.Calls.{
  Kind, asks_authorization, asks_pilot, asks_flights, ends_active, plans, submits_plan, watches,
  starts_comms, is_kind, count,
}
use platform_sdk.Monitor.Submitter.Comms.{
  handle_request_start_flight_comms_finished, handle_request_monitor_traffic_finished,
  request_start_flight_comms, request_monitor_traffic, handle_request_submit_flight_plan_finished,
  request_submit_flight_plan, handle_request_create_flight_plan_finished,
}
use platform_sdk.Monitor.Submitter.Plan.{
  create_by_mission, create_by_position, request_create_flight_plan,
}
use platform_sdk.Monitor.Submitter.Steps.{
  end_flights, handle_request_end_active_flights_finished,
  handle_request_end_active_flight_finished, request_end_active_flights,
  handle_request_active_flights_finished, request_active_flights, handle_request_pilot_id_finished,
  request_pilot_id, handle_request_authorization_finished, request_authorization, activate, submit,
}
use platform_sdk.Monitor.Submitter.Events.{
  Event, activates, deactivates, submits, sets_mission, replies, set_mission_geometry, flight_of,
  end_current_flight, reset, deactivate, deliver, step, run,
}

-- The mark that guards the calls of a kind.
unfoldable pub mark : {D : Type 0} → Kind → Submitter D → Bool
mark asks_authorization s = s.authorization_requested
mark asks_pilot s = s.pilot_id_requested
mark asks_flights s = s.active_flights_requested
mark ends_active s = s.end_active_flights_requested
mark plans s = s.create_flight_plan_requested
mark submits_plan s = s.submit_flight_plan_requested
mark watches s = s.traffic_monitoring_requested
mark starts_comms s = s.start_flight_comms_requested

-- The calls made, and the one that may still be made with no event to allow it.
abbrev pub budget : {D : Type 0} → Kind → Submitter D → ℕ
budget k s = count k s.sent + (if mark k s then 0 else 1)

abbrev pub Within : {D : Type 0} → Kind → ℕ → Option (Submitter D) → Type 0
Within k n none = Unit {0}
Within k n (some s) = budget k s ≤ n

module _ {D : Type 0} ⦃fl : Floating D⦄ (k : Kind) (once : k ≢ ends_active) (n : ℕ) where
  pub submitted-Within :
      (flight : Flight D) (s : Submitter D)
      → budget k s ≤ n
      → Within k n (handle_request_submit_flight_plan_finished flight s)
  unfolding handle_request_submit_flight_plan_finished request_monitor_traffic
      handle_request_monitor_traffic_finished request_start_flight_comms
      handle_request_start_flight_comms_finished is_kind mark
  submitted-Within flight s b = ground arith

  pub created-Within :
      (plan : FlightPlan D) (s : Submitter D)
      → budget k s ≤ n
      → Within k n (handle_request_create_flight_plan_finished plan s)
  unfolding handle_request_create_flight_plan_finished request_submit_flight_plan is_kind mark
  created-Within plan s b = grind (arith, submitted-Within)

  create-Within :
      (env : Env) (s : Submitter D) → budget k s ≤ n → Within k n (request_create_flight_plan env s)
  unfolding request_create_flight_plan create_by_mission create_by_position is_kind mark
  create-Within env s b = grind (arith, created-Within)

  end_flights-Within :
      (fs : List (Flight D)) (s : Submitter D) → budget k s ≤ n → Within k n (end_flights fs s)
  unfolding end_flights
  end_flights-Within [] s b = b
  end_flights-Within (f ∷ fs) s b = elim (Option-cases s.authorization) [
    | inl e ↦ rw e tt
    | inr (t, e) ↦ rw e (end_flights-Within fs _ (unfold is_kind mark in ground arith))
  ]

  module _ (env : Env) where
    pub one_ended-Within :
        (id : String) (s : Submitter D)
        → budget k s ≤ n
        → Within k n (handle_request_end_active_flight_finished env id s)
    unfolding handle_request_end_active_flight_finished handle_request_end_active_flights_finished
        mark
    one_ended-Within id s b = grind (arith, create-Within)

    end_active-Within :
        (s : Submitter D) → budget k s ≤ n → Within k n (request_end_active_flights env s)
    unfolding request_end_active_flights handle_request_end_active_flights_finished mark
    end_active-Within s b = grind (arith, create-Within, end_flights-Within)

    pub flights-Within :
        (flights : List (Flight D)) (s : Submitter D)
        → budget k s ≤ n
        → Within k n (handle_request_active_flights_finished env flights s)
    unfolding handle_request_active_flights_finished mark
    flights-Within flights s b = end_active-Within _ (ground arith)

    request_flights-Within :
        (s : Submitter D) → budget k s ≤ n → Within k n (request_active_flights env s)
    unfolding request_active_flights is_kind mark
    request_flights-Within s b = grind (arith, flights-Within)

    pub pilot-Within :
        (pilot : String) (s : Submitter D)
        → budget k s ≤ n
        → Within k n (handle_request_pilot_id_finished env pilot s)
    unfolding handle_request_pilot_id_finished mark
    pilot-Within pilot s b = request_flights-Within _ (ground arith)

    request_pilot-Within : (s : Submitter D) → budget k s ≤ n → Within k n (request_pilot_id env s)
    unfolding request_pilot_id is_kind mark
    request_pilot-Within s b = grind (arith, pilot-Within)

    pub authorization-Within :
        (token : String) (s : Submitter D)
        → budget k s ≤ n
        → Within k n (handle_request_authorization_finished env token s)
    unfolding handle_request_authorization_finished mark
    authorization-Within token s b = request_pilot-Within _ (ground arith)

    request_authorization-Within :
        (s : Submitter D) → budget k s ≤ n → Within k n (request_authorization env s)
    unfolding request_authorization is_kind mark
    request_authorization-Within s b = grind (arith, authorization-Within)

    pub activate-Within : (s : Submitter D) → budget k s ≤ n → Within k n (activate env s)
    unfolding activate mark
    activate-Within s b = request_authorization-Within _ (ground arith)

    pub submit-Within :
        (position : GlobalPositionInt) (s : Submitter D)
        → budget k s ≤ n
        → Within k n (submit env position s)
    unfolding submit is_kind mark
    submit-Within position s b = grind (arith, request_authorization-Within)
