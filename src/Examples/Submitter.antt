-- ===== src/Examples/Submitter.antt =====
-- The submitter at work.
use platform_sdk.Base.{ℕ, ◌+◌, ◌≤◌, ◌≡◌, refl, Option, none, some, is_some, List, [], ◌∷◌, true}
use platform_sdk.Core.Flight.{Flight}
use platform_sdk.Core.Outcome.{value, error}
use platform_sdk.Monitor.Submitter.Types.{
  authorization_reply, pilot_reply, flights_reply, point_reply, plan_reply, Submitter, create, Env,
}
use platform_sdk.Monitor.Submitter.Calls.{asks_authorization, is_kind, count}
use platform_sdk.Monitor.Submitter.Comms.{
  handle_request_submit_flight_plan_finished, request_monitor_traffic, request_start_flight_comms,
  handle_request_monitor_traffic_finished, handle_request_start_flight_comms_finished,
}
use platform_sdk.Monitor.Submitter.Plan.{
  max_element, max_altitude, create_by_position, request_create_flight_plan,
}
use platform_sdk.Monitor.Submitter.Steps.{
  handle_request_end_active_flights_finished, request_end_active_flights,
  handle_request_active_flights_finished, request_active_flights, handle_request_pilot_id_finished,
  request_pilot_id, handle_request_authorization_finished, request_authorization, activate, submit,
}
use platform_sdk.Monitor.Submitter.Events.{
  Event, activates, submits, replies, flight_of, deactivate, deliver, step, run,
}
use platform_sdk.Monitor.Submitter.Safety.Reach.{
  Reach, ordered, start, next, Reach-step_returns, Reach-ordered,
}
use platform_sdk.Monitor.Submitter.Budget.Run.{refunds, count-run-le}
use platform_sdk.Monitor.Submitter.Deactivation.{late_reply}
use platform_sdk.Monitor.Submitter.Progress.{at}
use platform_sdk.Examples.Fixtures.{
  whole_floating, error_value, credentials, env, position, flight, plan,
}

abbrev new : Submitter ℕ
new = create credentials "drone"

-- The state after some events; a run that fails gives the state at the start.
abbrev or_new : Option (Submitter ℕ) → Submitter ℕ
or_new none = new
or_new (some s) = s

reached : List (Event ℕ) → Submitter ℕ
unfolding run step deliver submit activate create request_authorization
    handle_request_authorization_finished request_pilot_id handle_request_pilot_id_finished
    request_active_flights handle_request_active_flights_finished request_end_active_flights
    handle_request_end_active_flights_finished request_create_flight_plan create_by_position
    handle_request_submit_flight_plan_finished request_monitor_traffic request_start_flight_comms
    handle_request_monitor_traffic_finished handle_request_start_flight_comms_finished is_kind
    max_altitude max_element flight_of
reached es = or_new (run (at env es) new)

abbrev authorized : List (Event ℕ)
authorized = activates ∷ replies (authorization_reply (value "token")) ∷ []

activated_Reach : Reach credentials "drone" (reached (activates ∷ []))
unfolding reached
activated_Reach = next env activates start tt refl

Reach-step_returns_example :
    is_some (step (env, replies (authorization_reply (value "token"))) (reached (activates ∷ [])))
    ≡ true
Reach-step_returns_example =
    Reach-step_returns env (replies (authorization_reply (value "token"))) activated_Reach tt

authorized_Reach : Reach credentials "drone" (reached authorized)
unfolding reached
authorized_Reach = next env (replies (authorization_reply (value "token"))) activated_Reach tt refl

Reach-ordered_example : ordered (reached authorized) ≡ true
Reach-ordered_example = Reach-ordered authorized_Reach

-- The first call for authorization fails, and the next position makes it again.
abbrev retried : List (Env × Event ℕ)
retried =
    at env (activates ∷ replies (authorization_reply (error error_value)) ∷ submits position ∷ [])

count-run-le_example :
    count asks_authorization
      (reached (
        activates ∷ replies (authorization_reply (error error_value)) ∷ submits position ∷ [])).sent
    ≤ 1 + refunds asks_authorization retried
unfolding reached
count-run-le_example = count-run-le asks_authorization (λ e. cc) credentials "drone" retried refl

flying : Submitter ℕ
unfolding reached
flying = reached (
    submits position
    ∷ activates
    ∷ replies (authorization_reply (value "token"))
    ∷ replies (pilot_reply (value "pilot|1"))
    ∷ replies (flights_reply (value []))
    ∷ replies (point_reply (value flight))
    ∷ [])

late_reply_example : deliver env (plan_reply (value plan)) (deactivate flying) ≡ none
unfolding flying
late_reply_example = (late_reply env flying refl).0 plan

-- Another flight of the pilot.
abbrev older : Flight ℕ
older = record flight { id = "flight|0" }

abbrev planned_flight : Flight ℕ
planned_flight = record {
  id = "flight|1";
  flight_plan_id = some "plan|1";
  pilot = "pilot|1";
  aircraft = "drone";
  latitude = 47;
  longitude = 8;
  max_altitude = 120;
  geometry = plan.geometry;
  created_at = 5000000;
  start_time = 0;
  end_time = 3600000000;
}
