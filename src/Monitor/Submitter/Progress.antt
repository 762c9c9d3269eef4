-- ===== src/Monitor/Submitter/Progress.antt =====
-- From activation to telemetry.
pub mod Mission
pub mod Stall
use platform_sdk.Base.{
  ℕ, String, Bool, true, false, ◌≡◌, Option, none, some, ◌>>=◌, List, [], ◌∷◌, ◌++◌, ap, ◌∙◌, arith,
  Option-cases, inl, inr, All,
}
use platform_sdk.Core.Floating.{Floating}
use platform_sdk.Core.Outcome.{value, error}
use platform_sdk.Core.Geometry.{Geometry, Polygon, polygon, details_for_polygon}
use platform_sdk.Core.Flight.{Credentials, Flight, FlightPlan}
use platform_sdk.Monitor.Submitter.Types.{
  active, inactive, GlobalPositionInt, Request, submit_updates, subscribe,
  start_flight_communications, monitor, search, authenticated, authenticate_with_password,
  authenticate_anonymously, Reply, authorization_reply, pilot_reply, flights_reply, plan_reply,
  point_reply, submitted_reply, monitor_reply, comms_reply, Env, Submitter, create,
}
use platform_sdk.Monitor.Submitter.Comms.{
  request_submit_flight_plan, handle_request_create_flight_plan_finished,
}
use platform_sdk.Monitor.Submitter.Plan.{create_by_mission, request_create_flight_plan}
use platform_sdk.Monitor.Submitter.Steps.{
  handle_request_end_active_flights_finished, request_end_active_flights,
  handle_request_active_flights_finished, request_active_flights, handle_request_pilot_id_finished,
  request_pilot_id, handle_request_authorization_finished, request_authorization, activate,
  position_of, submit,
}
use platform_sdk.Monitor.Submitter.Events.{
  Event, activates, deactivates, submits, sets_mission, replies, set_mission_geometry, flight_of,
  deliver, step, run,
}
use platform_sdk.Monitor.Submitter.Leftovers.{run-append, found, cleared, run-found}
use platform_sdk.Monitor.Submitter.Safety.{HasValue}

module _ {D : Type 0} ⦃fl : Floating D⦄ where
  -- The calls made, the latest first, where the run returned.
  abbrev pub made : Option (Submitter D) → Option (List (Request D))
  made none = none
  made (some s) = some s.sent

  abbrev pub login : Env → Credentials → Request D
  login env c = elim c.oauth [
    | some o ↦ authenticate_with_password o
    | none ↦ authenticate_anonymously env.uuid
  ]

  -- The calls from the authorization to the search for flights, the latest first.
  abbrev pub introduction : Env → Credentials → String → String → List (Request D)
  introduction env c token pilot =
      search env.now env.now (some pilot) ∷ authenticated token ∷ login env c ∷ []

  -- The calls of a flight, from its traffic to a position, the latest first.
  abbrev pub followed :
      Env → String → Flight D → ℕ → String → GlobalPositionInt → List (Request D) → List (Request D)
  followed env token flight m key q before =
      submit_updates flight key (position_of env q)
      ∷ subscribe m
      ∷ start_flight_communications token flight.id
      ∷ monitor flight.id token
      ∷ before

  abbrev pub at : Env → List (Event D) → List (Env × Event D)
  at env [] = []
  at env (e ∷ es) = (env, e) ∷ at env es

  -- The events up to the call that searches for flights.
  abbrev pub introducing : GlobalPositionInt → String → String → List (Event D)
  introducing p token pilot =
      submits p
      ∷ activates
      ∷ replies (authorization_reply (value token))
      ∷ replies (pilot_reply (value pilot))
      ∷ []

  -- The search for flights was the last of the calls, and nothing has been asked for that follows.
  pub record IsSearching (aircraft token pilot : String) (p : GlobalPositionInt)
      (mission : Option (Geometry D)) (calls : List (Request D)) (s : Submitter D) : Type 0 where
    pub sent : s.sent ≡ calls
    pub is_active : s.state ≡ active
    pub identified : s.aircraft_id ≡ aircraft
    pub authorized : s.authorization ≡ some token
    pub piloted : s.pilot_id ≡ some pilot
    pub placed : s.current_position ≡ some p
    pub planned : s.mission_geometry ≡ mission
    pub none_ended : s.end_active_flights_requested ≡ false
    pub no_plan : s.flight_plan ≡ none
    pub not_created : s.create_flight_plan_requested ≡ false
    pub not_submitted : s.submit_flight_plan_requested ≡ false
    pub no_flight : s.flight ≡ none
    pub no_monitor : s.traffic_monitor ≡ none
    pub not_watched : s.traffic_monitoring_requested ≡ false
    pub no_key : s.encryption_key ≡ none
    pub not_started : s.start_flight_comms_requested ≡ false

  -- From the search on, for a new submitter of that mission.
  pub run-introducing :
      (env : Env) (c : Credentials) (aircraft : String) (p : GlobalPositionInt)
      (token pilot : String) (mission : Option (Geometry D)) (fs : List (Flight D))
      (rest : List (Env × Event D)) {calls : List (Request D)}
      → ((s : Submitter D)
          → IsSearching aircraft token pilot p mission (introduction env c token pilot) s
          → made (request_create_flight_plan env (cleared token fs s) >>= λ t. run rest t)
            ≡ some calls)
      → made (
          run
            (at env (introducing p token pilot) ++ (found env fs ++ rest))
            (record (create c aircraft) { mission_geometry = mission }))
        ≡ some calls
  unfolding run step deliver submit activate create request_authorization
      handle_request_authorization_finished request_pilot_id handle_request_pilot_id_finished
      request_active_flights
  run-introducing env c aircraft p token pilot mission fs rest {calls = calls} h =
      elim (Option-cases c.oauth) [
        | inl e ↦ rw e (searched _ (ground arith))
        | inr (o, e) ↦ rw e (searched _ (ground arith))
      ]
    where
      searched :
          (s : Submitter D)
          → IsSearching aircraft token pilot p mission (introduction env c token pilot) s
          → made (run (found env fs ++ rest) s) ≡ some calls
      searched s v =
          ap made (run-append (found env fs) rest s)
          ∙ ap (λ o. made (o >>= λ t. run rest t))
              (run-found env token fs s v.authorized v.none_ended)
          ∙ h s v

  -- A vehicle without a mission: its position is known, and the services answer each call.
  abbrev pub flight_by_point :
      Env
      → GlobalPositionInt
      → GlobalPositionInt
      → String
      → String
      → List (Flight D)
      → Flight D
      → ℕ
      → String
      → List (Env × Event D)
  flight_by_point env p q token pilot leftovers flight m key =
      at env (introducing p token pilot)
      ++ (found env leftovers
          ++ at env (
              replies (point_reply (value flight))
              ∷ replies (monitor_reply (value m))
              ∷ replies (comms_reply (value key))
              ∷ submits q
              ∷ []))
