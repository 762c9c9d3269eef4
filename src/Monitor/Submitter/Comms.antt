-- ===== src/Monitor/Submitter/Comms.antt =====
-- The end of the chain: from a created flight to traffic monitoring and flight communications.
-- `none` is undefined behaviour: the code reads an unset `Optional`. A callback runs later, as an
-- event of its own.
use platform_sdk.Base.{ℕ, String, true, Option, none, some, ◌>>=◌, ◌∷◌, if◌then◌else◌}
use platform_sdk.Core.Flight.{Flight, FlightPlan}
use platform_sdk.Monitor.Submitter.Types.{
  Request, submit_plan, monitor, start_flight_communications, subscribe, Submitter,
}

module _ {D : Type 0} where
  abbrev pub send : Request D → Submitter D → Submitter D
  send r s = record s { sent = r ∷ s.sent }

  unfoldable pub handle_request_start_flight_comms_finished :
      String → Submitter D → Option (Submitter D)
  handle_request_start_flight_comms_finished key s = some (record s { encryption_key = some key })

  unfoldable pub request_start_flight_comms : Submitter D → Option (Submitter D)
  request_start_flight_comms s = elim s.encryption_key [
    | some key ↦ handle_request_start_flight_comms_finished key s
    | none ↦ if s.start_flight_comms_requested then some s else do
      authorization ← s.authorization
      flight ← s.flight
      some (
          send (start_flight_communications authorization flight.id)
            (record s { start_flight_comms_requested = true }))
  ]

  unfoldable pub handle_request_monitor_traffic_finished : ℕ → Submitter D → Option (Submitter D)
  handle_request_monitor_traffic_finished m s =
      some (send (subscribe m) (record s { traffic_monitor = some m }))

  unfoldable pub request_monitor_traffic : Submitter D → Option (Submitter D)
  request_monitor_traffic s = elim s.traffic_monitor [
    | some m ↦ handle_request_monitor_traffic_finished m s
    | none ↦ if s.traffic_monitoring_requested then some s else do
      flight ← s.flight
      authorization ← s.authorization
      some (
          send (monitor flight.id authorization) (record s { traffic_monitoring_requested = true }))
  ]

  unfoldable pub handle_request_submit_flight_plan_finished :
      Flight D → Submitter D → Option (Submitter D)
  handle_request_submit_flight_plan_finished flight s = do
    watched ← request_monitor_traffic (record s { flight = some flight })
    request_start_flight_comms watched

  unfoldable pub request_submit_flight_plan : Submitter D → Option (Submitter D)
  request_submit_flight_plan s = elim s.flight [
    | some flight ↦ handle_request_submit_flight_plan_finished flight s
    | none ↦ if s.submit_flight_plan_requested then some s else do
      authorization ← s.authorization
      plan ← s.flight_plan
      some (
          send (submit_plan authorization plan.id)
            (record s { submit_flight_plan_requested = true }))
  ]

  unfoldable pub handle_request_create_flight_plan_finished :
      FlightPlan D → Submitter D → Option (Submitter D)
  handle_request_create_flight_plan_finished plan s =
      request_submit_flight_plan (record s { flight_plan = some plan })
