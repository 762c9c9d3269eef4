-- ===== src/Monitor/Submitter/Safety.antt =====
-- Where the chain reads only what is set: the order in which the values of a submitter come in.
pub mod Run
pub mod Reach
use platform_sdk.Base.{
  String, Bool, true, false, ◌||◌, ◌≡◌, Option, none, some, ◌>>=◌, is_some, List, [], ◌∷◌, arith,
}
use platform_sdk.Core.Floating.{Floating}
use platform_sdk.Core.Geometry.{Geometry, details_for_polygon}
use platform_sdk.Core.Flight.{Flight, FlightPlan}
use platform_sdk.Monitor.Submitter.Types.{
  GlobalPositionInt, Request, authenticated, search, end_active_flight, create_by_polygon,
  create_flight_by_point, submit_plan, Env, Submitter,
}
use platform_sdk.Monitor.Submitter.Calls.{
  asks_pilot, asks_flights, ends_active, plans, submits_plan, is_kind, asked,
}
use platform_sdk.Monitor.Submitter.Comms.{
  handle_request_start_flight_comms_finished, handle_request_monitor_traffic_finished,
  request_start_flight_comms, request_monitor_traffic, handle_request_submit_flight_plan_finished,
  request_submit_flight_plan, handle_request_create_flight_plan_finished,
}
use platform_sdk.Monitor.Submitter.Plan.{
  max_altitude, create_by_mission, create_by_position, request_create_flight_plan,
}

abbrev pub HasValue {ℓ} : {A : Type ℓ} → Option A → Type 0
HasValue o = is_some o ≡ true

-- A mission from which a flight plan can be created: a polygon whose coordinates have altitudes.
abbrev pub Plannable : {D : Type 0} ⦃fl : Floating D⦄ → Option (Geometry D) → Type 0
Plannable none = Unit {0}
Plannable (some g) = HasValue (details_for_polygon g >>= λ p. max_altitude p.outer_ring.coordinates)

-- Each value was asked for with the one before it in hand.
pub record Inv {D : Type 0} ⦃fl : Floating D⦄ (s : Submitter D) : Type 0 where
  pub pilot : HasValue s.pilot_id → HasValue s.authorization
  pub flights : HasValue s.active_flights → HasValue s.pilot_id
  pub mission : Plannable s.mission_geometry
  pub pilot_asked : asked asks_pilot s.sent ≡ true → HasValue s.authorization
  pub flights_asked : asked asks_flights s.sent ≡ true → HasValue s.pilot_id
  pub end_asked : asked ends_active s.sent ≡ true → HasValue s.active_flights
  pub plan_asked : asked plans s.sent ≡ true → HasValue s.authorization
  pub submit_asked : asked submits_plan s.sent ≡ true → HasValue s.authorization

-- The method returns, and the state that it leaves is in order.
abbrev pub Safe : {D : Type 0} ⦃fl : Floating D⦄ → Option (Submitter D) → Type 0
Safe none = ⊥
Safe (some s) = Inv s

module _ {D : Type 0} ⦃fl : Floating D⦄ where
  comms_finished-Safe :
      (key : String) (s : Submitter D)
      → Inv s
      → Safe (handle_request_start_flight_comms_finished key s)
  unfolding handle_request_start_flight_comms_finished
  comms_finished-Safe key s v = ground arith

  request_comms-Safe :
      (s : Submitter D)
      → Inv s
      → HasValue s.authorization
      → HasValue s.flight
      → Safe (request_start_flight_comms s)
  unfolding request_start_flight_comms handle_request_start_flight_comms_finished is_kind
  request_comms-Safe s v a f = ground arith

  pub submitted-Safe :
      (flight : Flight D) (s : Submitter D)
      → Inv s
      → HasValue s.authorization
      → Safe (handle_request_submit_flight_plan_finished flight s)
  unfolding handle_request_submit_flight_plan_finished request_monitor_traffic
      handle_request_monitor_traffic_finished request_start_flight_comms
      handle_request_start_flight_comms_finished is_kind
  submitted-Safe flight s v a = ground arith

  request_submit-Safe :
      (s : Submitter D)
      → Inv s
      → HasValue s.authorization
      → HasValue s.flight_plan
      → Safe (request_submit_flight_plan s)
  unfolding request_submit_flight_plan is_kind
  request_submit-Safe s v a f = grind (arith, submitted-Safe)

  pub created-Safe :
      (plan : FlightPlan D) (s : Submitter D)
      → Inv s
      → HasValue s.authorization
      → Safe (handle_request_create_flight_plan_finished plan s)
  unfolding handle_request_create_flight_plan_finished
  created-Safe plan s v a =
      ground (arith, request_submit-Safe (record s { flight_plan = some plan }))

  by_mission-Safe :
      (env : Env) (position : GlobalPositionInt) (g : Geometry D) (s : Submitter D)
      → Inv s
      → HasValue s.authorization
      → HasValue s.pilot_id
      → Plannable (some g)
      → Safe (create_by_mission env position g s)
  unfolding create_by_mission is_kind
  by_mission-Safe env position g s v a p m = ground arith

  by_position-Safe :
      (env : Env) (position : GlobalPositionInt) (s : Submitter D)
      → Inv s
      → HasValue s.authorization
      → Safe (create_by_position env position s)
  unfolding create_by_position is_kind
  by_position-Safe env position s v a = ground arith

  pub request_create-Safe :
      (env : Env) (s : Submitter D)
      → Inv s
      → HasValue s.pilot_id
      → Safe (request_create_flight_plan env s)
  unfolding request_create_flight_plan
  request_create-Safe env s v p = grind (arith, created-Safe, by_mission-Safe, by_position-Safe)
