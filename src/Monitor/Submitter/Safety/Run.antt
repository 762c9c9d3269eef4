-- ===== src/Monitor/Submitter/Safety/Run.antt =====
-- Runs of a submitter that is never deactivated.
use platform_sdk.Base.{
  String, Bool, true, false, is_some, ◌≡◌, none, some, List, [], ◌∷◌, arith, Option-cases, inl, inr,
}
use platform_sdk.Core.Floating.{Floating}
use platform_sdk.Core.Outcome.{value, error}
use platform_sdk.Core.Flight.{Flight}
use platform_sdk.Monitor.Submitter.Types.{
  GlobalPositionInt, Reply, authorization_reply, pilot_reply, flights_reply, ended_reply,
  plan_reply, point_reply, submitted_reply, monitor_reply, comms_reply, end_flight_reply, Env,
  Submitter,
}
use platform_sdk.Monitor.Submitter.Calls.{
  asks_pilot, asks_flights, ends_active, plans, submits_plan, is_kind, asked,
}
use platform_sdk.Monitor.Submitter.Comms.{
  handle_request_start_flight_comms_finished, handle_request_monitor_traffic_finished,
}
use platform_sdk.Monitor.Submitter.Steps.{
  end_flights, handle_request_end_active_flights_finished,
  handle_request_end_active_flight_finished, request_end_active_flights,
  handle_request_active_flights_finished, request_active_flights, handle_request_pilot_id_finished,
  request_pilot_id, handle_request_authorization_finished, request_authorization, activate, submit,
}
use platform_sdk.Monitor.Submitter.Events.{
  Event, activates, deactivates, submits, sets_mission, replies, set_mission_geometry, flight_of,
  deliver, step,
}
use platform_sdk.Monitor.Submitter.Safety.{
  HasValue, Plannable, Inv, Safe, submitted-Safe, created-Safe, request_create-Safe,
}

module _ {D : Type 0} ⦃fl : Floating D⦄ where
  end_flights-Safe :
      (fs : List (Flight D)) (s : Submitter D)
      → Inv s
      → HasValue s.active_flights
      → Safe (end_flights fs s)
  unfolding end_flights
  end_flights-Safe [] s v a = v
  end_flights-Safe (f ∷ fs) s v a = elim (Option-cases s.authorization) [
    | inl e ↦ absurd (ground arith)
    | inr (t, e) ↦ rw e (end_flights-Safe fs _ (unfold is_kind in ground arith) a)
  ]

  module _ (env : Env) where
    all_ended-Safe :
        (s : Submitter D)
        → Inv s
        → HasValue s.pilot_id
        → Safe (handle_request_end_active_flights_finished env s)
    unfolding handle_request_end_active_flights_finished
    all_ended-Safe s v p = request_create-Safe env s v p

    one_ended-Safe :
        (id : String) (s : Submitter D)
        → Inv s
        → HasValue s.active_flights
        → Safe (handle_request_end_active_flight_finished env id s)
    unfolding handle_request_end_active_flight_finished
    one_ended-Safe id s v a = grind (arith, all_ended-Safe)

    end_active-Safe :
        (s : Submitter D)
        → Inv s
        → HasValue s.active_flights
        → Safe (request_end_active_flights env s)
    unfolding request_end_active_flights
    end_active-Safe s v a = grind (arith, all_ended-Safe, end_flights-Safe)

    flights-Safe :
        (flights : List (Flight D)) (s : Submitter D)
        → Inv s
        → HasValue s.pilot_id
        → Safe (handle_request_active_flights_finished env flights s)
    unfolding handle_request_active_flights_finished
    flights-Safe flights s v p = end_active-Safe _ (ground arith) (ground arith)

    request_flights-Safe :
        (s : Submitter D) → Inv s → HasValue s.pilot_id → Safe (request_active_flights env s)
    unfolding request_active_flights is_kind
    request_flights-Safe s v p = grind (arith, flights-Safe)

    pilot-Safe :
        (pilot : String) (s : Submitter D)
        → Inv s
        → HasValue s.authorization
        → Safe (handle_request_pilot_id_finished env pilot s)
    unfolding handle_request_pilot_id_finished
    pilot-Safe pilot s v a = request_flights-Safe _ (ground arith) (ground arith)

    request_pilot-Safe :
        (s : Submitter D) → Inv s → HasValue s.authorization → Safe (request_pilot_id env s)
    unfolding request_pilot_id is_kind
    request_pilot-Safe s v a = grind (arith, pilot-Safe)

    authorization-Safe :
        (token : String) (s : Submitter D)
        → Inv s
        → Safe (handle_request_authorization_finished env token s)
    unfolding handle_request_authorization_finished
    authorization-Safe token s v = request_pilot-Safe _ (ground arith) (ground arith)

    request_authorization-Safe : (s : Submitter D) → Inv s → Safe (request_authorization env s)
    unfolding request_authorization is_kind
    request_authorization-Safe s v = grind (arith, authorization-Safe)

    activate-Safe : (s : Submitter D) → Inv s → Safe (activate env s)
    unfolding activate
    activate-Safe s v = request_authorization-Safe _ (ground arith)

    submit-Safe :
        (position : GlobalPositionInt) (s : Submitter D) → Inv s → Safe (submit env position s)
    unfolding submit is_kind
    submit-Safe position s v = grind (arith, request_authorization-Safe)

  -- A callback runs only for a call that was made.
  abbrev pub Answers : Reply D → Submitter D → Type 0
  Answers (authorization_reply r) s = Unit {0}
  Answers (pilot_reply r) s = asked asks_pilot s.sent ≡ true
  Answers (flights_reply r) s = asked asks_flights s.sent ≡ true
  Answers (ended_reply id r) s = asked ends_active s.sent ≡ true
  Answers (plan_reply r) s = asked plans s.sent ≡ true
  Answers (point_reply r) s = asked plans s.sent ≡ true
  Answers (submitted_reply r) s = asked submits_plan s.sent ≡ true
  Answers (monitor_reply r) s = Unit {0}
  Answers (comms_reply r) s = Unit {0}
  Answers (end_flight_reply r) s = Unit {0}

  -- A submitted plan comes back with its flight.
  abbrev pub has_flight : Event D → Bool
  has_flight (replies (submitted_reply (value plan))) = is_some plan.flight_id
  has_flight _ = true

  deliver-Safe :
      (env : Env) (r : Reply D) (s : Submitter D)
      → Inv s
      → Answers r s
      → has_flight (replies r) ≡ true
      → Safe (deliver env r s)
  unfolding deliver flight_of handle_request_start_flight_comms_finished
      handle_request_monitor_traffic_finished is_kind
  deliver-Safe env (authorization_reply (value id)) s v h f = authorization-Safe env id s v
  deliver-Safe env (pilot_reply (value id)) s v h f = pilot-Safe env id s v (v.pilot_asked h)
  deliver-Safe env (flights_reply (value fs)) s v h f = flights-Safe env fs s v (v.flights_asked h)
  deliver-Safe env (ended_reply id (value u)) s v h f = one_ended-Safe env id s v (v.end_asked h)
  deliver-Safe env (plan_reply (value plan)) s v h f = created-Safe plan s v (v.plan_asked h)
  deliver-Safe env (point_reply (value flight)) s v h f = submitted-Safe flight s v (v.plan_asked h)
  deliver-Safe env (submitted_reply (value plan)) s v h f = grind (arith, submitted-Safe)
  deliver-Safe env _ s v h f = ground arith

  -- What may happen while the vehicle stays active: a mission, where one is set, can be planned.
  abbrev pub Allowed : Event D → Submitter D → Type 0
  Allowed activates s = Unit {0}
  Allowed deactivates s = ⊥
  Allowed (submits position) s = Unit {0}
  Allowed (sets_mission g) s = Plannable (some g)
  Allowed (replies r) s = Answers r s

  pub step-Safe :
      (env : Env) (e : Event D) (s : Submitter D)
      → Inv s
      → Allowed e s
      → has_flight e ≡ true
      → Safe (step (env, e) s)
  unfolding step set_mission_geometry
  step-Safe env activates s v h f = activate-Safe env s v
  step-Safe env deactivates s v h f = absurd h
  step-Safe env (submits position) s v h f = submit-Safe env position s v
  step-Safe env (sets_mission g) s v h f = ground arith
  step-Safe env (replies r) s v h f = deliver-Safe env r s v h f

  -- The flight of a submitted plan is read without a test.
  pub step_without_flight :
      (env : Env) (e : Event D) (s : Submitter D) → has_flight e ≡ false → step (env, e) s ≡ none
  unfolding step deliver flight_of
  step_without_flight env activates s h = ground arith
  step_without_flight env deactivates s h = ground arith
  step_without_flight env (submits position) s h = ground arith
  step_without_flight env (sets_mission g) s h = ground arith
  step_without_flight env (replies (submitted_reply (value plan))) s h = ground arith
  step_without_flight env (replies (submitted_reply (error e))) s h = ground arith
  step_without_flight env (replies (authorization_reply r)) s h = ground arith
  step_without_flight env (replies (pilot_reply r)) s h = ground arith
  step_without_flight env (replies (flights_reply r)) s h = ground arith
  step_without_flight env (replies (ended_reply id r)) s h = ground arith
  step_without_flight env (replies (plan_reply r)) s h = ground arith
  step_without_flight env (replies (point_reply r)) s h = ground arith
  step_without_flight env (replies (monitor_reply r)) s h = ground arith
  step_without_flight env (replies (comms_reply r)) s h = ground arith
  step_without_flight env (replies (end_flight_reply r)) s h = ground arith
