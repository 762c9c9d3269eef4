-- ===== src/Monitor/Submitter/Budget/Run.antt =====
-- The calls of whole runs against the failures and the deactivations.
use platform_sdk.Base.{
  ℕ, ◌+◌, ◌≤◌, String, ◌≡◌, ◌≢◌, Option, none, some, List, [], ◌∷◌, arith, Option-cases, inl, inr,
}
use platform_sdk.Core.Floating.{Floating}
use platform_sdk.Core.Outcome.{value, error}
use platform_sdk.Core.Flight.{Credentials}
use platform_sdk.Monitor.Submitter.Types.{
  Reply, authorization_reply, pilot_reply, flights_reply, ended_reply, plan_reply, point_reply,
  submitted_reply, monitor_reply, comms_reply, Env, Submitter, create,
}
use platform_sdk.Monitor.Submitter.Calls.{
  Kind, asks_authorization, asks_pilot, asks_flights, ends_active, plans, submits_plan, watches,
  starts_comms, is_kind, count,
}
use platform_sdk.Monitor.Submitter.Comms.{
  handle_request_start_flight_comms_finished, handle_request_monitor_traffic_finished,
}
use platform_sdk.Monitor.Submitter.Steps.{activate}
use platform_sdk.Monitor.Submitter.Events.{
  Event, activates, deactivates, submits, sets_mission, replies, set_mission_geometry, flight_of,
  end_current_flight, reset, deactivate, deliver, step, run,
}
use platform_sdk.Monitor.Submitter.Budget.{
  mark, budget, Within, submitted-Within, created-Within, authorization-Within, pilot-Within,
  flights-Within, one_ended-Within, activate-Within, submit-Within,
}

-- The failures and deactivations that allow one more call of a kind.
unfoldable pub refund : {D : Type 0} → Kind → Event D → ℕ
refund k deactivates = 1
refund asks_authorization (replies (authorization_reply (error e))) = 1
refund asks_pilot (replies (pilot_reply (error e))) = 1
refund asks_flights (replies (flights_reply (error e))) = 1
refund plans (replies (plan_reply (error e))) = 1
refund plans (replies (point_reply (error e))) = 1
refund submits_plan (replies (submitted_reply (error e))) = 1
refund watches (replies (monitor_reply (error e))) = 1
refund starts_comms (replies (comms_reply (error e))) = 1
refund _ _ = 0

abbrev pub refunds : {D : Type 0} → Kind → List (Env × Event D) → ℕ
refunds k [] = 0
refunds k ((env, e) ∷ es) = refund k e + refunds k es

budget-create :
    (D : Type 0) (k : Kind) (c : Credentials) (aircraft : String)
    → budget {D = D} k (create c aircraft) ≡ 1
unfolding create mark
budget-create D k c aircraft = ground arith

module _ {D : Type 0} ⦃fl : Floating D⦄ (k : Kind) (once : k ≢ ends_active) where
  deliver-Within :
      (env : Env) (r : Reply D) (s : Submitter D)
      → Within k (budget k s + refund k (replies r)) (deliver env r s)
  unfolding deliver flight_of refund handle_request_start_flight_comms_finished
      handle_request_monitor_traffic_finished is_kind mark
  deliver-Within env (authorization_reply (value id)) s =
      authorization-Within k once _ env id s (omega arith)
  deliver-Within env (pilot_reply (value id)) s = pilot-Within k once _ env id s (omega arith)
  deliver-Within env (flights_reply (value fs)) s = flights-Within k once _ env fs s (omega arith)
  deliver-Within env (ended_reply id (value u)) s = one_ended-Within k once _ env id s (omega arith)
  deliver-Within env (plan_reply (value plan)) s = created-Within k once _ plan s (omega arith)
  deliver-Within env (point_reply (value f)) s = submitted-Within k once _ f s (omega arith)
  deliver-Within env (submitted_reply (value plan)) s = elim (Option-cases plan.flight_id) [
    | inl e ↦ rw (e, flight_of) tt
    | inr (id, e) ↦ rw (e, flight_of) (submitted-Within k once _ _ s (omega arith))
  ]
  deliver-Within env _ s = ground arith

  step-Within :
      (env : Env) (e : Event D) (s : Submitter D)
      → Within k (budget k s + refund k e) (step (env, e) s)
  unfolding step activate refund
  step-Within env activates s = activate-Within k once _ env s (omega arith)
  step-Within env deactivates s =
      unfold deactivate end_current_flight reset is_kind mark in ground arith
  step-Within env (submits position) s = submit-Within k once _ env position s (omega arith)
  step-Within env (sets_mission g) s = unfold set_mission_geometry mark in ground arith
  step-Within env (replies r) s = deliver-Within env r s

  Within-mono : (m n : ℕ) (o : Option (Submitter D)) → m ≤ n → Within k m o → Within k n o
  Within-mono m n none h w = tt
  Within-mono m n (some s) h w = omega arith

  run-Within :
      (es : List (Env × Event D)) (s : Submitter D)
      → Within k (budget k s + refunds k es) (run es s)
  unfolding run
  run-Within [] s = omega arith
  run-Within ((env, e) ∷ es) s = elim (Option-cases (step (env, e) s)) [
    | inl q ↦ rw q tt
    | inr (t, q) ↦
        let spent = rw q at (step-Within env e s) in
        rw q (Within-mono _ _ (run es t) (omega arith) (run-Within es t))
  ]

  -- From its creation on, whatever happens and in whatever order, a submitter that has not met
  -- undefined behaviour made each call but the one that ends an active flight at most once, and once
  -- more for each error that came back for a call of that kind and for each deactivation.
  pub count-run-le :
      (c : Credentials) (aircraft : String) (es : List (Env × Event D)) {t : Submitter D}
      → run es (create c aircraft) ≡ some t
      → count k t.sent ≤ 1 + refunds k es
  count-run-le c aircraft es {t} q =
      let spent = rw q at (run-Within es (create c aircraft)) in
      omega (arith, budget-create D k c aircraft)
